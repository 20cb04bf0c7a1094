-- ===== src/Blobs/Local/Sound.antt =====
-- Every blob in the store has the content that its name is the hash of, also after failures.
use rollout.Prelude.{
  ℕ, ◌/◌, ◌==◌, ◌≡◌, refl, sym, ◌∙◌, Bool, true, false, [], ◌∷◌, ◌++◌, Option, none, some, arith,
  take, drop, codes, bytes_eq, bytes_eq→eq, bytes_eq_refl, Bool-cases, inl, inr,
}
use rollout.Core.Ids.{Bytes, ContentId, hex_digit, content_str, content_str-injective}
use rollout.Core.Keys.{path_eq, path_eq_refl}
use rollout.Core.Errors.{Result, ok, CoreError}
use rollout.Core.Externals.{Blake3, UlidText}
use rollout.Blobs.Local.{
  FilePath, Files, set_file, Write, written, broken, not_opened, write, path_for, step_to,
  after_rename, renamed, temp_path_for_pending,
}

path_eq-append : (root xs ys : FilePath) → path_eq (root ++ xs) (root ++ ys) ≡ path_eq xs ys
path_eq-append [] xs ys = refl
path_eq-append (segment ∷ root) xs ys = rw (bytes_eq_refl segment) (path_eq-append root xs ys)

-- A digit is no dot.
digit_ne_dot : (d : ℕ) → (46 == hex_digit d) ≡ false
unfolding hex_digit
digit_ne_dot d = ground arith

dotted :
    (a b : ContentId) (rest : Bytes) → bytes_eq (content_str a ++ 46 ∷ rest) (content_str b) ≡ false
unfolding content_str
dotted [] [] rest = refl
dotted [] (y ∷ b) rest = rw (digit_ne_dot (y / 16)) refl
dotted (x ∷ a) [] rest = refl
dotted (x ∷ a) (y ∷ b) rest = ground (arith, dotted a b rest)

-- No blob has this path.
abbrev pub NotBlob : FilePath → FilePath → Type 0
NotBlob root path = (id : ContentId) → path_eq path (path_for root id) ≡ false

last_differs :
    (a b c d e f : Bytes) → bytes_eq e f ≡ false → path_eq (a ∷ c ∷ e ∷ []) (b ∷ d ∷ f ∷ []) ≡ false
last_differs a b c d e f h = ground (arith, h)

last_same :
    (a b c d e f : Bytes) → path_eq (a ∷ c ∷ e ∷ []) (b ∷ d ∷ f ∷ []) ≡ true → bytes_eq e f ≡ true
last_same a b c d e f h = ground (arith, h)

-- A file beside a blob, with an extension.
pub sibling-NotBlob :
    (root : FilePath) (id : ContentId) (a b rest : Bytes)
    → NotBlob root (root ++ a ∷ b ∷ (content_str id ++ 46 ∷ rest) ∷ [])
sibling-NotBlob root id a b rest other =
    path_eq-append root (a ∷ b ∷ (content_str id ++ 46 ∷ rest) ∷ [])
      (take 2 (content_str other) ∷ take 2 (drop 2 (content_str other)) ∷ content_str other ∷ [])
    ∙ last_differs a (take 2 (content_str other)) b (take 2 (drop 2 (content_str other)))
        (content_str id ++ 46 ∷ rest) (content_str other) (dotted id other rest)

shorter : (a b c d e : Bytes) → path_eq (a ∷ b ∷ []) (c ∷ d ∷ e ∷ []) ≡ false
shorter a b c d e = ground arith

pub pending-NotBlob :
    ⦃ulids : UlidText⦄ (root : FilePath) (ulid : ℕ) → NotBlob root (temp_path_for_pending root ulid)
pending-NotBlob ⦃ulids⦄ root ulid other =
    path_eq-append root (codes "pending" ∷ ulids.ulid_str ulid ∷ [])
      (take 2 (content_str other) ∷ take 2 (drop 2 (content_str other)) ∷ content_str other ∷ [])
    ∙ shorter (codes "pending") (ulids.ulid_str ulid) (take 2 (content_str other))
        (take 2 (drop 2 (content_str other))) (content_str other)

same_blob :
    (root : FilePath) (a b : ContentId) → path_eq (path_for root a) (path_for root b) ≡ true → a ≡ b
same_blob root a b h = content_str-injective a b (
    bytes_eq→eq (content_str a) (content_str b) (
      last_same (take 2 (content_str a)) (take 2 (content_str b)) (take 2 (drop 2 (content_str a)))
        (take 2 (drop 2 (content_str b))) (content_str a) (content_str b)
        (sym (
            path_eq-append root
              (take 2 (content_str a) ∷ take 2 (drop 2 (content_str a)) ∷ content_str a ∷ [])
              (take 2 (content_str b) ∷ take 2 (drop 2 (content_str b)) ∷ content_str b ∷ []))
          ∙ h)))

-- A file reads back, and leaves the others.
pub set_file_self : (p : FilePath) (v : Option Bytes) (files : Files) → set_file p v files p ≡ v
set_file_self p v files = rw (path_eq_refl p) refl

module _ ⦃blake3 : Blake3⦄ (root : FilePath) where
  -- Each blob has the content that its name is the hash of.
  unfoldable pub Sound : Files → Type 0
  Sound files =
      (id : ContentId) (bytes : Bytes)
      → files (path_for root id) ≡ some bytes
      → blake3.content_of bytes ≡ id

  pub set_other-Sound :
      (p : FilePath) (v : Option Bytes) (files : Files)
      → NotBlob root p
      → Sound files
      → Sound (set_file p v files)
  unfolding Sound
  set_other-Sound p v files other h id bytes e = h id bytes (rw (other id) at e)

  set_blob-Sound :
      (id : ContentId) (bytes : Bytes) (files : Files)
      → blake3.content_of bytes ≡ id
      → Sound files
      → Sound (set_file (path_for root id) (some bytes) files)
  unfolding Sound
  set_blob-Sound id bytes files hash h other bytes' e =
      elim (Bool-cases (path_eq (path_for root id) (path_for root other))) [
        | inl same ↦ cc (same_blob root id other same, hash, rw same at e)
        | inr apart ↦ h other bytes' (rw apart at e)
      ]

  -- There is a blob.
  abbrev pub Has : ContentId → Files → Type 0
  Has id files = (bytes : Bytes) × (files (path_for root id) ≡ some bytes)

  -- The store stays sound, and what returns an id has its blob.
  unfoldable pub Stored : ContentId → Result ContentId × Files → Type 0
  Stored id r =
      Sound r.1 × ((returned : ContentId) → r.0 ≡ ok returned → (returned ≡ id) × Has id r.1)

  pub step_to-Stored :
      (id : ContentId) (e : CoreError) (done : Bool) (next : Files → Result ContentId × Files)
      (files : Files)
      → Sound files
      → (done ≡ true → Stored id (next files))
      → Stored id (step_to e done next files)
  unfolding Stored
  step_to-Stored id e true next files h k = k refl
  step_to-Stored id e false next files h k = (h, λ returned same. absurd (cc))

  pub write-Sound :
      (p : FilePath) (bytes : Bytes) (w : Write) (files : Files)
      → NotBlob root p
      → Sound files
      → Sound (write p bytes w files).1
  write-Sound p bytes written files other h = set_other-Sound p (some bytes) files other h
  write-Sound p bytes (broken n) files other h =
      set_other-Sound p (some (take n bytes)) files other h
  write-Sound p bytes not_opened files other h = h

  pub write-Has :
      (id : ContentId) (p : FilePath) (bytes : Bytes) (w : Write) (files : Files)
      → NotBlob root p
      → Has id files
      → Has id (write p bytes w files).1
  write-Has id p bytes written files other (b, e) = (b, rw (other id) e)
  write-Has id p bytes (broken n) files other (b, e) = (b, rw (other id) e)
  write-Has id p bytes not_opened files other h = h

  -- A file that is no blob becomes the blob of its content.
  pub renamed-Stored :
      (id : ContentId) (e : CoreError) (done : Bool) (p : FilePath) (content : Bytes)
      (next : Files → Result ContentId × Files) (files : Files)
      → NotBlob root p
      → files p ≡ some content
      → blake3.content_of content ≡ id
      → Sound files
      → ((files' : Files) → Sound files' → Has id files' → Stored id (next files'))
      → Stored id (renamed e done p (path_for root id) next files)
  unfolding Stored
  renamed-Stored id e false p content next files other at hash h k =
      (h, λ returned same. absurd (cc))
  renamed-Stored id e true p content next files other at hash h k =
      rw (at, after_rename)
        (k _
          (set_blob-Sound id content (set_file p none files) hash
            (set_other-Sound p none files other h))
          (content, set_file_self (path_for root id) (some content) (set_file p none files)))
