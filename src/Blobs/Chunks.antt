-- ===== src/Blobs/Chunks.antt =====
-- A content cut into chunks byte by byte: what the upload loops must send, however short the reads.
use mathlib.Core.Path.{sym, ◌∙◌}
use mathlib.Core.List.{append-nil, append_assoc}
use rollout.Prelude.{
  ℕ, ◌+◌, ◌≤◌, ◌<◌, ◌==◌, ◌≡◌, refl, List, [], ◌∷◌, ◌++◌, if◌then◌else◌, arith, length,
  length-append, Bool-cases, inl, inr, ==_iff,
}
use rollout.Core.Ids.{Bytes}

-- What is left in the buffer at the end.
abbrev pub tail : Bytes → List Bytes
tail [] = []
tail (b ∷ bs) = (b ∷ bs) ∷ []

-- The chunks of what is in the buffer and of what follows.
unfoldable pub chunks : ℕ → Bytes → Bytes → List Bytes
chunks size filled [] = tail filled
chunks size filled (b ∷ bs) =
    let full = filled ++ b ∷ [] in
    let next = chunks size [] bs in
    let more = chunks size full bs in if length full == size then full ∷ next else more

-- All chunks but the last have the full size, and the last one has no more.
abbrev pub IsFull : ℕ → List Bytes → Type 0
IsFull size [] = Unit
IsFull size (c ∷ []) = length c ≤ size
IsFull size (c ∷ d ∷ cs) = (length c ≡ size) × IsFull size (d ∷ cs)

abbrev pub concat : List Bytes → Bytes
concat [] = []
concat (c ∷ cs) = c ++ concat cs

-- One read into the buffer.
pub chunks-read :
    (size : ℕ) (filled : Bytes) (b : ℕ) (got left : Bytes)
    → length filled + length (b ∷ got) ≤ size
    → chunks size filled ((b ∷ got) ++ left) ≡ (
        if length (filled ++ b ∷ got) == size
        then (filled ++ b ∷ got) ∷ chunks size [] left
        else chunks size (filled ++ b ∷ got) left)
unfolding chunks
chunks-read size filled b [] left h = refl
chunks-read size filled b (c ∷ got) left h = elim (Bool-cases (length (filled ++ b ∷ []) == size)) [
  | inl full ↦ absurd (omega (arith, (==_iff _ size).0 full, length-append filled (b ∷ []), h))
  | inr room ↦
      let rest =
        chunks-read size (filled ++ b ∷ []) c got left
          (omega (arith, h, length-append filled (b ∷ []))) in
      rw (room, rest, append_assoc) refl
]

concat-tail : (filled : Bytes) → concat (tail filled) ≡ filled
concat-tail [] = refl
concat-tail (b ∷ bs) = append-nil (b ∷ bs)

-- The chunks make up the content.
pub concat-chunks :
    (size : ℕ) (filled content : Bytes) → concat (chunks size filled content) ≡ filled ++ content
unfolding chunks
concat-chunks size filled [] = concat-tail filled ∙ sym (append-nil filled)
concat-chunks size filled (b ∷ bs) = elim (Bool-cases (length (filled ++ b ∷ []) == size)) [
  | inl full ↦ rw (full, concat-chunks size [] bs, append_assoc) refl
  | inr room ↦ rw (room, concat-chunks size (filled ++ b ∷ []) bs, append_assoc) refl
]

IsFull-cons :
    (size : ℕ) (c : Bytes) (cs : List Bytes)
    → length c ≡ size
    → IsFull size cs
    → IsFull size (c ∷ cs)
IsFull-cons size c [] e h = omega (arith, e)
IsFull-cons size c (d ∷ cs) e h = (e, h)

pub chunks-IsFull :
    (size : ℕ) (filled content : Bytes)
    → 0 < size
    → length filled < size
    → IsFull size (chunks size filled content)
unfolding chunks
chunks-IsFull size [] [] p h = tt
chunks-IsFull size (b ∷ bs) [] p h = omega (arith, h)
chunks-IsFull size filled (b ∷ bs) p h = elim (Bool-cases (length (filled ++ b ∷ []) == size)) [
  | inl full ↦ rw full (
      IsFull-cons size (filled ++ b ∷ []) (chunks size [] bs) ((==_iff _ size).0 full)
        (chunks-IsFull size [] bs p p))
  | inr room ↦ rw room (
      chunks-IsFull size (filled ++ b ∷ []) bs p (ground (arith, h, length-append filled (b ∷ []))))
]
