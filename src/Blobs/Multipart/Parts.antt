-- ===== src/Blobs/Multipart/Parts.antt =====
-- The loop of the multipart upload against the chunks of the content.
use mathlib.Core.Path.{sym, subst, ◌∙◌}
use mathlib.Core.List.{append-nil, append_assoc}
use rollout.Prelude.{
  ℕ, zero, suc, ◌+◌, ◌-◌, ◌≤◌, ◌<◌, ◌==◌, ltb, ◌||◌, ◌≡◌, refl, true, false, List, [], ◌∷◌, ◌++◌,
  Option, some, if◌then◌else◌, arith, length, take, drop, length-append, take-nil, take-drop,
  length-drop-le, length-take-le, Bool-cases, Option-cases, ◌⊎◌, inl, inr, min,
}
use rollout.Core.Ids.{Bytes}
use rollout.Core.Errors.{Result, ok, err, CoreError}
use rollout.Blobs.{Stream}
use rollout.Blobs.Chunks.{chunks, chunks-read, tail}
use rollout.Blobs.Multipart.{
  S3, Upload, Request, upload_part, upload_one_part, after_read, read_error, upload_loop,
}

-- The requests that send some chunks, from a number on.
abbrev pub numbered : ℕ → List Bytes → List Request
numbered n [] = []
numbered n (c ∷ cs) = upload_part n c ∷ numbered (n + 1) cs

abbrev pub numbers : ℕ → List Bytes → List ℕ
numbers n [] = []
numbers n (c ∷ cs) = n ∷ numbers (n + 1) cs

-- An upload has a part, if only an empty one.
abbrev pub at_least_one : ℕ → List Bytes → List Bytes
at_least_one n [] = if n == 1 then [] ∷ [] else []
at_least_one n (c ∷ cs) = c ∷ cs

-- What went wrong: a read or a part.
abbrev pub Failed : S3 → Stream → CoreError → Type 0
Failed s3 s e =
    ((e ≡ read_error) × (i : ℕ) × (s.fails i ≡ true)) ⊎ ((n : ℕ) × (s3.on_part n ≡ some e))

-- How the loop ends: with the chunks sent, or with a failure after some of them.
pub data Ends (s3 : S3) (s : Stream) (n : ℕ) (pending : Bytes) (cs : List Bytes) (u : Upload)
    : Option (Result (Unit {0}) × Upload) → Type 0 where
  sent_all :
      (u' : Upload)
      → u'.hashed ≡ u.hashed ++ pending
      → u'.parts ≡ u.parts ++ numbers n cs
      → u'.sent ≡ u.sent ++ numbered n cs
      → Ends s3 s n pending cs u (some (ok tt, u'))
  failed :
      (e : CoreError) (u' : Upload) (done : ℕ)
      → Failed s3 s e
      → u'.sent ≡ u.sent ++ take done (numbered n cs)
      → Ends s3 s n pending cs u (some (err e, u'))

at_least_one-later : (n : ℕ) (cs : List Bytes) → 0 < n → at_least_one (n + 1) cs ≡ cs
at_least_one-later n [] pos = ground arith
at_least_one-later n (c ∷ cs) pos = refl

-- A part that was sent stands before the rest.
Ends-cons :
    (s3 : S3) (s : Stream) (n : ℕ) (c pending : Bytes) (cs : List Bytes) (u u₁ : Upload)
    {r : Option (Result (Unit {0}) × Upload)}
    → u₁.hashed ≡ u.hashed ++ c
    → u₁.parts ≡ u.parts ++ n ∷ []
    → u₁.sent ≡ u.sent ++ upload_part n c ∷ []
    → Ends s3 s (n + 1) pending cs u₁ r
    → Ends s3 s n (c ++ pending) (c ∷ cs) u r
Ends-cons s3 s n c pending cs u u₁ h p t (sent_all u' eh ep et) =
    sent_all u' (eh ∙ rw (h, append_assoc) refl) (ep ∙ rw (p, append_assoc) refl)
      (et ∙ rw (t, append_assoc) refl)
Ends-cons s3 s n c pending cs u u₁ h p t (failed e u' done why et) =
    failed e u' (suc done) why (et ∙ rw (t, append_assoc) refl)

-- One part, as the last one.
part-Ends :
    (s3 : S3) (s : Stream) (n : ℕ) (c : Bytes) (u : Upload)
    → Ends s3 s n c (c ∷ []) u (some (upload_one_part s3 n c u))
unfolding upload_one_part
part-Ends s3 s n c u = elim (Option-cases (s3.on_part n)) [
  | inl fine ↦ rw fine (sent_all _ refl refl refl)
  | inr (e, bad) ↦ rw bad (failed e _ 1 (inr (n, bad)) refl)
]

eof-Ends :
    (s3 : S3) (s : Stream) (n : ℕ) (filled : Bytes) (u : Upload)
    → Ends s3 s n filled (at_least_one n (tail filled)) u (
        some
          (if ltb 0 (length filled) || n == 1 then upload_one_part s3 n filled u else (ok tt, u)))
eof-Ends s3 s n (b ∷ bs) u = rw (positive b bs) (part-Ends s3 s n (b ∷ bs) u)
  where
    positive : (b : ℕ) (bs : Bytes) → ltb 0 (length (b ∷ bs)) ≡ true
    positive b bs = ground arith
eof-Ends s3 s n [] u = elim (Bool-cases (n == 1)) [
  | inl first ↦ rw first (part-Ends s3 s n [] u)
  | inr later ↦ rw later (sent_all u (sym (append-nil _)) (sym (append-nil _)) (sym (append-nil _)))
]

-- One round that has read some bytes.
round-Ends :
    (s3 : S3) (size : ℕ) (s : Stream) (n : ℕ) (u : Upload) (filled : Bytes) (b : ℕ)
    (got left : Bytes) (next : Bytes → ℕ → Upload → Option (Result (Unit {0}) × Upload))
    → length filled + length (b ∷ got) ≤ size
    → 0 < n
    → ((filled' : Bytes) (n' : ℕ) (u' : Upload)
        → length filled' < size
        → 0 < n'
        → Ends s3 s n'
            (filled' ++ left)
            (at_least_one n' (chunks size filled' left))
            u'
            (next filled' n' u'))
    → Ends s3 s n
        (filled ++ ((b ∷ got) ++ left))
        (at_least_one n (chunks size filled ((b ∷ got) ++ left)))
        u
        (after_read s3 size next filled n u (b ∷ got))
unfolding upload_one_part
round-Ends s3 size s n u filled b got left next fits pos rest =
    rw (chunks-read size filled b got left fits)
      (elim (Bool-cases (length (filled ++ b ∷ got) == size)) [
        | inl full ↦ rw full (elim (Option-cases (s3.on_part n)) [
          | inl fine ↦ rw fine (sent rest)
          | inr (e, bad) ↦ rw bad (failed e _ 1 (inr (n, bad)) refl)
        ])
        | inr room ↦ rw room (filling (λ h. rest (filled ++ b ∷ got) n u h pos) room)
      ])
  where
    u₁ : Upload
    u₁ = record {
      hashed = u.hashed ++ (filled ++ b ∷ got);
      parts = u.parts ++ n ∷ [];
      sent = u.sent ++ upload_part n (filled ++ b ∷ got) ∷ [];
    }

    size_pos : 0 < size
    size_pos = omega (arith, fits)

    sent :
        ((filled' : Bytes) (n' : ℕ) (u' : Upload)
          → length filled' < size
          → 0 < n'
          → Ends s3 s n'
              (filled' ++ left)
              (at_least_one n' (chunks size filled' left))
              u'
              (next filled' n' u'))
        → Ends s3 s n
            (filled ++ ((b ∷ got) ++ left))
            ((filled ++ b ∷ got) ∷ chunks size [] left)
            u
            (next [] (n + 1) u₁)
    sent rest' =
        subst
          (λ p. Ends s3 s n p ((filled ++ b ∷ got) ∷ chunks size [] left) u (next [] (n + 1) u₁))
          (append_assoc filled (b ∷ got) left)
          (Ends-cons s3 s n (filled ++ b ∷ got) left (chunks size [] left) u u₁ refl refl refl (
            subst (λ cs. Ends s3 s (n + 1) left cs u₁ (next [] (n + 1) u₁))
              (at_least_one-later n (chunks size [] left) pos)
              (rest' [] (n + 1) u₁ size_pos (omega arith))))

    filling :
        (length (filled ++ b ∷ got) < size
          → Ends s3 s n
              ((filled ++ b ∷ got) ++ left)
              (at_least_one n (chunks size (filled ++ b ∷ got) left))
              u
              (next (filled ++ b ∷ got) n u))
        → (length (filled ++ b ∷ got) == size) ≡ false
        → Ends s3 s n
            (filled ++ ((b ∷ got) ++ left))
            (at_least_one n (chunks size (filled ++ b ∷ got) left))
            u
            (next (filled ++ b ∷ got) n u)
    filling rest' room =
        subst
          (λ p.
            Ends s3 s n p (at_least_one n (chunks size (filled ++ b ∷ got) left)) u
              (next (filled ++ b ∷ got) n u))
          (append_assoc filled (b ∷ got) left)
          (rest' (ground (arith, length-append filled (b ∷ got))))

-- The loop comes to an end, and ends with the chunks sent or with a failure.
pub upload_loop-Ends :
    (s3 : S3) (size : ℕ) (s : Stream) (fuel i : ℕ) (left filled : Bytes) (n : ℕ) (u : Upload)
    → length filled < size
    → length left < fuel
    → 0 < n
    → Ends s3 s n
        (filled ++ left)
        (at_least_one n (chunks size filled left))
        u
        (upload_loop s3 size s fuel i left filled n u)
unfolding upload_loop chunks
upload_loop-Ends s3 size s zero i left filled n u room enough pos = absurd (omega (arith, enough))
upload_loop-Ends s3 size s (suc fuel) i [] filled n u room enough pos =
    elim (Bool-cases (s.fails i)) [
      | inl bad ↦ rw bad (failed read_error u 0 (inl (refl, i, bad)) (sym (append-nil _)))
      | inr good ↦
          rw (good, take-nil (min (size - length filled) (suc (s.ready i))), append-nil)
            (eof-Ends s3 s n filled u)
    ]
upload_loop-Ends s3 size s (suc fuel) i (b ∷ bs) filled n u room enough pos =
    elim (Bool-cases (s.fails i)) [
      | inl bad ↦ rw bad (failed read_error u 0 (inl (refl, i, bad)) (sym (append-nil _)))
      | inr good ↦
          let k = min (size - length filled) (suc (s.ready i)) - 1 in
          let e : min (size - length filled) (suc (s.ready i)) ≡ suc k = omega (arith, room) in
          let got = take k bs in
          let left = drop (length got) bs in
          rw (good, e)
            (subst
              (λ l. Ends s3 s n (filled ++ b ∷ l) (at_least_one n (chunks size filled (b ∷ l))) u (
                after_read s3 size
                  (λ filled' n' u'. upload_loop s3 size s fuel (suc i) left filled' n' u') filled n
                  u (b ∷ got)))
              (take-drop k bs)
              (round-Ends s3 size s n u filled b got left
                (λ filled' n' u'. upload_loop s3 size s fuel (suc i) left filled' n' u')
                (omega (arith, length-take-le k bs, room)) pos
                (λ filled' n' u' room' pos'.
                  upload_loop-Ends s3 size s fuel (suc i) left filled' n' u' room'
                    (omega (arith, length-drop-le (length got) bs, enough)) pos')))
    ]
