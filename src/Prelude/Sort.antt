-- ===== src/Prelude/Sort.antt =====
-- `slice::sort_by` (a stable sort) and the byte order of slices and strings.
use Prim.Native.Nat.{ℕ, suc}
use mathlib.Core.Path.{◌≡◌, refl, ap, ◌∙◌}
use mathlib.Core.Bool.{Bool, true, false}
use mathlib.Core.Logic.{◌⊎◌, inl, inr}
use mathlib.Core.List.{List, [], ◌∷◌}
use mathlib.Core.Option.{Option, none, some}
use native.Mathlib.Omega.{arith}
use rollout.Prelude.Tests.{◌==◌, ltb, if◌then◌else◌, Bool-cases}
use rollout.Prelude.Lists.{All, length, Member}

module _ {ℓ} {A : Type ℓ} (le : A → A → Bool) where
  -- Before the first member that it does not exceed.
  unfoldable pub insert_by : A → List A → List A
  insert_by x [] = x ∷ []
  insert_by x (y ∷ ys) = if le x y then x ∷ y ∷ ys else y ∷ insert_by x ys

  unfoldable pub sort_by : List A → List A
  unfolding insert_by
  sort_by [] = []
  sort_by (x ∷ xs) = insert_by x (sort_by xs)

  insert_by-All {κ} :
      (P : A → Type κ) (x : A) (xs : List A) → P x → All P xs → All P (insert_by x xs)
  unfolding insert_by
  insert_by-All P x [] h hs = (h, tt)
  insert_by-All P x (y ∷ ys) h hs = elim (Bool-cases (le x y)) [
    | inl e ↦ rw (e, All) (h, hs)
    | inr e ↦ rw (e, All) (hs.0, insert_by-All P x ys h hs.1)
  ]

  -- What holds of all members holds of all members of the sorted list.
  pub sort_by-All {κ} : (P : A → Type κ) (xs : List A) → All P xs → All P (sort_by xs)
  unfolding sort_by
  sort_by-All P [] h = tt
  sort_by-All P (x ∷ xs) h = insert_by-All P x (sort_by xs) h.0 (sort_by-All P xs h.1)

  insert_by-All_inv {κ} :
      (P : A → Type κ) (x : A) (xs : List A) → All P (insert_by x xs) → P x × All P xs
  unfolding insert_by
  insert_by-All_inv P x [] h = h
  insert_by-All_inv P x (y ∷ ys) h = elim (Bool-cases (le x y)) [
    | inl e ↦ rw (e, All) at h
    | inr e ↦
        let split : P y × All P (insert_by x ys) = rw (e, All) at h in
        let (px, pys) = insert_by-All_inv P x ys split.1 in (px, (split.0, pys))
  ]

  -- And conversely.
  pub sort_by-All_inv {κ} : (P : A → Type κ) (xs : List A) → All P (sort_by xs) → All P xs
  unfolding sort_by
  sort_by-All_inv P [] h = tt
  sort_by-All_inv P (x ∷ xs) h =
      let (px, ps) = insert_by-All_inv P x (sort_by xs) h in (px, sort_by-All_inv P xs ps)

  length-insert_by : (x : A) (xs : List A) → length (insert_by x xs) ≡ suc (length xs)
  unfolding insert_by
  length-insert_by x [] = refl
  length-insert_by x (y ∷ ys) = ground (arith, length-insert_by x ys)

  pub length-sort_by : (xs : List A) → length (sort_by xs) ≡ length xs
  unfolding sort_by
  length-sort_by [] = refl
  length-sort_by (x ∷ xs) = length-insert_by x (sort_by xs) ∙ ap suc (length-sort_by xs)

  -- The members in order, each at most the next.
  abbrev pub IsSortedBy : List A → Type 0
  IsSortedBy [] = Unit
  IsSortedBy (x ∷ xs) = All (λ y. le x y ≡ true) xs × IsSortedBy xs

  -- An order that relates any two members, one way or the other.
  pub record IsTotal : Type ℓ where
    pub total : (x y : A) → le x y ≡ false → le y x ≡ true
    pub trans : (x y z : A) → le x y ≡ true → le y z ≡ true → le x z ≡ true

  pub total_refl : IsTotal → (x : A) → le x x ≡ true
  total_refl o x = elim (Bool-cases (le x x)) [ inl e ↦ e | inr e ↦ o.total x x e ]

  All-trans :
      IsTotal
      → (x y : A) (zs : List A) → le x y ≡ true
      → All (λ z. le y z ≡ true) zs
      → All (λ z. le x z ≡ true) zs
  All-trans o x y [] h hs = tt
  All-trans o x y (z ∷ zs) h hs = (o.trans x y z h hs.0, All-trans o x y zs h hs.1)

  insert_by-IsSortedBy :
      IsTotal → (x : A) (xs : List A) → IsSortedBy xs → IsSortedBy (insert_by x xs)
  unfolding insert_by
  insert_by-IsSortedBy o x [] h = (tt, tt)
  insert_by-IsSortedBy o x (y ∷ ys) h = elim (Bool-cases (le x y)) [
    | inl e ↦ rw (e, IsSortedBy) ((e, All-trans o x y ys e h.0), h)
    | inr e ↦
        rw (e, IsSortedBy)
          (
            insert_by-All (λ z. le y z ≡ true) x ys (o.total x y e) h.0,
            insert_by-IsSortedBy o x ys h.1,
          )
  ]

  pub sort_by-IsSortedBy : IsTotal → (xs : List A) → IsSortedBy (sort_by xs)
  unfolding sort_by
  sort_by-IsSortedBy o [] = tt
  sort_by-IsSortedBy o (x ∷ xs) = insert_by-IsSortedBy o x (sort_by xs) (sort_by-IsSortedBy o xs)

-- A relation that holds between each member and those after it.
abbrev pub Pairwise : {A : Type 0} → (A → A → Type 0) → List A → Type 0
Pairwise R [] = Unit
Pairwise R (x ∷ xs) = All (R x) xs × Pairwise R xs

module _ {A : Type 0} (le : A → A → Bool) where
  insert_by-Member : (z x : A) (xs : List A) → (z ≡ x) ⊎ Member z xs → Member z (insert_by le x xs)
  unfolding insert_by
  insert_by-Member z x [] h = h
  insert_by-Member z x (y ∷ ys) h = elim (Bool-cases (le x y)) [
    | inl e ↦ rw (e, Member) h
    | inr e ↦
        rw (e, Member)
          (elim h [
            | inl q ↦ inr (insert_by-Member z x ys (inl q))
            | inr (inl q) ↦ inl q
            | inr (inr q) ↦ inr (insert_by-Member z x ys (inr q))
          ])
  ]

  -- Sorting loses no member.
  pub sort_by-Member : (z : A) (xs : List A) → Member z xs → Member z (sort_by le xs)
  unfolding sort_by
  sort_by-Member z [] h = h
  sort_by-Member z (x ∷ xs) (inl e) = insert_by-Member z x (sort_by le xs) (inl e)
  sort_by-Member z (x ∷ xs) (inr h) =
      insert_by-Member z x (sort_by le xs) (inr (sort_by-Member z xs h))

  insert_by-Pairwise :
      (R : A → A → Type 0) (flip : (x y : A) → R x y → R y x) (x : A) (xs : List A)
      → All (R x) xs
      → Pairwise R xs
      → Pairwise R (insert_by le x xs)
  unfolding insert_by
  insert_by-Pairwise R flip x [] h p = (tt, tt)
  insert_by-Pairwise R flip x (y ∷ ys) h p = elim (Bool-cases (le x y)) [
    | inl e ↦ rw (e, Pairwise) (h, p)
    | inr e ↦
        rw (e, Pairwise)
          (insert_by-All le (R y) x ys (flip x y h.0) p.0, insert_by-Pairwise R flip x ys h.1 p.1)
  ]

  -- Sorting keeps it, where it goes both ways.
  pub sort_by-Pairwise :
      (R : A → A → Type 0)
      → ((x y : A) → R x y → R y x)
      → (xs : List A) → Pairwise R xs
      → Pairwise R (sort_by le xs)
  unfolding sort_by
  sort_by-Pairwise R flip [] p = tt
  sort_by-Pairwise R flip (x ∷ xs) p =
      insert_by-Pairwise R flip x (sort_by le xs) (sort_by-All le (R x) xs p.0)
        (sort_by-Pairwise R flip xs p.1)

-- `a <= b` on byte strings: lexicographic, a proper prefix first.
abbrev pub bytes_leb : List ℕ → List ℕ → Bool
bytes_leb [] ys = true
bytes_leb (x ∷ xs) [] = false
bytes_leb (x ∷ xs) (y ∷ ys) = if ltb x y then true else (if x == y then bytes_leb xs ys else false)

pub bytes_leb_total : (xs ys : List ℕ) → bytes_leb xs ys ≡ false → bytes_leb ys xs ≡ true
bytes_leb_total [] ys h = cc
bytes_leb_total (x ∷ xs) [] h = refl
bytes_leb_total (x ∷ xs) (y ∷ ys) h = ground (arith, bytes_leb_total xs ys)

pub bytes_leb_trans :
    (xs ys zs : List ℕ) → bytes_leb xs ys ≡ true → bytes_leb ys zs ≡ true → bytes_leb xs zs ≡ true
bytes_leb_trans [] ys zs h k = refl
bytes_leb_trans (x ∷ xs) [] zs h k = cc
bytes_leb_trans (x ∷ xs) (y ∷ ys) [] h k = cc
bytes_leb_trans (x ∷ xs) (y ∷ ys) (z ∷ zs) h k = ground (arith, bytes_leb_trans xs ys zs)

-- `cmp` on the last segments of two paths: an empty path comes first.
abbrev pub last? {ℓ} : {A : Type ℓ} → List A → Option A
last? [] = none
last? (x ∷ xs) = elim (last? xs) [ none ↦ some x | some y ↦ some y ]

abbrev pub option_leb : Option (List ℕ) → Option (List ℕ) → Bool
option_leb none b = true
option_leb (some a) none = false
option_leb (some a) (some b) = bytes_leb a b

pub option_leb-IsTotal : IsTotal option_leb
option_leb-IsTotal = record { total = total; trans = trans }
  where
    total : (a b : Option (List ℕ)) → option_leb a b ≡ false → option_leb b a ≡ true
    total none b h = cc
    total (some a) none h = refl
    total (some a) (some b) h = bytes_leb_total a b h

    trans :
        (a b c : Option (List ℕ))
        → option_leb a b ≡ true
        → option_leb b c ≡ true
        → option_leb a c ≡ true
    trans none b c h k = refl
    trans (some a) none c h k = cc
    trans (some a) (some b) none h k = cc
    trans (some a) (some b) (some c) h k = bytes_leb_trans a b c h k
