-- ===== src/Batch/Identity.antt =====
-- The input of the hash that names a sample tells the samples of a run apart.
use rollout.Prelude.{
  ℕ, zero, suc, ◌*◌, ◌/◌, ◌%◌, ◌<◌, ◌≡◌, refl, [], ◌∷◌, ◌++◌, arith, length, length-append, ap,
}
use rollout.Core.Ids.{Bytes}
use rollout.Batch.{le_bytes, id_input}

-- How many numbers `w` bytes hold.
abbrev pub capacity : ℕ → ℕ
capacity zero = 1
capacity (suc w) = 256 * capacity w

le_bytes-injective :
    (w n m : ℕ) → n < capacity w → m < capacity w → le_bytes w n ≡ le_bytes w m → n ≡ m
unfolding le_bytes
le_bytes-injective zero n m h k e = omega (arith, h, k)
le_bytes-injective (suc w) n m h k e =
    let low : n % 256 ≡ m % 256 = cc in
    let tails : le_bytes w (n / 256) ≡ le_bytes w (m / 256) = cc in
    let high : n / 256 ≡ m / 256 =
      le_bytes-injective w (n / 256) (m / 256) (omega (arith, h)) (omega (arith, k)) tails in
    omega (arith, low, high)

length-le_bytes : (w n : ℕ) → length (le_bytes w n) ≡ w
unfolding le_bytes
length-le_bytes zero n = refl
length-le_bytes (suc w) n = ap suc (length-le_bytes w (n / 256))

append-cancel_left : (xs ys zs : Bytes) → (xs ++ ys) ≡ (xs ++ zs) → ys ≡ zs
append-cancel_left [] ys zs h = h
append-cancel_left (x ∷ xs) ys zs h = append-cancel_left xs ys zs (cc)

-- Lists of the same length in front are the same, and so is what follows them.
append-split :
    (xs ys zs ws : Bytes) → length xs ≡ length ys → (xs ++ zs) ≡ (ys ++ ws) → (xs ≡ ys) × (zs ≡ ws)
append-split [] [] zs ws n h = (refl, h)
append-split [] (y ∷ ys) zs ws n h = absurd (omega (arith, n))
append-split (x ∷ xs) [] zs ws n h = absurd (omega (arith, n))
append-split (x ∷ xs) (y ∷ ys) zs ws n h =
    let (e, rest) = append-split xs ys zs ws (omega (arith, n)) (cc) in
    let head : x ≡ y = cc in (cc, rest)

-- Under one model and one set of sampling parameters, two samples are hashed alike only if their
-- prompts and their positions are the same, for positions of 64 bits. The prompt is not delimited in
-- the input: what follows it has a fixed length.
pub id_input-injective :
    (model prompt prompt' params : Bytes) (idx idx' : ℕ)
    → idx < capacity 8
    → idx' < capacity 8
    → id_input model prompt params idx ≡ id_input model prompt' params idx'
    → (prompt ≡ prompt') × (idx ≡ idx')
unfolding id_input
id_input-injective model prompt prompt' params idx idx' h h' e =
    let tails : (prompt ++ (params ++ le_bytes 8 idx)) ≡ (prompt' ++ (params ++ le_bytes 8 idx')) =
      append-cancel_left model _ _ (cc) in
    let sizes : length (prompt ++ (params ++ le_bytes 8 idx))
        ≡ length (prompt' ++ (params ++ le_bytes 8 idx')) =
      ap length tails in
    let (same, rest) =
      append-split prompt prompt' (params ++ le_bytes 8 idx) (params ++ le_bytes 8 idx')
        (omega (
          arith,
          sizes,
          length-append prompt (params ++ le_bytes 8 idx),
          length-append prompt' (params ++ le_bytes 8 idx'),
          length-append params (le_bytes 8 idx),
          length-append params (le_bytes 8 idx'),
          length-le_bytes 8 idx,
          length-le_bytes 8 idx',
        ))
        tails in
    (same, le_bytes-injective 8 idx idx' h h' (append-cancel_left params _ _ rest))
