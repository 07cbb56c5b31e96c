-- ===== src/Kad/Table/Index.antt =====
-- protocols/kad/src/kbucket.rs: the range of distances that the bucket of an index covers, and the
-- random distances drawn from it.
use libp2p_rs.Common.{
  ℕ, suc, ◌+◌, ◌-◌, ◌*◌, ◌/◌, ◌%◌, ◌^◌, ◌≤◌, ◌<◌, ◌≡◌, refl, subst, ◌↔◌, Bool, true, false, some,
  none, Option, leb, set, replicate, ◌++◌, zero, List, [], ◌∷◌, ◌==◌, if◌then◌else◌, length, All,
  arith, two_pow_mono, two_pow-suc, two_pow-add, two_pow_pos, ap,
}
use libp2p_rs.Kad.Key.{U256, ilog2}
use libp2p_rs.Kad.Key.Metric.{ilog2_iff}

-- `U256::MAX` is 2 ^ 256 - 1.
unfoldable pub range : ℕ → ℕ × ℕ
range i = (2 ^ i, if i == 255 then 2 ^ 256 - 1 else 2 ^ (i + 1) - 1)

-- `KBucketRef::contains`.
unfoldable pub contains : U256 → ℕ → ℕ → Bool
contains u i d = elim (ilog2 u d) [ some j ↦ j == i | none ↦ false ]

-- The calls of the crate `rand`, on the state of a generator: a byte, and a number from a range.
pub record Rng {ℓ} (S : Type ℓ) : Type ℓ where
  pub gen : S → ℕ × S
  pub gen_range : (low high : ℕ) → S → ℕ × S

-- What the crate says of them: the range is not empty, and its upper end is not in it.
pub record RngLaws {ℓ} {S : Type ℓ} (rng : Rng S) : Type ℓ where
  pub gen-lt : (s : S) → (rng.gen s).0 < 256
  pub gen_range-in :
      (low high : ℕ) (s : S)
      → low < high
      → (low ≤ (rng.gen_range low high s).0) × ((rng.gen_range low high s).0 < high)

-- `bytes[31 - offset] = value`; the subtraction panics below 0.
unfoldable pub write_byte : (offset value : ℕ) → List ℕ → Option (List ℕ)
write_byte offset value bytes = if leb offset 31 then some (set bytes (31 - offset) value) else none

-- `U256::from` of the bytes, the highest first, after the bytes so far.
unfoldable pub from_bytes : ℕ → List ℕ → ℕ
from_bytes so_far [] = so_far
from_bytes so_far (b ∷ bs) = from_bytes (256 * so_far + b) bs

module _ {ℓ} {S : Type ℓ} (rng : Rng S) where
  -- The loop over `i` with `n` rounds left.
  unfoldable pub fill : (n i : ℕ) → List ℕ → S → Option (List ℕ × S)
  fill zero i bytes s = some (bytes, s)
  fill (suc n) i bytes s = elim (write_byte i (rng.gen s).0 bytes) [
    | none ↦ none
    | some written ↦ fill n (suc i) written (rng.gen s).1
  ]

  -- The highest byte, of index `quot`, from `gen_range(lower, upper) as u8`.
  unfoldable pub finish : (quot lower upper : ℕ) → List ℕ × S → Option (ℕ × S)
  finish quot lower upper (bytes, s) =
      let r = rng.gen_range lower upper s in
      elim (write_byte quot (r.0 % 256) bytes) [
        | none ↦ none
        | some written ↦ some (from_bytes 0 written, r.1)
      ]

  -- `none` is a panic.
  unfoldable pub rand_distance : ℕ → S → Option (ℕ × S)
  rand_distance i s =
      let quot = i / 8 in
      let rem = i % 8 in
      let lower = 2 ^ rem in
      let upper = 2 ^ (rem + 1) in
      elim (fill quot 0 (replicate 32 0) s) [
        | none ↦ none
        | some filled ↦ finish quot lower upper filled
      ]

contains_iff : (u : U256) (i d : ℕ) → (contains u i d ≡ true) ↔ (ilog2 u d ≡ some i)
unfolding contains
contains_iff u i d = ground arith

-- For every bucket index below 256 and distance of 256 bits, the distance is contained in the
-- bucket exactly when it lies in the range of the index, the last bucket included.
pub range-contains :
    (u : U256) (i d : ℕ)
    → i < 256
    → d < 2 ^ 256
    → (contains u i d ≡ true) ↔ (((range i).0 ≤ d) × (d ≤ (range i).1))
unfolding range
range-contains u i d hi hd =
    let next : 2 ^ (i + 1) ≡ 2 ^ suc i = ap (λ (t : ℕ). 2 ^ t) (omega arith) in
    let pos = two_pow_pos (i + 1) in ground (arith, contains_iff u i d, ilog2_iff u d i hd)

from_bytes_bounds :
    (bs : List ℕ) (r top : ℕ)
    → All (λ b. b < 256) bs
    → 2 ^ r ≤ top
    → top < 2 ^ suc r
    → (2 ^ (8 * length bs + r) ≤ from_bytes top bs)
      × (from_bytes top bs < 2 ^ suc (8 * length bs + r))
unfolding from_bytes
from_bytes_bounds [] r top hr lo hi = let e : 8 * 0 + r ≡ r = omega arith in rw e (lo, hi)
from_bytes_bounds (b ∷ bs) r top hr lo hi =
    let e : 8 * suc (length bs) + r ≡ 8 * length bs + (8 + r) = omega arith in
    rw e (
      from_bytes_bounds bs (8 + r) (256 * top + b) hr.1 (omega (arith, hr.0, two_pow-add 8 r))
        (omega (arith, hr.0, two_pow-add 8 r, two_pow-suc r, two_pow-suc (8 + r))))

from_bytes-zeros : (m : ℕ) (bs : List ℕ) → from_bytes 0 (replicate m 0 ++ bs) ≡ from_bytes 0 bs
unfolding from_bytes
from_bytes-zeros zero bs = refl
from_bytes-zeros (suc m) bs = from_bytes-zeros m bs

set_last_zero :
    (m v : ℕ) (low : List ℕ) → set (replicate (suc m) 0 ++ low) m v ≡ replicate m 0 ++ (v ∷ low)
set_last_zero zero v low = refl
set_last_zero (suc m) v low = ap (λ (bs : List ℕ). 0 ∷ bs) (set_last_zero m v low)

-- The byte before the bytes that are written.
write_byte-lem :
    (m v : ℕ) (low : List ℕ)
    → suc m + length low ≡ 32
    → write_byte (length low) v (replicate (suc m) 0 ++ low) ≡ some (replicate m 0 ++ (v ∷ low))
unfolding write_byte
write_byte-lem m v low h =
    let at : 31 - length low ≡ m = omega arith in
    let here : leb (length low) 31 ≡ true = ground (arith, h) in
    rw (here, at) (ap some (set_last_zero m v low))

module _ {ℓ} {S : Type ℓ} (rng : Rng S) (laws : RngLaws rng) where
  -- The loop neither panics nor leaves a byte of its own zero by chance of its index.
  fill-lem :
      (n m : ℕ) (low : List ℕ) (s : S)
      → n + m + length low ≡ 32
      → All (λ b. b < 256) low
      → (bs : List ℕ) × (s' : S) × ((fill rng n (length low) (replicate (n + m) 0 ++ low) s
            ≡ some (replicate m 0 ++ bs, s'))
          × ((length bs ≡ n + length low) × All (λ b. b < 256) bs))
  unfolding fill
  fill-lem zero m low s h a =
      let e : 0 + m ≡ m = omega arith in (low, s, (rw e refl, (omega arith, a)))
  fill-lem (suc n) m low s h a =
      let e : suc n + m ≡ suc (n + m) = omega arith in
      let r = rng.gen s in
      let (bs, s', (q, (l, b))) = fill-lem n m (r.0 ∷ low) r.1 (omega arith) (laws.gen-lt s, a) in
      (
        bs,
        s',
        (rw (e, write_byte-lem (n + m) r.0 low (omega arith), fill) q, (omega (arith, l), b)),
      )

  filled :
      (k m : ℕ) (s : S)
      → k + m ≡ 32
      → (low : List ℕ) × (s' : S) × ((fill rng k 0 (replicate 32 0) s
            ≡ some (replicate m 0 ++ low, s'))
          × ((length low ≡ k) × All (λ b. b < 256) low))
  filled k m s h =
      let (low, s', (q, (l, b))) = fill-lem k m [] s (omega arith) tt in
      (
        low,
        s',
        (
          subst (λ (n : ℕ). fill rng k 0 (replicate n 0 ++ []) s ≡ some (replicate m 0 ++ low, s'))
              h q,
          (omega (arith, l), b),
        ),
      )

in_bucket :
    (u : U256) (i top : ℕ) (low : List ℕ)
    → i < 256
    → length low ≡ i / 8
    → All (λ b. b < 256) low
    → 2 ^ (i % 8) ≤ top
    → top < 2 ^ (i % 8 + 1)
    → contains u i (from_bytes 0 (top % 256 ∷ low)) ≡ true
unfolding from_bytes
in_bucket u i top low hi hl hr lo up =
    let next : 2 ^ (i % 8 + 1) ≡ 2 ^ suc (i % 8) = ap (λ (t : ℕ). 2 ^ t) (omega arith) in
    let small = two_pow_mono (suc (i % 8)) 8 (omega arith) in
    let e : 256 * 0 + top % 256 ≡ top = omega arith in
    let (l, h) = from_bytes_bounds low (i % 8) top hr lo (omega arith) in
    let same : 8 * length low + i % 8 ≡ i = omega arith in
    let below = two_pow_mono (suc i) 256 (omega arith) in
    let l' : 2 ^ i ≤ from_bytes top low = rw same at l in
    let h' : from_bytes top low < 2 ^ suc i = rw same at h in
    rw e ((contains_iff u i _).1 (((ilog2_iff u _ i (omega arith)).0).1 (l', h')))

module _ {ℓ} {S : Type ℓ} (u : U256) (rng : Rng S) (laws : RngLaws rng) (i : ℕ) (hi : i < 256) where
  finish-contains :
      (m : ℕ) (low : List ℕ) (s : S)
      → length low ≡ i / 8
      → suc m + length low ≡ 32
      → All (λ b. b < 256) low
      → (d : ℕ) × (s' : S) × ((finish rng
              (i / 8)
              (2 ^ (i % 8))
              (2 ^ (i % 8 + 1))
              (replicate (suc m) 0 ++ low, s)
            ≡ some (d, s'))
          × (contains u i d ≡ true))
  unfolding finish
  finish-contains m low s hl room hr =
      let next : 2 ^ (i % 8 + 1) ≡ 2 ^ suc (i % 8) = ap (λ (t : ℕ). 2 ^ t) (omega arith) in
      let r = rng.gen_range (2 ^ (i % 8)) (2 ^ (i % 8 + 1)) s in
      let within =
        laws.gen_range-in (2 ^ (i % 8)) (2 ^ (i % 8 + 1)) s
          (omega (arith, next, two_pow-suc (i % 8), two_pow_pos (i % 8))) in
      let written : write_byte (i / 8) (r.0 % 256) (replicate (suc m) 0 ++ low)
          ≡ some (replicate m 0 ++ (r.0 % 256 ∷ low)) =
        rw hl at (write_byte-lem m (r.0 % 256) low room) in
      (
        from_bytes 0 (replicate m 0 ++ (r.0 % 256 ∷ low)),
        r.1,
        (
          rw (written, finish) refl,
          rw (from_bytes-zeros m (r.0 % 256 ∷ low))
              (in_bucket u i r.0 low hi hl hr within.0 within.1),
        ),
      )

-- For every bucket index below 256 and every generator that returns bytes and numbers of the
-- ranges asked for, in any state, a random distance is drawn without a panic and falls into the
-- bucket of that index.
pub rand_distance-contains {ℓ} :
    {S : Type ℓ} (u : U256) (rng : Rng S) (laws : RngLaws rng) (i : ℕ) (s : S)
    → i < 256
    → (d : ℕ) × (s' : S) × ((rand_distance rng i s ≡ some (d, s')) × (contains u i d ≡ true))
unfolding rand_distance
rand_distance-contains u rng laws i s hi =
    let m = 31 - i / 8 in
    let (low, s1, (q, (same, b))) = filled rng laws (i / 8) (suc (31 - i / 8)) s (omega arith) in
    let (d, s', (f, c)) =
      finish-contains u rng laws i hi (31 - i / 8) low s1 same (omega (arith, same)) b in
    (d, s', (rw (q, rand_distance) f, c))
