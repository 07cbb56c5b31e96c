-- ===== src/Kad/Closest/Counts.antt =====
-- How often each bucket is visited.
use libp2p_rs.Common.{
  ℕ, zero, suc, ◌+◌, ◌/◌, ◌%◌, ◌^◌, ◌≤◌, ◌<◌, ◌≡◌, ◌≢◌, ◌⊎◌, inl, inr, refl, sym, ap, ◌∙◌, Bool,
  true, false, not, ◌&&◌, ◌||◌, List, [], ◌∷◌, ◌++◌, leb, ltb, ◌==◌, if◌then◌else◌, Bool-cases,
  Option-cases, arith, two_pow_pos,
}
use libp2p_rs.Kad.Key.{U256, ilog2}
use libp2p_rs.Kad.Key.Metric.{ilog2_iff}
use libp2p_rs.Kad.Closest.{closest_buckets}
use libp2p_rs.Kad.Closest.Order.{ones, zeros, bucket_order, first_index, visit-order}
use libp2p_rs.Kad.Closest.Nearer.{top_bit, zero_above}
use native.Mathlib.Nat.{le_refl}

abbrev pub count : ℕ → List ℕ → ℕ
count i [] = 0
count i (x ∷ xs) = (if i == x then 1 else 0) + count i xs

count-append : (i : ℕ) (xs ys : List ℕ) → count i (xs ++ ys) ≡ count i xs + count i ys
count-append i [] ys = omega arith
count-append i (x ∷ xs) ys = omega (arith, count-append i xs ys)

count-ones : (p : ℕ → Bool) (i n : ℕ) → count i (ones p n) ≡ (if ltb i n && p i then 1 else 0)
unfolding ones
count-ones p i zero = ground arith
count-ones p i (suc n) = elim (same i n) [
  | inl e ↦ rw e (ground (arith, count-ones p n n))
  | inr ne ↦ ground (arith, count-ones p i n)
]
  where
    same : (a b : ℕ) → (a ≡ b) ⊎ (a ≢ b)
    same a b = grind arith

count-zeros :
    (p : ℕ → Bool) (i n k : ℕ)
    → count i (zeros p n k) ≡ (if leb k i && (ltb i (k + n) && not (p i)) then 1 else 0)
unfolding zeros
count-zeros p i zero k = ground arith
count-zeros p i (suc n) k = elim (same i k) [
  | inl e ↦ rw e (ground (arith, count-zeros p k n (suc k)))
  | inr ne ↦ ground (arith, count-zeros p i n (suc k))
]
  where
    same : (a b : ℕ) → (a ≡ b) ⊎ (a ≢ b)
    same a b = grind arith

-- The counts along the order of the visits, from what the bits of the distance are.
count_order :
    (p : ℕ → Bool) (d i first : ℕ)
    → first < 256
    → i < 256
    → (first < i → p i ≡ false)
    → (i ≡ first → (p i ≡ true) ⊎ (d ≡ 0))
    → ((p 0 ≡ true → d % 2 ≡ 1) × (d % 2 ≡ 1 → p 0 ≡ true))
    → (d ≡ 0 → first ≡ 0)
    → count i (first ∷ (ones p first ++ (0 ∷ zeros p 255 1)))
      ≡ (if i == 0 && (d % 2 == 1 || d == 0) then 2 else 1)
count_order p d i first hf hi above top low zero_d =
    let split = count-append i (ones p first) (0 ∷ zeros p 255 1) in
    let below = count-ones p i first in
    let behind = count-zeros p i 255 1 in total i (order i first) split below behind above top hi
  where
    order : (m n : ℕ) → (m < n) ⊎ ((n < m) ⊎ (m ≡ n))
    order m n = grind arith

    total :
        (i : ℕ)
        → (i < first) ⊎ ((first < i) ⊎ (i ≡ first))
        → count i (ones p first ++ (0 ∷ zeros p 255 1))
          ≡ count i (ones p first) + count i (0 ∷ zeros p 255 1)
        → count i (ones p first) ≡ (if ltb i first && p i then 1 else 0)
        → count i (zeros p 255 1) ≡ (if leb 1 i && (ltb i (1 + 255) && not (p i)) then 1 else 0)
        → (first < i → p i ≡ false)
        → (i ≡ first → (p i ≡ true) ⊎ (d ≡ 0))
        → i < 256
        → count i (first ∷ (ones p first ++ (0 ∷ zeros p 255 1)))
          ≡ (if i == 0 && (d % 2 == 1 || d == 0) then 2 else 1)
    total zero o a b c above top h = ground arith
    total (suc i) o a b c above top h = ground arith

-- Where the visits begin: at 0 for the distance 0, and else at the highest one of the distance.
first_cases :
    (u : U256) (d : ℕ)
    → d < 2 ^ 256
    → ((d ≡ 0) × (first_index u d ≡ 0))
      ⊎ ((2 ^ first_index u d ≤ d) × (d < 2 ^ suc (first_index u d)))
unfolding first_index
first_cases u d h = elim (Option-cases (ilog2 u d)) [
  | inl e ↦ rw (e, first_index) (inl (((ilog2_iff u d 0 h).1).0 e, refl))
  | inr (i, e) ↦ rw (e, first_index) (inr (((ilog2_iff u d i h).0).0 e))
]

bit_above : (u : U256) (d i first : ℕ) → d < 2 ^ suc first → first < i → u.bit d i ≡ false
bit_above u d i first h lt = elim (Bool-cases (u.bit d i)) [
  | inl t ↦ absurd (zero_ne_one (d / 2 ^ i) (zero_above d first i h lt) ((u.bit_iff d i).0 t))
  | inr f ↦ f
]
  where
    zero_ne_one : (n : ℕ) → n ≡ 0 → n % 2 ≢ 1
    zero_ne_one n e = omega arith

-- For every distance of 256 bits the iterator over the buckets visits each of the 256 buckets, and
-- exactly once, except bucket 0: that one is visited twice whenever the distance is odd or 0.
pub closest_buckets-count :
    (u : U256) (d i : ℕ)
    → d < 2 ^ 256
    → i < 256
    → count i (closest_buckets u d) ≡ (if i == 0 && (d % 2 == 1 || d == 0) then 2 else 1)
closest_buckets-count u d i h hi =
    let (a, b, c) = visit-order u d 514 h (le_refl 514) in
    ap (count i) (sym b ∙ a) ∙ by_first (first_cases u d h) c
  where
    low : (u.bit d 0 ≡ true → d % 2 ≡ 1) × (d % 2 ≡ 1 → u.bit d 0 ≡ true)
    low = (λ e. of_div d ((u.bit_iff d 0).0 e), λ e. (u.bit_iff d 0).1 (to_div d e))
      where
        of_div : (n : ℕ) → n / 2 ^ 0 % 2 ≡ 1 → n % 2 ≡ 1
        of_div n e = omega arith

        to_div : (n : ℕ) → n % 2 ≡ 1 → n / 2 ^ 0 % 2 ≡ 1
        to_div n e = omega arith

    not_zero : (f n : ℕ) → 2 ^ f ≤ n → n ≡ 0 → f ≡ 0
    not_zero f n lo e = absurd (omega (arith, two_pow_pos f))

    by_first :
        ((d ≡ 0) × (first_index u d ≡ 0))
          ⊎ ((2 ^ first_index u d ≤ d) × (d < 2 ^ suc (first_index u d)))
        → first_index u d < 256
        → count i (bucket_order u d (first_index u d))
          ≡ (if i == 0 && (d % 2 == 1 || d == 0) then 2 else 1)
    by_first (inl (z, f)) c =
        count_order (u.bit d) d i (first_index u d) c hi
          (λ lt. bit_above u d i (first_index u d) (small d (first_index u d) z) lt) (λ e. inr z)
          low (λ e. f)
      where
        small : (n f : ℕ) → n ≡ 0 → n < 2 ^ suc f
        small n f e = omega (arith, two_pow_pos (suc f))
    by_first (inr (lo, up)) c =
        count_order (u.bit d) d i (first_index u d) c hi
          (λ lt. bit_above u d i (first_index u d) up lt)
          (λ e. inl (rw e (top_bit u d (first_index u d) (lo, up)))) low
          (not_zero (first_index u d) d lo)
