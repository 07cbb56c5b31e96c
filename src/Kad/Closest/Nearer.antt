-- ===== src/Kad/Closest/Nearer.antt =====
-- The buckets are visited from the nearest to the farthest from the target.
use libp2p_rs.Common.{
  ℕ, zero, suc, ◌+◌, ◌*◌, ◌/◌, ◌%◌, ◌^◌, ◌≤◌, ◌<◌, ◌≡◌, ◌≢◌, ◌⊎◌, inl, inr, refl, sym, ap, ◌∙◌,
  Bool, true, false, true≢false, List, [], ◌∷◌, ◌++◌, All, All-append, Bool-cases, Option-cases,
  arith, two_pow-suc, two_pow_pos, two_pow_mono, subst,
}
use libp2p_rs.Kad.Key.{U256, ilog2}
use libp2p_rs.Kad.Key.Xor.{xor_shift, xor_one, xor-zero}
use libp2p_rs.Kad.Key.Metric.{ilog2_iff}
use libp2p_rs.Kad.Closest.{closest_buckets}
use libp2p_rs.Kad.Closest.Order.{ones, zeros, bucket_order, first_index, visit-order}
use native.Mathlib.Nat.{
  le_refl, le_trans, div-mul-le_self, div-eq_of_lt, div-lt_iff_lt-mul, le-div_iff_mul-le,
}

-- Each element is related to all that follow it.
abbrev pub IsOrdered {ℓ} : {A : Type ℓ} → (A → A → Type 0) → List A → Type 0
IsOrdered R [] = Unit {0}
IsOrdered R (i ∷ is) = All (R i) is × IsOrdered R is

module _ (u : U256) (d : ℕ) where
  -- The order of the indices: an earlier one is a one of the distance above the later one, or lies
  -- below a later one that is a zero of the distance, or both are 0.
  abbrev pub Before : ℕ → ℕ → Type 0
  Before i j =
      ((i ≡ 0) × (j ≡ 0)) ⊎ (((u.bit d i ≡ true) × (j < i)) ⊎ ((u.bit d j ≡ false) × (i < j)))

All-zeros :
    (P : ℕ → Type 0) (p : ℕ → Bool) (n i : ℕ)
    → ((j : ℕ) → p j ≡ false → i ≤ j → P j)
    → All P (zeros p n i)
unfolding zeros
All-zeros P p zero i h = tt
All-zeros P p (suc n) i h = elim (Bool-cases (p i)) [
  | inl t ↦ rw t (All-zeros P p n (suc i) (λ j q k. h j q (omega arith)))
  | inr f ↦ rw f (h i f (omega arith), All-zeros P p n (suc i) (λ j q k. h j q (omega arith)))
]

All-ones :
    (P : ℕ → Type 0) (p : ℕ → Bool) (i : ℕ)
    → ((j : ℕ) → p j ≡ true → j < i → P j)
    → All P (ones p i)
unfolding ones
All-ones P p zero h = tt
All-ones P p (suc i) h = elim (Bool-cases (p i)) [
  | inl t ↦ rw t (h i t (omega arith), All-ones P p i (λ j q k. h j q (omega arith)))
  | inr f ↦ rw f (All-ones P p i (λ j q k. h j q (omega arith)))
]

module _ (u : U256) (d : ℕ) where
  zeros-IsOrdered : (n i : ℕ) → IsOrdered (Before u d) (zeros (u.bit d) n i)
  unfolding zeros
  zeros-IsOrdered zero i = tt
  zeros-IsOrdered (suc n) i = elim (Bool-cases (u.bit d i)) [
    | inl t ↦ rw t (zeros-IsOrdered n (suc i))
    | inr f ↦
        rw f
          (All-zeros _ (u.bit d) n (suc i) (λ j q k. inr (inr (q, k))), zeros-IsOrdered n (suc i))
  ]

  -- What follows a one is below it, is bucket 0, or is a zero.
  after_one :
      (i j : ℕ)
      → u.bit d i ≡ true
      → All (Before u d i) (ones (u.bit d) i ++ (0 ∷ zeros (u.bit d) 255 1))
  after_one i j t =
      All-append _ (ones (u.bit d) i) _ (All-ones _ (u.bit d) i (λ j q k. inr (inl (t, k))))
        (to_zero i t, All-zeros _ (u.bit d) 255 1 (λ j q k. to_zero_bit i j t q))
    where
      to_zero : (i : ℕ) → u.bit d i ≡ true → Before u d i 0
      to_zero zero t = inl (refl, refl)
      to_zero (suc i) t = inr (inl (t, suc_pos i))
        where
          suc_pos : (n : ℕ) → 0 < suc n
          suc_pos n = omega arith

      to_zero_bit : (i j : ℕ) → u.bit d i ≡ true → u.bit d j ≡ false → Before u d i j
      to_zero_bit i j t f = elim (order i j) [
        | inl lt ↦ inr (inr (f, lt))
        | inr (inl gt) ↦ inr (inl (t, gt))
        | inr (inr eq) ↦ absurd (true≢false (sym t ∙ ap (u.bit d) eq ∙ f))
      ]
        where
          order : (m n : ℕ) → (m < n) ⊎ ((n < m) ⊎ (m ≡ n))
          order m n = grind arith

  zeros_behind : All (Before u d 0) (zeros (u.bit d) 255 1)
  zeros_behind = All-zeros _ (u.bit d) 255 1 (λ j q k. inr (inr (q, k)))

  ones-IsOrdered :
      (i : ℕ) → IsOrdered (Before u d) (ones (u.bit d) i ++ (0 ∷ zeros (u.bit d) 255 1))
  unfolding ones
  ones-IsOrdered zero = (zeros_behind, zeros-IsOrdered 255 1)
  ones-IsOrdered (suc i) = elim (Bool-cases (u.bit d i)) [
    | inl t ↦ rw t (after_one i 0 t, ones-IsOrdered i)
    | inr f ↦ rw f (ones-IsOrdered i)
  ]

one_at_top : (d i : ℕ) → 2 ^ i ≤ d → d < 2 ^ suc i → d / 2 ^ i ≡ 1
one_at_top d i lo hi =
    let p = two_pow_pos i in
    let a : 1 ≤ d / 2 ^ i = (le-div_iff_mul-le p).1 (omega arith) in
    let b : d / 2 ^ i < 2 = (div-lt_iff_lt-mul p).1 (omega (arith, two_pow-suc i)) in omega arith

-- The distances of the keys in the bucket of an index.
abbrev pub Covers : ℕ → ℕ → Type 0
Covers i d = (2 ^ i ≤ d) × (d < 2 ^ suc i)

lt_of_div-lt : (a b m : ℕ) → 0 < m → a / m < b / m → a < b
lt_of_div-lt a b m p h = le_trans ((div-lt_iff_lt-mul p).0 h) (div-mul-le_self b m)

odd_flip : (q : ℕ) → q % 2 ≡ 1 → q / 2 * 2 + (q % 2 + 1) % 2 < q
odd_flip q h = omega arith

even_flip : (q : ℕ) → q % 2 ≢ 1 → q < q / 2 * 2 + (q % 2 + 1) % 2
even_flip q h = omega arith

pub zero_above : (y j i : ℕ) → y < 2 ^ suc j → j < i → y / 2 ^ i ≡ 0
zero_above y j i h lt = div-eq_of_lt (omega (arith, two_pow_mono (suc j) i lt))

module _ (u : U256) (d : ℕ) where
  pub top_bit : (i : ℕ) → Covers i d → u.bit d i ≡ true
  top_bit i c = (u.bit_iff d i).1 (rw (one_at_top d i c.0 c.1) refl)

  bucket_order-IsOrdered : d < 2 ^ 256 → IsOrdered (Before u d) (bucket_order u d (first_index u d))
  unfolding first_index
  bucket_order-IsOrdered h = elim (Option-cases (ilog2 u d)) [
    | inl e ↦
        rw (e, first_index)
          (unfold ones in ((inl (refl, refl), zeros_behind u d), ones-IsOrdered u d 0))
    | inr (i, e) ↦
        rw (e, first_index)
          (after_one u d i 0 (top_bit i (((ilog2_iff u d i h).0).0 e)), ones-IsOrdered u d i)
  ]

  -- Every key of the bucket `i` is nearer to the target than every key of the bucket `j`, unless
  -- both are bucket 0, whose keys all have one distance.
  abbrev pub Nearer : ℕ → ℕ → Type 0
  Nearer i j = ((i ≡ 0) × (j ≡ 0)) ⊎ ((x y : ℕ) → Covers i x → Covers j y → u.xor d x < u.xor d y)

  -- The distance to the target, shifted to the bit `i`, of a key of the bucket `i` and of a key
  -- of a bucket below it.
  at_bit : (i x : ℕ) → Covers i x → u.xor d x / 2 ^ i ≡ d / 2 ^ i / 2 * 2 + (d / 2 ^ i % 2 + 1) % 2
  at_bit i x c = rw (xor_shift u i d x, one_at_top x i c.0 c.1) (xor_one u (d / 2 ^ i))

  below_bit : (i j y : ℕ) → Covers j y → j < i → u.xor d y / 2 ^ i ≡ d / 2 ^ i
  below_bit i j y c lt = rw (xor_shift u i d y, zero_above y j i c.1 lt) (xor-zero u (d / 2 ^ i))

  Before-Nearer : (i j : ℕ) → Before u d i j → Nearer i j
  Before-Nearer i j (inl e) = inl e
  Before-Nearer i j (inr (inl (one, below))) = inr λ x y cx cy.
      lt_of_div-lt _ _ (2 ^ i) (two_pow_pos i)
        (rw (at_bit i x cx, below_bit i j y cy below) (odd_flip _ ((u.bit_iff d i).0 one)))
  Before-Nearer i j (inr (inr (zero_bit, above))) = inr λ x y cx cy.
      lt_of_div-lt _ _ (2 ^ j) (two_pow_pos j)
        (rw (at_bit j y cy, below_bit j i x cx above) (even_flip _ not_one))
    where
      not_one : d / 2 ^ j % 2 ≢ 1
      not_one e = cc ((u.bit_iff d j).1 e)

  All-imp : (P Q : ℕ → Type 0) (is : List ℕ) → ((i : ℕ) → P i → Q i) → All P is → All Q is
  All-imp P Q [] f h = tt
  All-imp P Q (i ∷ is) f h = (f i h.0, All-imp P Q is f h.1)

  IsOrdered-imp : (is : List ℕ) → IsOrdered (Before u d) is → IsOrdered Nearer is
  IsOrdered-imp [] h = tt
  IsOrdered-imp (i ∷ is) h = (All-imp _ _ is (Before-Nearer i) h.0, IsOrdered-imp is h.1)

  -- Of two visits of the bucket iterator the first is to a bucket whose keys are all nearer to the
  -- target than those of the second, unless both are visits to bucket 0; for every target at a
  -- distance of 256 bits.
  pub closest_buckets-IsOrdered : d < 2 ^ 256 → IsOrdered Nearer (closest_buckets u d)
  closest_buckets-IsOrdered h =
      let (a, b, c) = visit-order u d 514 h five_hundred in
      subst (IsOrdered Nearer) (sym a ∙ b)
        (IsOrdered-imp (bucket_order u d (first_index u d)) (bucket_order-IsOrdered h))
    where
      five_hundred : 514 ≤ 514
      five_hundred = le_refl 514
