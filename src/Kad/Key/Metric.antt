-- ===== src/Kad/Key/Metric.antt =====
-- The XOR metric, and the integer logarithm that names a key's bucket.
use libp2p_rs.Common.{
  ℕ, zero, suc, ◌+◌, ◌-◌, ◌/◌, ◌^◌, ◌≤◌, ◌<◌, ◌≡◌, ◌↔◌, ◌⊎◌, inl, inr, refl, sym, ap, ◌∙◌, arith,
  Option, none, some, two_pow-suc, two_pow_pos, two_pow_mono,
}
use libp2p_rs.Kad.Key.{U256, distance, for_distance, ilog2}
use libp2p_rs.Kad.Key.Xor.{xor_self, xor_comm, xor_assoc, xor_cancel, xor-zero, xor-lt_fuel}

module _ (u : U256) where
  -- `for_distance a d` is the one key at distance `d` from `a`, and has 256 bits when both have.
  pub for_distance_unique :
      (a b d : ℕ)
      → ((distance u a b ≡ d) ↔ (b ≡ for_distance u a d))
        × (a < 2 ^ 256 → d < 2 ^ 256 → for_distance u a d < 2 ^ 256)
  unfolding distance for_distance
  for_distance_unique a b d = (
    (λ e. sym (xor_cancel u a b) ∙ ap (u.xor a) e, λ e. ap (u.xor a) e ∙ xor_cancel u a d),
    xor-lt_fuel u 256 a d,
  )

  half_sum : (k a b : ℕ) → a < 2 ^ k → b < 2 ^ k → u.xor a b ≤ a + b
  half_sum zero zero zero ha hb = omega (arith, xor-zero u 0)
  half_sum zero zero (suc b) ha hb = absurd (omega arith)
  half_sum zero (suc a) b ha hb = absurd (omega arith)
  half_sum (suc k) a b ha hb =
      let p = two_pow-suc k in
      omega (arith, u.xor_digit a b, half_sum k (a / 2) (b / 2) (omega arith) (omega arith))

  -- On keys of 256 bits the distance is 0 exactly between a key and itself, symmetric, and at most
  -- the sum of the distances over a third key.
  pub distance_metric :
      (a b c : ℕ)
      → a < 2 ^ 256
      → b < 2 ^ 256
      → c < 2 ^ 256
      → ((distance u a b ≡ 0) ↔ (a ≡ b))
        × (distance u a b ≡ distance u b a)
        × (distance u a c ≤ distance u a b + distance u b c)
  unfolding distance
  distance_metric a b c ha hb hc = (
    (
      λ e. sym (xor-zero u a) ∙ ap (u.xor a) (sym e) ∙ xor_cancel u a b,
      λ e. ap (u.xor a) (sym e) ∙ xor_self u a,
    ),
    xor_comm u a b,
    omega (
      arith,
      half_sum 256 (u.xor a b) (u.xor b c) (xor-lt_fuel u 256 a b ha hb)
          (xor-lt_fuel u 256 b c hb hc),
      over_b,
    ),
  )
    where
      over_b : u.xor (u.xor a b) (u.xor b c) ≡ u.xor a c
      over_b = xor_assoc u a b (u.xor b c) ∙ ap (u.xor a) (xor_cancel u b c)

  pub ilog2-bounds : (d i : ℕ) → d < 2 ^ 256 → ilog2 u d ≡ some i → (2 ^ i ≤ d) × (d < 2 ^ suc i)
  unfolding ilog2
  ilog2-bounds d i h e =
      let below : u.leading_zeros d < 256 = ground arith in
      let low : 255 - u.leading_zeros d ≡ i = ground arith in
      let high : 256 - u.leading_zeros d ≡ suc i = ground arith in
      (rw low at (u.leading_zeros-below d below), rw high at (u.leading_zeros-above d h))

  pub two_pow_between : (i j d : ℕ) → 2 ^ i ≤ d → d < 2 ^ suc i → 2 ^ j ≤ d → d < 2 ^ suc j → i ≡ j
  two_pow_between i j d a b c e = elim (order i j) [
    | inl (inl lt) ↦ absurd (omega (arith, two_pow_mono (suc i) j lt))
    | inl (inr gt) ↦ absurd (omega (arith, two_pow_mono (suc j) i gt))
    | inr eq ↦ eq
  ]
    where
      order : (m n : ℕ) → ((m < n) ⊎ (n < m)) ⊎ (m ≡ n)
      order m n = grind arith

  pub ilog2-ne-none : (d : ℕ) → d < 2 ^ 256 → 0 < d → (i : ℕ) × (ilog2 u d ≡ some i)
  unfolding ilog2
  ilog2-ne-none d h p = (255 - u.leading_zeros d, ground (arith, bits_pos))
    where
      bits_pos : 0 < 256 - u.leading_zeros d
      bits_pos = go (256 - u.leading_zeros d) (u.leading_zeros-above d h)
        where
          go : (b : ℕ) → d < 2 ^ b → 0 < b
          go zero q = absurd (omega arith)
          go (suc b) q = omega arith

  -- For a distance of 256 bits `ilog2` is `i` exactly when the distance lies in [2^i, 2^(i+1)),
  -- and none exactly for 0.
  pub ilog2_iff :
      (d i : ℕ)
      → d < 2 ^ 256
      → ((ilog2 u d ≡ some i) ↔ ((2 ^ i ≤ d) × (d < 2 ^ suc i))) × ((ilog2 u d ≡ none) ↔ (d ≡ 0))
  ilog2_iff d i h =
      ((ilog2-bounds d i h, λ r. some_of_bounds r.0 r.1), (zero_of_none, λ e. none_of_zero e))
    where
      some_of_bounds : 2 ^ i ≤ d → d < 2 ^ suc i → ilog2 u d ≡ some i
      some_of_bounds lo hi =
          let (j, e) = ilog2-ne-none d h (omega (arith, two_pow_pos i)) in
          let (lo', hi') = ilog2-bounds d j h e in e ∙ ap some (two_pow_between j i d lo' hi' lo hi)

      zero_of_none : ilog2 u d ≡ none → d ≡ 0
      zero_of_none e = go d h e
        where
          go : (n : ℕ) → n < 2 ^ 256 → ilog2 u n ≡ none → n ≡ 0
          go zero q e = refl
          go (suc n) q e = let (j, e') = ilog2-ne-none (suc n) q (omega arith) in cc

      none_of_zero : d ≡ 0 → ilog2 u d ≡ none
      none_of_zero z = go (ilog2 u d) refl
        where
          go : (o : Option ℕ) → ilog2 u d ≡ o → ilog2 u d ≡ none
          go none e = e
          go (some j) e = absurd (omega (arith, ilog2-bounds d j h e, two_pow_pos j))
