-- ===== src/Kad/Closest/Order.antt =====
-- The order in which the buckets are visited, and why it is the order of the distance to the target.
use libp2p_rs.Common.{
  ℕ, zero, suc, ◌+◌, ◌-◌, ◌^◌, ◌≤◌, ◌<◌, ◌≡◌, ◌⊎◌, inl, inr, refl, sym, ap, ◌∙◌, Bool, not, none,
  some, List, [], ◌∷◌, ◌++◌, if◌then◌else◌, Bool-cases, Option-cases, arith, exponent-lt,
}
use libp2p_rs.Kad.Key.{U256, ilog2}
use libp2p_rs.Kad.Key.Metric.{ilog2_iff}
use libp2p_rs.Kad.Closest.{
  ClosestBucketsIterState, start, zoom_in, zoom_out, find_down, find_up, next_in, next_out,
  first_state, next, visit, closest_buckets,
}

-- The indices below `i` at which `p` holds, downwards; those of the `n` from `i` on, upwards.
unfoldable pub ones : (ℕ → Bool) → ℕ → List ℕ
ones p zero = []
ones p (suc i) = if p i then i ∷ ones p i else ones p i

unfoldable pub zeros : (ℕ → Bool) → ℕ → ℕ → List ℕ
zeros p zero i = []
zeros p (suc n) i = if p i then zeros p n (suc i) else i ∷ zeros p n (suc i)

find_down-ones :
    (p : ℕ → Bool) (i : ℕ)
    → ((find_down p i ≡ none) × (ones p i ≡ []))
      ⊎ ((j : ℕ) × (find_down p i ≡ some j) × (ones p i ≡ j ∷ ones p j) × (j < i))
unfolding find_down ones
find_down-ones p zero = inl (refl, refl)
find_down-ones p (suc i) = elim (Bool-cases (p i)) [
  | inl t ↦ inr (i, rw t refl, rw t refl, omega arith)
  | inr f ↦ elim (find_down-ones p i) [
    | inl (a, b) ↦ inl (rw f a, rw f b)
    | inr (j, a, b, c) ↦ inr (j, rw f a, rw f b, omega arith)
  ]
]

find_up-zeros :
    (p : ℕ → Bool) (n i : ℕ)
    → ((find_up (λ j. not (p j)) n i ≡ none) × (zeros p n i ≡ []))
      ⊎ ((j : ℕ) × (find_up (λ j. not (p j)) n i ≡ some j)
          × (zeros p n i ≡ j ∷ zeros p (i + n - suc j) (suc j))
          × (i ≤ j)
          × (j < i + n))
unfolding find_up zeros
find_up-zeros p zero i = inl (refl, refl)
find_up-zeros p (suc n) i = elim (Bool-cases (p i)) [
  | inl t ↦ elim (find_up-zeros p n (suc i)) [
    | inl (a, b) ↦ inl (rw t a, rw t b)
    | inr (j, a, b, c, d) ↦
        let e : i + suc n - suc j ≡ suc i + n - suc j = omega arith in
        inr (j, rw t a, rw (t, e) b, omega arith, omega arith)
  ]
  | inr f ↦
      let e : i + suc n - suc i ≡ n = omega arith in
      inr (i, rw f refl, rw (f, e) refl, omega arith, omega arith)
]

module _ (u : U256) (d : ℕ) where
  -- The order of the visits: the first bucket, the ones below it, bucket 0, the zeros above it.
  abbrev pub bucket_order : ℕ → List ℕ
  bucket_order i = i ∷ (ones (u.bit d) i ++ (0 ∷ zeros (u.bit d) 255 1))

  zoom_out_visit :
      (fuel i : ℕ)
      → 256 - i ≤ fuel
      → i < 256
      → visit u d fuel (zoom_out i) ≡ zeros (u.bit d) (255 - i) (suc i)
  unfolding visit next next_out
  zoom_out_visit zero i h k = absurd (omega arith)
  zoom_out_visit (suc fuel) i h k = elim (find_up-zeros (u.bit d) (255 - i) (suc i)) [
    | inl (a, b) ↦ ground arith
    | inr (j, a, b, c, e) ↦
        let same : suc i + (255 - i) - suc j ≡ 255 - j = omega arith in
        let rest = zoom_out_visit fuel j (omega arith) (omega arith) in ground arith
  ]

  -- The steps of one call, with the callees shut.
  zoom_in_none : (i : ℕ) → next_in u d i ≡ none → next u d (zoom_in i) ≡ (zoom_out 0, some 0)
  unfolding next
  zoom_in_none i e = rw (e, next)

  zoom_in_some : (i j : ℕ) → next_in u d i ≡ some j → next u d (zoom_in i) ≡ (zoom_in j, some j)
  unfolding next
  zoom_in_some i j e = rw (e, next)

  next_start : (i : ℕ) → next u d (start i) ≡ (zoom_in i, some i)
  unfolding next
  next_start i = refl

  visit_step :
      (fuel i : ℕ) (s s' : ClosestBucketsIterState)
      → next u d s ≡ (s', some i)
      → visit u d (suc fuel) s ≡ i ∷ visit u d fuel s'
  unfolding visit
  visit_step fuel i s s' e = rw (e, visit) (rw e refl)

  zoom_in_visit :
      (tail : List ℕ) (fuel i : ℕ)
      → ((f : ℕ) → 256 ≤ f → visit u d f (zoom_out 0) ≡ tail)
      → i + 257 ≤ fuel
      → visit u d fuel (zoom_in i) ≡ ones (u.bit d) i ++ (0 ∷ tail)
  zoom_in_visit tail zero i out h = absurd (omega arith)
  zoom_in_visit tail (suc fuel) i out h = elim (find_down-ones (u.bit d) i) [
    | inl (a, b) ↦ rw b (
        visit_step fuel 0 _ _ (zoom_in_none i (unfold next_in in a))
        ∙ ap (◌∷◌ 0) (out fuel (omega arith)))
    | inr (j, a, b, c) ↦ rw b (
        visit_step fuel j _ _ (zoom_in_some i j (unfold next_in in a))
        ∙ ap (◌∷◌ j) (zoom_in_visit tail fuel j out (omega arith)))
  ]

  -- Any fuel from 514 on gives the whole sequence of visits.
  start_visit : (fuel i : ℕ) → i + 258 ≤ fuel → visit u d fuel (start i) ≡ bucket_order i
  start_visit zero i h = absurd (omega arith)
  start_visit (suc fuel) i h =
      visit_step fuel i (start i) (zoom_in i) (next_start i)
      ∙ ap (◌∷◌ i) (
          zoom_in_visit (zeros (u.bit d) 255 1) fuel i
            (λ f k. zoom_out_visit f 0 (omega arith) (omega arith)) (omega arith))

  -- The index at which the visits begin.
  unfoldable pub first_index : ℕ
  first_index = elim (ilog2 u d) [ some i ↦ i | none ↦ 0 ]

  first_state-start : first_state u d ≡ start first_index
  unfolding first_state first_index
  first_state-start = ground arith

  pub first_index-lt : d < 2 ^ 256 → first_index < 256
  unfolding first_index
  first_index-lt h = elim (Option-cases (ilog2 u d)) [
    | inl e ↦ rw (e, first_index) (zero_small 255)
    | inr (i, e) ↦ rw (e, first_index) (exponent-lt i 256 d (((ilog2_iff u d i h).0).0 e).0 h)
  ]
    where
      zero_small : (n : ℕ) → 0 < suc n
      zero_small n = omega arith

  -- For every distance of 256 bits and 514 calls or more, the bucket iterator has ended, and it
  -- has yielded the first bucket, the ones of the distance below it downwards, bucket 0, and the
  -- zeros of the distance from 1 to 255 upwards.
  pub visit-order :
      (fuel : ℕ)
      → d < 2 ^ 256
      → 514 ≤ fuel
      → (visit u d fuel (first_state u d) ≡ bucket_order first_index)
        × (visit u d fuel (first_state u d) ≡ closest_buckets u d)
        × (first_index < 256)
  unfolding closest_buckets
  visit-order fuel h k = rw first_state-start (
    start_visit fuel first_index (enough fuel k),
    start_visit fuel first_index (enough fuel k)
        ∙ sym (start_visit 514 first_index (enough 514 (omega arith))),
    small,
  )
    where
      small : first_index < 256
      small = first_index-lt h

      enough : (f : ℕ) → 514 ≤ f → first_index + 258 ≤ f
      enough f q = omega (arith, small)
