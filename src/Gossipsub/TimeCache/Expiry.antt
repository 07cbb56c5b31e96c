-- ===== src/Gossipsub/TimeCache/Expiry.antt =====
-- `remove_expired_keys` of protocols/gossipsub/src/time_cache.rs takes away exactly what has expired.
use libp2p_rs.Common.{
  ℕ, ◌≤◌, ◌<◌, ◌≡◌, refl, sym, ◌∙◌, Bool, true, false, inl, inr, Option, none, some, List, [], ◌∷◌,
  ltb, ◌==◌, if◌then◌else◌, arith, Bool-cases, ltb→lt, ltb_false→le,
}
use libp2p_rs.Common.Map
use libp2p_rs.Gossipsub.TimeCache.{ExpiringElement, drop_expired, expire}

-- The queue is by time, from `t` on.
unfoldable pub IsQueue : ℕ → List (ExpiringElement ℕ) → Type 0
IsQueue t [] = Unit
IsQueue t (x ∷ xs) = (t ≤ x.expires) × IsQueue x.expires xs

-- Whether the key waits in the queue for that time.
unfoldable pub waits : (key time : ℕ) → List (ExpiringElement ℕ) → Bool
waits key time [] = false
waits key time (x ∷ xs) =
    if x.element == key
    then (if x.expires == time then true else waits key time xs)
    else waits key time xs

waits-later :
    (key time t : ℕ) (xs : List (ExpiringElement ℕ))
    → IsQueue t xs
    → waits key time xs ≡ true
    → t ≤ time
unfolding IsQueue waits
waits-later key time t [] q h = absurd (ground (arith, h))
waits-later key time t (x ∷ xs) q h = ground (arith, h, q.0, waits-later key time x.expires xs q.1)

module _ {ℓ} {V : Type ℓ} where
  unfoldable pub live : ℕ → Option (ExpiringElement V) → Option (ExpiringElement V)
  live now none = none
  live now (some e) = if ltb now e.expires then some e else none

  -- The entry of the key has its place in the queue.
  unfoldable pub IsQueued : ℕ → List (ExpiringElement ℕ) → Option (ExpiringElement V) → Type 0
  IsQueued key xs none = Unit
  IsQueued key xs (some e) = waits key e.expires xs ≡ true

  get-drop_expired :
      (now j key : ℕ) (m : List (ℕ × ExpiringElement V))
      → Map.get key (drop_expired now j m)
        ≡ (if key == j then live now (Map.get key m) else Map.get key m)
  unfolding drop_expired live
  get-drop_expired now j key m = ground (arith, Map.get-remove key j m)

  pub live-live : (now : ℕ) (o : Option (ExpiringElement V)) → live now (live now o) ≡ live now o
  unfolding live
  live-live now none = refl
  live-live now (some e) = ground arith

  live-drop_expired :
      (now j key : ℕ) (m : List (ℕ × ExpiringElement V))
      → live now (Map.get key (drop_expired now j m)) ≡ live now (Map.get key m)
  live-drop_expired now j key m =
      ground (arith, get-drop_expired now j key m, live-live now (Map.get key m))

  -- What waits for a time after `now` does not wait at a place that has expired.
  tail-IsQueued :
      (now key : ℕ) (x : ExpiringElement ℕ) (xs : List (ExpiringElement ℕ))
      (o : Option (ExpiringElement V))
      → x.expires ≤ now
      → IsQueued key (x ∷ xs) o
      → IsQueued key xs (if key == x.element then live now o else o)
  unfolding IsQueued live waits
  tail-IsQueued now key x xs none le q = ground (arith, q)
  tail-IsQueued now key x xs (some e) le q = elim (Bool-cases (key == x.element)) [
    | inl t ↦ elim (Bool-cases (ltb now e.expires)) [
      | inl l ↦ rw (t, l) (ground (arith, q, t, l, le))
      | inr g ↦ rw (t, g) tt
    ]
    | inr f ↦ rw f (ground (arith, q, f))
  ]

  queued_live :
      (now key : ℕ) (x : ExpiringElement ℕ) (xs : List (ExpiringElement ℕ))
      (o : Option (ExpiringElement V))
      → now < x.expires
      → IsQueue x.expires xs
      → IsQueued key (x ∷ xs) o
      → live now o ≡ o
  unfolding IsQueued live waits
  queued_live now key x xs none lt q h = refl
  queued_live now key x xs (some e) lt q h =
      ground (arith, h, lt, waits-later key e.expires x.expires xs q)

  empty_queue : (now key : ℕ) (o : Option (ExpiringElement V)) → IsQueued key [] o → o ≡ live now o
  unfolding IsQueued live waits
  empty_queue now key none g = refl
  empty_queue now key (some e) g = absurd (ground (arith, g))

  pub expire-get :
      (now t : ℕ) (xs : List (ExpiringElement ℕ)) (m : List (ℕ × ExpiringElement V)) (key : ℕ)
      → IsQueue t xs
      → IsQueued key xs (Map.get key m)
      → (Map.get key (expire now xs m).1 ≡ live now (Map.get key m))
        × IsQueued key (expire now xs m).0 (Map.get key (expire now xs m).1)
  unfolding expire IsQueue
  expire-get now t [] m key q h = (empty_queue now key (Map.get key m) h, h)
  expire-get now t (x ∷ xs) m key q h = elim (Bool-cases (ltb now x.expires)) [
    | inl l ↦
        rw (l, expire)
          (sym (queued_live now key x xs (Map.get key m) (ltb→lt now x.expires l) q.1 h), h)
    | inr g ↦
        let m2 = drop_expired now x.element m in
        let later = expire-get now x.expires xs m2 key q.1 (
          rw (get-drop_expired now x.element key m)
            (tail-IsQueued now key x xs (Map.get key m) (ltb_false→le now x.expires g) h)) in
        rw (g, expire) (later.0 ∙ live-drop_expired now x.element key m, later.1)
  ]
