-- ===== src/Gossipsub/TimeCache/Queue.antt =====
-- The queue of the keys of protocols/gossipsub/src/time_cache.rs, as the cache's calls change it.
use libp2p_rs.Common.{ℕ, ◌≤◌, ◌≡◌, true, inl, inr, List, [], ◌∷◌, ◌++◌, ltb, All, arith, Bool-cases}
use libp2p_rs.Gossipsub.TimeCache.{drop_expired, ExpiringElement, Nothing, expire}
use libp2p_rs.Gossipsub.TimeCache.Expiry.{IsQueue, waits}

IsQueue-weaken : (t u : ℕ) (xs : List (ExpiringElement ℕ)) → t ≤ u → IsQueue u xs → IsQueue t xs
unfolding IsQueue
IsQueue-weaken t u [] h q = tt
IsQueue-weaken t u (x ∷ xs) h q = (omega (arith, q.0), q.1)

pub expire-IsQueue :
    (now t : ℕ) (xs : List (ExpiringElement ℕ)) (m : List (ℕ × ExpiringElement Nothing))
    → IsQueue t xs
    → IsQueue t (expire now xs m).0
unfolding IsQueue expire
expire-IsQueue now t [] m q = tt
expire-IsQueue now t (x ∷ xs) m q = elim (Bool-cases (ltb now x.expires)) [
  | inl l ↦ rw (l, expire) q
  | inr g ↦
      rw (g, expire)
        (IsQueue-weaken t x.expires (expire now xs (drop_expired now x.element m)).0 q.0
          (expire-IsQueue now x.expires xs (drop_expired now x.element m) q.1))
]

pub IsQueue-push :
    (t key time : ℕ) (xs : List (ExpiringElement ℕ))
    → t ≤ time
    → IsQueue t xs
    → All (λ x. x.expires ≤ time) xs
    → IsQueue t (xs ++ (record { element = key; expires = time } ∷ []))
unfolding IsQueue
IsQueue-push t key time [] h q a = (h, tt)
IsQueue-push t key time (x ∷ xs) h q a = (q.0, IsQueue-push x.expires key time xs a.0 q.1 a.1)

pub expire-All :
    (now b : ℕ) (xs : List (ExpiringElement ℕ)) (m : List (ℕ × ExpiringElement Nothing))
    → All (λ x. x.expires ≤ b) xs
    → All (λ x. x.expires ≤ b) (expire now xs m).0
unfolding expire
expire-All now b [] m a = tt
expire-All now b (x ∷ xs) m a = elim (Bool-cases (ltb now x.expires)) [
  | inl l ↦ rw (l, expire) a
  | inr g ↦ rw (g, expire) (expire-All now b xs (drop_expired now x.element m) a.1)
]

pub waits-append :
    (key time : ℕ) (xs ys : List (ExpiringElement ℕ))
    → waits key time xs ≡ true
    → waits key time (xs ++ ys) ≡ true
unfolding waits
waits-append key time [] ys h = absurd (ground (arith, h))
waits-append key time (x ∷ xs) ys h = ground (arith, h, waits-append key time xs ys)

pub waits-push :
    (key time : ℕ) (xs : List (ExpiringElement ℕ))
    → waits key time (xs ++ (record { element = key; expires = time } ∷ [])) ≡ true
unfolding waits
waits-push key time [] = ground arith
waits-push key time (x ∷ xs) = ground (arith, waits-push key time xs)
