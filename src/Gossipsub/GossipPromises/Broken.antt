-- ===== src/Gossipsub/GossipPromises/Broken.antt =====
-- What the sweep of protocols/gossipsub/src/gossip_promises.rs counts and what it leaves.
use libp2p_rs.Common.{
  ℕ, suc, ◌+◌, ◌≡◌, refl, Bool, List, [], ◌∷◌, ltb, ◌==◌, ◌&&◌, not, if◌then◌else◌, Bool-cases, inl,
  inr, arith,
}
use libp2p_rs.Common.Map
use libp2p_rs.Gossipsub.GossipPromises.{
  GossipPromises, count_of, count_broken, sweep_peers, keep_message, sweep, get_broken_promises,
}

-- The number of promises of a message that pass a test on the peer and the time.
unfoldable pub count_peers : (ℕ → ℕ → Bool) → List (ℕ × ℕ) → ℕ
count_peers f [] = 0
count_peers f ((peer, expires) ∷ peers) = (if f peer expires then 1 else 0) + count_peers f peers

-- The number of all promises that pass a test on the message, the peer and the time.
unfoldable pub count_promises : (ℕ → ℕ → ℕ → Bool) → GossipPromises → ℕ
count_promises f [] = 0
count_promises f ((message_id, peers) ∷ promises) =
    count_peers (f message_id) peers + count_promises f promises

count_of-count_broken :
    (q p : ℕ) (r : List (ℕ × ℕ))
    → count_of q (count_broken p r) ≡ (if q == p then 1 else 0) + count_of q r
unfolding count_of count_broken
count_of-count_broken q p r = elim (Bool-cases (q == p)) [
  | inl e ↦ ground (arith, e, Map.get-insert q p (suc (count_of p r)) r)
  | inr e ↦ ground (arith, e, Map.get-insert q p (suc (count_of p r)) r)
]

module _ (now q : ℕ) where
  sweep_peers-counts :
      (ps r : List (ℕ × ℕ))
      → count_of q (sweep_peers now ps r).1
        ≡ count_peers (λ p e. q == p && ltb e now) ps + count_of q r
  unfolding sweep_peers count_peers
  sweep_peers-counts [] r = omega arith
  sweep_peers-counts ((p, e) ∷ ps) r = elim (Bool-cases (ltb e now)) [
    | inl b ↦
        ground (arith, b, sweep_peers-counts ps (count_broken p r), count_of-count_broken q p r)
    | inr b ↦ ground (arith, b, sweep_peers-counts ps r)
  ]

  sweep-counts :
      (s : GossipPromises) (r : List (ℕ × ℕ))
      → count_of q (sweep now s r).1
        ≡ count_promises (λ m p e. q == p && ltb e now) s + count_of q r
  unfolding sweep count_promises
  sweep-counts [] r = omega arith
  sweep-counts ((m, ps) ∷ s) r =
      omega (arith, sweep-counts s (sweep_peers now ps r).1, sweep_peers-counts ps r)

module _ (now : ℕ) where
  sweep_peers-keeps :
      (f : ℕ → ℕ → Bool) (ps r : List (ℕ × ℕ))
      → count_peers f (sweep_peers now ps r).0 ≡ count_peers (λ p e. f p e && not (ltb e now)) ps
  unfolding sweep_peers count_peers
  sweep_peers-keeps f [] r = refl
  sweep_peers-keeps f ((p, e) ∷ ps) r = elim (Bool-cases (ltb e now)) [
    | inl b ↦ ground (arith, b, sweep_peers-keeps f ps (count_broken p r))
    | inr b ↦ ground (arith, b, sweep_peers-keeps f ps r)
  ]

  keep_message-counts :
      (f : ℕ → ℕ → ℕ → Bool) (m : ℕ) (ps : List (ℕ × ℕ)) (s : GossipPromises)
      → count_promises f (keep_message m ps s) ≡ count_peers (f m) ps + count_promises f s
  unfolding keep_message count_promises count_peers
  keep_message-counts f m [] s = omega arith
  keep_message-counts f m (p ∷ ps) s = omega arith

  sweep-keeps :
      (f : ℕ → ℕ → ℕ → Bool) (s : GossipPromises) (r : List (ℕ × ℕ))
      → count_promises f (sweep now s r).0 ≡ count_promises (λ m p e. f m p e && not (ltb e now)) s
  unfolding sweep count_promises
  sweep-keeps f [] r = refl
  sweep-keeps f ((m, ps) ∷ s) r =
      let t = sweep_peers now ps r in
      omega (
        arith,
        keep_message-counts f m t.0 (sweep now s t.1).0,
        sweep-keeps f s t.1,
        sweep_peers-keeps (f m) ps r,
      )

-- The result counts the broken promises of each peer, and what is left are the other promises.
unfoldable pub IsExact : ℕ → GossipPromises → GossipPromises × List (ℕ × ℕ) → Type 0
IsExact now before (after, result) =
    ((q : ℕ) → count_of q result ≡ count_promises (λ m p e. q == p && ltb e now) before)
    × ((f : ℕ → ℕ → ℕ → Bool)
        → count_promises f after ≡ count_promises (λ m p e. f m p e && not (ltb e now)) before)

count_of-nil : (q : ℕ) → count_of q [] ≡ 0
unfolding count_of Map.get
count_of-nil q = refl

-- At any time and from any promises, get_broken_promises counts for each peer as many broken
-- promises as the peer has promises that expire before that time, over all messages; and by any
-- test on the message, the peer and the time, it leaves as many promises as there were that pass
-- it and do not expire before that time.
pub get_broken_promises-IsExact :
    (now : ℕ) (promises : GossipPromises) → IsExact now promises (get_broken_promises now promises)
unfolding IsExact get_broken_promises
get_broken_promises-IsExact now promises = (
  λ q. omega (arith, sweep-counts now q promises [], count_of-nil q),
  λ f. sweep-keeps now f promises [],
)
