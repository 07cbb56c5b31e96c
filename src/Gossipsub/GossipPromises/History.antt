-- ===== src/Gossipsub/GossipPromises/History.antt =====
-- Any sequence of calls of protocols/gossipsub/src/gossip_promises.rs.
use libp2p_rs.Common.{
  ℕ, ◌+◌, ◌≤◌, ◌≡◌, refl, Bool, Option, none, some, List, [], ◌∷◌, ltb, ◌==◌, ◌&&◌, not,
  if◌then◌else◌, arith,
}
use libp2p_rs.Common.Map
use libp2p_rs.Gossipsub.GossipPromises.{
  GossipPromises, RejectReason, validation_error, invalid_signature, self_origin, or_insert,
  tracked_peers, add_chosen, add_promise, message_delivered, reject_message, count_of,
  get_broken_promises,
}
use libp2p_rs.Gossipsub.GossipPromises.Broken.{
  count_peers, count_promises, get_broken_promises-IsExact, IsExact,
}

-- A request brings what the generator picks in that call.
pub data Call : Type 0 where
  adds : (choose : List ℕ → Option ℕ) (peer : ℕ) (messages : List ℕ) (expires : ℕ) → Call
  delivers : (message_id : ℕ) → Call
  rejects : (message_id : ℕ) → RejectReason → Call
  sweeps_at : (now : ℕ) → Call

-- The promises after a call.
unfoldable pub call : Call → GossipPromises → GossipPromises
call (adds choose peer messages expires) s = add_promise choose peer messages expires s
call (delivers message_id) s = message_delivered message_id s
call (rejects message_id reason) s = reject_message message_id reason s
call (sweeps_at now) s = (get_broken_promises now s).0

-- The broken promises of a peer that a call reports.
unfoldable pub reported : ℕ → Call → GossipPromises → ℕ
reported q (sweeps_at now) s = count_of q (get_broken_promises now s).1
reported q c s = 0

unfoldable pub run : List Call → GossipPromises → GossipPromises
run [] s = s
run (c ∷ cs) s = run cs (call c s)

unfoldable pub reported_all : ℕ → List Call → GossipPromises → ℕ
reported_all q [] s = 0
reported_all q (c ∷ cs) s = reported q c s + reported_all q cs (call c s)

unfoldable pub requests_of : ℕ → List Call → ℕ
requests_of q [] = 0
requests_of q (adds choose peer messages expires ∷ cs) =
    (if q == peer then 1 else 0) + requests_of q cs
requests_of q (c ∷ cs) = requests_of q cs

-- The promises of a peer that are tracked.
unfoldable pub tracked : ℕ → GossipPromises → ℕ
tracked q s = count_promises (λ m p e. q == p) s

tracked-nil : (q : ℕ) → tracked q [] ≡ 0
unfolding tracked count_promises
tracked-nil q = refl

module _ (q : ℕ) where
  abbrev of_peer : ℕ → ℕ → Bool
  of_peer p e = q == p

  count_peers-insert :
      (p e : ℕ) (ps : List (ℕ × ℕ))
      → count_peers of_peer (Map.insert p e ps) ≤ (if q == p then 1 else 0) + count_peers of_peer ps
  unfolding Map.insert count_peers
  count_peers-insert p e [] = omega arith
  count_peers-insert p e ((j, d) ∷ ps) = ground (arith, count_peers-insert p e ps)

  count_peers-or_insert :
      (p e : ℕ) (ps : List (ℕ × ℕ))
      → count_peers of_peer (or_insert p e ps) ≤ (if q == p then 1 else 0) + count_peers of_peer ps
  unfolding or_insert
  count_peers-or_insert p e ps = ground (arith, count_peers-insert p e ps)

  tracked-insert :
      (m : ℕ) (ps : List (ℕ × ℕ)) (s : GossipPromises)
      → tracked q (Map.insert m ps s) + count_peers of_peer (tracked_peers m s)
        ≡ tracked q s + count_peers of_peer ps
  unfolding tracked Map.insert count_promises count_peers tracked_peers Map.get
  tracked-insert m ps [] = omega arith
  tracked-insert m ps ((j, w) ∷ s) = ground (arith, tracked-insert m ps s)

  tracked-remove : (m : ℕ) (s : GossipPromises) → tracked q (Map.remove m s) ≤ tracked q s
  unfolding tracked Map.remove count_promises
  tracked-remove m [] = omega arith
  tracked-remove m ((j, w) ∷ s) = ground (arith, tracked-remove m s)

  tracked-add_chosen :
      (p e : ℕ) (o : Option ℕ) (s : GossipPromises)
      → tracked q (add_chosen p e o s) ≤ (if q == p then 1 else 0) + tracked q s
  unfolding add_chosen
  tracked-add_chosen p e none s = omega arith
  tracked-add_chosen p e (some m) s = omega (
    arith,
    tracked-insert m (or_insert p e (tracked_peers m s)) s,
    count_peers-or_insert p e (tracked_peers m s),
  )

  tracked-reject_message :
      (m : ℕ) (r : RejectReason) (s : GossipPromises)
      → tracked q (reject_message m r s) ≤ tracked q s
  unfolding reject_message
  tracked-reject_message m (validation_error invalid_signature) s = omega arith
  tracked-reject_message m self_origin s = omega arith
  tracked-reject_message m r s = tracked-remove m s

  count_peers-split :
      (now : ℕ) (ps : List (ℕ × ℕ))
      → count_peers (λ p e. q == p && ltb e now) ps
          + count_peers (λ p e. q == p && not (ltb e now)) ps
        ≡ count_peers of_peer ps
  unfolding count_peers
  count_peers-split now [] = omega arith
  count_peers-split now ((p, e) ∷ ps) = ground (arith, count_peers-split now ps)

  count_promises-split :
      (now : ℕ) (s : GossipPromises)
      → count_promises (λ m p e. q == p && ltb e now) s
          + count_promises (λ m p e. q == p && not (ltb e now)) s
        ≡ tracked q s
  unfolding tracked count_promises
  count_promises-split now [] = omega arith
  count_promises-split now ((m, ps) ∷ s) =
      omega (arith, count_peers-split now ps, count_promises-split now s)

  get_broken_promises-tracked :
      (now : ℕ) (s : GossipPromises)
      → count_of q (get_broken_promises now s).1 + tracked q (get_broken_promises now s).0
        ≡ tracked q s
  unfolding tracked IsExact
  get_broken_promises-tracked now s =
      let h = get_broken_promises-IsExact now s in
      omega (arith, h.0 q, h.1 (λ m p e. q == p), count_promises-split now s)

module _ (q : ℕ) where
  -- A call reports no promise that was not tracked, and only a request adds one.
  call-tracked :
      (c : Call) (cs : List Call) (s : GossipPromises)
      → reported q c s + tracked q (call c s) + requests_of q cs
        ≤ tracked q s + requests_of q (c ∷ cs)
  unfolding reported call requests_of add_promise message_delivered
  call-tracked (adds choose p ms e) cs s = omega (arith, tracked-add_chosen q p e (choose ms) s)
  call-tracked (delivers m) cs s = omega (arith, tracked-remove q m s)
  call-tracked (rejects m r) cs s = omega (arith, tracked-reject_message q m r s)
  call-tracked (sweeps_at now) cs s = omega (arith, get_broken_promises-tracked q now s)

  run-tracked :
      (cs : List Call) (s : GossipPromises)
      → reported_all q cs s + tracked q (run cs s) ≤ tracked q s + requests_of q cs
  unfolding reported_all run requests_of
  run-tracked [] s = omega arith
  run-tracked (c ∷ cs) s = omega (arith, call-tracked c cs s, run-tracked cs (call c s))

-- In any sequence of calls on new promises, with any pick in each call of add_promise, also of
-- another message for the same list, the broken promises that the sweeps report for a peer, with
-- its promises that are still tracked, are no more than the calls of add_promise for that peer: no
-- request is punished twice.
pub reported_all-le :
    (q : ℕ) (cs : List Call) → reported_all q cs [] + tracked q (run cs []) ≤ requests_of q cs
reported_all-le q cs = omega (arith, run-tracked q cs [], tracked-nil q)
