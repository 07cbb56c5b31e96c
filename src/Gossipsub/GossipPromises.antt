-- ===== src/Gossipsub/GossipPromises.antt =====
-- protocols/gossipsub/src/gossip_promises.rs: the messages that peers have promised by IHAVE and have
-- not yet delivered. Peers and messages are numbers, times are nanoseconds, and each call is given the
-- time that it reads and how `choose` of the crate `rand` picks in that call.
pub mod Broken
pub mod History
mod Tests
use libp2p_rs.Common.{
  ℕ, zero, suc, Bool, true, false, Option, none, some, List, [], ◌∷◌, ltb, if◌then◌else◌,
}
use libp2p_rs.Common.Map

pub data ValidationError : Type 0 where
  invalid_signature empty_sequence_number invalid_sequence_number : ValidationError
  invalid_peer_id signature_present sequence_number_present : ValidationError
  message_source_present transform_failed : ValidationError

pub data RejectReason : Type 0 where
  validation_error : ValidationError → RejectReason
  self_origin black_listed_peer black_listed_source : RejectReason
  validation_ignored validation_failed : RejectReason

-- For each message the peers, with the times when their promises expire.
abbrev pub GossipPromises : Type 0
GossipPromises = List (ℕ × List (ℕ × ℕ))

-- `entry(peer).or_insert(expires)`
unfoldable pub or_insert : (peer expires : ℕ) → List (ℕ × ℕ) → List (ℕ × ℕ)
or_insert peer expires peers =
    if Map.contains_key peer peers then peers else Map.insert peer expires peers

unfoldable pub tracked_peers : ℕ → GossipPromises → List (ℕ × ℕ)
tracked_peers message_id promises = elim (Map.get message_id promises) [
  | none ↦ []
  | some peers ↦ peers
]

unfoldable pub add_chosen : (peer expires : ℕ) → Option ℕ → GossipPromises → GossipPromises
add_chosen peer expires none promises = promises
add_chosen peer expires (some message_id) promises =
    Map.insert message_id (or_insert peer expires (tracked_peers message_id promises)) promises

unfoldable pub add_promise :
    (List ℕ → Option ℕ) → (peer : ℕ) → List ℕ → (expires : ℕ) → GossipPromises → GossipPromises
add_promise choose peer messages expires promises =
    add_chosen peer expires (choose messages) promises

unfoldable pub message_delivered : ℕ → GossipPromises → GossipPromises
message_delivered message_id promises = Map.remove message_id promises

unfoldable pub reject_message : ℕ → RejectReason → GossipPromises → GossipPromises
reject_message message_id (validation_error invalid_signature) promises = promises
reject_message message_id self_origin promises = promises
reject_message message_id reason promises = Map.remove message_id promises

unfoldable pub count_of : ℕ → List (ℕ × ℕ) → ℕ
count_of peer result = elim (Map.get peer result) [ none ↦ 0 | some count ↦ count ]

-- `*result.entry(peer).or_insert(0) += 1`
unfoldable pub count_broken : ℕ → List (ℕ × ℕ) → List (ℕ × ℕ)
count_broken peer result = Map.insert peer (suc (count_of peer result)) result

-- The `retain` over the peers of a message, with the counts so far.
unfoldable pub sweep_peers : ℕ → List (ℕ × ℕ) → List (ℕ × ℕ) → List (ℕ × ℕ) × List (ℕ × ℕ)
sweep_peers now [] result = ([], result)
sweep_peers now ((peer, expires) ∷ peers) result =
    let broken = ltb expires now in
    let rest = sweep_peers now peers (if broken then count_broken peer result else result) in
    (if broken then rest.0 else (peer, expires) ∷ rest.0, rest.1)

unfoldable pub keep_message : ℕ → List (ℕ × ℕ) → GossipPromises → GossipPromises
keep_message message_id [] promises = promises
keep_message message_id (p ∷ peers) promises = (message_id, p ∷ peers) ∷ promises

unfoldable pub sweep : ℕ → GossipPromises → List (ℕ × ℕ) → GossipPromises × List (ℕ × ℕ)
sweep now [] result = ([], result)
sweep now ((message_id, peers) ∷ promises) result =
    let t = sweep_peers now peers result in
    let rest = sweep now promises t.1 in (keep_message message_id t.0 rest.0, rest.1)

-- The promises that are left, and the number of broken ones for each peer.
unfoldable pub get_broken_promises : ℕ → GossipPromises → GossipPromises × List (ℕ × ℕ)
get_broken_promises now promises = sweep now promises []
