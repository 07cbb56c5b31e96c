-- ===== src/Kad/Query/Round.antt =====
-- `IterativeQuery::run` of protocols/kad/src/query.rs: the seeds, one round of its loop, and what it
-- collects at the end. A round starts with an update that the channel has delivered.
use libp2p_rs.Common.{ℕ, Option, none, some, List, [], ◌∷◌, ◌-◌, leb, if◌then◌else◌, map}
use libp2p_rs.Kad.Key.{U256}
use libp2p_rs.Kad.Query.{can_connect, not_contacted, waiting, succeeded}
use libp2p_rs.Kad.Query.Peers.{
  ClosestPeers, is_starved, can_terminate, num_of_state, mark_waiting, jobs_of, peers_in_states,
}
use libp2p_rs.Kad.Query.Update.{
  QueryType, get_providers, get_record, QueryUpdate, queried, QueryResult, handle_update,
}

-- Without the deadline, which is outside of the loop.
pub record QueryConfig : Type 0 where
  pub alpha_value : ℕ
  pub beta_value : ℕ
  pub k_value : ℕ

-- What the loop reads of the query; the target is in `ClosestPeers`, the seeds are an argument, and
-- the controls of swarm and main loop and the statistics are only written to.
pub record IterativeQuery : Type 0 where
  pub local_id : ℕ
  pub query_type : QueryType
  pub config : QueryConfig

-- `usize::checked_sub`
unfoldable pub checked_sub : ℕ → ℕ → Option ℕ
checked_sub a b = if leb b a then some (a - b) else none

-- What a round ends with: the loop is left, or it goes on with the jobs for these peers, or the
-- process panics.
pub data Outcome : Type 0 where
  ended : QueryResult → ClosestPeers → Outcome
  running : List ℕ → QueryResult → ClosestPeers → Outcome
  panicked : Outcome

unfoldable pub initial_result : QueryType → QueryResult
initial_result (get_providers _ local) = record {
  closest = none;
  found_peer = none;
  providers = local;
  records = none;
  cache_peers = none;
}
initial_result (get_record _ local) = record {
  closest = none;
  found_peer = none;
  providers = none;
  records = local;
  cache_peers = none;
}
initial_result _ = record {
  closest = none;
  found_peer = none;
  providers = none;
  records = none;
  cache_peers = none;
}

unfoldable pub initial_peers : ℕ → ClosestPeers
initial_peers target = record { target = target; closest_peers = [] }

-- The update that delivers the seeds; the addresses of a peer come from the swarm.
unfoldable pub seed_update : IterativeQuery → (ℕ → List ℕ) → List ℕ → QueryUpdate
seed_update q get_addrs seeds =
    queried q.local_id
      (map (λ id. record { node_id = id; multiaddrs = get_addrs id; connection_ty = can_connect })
        seeds)
      none none

-- The part of the round after the update, when the query is not completed by it.
unfoldable pub start_jobs : QueryConfig → QueryResult → ClosestPeers → Outcome
start_jobs cfg r c =
    if is_starved c
    then ended r c
    else if can_terminate c cfg.beta_value
    then ended r c
    else elim (checked_sub cfg.alpha_value (num_of_state c waiting)) [
      | none ↦ panicked
      | some num_jobs ↦
          running (jobs_of num_jobs c.closest_peers) r
            (record c { closest_peers = mark_waiting num_jobs c.closest_peers })
    ]

unfoldable pub round :
    U256 → (ℕ → ℕ) → IterativeQuery → QueryUpdate → QueryResult → ClosestPeers → Outcome
round u digest q update r c =
    elim (handle_update u digest q.local_id q.config.k_value q.query_type update r c) [
      | none ↦ panicked
      | some h ↦ if h.done then ended h.result h.peers else start_jobs q.config h.result h.peers
    ]

-- The loop over the updates as the channel delivers them; when they run out it waits.
unfoldable pub run_loop :
    U256 → (ℕ → ℕ) → IterativeQuery → List QueryUpdate → QueryResult → ClosestPeers → Outcome
run_loop u digest q [] r c = running [] r c
run_loop u digest q (update ∷ updates) r c = elim (round u digest q update r c) [
  | running jobs result peers ↦ run_loop u digest q updates result peers
  | other ↦ other
]

-- The result that is handed to the caller when the loop is left.
unfoldable pub collect : ℕ → QueryResult → ClosestPeers → QueryResult
collect k_value r c = elim (peers_in_states c (not_contacted ∷ waiting ∷ succeeded ∷ []) k_value) [
  | [] ↦ r
  | q ∷ qs ↦ record r { closest = some (q.peer ∷ map (λ s. s.peer) qs) }
]
