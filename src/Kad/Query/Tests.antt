-- ===== src/Kad/Query/Tests.antt =====
-- The theorems on the iterative query at concrete inputs.
use libp2p_rs.Common.{ℕ, ◌≤◌, ◌≡◌, ◌||◌, refl, some, none, List, [], ◌∷◌, arith}
use libp2p_rs.Kad.Key.Model.{native_u256}
use libp2p_rs.Common.Map
use libp2p_rs.Kad.Query.{KadPeer, can_connect, succeeded, not_contacted}
use libp2p_rs.Kad.Query.Peers.{ClosestPeers, can_terminate, all_succeeded}
use libp2p_rs.Kad.Query.PeersLaws.{IsAbove, IsSorted}
use libp2p_rs.Kad.Query.Update.{find_peer, QueryUpdate, queried, unreachable_peer, merge_providers}
use libp2p_rs.Kad.Query.Round.{IterativeQuery, run_loop, seed_update, initial_result, initial_peers}
use libp2p_rs.Kad.Query.Progress.{IsSound, run_loop-IsSound}
use libp2p_rs.Kad.Query.Terminate.{succeeded_below, can_terminate-nearer}
use libp2p_rs.Kad.Query.Providers.{has_id, AreDistinct, merge_providers-ids}

abbrev peer_of : ℕ → KadPeer
peer_of n = record { node_id = n; multiaddrs = []; connection_ty = can_connect }

abbrev the_query : IterativeQuery
the_query = record {
  local_id = 1;
  query_type = find_peer;
  config = record { alpha_value = 3; beta_value = 2; k_value = 20 };
}

abbrev answers : List QueryUpdate
answers = queried 4 (peer_of 8 ∷ []) none none ∷ unreachable_peer 8 ∷ []

run_loop-IsSound_example : IsSound 3 (
    run_loop native_u256
      (λ x. x)
      the_query
      (seed_update the_query (λ i. []) (4 ∷ 6 ∷ []) ∷ answers)
      (initial_result find_peer)
      (initial_peers 12))
run_loop-IsSound_example =
    run_loop-IsSound native_u256 (λ x. x) the_query (λ i. []) (4 ∷ 6 ∷ []) answers 12 refl
      (omega arith)

-- Two peers have answered and a third, which is farther, has not been asked.
abbrev asked : ClosestPeers
asked = record {
  target = 0;
  closest_peers =
      (1, record { peer = peer_of 1; state = succeeded })
      ∷ (2, record { peer = peer_of 2; state = succeeded })
      ∷ (5, record { peer = peer_of 5; state = not_contacted })
      ∷ [];
}

asked-IsSorted : IsSorted asked.closest_peers
unfolding IsSorted IsAbove
asked-IsSorted = ((omega arith, (omega arith, tt)), ((omega arith, tt), (tt, tt)))

can_terminate-nearer_example : 2 ≤ succeeded_below 5 asked.closest_peers
unfolding can_terminate all_succeeded Map.get
can_terminate-nearer_example =
    can_terminate-nearer asked 2 5 (record { peer = peer_of 5; state = not_contacted })
      asked-IsSorted refl refl refl

merge_providers-ids_example :
    AreDistinct (merge_providers (some (peer_of 3 ∷ [])) (peer_of 2 ∷ peer_of 3 ∷ []))
    × ((i : ℕ)
        → has_id i (merge_providers (some (peer_of 3 ∷ [])) (peer_of 2 ∷ peer_of 3 ∷ []))
          ≡ (has_id i (peer_of 3 ∷ []) || has_id i (peer_of 2 ∷ peer_of 3 ∷ [])))
merge_providers-ids_example = merge_providers-ids (peer_of 3 ∷ []) (peer_of 2 ∷ peer_of 3 ∷ [])
