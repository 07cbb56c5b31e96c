-- ===== src/Gossipsub/GossipPromises/Tests.antt =====
-- The theorems on the promises of messages in concrete calls.
use libp2p_rs.Common.{ℕ, ◌+◌, ◌≤◌, Option, none, some, List, [], ◌∷◌}
use libp2p_rs.Gossipsub.GossipPromises.{
  GossipPromises, self_origin, validation_failed, get_broken_promises,
}
use libp2p_rs.Gossipsub.GossipPromises.Broken.{IsExact, get_broken_promises-IsExact}
use libp2p_rs.Gossipsub.GossipPromises.History.{
  Call, adds, delivers, rejects, sweeps_at, run, reported_all, requests_of, tracked,
  reported_all-le,
}

-- Peer 3 breaks two promises, and peer 4 has one left.
abbrev some_promises : GossipPromises
some_promises = (7, (3, 10) ∷ (4, 90) ∷ []) ∷ (8, (3, 20) ∷ []) ∷ []

get_broken_promises-IsExact_example :
    IsExact 50 some_promises (get_broken_promises 50 some_promises)
get_broken_promises-IsExact_example = get_broken_promises-IsExact 50 some_promises

unfoldable first_of : List ℕ → Option ℕ
first_of [] = none
first_of (m ∷ ms) = some m

unfoldable second_of : List ℕ → Option ℕ
second_of [] = none
second_of (m ∷ ms) = first_of ms

abbrev promise_calls : List Call
promise_calls =
    adds first_of 3 (7 ∷ 8 ∷ []) 10
    ∷ adds second_of 3 (7 ∷ 8 ∷ []) 10
    ∷ adds first_of 3 (7 ∷ []) 60
    ∷ adds first_of 4 (8 ∷ []) 20
    ∷ adds first_of 3 [] 20
    ∷ rejects 8 self_origin
    ∷ sweeps_at 50
    ∷ delivers 7
    ∷ rejects 8 validation_failed
    ∷ sweeps_at 70
    ∷ []

reported_all-le_example :
    reported_all 3 promise_calls [] + tracked 3 (run promise_calls []) ≤ requests_of 3 promise_calls
reported_all-le_example = reported_all-le 3 promise_calls
