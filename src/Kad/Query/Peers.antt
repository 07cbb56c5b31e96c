-- ===== src/Kad/Query/Peers.antt =====
-- `ClosestPeers` of protocols/kad/src/query.rs: the peers of a query by their distance to its target.
-- A `BTreeMap` is the list of its entries by increasing key.
use libp2p_rs.Common.{
  ℕ, zero, suc, Bool, true, false, not, ◌||◌, Option, none, some, List, [], ◌∷◌, ltb, ◌==◌,
  if◌then◌else◌, any, filter, take,
}
use libp2p_rs.Common.Map
use libp2p_rs.Kad.Key.{U256, distance}
use libp2p_rs.Kad.Query.{
  KadPeer, PeerState, not_contacted, waiting, succeeded, PeerWithState, new_peer, same_state,
}

abbrev pub Peers : Type 0
Peers = List (ℕ × PeerWithState)

pub record ClosestPeers : Type 0 where
  pub target : ℕ
  pub closest_peers : Peers

-- `entry(distance).or_insert_with(..)`: a key that is there keeps its value.
unfoldable pub or_insert : ℕ → PeerWithState → Peers → Peers
or_insert d p [] = (d, p) ∷ []
or_insert d p ((e, q) ∷ m) =
    if d == e then (e, q) ∷ m else if ltb d e then (d, p) ∷ (e, q) ∷ m else (e, q) ∷ or_insert d p m

unfoldable pub set_state : ℕ → PeerState → Peers → Peers
set_state d s [] = []
set_state d s ((e, q) ∷ m) =
    if d == e then (e, record q { state = s }) ∷ m else (e, q) ∷ set_state d s m

abbrev pub values : Peers → List PeerWithState
values [] = []
values ((d, q) ∷ m) = q ∷ values m

-- `filter(p).count()`
unfoldable pub count_if : (PeerState → Bool) → Peers → ℕ
count_if p [] = 0
count_if p ((d, q) ∷ m) = if p q.state then suc (count_if p m) else count_if p m

abbrev pub one_of : List PeerState → PeerState → Bool
one_of states s = any (same_state s) states

module _ (u : U256) (digest : ℕ → ℕ) where
  -- The hash of the peer's identifier against the hash of the target.
  unfoldable pub distance_of : ClosestPeers → ℕ → ℕ
  distance_of c peer_id = distance u (digest peer_id) c.target

  unfoldable pub add_peer : ClosestPeers → KadPeer → ClosestPeers
  add_peer c p = record c {
    closest_peers = or_insert (distance_of c p.node_id) (new_peer p) c.closest_peers;
  }

  unfoldable pub add_peers : ClosestPeers → List KadPeer → ClosestPeers
  add_peers c [] = c
  add_peers c (p ∷ ps) = add_peers (add_peer c p) ps

  unfoldable pub has_target : ClosestPeers → Option KadPeer
  has_target c = elim (Map.get (distance u c.target c.target) c.closest_peers) [
    | none ↦ none
    | some q ↦ some q.peer
  ]

  unfoldable pub get_peer_state : ClosestPeers → ℕ → Option PeerState
  get_peer_state c peer_id = elim (Map.get (distance_of c peer_id) c.closest_peers) [
    | none ↦ none
    | some q ↦ some q.state
  ]

  unfoldable pub set_peer_state : ClosestPeers → ℕ → PeerState → ClosestPeers
  set_peer_state c peer_id s = record c {
    closest_peers = set_state (distance_of c peer_id) s c.closest_peers;
  }

unfoldable pub peers_filter : ClosestPeers → ℕ → (PeerWithState → Bool) → List PeerWithState
peers_filter c num p = take num (filter p (values c.closest_peers))

unfoldable pub peers_in_states : ClosestPeers → List PeerState → ℕ → List PeerWithState
peers_in_states c states num =
    take num (filter (λ q. one_of states q.state) (values c.closest_peers))

unfoldable pub num_of_state : ClosestPeers → PeerState → ℕ
num_of_state c s = count_if (λ t. same_state t s) c.closest_peers

unfoldable pub num_of_states : ClosestPeers → List PeerState → ℕ
num_of_states c states = count_if (one_of states) c.closest_peers

unfoldable pub is_starved : ClosestPeers → Bool
is_starved c = num_of_states c (not_contacted ∷ waiting ∷ []) == 0

unfoldable pub all_succeeded : List PeerWithState → Bool
all_succeeded [] = true
all_succeeded (q ∷ qs) = if not (same_state q.state succeeded) then false else all_succeeded qs

unfoldable pub can_terminate : ClosestPeers → ℕ → Bool
unfolding all_succeeded
can_terminate c beta = all_succeeded (
    take beta (
      filter
        (λ q.
          same_state q.state not_contacted
          || (same_state q.state waiting || same_state q.state succeeded))
        (values c.closest_peers)))

-- `peers_in_state_mut(NotContacted, num)`, with what the loop writes through the references: the
-- first `num` peers that have not been contacted are waited for.
unfoldable pub mark_waiting : ℕ → Peers → Peers
mark_waiting zero m = m
mark_waiting (suc n) [] = []
mark_waiting (suc n) ((d, q) ∷ m) = elim (same_state q.state not_contacted) [
  | true ↦ (d, record q { state = waiting }) ∷ mark_waiting n m
  | false ↦ (d, q) ∷ mark_waiting (suc n) m
]

-- The peers whose jobs the same loop spawns.
unfoldable pub jobs_of : ℕ → Peers → List ℕ
jobs_of zero m = []
jobs_of (suc n) [] = []
jobs_of (suc n) ((d, q) ∷ m) = elim (same_state q.state not_contacted) [
  | true ↦ q.peer.node_id ∷ jobs_of n m
  | false ↦ jobs_of (suc n) m
]
