-- ===== src/Kad/Query/Update.antt =====
-- `IterativeQuery::handle_update` of protocols/kad/src/query.rs: what an answer, or its absence,
-- does to the query. What it sends to the swarm and to the main loop is a list of effects.
use libp2p_rs.Common.{
  ℕ, Bool, true, false, not, ◌&&◌, Option, none, some, List, [], ◌∷◌, ◌++◌, ltb, leb, ◌==◌,
  if◌then◌else◌, length, filter, map, contains,
}
use libp2p_rs.Kad.Key.{U256}
use libp2p_rs.Kad.Query.{KadPeer, unreachable, succeeded, same_state}
use libp2p_rs.Kad.Query.Peers.{ClosestPeers, add_peers, set_peer_state, has_target, peers_filter}

-- A record is known by a number: the query only hands it on.
pub record PeerRecord : Type 0 where
  pub peer : Option ℕ
  pub value : ℕ

pub data QueryType : Type 0 where
  find_peer get_closest_peers : QueryType
  get_providers : ℕ → Option (List KadPeer) → QueryType
  get_record : ℕ → Option (List PeerRecord) → QueryType
  add_provider put_record : QueryType

-- The answer of `source`: the closer peers, the providers and the record.
pub data QueryUpdate : Type 0 where
  queried : ℕ → List KadPeer → Option (List KadPeer) → Option ℕ → QueryUpdate
  unreachable_peer : ℕ → QueryUpdate

pub record QueryResult : Type 0 where
  pub closest : Option (List KadPeer)
  pub found_peer : Option KadPeer
  pub providers : Option (List KadPeer)
  pub records : Option (List PeerRecord)
  pub cache_peers : Option (List ℕ)

pub data Effect : Type 0 where
  add_addrs : KadPeer → Effect
  peer_found peer_stopped : ℕ → Effect

-- The outcome: whether the query is done, with the state it leaves.
pub record Handled : Type 0 where
  pub done : Bool
  pub result : QueryResult
  pub peers : ClosestPeers
  pub effects : List Effect

-- `sort_unstable_by` the identifier, then `dedup_by` it.
unfoldable pub insert_by_id : KadPeer → List KadPeer → List KadPeer
insert_by_id p [] = p ∷ []
insert_by_id p (q ∷ qs) = if leb p.node_id q.node_id then p ∷ q ∷ qs else q ∷ insert_by_id p qs

unfoldable pub sort_by_id : List KadPeer → List KadPeer
sort_by_id [] = []
sort_by_id (p ∷ ps) = insert_by_id p (sort_by_id ps)

-- `p` is kept; the peers after it are dropped as long as they have its identifier.
unfoldable pub dedup_after : KadPeer → List KadPeer → List KadPeer
dedup_after p [] = p ∷ []
dedup_after p (q ∷ qs) = if p.node_id == q.node_id then dedup_after p qs else p ∷ dedup_after q qs

unfoldable pub dedup_by_id : List KadPeer → List KadPeer
dedup_by_id [] = []
dedup_by_id (p ∷ ps) = dedup_after p ps

unfoldable pub merge_providers : Option (List KadPeer) → List KadPeer → List KadPeer
merge_providers none found = found
merge_providers (some old) found = dedup_by_id (sort_by_id (old ++ found))

unfoldable pub push_record : Option (List PeerRecord) → PeerRecord → List PeerRecord
push_record none r = r ∷ []
push_record (some old) r = old ++ (r ∷ [])

-- The `filter_map` that collects the peers that have the value.
unfoldable pub sources_of : List PeerRecord → List ℕ
sources_of [] = []
sources_of (r ∷ rs) = elim r.peer [ none ↦ sources_of rs | some p ↦ p ∷ sources_of rs ]

unfoldable pub cache_peers_of : ℕ → List PeerRecord → ClosestPeers → List ℕ
cache_peers_of k_value records c =
    map (λ q. q.peer.node_id)
      (peers_filter c k_value (λ q.
        not (same_state q.state unreachable) && not (contains q.peer.node_id (sources_of records))))

-- The branches of the match on the query type, after the closer peers have been taken in.
unfoldable pub on_find_peer : Option KadPeer → QueryResult → Bool × QueryResult
on_find_peer none r = (false, r)
on_find_peer (some p) r = (true, record r { found_peer = some p })

unfoldable pub on_providers : ℕ → Option (List KadPeer) → QueryResult → Bool × QueryResult
on_providers count none r = (false, r)
on_providers count (some []) r = (false, r)
on_providers count (some (p ∷ ps)) r =
    let all = merge_providers r.providers (p ∷ ps) in
    (not (count == 0) && leb count (length all), record r { providers = some all })

unfoldable pub on_record :
    (quorum k_value source : ℕ) → Option ℕ → ClosestPeers → QueryResult → Bool × QueryResult
on_record quorum k_value source none c r = (false, r)
on_record quorum k_value source (some v) c r =
    let all = push_record r.records (record { peer = some source; value = v }) in
    if ltb quorum (length all)
    then (true, record r { records = some all; cache_peers = some (cache_peers_of k_value all c) })
    else (false, record r { records = some all })

unfoldable pub provider_effects : QueryType → Option (List KadPeer) → List Effect
provider_effects (get_providers count _) (some ps) = map add_addrs ps
provider_effects _ _ = []

module _ (u : U256) (digest : ℕ → ℕ) where
  -- `none` is the panic of the types that are not iterative.
  unfoldable pub on_type :
      (k_value source : ℕ)
      → QueryType
      → Option (List KadPeer)
      → Option ℕ
      → ClosestPeers
      → QueryResult
      → Option (Bool × QueryResult)
  on_type k_value source get_closest_peers provider value c r = some (false, r)
  on_type k_value source find_peer provider value c r =
      some (on_find_peer (has_target u digest c) r)
  on_type k_value source (get_providers count _) provider value c r =
      some (on_providers count provider r)
  on_type k_value source (get_record quorum _) provider value c r =
      some (on_record quorum k_value source value c r)
  on_type k_value source _ provider value c r = none

  unfoldable pub incorporate : ℕ → ℕ → List KadPeer → ClosestPeers → ClosestPeers
  incorporate local_id source closer c =
      set_peer_state u digest
        (add_peers u digest c (filter (λ p. not (p.node_id == local_id)) closer)) source succeeded

  unfoldable pub handle_update :
      (local_id k_value : ℕ) → QueryType → QueryUpdate → QueryResult → ClosestPeers → Option Handled
  handle_update local_id k_value ty (unreachable_peer p) r c = some (record {
    done = false;
    result = r;
    peers = set_peer_state u digest c p unreachable;
    effects = peer_stopped p ∷ [];
  })
  handle_update local_id k_value ty (queried source closer provider value) r c =
      let others = filter (λ p. not (p.node_id == local_id)) closer in
      let after = incorporate local_id source closer c in
      elim (on_type k_value source ty provider value after r) [
        | none ↦ none
        | some (done, result) ↦ some (record {
          done = done;
          result = result;
          peers = after;
          effects = map add_addrs others ++ (peer_found source ∷ provider_effects ty provider);
        })
      ]
