-- ===== src/Kad/Query/Bounded.antt =====
-- How the answers of peers change the record of protocols/kad/src/query.rs: it stays in order, and
-- no more peers are waited for.
use libp2p_rs.Common.{
  ℕ, ◌≤◌, ◌≡◌, refl, sym, Bool, true, false, some, List, [], ◌∷◌, arith, true≢false,
}
use libp2p_rs.Kad.Key.{U256}
use libp2p_rs.Kad.Query.{KadPeer, PeerState, waiting, unreachable, succeeded, same_state}
use libp2p_rs.Kad.Query.Peers.{ClosestPeers, add_peer, add_peers, set_peer_state, num_of_state}
use libp2p_rs.Kad.Query.PeersLaws.{
  IsSorted, or_insert-IsSorted, set_state-IsSorted, count_if-or_insert, count_if-set_state,
}
use libp2p_rs.Kad.Query.Update.{
  QueryType, find_peer, get_closest_peers, get_providers, get_record, add_provider, put_record,
  QueryUpdate, queried, unreachable_peer, QueryResult, Handled, on_type, incorporate, handle_update,
}

-- `run` is for these types; `FixedQuery` is for the others.
abbrev pub is_iterative : QueryType → Bool
is_iterative find_peer = true
is_iterative get_closest_peers = true
is_iterative (get_providers _ _) = true
is_iterative (get_record _ _) = true
is_iterative add_provider = false
is_iterative put_record = false

-- The record of the peers is in order, and no more than `alpha` of them are waited for.
unfoldable pub IsBounded : ℕ → ClosestPeers → Type 0
IsBounded alpha c = IsSorted c.closest_peers × (num_of_state c waiting ≤ alpha)

module _ (u : U256) (digest : ℕ → ℕ) (alpha : ℕ) where
  pub add_peers-IsBounded :
      (c : ClosestPeers) (ps : List KadPeer)
      → IsBounded alpha c
      → IsBounded alpha (add_peers u digest c ps)
  unfolding add_peers add_peer IsBounded num_of_state
  add_peers-IsBounded c [] h = h
  add_peers-IsBounded c (p ∷ ps) h = add_peers-IsBounded (add_peer u digest c p) ps (
    or_insert-IsSorted _ _ c.closest_peers h.0,
    rw (count_if-or_insert (λ s. same_state s waiting) _ p c.closest_peers refl) h.1,
  )

  set_peer_state-IsBounded :
      (c : ClosestPeers) (x : ℕ) (s : PeerState)
      → same_state s waiting ≡ false
      → IsBounded alpha c
      → IsBounded alpha (set_peer_state u digest c x s)
  unfolding set_peer_state IsBounded num_of_state
  set_peer_state-IsBounded c x s e h = (
    set_state-IsSorted _ s c.closest_peers h.0,
    omega (arith, h.1, count_if-set_state (λ t. same_state t waiting) _ s c.closest_peers e),
  )

  pub handle_update-IsBounded :
      (local_id k_value : ℕ) (ty : QueryType) (update : QueryUpdate) (r : QueryResult)
      (c : ClosestPeers)
      → is_iterative ty ≡ true
      → IsBounded alpha c
      → (h : Handled) × ((handle_update u digest local_id k_value ty update r c ≡ some h)
          × IsBounded alpha h.peers)
  unfolding handle_update incorporate on_type
  handle_update-IsBounded local_id k ty (unreachable_peer p) r c i b =
      (_, (refl, set_peer_state-IsBounded c p unreachable refl b))
  handle_update-IsBounded local_id k find_peer (queried s closer ps v) r c i b =
      (_, (refl, set_peer_state-IsBounded _ s succeeded refl (add_peers-IsBounded c _ b)))
  handle_update-IsBounded local_id k get_closest_peers (queried s closer ps v) r c i b =
      (_, (refl, set_peer_state-IsBounded _ s succeeded refl (add_peers-IsBounded c _ b)))
  handle_update-IsBounded local_id k (get_providers n l) (queried s closer ps v) r c i b =
      (_, (refl, set_peer_state-IsBounded _ s succeeded refl (add_peers-IsBounded c _ b)))
  handle_update-IsBounded local_id k (get_record n l) (queried s closer ps v) r c i b =
      (_, (refl, set_peer_state-IsBounded _ s succeeded refl (add_peers-IsBounded c _ b)))
  handle_update-IsBounded local_id k add_provider (queried s closer ps v) r c i b =
      absurd (true≢false (sym i))
  handle_update-IsBounded local_id k put_record (queried s closer ps v) r c i b =
      absurd (true≢false (sym i))
