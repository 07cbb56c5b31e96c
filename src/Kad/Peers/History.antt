-- ===== src/Kad/Peers/History.antt =====
-- Histories of the handlers that change the routing table (protocols/kad/src/kad.rs).
use libp2p_rs.Common.{
  ℕ, ◌<◌, ◌^◌, ◌≡◌, ◌≢◌, refl, sym, ◌∙◌, subst, Bool, true, false, Option, none, some, List, [],
  ◌∷◌, All, Bool-cases, inl, inr,
}
use libp2p_rs.Kad.Key.{U256, Key}
use libp2p_rs.Kad.Table.Invariant.{IsValid}
use libp2p_rs.Kad.Peers.{
  Kademlia, try_deactivate_peer, add_node, remove_node, handle_peer_identified, handle_peer_found,
  handle_peer_stopped, speaks_kad,
}
use libp2p_rs.Kad.Peers.Changes.{
  Change, unchanged, taken_out, try_add_peer-Change, try_remove_peer-Change,
  try_deactivate_peer-Change,
}
use libp2p_rs.Kad.Peers.Stays.{Stays, Change-IsValid, Change-local_key, Change-Stays}
use libp2p_rs.PeerStore.{PeerStore}

-- What the main loop handles. The rest of the program may change the peer store in between.
pub data Event : Type 0 where
  node_added : (now peer : ℕ) → List ℕ → Event
  node_removed : ℕ → Event
  peer_identified : (now peer : ℕ) → Event
  peer_found : (now peer : ℕ) → (queried : Bool) → Event
  peer_stopped : ℕ → Event
  peer_deactivated : ℕ → Event
  store_changed : Option PeerStore → Event

-- The key that an event takes out of the table.
unfoldable pub removal : (ℕ → ℕ) → Event → Option ℕ
removal digest (node_removed peer) = some (digest peer)
removal digest e = none

module _ (u : U256) (digest : ℕ → ℕ) where
  unfoldable pub handle : Kademlia → Event → Kademlia
  handle s (node_added now peer addrs) = add_node u digest s now peer addrs
  handle s (node_removed peer) = remove_node u digest s peer
  handle s (peer_identified now peer) = handle_peer_identified u digest s now peer
  handle s (peer_found now peer queried) = handle_peer_found u digest s now peer queried
  handle s (peer_stopped peer) = handle_peer_stopped u digest s peer
  handle s (peer_deactivated peer) = try_deactivate_peer u digest s peer
  handle s (store_changed store) = record s { swarm = store }

  unfoldable pub handle_all : Kademlia → List Event → Kademlia
  handle_all s [] = s
  handle_all s (e ∷ es) = handle_all (handle s e) es

  module _ (short : (p : ℕ) → digest p < 2 ^ 256) where
    handle-Change :
        (s : Kademlia) (e : Event)
        → IsValid u s.kbuckets
        → s.kbuckets.local_key.bytes < 2 ^ 256
        → Change u (removal digest e) s.kbuckets (handle s e).kbuckets
    unfolding handle_peer_identified handle removal add_node remove_node handle_peer_found
        handle_peer_stopped taken_out
    handle-Change s (node_added now peer addrs) valid near =
        try_add_peer-Change u digest short _ valid near now peer false true
    handle-Change s (node_removed peer) valid near =
        try_remove_peer-Change u digest short _ valid near peer true
    handle-Change s (peer_identified now peer) valid near =
        elim (Bool-cases (speaks_kad s.protocol_name peer s.swarm)) [
          | inl e ↦
              rw (e, handle_peer_identified)
                (try_add_peer-Change u digest short s valid near now peer false false)
          | inr e ↦ rw (e, handle_peer_identified) unchanged
        ]
    handle-Change s (peer_found now peer queried) valid near =
        try_add_peer-Change u digest short s valid near now peer queried false
    handle-Change s (peer_stopped peer) valid near =
        try_remove_peer-Change u digest short s valid near peer false
    handle-Change s (peer_deactivated peer) valid near =
        try_deactivate_peer-Change u digest short s valid near peer
    handle-Change s (store_changed store) valid near = unchanged

    handle-near :
        (s : Kademlia) (e : Event)
        → IsValid u s.kbuckets
        → s.kbuckets.local_key.bytes < 2 ^ 256
        → (handle s e).kbuckets.local_key.bytes < 2 ^ 256
    handle-near s e valid near =
        subst (λ (k : Key ℕ). k.bytes < 2 ^ 256)
          (sym (
            Change-local_key u (removal digest e) s.kbuckets (handle s e).kbuckets
              (handle-Change s e valid near)))
          near

    handle-IsValid :
        (s : Kademlia) (e : Event)
        → IsValid u s.kbuckets
        → s.kbuckets.local_key.bytes < 2 ^ 256
        → IsValid u (handle s e).kbuckets
    handle-IsValid s e valid near =
        Change-IsValid u (removal digest e) s.kbuckets (handle s e).kbuckets
          (handle-Change s e valid near) valid

    -- If keys have 256 bits, any events of the main loop that add, replace, give up and remove
    -- peers keep a valid routing table valid and its local key the same.
    pub handle_all-IsValid :
        (s : Kademlia) (es : List Event)
        → IsValid u s.kbuckets
        → s.kbuckets.local_key.bytes < 2 ^ 256
        → IsValid u (handle_all s es).kbuckets
          × ((handle_all s es).kbuckets.local_key ≡ s.kbuckets.local_key)
    unfolding handle_all
    handle_all-IsValid s [] valid near = (valid, refl)
    handle_all-IsValid s (e ∷ es) valid near =
        let rest =
          handle_all-IsValid (handle s e) es (handle-IsValid s e valid near)
            (handle-near s e valid near) in
        (
          rest.0,
          rest.1
              ∙ Change-local_key u (removal digest e) s.kbuckets (handle s e).kbuckets
                  (handle-Change s e valid near),
        )

    -- If keys have 256 bits, and the routing table is valid and has a permanent peer that was
    -- added at a time, then after any events of the main loop that do not remove that peer on
    -- demand, whatever the rest of the program does to the peer store, the table has that peer,
    -- permanent and added at the same time.
    pub handle_all-Stays :
        (s : Kademlia) (es : List Event) (j : Key ℕ) (time : ℕ)
        → IsValid u s.kbuckets
        → s.kbuckets.local_key.bytes < 2 ^ 256
        → All (λ e. removal digest e ≢ some j.bytes) es
        → Stays u j time s.kbuckets
        → Stays u j time (handle_all s es).kbuckets
    unfolding handle_all
    handle_all-Stays s [] j time valid near kept r = r
    handle_all-Stays s (e ∷ es) j time valid near kept r =
        handle_all-Stays (handle s e) es j time (handle-IsValid s e valid near)
          (handle-near s e valid near) kept.1
          (Change-Stays u j time s.kbuckets valid near (removal digest e) (handle s e).kbuckets
            (handle-Change s e valid near) kept.0 r)
