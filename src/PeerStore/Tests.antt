-- ===== src/PeerStore/Tests.antt =====
-- The theorems on the peer store at concrete inputs.
use libp2p_rs.Common.{◌≡◌, refl, ◌&&◌, none, some, [], ◌∷◌, ◌==◌, if◌then◌else◌, contains}
use libp2p_rs.Common.Map
use libp2p_rs.PeerStore.{
  PeerStore, modify, add_addrs, add_protocols, pin, remove_expired_addrs, first_supported_protocol,
  support_protocols,
}
use libp2p_rs.PeerStore.Addrs.{lookup, add_addrs-lookup, first_supported_protocol-support_protocols}
use libp2p_rs.PeerStore.Gc.{collected, remove_expired_addrs-get}

abbrev known_peers : PeerStore
known_peers = pin 2 (
    add_protocols 1 (30 ∷ 31 ∷ [])
      (add_addrs 5 2 (20 ∷ []) 10 (add_addrs 0 1 (10 ∷ 11 ∷ []) 100 [])))

known_peers-IsMap : Map.IsMap known_peers
unfolding Map.IsMap Map.contains_key Map.get Map.insert modify pin add_protocols add_addrs
known_peers-IsMap = (refl, (refl, tt))

remove_expired_addrs-get_example :
    Map.get 2 (remove_expired_addrs 50 known_peers)
    ≡ elim (Map.get 2 known_peers) [ none ↦ none | some r ↦ collected 50 r ]
remove_expired_addrs-get_example = remove_expired_addrs-get 50 2 known_peers known_peers-IsMap

add_addrs-lookup_example :
    lookup 1 12 (add_addrs 7 1 (12 ∷ []) 60 known_peers)
    ≡ (if (1 == 1) && contains 12 (12 ∷ []) then some (60, 7) else lookup 1 12 known_peers)
add_addrs-lookup_example = add_addrs-lookup 7 1 60 1 12 (12 ∷ []) known_peers

first_supported_protocol-support_protocols_example :
    first_supported_protocol 1 (29 ∷ 31 ∷ []) known_peers
    ≡ elim (support_protocols 1 (29 ∷ 31 ∷ []) known_peers) [
      | none ↦ none
      | some found ↦ elim found [ [] ↦ none | q ∷ qs ↦ some q ]
    ]
first_supported_protocol-support_protocols_example =
    first_supported_protocol-support_protocols 1 (29 ∷ 31 ∷ []) known_peers
