-- ===== src/PeerStore/Addrs.antt =====
-- What core/src/peerstore.rs answers about addresses and protocols after its calls.
use libp2p_rs.Common.{
  ℕ, ◌≡◌, refl, ◌&&◌, inl, inr, Option, none, some, List, [], ◌∷◌, ◌==◌, if◌then◌else◌, filter, map,
  contains, arith, Option-cases,
}
use libp2p_rs.Common.Map
use libp2p_rs.PeerStore.{
  AddrBookRecord, PeerStore, new_addr, set_ttl, new_record, put_addr, put_addrs, add_addrs,
  first_of, first_supported_protocol, support_protocols,
}

-- The time to live of an address, with the time at which it was set.
unfoldable pub find : ℕ → List AddrBookRecord → Option (ℕ × ℕ)
find a [] = none
find a (r ∷ rs) = if a == r.addr then some (r.ttl, r.expiry) else find a rs

unfoldable pub lookup : (peer addr : ℕ) → PeerStore → Option (ℕ × ℕ)
lookup peer addr s = elim (Map.get peer s) [ none ↦ none | some r ↦ find addr r.addrs ]

find-put_addr :
    (now a b ttl : ℕ) (rs : List AddrBookRecord)
    → find a (put_addr now b ttl rs) ≡ (if a == b then some (ttl, now) else find a rs)
unfolding find put_addr new_addr set_ttl
find-put_addr now a b ttl [] = refl
find-put_addr now a b ttl (r ∷ rs) = ground (arith, find-put_addr now a b ttl rs)

find-put_addrs :
    (now a ttl : ℕ) (addrs : List ℕ) (rs : List AddrBookRecord)
    → find a (put_addrs now ttl addrs rs)
      ≡ (if contains a addrs then some (ttl, now) else find a rs)
unfolding put_addrs
find-put_addrs now a ttl [] rs = refl
find-put_addrs now a ttl (b ∷ bs) rs =
    ground
      (arith, find-put_addrs now a ttl bs (put_addr now b ttl rs), find-put_addr now a b ttl rs)

find-new :
    (now a ttl : ℕ) (addrs : List ℕ)
    → find a (map (λ b. new_addr now b ttl) addrs)
      ≡ (if contains a addrs then some (ttl, now) else none)
unfolding find new_addr
find-new now a ttl [] = refl
find-new now a ttl (b ∷ bs) = ground (arith, find-new now a ttl bs)

-- After addresses are added to a peer, known or not, each of them has the given time to live, set
-- at that time, and every other address and every other peer has what it had.
pub add_addrs-lookup :
    (now peer ttl other a : ℕ) (addrs : List ℕ) (s : PeerStore)
    → lookup other a (add_addrs now peer addrs ttl s)
      ≡ (if other == peer && contains a addrs then some (ttl, now) else lookup other a s)
unfolding lookup add_addrs new_record
add_addrs-lookup now peer ttl other a addrs s = elim (Option-cases (Map.get peer s)) [
  | inl n ↦
      rw (n, add_addrs)
        (ground (
          arith,
          n,
          Map.get-insert other peer (new_record (map (λ b. new_addr now b ttl) addrs) none []) s,
          find-new now a ttl addrs,
        ))
  | inr (r, e) ↦
      rw (e, add_addrs)
        (ground (
          arith,
          e,
          Map.get-insert other peer (record r { addrs = put_addrs now ttl addrs r.addrs }) s,
          find-put_addrs now a ttl addrs r.addrs,
        ))
]

first_of-filter :
    (set ps : List ℕ)
    → first_of set ps ≡ elim (filter (λ p. contains p set) ps) [ [] ↦ none | q ∷ qs ↦ some q ]
unfolding first_of
first_of-filter set [] = refl
first_of-filter set (p ∷ ps) = ground (arith, first_of-filter set ps)

-- The first supported protocol is the first one of the list that `support_protocols` gives, and
-- none when that list is empty or the peer is unknown.
pub first_supported_protocol-support_protocols :
    (peer : ℕ) (protos : List ℕ) (s : PeerStore)
    → first_supported_protocol peer protos s ≡ elim (support_protocols peer protos s) [
      | none ↦ none
      | some found ↦ elim found [ [] ↦ none | q ∷ qs ↦ some q ]
    ]
unfolding first_supported_protocol support_protocols
first_supported_protocol-support_protocols peer protos s = elim (Option-cases (Map.get peer s)) [
  | inl n ↦ rw (n, first_supported_protocol, support_protocols) refl
  | inr (r, e) ↦
      rw (e, first_supported_protocol, support_protocols) (first_of-filter r.protos protos)
]
