-- ===== src/PeerStore.antt =====
-- core/src/peerstore.rs: what is known of the peers, their addresses with a time to live, keys and
-- protocols. Peers, addresses, keys and protocols are numbers, and a call is given the time it reads.
pub mod Addrs
pub mod Gc
mod Tests
use libp2p_rs.Common.{
  ℕ, ◌+◌, ◌-◌, Bool, true, false, Option, none, some, List, [], ◌∷◌, ◌++◌, ltb, ◌==◌, if◌then◌else◌,
  filter, map, contains,
}
use libp2p_rs.Common.Map

-- `expiry` is the time at which the time to live was set.
pub record AddrBookRecord : Type 0 where
  pub addr : ℕ
  pub ttl : ℕ
  pub expiry : ℕ

pub record PeerRecord : Type 0 where
  pub pinned : Bool
  pub addrs : List AddrBookRecord
  pub key : Option ℕ
  pub protos : List ℕ

-- The map behind the mutex; each call holds it throughout.
abbrev pub PeerStore : Type 0
PeerStore = List (ℕ × PeerRecord)

unfoldable pub new_addr : (now addr ttl : ℕ) → AddrBookRecord
new_addr now addr ttl = record { addr = addr; ttl = ttl; expiry = now }

unfoldable pub set_ttl : (now ttl : ℕ) → AddrBookRecord → AddrBookRecord
set_ttl now ttl r = record r { ttl = ttl; expiry = now }

unfoldable pub new_record : List AddrBookRecord → Option ℕ → List ℕ → PeerRecord
new_record addrs key protos = record { pinned = false; addrs = addrs; key = key; protos = protos }

-- `if let Some(pr) = guard.get_mut(peer_id)`
unfoldable pub modify : ℕ → (PeerRecord → PeerRecord) → PeerStore → PeerStore
modify peer f s = elim (Map.get peer s) [ none ↦ s | some r ↦ Map.insert peer (f r) s ]

unfoldable pub get_peers : PeerStore → List ℕ
get_peers s = map (λ e. e.0) s

unfoldable pub pin : ℕ → PeerStore → PeerStore
pin peer s = modify peer (λ r. record r { pinned = true }) s

unfoldable pub unpin : ℕ → PeerStore → PeerStore
unpin peer s = modify peer (λ r. record r { pinned = false }) s

unfoldable pub is_pinned : ℕ → PeerStore → Bool
is_pinned peer s = elim (Map.get peer s) [ none ↦ false | some r ↦ r.pinned ]

unfoldable pub add_key : (peer key : ℕ) → PeerStore → PeerStore
add_key peer key s = modify peer (λ r. record r { key = some key }) s

unfoldable pub get_key : ℕ → PeerStore → Option ℕ
get_key peer s = elim (Map.get peer s) [ none ↦ none | some r ↦ r.key ]

-- The address that is there gets the new time to live; another is put at the end.
unfoldable pub put_addr : (now addr ttl : ℕ) → List AddrBookRecord → List AddrBookRecord
put_addr now addr ttl [] = new_addr now addr ttl ∷ []
put_addr now addr ttl (r ∷ rs) =
    if r.addr == addr then set_ttl now ttl r ∷ rs else r ∷ put_addr now addr ttl rs

unfoldable pub put_addrs : (now ttl : ℕ) → List ℕ → List AddrBookRecord → List AddrBookRecord
put_addrs now ttl [] rs = rs
put_addrs now ttl (a ∷ rest) rs = put_addrs now ttl rest (put_addr now a ttl rs)

unfoldable pub add_addrs : (now peer : ℕ) → List ℕ → (ttl : ℕ) → PeerStore → PeerStore
add_addrs now peer addrs ttl s = elim (Map.get peer s) [
  | none ↦ Map.insert peer (new_record (map (λ a. new_addr now a ttl) addrs) none []) s
  | some r ↦ Map.insert peer (record r { addrs = put_addrs now ttl addrs r.addrs }) s
]

unfoldable pub add_addr : (now peer addr ttl : ℕ) → PeerStore → PeerStore
add_addr now peer addr ttl s = add_addrs now peer (addr ∷ []) ttl s

unfoldable pub clear_addrs : ℕ → PeerStore → PeerStore
clear_addrs peer s = modify peer (λ r. record r { addrs = [] }) s

unfoldable pub get_addrs : ℕ → PeerStore → Option (List ℕ)
get_addrs peer s = elim (Map.get peer s) [ none ↦ none | some r ↦ some (map (λ a. a.addr) r.addrs) ]

unfoldable pub update_addr : (now peer new_ttl : ℕ) → PeerStore → PeerStore
update_addr now peer new_ttl s =
    modify peer (λ r. record r { addrs = map (set_ttl now new_ttl) r.addrs }) s

-- `record.expiry.elapsed() < record.ttl`
unfoldable pub is_live : ℕ → AddrBookRecord → Bool
is_live now r = ltb (now - r.expiry) r.ttl

unfoldable pub sweep : ℕ → PeerRecord → PeerRecord
sweep now r = if r.pinned then r else record r { addrs = filter (is_live now) r.addrs }

unfoldable pub is_empty : PeerRecord → Bool
is_empty r = if r.pinned then false else elim r.addrs [ [] ↦ true | a ∷ rest ↦ false ]

-- The loop over the records, and the peers that it lists for removal.
unfoldable pub sweep_all : ℕ → PeerStore → PeerStore
sweep_all now [] = []
sweep_all now ((peer, r) ∷ s) = (peer, sweep now r) ∷ sweep_all now s

unfoldable pub to_remove : PeerStore → List ℕ
to_remove [] = []
to_remove ((peer, r) ∷ s) = if is_empty r then peer ∷ to_remove s else to_remove s

unfoldable pub remove_all : List ℕ → PeerStore → PeerStore
remove_all [] s = s
remove_all (peer ∷ peers) s = remove_all peers (Map.remove peer s)

unfoldable pub remove_expired_addrs : ℕ → PeerStore → PeerStore
remove_expired_addrs now s = let swept = sweep_all now s in remove_all (to_remove swept) swept

-- `HashSet::extend`
unfoldable pub extend : List ℕ → List ℕ → List ℕ
extend set [] = set
extend set (p ∷ ps) = if contains p set then extend set ps else extend (set ++ (p ∷ [])) ps

unfoldable pub add_protocols : ℕ → List ℕ → PeerStore → PeerStore
add_protocols peer protos s = elim (Map.get peer s) [
  | none ↦ Map.insert peer (new_record [] none (extend [] protos)) s
  | some r ↦ Map.insert peer (record r { protos = extend r.protos protos }) s
]

unfoldable pub clear_protocols : ℕ → PeerStore → PeerStore
clear_protocols peer s = modify peer (λ r. record r { protos = [] }) s

unfoldable pub get_protocols : ℕ → PeerStore → Option (List ℕ)
get_protocols peer s = elim (Map.get peer s) [ none ↦ none | some r ↦ some r.protos ]

unfoldable pub first_of : List ℕ → List ℕ → Option ℕ
first_of set [] = none
first_of set (p ∷ ps) = if contains p set then some p else first_of set ps

unfoldable pub first_supported_protocol : ℕ → List ℕ → PeerStore → Option ℕ
first_supported_protocol peer protos s = elim (Map.get peer s) [
  | none ↦ none
  | some r ↦ first_of r.protos protos
]

unfoldable pub support_protocols : ℕ → List ℕ → PeerStore → Option (List ℕ)
support_protocols peer protos s = elim (Map.get peer s) [
  | none ↦ none
  | some r ↦ some (filter (λ p. contains p r.protos) protos)
]
