-- ===== src/Kad/Peers.antt =====
-- The peers of the routing table (protocols/kad/src/addresses.rs and the first methods of
-- `Kademlia` in protocols/kad/src/kad.rs): how a peer is added, replaces an older one, is given up
-- or removed. Peers and times are numbers; a call is given the time that it reads.
pub mod Candidate
pub mod Oldest
pub mod Eviction
pub mod Changes
pub mod Stays
pub mod Replacing
pub mod History
mod Tests
use libp2p_rs.Common.{
  ℕ, ◌-◌, Bool, true, false, Option, none, some, List, [], ◌∷◌, ltb, not, ◌&&◌, if◌then◌else◌,
  filter,
}
use libp2p_rs.Kad.Key
use libp2p_rs.Kad.Key.{U256, Key}
use libp2p_rs.Kad.Bucket
use libp2p_rs.Kad.Bucket.{Node, KBucket, update_at}
use libp2p_rs.Kad.Table.{
  KBucketsTable, Entry, present, absent, self_entry, bucket_at, entry, value, insert, remove,
  set_value,
}
use libp2p_rs.PeerStore
use libp2p_rs.PeerStore.{PeerStore}

-- The constant of protocols/kad/src/kad.rs, in seconds, as the peer store counts its time.
abbrev pub address_ttl : ℕ
address_ttl = 3600

pub record PeerInfo : Type 0 where
  pub aliveness : Option ℕ
  pub added_at : ℕ
  pub permanent : Bool

-- `PeerInfo::new`
unfoldable pub new_info : ℕ → (aliveness permanent : Bool) → PeerInfo
new_info now aliveness permanent = record {
  aliveness = if aliveness then some now else none;
  added_at = now;
  permanent = permanent;
}

unfoldable pub set_aliveness : Option ℕ → PeerInfo → PeerInfo
set_aliveness a info = record info { aliveness = a }

-- The part of `Kademlia` that these methods use; `swarm` stands for the peer store behind it.
pub record Kademlia : Type 0 where
  pub kbuckets : KBucketsTable ℕ PeerInfo
  pub swarm : Option PeerStore
  pub check_kad_peer_interval : ℕ
  pub protocol_name : ℕ

unfoldable pub map_swarm : (PeerStore → PeerStore) → Option PeerStore → Option PeerStore
map_swarm f none = none
map_swarm f (some s) = some (f s)

-- `Option<Instant>::cmp`, less.
unfoldable pub is_older : Option ℕ → Option ℕ → Bool
is_older none none = false
is_older none (some b) = true
is_older (some a) none = false
is_older (some a) (some b) = ltb a b

-- The time since an instant in the future is 0.
unfoldable pub is_outdated : (now timeout : ℕ) → Option ℕ → Bool
is_outdated now timeout none = true
is_outdated now timeout (some a) = ltb timeout (now - a)

unfoldable pub is_replaceable : (now timeout : ℕ) → Node ℕ PeerInfo → Bool
is_replaceable now timeout n = not n.value.permanent && is_outdated now timeout n.value.aliveness

-- `min_by`, which keeps the first of equals.
unfoldable pub oldest_from : Node ℕ PeerInfo → List (Node ℕ PeerInfo) → Node ℕ PeerInfo
oldest_from best [] = best
oldest_from best (n ∷ ns) =
    oldest_from (if is_older n.value.aliveness best.value.aliveness then n else best) ns

unfoldable pub oldest : List (Node ℕ PeerInfo) → Option (Node ℕ PeerInfo)
oldest [] = none
oldest (n ∷ ns) = some (oldest_from n ns)

unfoldable pub candidate : (now timeout : ℕ) → KBucket ℕ PeerInfo → Option (Node ℕ PeerInfo)
candidate now timeout b = oldest (filter (is_replaceable now timeout) b.nodes)

-- `bucket.remove(&key)` and `entry.insert(info)` on the entry's bucket.
unfoldable pub evict :
    KBucketsTable ℕ PeerInfo → ℕ → (evicted key : Key ℕ) → PeerInfo → KBucketsTable ℕ PeerInfo
evict t i evicted key info =
    let without = update_at i (λ b. (Bucket.remove b evicted).0) t.buckets in
    record t {
      buckets = update_at i (λ b. (Bucket.insert b (record { key = key; value = info })).0) without;
    }

-- A full bucket, in which an outdated node may be replaced.
unfoldable pub try_replace :
    Kademlia → (now i peer : ℕ) → Key ℕ → PeerInfo → Option (Node ℕ PeerInfo) → Kademlia
try_replace s now i peer key info none = s
try_replace s now i peer key info (some c) = record s {
  kbuckets = evict s.kbuckets i c.key key info;
  swarm = map_swarm (PeerStore.pin peer) (map_swarm (PeerStore.unpin c.key.preimage) s.swarm);
}

unfoldable pub speaks_kad : ℕ → ℕ → Option PeerStore → Bool
speaks_kad protocol_name peer none = false
speaks_kad protocol_name peer (some store) =
    elim (PeerStore.first_supported_protocol peer (protocol_name ∷ []) store) [
      | none ↦ false
      | some p ↦ true
    ]

module _ (u : U256) (digest : ℕ → ℕ) where
  -- A write of the aliveness through the entry of a key that is there.
  unfoldable pub write_aliveness :
      KBucketsTable ℕ PeerInfo → Key ℕ → Option ℕ → KBucketsTable ℕ PeerInfo
  write_aliveness t k a = elim (value u t k) [
    | none ↦ t
    | some info ↦ set_value u t k (set_aliveness a info)
  ]

  unfoldable pub add_absent : Kademlia → (now i peer : ℕ) → Key ℕ → PeerInfo → Kademlia
  add_absent s now i peer key info =
      let put = insert u s.kbuckets key info in
      if put.1
      then record s { kbuckets = put.0; swarm = map_swarm (PeerStore.pin peer) s.swarm }
      else try_replace s now i peer key info
          (candidate now s.check_kad_peer_interval (bucket_at s.kbuckets.buckets i))

  unfoldable pub add_at :
      Kademlia → (now peer : ℕ) → (queried permanent : Bool) → Key ℕ → Entry → Kademlia
  add_at s now peer queried permanent key (present i) =
      if queried then record s { kbuckets = write_aliveness s.kbuckets key (some now) } else s
  add_at s now peer queried permanent key (absent i) =
      add_absent s now i peer key (new_info now queried permanent)
  add_at s now peer queried permanent key self_entry = s

  unfoldable pub try_add_peer : Kademlia → (now peer : ℕ) → (queried permanent : Bool) → Kademlia
  try_add_peer s now peer queried permanent =
      let key = Key.new digest peer in
      add_at s now peer queried permanent key (entry u s.kbuckets key)

  -- The node that `remove` returns is the bucket's of the key.
  unfoldable pub take_at :
      Kademlia → ℕ → (forced : Bool) → Key ℕ → Entry → Kademlia × Option (Node ℕ PeerInfo)
  take_at s peer forced key (present i) =
      if forced
      then (
        record s {
          kbuckets = remove u s.kbuckets key;
          swarm = map_swarm (PeerStore.unpin peer) s.swarm;
        },
        Bucket.get (bucket_at s.kbuckets.buckets i) key,
      )
      else (record s { kbuckets = write_aliveness s.kbuckets key none }, none)
  take_at s peer forced key (absent i) = (s, none)
  take_at s peer forced key self_entry = (s, none)

  unfoldable pub try_remove_peer :
      Kademlia → ℕ → (forced : Bool) → Kademlia × Option (Node ℕ PeerInfo)
  try_remove_peer s peer forced =
      let key = Key.new digest peer in take_at s peer forced key (entry u s.kbuckets key)

  unfoldable pub deactivate_at : Kademlia → Key ℕ → Entry → Kademlia
  deactivate_at s key (present i) = record s { kbuckets = write_aliveness s.kbuckets key none }
  deactivate_at s key (absent i) = s
  deactivate_at s key self_entry = s

  unfoldable pub try_deactivate_peer : Kademlia → ℕ → Kademlia
  try_deactivate_peer s peer =
      let key = Key.new digest peer in deactivate_at s key (entry u s.kbuckets key)

  -- The handlers of the main loop that call these methods.
  unfoldable pub add_node : Kademlia → (now peer : ℕ) → List ℕ → Kademlia
  add_node s now peer addresses =
      try_add_peer
        (record s {
          swarm = map_swarm (PeerStore.add_addrs now peer addresses address_ttl) s.swarm;
        })
        now peer false true

  unfoldable pub remove_node : Kademlia → ℕ → Kademlia
  remove_node s peer =
      (try_remove_peer (record s { swarm = map_swarm (PeerStore.clear_addrs peer) s.swarm }) peer
        true).0

  unfoldable pub handle_peer_identified : Kademlia → (now peer : ℕ) → Kademlia
  handle_peer_identified s now peer =
      if speaks_kad s.protocol_name peer s.swarm then try_add_peer s now peer false false else s

  unfoldable pub handle_peer_found : Kademlia → (now peer : ℕ) → (queried : Bool) → Kademlia
  handle_peer_found s now peer queried = try_add_peer s now peer queried false

  unfoldable pub handle_peer_stopped : Kademlia → ℕ → Kademlia
  handle_peer_stopped s peer = (try_remove_peer s peer false).0
