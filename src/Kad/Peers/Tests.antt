-- ===== src/Kad/Peers/Tests.antt =====
-- The theorems on the peers of the routing table at a concrete history.
use libp2p_rs.Common.{
  ℕ, ◌<◌, ◌^◌, ◌≡◌, refl, sym, subst, All, ◌≢◌, some_injective, none_not_some, true, false, some,
  none, List, [], ◌∷◌, arith, length, zero, suc, if◌then◌else◌, ltb,
}
use libp2p_rs.Kad.Key
use libp2p_rs.Kad.Key.{Key, distance, ilog2}
use libp2p_rs.Kad.Key.Model.{native_u256, bits, leading_zeros_of}
use libp2p_rs.Kad.Bucket
use libp2p_rs.Kad.Bucket.{k_value, position_of}
use libp2p_rs.Kad.Table
use libp2p_rs.Kad.Table.{absent, bucket_at, bucket_index, entry, entry_in, value, insert}
use libp2p_rs.Kad.Table.Invariant.{IsValid, new-IsValid}
use libp2p_rs.Kad.Peers.{
  Kademlia, new_info, add_node, handle_peer_found, try_add_peer, add_at, add_absent,
}
use libp2p_rs.Kad.Peers.Replacing.{IsAnswered, try_add_peer-IsAnswered}
use libp2p_rs.Kad.Peers.Stays.{Stays}
use libp2p_rs.Kad.Peers.History.{
  Event, node_added, peer_found, peer_stopped, store_changed, node_removed, removal, handle,
  handle_all, handle_all-IsValid, handle_all-Stays,
}

abbrev small_digest : ℕ → ℕ
small_digest p = if ltb p 256 then p else 0

small_digest-lt : (p : ℕ) → small_digest p < 2 ^ 256
small_digest-lt p = ground arith

abbrev fresh : Kademlia
fresh = record {
  kbuckets = Table.new (Key.new small_digest 5);
  swarm = some [];
  check_kad_peer_interval = 100;
  protocol_name = 1;
}

abbrev events : List Event
events =
    node_added 10 7 (1000 ∷ []) ∷ peer_found 20 6 true ∷ peer_stopped 6 ∷ store_changed none ∷ []

fresh-IsValid : IsValid native_u256 fresh.kbuckets
fresh-IsValid = new-IsValid native_u256 (Key.new small_digest 5)

fresh-near : fresh.kbuckets.local_key.bytes < 2 ^ 256
unfolding Table.new Key.new
fresh-near = omega arith

handle_all-IsValid_example :
    IsValid native_u256 (handle_all native_u256 small_digest fresh events).kbuckets
    × ((handle_all native_u256 small_digest fresh events).kbuckets.local_key
        ≡ fresh.kbuckets.local_key)
handle_all-IsValid_example =
    handle_all-IsValid native_u256 small_digest small_digest-lt fresh events fresh-IsValid
      fresh-near

abbrev with_node : Kademlia
with_node = handle_all native_u256 small_digest fresh (node_added 10 7 (1000 ∷ []) ∷ [])

with_node_value :
    value native_u256 with_node.kbuckets (Key.new small_digest 7) ≡ some (new_info 10 false true)
unfolding handle_all handle add_node try_add_peer add_at add_absent Key.new Table.new entry entry_in
    value insert bucket_index ilog2 distance bits bucket_at Bucket.empty position_of Bucket.insert
    Bucket.get new_info leading_zeros_of
with_node_value = refl

with_node-Stays : Stays native_u256 (Key.new small_digest 7) 10 with_node.kbuckets
unfolding new_info
with_node-Stays = record {
  info = new_info 10 false true;
  here = with_node_value;
  lasting = refl;
  since = refl;
}

with_node-near : with_node.kbuckets.local_key.bytes < 2 ^ 256
with_node-near =
    let kept =
      handle_all-IsValid native_u256 small_digest small_digest-lt fresh
        (node_added 10 7 (1000 ∷ []) ∷ []) fresh-IsValid fresh-near in
    subst (λ (k : Key ℕ). k.bytes < 2 ^ 256) (sym kept.1) fresh-near

with_node-IsValid : IsValid native_u256 with_node.kbuckets
with_node-IsValid =
    (handle_all-IsValid native_u256 small_digest small_digest-lt fresh
      (node_added 10 7 (1000 ∷ []) ∷ []) fresh-IsValid fresh-near).0

abbrev later : List Event
later = peer_found 20 6 true ∷ peer_stopped 7 ∷ node_removed 6 ∷ store_changed none ∷ []

later-kept : All (λ e. removal small_digest e ≢ some (Key.new small_digest 7).bytes) later
unfolding removal Key.new
later-kept = (
  none_not_some 7,
  (none_not_some 7, ((λ h. omega (arith, some_injective 6 7 h)), (none_not_some 7, tt))),
)

handle_all-Stays_example :
    Stays native_u256
      (Key.new small_digest 7)
      10
      (handle_all native_u256 small_digest with_node later).kbuckets
handle_all-Stays_example =
    handle_all-Stays native_u256 small_digest small_digest-lt with_node later
      (Key.new small_digest 7) 10 with_node-IsValid with_node-near later-kept with_node-Stays

-- The `n` peers from `p` on, each found and answering at the time of its number.
unfoldable found_from : (n p : ℕ) → List Event
found_from zero p = []
found_from (suc n) p = peer_found p p true ∷ found_from n (suc p)

abbrev crowded : Kademlia
crowded = handle_all native_u256 small_digest fresh (found_from 20 128)

crowded-IsValid :
    IsValid native_u256 crowded.kbuckets × (crowded.kbuckets.local_key ≡ fresh.kbuckets.local_key)
crowded-IsValid =
    handle_all-IsValid native_u256 small_digest small_digest-lt fresh (found_from 20 128)
      fresh-IsValid fresh-near

crowded-near : crowded.kbuckets.local_key.bytes < 2 ^ 256
crowded-near = subst (λ (k : Key ℕ). k.bytes < 2 ^ 256) (sym crowded-IsValid.1) fresh-near

newcomer : entry native_u256 crowded.kbuckets (Key.new small_digest 200) ≡ absent 7
unfolding found_from handle_all handle handle_peer_found try_add_peer add_at add_absent Key.new
    Table.new entry entry_in value insert bucket_index ilog2 distance bits bucket_at Bucket.empty
    position_of Bucket.insert Bucket.get new_info leading_zeros_of
newcomer = refl

crowded-full : length (bucket_at crowded.kbuckets.buckets 7).nodes ≡ k_value
unfolding found_from handle_all handle handle_peer_found try_add_peer add_at add_absent Key.new
    Table.new entry entry_in value insert bucket_index ilog2 distance bits bucket_at Bucket.empty
    position_of Bucket.insert Bucket.get new_info leading_zeros_of
crowded-full = refl

try_add_peer-IsAnswered_example :
    IsAnswered native_u256 crowded
      (try_add_peer native_u256 small_digest crowded 1000 200 true false)
      1000
      200
      (Key.new small_digest 200)
      (new_info 1000 true false)
      (bucket_at crowded.kbuckets.buckets 7).nodes
unfolding Key.new
try_add_peer-IsAnswered_example =
    try_add_peer-IsAnswered native_u256 small_digest crowded 1000 200 true false 7 crowded-IsValid.0
      crowded-near (small_digest-lt 200) newcomer crowded-full
