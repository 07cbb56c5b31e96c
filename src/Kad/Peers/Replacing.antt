-- ===== src/Kad/Peers/Replacing.antt =====
-- What `try_add_peer` of protocols/kad/src/kad.rs does for a peer whose bucket is full.
use libp2p_rs.Common.{
  ℕ, ◌<◌, ◌^◌, ◌≡◌, refl, ◌∙◌, ap, subst, Bool, false, none, some, List, ◌==◌, ◌⊎◌, if◌then◌else◌,
  length, position, All, Option-cases, inl, inr, arith,
}
use libp2p_rs.Kad.Key
use libp2p_rs.Kad.Key.{U256, Key}
use libp2p_rs.Kad.Bucket
use libp2p_rs.Kad.Bucket.{Node, KBucket, k_value, remove_at, has_key}
use libp2p_rs.Kad.Table.{
  KBucketsTable, absent, bucket_at, bucket_index, entry, value, insert, remove,
}
use libp2p_rs.Kad.Table.Invariant.{IsValid, EntryOf, is_absent, entry_of, remove-IsValid}
use libp2p_rs.Kad.Table.Lookup.{placed_in}
use libp2p_rs.Kad.Table.Writes.{value-insert, value-remove}
use libp2p_rs.PeerStore
use libp2p_rs.Kad.Peers.{
  PeerInfo, Kademlia, new_info, map_swarm, candidate, evict, try_replace, add_absent, add_at,
  try_add_peer,
}
use libp2p_rs.Kad.Peers.Candidate.{candidate-All}
use libp2p_rs.Kad.Peers.Eviction.{evict-insert, evict-inserted}
use libp2p_rs.Kad.Peers.Oldest.{IsFresh, IsOldest, candidate-IsOldest}
use libp2p_rs.Kad.Peers.Stays.{remove-local_key}

-- The node `c` gave its place to the peer, in the table and among the pinned peers.
pub record IsReplaced (u : U256) (s r : Kademlia) (peer : ℕ) (key : Key ℕ) (info : PeerInfo)
    (c : Node ℕ PeerInfo) : Type 0 where
  pub values :
      (j : Key ℕ)
      → value u r.kbuckets j ≡ (
          if j.bytes == key.bytes
          then some info
          else if j.bytes == c.key.bytes
          then none
          else value u s.kbuckets j)
  pub pins :
      r.swarm ≡ map_swarm (PeerStore.pin peer) (map_swarm (PeerStore.unpin c.key.preimage) s.swarm)

-- Nothing changes, as all nodes are fresh; or the peer replaces one that is stale and oldest.
unfoldable pub IsAnswered :
    U256 → Kademlia → Kademlia → (now peer : ℕ) → Key ℕ → PeerInfo → List (Node ℕ PeerInfo) → Type 0
IsAnswered u s r now peer key info ns =
    (All (λ n. IsFresh now s.check_kad_peer_interval n.value) ns × (r ≡ s))
    ⊎ ((c : Node ℕ PeerInfo) × (IsOldest now s.check_kad_peer_interval ns (some c)
          × IsReplaced u s r peer key info c))

absent_at :
    (u : U256) (t : KBucketsTable ℕ PeerInfo) (k : Key ℕ) (i : ℕ)
    → EntryOf u t k (absent i)
    → (bucket_index u t k ≡ some i) × (position (has_key k) (bucket_at t.buckets i).nodes ≡ none)
absent_at u t k i (is_absent _ a b) = (a, b)

insert-full :
    (u : U256) (t : KBucketsTable ℕ PeerInfo) (k : Key ℕ) (i : ℕ) (info : PeerInfo)
    → entry u t k ≡ absent i
    → length (bucket_at t.buckets i).nodes ≡ k_value
    → (insert u t k info).1 ≡ false
unfolding insert Bucket.insert
insert-full u t k i info e full = rw (e, insert) (rw full refl)

module _ (u : U256) (s : Kademlia) (valid : IsValid u s.kbuckets)
    (near_local : s.kbuckets.local_key.bytes < 2 ^ 256) (i : ℕ) (k : Key ℕ) (info : PeerInfo)
    (now : ℕ) (near : k.bytes < 2 ^ 256) (a : bucket_index u s.kbuckets k ≡ some i)
    (b : position (has_key k) (bucket_at s.kbuckets.buckets i).nodes ≡ none) where
  evict-value :
      (c : Node ℕ PeerInfo) (j : Key ℕ)
      → candidate now s.check_kad_peer_interval (bucket_at s.kbuckets.buckets i) ≡ some c
      → value u (evict s.kbuckets i c.key k info) j ≡ (
          if j.bytes == k.bytes
          then some info
          else if j.bytes == c.key.bytes
          then none
          else value u s.kbuckets j)
  evict-value c j e =
      let t = s.kbuckets in
      let wait = s.check_kad_peer_interval in
      let short = candidate-All _ now wait _ c e (placed_in u t valid near_local i).short in
      let still : (remove u t c.key).local_key.bytes < 2 ^ 256 =
        rw (remove-local_key u t c.key) near_local in
      ap (λ r. value u r j) (evict-insert u t valid near_local i k info now wait c near a b e)
      ∙ value-insert u (remove u t c.key) (remove-IsValid u t c.key valid) still j k info near
      ∙ ground (
        arith,
        evict-inserted u t valid near_local i k info now wait c near a b e,
        value-remove u t valid near_local j c.key short,
      )

  try_replace-IsAnswered :
      (peer : ℕ)
      → IsAnswered u s
          (try_replace s now i peer k info
            (candidate now s.check_kad_peer_interval (bucket_at s.kbuckets.buckets i)))
          now
          peer
          k
          info
          (bucket_at s.kbuckets.buckets i).nodes
  unfolding IsAnswered try_replace IsOldest
  try_replace-IsAnswered peer =
      let bucket = bucket_at s.kbuckets.buckets i in
      let wait = s.check_kad_peer_interval in
      let o = candidate-IsOldest now wait bucket in
      elim (Option-cases (candidate now wait bucket)) [
        | inl e ↦ rw (e, try_replace) (inl (subst (IsOldest now wait bucket.nodes) e o, refl))
        | inr (c, e) ↦
            rw (e, try_replace)
              (inr (
                c,
                (
                  subst (IsOldest now wait bucket.nodes) e o,
                  record { values = λ j. evict-value c j e; pins = refl },
                ),
              ))
      ]

-- On a valid routing table with keys of 256 bits, for a peer that is not in it and whose bucket is
-- full, try_add_peer changes nothing if each node of the bucket is permanent or was seen alive
-- within the interval. Otherwise one of the nodes that is neither, and than which no other such
-- node was seen alive longer ago, where never counts as the longest, gives its place: its key has
-- no value any more, the peer has a new one, all other keys keep theirs, and the peer is pinned in
-- place of the node.
pub try_add_peer-IsAnswered :
    (u : U256) (digest : ℕ → ℕ) (s : Kademlia) (now peer : ℕ) (queried permanent : Bool) (i : ℕ)
    → IsValid u s.kbuckets
    → s.kbuckets.local_key.bytes < 2 ^ 256
    → (Key.new digest peer).bytes < 2 ^ 256
    → entry u s.kbuckets (Key.new digest peer) ≡ absent i
    → length (bucket_at s.kbuckets.buckets i).nodes ≡ k_value
    → IsAnswered u s
        (try_add_peer u digest s now peer queried permanent)
        now
        peer
        (Key.new digest peer)
        (new_info now queried permanent)
        (bucket_at s.kbuckets.buckets i).nodes
unfolding try_add_peer add_at add_absent
try_add_peer-IsAnswered u digest s now peer queried permanent i valid near_local near e full =
    let k = Key.new digest peer in
    let info = new_info now queried permanent in
    let at =
      absent_at u s.kbuckets k i (subst (EntryOf u s.kbuckets k) e (entry_of u s.kbuckets k)) in
    rw (e, add_at)
      (rw (insert-full u s.kbuckets k i info e full)
        (try_replace-IsAnswered u s valid near_local i k info now near at.0 at.1 peer))
