-- ===== src/Kad/Peers/Changes.antt =====
-- What the handlers of protocols/kad/src/kad.rs do to the routing table, as a step relation.
use libp2p_rs.Common.{
  ℕ, ◌<◌, ◌^◌, ◌≡◌, refl, sym, ◌∙◌, subst, Bool, true, false, Option, none, some, Bool-cases,
  Option-cases, inl, inr, position, if◌then◌else◌,
}
use libp2p_rs.Kad.Key
use libp2p_rs.Kad.Key.{U256, Key}
use libp2p_rs.Kad.Bucket.{Node, has_key}
use libp2p_rs.Kad.Table.{
  KBucketsTable, Entry, bucket_at, bucket_index, value, insert, remove, set_value,
}
use libp2p_rs.Kad.Table.Invariant.{IsValid, EntryOf, is_present, is_absent, is_self, entry_of}
use libp2p_rs.Kad.Table.Lookup.{absent_value, placed_in, value_at}
use libp2p_rs.Kad.Peers.{
  PeerInfo, Kademlia, new_info, set_aliveness, candidate, try_replace, write_aliveness, add_absent,
  try_add_peer, try_remove_peer, try_deactivate_peer, add_at, take_at, deactivate_at,
}
use libp2p_rs.Kad.Peers.Candidate.{candidate-All, candidate-value, candidate-permanent}
use libp2p_rs.Kad.Peers.Eviction.{evict-insert}

-- `Change u taken t t'`: the table `t` becomes `t'`, and only the key `taken` may be taken out on demand.
pub data Change (u : U256) (taken : Option ℕ) (t : KBucketsTable ℕ PeerInfo)
    : KBucketsTable ℕ PeerInfo → Type 0 where
  unchanged : Change u taken t t
  noted :
      (k : Key ℕ) (a : Option ℕ) (info : PeerInfo)
      → k.bytes < 2 ^ 256
      → value u t k ≡ some info
      → Change u taken t (set_value u t k (set_aliveness a info))
  added :
      (k : Key ℕ) (info : PeerInfo)
      → k.bytes < 2 ^ 256
      → value u t k ≡ none
      → Change u taken t (insert u t k info).0
  replaced :
      (k : Key ℕ) (info : PeerInfo) (c : Node ℕ PeerInfo)
      → k.bytes < 2 ^ 256
      → c.key.bytes < 2 ^ 256
      → value u t k ≡ none
      → value u t c.key ≡ some c.value
      → c.value.permanent ≡ false
      → Change u taken t (insert u (remove u t c.key) k info).0
  dropped : (k : Key ℕ) → k.bytes < 2 ^ 256 → taken ≡ some k.bytes → Change u taken t (remove u t k)

-- The key that `try_remove_peer` takes out.
unfoldable pub taken_out : Bool → ℕ → Option ℕ
taken_out forced bytes = if forced then some bytes else none

module _ (u : U256) (digest : ℕ → ℕ) (short : (p : ℕ) → digest p < 2 ^ 256) where
  write-Change :
      (taken : Option ℕ) (t : KBucketsTable ℕ PeerInfo) (k : Key ℕ) (a : Option ℕ)
      → k.bytes < 2 ^ 256
      → Change u taken t (write_aliveness u digest t k a)
  unfolding write_aliveness
  write-Change taken t k a near = elim (Option-cases (value u t k)) [
    | inl e ↦ rw (e, write_aliveness) unchanged
    | inr (info, e) ↦ rw (e, write_aliveness) (noted k a info near e)
  ]

  module _ (s : Kademlia) (valid : IsValid u s.kbuckets)
      (near_local : s.kbuckets.local_key.bytes < 2 ^ 256) where
    replace-Change :
        (now i peer : ℕ) (k : Key ℕ) (info : PeerInfo)
        → k.bytes < 2 ^ 256
        → bucket_index u s.kbuckets k ≡ some i
        → position (has_key k) (bucket_at s.kbuckets.buckets i).nodes ≡ none
        → Change u none s.kbuckets
            (try_replace s now i peer k info
              (candidate now s.check_kad_peer_interval (bucket_at s.kbuckets.buckets i))).kbuckets
    unfolding try_replace
    replace-Change now i peer k info near a b =
        elim (Option-cases
          (candidate now s.check_kad_peer_interval (bucket_at s.kbuckets.buckets i))) [
            | inl e ↦ rw (e, try_replace) unchanged
            | inr (c, e) ↦
                let place = placed_in u s.kbuckets valid near_local i in
                let index = candidate-All _ now s.check_kad_peer_interval _ c e place.placed in
                rw (e, try_replace)
                  (subst (Change u none s.kbuckets)
                    (sym (
                      evict-insert u s.kbuckets valid near_local i k info now
                        s.check_kad_peer_interval c near a b e))
                    (replaced k info c near
                      (candidate-All _ now s.check_kad_peer_interval _ c e place.short)
                      (absent_value u s.kbuckets valid near_local k i a b)
                      (value_at u s.kbuckets c.key i (unfold bucket_index in index)
                        ∙ candidate-value now s.check_kad_peer_interval _ c e place.distinct)
                      (candidate-permanent now s.check_kad_peer_interval _ c e)))
          ]

    add_absent-Change :
        (now i peer : ℕ) (k : Key ℕ) (info : PeerInfo)
        → k.bytes < 2 ^ 256
        → bucket_index u s.kbuckets k ≡ some i
        → position (has_key k) (bucket_at s.kbuckets.buckets i).nodes ≡ none
        → Change u none s.kbuckets (add_absent u digest s now i peer k info).kbuckets
    unfolding add_absent
    add_absent-Change now i peer k info near a b =
        elim (Bool-cases (insert u s.kbuckets k info).1) [
          | inl e ↦
              rw (e, add_absent)
                (added k info near (absent_value u s.kbuckets valid near_local k i a b))
          | inr e ↦ rw (e, add_absent) (replace-Change now i peer k info near a b)
        ]

    add_at-Change :
        (now peer : ℕ) (queried permanent : Bool) (k : Key ℕ) {e : Entry}
        → k.bytes < 2 ^ 256
        → EntryOf u s.kbuckets k e
        → Change u none s.kbuckets (add_at u digest s now peer queried permanent k e).kbuckets
    unfolding add_at
    add_at-Change now peer true permanent k near (is_present i p a b) =
        write-Change none s.kbuckets k (some now) near
    add_at-Change now peer false permanent k near (is_present i p a b) = unchanged
    add_at-Change now peer queried permanent k near (is_absent i a b) =
        add_absent-Change now i peer k (new_info now queried permanent) near a b
    add_at-Change now peer queried permanent k near (is_self a) = unchanged

    pub try_add_peer-Change :
        (now peer : ℕ) (queried permanent : Bool)
        → Change u none s.kbuckets (try_add_peer u digest s now peer queried permanent).kbuckets
    unfolding try_add_peer Key.new
    try_add_peer-Change now peer queried permanent =
        add_at-Change now peer queried permanent (Key.new digest peer) (short peer)
          (entry_of u s.kbuckets (Key.new digest peer))

    take_at-Change :
        (peer : ℕ) (forced : Bool) (k : Key ℕ) {e : Entry}
        → k.bytes < 2 ^ 256
        → EntryOf u s.kbuckets k e
        → Change u
            (taken_out forced k.bytes)
            s.kbuckets
            (take_at u digest s peer forced k e).0.kbuckets
    unfolding take_at taken_out
    take_at-Change peer true k near (is_present i p a b) = dropped k near refl
    take_at-Change peer false k near (is_present i p a b) = write-Change none s.kbuckets k none near
    take_at-Change peer forced k near (is_absent i a b) = unchanged
    take_at-Change peer forced k near (is_self a) = unchanged

    pub try_remove_peer-Change :
        (peer : ℕ) (forced : Bool)
        → Change u
            (taken_out forced (digest peer))
            s.kbuckets
            (try_remove_peer u digest s peer forced).0.kbuckets
    unfolding try_remove_peer Key.new
    try_remove_peer-Change peer forced =
        take_at-Change peer forced (Key.new digest peer) (short peer)
          (entry_of u s.kbuckets (Key.new digest peer))

    deactivate_at-Change :
        (k : Key ℕ) {e : Entry}
        → k.bytes < 2 ^ 256
        → EntryOf u s.kbuckets k e
        → Change u none s.kbuckets (deactivate_at u digest s k e).kbuckets
    unfolding deactivate_at
    deactivate_at-Change k near (is_present i p a b) = write-Change none s.kbuckets k none near
    deactivate_at-Change k near (is_absent i a b) = unchanged
    deactivate_at-Change k near (is_self a) = unchanged

    pub try_deactivate_peer-Change :
        (peer : ℕ) → Change u none s.kbuckets (try_deactivate_peer u digest s peer).kbuckets
    unfolding try_deactivate_peer Key.new
    try_deactivate_peer-Change peer =
        deactivate_at-Change (Key.new digest peer) (short peer)
          (entry_of u s.kbuckets (Key.new digest peer))
