-- ===== src/Kad/Peers/Eviction.antt =====
-- A node is replaced in a full bucket (`try_add_peer` of protocols/kad/src/kad.rs) as by a removal
-- and an insert.
use libp2p_rs.Common.{
  ℕ, zero, suc, ◌<◌, ◌^◌, ◌≡◌, refl, sym, ◌∙◌, ap, true, length, Option-cases, none_not_some, none,
  some, List, [], ◌∷◌, position, Option-cases, inl, inr, arith,
}
use libp2p_rs.Kad.Key.{U256, Key}
use libp2p_rs.Kad.Bucket
use libp2p_rs.Kad.Bucket.{Node, KBucket, k_value, update_at, remove_at, has_key, position_of}
use libp2p_rs.Kad.Table.{
  KBucketsTable, present, absent, bucket_at, bucket_index, entry, entry_in, insert, remove,
  in_present,
}
use libp2p_rs.Kad.Table.Invariant.{IsValid}
use libp2p_rs.Kad.Table.Lookup.{bucket_at-update_at, index_in_range, placed_in}
use libp2p_rs.Kad.Peers.{PeerInfo, candidate, evict}
use libp2p_rs.Kad.Peers.Candidate.{candidate-All, candidate-position}

module _ {V : Type 0} where
  position-remove_at :
      (k : Key ℕ) (p : ℕ) (ns : List (Node ℕ V))
      → position (has_key k) ns ≡ none
      → position (has_key k) (remove_at p ns) ≡ none
  position-remove_at k p [] e = e
  position-remove_at k zero (n ∷ ns) e = ground (arith, e)
  position-remove_at k (suc p) (n ∷ ns) e = ground (arith, e, position-remove_at k p ns)

  absent-remove :
      (b : KBucket ℕ V) (j k : Key ℕ)
      → position (has_key k) b.nodes ≡ none
      → position (has_key k) (Bucket.remove b j).0.nodes ≡ none
  unfolding Bucket.remove
  absent-remove b j k e = elim (Option-cases (position (has_key j) b.nodes)) [
    | inl q ↦ rw (q, Bucket.remove) e
    | inr (p, q) ↦ rw (q, Bucket.remove) (position-remove_at k p b.nodes e)
  ]

  length-remove_at :
      (k : Key ℕ) (ns : List (Node ℕ V)) (p : ℕ)
      → position (has_key k) ns ≡ some p
      → suc (length (remove_at p ns)) ≡ length ns
  length-remove_at k [] p e = absurd (none_not_some p e)
  length-remove_at k (n ∷ ns) zero e = refl
  length-remove_at k (n ∷ ns) (suc p) e = ap suc (length-remove_at k ns p (ground (arith, e)))

module _ (u : U256) where
  entry-present :
      (t : KBucketsTable ℕ PeerInfo) (k : Key ℕ) (i p : ℕ)
      → bucket_index u t k ≡ some i
      → position (has_key k) (bucket_at t.buckets i).nodes ≡ some p
      → entry u t k ≡ present i
  unfolding entry position_of
  entry-present t k i p a b = rw (a, entry) (rw (b, entry_in) refl)

  entry-absent :
      (t : KBucketsTable ℕ PeerInfo) (k : Key ℕ) (i : ℕ)
      → bucket_index u t k ≡ some i
      → position (has_key k) (bucket_at t.buckets i).nodes ≡ none
      → entry u t k ≡ absent i
  unfolding entry position_of
  entry-absent t k i a b = rw (a, entry) (rw (b, entry_in) refl)

  module _ (t : KBucketsTable ℕ PeerInfo) (valid : IsValid u t)
      (near_local : t.local_key.bytes < 2 ^ 256) where
    module _ (i : ℕ) (k : Key ℕ) (info : PeerInfo) (now timeout : ℕ) (c : Node ℕ PeerInfo)
        (near : k.bytes < 2 ^ 256) (a : bucket_index u t k ≡ some i)
        (b : position (has_key k) (bucket_at t.buckets i).nodes ≡ none)
        (e : candidate now timeout (bucket_at t.buckets i) ≡ some c) where
      without : KBucketsTable ℕ PeerInfo
      without = record t { buckets = update_at i (λ b. (Bucket.remove b c.key).0) t.buckets }

      index : bucket_index u t c.key ≡ some i
      unfolding bucket_index
      index = candidate-All _ now timeout _ c e (placed_in u t valid near_local i).placed

      found : entry u t c.key ≡ present i
      found =
          let p = candidate-position now timeout (bucket_at t.buckets i) c e in
          entry-present t c.key i p.0 index p.1

      remove-without : remove u t c.key ≡ without
      unfolding remove in_present without
      remove-without = rw (found, in_present) refl

      same_bucket : bucket_at without.buckets i ≡ (Bucket.remove (bucket_at t.buckets i) c.key).0
      unfolding without
      same_bucket =
          bucket_at-update_at i i (λ b. (Bucket.remove b c.key).0) t.buckets
            (index_in_range u t valid near_local k i near a)
          ∙ ground arith

      lost : entry u without k ≡ absent i
      unfolding bucket_index without
      lost =
          entry-absent without k i a
            (rw same_bucket (absent-remove (bucket_at t.buckets i) c.key k b))

      insert-without : (insert u without k info).0 ≡ evict t i c.key k info
      unfolding insert evict without
      insert-without = rw (lost, insert) refl

      pub evict-insert : evict t i c.key k info ≡ (insert u (remove u t c.key) k info).0
      evict-insert = sym (ap (λ s. (insert u s k info).0) remove-without ∙ insert-without)

      -- The place of the node that is removed is free.
      room : length (Bucket.remove (bucket_at t.buckets i) c.key).0.nodes < k_value
      unfolding Bucket.remove
      room =
          let p = candidate-position now timeout (bucket_at t.buckets i) c e in
          rw (p.1, Bucket.remove)
            (omega (
              arith,
              length-remove_at c.key (bucket_at t.buckets i).nodes p.0 p.1,
              (placed_in u t valid near_local i).bounded,
            ))

      pub evict-inserted : (insert u (remove u t c.key) k info).1 ≡ true
      unfolding insert Bucket.insert
      evict-inserted =
          ap (λ s. (insert u s k info).1) remove-without
          ∙ rw (lost, insert) (rw same_bucket (ground (arith, room)))
