-- ===== src/Kad/Table/Writes.antt =====
-- What the writes of the entries of the routing table change (protocols/kad/src/kbucket/entry.rs).
use libp2p_rs.Common.{
  ℕ, ◌<◌, ◌^◌, ◌≡◌, inl, inr, refl, ◌∙◌, ◌&&◌, Option, none, some, ◌==◌, if◌then◌else◌, length,
  position, Option-cases, arith,
}
use libp2p_rs.Kad.Key.{U256, Key}
use libp2p_rs.Kad.Bucket
use libp2p_rs.Kad.Bucket.{Node, KBucket, k_value, update_at, has_key, position_of}
use libp2p_rs.Kad.Bucket.Laws.{
  Distinct, value_in, position-none, value_in-append, value_in-set_first, value_in-remove_at,
}
use libp2p_rs.Kad.Table.{
  KBucketsTable, Entry, bucket_at, bucket_index, entry, value, insert, remove, set_value,
  in_present,
}
use libp2p_rs.Kad.Table.Invariant.{IsValid, EntryOf, is_present, is_absent, is_self, entry_of}
use libp2p_rs.Kad.Table.Lookup.{
  bucket_at-update_at, bucket_index-put, same_index, value_at, value_nowhere, value_in_same,
  value_same, index_in_range, placed_in, absent_value,
}

module _ {ℓ κ} {T : Type ℓ} {V : Type κ} (u : U256) where
  -- One write into the bucket of `k` that changes the value of `k` alone.
  value-update :
      (t : KBucketsTable T V) (j k : Key T) (i : ℕ) (f : KBucket T V → KBucket T V) (w : Option V)
      → i < length t.buckets
      → bucket_index u t k ≡ some i
      → value_in j (f (bucket_at t.buckets i)).nodes
        ≡ (if j.bytes == k.bytes then w else value_in j (bucket_at t.buckets i).nodes)
      → value u (record t { buckets = update_at i f t.buckets }) j
        ≡ (if j.bytes == k.bytes then w else value u t j)
  value-update t j k i f w room at inner = elim (Option-cases (bucket_index u t j)) [
    | inl e ↦
        rw (value_nowhere u t' j (bucket_index-put u t _ j ∙ e), value_nowhere u t j e)
          (ground (arith, same_index u t j k))
    | inr (m, e) ↦
        rw (value_at u t' j m (bucket_index-put u t _ j ∙ e), value_at u t j m e)
          (ground (arith, same_index u t j k, bucket_at-update_at i m f t.buckets room))
  ]
    where
      t' : KBucketsTable T V
      t' = record t { buckets = update_at i f t.buckets }

  Bucket_insert-value :
      (b : KBucket T V) (j k : Key T) (v : V)
      → position (has_key k) b.nodes ≡ none
      → let r = Bucket.insert b (record { key = k; value = v }) in
        value_in j r.0.nodes ≡ (
          if j.bytes == k.bytes
          then (if r.1 then some v else value_in j b.nodes)
          else value_in j b.nodes)
  unfolding Bucket.insert
  Bucket_insert-value b j k v e = ground (
    arith,
    value_in-append j b.nodes (record { key = k; value = v }) (position-none k b.nodes e).0,
  )

  Bucket_remove-value :
      (b : KBucket T V) (j k : Key T) (p : ℕ)
      → Distinct b.nodes
      → position (has_key k) b.nodes ≡ some p
      → value_in j (Bucket.remove b k).0.nodes
        ≡ (if j.bytes == k.bytes then none else value_in j b.nodes)
  unfolding Bucket.remove
  Bucket_remove-value b j k p d e = rw (e, Bucket.remove) (value_in-remove_at j k b.nodes p d e)

  module _ (t : KBucketsTable T V) (valid : IsValid u t)
      (near_local : t.local_key.bytes < 2 ^ 256) where
    -- On a valid routing table and keys of 256 bits, an insert that answers true sets the value of
    -- its key and of no other, and one that answers false changes no value.
    pub value-insert :
        (j k : Key T) (v : V)
        → k.bytes < 2 ^ 256
        → value u (insert u t k v).0 j
          ≡ (if (insert u t k v).1 && j.bytes == k.bytes then some v else value u t j)
    value-insert j k v near = go refl (entry_of u t k)
      where
        go :
            {e : Entry}
            → entry u t k ≡ e
            → EntryOf u t k e
            → value u (insert u t k v).0 j
              ≡ (if (insert u t k v).1 && j.bytes == k.bytes then some v else value u t j)
        go q (is_present i p a b) = unfold insert in rw (q, insert) refl
        go q (is_absent i a b) =
            let put = λ (c : KBucket T V). Bucket.insert c (record { key = k; value = v }) in
            unfold insert in
            rw (q, insert)
              (ground (
                arith,
                value-update t j k i (λ c. (put c).0)
                    (if (put (bucket_at t.buckets i)).1
                      then some v
                      else value_in j (bucket_at t.buckets i).nodes)
                    (index_in_range u t valid near_local k i near a) a
                    (Bucket_insert-value _ j k v b),
                value_same u t j k,
                value_in_same u j k (bucket_at t.buckets i).nodes,
                value_at u t k i a,
              ))
        go q (is_self a) = unfold insert in rw (q, insert) refl

    -- On a valid routing table and keys of 256 bits, a removal takes the value of its key away and
    -- changes no other.
    pub value-remove :
        (j k : Key T)
        → k.bytes < 2 ^ 256
        → value u (remove u t k) j ≡ (if j.bytes == k.bytes then none else value u t j)
    value-remove j k near = go refl (entry_of u t k)
      where
        go :
            {e : Entry}
            → entry u t k ≡ e
            → EntryOf u t k e
            → value u (remove u t k) j ≡ (if j.bytes == k.bytes then none else value u t j)
        go q (is_present i p a b) =
            unfold remove in_present in
            rw (q, in_present)
              (value-update t j k i (λ c. (Bucket.remove c k).0) none
                (index_in_range u t valid near_local k i near a) a
                (Bucket_remove-value _ j k p (placed_in u t valid near_local i).distinct b))
        go q (is_absent i a b) =
            unfold remove in_present in
            rw (q, in_present)
              (ground (arith, value_same u t j k, absent_value u t valid near_local k i a b))
        go q (is_self a) =
            unfold remove in_present in
            rw (q, in_present) (ground (arith, value_same u t j k, value_nowhere u t k a))

    -- On a valid routing table and keys of 256 bits, a write through an entry replaces the value
    -- of a key that is there, and changes nothing else.
    pub value-set_value :
        (j k : Key T) (v : V)
        → k.bytes < 2 ^ 256
        → value u (set_value u t k v) j ≡ (
            if j.bytes == k.bytes
            then elim (value u t k) [ none ↦ none | some w ↦ some v ]
            else value u t j)
    value-set_value j k v near = go refl (entry_of u t k)
      where
        go :
            {e : Entry}
            → entry u t k ≡ e
            → EntryOf u t k e
            → value u (set_value u t k v) j ≡ (
                if j.bytes == k.bytes
                then elim (value u t k) [ none ↦ none | some w ↦ some v ]
                else value u t j)
        go q (is_present i p a b) =
            unfold set_value in_present in
            rw (q, in_present)
              (value-update t j k i (λ c. Bucket.set_value c k v) _
                (index_in_range u t valid near_local k i near a) a
                (rw (value_at u t k i a) (
                  unfold Bucket.set_value in
                  value_in-set_first j k v (bucket_at t.buckets i).nodes)))
        go q (is_absent i a b) =
            unfold set_value in_present in
            rw (q, in_present)
              (ground (arith, value_same u t j k, absent_value u t valid near_local k i a b))
        go q (is_self a) =
            unfold set_value in_present in
            rw (q, in_present) (ground (arith, value_same u t j k, value_nowhere u t k a))
