-- ===== src/Kad/Table/Lookup.antt =====
-- The entries of the routing table as a map (protocols/kad/src/kbucket/entry.rs).
use libp2p_rs.Common.{
  ℕ, zero, suc, ◌+◌, ◌<◌, ◌^◌, ◌≡◌, inl, inr, refl, sym, ap, ◌∙◌, none, some, List, [], ◌∷◌, ◌==◌,
  if◌then◌else◌, length, position, Option-cases, arith, exponent-lt,
}
use native.Mathlib.Nat.{zero-add}
use libp2p_rs.Kad.Key.{U256, Key, distance, ilog2}
use libp2p_rs.Kad.Key.Xor.{xor-lt_fuel}
use libp2p_rs.Kad.Key.Metric.{ilog2_iff}
use libp2p_rs.Kad.Bucket.{Node, KBucket, update_at, has_key}
use libp2p_rs.Kad.Bucket.Laws.{value_in, get_value, position-none}
use libp2p_rs.Kad.Table.{KBucketsTable, Entry, bucket_at, bucket_index, entry, value, num_buckets}
use libp2p_rs.Kad.Table.Invariant.{
  IsValid, BucketIsValid, EntryOf, is_present, is_absent, is_self, entry_of, bucket_at-IsValid,
}

pub bucket_at-update_at {ℓ κ} :
    {T : Type ℓ} {V : Type κ} (i j : ℕ) (f : KBucket T V → KBucket T V) (bs : List (KBucket T V))
    → i < length bs
    → bucket_at (update_at i f bs) j ≡ (if i == j then f (bucket_at bs i) else bucket_at bs j)
unfolding bucket_at
bucket_at-update_at i j f [] h = absurd (omega arith)
bucket_at-update_at zero zero f (b ∷ bs) h = refl
bucket_at-update_at zero (suc j) f (b ∷ bs) h = ground arith
bucket_at-update_at (suc i) zero f (b ∷ bs) h = ground arith
bucket_at-update_at (suc i) (suc j) f (b ∷ bs) h = ground (arith, bucket_at-update_at i j f bs)

module _ {ℓ κ} {T : Type ℓ} {V : Type κ} (u : U256) where
  -- The logarithm of a distance between keys of 256 bits is an index in range.
  pub bucket_index-lt :
      (t : KBucketsTable T V) (k : Key T) (i : ℕ)
      → t.local_key.bytes < 2 ^ 256
      → k.bytes < 2 ^ 256
      → bucket_index u t k ≡ some i
      → i < num_buckets
  unfolding bucket_index distance
  bucket_index-lt t k i hl hk e =
      let near = xor-lt_fuel u 256 _ _ hl hk in
      exponent-lt i 256 _ (((ilog2_iff u _ i near).0).0 e).0 near

  -- `value` reads the bucket of the key's index.
  pub value_lem :
      (t : KBucketsTable T V) (k : Key T)
      → value u t k ≡ elim (bucket_index u t k) [
        | none ↦ none
        | some i ↦ value_in k (bucket_at t.buckets i).nodes
      ]
  unfolding value
  value_lem t k = go refl (entry_of u t k)
    where
      go :
          {e : Entry}
          → entry u t k ≡ e
          → EntryOf u t k e
          → value u t k ≡ elim (bucket_index u t k) [
            | none ↦ none
            | some i ↦ value_in k (bucket_at t.buckets i).nodes
          ]
      go q (is_present i p a b) = rw (q, value) (rw a (get_value (bucket_at t.buckets i) k))
      go q (is_absent i a b) = rw (q, value) (rw a (sym (position-none k _ b).1))
      go q (is_self a) = rw (q, value) (rw a refl)

  pub bucket_index-put :
      (t : KBucketsTable T V) (bs : List (KBucket T V)) (k : Key T)
      → bucket_index u (record t { buckets = bs }) k ≡ bucket_index u t k
  unfolding bucket_index
  bucket_index-put t bs k = refl

  pub same_index :
      (t : KBucketsTable T V) (j k : Key T)
      → j.bytes ≡ k.bytes
      → bucket_index u t j ≡ bucket_index u t k
  unfolding bucket_index
  same_index t j k e = ap (λ (b : ℕ). ilog2 u (distance u t.local_key.bytes b)) e

  pub value_at :
      (t : KBucketsTable T V) (j : Key T) (m : ℕ)
      → bucket_index u t j ≡ some m
      → value u t j ≡ value_in j (bucket_at t.buckets m).nodes
  value_at t j m e = value_lem t j ∙ rw e refl

  pub value_nowhere :
      (t : KBucketsTable T V) (j : Key T) → bucket_index u t j ≡ none → value u t j ≡ none
  value_nowhere t j e = value_lem t j ∙ rw e refl

  pub value_in_same :
      (j k : Key T) (ns : List (Node T V)) → j.bytes ≡ k.bytes → value_in j ns ≡ value_in k ns
  value_in_same j k [] e = refl
  value_in_same j k (n ∷ ns) e = ground (arith, value_in_same j k ns e)

  -- The value of a key that `k` equals.
  pub value_same :
      (t : KBucketsTable T V) (j k : Key T) → j.bytes ≡ k.bytes → value u t j ≡ value u t k
  value_same t j k e = elim (Option-cases (bucket_index u t k)) [
    | inl q ↦ value_nowhere t j (same_index t j k e ∙ q) ∙ sym (value_nowhere t k q)
    | inr (i, q) ↦
        value_at t j i (same_index t j k e ∙ q)
        ∙ value_in_same j k (bucket_at t.buckets i).nodes e
        ∙ sym (value_at t k i q)
  ]

  module _ (t : KBucketsTable T V) (valid : IsValid u t)
      (near_local : t.local_key.bytes < 2 ^ 256) where
    pub index_in_range :
        (k : Key T) (i : ℕ) → k.bytes < 2 ^ 256 → bucket_index u t k ≡ some i → i < length t.buckets
    index_in_range k i near a = rw valid.sized (bucket_index-lt t k i near_local near a)

    pub placed_in : (i : ℕ) → BucketIsValid u t.local_key.bytes i (bucket_at t.buckets i)
    placed_in i =
        let e : 0 + i ≡ i = zero-add i in
        rw e at (bucket_at-IsValid u t.local_key.bytes 0 i t.buckets valid.valid)

    pub absent_value :
        (k : Key T) (i : ℕ)
        → bucket_index u t k ≡ some i
        → position (has_key k) (bucket_at t.buckets i).nodes ≡ none
        → value u t k ≡ none
    absent_value k i a b = value_at t k i a ∙ (position-none k _ b).1
