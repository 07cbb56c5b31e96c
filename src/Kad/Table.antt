-- ===== src/Kad/Table.antt =====
-- protocols/kad/src/kbucket.rs and kbucket/entry.rs: the routing table of 256 buckets, the index of
-- a key's bucket, and the `Entry` API through which nodes enter and leave.
pub mod Index
pub mod Invariant
pub mod History
pub mod Lookup
pub mod Writes
pub mod Refinement
use libp2p_rs.Common.{
  ℕ, zero, suc, ◌+◌, ◌-◌, ◌*◌, ◌^◌, Bool, true, false, Option, none, some, List, [], ◌∷◌, ◌==◌,
  if◌then◌else◌, leb, length, get_elem?, replicate,
}
use libp2p_rs.Kad.Key.{U256, Key, distance, ilog2}
use libp2p_rs.Kad.Bucket
use libp2p_rs.Kad.Bucket.{Node, KBucket, update_at}

abbrev pub num_buckets : ℕ
num_buckets = 256

pub record KBucketsTable {ℓ κ} (T : Type ℓ) (V : Type κ) : Type (ℓ ⊔ κ) where
  pub local_key : Key T
  pub buckets : List (KBucket T V)

-- An entry holds the bucket's index in place of the reference to the bucket.
pub data Entry : Type 0 where
  present : ℕ → Entry
  absent : ℕ → Entry
  self_entry : Entry

module _ {ℓ κ} {T : Type ℓ} {V : Type κ} where
  unfoldable pub new : Key T → KBucketsTable T V
  new k = record { local_key = k; buckets = replicate num_buckets Bucket.empty }

  sum_entries : List (KBucket T V) → ℕ
  sum_entries [] = 0
  sum_entries (b ∷ bs) = Bucket.num_entries b + sum_entries bs

  unfoldable pub num_entries : KBucketsTable T V → ℕ
  unfolding sum_entries
  num_entries t = sum_entries t.buckets

  -- `self.buckets[i]`; an index out of range panics in the source, and reads as empty here.
  unfoldable pub bucket_at : List (KBucket T V) → ℕ → KBucket T V
  bucket_at [] i = Bucket.empty
  bucket_at (b ∷ bs) zero = b
  bucket_at (b ∷ bs) (suc i) = bucket_at bs i

  -- What a present entry does to its bucket; the other entries have no such operation.
  unfoldable pub in_present :
      KBucketsTable T V → (KBucket T V → KBucket T V) → Entry → KBucketsTable T V
  in_present t f (present i) = record t { buckets = update_at i f t.buckets }
  in_present t f (absent i) = t
  in_present t f self_entry = t

  module _ (u : U256) where
    -- `BucketIndex::new` of the distance to the local key; also `bucket_index`.
    unfoldable pub bucket_index : KBucketsTable T V → Key T → Option ℕ
    bucket_index t k = ilog2 u (distance u t.local_key.bytes k.bytes)

    unfoldable pub entry_in : KBucketsTable T V → Key T → ℕ → Entry
    entry_in t k i = elim (Bucket.position_of (bucket_at t.buckets i) k) [
      | some p ↦ present i
      | none ↦ absent i
    ]

    unfoldable pub entry : KBucketsTable T V → Key T → Entry
    unfolding entry_in bucket_index
    entry t k = elim (bucket_index t k) [ some i ↦ entry_in t k i | none ↦ self_entry ]

    -- `Entry::value`, read.
    unfoldable pub value : KBucketsTable T V → Key T → Option V
    value t k = elim (entry t k) [
      | present i ↦ elim (Bucket.get (bucket_at t.buckets i) k) [
        | some n ↦ some n.value
        | none ↦ none
      ]
      | absent i ↦ none
      | self_entry ↦ none
    ]

    -- `AbsentEntry::insert`; false for the other entries, which have no `insert`.
    unfoldable pub insert : KBucketsTable T V → Key T → V → KBucketsTable T V × Bool
    insert t k v = elim (entry t k) [
      | present i ↦ (t, false)
      | absent i ↦
          let put = λ (b : KBucket T V). Bucket.insert b (record { key = k; value = v }) in
          (
            record t { buckets = update_at i (λ b. (put b).0) t.buckets },
            (put (bucket_at t.buckets i)).1,
          )
      | self_entry ↦ (t, false)
    ]

    -- `PresentEntry::remove`.
    unfoldable pub remove : KBucketsTable T V → Key T → KBucketsTable T V
    unfolding in_present
    remove t k = in_present t (λ b. (Bucket.remove b k).0) (entry t k)

    -- A write through `PresentEntry::value`.
    unfoldable pub set_value : KBucketsTable T V → Key T → V → KBucketsTable T V
    unfolding in_present
    set_value t k v = in_present t (λ b. Bucket.set_value b k v) (entry t k)
