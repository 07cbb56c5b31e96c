-- ===== src/Kad/Table/Invariant.antt =====
-- What every history of entries keeps of the routing table of protocols/kad/src/kbucket.rs.
use libp2p_rs.Common.{
  ℕ, zero, suc, ◌+◌, ◌≤◌, ◌<◌, ◌^◌, ◌≡◌, inl, inr, refl, ap, ◌∙◌, none, some, List, [], ◌∷◌, ltb,
  length, length-append, replicate, position, length-replicate, All, All-append, Bool-cases,
  Option-cases, arith,
}
use libp2p_rs.Kad.Key.{U256, Key, distance, ilog2}
use libp2p_rs.Kad.Bucket
use libp2p_rs.Kad.Bucket.{
  Node, KBucket, k_value, update_at, remove_at, has_key, position_of, set_first,
}
use libp2p_rs.Kad.Bucket.Laws.{
  Distinct, position-none, All-remove_at, Distinct-remove_at, length-remove_at-le, Distinct-append,
  All-set_first, Distinct-set_first, length-set_first,
}
use libp2p_rs.Kad.Table.{
  KBucketsTable, Entry, present, absent, self_entry, new, bucket_at, bucket_index, entry, entry_in,
  in_present, insert, remove, set_value, num_buckets,
}

-- A bucket of index `i`: at most K_VALUE nodes, no key twice, and every key of 256 bits and at a
-- distance from the local key that has the logarithm `i`.
pub record BucketIsValid {ℓ κ} {T : Type ℓ} {V : Type κ} (u : U256) (local i : ℕ) (b : KBucket T V)
    : Type 0 where
  pub bounded : length b.nodes ≤ k_value
  pub distinct : Distinct b.nodes
  pub short : All (λ n. n.key.bytes < 2 ^ 256) b.nodes
  pub placed : All (λ n. ilog2 u (distance u local n.key.bytes) ≡ some i) b.nodes

module _ {ℓ κ} {T : Type ℓ} {V : Type κ} (u : U256) (local : ℕ) where
  abbrev pub BucketsAreValid : ℕ → List (KBucket T V) → Type 0
  BucketsAreValid i [] = Unit {0}
  BucketsAreValid i (b ∷ bs) = BucketIsValid u local i b × BucketsAreValid (suc i) bs

  empty-IsValid : (i : ℕ) → BucketIsValid {T = T} {V = V} u local i Bucket.empty
  unfolding Bucket.empty
  empty-IsValid i = record { bounded = omega arith; distinct = tt; short = tt; placed = tt }

  replicate-AreValid :
      (b : KBucket T V)
      → ((i : ℕ) → BucketIsValid u local i b)
      → (i n : ℕ) → BucketsAreValid i (replicate n b)
  replicate-AreValid b h i zero = tt
  replicate-AreValid b h i (suc n) = (h i, replicate-AreValid b h (suc i) n)

  pub bucket_at-IsValid :
      (base i : ℕ) (bs : List (KBucket T V))
      → BucketsAreValid base bs
      → BucketIsValid u local (base + i) (bucket_at bs i)
  unfolding bucket_at
  bucket_at-IsValid base i [] h = empty-IsValid (base + i)
  bucket_at-IsValid base zero (b ∷ bs) h = let e : base + 0 ≡ base = omega arith in rw e h.0
  bucket_at-IsValid base (suc i) (b ∷ bs) h =
      let e : base + suc i ≡ suc base + i = omega arith in
      rw e (bucket_at-IsValid (suc base) i bs h.1)

  update_at-AreValid :
      (base i : ℕ) (f : KBucket T V → KBucket T V) (bs : List (KBucket T V))
      → BucketsAreValid base bs
      → BucketIsValid u local (base + i) (f (bucket_at bs i))
      → BucketsAreValid base (update_at i f bs)
  unfolding bucket_at
  update_at-AreValid base i f [] h g = tt
  update_at-AreValid base zero f (b ∷ bs) h g =
      let e : base + 0 ≡ base = omega arith in (rw e at g, h.1)
  update_at-AreValid base (suc i) f (b ∷ bs) h g =
      let e : base + suc i ≡ suc base + i = omega arith in
      (h.0, update_at-AreValid (suc base) i f bs h.1 (rw e at g))

  Bucket_insert-IsValid :
      (i : ℕ) (b : KBucket T V) (k : Key T) (v : V)
      → k.bytes < 2 ^ 256
      → BucketIsValid u local i b
      → position (has_key k) b.nodes ≡ none
      → ilog2 u (distance u local k.bytes) ≡ some i
      → BucketIsValid u local i (Bucket.insert b (record { key = k; value = v })).0
  unfolding Bucket.insert
  Bucket_insert-IsValid i b k v near h e q = elim (Bool-cases (ltb (length b.nodes) k_value)) [
    | inl room ↦
        rw (room, Bucket.insert)
          (record {
            bounded = ground (arith, length-append b.nodes (record { key = k; value = v } ∷ []));
            distinct = Distinct-append b.nodes _ h.distinct (position-none k b.nodes e).0;
            short = All-append _ b.nodes _ h.short (near, tt);
            placed = All-append _ b.nodes _ h.placed (q, tt);
          })
    | inr full ↦ rw (full, Bucket.insert) h
  ]

  Bucket_remove-IsValid :
      (i : ℕ) (b : KBucket T V) (k : Key T)
      → BucketIsValid u local i b
      → BucketIsValid u local i (Bucket.remove b k).0
  unfolding Bucket.remove
  Bucket_remove-IsValid i b k h = elim (Option-cases (position (has_key k) b.nodes)) [
    | inl e ↦ rw (e, Bucket.remove) h
    | inr (p, e) ↦
        rw (e, Bucket.remove)
          (record {
            bounded = omega (arith, h.bounded, length-remove_at-le p b.nodes);
            distinct = Distinct-remove_at p b.nodes h.distinct;
            short = All-remove_at _ p b.nodes h.short;
            placed = All-remove_at _ p b.nodes h.placed;
          })
  ]

  Bucket_set_value-IsValid :
      (i : ℕ) (b : KBucket T V) (k : Key T) (v : V)
      → BucketIsValid u local i b
      → BucketIsValid u local i (Bucket.set_value b k v)
  unfolding Bucket.set_value
  Bucket_set_value-IsValid i b k v h = record {
    bounded = omega (arith, h.bounded, length-set_first k v b.nodes);
    distinct = Distinct-set_first k v b.nodes h.distinct;
    short = All-set_first (λ j. j.bytes < 2 ^ 256) k v b.nodes h.short;
    placed = All-set_first (λ j. ilog2 u (distance u local j.bytes) ≡ some i) k v b.nodes h.placed;
  }

pub length-update_at {ℓ} :
    {A : Type ℓ} (i : ℕ) (f : A → A) (xs : List A) → length (update_at i f xs) ≡ length xs
length-update_at i f [] = refl
length-update_at zero f (x ∷ xs) = refl
length-update_at (suc i) f (x ∷ xs) = ap suc (length-update_at i f xs)

-- The table has its 256 buckets, and each is valid for its index.
pub record IsValid {ℓ κ} {T : Type ℓ} {V : Type κ} (u : U256) (t : KBucketsTable T V) : Type 0 where
  pub sized : length t.buckets ≡ num_buckets
  pub valid : BucketsAreValid u t.local_key.bytes 0 t.buckets

-- The entries of the three kinds, with what each says of the key.
pub data EntryOf {ℓ κ} {T : Type ℓ} {V : Type κ} (u : U256) (t : KBucketsTable T V) (k : Key T)
    : Entry → Type 0 where
  is_present :
      (i p : ℕ)
      → bucket_index u t k ≡ some i
      → position (has_key k) (bucket_at t.buckets i).nodes ≡ some p
      → EntryOf u t k (present i)
  is_absent :
      (i : ℕ)
      → bucket_index u t k ≡ some i
      → position (has_key k) (bucket_at t.buckets i).nodes ≡ none
      → EntryOf u t k (absent i)
  is_self : bucket_index u t k ≡ none → EntryOf u t k self_entry

module _ {ℓ κ} {T : Type ℓ} {V : Type κ} (u : U256) where
  pub entry_of : (t : KBucketsTable T V) (k : Key T) → EntryOf u t k (entry u t k)
  unfolding entry position_of
  entry_of t k = elim (Option-cases (bucket_index u t k)) [
    | inl e ↦ rw (e, entry) (is_self e)
    | inr (i, e) ↦ elim (Option-cases (position (has_key k) (bucket_at t.buckets i).nodes)) [
      | inl q ↦ rw (e, entry) (rw (q, entry_in) (is_absent i e q))
      | inr (p, q) ↦ rw (e, entry) (rw (q, entry_in) (is_present i p e q))
    ]
  ]

  pub new-IsValid : (k : Key T) → IsValid {V = V} u (new k)
  unfolding new
  new-IsValid k = record {
    sized = length-replicate num_buckets (Bucket.empty {T = T} {V = V});
    valid = replicate-AreValid u k.bytes Bucket.empty (empty-IsValid u k.bytes) 0 num_buckets;
  }

  update-IsValid :
      (t : KBucketsTable T V) (i : ℕ) (f : KBucket T V → KBucket T V)
      → IsValid u t
      → (BucketIsValid u t.local_key.bytes i (bucket_at t.buckets i)
          → BucketIsValid u t.local_key.bytes i (f (bucket_at t.buckets i)))
      → IsValid u (record t { buckets = update_at i f t.buckets })
  update-IsValid t i f h g = record {
    sized = length-update_at i f t.buckets ∙ h.sized;
    valid =
        let e : 0 + i ≡ i = omega arith in
        update_at-AreValid u t.local_key.bytes 0 i f t.buckets h.valid
          (rw e (g (rw e at (bucket_at-IsValid u t.local_key.bytes 0 i t.buckets h.valid))));
  }

  insert_at :
      (t : KBucketsTable T V) (k : Key T) (v : V) {e : Entry}
      → entry u t k ≡ e
      → EntryOf u t k e
      → k.bytes < 2 ^ 256
      → IsValid u t
      → IsValid u (insert u t k v).0
  unfolding insert bucket_index
  insert_at t k v q (is_present i p a b) near h = rw (q, insert) h
  insert_at t k v q (is_absent i a b) near h =
      rw (q, insert)
        (update-IsValid t i _ h (λ g. Bucket_insert-IsValid u t.local_key.bytes i _ k v near g b a))
  insert_at t k v q (is_self a) near h = rw (q, insert) h

  pub insert-IsValid :
      (t : KBucketsTable T V) (k : Key T) (v : V)
      → k.bytes < 2 ^ 256
      → IsValid u t
      → IsValid u (insert u t k v).0
  insert-IsValid t k v = insert_at t k v refl (entry_of t k)

  in_present-IsValid :
      (t : KBucketsTable T V) (f : KBucket T V → KBucket T V) (e : Entry)
      → ((i : ℕ) (b : KBucket T V)
          → BucketIsValid u t.local_key.bytes i b
          → BucketIsValid u t.local_key.bytes i (f b))
      → IsValid u t
      → IsValid u (in_present t f e)
  unfolding in_present
  in_present-IsValid t f (present i) g h = update-IsValid t i f h (g i _)
  in_present-IsValid t f (absent i) g h = h
  in_present-IsValid t f self_entry g h = h

  pub remove-IsValid : (t : KBucketsTable T V) (k : Key T) → IsValid u t → IsValid u (remove u t k)
  unfolding remove
  remove-IsValid t k =
      in_present-IsValid t _ (entry u t k) (λ i b. Bucket_remove-IsValid u t.local_key.bytes i b k)

  pub set_value-IsValid :
      (t : KBucketsTable T V) (k : Key T) (v : V) → IsValid u t → IsValid u (set_value u t k v)
  unfolding set_value
  set_value-IsValid t k v =
      in_present-IsValid t _ (entry u t k)
        (λ i b. Bucket_set_value-IsValid u t.local_key.bytes i b k v)
