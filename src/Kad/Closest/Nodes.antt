-- ===== src/Kad/Closest/Nodes.antt =====
-- The nodes that `ClosestIter` of protocols/kad/src/kbucket.rs yields.
use libp2p_rs.Common.{
  ℕ, ◌+◌, ◌≤◌, ◌<◌, ◌^◌, ◌≡◌, inl, inr, sym, ap, ◌∙◌, some, List, [], ◌∷◌, ◌++◌, leb, All,
  All-append, Bool-cases, arith, leb→le, leb_false→le,
}
use libp2p_rs.Kad.Key.{U256, distance, ilog2}
use libp2p_rs.Kad.Key.Xor.{xor-lt_fuel, xor_assoc, xor_cancel, xor_comm}
use libp2p_rs.Kad.Key.Metric.{ilog2_iff}
use libp2p_rs.Kad.Bucket.{Node}
use libp2p_rs.Kad.Table.{KBucketsTable, bucket_at}
use libp2p_rs.Kad.Table.Invariant.{IsValid, BucketIsValid, bucket_at-IsValid}
use libp2p_rs.Kad.Closest.{insert_sorted, sort_by_distance, nodes_of, closest}
use libp2p_rs.Kad.Closest.Nearer.{IsOrdered, Nearer, Covers, closest_buckets-IsOrdered}
use native.Mathlib.Nat.{zero-add, le_trans, le_of_eq}

module _ {ℓ κ} {T : Type ℓ} {V : Type κ} (u : U256) (target : ℕ) where
  -- The first node is not farther from the target than the second.
  abbrev pub NotFarther : Node T V → Node T V → Type 0
  NotFarther a b = distance u target a.key.bytes ≤ distance u target b.key.bytes

  All-insert_sorted {μ} :
      (P : Node T V → Type μ) (n : Node T V) (ms : List (Node T V))
      → P n
      → All P ms
      → All P (insert_sorted u target n ms)
  unfolding insert_sorted
  All-insert_sorted P n [] p h = (p, tt)
  All-insert_sorted P n (m ∷ ms) p h =
      elim (Bool-cases (leb (distance u target n.key.bytes) (distance u target m.key.bytes))) [
        | inl t ↦ rw t (p, h)
        | inr f ↦ rw f (h.0, All-insert_sorted P n ms p h.1)
      ]

  pub All-sort_by_distance {μ} :
      (P : Node T V → Type μ) (ns : List (Node T V))
      → All P ns
      → All P (sort_by_distance u target ns)
  unfolding sort_by_distance
  All-sort_by_distance P [] h = tt
  All-sort_by_distance P (n ∷ ns) h =
      All-insert_sorted P n (sort_by_distance u target ns) h.0 (All-sort_by_distance P ns h.1)

  All-farther :
      (n m : Node T V) (ms : List (Node T V))
      → NotFarther n m
      → All (NotFarther m) ms
      → All (NotFarther n) ms
  All-farther n m [] h a = tt
  All-farther n m (o ∷ ms) h a = (le_trans h a.0, All-farther n m ms h a.1)

  insert_sorted-IsOrdered :
      (n : Node T V) (ms : List (Node T V))
      → IsOrdered NotFarther ms
      → IsOrdered NotFarther (insert_sorted u target n ms)
  unfolding insert_sorted
  insert_sorted-IsOrdered n [] h = (tt, tt)
  insert_sorted-IsOrdered n (m ∷ ms) h =
      elim (Bool-cases (leb (distance u target n.key.bytes) (distance u target m.key.bytes))) [
        | inl t ↦ rw t ((leb→le _ _ t, All-farther n m ms (leb→le _ _ t) h.0), h)
        | inr f ↦ rw f (
          All-insert_sorted (NotFarther m) n ms (leb_false→le _ _ f) h.0,
          insert_sorted-IsOrdered n ms h.1,
        )
      ]

  sort_by_distance-IsOrdered :
      (ns : List (Node T V)) → IsOrdered NotFarther (sort_by_distance u target ns)
  unfolding sort_by_distance
  sort_by_distance-IsOrdered [] = tt
  sort_by_distance-IsOrdered (n ∷ ns) =
      insert_sorted-IsOrdered n (sort_by_distance u target ns) (sort_by_distance-IsOrdered ns)

  IsOrdered-append :
      (xs ys : List (Node T V))
      → IsOrdered NotFarther xs
      → IsOrdered NotFarther ys
      → All (λ x. All (NotFarther x) ys) xs
      → IsOrdered NotFarther (xs ++ ys)
  IsOrdered-append [] ys hx hy h = hy
  IsOrdered-append (x ∷ xs) ys hx hy h =
      (All-append _ xs ys hx.0 h.0, IsOrdered-append xs ys hx.1 hy h.1)

  All-cross {μ ν} :
      (P : Node T V → Type μ) (Q : Node T V → Type ν) (xs ys : List (Node T V))
      → ((x y : Node T V) → P x → Q y → NotFarther x y)
      → All P xs
      → All Q ys
      → All (λ x. All (NotFarther x) ys) xs
  All-cross P Q [] ys f hx hy = tt
  All-cross P Q (x ∷ xs) ys f hx hy = (behind ys hy, All-cross P Q xs ys f hx.1 hy)
    where
      behind : (zs : List (Node T V)) → All Q zs → All (NotFarther x) zs
      behind [] h = tt
      behind (z ∷ zs) h = (f x z hx.0 h.0, behind zs h.1)

only_one : (x : ℕ) → Covers 0 x → x ≡ 1
only_one x c = omega arith

le_of_lt : (a b : ℕ) → a < b → a ≤ b
le_of_lt a b h = omega arith

module _ {ℓ κ} {T : Type ℓ} {V : Type κ} (u : U256) (t : KBucketsTable T V) (target : ℕ)
    (valid : IsValid u t) (near_local : t.local_key.bytes < 2 ^ 256)
    (near_target : target < 2 ^ 256) where
  -- A node in the bucket of an index.
  abbrev InBucket : ℕ → Node T V → Type 0
  InBucket i n = Covers i (u.xor t.local_key.bytes n.key.bytes)

  over_local :
      (n : ℕ) → u.xor (u.xor t.local_key.bytes target) (u.xor t.local_key.bytes n) ≡ u.xor target n
  over_local n =
      ap (λ (a : ℕ). u.xor a (u.xor t.local_key.bytes n)) (xor_comm u t.local_key.bytes target)
      ∙ xor_assoc u target t.local_key.bytes (u.xor t.local_key.bytes n)
      ∙ ap (u.xor target) (xor_cancel u t.local_key.bytes n)

  node_order :
      (i j : ℕ) (x y : Node T V)
      → Nearer u (u.xor t.local_key.bytes target) i j
      → InBucket i x
      → InBucket j y
      → NotFarther u target x y
  unfolding distance
  node_order i j x y (inl (zi, zj)) cx cy = le_of_eq (
      sym (over_local x.key.bytes)
      ∙ ap (u.xor (u.xor t.local_key.bytes target))
          (only_one _ (rw zi at cx) ∙ sym (only_one _ (rw zj at cy)))
      ∙ over_local y.key.bytes)
  node_order i j x y (inr f) cx cy = le_of_lt _ _ (
      rw (over_local x.key.bytes, over_local y.key.bytes) at
        (f (u.xor t.local_key.bytes x.key.bytes) (u.xor t.local_key.bytes y.key.bytes) cx cy))

  placed : (i : ℕ) → All (InBucket i) (bucket_at t.buckets i).nodes
  unfolding distance
  placed i =
      let here : BucketIsValid u t.local_key.bytes i (bucket_at t.buckets i) =
        rw (zero-add i) at at_i in
      go (bucket_at t.buckets i).nodes here.short here.placed
    where
      at_i : BucketIsValid u t.local_key.bytes (0 + i) (bucket_at t.buckets i)
      at_i = bucket_at-IsValid u t.local_key.bytes 0 i t.buckets valid.valid

      go :
          (ns : List (Node T V))
          → All (λ n. n.key.bytes < 2 ^ 256) ns
          → All (λ n. ilog2 u (u.xor t.local_key.bytes n.key.bytes) ≡ some i) ns
          → All (InBucket i) ns
      go [] a b = tt
      go (n ∷ ns) a b =
          (((ilog2_iff u _ i (xor-lt_fuel u 256 _ _ near_local a.0)).0).0 b.0, go ns a.1 b.1)

  sorted_placed :
      (i : ℕ) → All (InBucket i) (sort_by_distance u target (bucket_at t.buckets i).nodes)
  sorted_placed i = All-sort_by_distance u target (InBucket i) _ (placed i)

  behind_bucket :
      (i : ℕ) (is : List ℕ)
      → All (Nearer u (u.xor t.local_key.bytes target) i) is
      → All
          (λ x. All (NotFarther u target x) (nodes_of u t target is))
          (sort_by_distance u target (bucket_at t.buckets i).nodes)
  unfolding nodes_of
  behind_bucket i [] h = all_true (sort_by_distance u target (bucket_at t.buckets i).nodes)
    where
      all_true : (ns : List (Node T V)) → All (λ x. Unit {0}) ns
      all_true [] = tt
      all_true (n ∷ ns) = (tt, all_true ns)
  behind_bucket i (j ∷ is) h =
      join (sort_by_distance u target (bucket_at t.buckets i).nodes)
        (All-cross u target (InBucket i) (InBucket j) _ _ (λ x y. node_order i j x y h.0)
          (sorted_placed i) (sorted_placed j))
        (behind_bucket i is h.1)
    where
      join :
          (ns : List (Node T V))
          → All
              (λ x.
                All
                  (NotFarther u target x)
                  (sort_by_distance u target (bucket_at t.buckets j).nodes))
              ns
          → All (λ x. All (NotFarther u target x) (nodes_of u t target is)) ns
          → All
              (λ x.
                All (NotFarther u target x) (
                  sort_by_distance u target (bucket_at t.buckets j).nodes
                  ++ nodes_of u t target is))
              ns
      join [] a b = tt
      join (n ∷ ns) a b = (All-append _ _ _ a.0 b.0, join ns a.1 b.1)

  nodes_of-IsOrdered :
      (is : List ℕ)
      → IsOrdered (Nearer u (u.xor t.local_key.bytes target)) is
      → IsOrdered (NotFarther u target) (nodes_of u t target is)
  unfolding nodes_of
  nodes_of-IsOrdered [] h = tt
  nodes_of-IsOrdered (i ∷ is) h =
      IsOrdered-append u target _ _ (sort_by_distance-IsOrdered u target _)
        (nodes_of-IsOrdered is h.1) (behind_bucket i is h.0)

  -- In a valid routing table of keys of 256 bits the nodes that `closest` yields come by non-
  -- decreasing distance to the target.
  pub closest-IsOrdered : IsOrdered (NotFarther u target) (closest u t target)
  unfolding closest distance
  closest-IsOrdered =
      nodes_of-IsOrdered _
        (closest_buckets-IsOrdered u _ (xor-lt_fuel u 256 _ _ near_local near_target))
