-- ===== src/Kad/Closest.antt =====
-- protocols/kad/src/kbucket.rs: the iteration over the buckets, and over the nodes, in the order of
-- their distance to a target (`ClosestBucketsIter` and `ClosestIter`).
pub mod Order
pub mod Nearer
pub mod Counts
pub mod Nodes
use libp2p_rs.Common.{
  ℕ, zero, suc, ◌+◌, ◌-◌, ◌≤◌, ◌<◌, Bool, true, false, not, Option, none, some, List, [], ◌∷◌, ◌++◌,
  leb, ltb, ◌==◌, if◌then◌else◌, length, filter,
}
use libp2p_rs.Kad.Key.{U256, Key, distance, ilog2}
use libp2p_rs.Kad.Bucket.{Node, KBucket}
use libp2p_rs.Kad.Bucket
use libp2p_rs.Kad.Table.{KBucketsTable, bucket_at}

pub data ClosestBucketsIterState : Type 0 where
  start : ℕ → ClosestBucketsIterState
  zoom_in : ℕ → ClosestBucketsIterState
  zoom_out : ℕ → ClosestBucketsIterState
  done : ClosestBucketsIterState

-- `(0..i).rev().find(p)`
unfoldable pub find_down : (ℕ → Bool) → ℕ → Option ℕ
find_down p zero = none
find_down p (suc i) = if p i then some i else find_down p i

-- `(i..i + n).find(p)`
unfoldable pub find_up : (ℕ → Bool) → ℕ → ℕ → Option ℕ
find_up p zero i = none
find_up p (suc n) i = if p i then some i else find_up p n (suc i)

module _ (u : U256) (distance_to : ℕ) where
  unfoldable pub next_in : ℕ → Option ℕ
  next_in i = find_down (λ j. u.bit distance_to j) i

  unfoldable pub next_out : ℕ → Option ℕ
  next_out i = find_up (λ j. not (u.bit distance_to j)) (255 - i) (suc i)

  -- `ClosestBucketsIter::new`
  unfoldable pub first_state : ClosestBucketsIterState
  first_state = elim (ilog2 u distance_to) [ some i ↦ start i | none ↦ start 0 ]

  -- `Iterator::next`: the state that follows, and the index that is yielded.
  unfoldable pub next : ClosestBucketsIterState → ClosestBucketsIterState × Option ℕ
  next (start i) = (zoom_in i, some i)
  next (zoom_in i) = elim (next_in i) [ some j ↦ (zoom_in j, some j) | none ↦ (zoom_out 0, some 0) ]
  next (zoom_out i) = elim (next_out i) [ some j ↦ (zoom_out j, some j) | none ↦ (done, none) ]
  next done = (done, none)

  -- The indices that are yielded until the first `None`, for `fuel` calls of `next` at most.
  unfoldable pub visit : ℕ → ClosestBucketsIterState → List ℕ
  visit zero s = []
  visit (suc fuel) s =
      let rest = visit fuel (next s).0 in elim (next s).1 [ none ↦ [] | some i ↦ i ∷ rest ]

  -- 514 calls are enough for every distance (`Order.visit_fuel`).
  unfoldable pub closest_buckets : List ℕ
  closest_buckets = visit 514 first_state

-- The indices before the first 0 (`take_while`).
until_zero : List ℕ → List ℕ
until_zero [] = []
until_zero (i ∷ is) = if i == 0 then [] else i ∷ until_zero is

module _ {ℓ κ} {T : Type ℓ} {V : Type κ} (u : U256) where
  -- `sort_by` on the distance to the target, a stable sort.
  unfoldable pub insert_sorted : ℕ → Node T V → List (Node T V) → List (Node T V)
  insert_sorted target n [] = n ∷ []
  insert_sorted target n (m ∷ ms) =
      if leb (distance u target n.key.bytes) (distance u target m.key.bytes)
      then n ∷ m ∷ ms
      else m ∷ insert_sorted target n ms

  unfoldable pub sort_by_distance : ℕ → List (Node T V) → List (Node T V)
  sort_by_distance target [] = []
  sort_by_distance target (n ∷ ns) = insert_sorted target n (sort_by_distance target ns)

  -- All that `ClosestIter` yields: the sorted nodes of one bucket after the other.
  unfoldable pub nodes_of : KBucketsTable T V → ℕ → List ℕ → List (Node T V)
  nodes_of t target [] = []
  nodes_of t target (i ∷ is) =
      sort_by_distance target (bucket_at t.buckets i).nodes ++ nodes_of t target is

  -- `closest`; `closest_keys` yields the keys of the same nodes.
  unfoldable pub closest : KBucketsTable T V → ℕ → List (Node T V)
  closest t target = nodes_of t target (closest_buckets u (distance u t.local_key.bytes target))

  -- The entries of the buckets behind the first.
  sum_of : KBucketsTable T V → List ℕ → ℕ
  sum_of t [] = 0
  sum_of t (i ∷ is) = Bucket.num_entries (bucket_at t.buckets i) + sum_of t is

  count_in : KBucketsTable T V → ℕ → List ℕ → ℕ
  unfolding sum_of
  count_in t d [] = 0
  count_in t d (i ∷ is) =
      length (
        filter (λ (n : Node T V). leb (distance u n.key.bytes t.local_key.bytes) d)
          (bucket_at t.buckets i).nodes)
      + sum_of t is

  unfoldable pub count_nodes_between : KBucketsTable T V → ℕ → ℕ
  unfolding until_zero count_in
  count_nodes_between t target =
      let d = distance u target t.local_key.bytes in count_in t d (until_zero (closest_buckets u d))
