-- ===== src/Kad/Tests.antt =====
-- The theorems on the keyspace and the routing table at concrete inputs.
use libp2p_rs.Common.{
  ℕ, suc, ◌-◌, ◌*◌, ◌%◌, ◌+◌, ◌^◌, ◌≤◌, ◌<◌, ◌≡◌, ◌↔◌, refl, true, some, none, List, [], ◌∷◌, arith,
}
use libp2p_rs.Kad.Key.{Key, distance, for_distance, ilog2}
use libp2p_rs.Kad.Key.Metric.{for_distance_unique, distance_metric, ilog2_iff}
use libp2p_rs.Kad.Key.Model.{native_u256}
use libp2p_rs.Kad.Table
use libp2p_rs.Kad.Table.{KBucketsTable}
use libp2p_rs.Kad.Table.Index.{
  Rng, RngLaws, write_byte, from_bytes, fill, finish, range, contains, rand_distance,
  range-contains, rand_distance-contains,
}
use libp2p_rs.Kad.Table.Invariant.{IsValid}
use libp2p_rs.Kad.Table.History.{Call, inserts, removes, writes, run, run-IsValid}
use libp2p_rs.Kad.Table.Refinement.{map_run, run-value}
use libp2p_rs.Kad.Closest.{closest_buckets, closest, visit, first_state}
use libp2p_rs.Kad.Closest.Order.{bucket_order, first_index, visit-order}
use libp2p_rs.Kad.Closest.Nearer.{IsOrdered, Nearer, closest_buckets-IsOrdered}
use libp2p_rs.Kad.Closest.Counts.{count, closest_buckets-count}
use libp2p_rs.Kad.Closest.Nodes.{NotFarther, closest-IsOrdered}

abbrev key_of : ℕ → Key ℕ
key_of n = record { preimage = n; bytes = n }

abbrev calls : List (Call ℕ ℕ)
calls =
    inserts (key_of 6) 60 ∷ inserts (key_of 7) 70 ∷ removes (key_of 6) ∷ writes (key_of 7) 71 ∷ []

abbrev small_table : KBucketsTable ℕ ℕ
small_table = run native_u256 (Table.new (key_of 5)) calls

small_table-IsValid : IsValid native_u256 small_table
small_table-IsValid = (run-IsValid native_u256 (key_of 5) calls (omega arith)).0

small_local : small_table.local_key.bytes < 2 ^ 256
small_local =
    let small = run-IsValid native_u256 (key_of 5) calls (omega arith) in rw small.1 (omega arith)

for_distance_unique_example :
    ((distance native_u256 5 3 ≡ 6) ↔ (3 ≡ for_distance native_u256 5 6))
    × (5 < 2 ^ 256 → 6 < 2 ^ 256 → for_distance native_u256 5 6 < 2 ^ 256)
for_distance_unique_example = for_distance_unique native_u256 5 3 6

distance_metric_example :
    ((distance native_u256 5 3 ≡ 0) ↔ (◌≡◌ {A = ℕ} 5 3))
    × (distance native_u256 5 3 ≡ distance native_u256 3 5)
    × (distance native_u256 5 9 ≤ distance native_u256 5 3 + distance native_u256 3 9)
distance_metric_example =
    distance_metric native_u256 5 3 9 (omega arith) (omega arith) (omega arith)

ilog2_iff_example :
    ((ilog2 native_u256 6 ≡ some 2) ↔ ((2 ^ 2 ≤ 6) × (6 < 2 ^ 3)))
    × ((ilog2 native_u256 6 ≡ none) ↔ (◌≡◌ {A = ℕ} 6 0))
ilog2_iff_example = ilog2_iff native_u256 6 2 (omega arith)

range-contains_example :
    (contains native_u256 255 (2 ^ 255 + 1) ≡ true)
    ↔ (((range 255).0 ≤ 2 ^ 255 + 1) × (2 ^ 255 + 1 ≤ (range 255).1))
range-contains_example = range-contains native_u256 255 (2 ^ 255 + 1) (omega arith) (omega arith)

-- It counts its bytes up, and takes the highest number of a range.
abbrev counter : Rng ℕ
counter = record { gen = λ s. (s % 256, suc s); gen_range = λ low high s. (high - 1, suc s) }

counter-RngLaws : RngLaws counter
counter-RngLaws = record {
  gen-lt = λ s. omega arith;
  gen_range-in = λ low high s h. (omega arith, omega arith);
}

rand_distance-contains_example :
    (d : ℕ) × (s : ℕ) × ((rand_distance counter 26 200 ≡ some (d, s))
      × (contains native_u256 26 d ≡ true))
rand_distance-contains_example =
    rand_distance-contains native_u256 counter counter-RngLaws 26 200 (omega arith)

-- The lowest byte is drawn first.
rand_distance_run :
    rand_distance counter 26 200 ≡ some (200 + 256 * (201 + 256 * (202 + 256 * 7)), 204)
unfolding rand_distance fill finish write_byte from_bytes
rand_distance_run = refl

run-IsValid_example :
    IsValid native_u256 (run native_u256 (Table.new (key_of 5)) calls)
    × ((run native_u256 (Table.new (key_of 5)) calls).local_key ≡ key_of 5)
run-IsValid_example = run-IsValid native_u256 (key_of 5) calls (omega arith)

abbrev more_calls : List (Call ℕ ℕ)
more_calls = inserts (key_of 6) 61 ∷ removes (key_of 7) ∷ writes (key_of 6) 62 ∷ []

run-value_example :
    Table.value native_u256 (run native_u256 small_table more_calls) (key_of 6)
    ≡ map_run native_u256 small_table more_calls (Table.value native_u256 small_table) (key_of 6)
run-value_example =
    run-value native_u256 small_table more_calls (key_of 6) small_table-IsValid small_local
      (omega arith)

visit-order_example :
    (visit native_u256 5 514 (first_state native_u256 5)
      ≡ bucket_order native_u256 5 (first_index native_u256 5))
    × (visit native_u256 5 514 (first_state native_u256 5) ≡ closest_buckets native_u256 5)
    × (first_index native_u256 5 < 256)
visit-order_example = visit-order native_u256 5 514 (omega arith) (omega arith)

closest_buckets-IsOrdered_example : IsOrdered (Nearer native_u256 5) (closest_buckets native_u256 5)
closest_buckets-IsOrdered_example = closest_buckets-IsOrdered native_u256 5 (omega arith)

-- Bucket 0 comes twice for an odd distance.
closest_buckets-count_example : count 0 (closest_buckets native_u256 5) ≡ 2
closest_buckets-count_example = closest_buckets-count native_u256 5 0 (omega arith) (omega arith)

closest-IsOrdered_example : IsOrdered (NotFarther native_u256 9) (closest native_u256 small_table 9)
closest-IsOrdered_example =
    closest-IsOrdered native_u256 small_table 9 small_table-IsValid small_local (omega arith)
