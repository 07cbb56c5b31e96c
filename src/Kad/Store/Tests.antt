-- ===== src/Kad/Store/Tests.antt =====
-- The theorems on the record store at concrete inputs.
use libp2p_rs.Common.{ℕ, ◌≡◌, ◌↔◌, ◌&&◌, Option, some, none, List, [], ◌∷◌, ◌==◌, if◌then◌else◌}
use libp2p_rs.Kad.Key.Model.{native_u256}
use libp2p_rs.Kad.Store.{
  Record, ProviderRecord, MemoryStoreConfig, MemoryStore, with_config, get, put, is_expired,
  gc_records,
}
use libp2p_rs.Kad.Store.History.{Call, puts, adds_provider, run, IsValid, store-IsValid}
use libp2p_rs.Kad.Store.Lookup.{Fits, is_none, put-get, gc_records-get}

abbrev small_config : MemoryStoreConfig
small_config = record { max_records = 2; max_value_bytes = 4; max_providers_per_key = 2 }

abbrev record_of : ℕ → Option ℕ → Record
record_of k t = record { key = k; value = 1 ∷ 2 ∷ []; time_received = t; publisher = none }

abbrev provider_of : ℕ → ℕ → ProviderRecord
provider_of k p = record { key = k; provider = p; time_received = none }

abbrev store_calls : List Call
store_calls =
    puts (record_of 1 (some 10))
    ∷ puts (record_of 2 none)
    ∷ adds_provider (provider_of 7 3)
    ∷ adds_provider (provider_of 7 6)
    ∷ adds_provider (provider_of 7 4)
    ∷ []

abbrev small_store : MemoryStore
small_store = run native_u256 (λ x. x) (with_config small_config) store_calls

store-IsValid_example : IsValid native_u256 (λ x. x) small_store
store-IsValid_example = store-IsValid native_u256 (λ x. x) small_config store_calls

put-get_example :
    (((put small_store (record_of 3 none)).0 ≡ none) ↔ Fits small_store (record_of 3 none))
    × (get (put small_store (record_of 3 none)).1 3 ≡ (
        if is_none (put small_store (record_of 3 none)).0 && (3 == 3)
        then some (record_of 3 none)
        else get small_store 3))
put-get_example = put-get small_store (record_of 3 none) 3

gc_records-get_example : get (gc_records 20 5 small_store) 1 ≡ elim (get small_store 1) [
  | none ↦ none
  | some r ↦ if is_expired 20 5 r.time_received then none else some r
]
gc_records-get_example =
    gc_records-get native_u256 (λ x. x) 20 5 small_store 1
      (store-IsValid native_u256 (λ x. x) small_config store_calls)
