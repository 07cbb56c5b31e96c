-- ===== src/Kad/Store.antt =====
-- protocols/kad/src/record.rs and protocols/kad/src/record/store/memory.rs: the records and the
-- provider records that a node keeps. Keys, peers, publishers and times are numbers. A hash map is the list of its entries, and a value the list of its bytes.
pub mod Providers
pub mod Kept
pub mod History
pub mod Lookup
mod Tests
use libp2p_rs.Common.{
  ℕ, zero, suc, ◌+◌, ◌≡◌, Bool, true, false, not, Option, none, some, List, [], ◌∷◌, ltb, leb, ◌==◌,
  if◌then◌else◌, length, set, take, filter, position, ◌++◌, ◌*◌,
}
use libp2p_rs.Common.Map
use libp2p_rs.Kad.Key.{U256, distance}

pub record Record : Type 0 where
  pub key : ℕ
  pub value : List ℕ
  pub time_received : Option ℕ
  pub publisher : Option ℕ

pub record ProviderRecord : Type 0 where
  pub key : ℕ
  pub provider : ℕ
  pub time_received : Option ℕ

-- `None` of a time means that the record was made here.
unfoldable pub new_record : ℕ → List ℕ → Bool → ℕ → Option ℕ → Record
new_record key value is_local now publisher = record {
  key = key;
  value = value;
  time_received = if is_local then none else some now;
  publisher = publisher;
}

pub record MemoryStoreConfig : Type 0 where
  pub max_records : ℕ
  pub max_value_bytes : ℕ
  pub max_providers_per_key : ℕ

-- The key of the local peer, which no operation reads, is left out.
pub record MemoryStore : Type 0 where
  pub config : MemoryStoreConfig
  pub records : List (ℕ × Record)
  pub providers : List (ℕ × List ProviderRecord)

pub data KadError : Type 0 where
  value_too_large max_records : KadError

-- `default_config` with the `K_VALUE` of 20.
unfoldable pub default_config : MemoryStoreConfig
default_config = record {
  max_records = 1024;
  max_value_bytes = 65 * 1024;
  max_providers_per_key = 20;
}

unfoldable pub with_config : MemoryStoreConfig → MemoryStore
with_config config = record { config = config; records = []; providers = [] }

unfoldable pub get : MemoryStore → ℕ → Option Record
get s k = Map.get k s.records

-- An error leaves the store as it is.
unfoldable pub put : MemoryStore → Record → Option KadError × MemoryStore
put s r =
    if leb s.config.max_value_bytes (length r.value)
    then (some value_too_large, s)
    else if Map.contains_key r.key s.records
    then (none, record s { records = Map.insert r.key r s.records })
    else if leb s.config.max_records (length s.records)
    then (some max_records, s)
    else (none, record s { records = Map.insert r.key r s.records })

unfoldable pub remove : MemoryStore → ℕ → MemoryStore
remove s k = record s { records = Map.remove k s.records }

unfoldable pub retain : MemoryStore → (ℕ → Record → Bool) → MemoryStore
retain s f = record s { records = filter (λ e. f e.0 e.1) s.records }

unfoldable pub records_count : MemoryStore → ℕ
records_count s = length s.records

unfoldable pub providers_count : MemoryStore → ℕ
providers_count s = length s.providers

-- `now.checked_duration_since(t + ttl).is_some()`; what was made here does not expire.
unfoldable pub is_expired : (now ttl : ℕ) → Option ℕ → Bool
is_expired now ttl none = false
is_expired now ttl (some t) = leb (t + ttl) now

unfoldable pub expired_records : (now ttl : ℕ) → List (ℕ × Record) → List Record
expired_records now ttl [] = []
expired_records now ttl ((k, r) ∷ m) =
    if is_expired now ttl r.time_received
    then r ∷ expired_records now ttl m
    else expired_records now ttl m

unfoldable pub remove_all : MemoryStore → List Record → MemoryStore
remove_all s [] = s
remove_all s (r ∷ rs) = remove_all (remove s r.key) rs

unfoldable pub gc_records : (now ttl : ℕ) → MemoryStore → MemoryStore
gc_records now ttl s = remove_all s (expired_records now ttl s.records)

unfoldable pub insert_at : ℕ → ProviderRecord → List ProviderRecord → List ProviderRecord
insert_at zero r ps = r ∷ ps
insert_at (suc i) r [] = r ∷ []
insert_at (suc i) r (p ∷ ps) = p ∷ insert_at i r ps

abbrev pub same_provider : ProviderRecord → ProviderRecord → Bool
same_provider r p = p.provider == r.provider

module _ (u : U256) (digest : ℕ → ℕ) where
  -- `provider.distance(&key) < pk.distance(&key)`
  abbrev pub is_nearer : ProviderRecord → ProviderRecord → Bool
  is_nearer r p =
      ltb (distance u (digest r.provider) (digest r.key))
        (distance u (digest p.provider) (digest r.key))

  -- What `add_provider` does to the records of the key.
  unfoldable pub place : ℕ → ProviderRecord → List ProviderRecord → List ProviderRecord
  place max r ps = elim (position (same_provider r) ps) [
    | some i ↦ set ps i r
    | none ↦ elim (position (is_nearer r) ps) [
      | some i ↦ take max (insert_at i r ps)
      | none ↦ take max (ps ++ (r ∷ []))
    ]
  ]

  unfoldable pub providers : MemoryStore → ℕ → List ProviderRecord
  providers s k = elim (Map.get k s.providers) [ none ↦ [] | some ps ↦ ps ]

  unfoldable pub add_provider : MemoryStore → ProviderRecord → MemoryStore
  add_provider s r = record s {
    providers =
        Map.insert r.key (place s.config.max_providers_per_key r (providers s r.key)) s.providers;
  }

unfoldable pub remove_at : ℕ → List ProviderRecord → List ProviderRecord
remove_at i [] = []
remove_at zero (p ∷ ps) = ps
remove_at (suc i) (p ∷ ps) = p ∷ remove_at i ps

unfoldable pub remove_first : ℕ → List ProviderRecord → List ProviderRecord
remove_first peer ps = elim (position (λ p. p.provider == peer) ps) [
  | none ↦ ps
  | some i ↦ remove_at i ps
]

unfoldable pub remove_provider : MemoryStore → (key peer : ℕ) → MemoryStore
remove_provider s key peer = elim (Map.get key s.providers) [
  | none ↦ s
  | some ps ↦ elim (remove_first peer ps) [
    | [] ↦ record s { providers = Map.remove key s.providers }
    | q ∷ qs ↦ record s { providers = Map.insert key (q ∷ qs) s.providers }
  ]
]

unfoldable pub expired_of : (now ttl : ℕ) → List ProviderRecord → List ProviderRecord
expired_of now ttl ps = filter (λ p. is_expired now ttl p.time_received) ps

unfoldable pub expired_providers :
    (now ttl : ℕ) → List (ℕ × List ProviderRecord) → List ProviderRecord
expired_providers now ttl [] = []
expired_providers now ttl ((k, ps) ∷ m) = expired_of now ttl ps ++ expired_providers now ttl m

unfoldable pub remove_providers : MemoryStore → List ProviderRecord → MemoryStore
remove_providers s [] = s
remove_providers s (p ∷ ps) = remove_providers (remove_provider s p.key p.provider) ps

unfoldable pub gc_providers : (now ttl : ℕ) → MemoryStore → MemoryStore
gc_providers now ttl s = remove_providers s (expired_providers now ttl s.providers)
