-- ===== src/Kad/Store/History.antt =====
-- The calls on the store of protocols/kad/src/record/store/memory.rs in any order, and the bounds
-- that hold after them.
use libp2p_rs.Common.{
  ℕ, suc, ◌≤◌, ◌<◌, ◌≡◌, refl, Bool, inl, inr, List, [], ◌∷◌, leb, if◌then◌else◌, length, filter,
  All, All-filter, length-filter-le, arith, Bool-cases, Option-cases,
}
use libp2p_rs.Common.Map
use libp2p_rs.Kad.Key.{U256}
use libp2p_rs.Kad.Store.{
  Record, ProviderRecord, MemoryStoreConfig, MemoryStore, with_config, put, remove, retain,
  remove_all, gc_records, providers, add_provider, remove_first, remove_provider, remove_providers,
  gc_providers,
}
use libp2p_rs.Kad.Store.Providers.{AreDistinct}
use libp2p_rs.Kad.Store.Kept.{AreKept, AreFrom, place-AreKept, remove_first-AreKept}

pub data Call : Type 0 where
  puts : Record → Call
  removes : ℕ → Call
  retains : (ℕ → Record → Bool) → Call
  collects_records : (now ttl : ℕ) → Call
  adds_provider : ProviderRecord → Call
  removes_provider : (key peer : ℕ) → Call
  collects_providers : (now ttl : ℕ) → Call

-- The records are within their number, one per key, each under its own key and with a value below
-- the limit.
unfoldable pub AreStored : MemoryStoreConfig → List (ℕ × Record) → Type 0
AreStored cfg m =
    (length m ≤ cfg.max_records)
    × (Map.IsMap m × All (λ e. (length e.1.value < cfg.max_value_bytes) × (e.1.key ≡ e.0)) m)

insert-AreStored :
    (cfg : MemoryStoreConfig) (r : Record) (m : List (ℕ × Record))
    → length r.value < cfg.max_value_bytes
    → (if Map.contains_key r.key m then length m else suc (length m)) ≤ cfg.max_records
    → AreStored cfg m
    → AreStored cfg (Map.insert r.key r m)
unfolding AreStored
insert-AreStored cfg r m small room h = (
  rw (Map.length-insert r.key r m) room,
  (Map.insert-IsMap r.key r m h.1.0, Map.All-insert _ r.key r m (small, refl) h.1.1),
)

remove-AreStored :
    (cfg : MemoryStoreConfig) (k : ℕ) (m : List (ℕ × Record))
    → AreStored cfg m
    → AreStored cfg (Map.remove k m)
unfolding AreStored
remove-AreStored cfg k m h = (
  omega (arith, h.0, Map.length-remove-le k m),
  (Map.remove-IsMap k m h.1.0, Map.All-remove _ k m h.1.1),
)

filter-AreStored :
    (cfg : MemoryStoreConfig) (f : ℕ × Record → Bool) (m : List (ℕ × Record))
    → AreStored cfg m
    → AreStored cfg (filter f m)
unfolding AreStored
filter-AreStored cfg f m h =
    (omega (arith, h.0, length-filter-le f m), (Map.filter-IsMap f m h.1.0, All-filter _ f m h.1.1))

module _ (u : U256) (digest : ℕ → ℕ) where
  pub step : MemoryStore → Call → MemoryStore
  step s (puts r) = (put s r).1
  step s (removes k) = remove s k
  step s (retains f) = retain s f
  step s (collects_records now ttl) = gc_records now ttl s
  step s (adds_provider r) = add_provider u digest s r
  step s (removes_provider key peer) = remove_provider s key peer
  step s (collects_providers now ttl) = gc_providers now ttl s

  pub run : MemoryStore → List Call → MemoryStore
  run s [] = s
  run s (c ∷ cs) = run (step s c) cs

  unfoldable pub IsValid : MemoryStore → Type 0
  unfolding AreStored
  IsValid s =
      AreStored s.config s.records
      × All (λ e. AreKept u digest s.config.max_providers_per_key e.0 e.1) s.providers

  put-IsValid : (s : MemoryStore) (r : Record) → IsValid s → IsValid (put s r).1
  unfolding IsValid put
  put-IsValid s r v = elim (Bool-cases (leb s.config.max_value_bytes (length r.value))) [
    | inl t ↦ rw (t, put) v
    | inr f ↦
        let small : length r.value < s.config.max_value_bytes = ground (arith, f) in
        elim (Bool-cases (Map.contains_key r.key s.records)) [
          | inl t ↦
              rw (f, t, put) (insert-AreStored s.config r s.records small (rw t (v.0.0)) v.0, v.1)
          | inr n ↦ elim (Bool-cases (leb s.config.max_records (length s.records))) [
            | inl t ↦ rw (f, n, t, put) v
            | inr g ↦
                rw (f, n, g, put)
                  (insert-AreStored s.config r s.records small (rw n (ground (arith, g))) v.0, v.1)
          ]
        ]
  ]

  remove_all-IsValid : (s : MemoryStore) (rs : List Record) → IsValid s → IsValid (remove_all s rs)
  unfolding IsValid remove_all remove
  remove_all-IsValid s [] v = v
  remove_all-IsValid s (r ∷ rs) v =
      remove_all-IsValid (remove s r.key) rs (remove-AreStored s.config r.key s.records v.0, v.1)

  providers-AreKept :
      (s : MemoryStore) (k : ℕ)
      → IsValid s
      → AreKept u digest s.config.max_providers_per_key k (providers u digest s k)
  unfolding IsValid providers AreKept AreDistinct AreFrom
  providers-AreKept s k v = elim (Option-cases (Map.get k s.providers)) [
    | inl n ↦ rw (n, providers) (omega arith, (tt, (tt, tt)))
    | inr (ps, e) ↦ rw (e, providers) (Map.All-get _ k ps s.providers e v.1)
  ]

  add_provider-IsValid :
      (s : MemoryStore) (r : ProviderRecord) → IsValid s → IsValid (add_provider u digest s r)
  unfolding IsValid add_provider
  add_provider-IsValid s r v = (
    v.0,
    Map.All-insert _ r.key _ s.providers
        (place-AreKept u digest s.config.max_providers_per_key r (providers u digest s r.key)
          (providers-AreKept s r.key v))
        v.1,
  )

  remove_provider-IsValid :
      (s : MemoryStore) (key peer : ℕ) → IsValid s → IsValid (remove_provider s key peer)
  unfolding IsValid remove_provider
  remove_provider-IsValid s key peer v = elim (Option-cases (Map.get key s.providers)) [
    | inl n ↦ rw (n, remove_provider) v
    | inr (ps, e) ↦
        rw (e, remove_provider)
          (go (remove_first peer ps)
            (remove_first-AreKept u digest _ key peer ps (Map.All-get _ key ps s.providers e v.1)))
  ]
    where
      go :
          (qs : List ProviderRecord)
          → AreKept u digest s.config.max_providers_per_key key qs
          → IsValid (elim qs [
            | [] ↦ record s { providers = Map.remove key s.providers }
            | q ∷ rest ↦ record s { providers = Map.insert key (q ∷ rest) s.providers }
          ])
      go [] a = (v.0, Map.All-remove _ key s.providers v.1)
      go (q ∷ qs) a = (v.0, Map.All-insert _ key (q ∷ qs) s.providers a v.1)

  remove_providers-IsValid :
      (s : MemoryStore) (ps : List ProviderRecord) → IsValid s → IsValid (remove_providers s ps)
  unfolding remove_providers
  remove_providers-IsValid s [] v = v
  remove_providers-IsValid s (p ∷ ps) v =
      remove_providers-IsValid (remove_provider s p.key p.provider) ps
        (remove_provider-IsValid s p.key p.provider v)

  step-IsValid : (s : MemoryStore) (c : Call) → IsValid s → IsValid (step s c)
  unfolding step IsValid remove retain gc_records gc_providers
  step-IsValid s (puts r) v = put-IsValid s r v
  step-IsValid s (removes k) v = (remove-AreStored s.config k s.records v.0, v.1)
  step-IsValid s (retains f) v = (filter-AreStored s.config _ s.records v.0, v.1)
  step-IsValid s (collects_records now ttl) v = remove_all-IsValid s _ v
  step-IsValid s (adds_provider r) v = add_provider-IsValid s r v
  step-IsValid s (removes_provider key peer) v = remove_provider-IsValid s key peer v
  step-IsValid s (collects_providers now ttl) v = remove_providers-IsValid s _ v

  pub run-IsValid : (s : MemoryStore) (cs : List Call) → IsValid s → IsValid (run s cs)
  unfolding run
  run-IsValid s [] v = v
  run-IsValid s (c ∷ cs) v = run-IsValid (step s c) cs (step-IsValid s c v)

  with_config-IsValid : (cfg : MemoryStoreConfig) → IsValid (with_config cfg)
  unfolding IsValid with_config AreStored Map.IsMap
  with_config-IsValid cfg = ((omega arith, (tt, tt)), tt)

  -- After any sequence of puts, removals, retains, provider records and collections on a new store
  -- there are at most max_records records, one per key and under their own keys, with fewer than
  -- max_value_bytes bytes, and the providers of a key are at most max_providers_per_key, distinct,
  -- of that key, and by non-decreasing distance to it.
  pub store-IsValid :
      (cfg : MemoryStoreConfig) (cs : List Call) → IsValid (run (with_config cfg) cs)
  store-IsValid cfg cs = run-IsValid (with_config cfg) cs (with_config-IsValid cfg)
