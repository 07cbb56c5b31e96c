-- ===== src/Kad/Store/Lookup.antt =====
-- What the store of protocols/kad/src/record/store/memory.rs answers after its calls.
use libp2p_rs.Common.{
  ℕ, ◌<◌, ◌≡◌, ◌↔◌, ◌⊎◌, refl, Bool, true, false, ◌&&◌, inl, inr, Option, none, some, List, [], ◌∷◌,
  ◌==◌, if◌then◌else◌, length, All, All-imp, arith, Option-cases,
}
use libp2p_rs.Common.Map
use libp2p_rs.Kad.Key.{U256}
use libp2p_rs.Kad.Store.{
  Record, MemoryStore, KadError, get, put, remove, remove_all, is_expired, expired_records,
  gc_records,
}
use libp2p_rs.Kad.Store.History.{AreStored, IsValid}

abbrev pub is_none : Option KadError → Bool
is_none none = true
is_none (some e) = false

-- Whether `put` accepts a record.
unfoldable pub Fits : MemoryStore → Record → Type 0
Fits s r =
    (length r.value < s.config.max_value_bytes)
    × ((Map.contains_key r.key s.records ≡ true) ⊎ (length s.records < s.config.max_records))

-- `put` accepts a record exactly when its value is below the limit and its key is there or there
-- is room; an accepted record is found under its key, and every other key, or every key after an
-- error, finds what it found before.
pub put-get :
    (s : MemoryStore) (r : Record) (k : ℕ)
    → (((put s r).0 ≡ none) ↔ Fits s r)
      × (get (put s r).1 k ≡ (if is_none (put s r).0 && (k == r.key) then some r else get s k))
unfolding put get Fits
put-get s r k = (ground arith, ground (arith, Map.get-insert k r.key r s.records))

-- The key of one of the records.
among : ℕ → List Record → Bool
among k [] = false
among k (r ∷ rs) = if k == r.key then true else among k rs

get-remove_all :
    (s : MemoryStore) (rs : List Record) (k : ℕ)
    → get (remove_all s rs) k ≡ (if among k rs then none else get s k)
unfolding remove_all among get remove
get-remove_all s [] k = refl
get-remove_all s (r ∷ rs) k =
    ground (arith, get-remove_all (remove s r.key) rs k, Map.get-remove k r.key s.records)

among-none :
    (now ttl k : ℕ) (m : List (ℕ × Record))
    → All (λ e. e.1.key ≡ e.0) m
    → Map.get k m ≡ none
    → among k (expired_records now ttl m) ≡ false
unfolding among expired_records Map.get
among-none now ttl k [] a h = refl
among-none now ttl k ((j, r) ∷ m) a h = ground (arith, h, a.0, among-none now ttl k m a.1)

among-expired :
    (now ttl k : ℕ) (m : List (ℕ × Record))
    → Map.IsMap m
    → All (λ e. e.1.key ≡ e.0) m
    → among k (expired_records now ttl m)
      ≡ elim (Map.get k m) [ none ↦ false | some r ↦ is_expired now ttl r.time_received ]
unfolding among expired_records Map.get Map.IsMap Map.contains_key
among-expired now ttl k [] d a = refl
among-expired now ttl k ((j, r) ∷ m) d a = elim (Option-cases (Map.get j m)) [
  | inl n ↦ ground (arith, n, a.0, among-expired now ttl k m d.1 a.1, among-none now ttl k m a.1)
  | inr (v, e) ↦ absurd (ground (arith, d.0, e))
]

gc_get :
    (now ttl : ℕ) (s : MemoryStore) (k : ℕ)
    → Map.IsMap s.records
    → All (λ e. e.1.key ≡ e.0) s.records
    → get (gc_records now ttl s) k ≡ elim (get s k) [
      | none ↦ none
      | some r ↦ if is_expired now ttl r.time_received then none else some r
    ]
unfolding gc_records get
gc_get now ttl s k d a = ground (
  arith,
  get-remove_all s (expired_records now ttl s.records) k,
  among-expired now ttl k s.records d a,
)

-- On a valid store a collection of records takes away exactly the records that were received and
-- whose time to live has passed.
pub gc_records-get :
    (u : U256) (digest : ℕ → ℕ) (now ttl : ℕ) (s : MemoryStore) (k : ℕ)
    → IsValid u digest s
    → get (gc_records now ttl s) k ≡ elim (get s k) [
      | none ↦ none
      | some r ↦ if is_expired now ttl r.time_received then none else some r
    ]
unfolding IsValid AreStored
gc_records-get u digest now ttl s k v =
    gc_get now ttl s k v.0.1.0 (All-imp _ _ (λ e h. h.1) s.records v.0.1.1)
