-- ===== src/Gossipsub/TimeCache.antt =====
-- protocols/gossipsub/src/time_cache.rs: a map whose entries expire, and the cache of the messages
-- that have been seen. Keys and times are numbers; each call is given the time that it reads.
pub mod Expiry
pub mod Queue
pub mod Refinement
use libp2p_rs.Common.{
  ℕ, ◌+◌, Bool, true, false, Option, none, some, List, [], ◌∷◌, ◌++◌, ltb, leb, if◌then◌else◌,
}
use libp2p_rs.Common.Map

pub record ExpiringElement {ℓ} (E : Type ℓ) : Type ℓ where
  pub element : E
  pub expires : ℕ

-- `list` is the queue of the keys by the time at which they expire.
pub record TimeCache {ℓ} (V : Type ℓ) : Type ℓ where
  pub entries : List (ℕ × ExpiringElement V)
  pub list : List (ExpiringElement ℕ)
  pub ttl : ℕ

module _ {ℓ} {V : Type ℓ} where
  unfoldable pub new : ℕ → TimeCache V
  new ttl = record { entries = []; list = []; ttl = ttl }

  -- The entry of a key that has come to the front of the queue: it stays if it expires later.
  unfoldable pub drop_expired :
      (now key : ℕ) → List (ℕ × ExpiringElement V) → List (ℕ × ExpiringElement V)
  drop_expired now key m = elim (Map.get key m) [
    | none ↦ m
    | some e ↦ if leb e.expires now then Map.remove key m else m
  ]

  -- The loop over the queue.
  unfoldable pub expire :
      (now : ℕ)
      → List (ExpiringElement ℕ)
      → List (ℕ × ExpiringElement V)
      → List (ExpiringElement ℕ) × List (ℕ × ExpiringElement V)
  expire now [] m = ([], m)
  expire now (x ∷ xs) m =
      let rest = expire now xs (drop_expired now x.element m) in
      if ltb now x.expires then (x ∷ xs, m) else rest

  unfoldable pub remove_expired_keys : ℕ → TimeCache V → TimeCache V
  remove_expired_keys now c =
      let after = expire now c.list c.entries in record c { entries = after.1; list = after.0 }

  unfoldable pub contains_key : TimeCache V → ℕ → Bool
  contains_key c key = Map.contains_key key c.entries

  unfoldable pub get : TimeCache V → ℕ → Option V
  get c key = elim (Map.get key c.entries) [ none ↦ none | some e ↦ some e.element ]

  unfoldable pub clear : TimeCache V → TimeCache V
  clear c = record c { entries = []; list = [] }

  -- `VacantEntry::insert` and `OccupiedEntry::insert_and_update_expiration`.
  unfoldable pub insert_expiring : (now key : ℕ) → V → TimeCache V → TimeCache V
  insert_expiring now key v c = record c {
    entries = Map.insert key (record { element = v; expires = now + c.ttl }) c.entries;
    list = c.list ++ (record { element = key; expires = now + c.ttl } ∷ []);
  }

  -- `OccupiedEntry::insert_without_updating_expiration`
  unfoldable pub insert_without_updating_expiration : (key : ℕ) → V → TimeCache V → TimeCache V
  insert_without_updating_expiration key v c = elim (Map.get key c.entries) [
    | none ↦ c
    | some e ↦ record c { entries = Map.insert key (record e { element = v }) c.entries }
  ]

  -- `entry(key).or_insert_with(..)`
  unfoldable pub or_insert_with : (now key : ℕ) → V → TimeCache V → TimeCache V
  or_insert_with now key v c =
      let fresh = remove_expired_keys now c in
      if contains_key fresh key then fresh else insert_expiring now key v fresh

-- The cache that keeps no values.
abbrev pub Nothing : Type 0
Nothing = Unit

abbrev pub DuplicateCache : Type 0
DuplicateCache = TimeCache Nothing

-- `DuplicateCache::insert`: whether the key is new.
unfoldable pub insert : (now key : ℕ) → DuplicateCache → Bool × DuplicateCache
insert now key c =
    let fresh = remove_expired_keys now c in
    if contains_key fresh key then (false, fresh) else (true, insert_expiring now key tt fresh)
