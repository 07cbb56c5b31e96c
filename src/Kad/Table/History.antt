-- ===== src/Kad/Table/History.antt =====
-- Histories of calls on the routing table of protocols/kad/src/kbucket.rs.
use libp2p_rs.Common.{◌^◌, ◌<◌, ◌≡◌, refl, ◌∙◌, List, [], ◌∷◌, All, arith}
use libp2p_rs.Kad.Bucket.{KBucket}
use libp2p_rs.Kad.Key.{U256, Key}
use libp2p_rs.Kad.Table.{
  KBucketsTable, Entry, present, absent, self_entry, new, entry, in_present, insert, remove,
  set_value,
}
use libp2p_rs.Kad.Table.Invariant.{
  IsValid, new-IsValid, insert-IsValid, remove-IsValid, set_value-IsValid,
}

-- The calls on the table, by which it changes.
pub data Call {ℓ κ} (T : Type ℓ) (V : Type κ) : Type (ℓ ⊔ κ) where
  inserts : Key T → V → Call T V
  removes : Key T → Call T V
  writes : Key T → V → Call T V

-- The keys of the calls have 256 bits.
abbrev pub IsShort {ℓ κ} : {T : Type ℓ} {V : Type κ} → Call T V → Type 0
IsShort (inserts k v) = k.bytes < 2 ^ 256
IsShort (removes k) = k.bytes < 2 ^ 256
IsShort (writes k v) = k.bytes < 2 ^ 256

module _ {ℓ κ} {T : Type ℓ} {V : Type κ} (u : U256) where
  unfoldable pub step : KBucketsTable T V → Call T V → KBucketsTable T V
  step t (inserts k v) = (insert u t k v).0
  step t (removes k) = remove u t k
  step t (writes k v) = set_value u t k v

  unfoldable pub run : KBucketsTable T V → List (Call T V) → KBucketsTable T V
  run t [] = t
  run t (c ∷ cs) = run (step t c) cs

  pub step-IsValid :
      (t : KBucketsTable T V) (c : Call T V) → IsShort c → IsValid u t → IsValid u (step t c)
  unfolding step
  step-IsValid t (inserts k v) near = insert-IsValid u t k v near
  step-IsValid t (removes k) near = remove-IsValid u t k
  step-IsValid t (writes k v) near = set_value-IsValid u t k v

  pub run_keeps-IsValid :
      (t : KBucketsTable T V) (cs : List (Call T V))
      → All IsShort cs
      → IsValid u t
      → IsValid u (run t cs)
  unfolding run
  run_keeps-IsValid t [] near h = h
  run_keeps-IsValid t (c ∷ cs) near h =
      run_keeps-IsValid (step t c) cs near.1 (step-IsValid t c near.0 h)

  pub in_present-local_key :
      (t : KBucketsTable T V) (f : KBucket T V → KBucket T V) (e : Entry)
      → (in_present t f e).local_key ≡ t.local_key
  unfolding in_present
  in_present-local_key t f (present i) = refl
  in_present-local_key t f (absent i) = refl
  in_present-local_key t f self_entry = refl

  pub insert-local_key :
      (t : KBucketsTable T V) (k : Key T) (v : V) → (insert u t k v).0.local_key ≡ t.local_key
  unfolding insert
  insert-local_key t k v = ground arith

  pub step-local_key : (t : KBucketsTable T V) (c : Call T V) → (step t c).local_key ≡ t.local_key
  unfolding step remove set_value
  step-local_key t (inserts k v) = insert-local_key t k v
  step-local_key t (removes k) = in_present-local_key t _ (entry u t k)
  step-local_key t (writes k v) = in_present-local_key t _ (entry u t k)

  run-local_key :
      (t : KBucketsTable T V) (cs : List (Call T V)) → (run t cs).local_key ≡ t.local_key
  unfolding run
  run-local_key t [] = refl
  run-local_key t (c ∷ cs) = run-local_key (step t c) cs ∙ step-local_key t c

  -- After any history of entry inserts, removals and value writes on a new routing table, for keys
  -- of 256 bits, the local key is the one given, there are 256 buckets of at most K_VALUE nodes,
  -- no key is in a bucket twice, and every key lies in the bucket whose index is the logarithm of
  -- its distance to the local key.
  pub run-IsValid :
      (k : Key T) (cs : List (Call T V))
      → All IsShort cs
      → IsValid u (run (new k) cs) × ((run (new k) cs).local_key ≡ k)
  unfolding new
  run-IsValid k cs near =
      (run_keeps-IsValid (new k) cs near (new-IsValid u k), run-local_key (new k) cs)
