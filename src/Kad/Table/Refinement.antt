-- ===== src/Kad/Table/Refinement.antt =====
-- The routing table of protocols/kad/src/kbucket.rs as a map that may turn new keys away.
use libp2p_rs.Common.{
  ◌<◌, ◌^◌, ◌≡◌, refl, sym, ◌∙◌, ap, subst, Bool, true, ◌&&◌, Option, none, some, List, [], ◌∷◌,
  ◌==◌, if◌then◌else◌, All,
}
use libp2p_rs.Kad.Key.{U256, Key}
use libp2p_rs.Kad.Table.{KBucketsTable, value, insert}
use libp2p_rs.Kad.Table.Invariant.{IsValid}
use libp2p_rs.Kad.Table.History.{
  Call, inserts, removes, writes, IsShort, step, run, step-IsValid, step-local_key,
}
use libp2p_rs.Kad.Table.Writes.{value-insert, value-remove, value-set_value}

module _ {ℓ κ} {T : Type ℓ} {V : Type κ} where
  -- A call on a map of keys by their bytes; an insert may be turned away.
  unfoldable pub map_step : Bool → Call T V → (Key T → Option V) → Key T → Option V
  map_step accepted (inserts k v) m j = if accepted && j.bytes == k.bytes then some v else m j
  map_step accepted (removes k) m j = if j.bytes == k.bytes then none else m j
  map_step accepted (writes k v) m j =
      if j.bytes == k.bytes then elim (m k) [ none ↦ none | some w ↦ some v ] else m j

  module _ (u : U256) where
    -- What the call answers.
    unfoldable pub is_accepted : KBucketsTable T V → Call T V → Bool
    is_accepted t (inserts k v) = (insert u t k v).1
    is_accepted t (removes k) = true
    is_accepted t (writes k v) = true

    unfoldable pub map_run :
        KBucketsTable T V → List (Call T V) → (Key T → Option V) → Key T → Option V
    map_run t [] m = m
    map_run t (c ∷ cs) m = map_run (step u t c) cs (map_step (is_accepted t c) c m)

    step-value :
        (t : KBucketsTable T V) (c : Call T V) (j : Key T)
        → IsValid u t
        → t.local_key.bytes < 2 ^ 256
        → IsShort c
        → value u (step u t c) j ≡ map_step (is_accepted t c) c (value u t) j
    unfolding step map_step is_accepted
    step-value t (inserts k v) j valid near short = value-insert u t valid near j k v short
    step-value t (removes k) j valid near short = value-remove u t valid near j k short
    step-value t (writes k v) j valid near short = value-set_value u t valid near j k v short

    -- On a valid routing table and for keys of 256 bits, any history of entry inserts, removals
    -- and value writes leaves for each key the value that a map has after the same calls, where
    -- the inserts that the table answers false to are left out.
    pub run-value :
        (t : KBucketsTable T V) (cs : List (Call T V)) (j : Key T)
        → IsValid u t
        → t.local_key.bytes < 2 ^ 256
        → All IsShort cs
        → value u (run u t cs) j ≡ map_run t cs (value u t) j
    unfolding run map_run
    run-value t [] j valid near short = refl
    run-value t (c ∷ cs) j valid near short =
        run-value (step u t c) cs j (step-IsValid u t c short.0 valid)
          (subst (λ (k : Key T). k.bytes < 2 ^ 256) (sym (step-local_key u t c)) near) short.1
        ∙ ap (λ m. map_run (step u t c) cs m j) (λ i k. step-value t c k valid near short.0 i)
