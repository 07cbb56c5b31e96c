-- ===== src/Common/Map.antt =====
-- A hash map over identifiers as an association list with one entry per key.
use Prim.Native.Nat.{ℕ, suc, ◌≤◌}
use mathlib.Core.Path.{◌≡◌, refl, sym, ap, subst}
use mathlib.Core.Bool.{Bool, true, false}
use mathlib.Core.Option.{Option, none, some}
use mathlib.Core.List.{List, [], ◌∷◌}
use native.Mathlib.Omega.{arith}
use mathlib.Core.Logic.{inl, inr}
use libp2p_rs.Common.Tests.{◌==◌, if◌then◌else◌, Bool-cases, ==_iff}
use libp2p_rs.Common.Lists.{length, filter, All}

module _ {ℓ} {V : Type ℓ} where
  unfoldable pub get : ℕ → List (ℕ × V) → Option V
  get k [] = none
  get k ((j, v) ∷ m) = if k == j then some v else get k m

  -- `insert` replaces the value of a key that is there.
  unfoldable pub insert : ℕ → V → List (ℕ × V) → List (ℕ × V)
  insert k v [] = (k, v) ∷ []
  insert k v ((j, w) ∷ m) = if k == j then (j, v) ∷ m else (j, w) ∷ insert k v m

  unfoldable pub remove : ℕ → List (ℕ × V) → List (ℕ × V)
  remove k [] = []
  remove k ((j, w) ∷ m) = if k == j then remove k m else (j, w) ∷ remove k m

  unfoldable pub contains_key : ℕ → List (ℕ × V) → Bool
  unfolding get
  contains_key k m = elim (get k m) [ none ↦ false | some v ↦ true ]

  pub get-insert :
      (j k : ℕ) (v : V) (m : List (ℕ × V))
      → get j (insert k v m) ≡ (if j == k then some v else get j m)
  unfolding get insert
  get-insert j k v [] = ground arith
  get-insert j k v ((i, w) ∷ m) = ground (arith, get-insert j k v m)

  pub get-remove :
      (j k : ℕ) (m : List (ℕ × V)) → get j (remove k m) ≡ (if j == k then none else get j m)
  unfolding get remove
  get-remove j k [] = ground arith
  get-remove j k ((i, w) ∷ m) = ground (arith, get-remove j k m)

  pub length-insert :
      (k : ℕ) (v : V) (m : List (ℕ × V))
      → length (insert k v m) ≡ (if contains_key k m then length m else suc (length m))
  unfolding insert contains_key get
  length-insert k v [] = refl
  length-insert k v ((i, w) ∷ m) = ground (arith, length-insert k v m)

  pub length-remove-le : (k : ℕ) (m : List (ℕ × V)) → length (remove k m) ≤ length m
  unfolding remove
  length-remove-le k [] = omega arith
  length-remove-le k ((i, w) ∷ m) = ground (arith, length-remove-le k m)

  -- One entry per key.
  unfoldable pub IsMap : List (ℕ × V) → Type 0
  unfolding contains_key get
  IsMap [] = Unit
  IsMap ((k, v) ∷ m) = (contains_key k m ≡ false) × IsMap m

  pub contains_key-insert :
      (j k : ℕ) (v : V) (m : List (ℕ × V))
      → contains_key j (insert k v m) ≡ (if j == k then true else contains_key j m)
  unfolding contains_key
  contains_key-insert j k v m = ground (arith, get-insert j k v m)

  pub contains_key-remove :
      (j k : ℕ) (m : List (ℕ × V))
      → contains_key j (remove k m) ≡ (if j == k then false else contains_key j m)
  unfolding contains_key
  contains_key-remove j k m = ground (arith, get-remove j k m)

  pub insert-IsMap : (k : ℕ) (v : V) (m : List (ℕ × V)) → IsMap m → IsMap (insert k v m)
  unfolding IsMap insert
  insert-IsMap k v [] h = (refl, tt)
  insert-IsMap k v ((j, w) ∷ m) h = elim (Bool-cases (k == j)) [
    | inl t ↦ rw t h
    | inr f ↦ rw f (ground (arith, contains_key-insert j k v m, h.0, f), insert-IsMap k v m h.1)
  ]

  pub remove-IsMap : (k : ℕ) (m : List (ℕ × V)) → IsMap m → IsMap (remove k m)
  unfolding IsMap remove
  remove-IsMap k [] h = tt
  remove-IsMap k ((j, w) ∷ m) h = elim (Bool-cases (k == j)) [
    | inl t ↦ rw t (remove-IsMap k m h.1)
    | inr f ↦ rw f (ground (arith, contains_key-remove j k m, h.0, f), remove-IsMap k m h.1)
  ]

  pub All-insert {κ} :
      (P : ℕ × V → Type κ) (k : ℕ) (v : V) (m : List (ℕ × V))
      → P (k, v)
      → All P m
      → All P (insert k v m)
  unfolding insert
  All-insert P k v [] p h = (p, tt)
  All-insert P k v ((j, w) ∷ m) p h = elim (Bool-cases (k == j)) [
    | inl t ↦ rw t (subst (λ i. P (i, v)) ((==_iff k j).0 t) p, h.1)
    | inr f ↦ rw f (h.0, All-insert P k v m p h.1)
  ]

  pub All-remove {κ} :
      (P : ℕ × V → Type κ) (k : ℕ) (m : List (ℕ × V)) → All P m → All P (remove k m)
  unfolding remove
  All-remove P k [] h = tt
  All-remove P k ((j, w) ∷ m) h = elim (Bool-cases (k == j)) [
    | inl t ↦ rw t (All-remove P k m h.1)
    | inr f ↦ rw f (h.0, All-remove P k m h.1)
  ]

  pub All-get {κ} :
      (P : ℕ × V → Type κ) (k : ℕ) (v : V) (m : List (ℕ × V))
      → get k m ≡ some v
      → All P m
      → P (k, v)
  unfolding get
  All-get P k v [] e h = absurd (ground (arith, e))
  All-get P k v ((j, w) ∷ m) e h = elim (Bool-cases (k == j)) [
    | inl t ↦
        let same : some w ≡ some v = ground (arith, e, t) in
        subst (λ x. P (k, x)) (ap (λ o. elim o [ none ↦ w | some x ↦ x ]) same)
          (subst (λ i. P (i, w)) (sym ((==_iff k j).0 t)) h.0)
    | inr f ↦ All-get P k v m (ground (arith, e, f)) h.1
  ]

  contains_key-filter :
      (f : ℕ × V → Bool) (k : ℕ) (m : List (ℕ × V))
      → contains_key k m ≡ false
      → contains_key k (filter f m) ≡ false
  unfolding contains_key get
  contains_key-filter f k [] h = refl
  contains_key-filter f k ((j, w) ∷ m) h = ground (arith, h, contains_key-filter f k m)

  pub filter-IsMap : (f : ℕ × V → Bool) (m : List (ℕ × V)) → IsMap m → IsMap (filter f m)
  unfolding IsMap
  filter-IsMap f [] h = tt
  filter-IsMap f ((j, w) ∷ m) h = elim (Bool-cases (f (j, w))) [
    | inl t ↦ rw t (contains_key-filter f j m h.0, filter-IsMap f m h.1)
    | inr n ↦ rw n (filter-IsMap f m h.1)
  ]
