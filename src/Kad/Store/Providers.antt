-- ===== src/Kad/Store/Providers.antt =====
-- The provider records of one key, as `add_provider` of protocols/kad/src/record/store/memory.rs
-- keeps them: by distance to the key, one per provider, and no more than the configuration allows.
use libp2p_rs.Common.{
  ℕ, zero, suc, ◌≤◌, ◌≡◌, refl, subst, false, inl, inr, none, some, List, [], ◌∷◌, ◌==◌,
  if◌then◌else◌, length, set, take, position, All, All-take, arith, Bool-cases, ==_iff,
}
use libp2p_rs.Kad.Store.{ProviderRecord, remove_at, remove_first, same_provider}

-- The same steps without a position.
unfoldable pub replace : ProviderRecord → List ProviderRecord → List ProviderRecord
replace r [] = []
replace r (p ∷ ps) = if same_provider r p then r ∷ ps else p ∷ replace r ps

unfoldable pub without : ℕ → List ProviderRecord → List ProviderRecord
without x [] = []
without x (p ∷ ps) = if p.provider == x then ps else p ∷ without x ps

unfoldable pub AreNot : ℕ → List ProviderRecord → Type 0
AreNot x ps = All (λ p. (p.provider == x) ≡ false) ps

unfoldable pub AreDistinct : List ProviderRecord → Type 0
unfolding AreNot
AreDistinct [] = Unit
AreDistinct (p ∷ ps) = AreNot p.provider ps × AreDistinct ps

pub set-replace :
    (r : ProviderRecord) (ps : List ProviderRecord)
    → elim (position (same_provider r) ps) [ none ↦ ps | some i ↦ set ps i r ] ≡ replace r ps
unfolding replace
set-replace r [] = refl
set-replace r (p ∷ ps) = ground (arith, set-replace r ps)

pub replace-fresh :
    (r : ProviderRecord) (ps : List ProviderRecord)
    → position (same_provider r) ps ≡ none
    → AreNot r.provider ps
unfolding AreNot
replace-fresh r [] h = tt
replace-fresh r (p ∷ ps) h = (ground (arith, h), replace-fresh r ps (ground (arith, h)))

pub remove_at-without : (x : ℕ) (ps : List ProviderRecord) → remove_first x ps ≡ without x ps
unfolding remove_first without remove_at
remove_at-without x [] = refl
remove_at-without x (p ∷ ps) = ground (arith, remove_at-without x ps)

module _ {κ} (P : ProviderRecord → Type κ) where
  pub All-replace :
      (r : ProviderRecord) (ps : List ProviderRecord) → P r → All P ps → All P (replace r ps)
  unfolding replace
  All-replace r [] h a = tt
  All-replace r (p ∷ ps) h a = elim (Bool-cases (p.provider == r.provider)) [
    | inl t ↦ rw t (h, a.1)
    | inr f ↦ rw f (a.0, All-replace r ps h a.1)
  ]

  pub All-without : (x : ℕ) (ps : List ProviderRecord) → All P ps → All P (without x ps)
  unfolding without
  All-without x [] a = tt
  All-without x (p ∷ ps) a = elim (Bool-cases (p.provider == x)) [
    | inl t ↦ rw t a.1
    | inr f ↦ rw f (a.0, All-without x ps a.1)
  ]

pub length-replace :
    (r : ProviderRecord) (ps : List ProviderRecord) → length (replace r ps) ≡ length ps
unfolding replace
length-replace r [] = refl
length-replace r (p ∷ ps) = ground (arith, length-replace r ps)

pub length-without-le : (x : ℕ) (ps : List ProviderRecord) → length (without x ps) ≤ length ps
unfolding without
length-without-le x [] = omega arith
length-without-le x (p ∷ ps) = ground (arith, length-without-le x ps)

pub AreNot-replace :
    (x : ℕ) (r : ProviderRecord) (ps : List ProviderRecord) → AreNot x ps → AreNot x (replace r ps)
unfolding AreNot replace
AreNot-replace x r [] a = tt
AreNot-replace x r (p ∷ ps) a = elim (Bool-cases (p.provider == r.provider)) [
  | inl t ↦ rw t (subst (λ y. (y == x) ≡ false) ((==_iff p.provider r.provider).0 t) a.0, a.1)
  | inr f ↦ rw f (a.0, AreNot-replace x r ps a.1)
]

pub replace-AreDistinct :
    (r : ProviderRecord) (ps : List ProviderRecord) → AreDistinct ps → AreDistinct (replace r ps)
unfolding AreDistinct replace
replace-AreDistinct r [] a = tt
replace-AreDistinct r (p ∷ ps) a = elim (Bool-cases (p.provider == r.provider)) [
  | inl t ↦ rw t (subst (λ y. AreNot y ps) ((==_iff p.provider r.provider).0 t) a.0, a.1)
  | inr f ↦ rw f (AreNot-replace p.provider r ps a.0, replace-AreDistinct r ps a.1)
]

pub without-AreDistinct :
    (x : ℕ) (ps : List ProviderRecord) → AreDistinct ps → AreDistinct (without x ps)
unfolding AreDistinct without AreNot
without-AreDistinct x [] a = tt
without-AreDistinct x (p ∷ ps) a = elim (Bool-cases (p.provider == x)) [
  | inl t ↦ rw t a.1
  | inr f ↦
      rw f (
        All-without (λ q. (q.provider == p.provider) ≡ false) x ps a.0,
        without-AreDistinct x ps a.1,
      )
]

pub take-AreDistinct : (n : ℕ) (ps : List ProviderRecord) → AreDistinct ps → AreDistinct (take n ps)
unfolding AreDistinct AreNot
take-AreDistinct zero ps a = tt
take-AreDistinct (suc n) [] a = tt
take-AreDistinct (suc n) (p ∷ ps) a =
    (All-take (λ q. (q.provider == p.provider) ≡ false) n ps a.0, take-AreDistinct n ps a.1)
