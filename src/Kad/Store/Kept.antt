-- ===== src/Kad/Store/Kept.antt =====
-- `add_provider` and `remove_provider` of protocols/kad/src/record/store/memory.rs keep the records
-- of a key by distance, one per provider, and within the bound of the configuration.
use libp2p_rs.Common.{
  ℕ, zero, suc, ◌≤◌, ◌≡◌, refl, sym, subst, true, false, inl, inr, none, some, List, [], ◌∷◌, ◌++◌,
  ◌==◌, if◌then◌else◌, length, take, position, All, All-take, length-take, arith, Bool-cases,
  Option-cases, ==_iff, ltb→lt, ltb_false→le,
}
use libp2p_rs.Kad.Key.{U256, distance}
use libp2p_rs.Kad.Store.{ProviderRecord, insert_at, remove_first, same_provider, is_nearer, place}
use libp2p_rs.Kad.Store.Providers.{
  replace, without, AreNot, AreDistinct, set-replace, replace-fresh, remove_at-without, All-replace,
  All-without, length-replace, length-without-le, replace-AreDistinct, without-AreDistinct,
  take-AreDistinct,
}

module _ (u : U256) (digest : ℕ → ℕ) where
  insert_before : ProviderRecord → List ProviderRecord → List ProviderRecord
  insert_before r [] = r ∷ []
  insert_before r (p ∷ ps) = if is_nearer u digest r p then r ∷ p ∷ ps else p ∷ insert_before r ps

  abbrev dist : ℕ → ProviderRecord → ℕ
  dist key p = distance u (digest p.provider) (digest key)

  -- The distances to the hash of the key are non-decreasing, from `l` on.
  unfoldable pub AreFrom : (key l : ℕ) → List ProviderRecord → Type 0
  AreFrom key l [] = Unit
  AreFrom key l (p ∷ ps) = (l ≤ dist key p) × AreFrom key (dist key p) ps

  insert_at-insert_before :
      (r : ProviderRecord) (ps : List ProviderRecord)
      → elim (position (is_nearer u digest r) ps) [
        | none ↦ ps ++ (r ∷ [])
        | some i ↦ insert_at i r ps
      ]
        ≡ insert_before r ps
  unfolding insert_before insert_at
  insert_at-insert_before r [] = refl
  insert_at-insert_before r (p ∷ ps) = ground (arith, insert_at-insert_before r ps)

  place-reference :
      (max : ℕ) (r : ProviderRecord) (ps : List ProviderRecord)
      → place u digest max r ps ≡ elim (position (same_provider r) ps) [
        | none ↦ take max (insert_before r ps)
        | some i ↦ replace r ps
      ]
  unfolding place
  place-reference max r ps = ground (arith, insert_at-insert_before r ps, set-replace r ps)

  module _ {κ} (P : ProviderRecord → Type κ) where
    All-insert_before :
        (r : ProviderRecord) (ps : List ProviderRecord)
        → P r
        → All P ps
        → All P (insert_before r ps)
    unfolding insert_before
    All-insert_before r [] h a = (h, tt)
    All-insert_before r (p ∷ ps) h a = elim (Bool-cases (is_nearer u digest r p)) [
      | inl t ↦ rw t (h, a)
      | inr f ↦ rw f (a.0, All-insert_before r ps h a.1)
    ]

  insert_before-AreDistinct :
      (r : ProviderRecord) (ps : List ProviderRecord)
      → AreNot r.provider ps
      → AreDistinct ps
      → AreDistinct (insert_before r ps)
  unfolding AreDistinct AreNot insert_before
  insert_before-AreDistinct r [] n a = (tt, tt)
  insert_before-AreDistinct r (p ∷ ps) n a = elim (Bool-cases (is_nearer u digest r p)) [
    | inl t ↦ rw t (n, a)
    | inr f ↦ rw f (
      All-insert_before (λ q. (q.provider == p.provider) ≡ false) r ps (ground (arith, n.0)) a.0,
      insert_before-AreDistinct r ps n.1 a.1,
    )
  ]

  nearer-le :
      (key : ℕ) (r p : ProviderRecord)
      → r.key ≡ key
      → is_nearer u digest r p ≡ true
      → dist key r ≤ dist key p
  nearer-le key r p k t = subst (λ x. dist x r ≤ dist x p) k (omega (arith, ltb→lt _ _ t))

  farther-le :
      (key : ℕ) (r p : ProviderRecord)
      → r.key ≡ key
      → is_nearer u digest r p ≡ false
      → dist key p ≤ dist key r
  farther-le key r p k f = subst (λ x. dist x p ≤ dist x r) k (ltb_false→le _ _ f)

  insert_before-AreFrom :
      (key l : ℕ) (r : ProviderRecord) (ps : List ProviderRecord)
      → r.key ≡ key
      → l ≤ distance u (digest r.provider) (digest key)
      → AreFrom key l ps
      → AreFrom key l (insert_before r ps)
  unfolding AreFrom insert_before
  insert_before-AreFrom key l r [] k h a = (h, tt)
  insert_before-AreFrom key l r (p ∷ ps) k h a = elim (Bool-cases (is_nearer u digest r p)) [
    | inl t ↦ rw t (h, (nearer-le key r p k t, a.1))
    | inr f ↦ rw f (a.0, insert_before-AreFrom key (dist key p) r ps k (farther-le key r p k f) a.1)
  ]

  replace-AreFrom :
      (key l : ℕ) (r : ProviderRecord) (ps : List ProviderRecord)
      → AreFrom key l ps
      → AreFrom key l (replace r ps)
  unfolding AreFrom replace
  replace-AreFrom key l r [] a = tt
  replace-AreFrom key l r (p ∷ ps) a = elim (Bool-cases (p.provider == r.provider)) [
    | inl t ↦ rw t (
        subst
          (λ y.
            (l ≤ distance u (digest y) (digest key))
            × AreFrom key (distance u (digest y) (digest key)) ps)
          ((==_iff p.provider r.provider).0 t) a)
    | inr f ↦ rw f (a.0, replace-AreFrom key (dist key p) r ps a.1)
  ]

  take-AreFrom :
      (key l n : ℕ) (ps : List ProviderRecord) → AreFrom key l ps → AreFrom key l (take n ps)
  unfolding AreFrom
  take-AreFrom key l zero ps a = tt
  take-AreFrom key l (suc n) [] a = tt
  take-AreFrom key l (suc n) (p ∷ ps) a = (a.0, take-AreFrom key (dist key p) n ps a.1)

  AreFrom-weaken :
      (key k l : ℕ) (ps : List ProviderRecord) → k ≤ l → AreFrom key l ps → AreFrom key k ps
  unfolding AreFrom
  AreFrom-weaken key k l [] h a = tt
  AreFrom-weaken key k l (p ∷ ps) h a = (omega (arith, a.0), a.1)

  without-AreFrom :
      (key l x : ℕ) (ps : List ProviderRecord) → AreFrom key l ps → AreFrom key l (without x ps)
  unfolding AreFrom without
  without-AreFrom key l x [] a = tt
  without-AreFrom key l x (p ∷ ps) a = elim (Bool-cases (p.provider == x)) [
    | inl t ↦ rw t (AreFrom-weaken key l (dist key p) ps a.0 a.1)
    | inr f ↦ rw f (a.0, without-AreFrom key (dist key p) x ps a.1)
  ]

  -- What `add_provider` keeps of the records of a key.
  unfoldable pub AreKept : (max key : ℕ) → List ProviderRecord → Type 0
  unfolding AreFrom AreDistinct
  AreKept max key ps =
      (length ps ≤ max) × (AreDistinct ps × (AreFrom key 0 ps × All (λ p. p.key ≡ key) ps))

  replace-AreKept :
      (max : ℕ) (r : ProviderRecord) (ps : List ProviderRecord)
      → AreKept max r.key ps
      → AreKept max r.key (replace r ps)
  unfolding AreKept
  replace-AreKept max r ps a = (
    rw (length-replace r ps) a.0,
    (
      replace-AreDistinct r ps a.1.0,
      (replace-AreFrom r.key 0 r ps a.1.1.0, All-replace (λ p. p.key ≡ r.key) r ps refl a.1.1.1),
    ),
  )

  insert_before-AreKept :
      (max : ℕ) (r : ProviderRecord) (ps : List ProviderRecord)
      → AreNot r.provider ps
      → AreKept max r.key ps
      → AreKept max r.key (take max (insert_before r ps))
  unfolding AreKept
  insert_before-AreKept max r ps n a = (
    omega (arith, length-take max (insert_before r ps)),
    (
      take-AreDistinct max _ (insert_before-AreDistinct r ps n a.1.0),
      (
        take-AreFrom r.key 0 max _ (insert_before-AreFrom r.key 0 r ps refl (omega arith) a.1.1.0),
        All-take (λ p. p.key ≡ r.key) max _
            (All-insert_before (λ p. p.key ≡ r.key) r ps refl a.1.1.1),
      ),
    ),
  )

  pub place-AreKept :
      (max : ℕ) (r : ProviderRecord) (ps : List ProviderRecord)
      → AreKept max r.key ps
      → AreKept max r.key (place u digest max r ps)
  place-AreKept max r ps a = subst (AreKept max r.key) (sym (place-reference max r ps)) by_position
    where
      by_position : AreKept max r.key (elim (position (same_provider r) ps) [
        | none ↦ take max (insert_before r ps)
        | some i ↦ replace r ps
      ])
      by_position = elim (Option-cases (position (same_provider r) ps)) [
        | inl n ↦ rw n (insert_before-AreKept max r ps (replace-fresh r ps n) a)
        | inr (i, e) ↦ rw e (replace-AreKept max r ps a)
      ]

  pub remove_first-AreKept :
      (max key x : ℕ) (ps : List ProviderRecord)
      → AreKept max key ps
      → AreKept max key (remove_first x ps)
  unfolding AreKept
  remove_first-AreKept max key x ps a = rw (remove_at-without x ps) (
    omega (arith, length-without-le x ps, a.0),
    (
      without-AreDistinct x ps a.1.0,
      (without-AreFrom key 0 x ps a.1.1.0, All-without (λ p. p.key ≡ key) x ps a.1.1.1),
    ),
  )
