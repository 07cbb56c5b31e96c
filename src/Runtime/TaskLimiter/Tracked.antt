-- ===== src/Runtime/TaskLimiter/Tracked.antt =====
-- The tasks that the main loop of runtime/src/limit.rs has still to wait for, by their identifiers.
use libp2p_rs.Common.{
  ℕ, zero, suc, ◌+◌, ◌<◌, ◌≡◌, refl, sym, ◌∙◌, ap, Bool, true, false, not, ◌&&◌, Option, none, some,
  List, [], ◌∷◌, ◌++◌, ◌==◌, get_elem?, set, length, All, Bool-cases, inl, inr, arith,
  none_not_some, some_injective,
}
use libp2p_rs.Runtime.TaskLimiter.{Phase, created, running, finishing, releasing}

-- A task that has not yet taken its handle out of the map.
unfoldable pub is_pending : Phase → Bool
is_pending created = true
is_pending running = true
is_pending (finishing normal) = true
is_pending (releasing normal) = true
is_pending p = false

unfoldable pub is_pending_at : Option Phase → Bool
is_pending_at none = false
is_pending_at (some p) = is_pending p

-- The identifiers of the pending tasks, counted from `k + 1`, pass the test.
unfoldable pub AllTracked : (ℕ → Bool) → ℕ → List Phase → Type 0
AllTracked f k [] = Unit
AllTracked f k (t ∷ ts) = ((is_pending t && not (f (suc k))) ≡ false) × AllTracked f (suc k) ts

module _ (f g : ℕ → Bool) where
  weaker :
      (t : Phase) (id : ℕ)
      → (f id ≡ true → g id ≡ true)
      → (is_pending t && not (f id)) ≡ false
      → (is_pending t && not (g id)) ≡ false
  weaker t id i h = elim (Bool-cases (f id)) [
    | inl e ↦ ground (arith, i e)
    | inr e ↦ ground (arith, h, e)
  ]

  pub AllTracked-imp :
      (k : ℕ) (ts : List Phase)
      → ((id : ℕ) → k < id → f id ≡ true → g id ≡ true)
      → AllTracked f k ts
      → AllTracked g k ts
  unfolding AllTracked
  AllTracked-imp k [] i h = tt
  AllTracked-imp k (t ∷ ts) i h = (
    weaker t (suc k) (i (suc k) (omega arith)) h.0,
    AllTracked-imp (suc k) ts (λ id l. i id (omega (arith, l))) h.1,
  )

  -- One identifier is given up, whose task is not pending.
  pub AllTracked-except :
      (k i : ℕ) (ts : List Phase)
      → is_pending_at (get_elem? ts i) ≡ false
      → ((id : ℕ) → (id == suc (k + i)) ≡ false → f id ≡ true → g id ≡ true)
      → AllTracked f k ts
      → AllTracked g k ts
  unfolding AllTracked is_pending_at
  AllTracked-except k i [] p e h = tt
  AllTracked-except k zero (t ∷ ts) p e h =
      (ground (arith, p), AllTracked-imp (suc k) ts (λ id l. e id (ground (arith, l))) h.1)
  AllTracked-except k (suc i) (t ∷ ts) p e h = (
    weaker t (suc k) (e (suc k) (ground arith)) h.0,
    AllTracked-except (suc k) i ts p (λ id n. e id (ground (arith, n))) h.1,
  )

module _ (f : ℕ → Bool) where
  pub AllTracked-set :
      (k i : ℕ) (ts : List Phase) (old new : Phase)
      → get_elem? ts i ≡ some old
      → (is_pending new ≡ true → is_pending old ≡ true)
      → AllTracked f k ts
      → AllTracked f k (set ts i new)
  unfolding AllTracked
  AllTracked-set k i [] old new e p h = tt
  AllTracked-set k zero (t ∷ ts) old new e p h =
      (ground (arith, h.0, p, ap is_pending (some_injective t old e)), h.1)
  AllTracked-set k (suc i) (t ∷ ts) old new e p h =
      (h.0, AllTracked-set (suc k) i ts old new e p h.1)

  pub AllTracked-append :
      (k : ℕ) (ts : List Phase) (t : Phase)
      → f (suc (k + length ts)) ≡ true
      → AllTracked f k ts
      → AllTracked f k (ts ++ (t ∷ []))
  unfolding AllTracked
  AllTracked-append k [] t e h =
      let same : k + 0 ≡ k = omega arith in
      let here : f (suc k) ≡ true = ap (λ j. f (suc j)) (sym same) ∙ e in (ground (arith, here), tt)
  AllTracked-append k (u ∷ ts) t e h = (
    h.0,
    AllTracked-append (suc k) ts t
        (let same : suc k + length ts ≡ k + suc (length ts) = omega arith in
          ap (λ j. f (suc j)) same ∙ e)
        h.1,
  )

  pub AllTracked-none :
      (k : ℕ) (ts : List Phase)
      → ((id : ℕ) → f id ≡ false)
      → AllTracked f k ts
      → All (λ t. is_pending t ≡ false) ts
  unfolding AllTracked
  AllTracked-none k [] e h = tt
  AllTracked-none k (t ∷ ts) e h =
      (ground (arith, h.0, e (suc k)), AllTracked-none (suc k) ts e h.1)

pub pending-set :
    (ts : List Phase) (i : ℕ) (old new : Phase)
    → get_elem? ts i ≡ some old
    → is_pending_at (get_elem? (set ts i new) i) ≡ is_pending new
unfolding is_pending_at
pending-set [] i old new e = absurd (none_not_some old e)
pending-set (t ∷ ts) zero old new e = refl
pending-set (t ∷ ts) (suc i) old new e = pending-set ts i old new e
