-- ===== src/Runtime/TaskLimiter/Invariant.antt =====
-- What the steps of runtime/src/limit.rs keep: no more tasks than tokens, and true counts.
use libp2p_rs.Common.{
  ℕ, zero, suc, ◌+◌, ◌≤◌, ◌≡◌, refl, sym, ◌∙◌, ap, Bool, true, false, some, List, [], ◌∷◌, ◌++◌,
  if◌then◌else◌, get_elem?, set, arith, none_not_some, some_injective,
}
use libp2p_rs.Runtime.TaskLimiter.{
  Phase, created, running, done, dropped, finishing, releasing, counting, Main, rechecking,
  TaskLimiter, new_stat, new_limiter,
}

abbrev pub one : Bool → ℕ
one true = 1
one false = 0

abbrev pub count : (Phase → Bool) → List Phase → ℕ
count p [] = 0
count p (t ∷ ts) = one (p t) + count p ts

-- A task that has taken its token and not given it back.
unfoldable pub is_busy : Phase → Bool
is_busy created = true
is_busy running = true
is_busy (finishing normal) = true
is_busy p = false

unfoldable pub is_running : Phase → Bool
is_running running = true
is_running p = false

unfoldable pub has_begun : Phase → Bool
has_begun created = false
has_begun dropped = false
has_begun p = true

unfoldable pub is_done : Phase → Bool
is_done done = true
is_done p = false

-- A task that has begun and is not done.
unfoldable pub is_active : Phase → Bool
is_active running = true
is_active (finishing normal) = true
is_active (releasing normal) = true
is_active (counting normal) = true
is_active p = false

-- The token that the main loop holds.
unfoldable pub held : Main → ℕ
held (rechecking future) = 1
held m = 0

count-set :
    (p : Phase → Bool) (ts : List Phase) (i : ℕ) (old new : Phase)
    → get_elem? ts i ≡ some old
    → count p (set ts i new) + one (p old) ≡ count p ts + one (p new)
count-set p [] i old new e = absurd (none_not_some old e)
count-set p (t ∷ ts) zero old new e = rw (some_injective t old e) (omega arith)
count-set p (t ∷ ts) (suc i) old new e = omega (arith, count-set p ts i old new e)

pub count-append :
    (p : Phase → Bool) (ts : List Phase) (t : Phase)
    → count p (ts ++ (t ∷ [])) ≡ count p ts + one (p t)
count-append p [] t = omega arith
count-append p (u ∷ ts) t = omega (arith, count-append p ts t)

module _ (n : ℕ) where
  pub record IsValid (s : TaskLimiter) : Type 0 where
    pub bounded : s.tokens + count is_busy s.tasks + held s.main ≤ n
    pub begun : s.stat.spawned ≡ count has_begun s.tasks
    pub ended : s.stat.executed + s.stat.crashed + s.stat.canceled ≡ count is_done s.tasks

  pub new_limiter-IsValid : IsValid (new_limiter n)
  unfolding new_limiter new_stat held
  new_limiter-IsValid = record { bounded = omega arith; begun = refl; ended = refl }

  -- A task of the list changes, and with it the tokens and the counters.
  pub changed-IsValid :
      (s t : TaskLimiter) (i : ℕ) (old new : Phase)
      → IsValid s
      → get_elem? s.tasks i ≡ some old
      → t.tasks ≡ set s.tasks i new
      → t.main ≡ s.main
      → t.tokens + one (is_busy new) ≤ s.tokens + one (is_busy old)
      → t.stat.spawned + one (has_begun old) ≡ s.stat.spawned + one (has_begun new)
      → t.stat.executed + t.stat.crashed + t.stat.canceled + one (is_done old)
        ≡ s.stat.executed + s.stat.crashed + s.stat.canceled + one (is_done new)
      → IsValid t
  changed-IsValid s t i old new h e tasks main tok sp en = record {
    bounded = omega (
      arith,
      h.bounded,
      tok,
      ap held main,
      ap (count is_busy) tasks,
      count-set is_busy s.tasks i old new e,
    );
    begun =
        omega
          (arith, h.begun, sp, ap (count has_begun) tasks, count-set has_begun s.tasks i old new e);
    ended =
        omega (arith, h.ended, en, ap (count is_done) tasks, count-set is_done s.tasks i old new e);
  }

  -- The main loop goes on without the token it may hold.
  pub moved-IsValid :
      (s t : TaskLimiter)
      → IsValid s
      → t.tasks ≡ s.tasks
      → t.stat ≡ s.stat
      → t.tokens + held t.main ≤ s.tokens + held s.main
      → IsValid t
  moved-IsValid s t h tasks stat tok = record {
    bounded = omega (arith, h.bounded, ap (count is_busy) tasks, tok);
    begun = ap (λ x. x.spawned) stat ∙ h.begun ∙ sym (ap (count has_begun) tasks);
    ended =
        ap (λ x. x.executed + x.crashed + x.canceled) stat
        ∙ h.ended
        ∙ sym (ap (count is_done) tasks);
  }

  pub either-IsValid :
      (b : Bool) (s t : TaskLimiter) → IsValid s → IsValid t → IsValid (if b then s else t)
  either-IsValid true s t h g = h
  either-IsValid false s t h g = g

  pub kept-IsValid :
      (s t : TaskLimiter)
      → IsValid s
      → t.tasks ≡ s.tasks
      → t.stat ≡ s.stat
      → t.tokens ≡ s.tokens
      → t.main ≡ s.main
      → IsValid t
  kept-IsValid s t h tasks stat tok main =
      moved-IsValid s t h tasks stat (omega (arith, tok, ap held main))
