-- ===== src/Runtime/TaskLimiter/Known.antt =====
-- The main loop of runtime/src/limit.rs knows the handles of the tasks that are not yet over.
use libp2p_rs.Common.{
  ℕ, suc, ◌<◌, ◌≡◌, refl, sym, ◌∙◌, ap, subst, Bool, true, false, not, some, List, [], ◌∷◌, ◌==◌,
  if◌then◌else◌, get_elem?, set, length, length-set, contains, filter, arith, true≢false,
}
use libp2p_rs.Runtime.TaskLimiter.{
  Phase, created, running, done, dropped, finishing, releasing, counting, Main, checking, dequeuing,
  exiting, exited, acquiring, rechecking, placing, joining, TaskLimiter, new_limiter, Ending,
  succeeds, fails, panics, is_over, cancel, completed, is_normal, task_step,
}
use libp2p_rs.Runtime.TaskLimiter.Tracked.{
  is_pending, AllTracked, AllTracked-imp, AllTracked-except, AllTracked-set, pending-set,
}

-- The handles that the main loop holds itself.
unfoldable pub waited : Main → List ℕ
waited (placing id) = id ∷ []
waited (joining ids) = ids
waited m = []

-- The main loop has the handle, or finds it in the map.
unfoldable pub knows : Main → List ℕ → ℕ → Bool
knows m handles id = if contains id (waited m) then true else contains id handles

unfoldable pub IsEmptied : Main → List ℕ → Type 0
IsEmptied (joining ids) handles = handles ≡ []
IsEmptied exited handles = handles ≡ []
IsEmptied m handles = Unit

pub record IsTracked (s : TaskLimiter) : Type 0 where
  pub tracked : AllTracked (knows s.main s.handles) 0 s.tasks
  pub sized : s.task_id ≡ length s.tasks
  pub emptied : IsEmptied s.main s.handles

pub new_limiter-IsTracked : (n : ℕ) → IsTracked (new_limiter n)
unfolding new_limiter AllTracked IsEmptied
new_limiter-IsTracked n = record { tracked = tt; sized = refl; emptied = tt }

pub either-IsTracked :
    (b : Bool) (s t : TaskLimiter) → IsTracked s → IsTracked t → IsTracked (if b then s else t)
either-IsTracked true s t h g = h
either-IsTracked false s t h g = g

-- A task goes on, and stays as it is known.
pub changed-IsTracked :
    (s t : TaskLimiter) (i : ℕ) (old new : Phase)
    → IsTracked s
    → get_elem? s.tasks i ≡ some old
    → (is_pending new ≡ true → is_pending old ≡ true)
    → t.tasks ≡ set s.tasks i new
    → t.main ≡ s.main
    → t.handles ≡ s.handles
    → t.task_id ≡ s.task_id
    → IsTracked t
changed-IsTracked s t i old new h e p tasks main handles id = record {
  tracked =
      subst (λ x. AllTracked (knows t.main t.handles) 0 x) (sym tasks)
        (subst (λ m. AllTracked (knows m t.handles) 0 (set s.tasks i new)) (sym main)
          (subst (λ hs. AllTracked (knows s.main hs) 0 (set s.tasks i new)) (sym handles)
            (AllTracked-set (knows s.main s.handles) 0 i s.tasks old new e p h.tracked)));
  sized = id ∙ h.sized ∙ sym (ap length tasks ∙ length-set s.tasks i new);
  emptied =
      subst (λ m. IsEmptied m t.handles) (sym main)
        (subst (IsEmptied s.main) (sym handles) h.emptied);
}

-- Of the identifiers without one, all others are there.
contains-filter :
    (j k : ℕ) (ids : List ℕ)
    → (j == k) ≡ false
    → contains j (filter (λ id. not (id == k)) ids) ≡ contains j ids
contains-filter j k [] e = refl
contains-filter j k (id ∷ ids) e = ground (arith, e, contains-filter j k ids e)

still_known :
    (m : Main) (hs : List ℕ) (id k : ℕ)
    → (id == k) ≡ false
    → knows m hs id ≡ true
    → knows m (filter (λ j. not (j == k)) hs) id ≡ true
unfolding knows
still_known m hs id k n h = ground (arith, h, contains-filter id k hs n)

filter-IsEmptied :
    (m : Main) (hs : List ℕ) (p : ℕ → Bool) → IsEmptied m hs → IsEmptied m (filter p hs)
unfolding IsEmptied
filter-IsEmptied checking hs p h = tt
filter-IsEmptied dequeuing hs p h = tt
filter-IsEmptied exiting hs p h = tt
filter-IsEmptied exited hs p h = ap (filter p) h
filter-IsEmptied (acquiring future) hs p h = tt
filter-IsEmptied (rechecking future) hs p h = tt
filter-IsEmptied (placing id) hs p h = tt
filter-IsEmptied (joining ids) hs p h = ap (filter p) h

released-IsTracked :
    (s : TaskLimiter) (i : ℕ) (normal : Bool)
    → get_elem? s.tasks i ≡ some (releasing normal)
    → IsTracked s
    → IsTracked (record s {
      handles = filter (λ id. not (id == suc i)) s.handles;
      tasks = set s.tasks i (counting normal);
    })
unfolding is_pending
released-IsTracked s i normal e h = record {
  tracked =
      AllTracked-except (knows s.main s.handles) _ 0 i (set s.tasks i (counting normal))
        (pending-set s.tasks i (releasing normal) (counting normal) e)
        (λ id n k. still_known s.main s.handles id (suc i) (ground (arith, n)) k)
        (AllTracked-set (knows s.main s.handles) 0 i s.tasks (releasing normal) (counting normal) e
          (λ f. absurd (true≢false (sym f))) h.tracked);
  sized = h.sized ∙ sym (length-set s.tasks i (counting normal));
  emptied = filter-IsEmptied s.main s.handles _ h.emptied;
}

pub task_step-IsTracked :
    (i : ℕ) (e : Ending) (p : Phase) (s : TaskLimiter)
    → get_elem? s.tasks i ≡ some p
    → IsTracked s
    → IsTracked (task_step i e p s)
unfolding task_step is_pending completed is_normal
task_step-IsTracked i e created s at h =
    changed-IsTracked s _ i created running h at (λ f. refl) refl refl refl refl
task_step-IsTracked i succeeds running s at h =
    changed-IsTracked s _ i running (finishing true) h at (λ f. refl) refl refl refl refl
task_step-IsTracked i fails running s at h =
    changed-IsTracked s _ i running (finishing true) h at (λ f. refl) refl refl refl refl
task_step-IsTracked i panics running s at h =
    changed-IsTracked s _ i running (finishing false) h at (λ f. refl) refl refl refl refl
task_step-IsTracked i e (finishing normal) s at h =
    changed-IsTracked s _ i (finishing normal) (releasing normal) h at (λ f. refl) refl refl refl
      refl
task_step-IsTracked i e (releasing normal) s at h = released-IsTracked s i normal at h
task_step-IsTracked i e (counting normal) s at h =
    changed-IsTracked s _ i (counting normal) done h at (λ f. f) refl refl refl refl
task_step-IsTracked i e done s at h = h
task_step-IsTracked i e dropped s at h = h

pub cancel-pending : (p : Phase) → is_pending (cancel p) ≡ true → is_pending p ≡ true
unfolding cancel is_pending
cancel-pending created h = refl
cancel-pending running h = refl
cancel-pending done h = h
cancel-pending dropped h = h
cancel-pending (finishing r) h = h
cancel-pending (releasing r) h = h
cancel-pending (counting r) h = h

pub over-pending : (p : Phase) → is_over p ≡ true → is_pending p ≡ false
unfolding is_over is_pending
over-pending created h = absurd (true≢false (sym h))
over-pending running h = absurd (true≢false (sym h))
over-pending done h = refl
over-pending dropped h = refl
over-pending (finishing r) h = absurd (true≢false (sym h))
over-pending (releasing r) h = absurd (true≢false (sym h))
over-pending (counting r) h = refl

-- The main loop goes on to know the handles that it knew.
pub moved-IsTracked :
    (s t : TaskLimiter) (m : Main)
    → s.main ≡ m
    → IsTracked s
    → t.tasks ≡ s.tasks
    → t.task_id ≡ s.task_id
    → ((id : ℕ) → 0 < id → knows m s.handles id ≡ true → knows t.main t.handles id ≡ true)
    → IsEmptied t.main t.handles
    → IsTracked t
moved-IsTracked s t m at h tasks task_id k e = record {
  tracked = subst (AllTracked (knows t.main t.handles) 0) (sym tasks) (
      AllTracked-imp (knows m s.handles) (knows t.main t.handles) 0 s.tasks k
        (subst (λ x. AllTracked (knows x s.handles) 0 s.tasks) at h.tracked));
  sized = task_id ∙ h.sized ∙ sym (ap length tasks);
  emptied = e;
}
