-- ===== src/Runtime/TaskLimiter/Tasks.antt =====
-- The steps of the tasks of runtime/src/limit.rs keep the tokens and the counts.
use libp2p_rs.Common.{
  ℕ, suc, ◌+◌, ◌≤◌, ◌≡◌, refl, Bool, true, false, Option, none, some, get_elem?, set, Bool-cases,
  inl, inr, arith,
}
use libp2p_rs.Runtime.TaskLimiter.{
  Phase, created, running, done, dropped, finishing, releasing, counting, TaskLimiter, Ending,
  succeeds, fails, panics, cancel, completed, is_normal, counted, release, task_step, task_at,
}
use libp2p_rs.Runtime.TaskLimiter.Invariant.{is_busy, has_begun, is_done, IsValid, changed-IsValid}

counted-sum :
    (normal : Bool) (s : TaskLimiter)
    → (counted normal s).executed + (counted normal s).crashed + (counted normal s).canceled
      ≡ suc (s.stat.executed + s.stat.crashed + s.stat.canceled)
unfolding counted
counted-sum true s = omega arith
counted-sum false s = elim (Bool-cases s.terminated) [
  | inl e ↦ rw e (omega arith)
  | inr e ↦ rw e (omega arith)
]

counted-spawned : (normal : Bool) (s : TaskLimiter) → (counted normal s).spawned ≡ s.stat.spawned
unfolding counted
counted-spawned true s = refl
counted-spawned false s = elim (Bool-cases s.terminated) [ inl e ↦ rw e refl | inr e ↦ rw e refl ]

release-le : (s : TaskLimiter) → release s ≤ suc s.tokens
unfolding release
release-le s = elim (Bool-cases s.tokens_closed) [
  | inl e ↦ rw e (omega arith)
  | inr e ↦ rw e (omega arith)
]

module _ (n : ℕ) where
  task_step-IsValid :
      (i : ℕ) (e : Ending) (p : Phase) (s : TaskLimiter)
      → get_elem? s.tasks i ≡ some p
      → IsValid n s
      → IsValid n (task_step i e p s)
  unfolding task_step is_busy has_begun is_done completed is_normal
  task_step-IsValid i e created s at h =
      changed-IsValid n s _ i created running h at refl refl (omega arith) (omega arith)
        (omega arith)
  task_step-IsValid i succeeds running s at h =
      changed-IsValid n s _ i running (finishing true) h at refl refl (omega arith) (omega arith)
        (omega arith)
  task_step-IsValid i fails running s at h =
      changed-IsValid n s _ i running (finishing true) h at refl refl (omega arith) (omega arith)
        (omega arith)
  task_step-IsValid i panics running s at h =
      changed-IsValid n s _ i running (finishing false) h at refl refl (omega arith) (omega arith)
        (omega arith)
  task_step-IsValid i e (finishing normal) s at h =
      changed-IsValid n s _ i (finishing normal) (releasing normal) h at refl refl
        (omega (arith, release-le s)) (omega arith) (omega arith)
  task_step-IsValid i e (releasing normal) s at h =
      changed-IsValid n s _ i (releasing normal) (counting normal) h at refl refl (omega arith)
        (omega arith) (omega arith)
  task_step-IsValid i e (counting normal) s at h =
      changed-IsValid n s _ i (counting normal) done h at refl refl (omega arith)
        (omega (arith, counted-spawned normal s)) (omega (arith, counted-sum normal s))
  task_step-IsValid i e done s at h = h
  task_step-IsValid i e dropped s at h = h

  pub cancelled-IsValid :
      (i : ℕ) (p : Phase) (s : TaskLimiter)
      → get_elem? s.tasks i ≡ some p
      → IsValid n s
      → IsValid n (record s { tasks = set s.tasks i (cancel p) })
  unfolding cancel is_busy has_begun is_done
  cancelled-IsValid i created s at h =
      changed-IsValid n s _ i created dropped h at refl refl (omega arith) (omega arith)
        (omega arith)
  cancelled-IsValid i running s at h =
      changed-IsValid n s _ i running (finishing false) h at refl refl (omega arith) (omega arith)
        (omega arith)
  cancelled-IsValid i done s at h =
      changed-IsValid n s _ i done done h at refl refl (omega arith) (omega arith) (omega arith)
  cancelled-IsValid i dropped s at h =
      changed-IsValid n s _ i dropped dropped h at refl refl (omega arith) (omega arith)
        (omega arith)
  cancelled-IsValid i (finishing r) s at h =
      changed-IsValid n s _ i (finishing r) (finishing r) h at refl refl (omega arith) (omega arith)
        (omega arith)
  cancelled-IsValid i (releasing r) s at h =
      changed-IsValid n s _ i (releasing r) (releasing r) h at refl refl (omega arith) (omega arith)
        (omega arith)
  cancelled-IsValid i (counting r) s at h =
      changed-IsValid n s _ i (counting r) (counting r) h at refl refl (omega arith) (omega arith)
        (omega arith)

  pub task_at-IsValid :
      (i : ℕ) (e : Ending) (o : Option Phase) (s : TaskLimiter)
      → get_elem? s.tasks i ≡ o
      → IsValid n s
      → IsValid n (task_at i e o s)
  unfolding task_at
  task_at-IsValid i e none s at h = h
  task_at-IsValid i e (some p) s at h = task_step-IsValid i e p s at h
