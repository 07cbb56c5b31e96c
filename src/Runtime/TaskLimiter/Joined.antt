-- ===== src/Runtime/TaskLimiter/Joined.antt =====
-- When the main loop of runtime/src/limit.rs has exited, it has waited for its tasks.
use libp2p_rs.Common.{
  ℕ, zero, suc, ◌-◌, ◌≡◌, refl, ◌∙◌, ap, subst, false, Option, none, some, List, [], ◌∷◌, ◌++◌,
  get_elem?, length-append, All, Bool-cases, inl, inr, arith,
}
use libp2p_rs.Runtime.TaskLimiter.{
  Phase, created, Client, idle, accepting, terminating, closing, gone, Main, checking, dequeuing,
  exiting, exited, acquiring, rechecking, placing, joining, TaskLimiter, new_limiter, Ending, Move,
  spawn, shutdown, wait, client_goes_on, main_goes_on, task_goes_on, client_step, client_spawn,
  client_shutdown, client_wait, dequeue, acquire, is_over, cancel, join_at, main_step, task_at,
  step, run,
}
use libp2p_rs.Runtime.TaskLimiter.Tracked.{
  is_pending, is_pending_at, AllTracked, AllTracked-imp, AllTracked-except, AllTracked-append,
  AllTracked-none,
}
use libp2p_rs.Runtime.TaskLimiter.Known.{
  waited, knows, IsEmptied, IsTracked, new_limiter-IsTracked, either-IsTracked, changed-IsTracked,
  task_step-IsTracked, cancel-pending, over-pending, moved-IsTracked,
}

module _ (s : TaskLimiter) (h : IsTracked s) where
  joined-IsTracked :
      (id : ℕ) (ids : List ℕ)
      → s.main ≡ joining (id ∷ ids)
      → is_pending_at (get_elem? s.tasks (id - 1)) ≡ false
      → IsTracked (record s { main = joining ids })
  unfolding knows waited IsEmptied
  joined-IsTracked zero ids at p =
      moved-IsTracked s _ (joining (0 ∷ ids)) at h refl refl (λ j l k. ground (arith, l, k))
        (subst (λ m. IsEmptied m s.handles) at h.emptied)
  joined-IsTracked (suc i) ids at p = record {
    tracked =
        AllTracked-except (knows (joining (suc i ∷ ids)) s.handles) (knows (joining ids) s.handles)
          0 i s.tasks
          (let e : suc i - 1 ≡ i = omega arith in
            subst (λ j. is_pending_at (get_elem? s.tasks j) ≡ false) e p)
          (λ j n k. ground (arith, n, k))
          (subst (λ x. AllTracked (knows x s.handles) 0 s.tasks) at h.tracked);
    sized = h.sized;
    emptied = subst (λ m. IsEmptied m s.handles) at h.emptied;
  }

  join_at-IsTracked :
      (id : ℕ) (ids : List ℕ) (o : Option Phase)
      → s.main ≡ joining (id ∷ ids)
      → get_elem? s.tasks (id - 1) ≡ o
      → IsTracked (join_at (id - 1) ids o s)
  unfolding join_at is_pending_at
  join_at-IsTracked id ids none at e = joined-IsTracked id ids at (ap is_pending_at e)
  join_at-IsTracked id ids (some p) at e = elim (Bool-cases (is_over p)) [
    | inl o ↦ rw (o, join_at) (joined-IsTracked id ids at (ap is_pending_at e ∙ over-pending p o))
    | inr o ↦
        rw (o, join_at)
          (either-IsTracked s.terminated _ _
            (changed-IsTracked s _ (id - 1) p (cancel p) h e (cancel-pending p) refl refl refl refl)
            h)
  ]

  dequeue-IsTracked : (q : List ℕ) → s.main ≡ dequeuing → IsTracked (dequeue q s)
  unfolding dequeue knows waited IsEmptied
  dequeue-IsTracked [] at =
      either-IsTracked s.queue_closed _ _
        (moved-IsTracked s _ dequeuing at h refl refl (λ j l k. k) tt) h
  dequeue-IsTracked (future ∷ rest) at =
      moved-IsTracked s _ dequeuing at h refl refl (λ j l k. k) tt

  acquire-IsTracked : (n future : ℕ) → s.main ≡ acquiring future → IsTracked (acquire n future s)
  unfolding acquire knows waited IsEmptied
  acquire-IsTracked zero future at =
      either-IsTracked s.tokens_closed _ _
        (moved-IsTracked s _ (acquiring future) at h refl refl (λ j l k. k) tt) h
  acquire-IsTracked (suc n) future at =
      moved-IsTracked s _ (acquiring future) at h refl refl (λ j l k. k) tt

  started-IsTracked :
      (future : ℕ)
      → s.main ≡ rechecking future
      → IsTracked (record s {
        task_id = suc s.task_id;
        tasks = s.tasks ++ (created ∷ []);
        main = placing (suc s.task_id);
      })
  unfolding knows waited IsEmptied
  started-IsTracked future at = record {
    tracked =
        AllTracked-append (knows (placing (suc s.task_id)) s.handles) 0 s.tasks created
          (ground (arith, h.sized))
          (AllTracked-imp (knows (rechecking future) s.handles)
            (knows (placing (suc s.task_id)) s.handles) 0 s.tasks (λ j l k. ground (arith, k))
            (subst (λ x. AllTracked (knows x s.handles) 0 s.tasks) at h.tracked));
    sized = omega (arith, h.sized, length-append s.tasks (created ∷ []));
    emptied = tt;
  }

  main_step-IsTracked : (m : Main) → s.main ≡ m → IsTracked (main_step m s)
  unfolding main_step knows waited IsEmptied
  main_step-IsTracked checking at =
      either-IsTracked s.terminated _ _
        (moved-IsTracked s _ checking at h refl refl (λ j l k. k) tt)
        (moved-IsTracked s _ checking at h refl refl (λ j l k. k) tt)
  main_step-IsTracked dequeuing at = dequeue-IsTracked s.queue at
  main_step-IsTracked (acquiring future) at = acquire-IsTracked s.tokens future at
  main_step-IsTracked (rechecking future) at =
      either-IsTracked s.terminated _ _
        (moved-IsTracked s _ (rechecking future) at h refl refl (λ j l k. k) tt)
        (started-IsTracked future at)
  main_step-IsTracked (placing id) at =
      moved-IsTracked s _ (placing id) at h refl refl (λ j l k. ground (arith, k)) tt
  main_step-IsTracked exiting at =
      moved-IsTracked s _ exiting at h refl refl (λ j l k. ground (arith, k)) refl
  main_step-IsTracked (joining []) at =
      moved-IsTracked s _ (joining []) at h refl refl (λ j l k. k)
        (subst (λ m. IsEmptied m s.handles) at h.emptied)
  main_step-IsTracked (joining (id ∷ ids)) at = join_at-IsTracked id ids _ at refl
  main_step-IsTracked exited at = h

task_at-IsTracked :
    (i : ℕ) (e : Ending) (o : Option Phase) (s : TaskLimiter)
    → get_elem? s.tasks i ≡ o
    → IsTracked s
    → IsTracked (task_at i e o s)
unfolding task_at
task_at-IsTracked i e none s at h = h
task_at-IsTracked i e (some p) s at h = task_step-IsTracked i e p s at h

client_spawn-IsTracked :
    (c : Client) (future : ℕ) (s : TaskLimiter) → IsTracked s → IsTracked (client_spawn c future s)
unfolding client_spawn
client_spawn-IsTracked idle future s h = record {
  tracked = h.tracked;
  sized = h.sized;
  emptied = h.emptied;
}
client_spawn-IsTracked accepting future s h = h
client_spawn-IsTracked terminating future s h = h
client_spawn-IsTracked closing future s h = h
client_spawn-IsTracked gone future s h = h

client_shutdown-IsTracked :
    (c : Client) (s : TaskLimiter) → IsTracked s → IsTracked (client_shutdown c s)
unfolding client_shutdown
client_shutdown-IsTracked idle s h = record {
  tracked = h.tracked;
  sized = h.sized;
  emptied = h.emptied;
}
client_shutdown-IsTracked accepting s h = h
client_shutdown-IsTracked terminating s h = h
client_shutdown-IsTracked closing s h = h
client_shutdown-IsTracked gone s h = h

client_wait-IsTracked : (c : Client) (s : TaskLimiter) → IsTracked s → IsTracked (client_wait c s)
unfolding client_wait
client_wait-IsTracked idle s h = record {
  tracked = h.tracked;
  sized = h.sized;
  emptied = h.emptied;
}
client_wait-IsTracked accepting s h = h
client_wait-IsTracked terminating s h = h
client_wait-IsTracked closing s h = h
client_wait-IsTracked gone s h = h

client_step-IsTracked : (c : Client) (s : TaskLimiter) → IsTracked s → IsTracked (client_step c s)
unfolding client_step
client_step-IsTracked idle s h = h
client_step-IsTracked accepting s h = record {
  tracked = h.tracked;
  sized = h.sized;
  emptied = h.emptied;
}
client_step-IsTracked terminating s h = record {
  tracked = h.tracked;
  sized = h.sized;
  emptied = h.emptied;
}
client_step-IsTracked closing s h = record {
  tracked = h.tracked;
  sized = h.sized;
  emptied = h.emptied;
}
client_step-IsTracked gone s h = h

step-IsTracked : (s : TaskLimiter) (m : Move) → IsTracked s → IsTracked (step s m)
unfolding step
step-IsTracked s (spawn future) h = client_spawn-IsTracked s.client future s h
step-IsTracked s shutdown h = client_shutdown-IsTracked s.client s h
step-IsTracked s wait h = client_wait-IsTracked s.client s h
step-IsTracked s client_goes_on h = client_step-IsTracked s.client s h
step-IsTracked s main_goes_on h = main_step-IsTracked s h s.main refl
step-IsTracked s (task_goes_on i e) h = task_at-IsTracked i e _ s refl h

run-IsTracked : (s : TaskLimiter) (ms : List Move) → IsTracked s → IsTracked (run s ms)
unfolding run
run-IsTracked s [] h = h
run-IsTracked s (m ∷ ms) h = run-IsTracked (step s m) ms (step-IsTracked s m h)

knows_nothing : (id : ℕ) → knows exited [] id ≡ false
unfolding knows waited
knows_nothing id = refl

-- In any order of the steps of the client, the main loop and the tasks of a new limiter, with any
-- futures, panics, a wait or a shutdown, once the main loop has exited each spawned task has been
-- dropped before its start or has taken its handle out of the map: none is still to start, running
-- or before that point of its feedback.
pub run-exited :
    (n : ℕ) (ms : List Move)
    → (run (new_limiter n) ms).main ≡ exited
    → All (λ p. is_pending p ≡ false) (run (new_limiter n) ms).tasks
unfolding IsEmptied
run-exited n ms at =
    let s = run (new_limiter n) ms in
    let h = run-IsTracked (new_limiter n) ms (new_limiter-IsTracked n) in
    let empty = subst (λ m. IsEmptied m s.handles) at h.emptied in
    AllTracked-none (knows exited []) 0 s.tasks knows_nothing (
      subst (λ hs. AllTracked (knows exited hs) 0 s.tasks) empty
        (subst (λ m. AllTracked (knows m s.handles) 0 s.tasks) at h.tracked))
