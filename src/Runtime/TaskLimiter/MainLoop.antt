-- ===== src/Runtime/TaskLimiter/MainLoop.antt =====
-- The steps of the main loop of runtime/src/limit.rs keep the tokens and the counts.
use libp2p_rs.Common.{
  ℕ, zero, suc, ◌-◌, ◌≡◌, refl, ap, Option, none, some, List, [], ◌∷◌, ◌++◌, get_elem?, arith,
}
use libp2p_rs.Runtime.TaskLimiter.{
  Phase, created, Main, checking, dequeuing, exiting, exited, acquiring, rechecking, placing,
  joining, TaskLimiter, dequeue, acquire, is_over, join_at, main_step,
}
use libp2p_rs.Runtime.TaskLimiter.Invariant.{
  is_busy, has_begun, is_done, held, count-append, IsValid, moved-IsValid, either-IsValid,
}
use libp2p_rs.Runtime.TaskLimiter.Tasks.{cancelled-IsValid}

module _ (n : ℕ) where
  join_at-IsValid :
      (i : ℕ) (rest : List ℕ) (o : Option Phase) (s : TaskLimiter)
      → get_elem? s.tasks i ≡ o
      → IsValid n s
      → IsValid n (join_at i rest o s)
  unfolding join_at held
  join_at-IsValid i rest none s at h = moved-IsValid n s _ h refl refl (omega arith)
  join_at-IsValid i rest (some p) s at h =
      either-IsValid n (is_over p) _ _ (moved-IsValid n s _ h refl refl (omega arith))
        (either-IsValid n s.terminated _ _ (cancelled-IsValid n i p s at h) h)

  dequeue-IsValid : (q : List ℕ) (s : TaskLimiter) → IsValid n s → IsValid n (dequeue q s)
  unfolding dequeue held
  dequeue-IsValid [] s h =
      either-IsValid n s.queue_closed _ _ (moved-IsValid n s _ h refl refl (omega arith)) h
  dequeue-IsValid (future ∷ rest) s h = moved-IsValid n s _ h refl refl (omega arith)

  acquire-IsValid :
      (m future : ℕ) (s : TaskLimiter) → s.tokens ≡ m → IsValid n s → IsValid n (acquire m future s)
  unfolding acquire held
  acquire-IsValid zero future s at h =
      either-IsValid n s.tokens_closed _ _ (moved-IsValid n s _ h refl refl (omega arith)) h
  acquire-IsValid (suc m) future s at h = moved-IsValid n s _ h refl refl (omega (arith, at))

  started-IsValid :
      (future : ℕ) (s : TaskLimiter)
      → s.main ≡ rechecking future
      → IsValid n s
      → IsValid n (record s {
        task_id = suc s.task_id;
        tasks = s.tasks ++ (created ∷ []);
        main = placing (suc s.task_id);
      })
  unfolding held is_busy has_begun is_done
  started-IsValid future s at h = record {
    bounded = omega (arith, h.bounded, ap held at, count-append is_busy s.tasks created);
    begun = omega (arith, h.begun, count-append has_begun s.tasks created);
    ended = omega (arith, h.ended, count-append is_done s.tasks created);
  }

  pub main_step-IsValid :
      (m : Main) (s : TaskLimiter) → s.main ≡ m → IsValid n s → IsValid n (main_step m s)
  unfolding main_step held
  main_step-IsValid checking s at h =
      either-IsValid n s.terminated _ _ (moved-IsValid n s _ h refl refl (omega arith))
        (moved-IsValid n s _ h refl refl (omega arith))
  main_step-IsValid dequeuing s at h = dequeue-IsValid s.queue s h
  main_step-IsValid (acquiring future) s at h = acquire-IsValid s.tokens future s refl h
  main_step-IsValid (rechecking future) s at h =
      either-IsValid n s.terminated _ _ (moved-IsValid n s _ h refl refl (omega arith))
        (started-IsValid future s at h)
  main_step-IsValid (placing id) s at h = moved-IsValid n s _ h refl refl (omega arith)
  main_step-IsValid exiting s at h = moved-IsValid n s _ h refl refl (omega arith)
  main_step-IsValid (joining []) s at h = moved-IsValid n s _ h refl refl (omega arith)
  main_step-IsValid (joining (id ∷ ids)) s at h = join_at-IsValid (id - 1) ids _ s refl h
  main_step-IsValid exited s at h = h
