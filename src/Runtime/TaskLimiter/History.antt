-- ===== src/Runtime/TaskLimiter/History.antt =====
-- In any order of the steps of runtime/src/limit.rs no more tasks run than there are tokens.
use libp2p_rs.Common.{ℕ, ◌+◌, ◌≤◌, ◌≡◌, refl, List, [], ◌∷◌, arith}
use libp2p_rs.Runtime.TaskLimiter.{
  Phase, Client, idle, accepting, terminating, closing, gone, TaskLimiter, new_limiter, Move, spawn,
  shutdown, wait, client_goes_on, main_goes_on, task_goes_on, client_step, client_spawn,
  client_shutdown, client_wait, step, run, running_count,
}
use libp2p_rs.Runtime.TaskLimiter.Invariant.{
  count, is_busy, is_running, has_begun, is_done, is_active, IsValid, new_limiter-IsValid,
  kept-IsValid,
}
use libp2p_rs.Runtime.TaskLimiter.Tasks.{task_at-IsValid}
use libp2p_rs.Runtime.TaskLimiter.MainLoop.{main_step-IsValid}

begun_split : (ts : List Phase) → count has_begun ts ≡ count is_active ts + count is_done ts
unfolding has_begun is_active is_done
begun_split [] = refl
begun_split (t ∷ ts) = ground (arith, begun_split ts)

running-le_busy : (ts : List Phase) → count is_running ts ≤ count is_busy ts
unfolding is_running is_busy
running-le_busy [] = omega arith
running-le_busy (t ∷ ts) = ground (arith, running-le_busy ts)

module _ (n : ℕ) where
  client_step-IsValid : (c : Client) (s : TaskLimiter) → IsValid n s → IsValid n (client_step c s)
  unfolding client_step
  client_step-IsValid idle s h = h
  client_step-IsValid accepting s h = record {
    bounded = h.bounded;
    begun = h.begun;
    ended = h.ended;
  }
  client_step-IsValid terminating s h = record {
    bounded = h.bounded;
    begun = h.begun;
    ended = h.ended;
  }
  client_step-IsValid closing s h = record { bounded = h.bounded; begun = h.begun; ended = h.ended }
  client_step-IsValid gone s h = h

  client_spawn-IsValid :
      (c : Client) (future : ℕ) (s : TaskLimiter)
      → IsValid n s
      → IsValid n (client_spawn c future s)
  unfolding client_spawn
  client_spawn-IsValid idle future s h = kept-IsValid n s _ h refl refl refl refl
  client_spawn-IsValid accepting future s h = h
  client_spawn-IsValid terminating future s h = h
  client_spawn-IsValid closing future s h = h
  client_spawn-IsValid gone future s h = h

  client_shutdown-IsValid :
      (c : Client) (s : TaskLimiter) → IsValid n s → IsValid n (client_shutdown c s)
  unfolding client_shutdown
  client_shutdown-IsValid idle s h = kept-IsValid n s _ h refl refl refl refl
  client_shutdown-IsValid accepting s h = h
  client_shutdown-IsValid terminating s h = h
  client_shutdown-IsValid closing s h = h
  client_shutdown-IsValid gone s h = h

  client_wait-IsValid : (c : Client) (s : TaskLimiter) → IsValid n s → IsValid n (client_wait c s)
  unfolding client_wait
  client_wait-IsValid idle s h = kept-IsValid n s _ h refl refl refl refl
  client_wait-IsValid accepting s h = h
  client_wait-IsValid terminating s h = h
  client_wait-IsValid closing s h = h
  client_wait-IsValid gone s h = h

  step-IsValid : (s : TaskLimiter) (m : Move) → IsValid n s → IsValid n (step s m)
  unfolding step
  step-IsValid s (spawn future) h = client_spawn-IsValid s.client future s h
  step-IsValid s shutdown h = client_shutdown-IsValid s.client s h
  step-IsValid s wait h = client_wait-IsValid s.client s h
  step-IsValid s client_goes_on h = client_step-IsValid s.client s h
  step-IsValid s main_goes_on h = main_step-IsValid n s.main s refl h
  step-IsValid s (task_goes_on i e) h = task_at-IsValid n i e _ s refl h

  pub run-IsValid : (s : TaskLimiter) (ms : List Move) → IsValid n s → IsValid n (run s ms)
  unfolding run
  run-IsValid s [] h = h
  run-IsValid s (m ∷ ms) h = run-IsValid (step s m) ms (step-IsValid s m h)

-- What holds of the limiter at any time.
pub record IsLimited (n : ℕ) (s : TaskLimiter) : Type 0 where
  pub few_running : count is_running s.tasks ≤ n
  pub counters : s.stat.executed + s.stat.crashed + s.stat.canceled ≤ s.stat.spawned
  pub true_running : running_count s.stat ≡ count is_active s.tasks

-- In any order of the steps of the client, the main loop and the tasks of a new limiter, with any
-- futures, panics, a wait or a shutdown, no more futures run at a time than the parallelism given,
-- the executed, crashed and cancelled tasks are never more than the spawned ones, and their
-- difference is the number of tasks that have begun and are not done.
pub run-IsLimited : (n : ℕ) (ms : List Move) → IsLimited n (run (new_limiter n) ms)
unfolding running_count
run-IsLimited n ms =
    let h = run-IsValid n (new_limiter n) ms (new_limiter-IsValid n) in
    let s = run (new_limiter n) ms in
    record {
      few_running = omega (arith, h.bounded, running-le_busy s.tasks);
      counters = omega (arith, h.begun, h.ended, begun_split s.tasks);
      true_running = omega (arith, h.begun, h.ended, begun_split s.tasks);
    }
