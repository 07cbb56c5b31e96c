-- ===== src/Runtime/Tests.antt =====
-- The theorem on the limiter of tasks in a concrete order of steps.
use libp2p_rs.Common.{◌≡◌, refl, false, List, [], ◌∷◌, All}
use libp2p_rs.Runtime.TaskLimiter.{
  Move, spawn, wait, client_goes_on, main_goes_on, task_goes_on, succeeds, panics, run, new_limiter,
  exited, step, client_spawn, client_wait, client_step, dequeue, acquire, is_over, join_at,
  main_step, completed, is_normal, counted, release, task_step, task_at, new_stat,
}
use libp2p_rs.Runtime.TaskLimiter.Tracked.{is_pending}
use libp2p_rs.Runtime.TaskLimiter.Joined.{run-exited}
use libp2p_rs.Runtime.TaskLimiter.History.{IsLimited, run-IsLimited}

-- With one token the second task is spawned once the first has given it back.
abbrev moves : List Move
moves =
    spawn 7
    ∷ client_goes_on
    ∷ spawn 8
    ∷ main_goes_on
    ∷ main_goes_on
    ∷ main_goes_on
    ∷ main_goes_on
    ∷ task_goes_on 0 succeeds
    ∷ main_goes_on
    ∷ task_goes_on 0 panics
    ∷ task_goes_on 0 succeeds
    ∷ main_goes_on
    ∷ main_goes_on
    ∷ main_goes_on
    ∷ main_goes_on
    ∷ task_goes_on 1 succeeds
    ∷ []

run-IsLimited_example : IsLimited 1 (run (new_limiter 1) moves)
run-IsLimited_example = run-IsLimited 1 moves

-- The main loop waits for the task that it spawned before the queue was closed.
abbrev moves_to_the_end : List Move
moves_to_the_end =
    spawn 7
    ∷ client_goes_on
    ∷ wait
    ∷ main_goes_on
    ∷ main_goes_on
    ∷ main_goes_on
    ∷ main_goes_on
    ∷ main_goes_on
    ∷ task_goes_on 0 succeeds
    ∷ main_goes_on
    ∷ main_goes_on
    ∷ main_goes_on
    ∷ main_goes_on
    ∷ task_goes_on 0 succeeds
    ∷ task_goes_on 0 succeeds
    ∷ task_goes_on 0 succeeds
    ∷ task_goes_on 0 succeeds
    ∷ main_goes_on
    ∷ main_goes_on
    ∷ []

moves_to_the_end-exited : (run (new_limiter 1) moves_to_the_end).main ≡ exited
unfolding run step client_spawn client_wait client_step dequeue acquire is_over join_at main_step
    completed is_normal counted release task_step task_at new_stat new_limiter
moves_to_the_end-exited = refl

run-exited_example : All (λ p. is_pending p ≡ false) (run (new_limiter 1) moves_to_the_end).tasks
run-exited_example = run-exited 1 moves_to_the_end moves_to_the_end-exited
