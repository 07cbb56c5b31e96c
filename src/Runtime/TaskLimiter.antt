-- ===== src/Runtime/TaskLimiter.antt =====
-- runtime/src/limit.rs: `TaskLimiter`, as the steps that its client, its main loop and its tasks make
-- in any order. A step is what one of them does up to its next `.await` or its next access to shared
-- data. A future is a number; how it ends is chosen by the step.
pub mod Invariant
pub mod Tasks
pub mod MainLoop
pub mod History
pub mod Tracked
pub mod Known
pub mod Joined
use libp2p_rs.Common.{
  ℕ, zero, suc, ◌+◌, ◌-◌, Bool, true, false, Option, none, some, List, [], ◌∷◌, ◌++◌, ◌==◌, not,
  ◌||◌, if◌then◌else◌, get_elem?, set, filter,
}

pub record Stat : Type 0 where
  pub accepted : ℕ
  pub spawned : ℕ
  pub executed : ℕ
  pub crashed : ℕ
  pub canceled : ℕ
  pub succeeded : ℕ

-- A task from `task::spawn` on. In `finishing`, `releasing` and `counting` it runs `feedback`, and
-- says whether it came to its end; `dropped` is a task that was cancelled before it began.
pub data Phase : Type 0 where
  created running done dropped : Phase
  finishing releasing counting : Bool → Phase

pub data Client : Type 0 where
  idle accepting terminating closing gone : Client

pub data Main : Type 0 where
  checking dequeuing exiting exited : Main
  acquiring rechecking : (future : ℕ) → Main
  placing : (task_id : ℕ) → Main
  joining : List ℕ → Main

-- The task of identifier `i + 1` is `tasks[i]`.
pub record TaskLimiter : Type 0 where
  pub parallelism : ℕ
  pub queue : List ℕ
  pub queue_closed : Bool
  pub tokens : ℕ
  pub tokens_closed : Bool
  pub terminated : Bool
  pub task_id : ℕ
  pub tasks : List Phase
  pub handles : List ℕ
  pub stat : Stat
  pub client : Client
  pub main : Main

-- `running` of a snapshot whose counters are read at one time.
unfoldable pub running_count : Stat → ℕ
running_count st = st.spawned - st.executed - st.crashed - st.canceled

unfoldable pub new_stat : Stat
new_stat = record {
  accepted = 0;
  spawned = 0;
  executed = 0;
  crashed = 0;
  canceled = 0;
  succeeded = 0;
}

unfoldable pub new_limiter : ℕ → TaskLimiter
new_limiter parallelism = record {
  parallelism = parallelism;
  queue = [];
  queue_closed = false;
  tokens = parallelism;
  tokens_closed = false;
  terminated = false;
  task_id = 0;
  tasks = [];
  handles = [];
  stat = new_stat;
  client = idle;
  main = checking;
}

pub data Ending : Type 0 where
  succeeds fails panics : Ending

pub data Move : Type 0 where
  spawn : ℕ → Move
  shutdown wait client_goes_on main_goes_on : Move
  task_goes_on : ℕ → Ending → Move

-- The rest of `spawn`, of `shutdown` and of `wait`.
unfoldable pub client_step : Client → TaskLimiter → TaskLimiter
client_step idle s = s
client_step accepting s = record s {
  stat = record s.stat { accepted = suc s.stat.accepted };
  client = idle;
}
client_step terminating s = record s { tokens_closed = true; client = closing }
client_step closing s = record s { queue_closed = true; client = gone }
client_step gone s = s

unfoldable pub client_spawn : Client → ℕ → TaskLimiter → TaskLimiter
client_spawn idle future s = record s { queue = s.queue ++ (future ∷ []); client = accepting }
client_spawn c future s = s

unfoldable pub client_shutdown : Client → TaskLimiter → TaskLimiter
client_shutdown idle s = record s { terminated = true; client = terminating }
client_shutdown c s = s

unfoldable pub client_wait : Client → TaskLimiter → TaskLimiter
client_wait idle s = record s { queue_closed = true; client = gone }
client_wait c s = s

unfoldable pub dequeue : List ℕ → TaskLimiter → TaskLimiter
dequeue [] s = if s.queue_closed then record s { main = exiting } else s
dequeue (future ∷ rest) s = record s { queue = rest; main = acquiring future }

unfoldable pub acquire : ℕ → ℕ → TaskLimiter → TaskLimiter
acquire zero future s = if s.tokens_closed then record s { main = exiting } else s
acquire (suc n) future s = record s { tokens = n; main = rechecking future }

unfoldable pub is_over : Phase → Bool
is_over done = true
is_over dropped = true
is_over p = false

-- A future that is dropped at its `.await` drops its guard.
unfoldable pub cancel : Phase → Phase
cancel created = dropped
cancel running = finishing false
cancel p = p

-- `handle.cancel().await` and `handle.await`, on the task at the index.
unfoldable pub join_at : ℕ → List ℕ → Option Phase → TaskLimiter → TaskLimiter
join_at i rest none s = record s { main = joining rest }
join_at i rest (some p) s =
    if is_over p
    then record s { main = joining rest }
    else if s.terminated
    then record s { tasks = set s.tasks i (cancel p) }
    else s

unfoldable pub main_step : Main → TaskLimiter → TaskLimiter
main_step checking s =
    if s.terminated then record s { main = exiting } else record s { main = dequeuing }
main_step dequeuing s = dequeue s.queue s
main_step (acquiring future) s = acquire s.tokens future s
main_step (rechecking future) s = if s.terminated then record s { main = exiting } else record s {
  task_id = suc s.task_id;
  tasks = s.tasks ++ (created ∷ []);
  main = placing (suc s.task_id);
}
main_step (placing id) s = record s { handles = id ∷ s.handles; main = checking }
main_step exiting s = record s { handles = []; main = joining s.handles }
main_step (joining []) s = record s { main = exited }
main_step (joining (id ∷ ids)) s = join_at (id - 1) ids (get_elem? s.tasks (id - 1)) s
main_step exited s = s

unfoldable pub completed : Ending → TaskLimiter → TaskLimiter
completed succeeds s = record s { stat = record s.stat { succeeded = suc s.stat.succeeded } }
completed fails s = s
completed panics s = s

unfoldable pub is_normal : Ending → Bool
is_normal panics = false
is_normal e = true

-- The last access of `feedback`.
unfoldable pub counted : Bool → TaskLimiter → Stat
counted true s = record s.stat { executed = suc s.stat.executed }
counted false s =
    if s.terminated
    then record s.stat { canceled = suc s.stat.canceled }
    else record s.stat { crashed = suc s.stat.crashed }

-- `try_send` of the token: the channel has room for each of its senders, and fails once it is closed.
unfoldable pub release : TaskLimiter → ℕ
release s = if s.tokens_closed then s.tokens else suc s.tokens

unfoldable pub task_step : ℕ → Ending → Phase → TaskLimiter → TaskLimiter
task_step i e created s = record s {
  stat = record s.stat { spawned = suc s.stat.spawned };
  tasks = set s.tasks i running;
}
task_step i e running s =
    let t = completed e s in record t { tasks = set s.tasks i (finishing (is_normal e)) }
task_step i e (finishing normal) s = record s {
  tokens = release s;
  tasks = set s.tasks i (releasing normal);
}
task_step i e (releasing normal) s = record s {
  handles = filter (λ id. not (id == suc i)) s.handles;
  tasks = set s.tasks i (counting normal);
}
task_step i e (counting normal) s = record s { stat = counted normal s; tasks = set s.tasks i done }
task_step i e done s = s
task_step i e dropped s = s

unfoldable pub task_at : ℕ → Ending → Option Phase → TaskLimiter → TaskLimiter
task_at i e none s = s
task_at i e (some p) s = task_step i e p s

unfoldable pub step : TaskLimiter → Move → TaskLimiter
step s (spawn future) = client_spawn s.client future s
step s shutdown = client_shutdown s.client s
step s wait = client_wait s.client s
step s client_goes_on = client_step s.client s
step s main_goes_on = main_step s.main s
step s (task_goes_on i e) = task_at i e (get_elem? s.tasks i) s

unfoldable pub run : TaskLimiter → List Move → TaskLimiter
run s [] = s
run s (m ∷ ms) = run (step s m) ms
