-- ===== src/Kad/Query/Progress.antt =====
-- The loop of `IterativeQuery::run` of protocols/kad/src/query.rs: it neither panics nor waits for
-- nobody.
use Prim.Native.Nat.{min}
use libp2p_rs.Common.{
  ℕ, ◌+◌, ◌-◌, ◌≤◌, ◌<◌, ◌≡◌, refl, true, false, inl, inr, some, List, [], ◌∷◌, if◌then◌else◌,
  length, arith, Bool-cases,
}
use libp2p_rs.Kad.Key.{U256}
use libp2p_rs.Kad.Query.{not_contacted, waiting, same_state}
use libp2p_rs.Kad.Query.Peers.{
  Peers, ClosestPeers, num_of_state, num_of_states, is_starved, can_terminate, one_of, count_if,
  mark_waiting, jobs_of,
}
use libp2p_rs.Kad.Query.PeersLaws.{
  IsSorted, mark_waiting-IsSorted, count_if-mark_waiting, length-jobs_of, not_contacted_not_waiting,
}
use libp2p_rs.Kad.Query.Update.{QueryUpdate, QueryResult, Handled}
use libp2p_rs.Kad.Query.Round.{
  QueryConfig, IterativeQuery, checked_sub, Outcome, ended, running, panicked, initial_result,
  initial_peers, seed_update, start_jobs, round, run_loop,
}
use libp2p_rs.Kad.Query.Bounded.{is_iterative, IsBounded, handle_update-IsBounded}

-- The query goes on only when an answer is on its way, and it does not panic.
pub IsSound : ℕ → Outcome → Type 0
IsSound alpha (ended r c) = IsSorted c.closest_peers
IsSound alpha (running jobs r c) = IsBounded alpha c × (0 < num_of_state c waiting)
IsSound alpha panicked = true ≡ false

count_pending :
    (m : Peers)
    → count_if (one_of (not_contacted ∷ waiting ∷ [])) m
      ≡ count_if (λ s. same_state s not_contacted) m + count_if (λ s. same_state s waiting) m
unfolding count_if
count_pending [] = refl
count_pending ((d, q) ∷ m) = elim (Bool-cases (same_state q.state not_contacted)) [
  | inl t ↦ rw (t, not_contacted_not_waiting q.state t, count_if) (omega (arith, count_pending m))
  | inr f ↦ elim (Bool-cases (same_state q.state waiting)) [
    | inl t ↦ rw (f, t, count_if) (omega (arith, count_pending m))
    | inr g ↦ rw (f, g, count_if) (count_pending m)
  ]
]

-- What the counts before and after the start of the jobs say.
after_jobs :
    (alpha w n jobs after : ℕ)
    → 0 < alpha
    → w ≤ alpha
    → 0 < n + w
    → jobs ≡ min (alpha - w) n
    → after ≡ w + jobs
    → (after ≤ alpha) × (0 < after)
after_jobs alpha w n jobs after pos le ne b c = (omega arith, omega arith)

pending_of :
    (c : ClosestPeers)
    → is_starved c ≡ false
    → 0 < num_of_state c not_contacted + num_of_state c waiting
unfolding is_starved num_of_states num_of_state
pending_of c h = ground (arith, count_pending c.closest_peers, h)

checked_sub-some : (a b : ℕ) → b ≤ a → checked_sub a b ≡ some (a - b)
unfolding checked_sub
checked_sub-some a b h = ground arith

module _ (cfg : QueryConfig) (r : QueryResult) (c : ClosestPeers) where
  jobs_started :
      0 < cfg.alpha_value
      → IsBounded cfg.alpha_value c
      → is_starved c ≡ false
      → IsSound cfg.alpha_value (
          running (jobs_of (cfg.alpha_value - num_of_state c waiting) c.closest_peers) r (record c {
            closest_peers = mark_waiting (cfg.alpha_value - num_of_state c waiting) c.closest_peers;
          }))
  unfolding IsSound IsBounded num_of_state
  jobs_started pos b s =
      let num_jobs = cfg.alpha_value - num_of_state c waiting in
      let counts =
        after_jobs cfg.alpha_value (num_of_state c waiting) (num_of_state c not_contacted)
          (length (jobs_of num_jobs c.closest_peers))
          (count_if (λ t. same_state t waiting) (mark_waiting num_jobs c.closest_peers)) pos b.1
          (pending_of c s) (length-jobs_of num_jobs c.closest_peers)
          (count_if-mark_waiting num_jobs c.closest_peers) in
      ((mark_waiting-IsSorted num_jobs c.closest_peers b.0, counts.0), counts.1)

  start_jobs-IsSound :
      0 < cfg.alpha_value
      → IsBounded cfg.alpha_value c
      → IsSound cfg.alpha_value (start_jobs cfg r c)
  unfolding start_jobs IsSound IsBounded
  start_jobs-IsSound pos b = elim (Bool-cases (is_starved c)) [
    | inl t ↦ rw t b.0
    | inr f ↦ elim (Bool-cases (can_terminate c cfg.beta_value)) [
      | inl t ↦ rw (f, t) b.0
      | inr g ↦
          rw (f, g, checked_sub-some cfg.alpha_value (num_of_state c waiting) b.1)
            (jobs_started pos b f)
    ]
  ]

handled-IsSound :
    (cfg : QueryConfig) (h : Handled)
    → 0 < cfg.alpha_value
    → IsBounded cfg.alpha_value h.peers
    → IsSound cfg.alpha_value
        (if h.done then ended h.result h.peers else start_jobs cfg h.result h.peers)
unfolding IsSound IsBounded
handled-IsSound cfg h pos b = elim (Bool-cases h.done) [
  | inl t ↦ rw t b.0
  | inr f ↦ rw f (start_jobs-IsSound cfg h.result h.peers pos b)
]

module _ (u : U256) (digest : ℕ → ℕ) (q : IterativeQuery) where
  round-IsSound :
      (update : QueryUpdate) (r : QueryResult) (c : ClosestPeers)
      → is_iterative q.query_type ≡ true
      → 0 < q.config.alpha_value
      → IsBounded q.config.alpha_value c
      → IsSound q.config.alpha_value (round u digest q update r c)
  unfolding round
  round-IsSound update r c i pos b =
      let h =
        handle_update-IsBounded u digest q.config.alpha_value q.local_id q.config.k_value
          q.query_type update r c i b in
      rw (h.1.0, round) (handled-IsSound q.config h.0 pos h.1.1)

  continued-IsSound :
      (updates : List QueryUpdate) (o : Outcome)
      → is_iterative q.query_type ≡ true
      → 0 < q.config.alpha_value
      → IsSound q.config.alpha_value o
      → IsSound q.config.alpha_value (elim o [
        | running jobs result peers ↦ run_loop u digest q updates result peers
        | other ↦ other
      ])
  unfolding run_loop IsSound
  continued-IsSound updates (ended r c) i pos h = h
  continued-IsSound updates panicked i pos h = h
  continued-IsSound [] (running jobs r c) i pos h = h
  continued-IsSound (update ∷ updates) (running jobs r c) i pos h =
      continued-IsSound updates (round u digest q update r c) i pos
        (round-IsSound update r c i pos h.0)

  -- For every hash, query of an iterative type with an alpha above 0, seeds and sequence of
  -- updates, the loop of the query does not panic: it leaves with its peers in order of distance,
  -- or it goes on with its peers in order and between 1 and alpha of them waited for.
  pub run_loop-IsSound :
      (get_addrs : ℕ → List ℕ) (seeds : List ℕ) (updates : List QueryUpdate) (target : ℕ)
      → is_iterative q.query_type ≡ true
      → 0 < q.config.alpha_value
      → IsSound q.config.alpha_value (
          run_loop u digest q
            (seed_update q get_addrs seeds ∷ updates)
            (initial_result q.query_type)
            (initial_peers target))
  unfolding run_loop initial_peers IsBounded IsSorted num_of_state count_if
  run_loop-IsSound get_addrs seeds updates target i pos =
      let update = seed_update q get_addrs seeds in
      let r = initial_result q.query_type in
      continued-IsSound updates (round u digest q update r (initial_peers target)) i pos
        (round-IsSound update r (initial_peers target) i pos (tt, omega arith))
