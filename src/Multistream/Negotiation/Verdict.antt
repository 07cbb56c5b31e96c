-- ===== src/Multistream/Negotiation/Verdict.antt =====
-- Each negotiation of core/src/multistream/negotiator.rs comes to its end, and to which one.
use libp2p_rs.Common.{
  ℕ, ◌+◌, ◌*◌, ◌≤◌, ◌≡◌, refl, sym, ◌∙◌, ap, subst, none, some, Option, List, [], ◌∷◌, ◌++◌, length,
  All, Option-cases, inl, inr, append_assoc, arith,
}
use libp2p_rs.Multistream.Uvi.{Uvi}
use libp2p_rs.Multistream.Message.{io_error}
use libp2p_rs.Multistream.Negotiator.{
  Negotiator, protocol_error, failed, Outcome, selected, refused, dialed, listened, find_name,
  dialer_action, listener_action,
}
use libp2p_rs.Multistream.Negotiation.Joint.{
  Connection, connection, End, dialing, listening, step, Steps, connected, IsSettled, dialer_step,
  listener_step,
}
use libp2p_rs.Multistream.Negotiation.Stages.{opened, IsOffer, answered, at, IsStage}
use libp2p_rs.Multistream.Negotiation.Settling.{
  goal, goal_of, left, left_of, left_after, complete, reached,
}

module _ {A : Type 0} where
  -- The dialer's first name that the listener has too, as each of them calls it.
  unfoldable pub first_common : List (A × List ℕ) → List (A × List ℕ) → Option (A × A)
  first_common [] theirs = none
  first_common (p ∷ ps) theirs = elim (find_name theirs p.1) [
    | none ↦ first_common ps theirs
    | some y ↦ some (p.0, y)
  ]

  unfoldable pub callers_names : List (A × List ℕ) → List A
  callers_names [] = []
  callers_names (p ∷ ps) = p.0 ∷ callers_names ps

  -- Both have selected a protocol, or the dialer has failed and the listener has seen it hang up.
  unfoldable pub ending : Option (A × A) → List A → Connection A
  ending (some (x, y)) tried = connection (dialed (selected x)) (listened (selected y)) [] []
  ending none tried =
      connection (dialed (refused (failed tried))) (listened (refused (protocol_error io_error))) []
        []

  unfoldable pub outcome_name : Outcome A → Option A
  outcome_name (selected x) = some x
  outcome_name (refused e) = none

  -- The name an end has selected.
  unfoldable pub chosen : End → Connection A → Option A
  chosen dialing (connection (dialed o) l up down) = outcome_name o
  chosen dialing (connection d l up down) = none
  chosen listening (connection d (listened o) up down) = outcome_name o
  chosen listening (connection d l up down) = none

  -- One name is called `x` by the dialer and `y` by the listener.
  unfoldable pub called : End → A → A → A
  called dialing x y = x
  called listening x y = y

  append_nil : (xs : List A) → xs ++ [] ≡ xs
  append_nil [] = refl
  append_nil (x ∷ xs) = ap (◌∷◌ x) (append_nil xs)

  -- The end of the negotiation.
  unfoldable pub verdict : Negotiator A → Negotiator A → Connection A
  verdict ours theirs =
      ending (first_common ours.protocols theirs.protocols) (callers_names ours.protocols)

module _ {A : Type 0} (v : Uvi) (as_ref : A → List ℕ) (ours theirs : Negotiator A) where
  goal-ending :
      (ps : List (A × List ℕ)) (cause : List A)
      → at v as_ref ours theirs (goal_of v as_ref ours theirs ps cause)
        ≡ ending (first_common ps theirs.protocols) (cause ++ callers_names ps)
  unfolding at goal_of ending first_common callers_names answered
  goal-ending [] cause = rw (append_nil cause) refl
  goal-ending (p ∷ ps) cause = elim (Option-cases (find_name theirs.protocols p.1)) [
    | inl e ↦
        rw (e, goal_of, first_common)
          (goal-ending ps (cause ++ (p.0 ∷ []))
            ∙ ap (ending (first_common ps theirs.protocols))
                (append_assoc cause (p.0 ∷ []) (callers_names ps)))
    | inr (y, e) ↦ rw (e, goal_of, first_common) refl
  ]

  left_of-le : (ps : List (A × List ℕ)) → left_of v as_ref ours theirs ps ≤ 4 * length ps + 2
  unfolding left_of left_after
  left_of-le [] = omega arith
  left_of-le (p ∷ ps) = elim (Option-cases (answered v as_ref ours theirs p)) [
    | inl e ↦ rw (e, left_of) (omega (arith, left_of-le ps))
    | inr (y, e) ↦ rw (e, left_of) (omega arith)
  ]

  ending-IsSettled :
      (o : Option (A × A)) (tried : List A) → IsSettled v as_ref ours theirs (ending o tried)
  unfolding IsSettled ending step dialer_step listener_step dialer_action listener_action
  ending-IsSettled none tried dialing = refl
  ending-IsSettled none tried listening = refl
  ending-IsSettled (some (x, y)) tried dialing = refl
  ending-IsSettled (some (x, y)) tried listening = refl

  pub goal-verdict :
      at v as_ref ours theirs (goal v as_ref ours theirs opened) ≡ verdict ours theirs
  unfolding goal verdict
  goal-verdict = goal-ending ours.protocols []

  -- If each offer of the dialer is the bytes of its name and can be read back from its message,
  -- then after any steps of a dialer and a listener on one connection, in any order, the ends can
  -- go on to the verdict, in which neither can go on; both have then selected the first name of
  -- the dialer that the listener has, or the dialer has failed with all its names and the listener
  -- has seen it hang up; all the steps together are at most six and four for each offer.
  pub settles :
      (valid : All (IsOffer as_ref) ours.protocols) (n : ℕ) (c : Connection A)
      → Steps v as_ref ours theirs n connected c
      → (m : ℕ) × (Steps v as_ref ours theirs m c (verdict ours theirs)
          × ((n + m ≤ 4 * length ours.protocols + 6)
              × IsSettled v as_ref ours theirs (verdict ours theirs)))
  unfolding at IsStage left verdict
  settles valid n c steps =
      let r = reached v as_ref ours theirs valid n opened connected c refl tt steps in
      let rest =
        complete v as_ref ours theirs valid (left v as_ref ours theirs r.stage) r.stage refl
          r.is_stage in
      let last = ap (at v as_ref ours theirs) r.same_goal ∙ goal-verdict in
      (
        left v as_ref ours theirs r.stage,
        (
          subst
              (λ x.
                Steps v as_ref ours theirs (left v as_ref ours theirs r.stage) x
                  (verdict ours theirs))
              (sym r.is_at)
              (subst
                (Steps v as_ref ours theirs (left v as_ref ours theirs r.stage)
                  (at v as_ref ours theirs r.stage))
                last rest),
          (omega (arith, r.fewer, left_of-le ours.protocols), ending-IsSettled _ _),
        ),
      )
