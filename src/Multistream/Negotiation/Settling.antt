-- ===== src/Multistream/Negotiation/Settling.antt =====
-- The way from each stage of core/src/multistream/negotiator.rs to the last one.
use libp2p_rs.Common.{
  ℕ, zero, suc, ◌+◌, ◌≡◌, refl, sym, ◌∙◌, ap, subst, none, some, Option, List, [], ◌∷◌, ◌++◌, All,
  Option-cases, ◌⊎◌, inl, inr, arith, some_injective, none_not_some,
}
use libp2p_rs.Multistream.Uvi.{Uvi}
use libp2p_rs.Multistream.Negotiator.{Negotiator}
use libp2p_rs.Multistream.Negotiation.Joint.{
  Connection, End, dialing, listening, step, Steps, stay, go,
}
use libp2p_rs.Multistream.Negotiation.Stages.{
  Stage, opened, greeted, greeting, welcomed, round, proposed, replying, rejected, confirmed,
  agreed, gave_up, parted, IsOffer, answered, at, following, IsStage, moved, step-at,
}

module _ {A : Type 0} (v : Uvi) (as_ref : A → List ℕ) (ours theirs : Negotiator A) where
  unfoldable pub goal_of : List (A × List ℕ) → List A → Stage A
  goal_of [] cause = parted cause
  goal_of (p ∷ ps) cause = elim (answered v as_ref ours theirs p) [
    | none ↦ goal_of ps (cause ++ (p.0 ∷ []))
    | some y ↦ agreed p.0 y
  ]

  unfoldable pub goal : Stage A → Stage A
  goal (round ps cause) = goal_of ps cause
  goal (proposed p ps cause) = goal_of (p ∷ ps) cause
  goal (replying p ps cause) = goal_of (p ∷ ps) cause
  goal (rejected p ps cause) = goal_of ps (cause ++ (p.0 ∷ []))
  goal (confirmed y p ps cause) = agreed p.0 y
  goal (agreed x y) = agreed x y
  goal (gave_up cause) = parted cause
  goal (parted cause) = parted cause
  goal s = goal_of ours.protocols []

  -- From the listener's answer to an offer on.
  unfoldable pub left_after : Option A → ℕ → ℕ
  left_after none n = suc (suc n)
  left_after (some y) n = 2

  unfoldable pub left_of : List (A × List ℕ) → ℕ
  left_of [] = 2
  left_of (p ∷ ps) = suc (suc (left_after (answered v as_ref ours theirs p) (left_of ps)))

  -- How often an end still goes on.
  unfoldable pub left : Stage A → ℕ
  left opened = suc (suc (suc (suc (left_of ours.protocols))))
  left greeted = suc (suc (suc (left_of ours.protocols)))
  left greeting = suc (suc (left_of ours.protocols))
  left welcomed = suc (left_of ours.protocols)
  left (round ps cause) = left_of ps
  left (proposed p ps cause) = suc (left_after (answered v as_ref ours theirs p) (left_of ps))
  left (replying p ps cause) = left_after (answered v as_ref ours theirs p) (left_of ps)
  left (rejected p ps cause) = suc (left_of ps)
  left (confirmed y p ps cause) = 1
  left (agreed x y) = 0
  left (gave_up cause) = 1
  left (parted cause) = 0

  -- What a stage leads to.
  pub record Follows (s : Stage A) : Type 0 where
    pub end : End
    pub stage : Stage A
    pub is_following : following v as_ref ours theirs s ≡ some (end, stage)
    pub is_stage : IsStage v as_ref ours theirs stage
    pub same_goal : goal stage ≡ goal s
    pub one_less : left s ≡ suc (left stage)

  IsLast : Stage A → Type 0
  IsLast s = (following v as_ref ours theirs s ≡ none) × ((goal s ≡ s) × (left s ≡ 0))

  follow :
      {s : Stage A} (e : End) (t : Stage A)
      → following v as_ref ours theirs s ≡ some (e, t)
      → IsStage v as_ref ours theirs t
      → goal t ≡ goal s
      → left s ≡ suc (left t)
      → IsLast s ⊎ Follows s
  follow e t n i g l =
      inr
        (record { end = e; stage = t; is_following = n; is_stage = i; same_goal = g; one_less = l })

  module _ (valid : All (IsOffer as_ref) ours.protocols) where
    advance : (s : Stage A) → IsStage v as_ref ours theirs s → IsLast s ⊎ Follows s
    unfolding following goal goal_of left left_of left_after IsStage IsLast
    advance opened h = follow dialing (greeted) refl tt refl refl
    advance greeted h = follow listening (greeting) refl tt refl refl
    advance greeting h = follow listening (welcomed) refl tt refl refl
    advance welcomed h = follow dialing (round ours.protocols []) refl valid refl refl
    advance (round [] cause) h = follow dialing (gave_up cause) refl tt refl refl
    advance (round (p ∷ ps) cause) h = follow dialing (proposed p ps cause) refl h refl refl
    advance (proposed p ps cause) h = follow listening (replying p ps cause) refl h refl refl
    advance (replying p ps cause) h = elim (Option-cases (answered v as_ref ours theirs p)) [
      | inl e ↦
          follow listening (rejected p ps cause) (rw (e, following) refl) h (rw (e, goal_of) refl)
            (rw (e, left_after) refl)
      | inr (y, e) ↦
          follow listening (confirmed y p ps cause) (rw (e, following) refl) h
            (rw (e, goal_of) refl) (rw (e, left_after) refl)
    ]
    advance (rejected p ps cause) h =
        follow dialing (round ps (cause ++ (p.0 ∷ []))) refl h.1 refl refl
    advance (confirmed y p ps cause) h = follow dialing (agreed p.0 y) refl tt refl refl
    advance (agreed x y) h = inl (refl, (refl, refl))
    advance (gave_up cause) h = follow listening (parted cause) refl tt refl refl
    advance (parted cause) h = inl (refl, (refl, refl))

    moved_to :
        (e f : End) (t : Stage A) (c : Connection A)
        → moved v as_ref ours theirs e (some (f, t)) ≡ some c
        → c ≡ at v as_ref ours theirs t
    unfolding moved
    moved_to dialing dialing t c h = sym (some_injective _ c h)
    moved_to dialing listening t c h = absurd (none_not_some c h)
    moved_to listening dialing t c h = absurd (none_not_some c h)
    moved_to listening listening t c h = sym (some_injective _ c h)

    -- A step from a stage leads to the one that follows.
    one_step :
        (e : End) (s : Stage A) (c : Connection A)
        → IsStage v as_ref ours theirs s
        → step v as_ref ours theirs e (at v as_ref ours theirs s) ≡ some c
        → (f : Follows s) × (c ≡ at v as_ref ours theirs f.stage)
    unfolding moved IsLast
    one_step e s c h eq = elim (advance s h) [
      | inl last ↦ absurd (
          none_not_some c (
            ap (moved v as_ref ours theirs e) (sym last.0)
            ∙ sym (step-at v as_ref ours theirs e s h)
            ∙ eq))
      | inr f ↦ (
        f,
        moved_to e f.end f.stage c (
            ap (moved v as_ref ours theirs e) (sym f.is_following)
            ∙ sym (step-at v as_ref ours theirs e s h)
            ∙ eq),
      )
    ]

    same_moved :
        (f : End) (t : Stage A)
        → moved v as_ref ours theirs f (some (f, t)) ≡ some (at v as_ref ours theirs t)
    unfolding moved
    same_moved dialing t = refl
    same_moved listening t = refl

    -- From a stage on the ends come to its goal.
    pub complete :
        (n : ℕ) (s : Stage A)
        → left s ≡ n
        → IsStage v as_ref ours theirs s
        → Steps v as_ref ours theirs n
            (at v as_ref ours theirs s)
            (at v as_ref ours theirs (goal s))
    unfolding IsLast
    complete zero s e h = elim (advance s h) [
      | inl last ↦
          subst
            (λ t.
              Steps v as_ref ours theirs zero (at v as_ref ours theirs s)
                (at v as_ref ours theirs t))
            (sym last.1.0) (stay _)
      | inr f ↦ absurd (omega (arith, e, f.one_less))
    ]
    complete (suc n) s e h = elim (advance s h) [
      | inl last ↦ absurd (omega (arith, e, last.1.1))
      | inr f ↦
          go n f.end _ (at v as_ref ours theirs f.stage) _
            (step-at v as_ref ours theirs f.end s h
              ∙ ap (moved v as_ref ours theirs f.end) f.is_following
              ∙ same_moved f.end f.stage)
            (subst
              (λ t.
                Steps v as_ref ours theirs n (at v as_ref ours theirs f.stage)
                  (at v as_ref ours theirs t))
              f.same_goal (complete n f.stage (omega (arith, e, f.one_less)) f.is_stage))
    ]

    -- Where the ends are after some steps.
    pub record Reached (n : ℕ) (s : Stage A) (c : Connection A) : Type 0 where
      pub stage : Stage A
      pub is_at : c ≡ at v as_ref ours theirs stage
      pub is_stage : IsStage v as_ref ours theirs stage
      pub same_goal : goal stage ≡ goal s
      pub fewer : left s ≡ n + left stage

    pub reached :
        (n : ℕ) (s : Stage A) (b c : Connection A)
        → b ≡ at v as_ref ours theirs s
        → IsStage v as_ref ours theirs s
        → Steps v as_ref ours theirs n b c
        → Reached n s c
    reached n s b c eq h (stay a) = record {
      stage = s;
      is_at = eq;
      is_stage = h;
      same_goal = refl;
      fewer = omega arith;
    }
    reached n s b c eq h (go m e a d z moves rest) =
        let f = one_step e s d h (subst (λ x. step v as_ref ours theirs e x ≡ some d) eq moves) in
        let r = reached m f.0.stage d c f.1 f.0.is_stage rest in
        record {
          stage = r.stage;
          is_at = r.is_at;
          is_stage = r.is_stage;
          same_goal = r.same_goal ∙ f.0.same_goal;
          fewer = omega (arith, r.fewer, f.0.one_less);
        }
