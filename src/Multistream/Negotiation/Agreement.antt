-- ===== src/Multistream/Negotiation/Agreement.antt =====
-- The two ends of core/src/multistream/negotiator.rs select one protocol.
use libp2p_rs.Common.{
  ℕ, ◌≡◌, refl, sym, ◌∙◌, ap, subst, true, none, some, Option, List, [], ◌∷◌, All, Option-cases,
  Bool-cases, inl, inr, arith, some_injective, none_not_some, true≢false,
}
use libp2p_rs.Multistream.Uvi.{Uvi}
use libp2p_rs.Multistream.Message.{same_bytes}
use libp2p_rs.Multistream.Negotiator.{Negotiator, find_name, next_round}
use libp2p_rs.Multistream.Negotiation.Joint.{Connection, End, dialing, listening, Steps, connected}
use libp2p_rs.Multistream.Negotiation.Stages.{
  Stage, opened, greeted, greeting, welcomed, round, proposed, replying, rejected, confirmed,
  agreed, gave_up, parted, IsOffer, at, IsStage,
}
use libp2p_rs.Multistream.Negotiation.Verdict.{
  first_common, callers_names, ending, chosen, outcome_name, called, verdict, goal-verdict,
}
use libp2p_rs.Multistream.Negotiation.Settling.{goal, reached}

module _ {A : Type 0} where
  ending-chosen :
      (o : Option (A × A)) (tried : List A) (x y : A)
      → chosen dialing (ending o tried) ≡ some x
      → chosen listening (ending o tried) ≡ some y
      → o ≡ some (x, y)
  unfolding ending chosen outcome_name
  ending-chosen none tried x y hx hy = absurd (none_not_some x hx)
  ending-chosen (some (a, b)) tried x y hx hy =
      rw (some_injective a x hx, some_injective b y hy) refl

-- Each name stands for its bytes.
unfoldable pub IsFaithful : {A : Type 0} → (A → List ℕ) → A × List ℕ → Type 0
IsFaithful as_ref p = p.1 ≡ as_ref p.0

same_bytes-lem : (xs ys : List ℕ) → same_bytes xs ys ≡ true → xs ≡ ys
unfolding same_bytes
same_bytes-lem [] [] h = refl
same_bytes-lem [] (y ∷ ys) h = absurd (true≢false (sym h))
same_bytes-lem (x ∷ xs) [] h = absurd (true≢false (sym h))
same_bytes-lem (x ∷ xs) (y ∷ ys) h = ground (arith, h, same_bytes-lem xs ys)

module _ {A : Type 0} (v : Uvi) (as_ref : A → List ℕ) (ours theirs : Negotiator A) where
  -- An end that has selected a name is at a stage whose goal is an agreement.
  chosen-at :
      (e : End) (s : Stage A) (z : A)
      → chosen e (at v as_ref ours theirs s) ≡ some z
      → (x y : A) × ((goal v as_ref ours theirs s ≡ agreed x y)
          × ((chosen listening (at v as_ref ours theirs s) ≡ some y) × (called e x y ≡ z)))
  unfolding at goal chosen outcome_name next_round called
  chosen-at dialing opened z h = absurd (none_not_some z h)
  chosen-at listening opened z h = absurd (none_not_some z h)
  chosen-at dialing greeted z h = absurd (none_not_some z h)
  chosen-at listening greeted z h = absurd (none_not_some z h)
  chosen-at dialing greeting z h = absurd (none_not_some z h)
  chosen-at listening greeting z h = absurd (none_not_some z h)
  chosen-at dialing welcomed z h = absurd (none_not_some z h)
  chosen-at listening welcomed z h = absurd (none_not_some z h)
  chosen-at dialing (round [] cause) z h = absurd (none_not_some z h)
  chosen-at dialing (round (p ∷ ps) cause) z h = absurd (none_not_some z h)
  chosen-at listening (round ps cause) z h = absurd (none_not_some z h)
  chosen-at dialing (proposed p ps cause) z h = absurd (none_not_some z h)
  chosen-at listening (proposed p ps cause) z h = absurd (none_not_some z h)
  chosen-at dialing (replying p ps cause) z h = absurd (none_not_some z h)
  chosen-at listening (replying p ps cause) z h = absurd (none_not_some z h)
  chosen-at dialing (rejected p ps cause) z h = absurd (none_not_some z h)
  chosen-at listening (rejected p ps cause) z h = absurd (none_not_some z h)
  chosen-at dialing (confirmed y p ps cause) z h = absurd (none_not_some z h)
  chosen-at listening (confirmed y p ps cause) z h = (p.0, y, (refl, (refl, some_injective y z h)))
  chosen-at dialing (agreed x y) z h = (x, y, (refl, (refl, some_injective x z h)))
  chosen-at listening (agreed x y) z h = (x, y, (refl, (refl, some_injective y z h)))
  chosen-at dialing (gave_up cause) z h = absurd (none_not_some z h)
  chosen-at listening (gave_up cause) z h = absurd (none_not_some z h)
  chosen-at dialing (parted cause) z h = absurd (none_not_some z h)
  chosen-at listening (parted cause) z h = absurd (none_not_some z h)

  find_name-lem :
      (qs : List (A × List ℕ)) (p : List ℕ) (y : A)
      → All (IsFaithful as_ref) qs
      → find_name qs p ≡ some y
      → p ≡ as_ref y
  unfolding find_name IsFaithful
  find_name-lem [] p y h e = absurd (none_not_some y e)
  find_name-lem ((name, proto) ∷ qs) p y h e = elim (Bool-cases (same_bytes p proto)) [
    | inl s ↦
        same_bytes-lem p proto s
        ∙ h.0
        ∙ ap as_ref (some_injective name y (sym (rw (s, find_name) refl) ∙ e))
    | inr d ↦ find_name-lem qs p y h.1 (sym (rw (d, find_name) refl) ∙ e)
  ]

  first_common-lem :
      (ps : List (A × List ℕ)) (x y : A)
      → All (IsOffer as_ref) ps
      → All (IsFaithful as_ref) theirs.protocols
      → first_common ps theirs.protocols ≡ some (x, y)
      → as_ref x ≡ as_ref y
  unfolding first_common IsOffer
  first_common-lem [] x y h k e = absurd (none_not_some (x, y) e)
  first_common-lem (p ∷ ps) x y h k e = elim (Option-cases (find_name theirs.protocols p.1)) [
    | inl n ↦ first_common-lem ps x y h.1 k (sym (rw (n, first_common) refl) ∙ e)
    | inr (z, s) ↦
        let pair : (p.0, z) ≡ (x, y) =
          some_injective (p.0, z) (x, y) (sym (rw (s, first_common) refl) ∙ e) in
        sym (ap (λ t. as_ref t.0) pair)
        ∙ sym h.0.0
        ∙ find_name-lem theirs.protocols p.1 z k s
        ∙ ap (λ t. as_ref t.1) pair
  ]

  -- If each offer of the dialer is the bytes of its name and can be read back from its message,
  -- and the protocols of the listener are the bytes of its names, then once either end has
  -- selected a name, at any time, the listener has selected a name of the same bytes as the one
  -- the dialer selects or has selected, and they are the first the two have in common in the order
  -- of the dialer.
  pub agreement :
      (valid : All (IsOffer as_ref) ours.protocols)
      (faithful : All (IsFaithful as_ref) theirs.protocols) (n : ℕ) (c : Connection A) (e : End)
      (z : A)
      → Steps v as_ref ours theirs n connected c
      → chosen e c ≡ some z
      → (x y : A) × ((first_common ours.protocols theirs.protocols ≡ some (x, y))
          × ((as_ref x ≡ as_ref y) × ((chosen listening c ≡ some y) × (called e x y ≡ z))))
  unfolding at IsStage verdict chosen outcome_name
  agreement valid faithful n c e z steps h =
      let r = reached v as_ref ours theirs valid n opened connected c refl tt steps in
      let k = chosen-at e r.stage z (subst (λ x. chosen e x ≡ some z) r.is_at h) in
      let same =
        ap (at v as_ref ours theirs) (sym k.2.0 ∙ r.same_goal)
        ∙ goal-verdict v as_ref ours theirs in
      let first =
        ending-chosen (first_common ours.protocols theirs.protocols) (callers_names ours.protocols)
          k.0 k.1 (ap (chosen dialing) (sym same)) (ap (chosen listening) (sym same)) in
      let same_name = first_common-lem ours.protocols k.0 k.1 valid faithful first in
      let listener_has = subst (λ x. chosen listening x ≡ some k.1) (sym r.is_at) k.2.1.0 in
      (k.0, k.1, (first, (same_name, (listener_has, k.2.1.1))))
