-- ===== src/Multistream/Negotiation/Stages.antt =====
-- The stages a negotiation of core/src/multistream/negotiator.rs goes through: at each of them one
-- end alone can go on.
use libp2p_rs.Common.{
  ℕ, ◌≡◌, refl, sym, Bool, true, false, none, some, Option, arith, List, [], ◌∷◌, ◌++◌,
  if◌then◌else◌, All,
}
use libp2p_rs.Multistream.Uvi.{Uvi}
use libp2p_rs.Multistream.Message.{
  header, not_available, protocol, ok, io_error, encode, decode, same_bytes,
}
use libp2p_rs.Multistream.Single.{IsSingle, decode-protocol}
use libp2p_rs.Multistream.RoundTrip.{IsSendable, decode-encode_message}
use libp2p_rs.Multistream.Negotiator.{
  Negotiator, protocol_error, failed, selected, refused, propose_header, await_version,
  await_answer, dialed, await_header, answer_header, await_request, answer, listened, find_name,
  reply_to, next_round, dialer_action, dialer_sent, dialer_received, dialer_closed, dialer_hangs_up,
  listener_action, listener_sent, listener_received, on_request, listener_hangs_up, hangs_up,
  on_answer, is_header,
}
use libp2p_rs.Multistream.Negotiation.Joint.{
  Connection, connection, End, dialing, listening, arriving, dialer_step, listener_step, step,
}

pub data Stage (A : Type 0) : Type 0 where
  opened greeted greeting welcomed : Stage A
  round : List (A × List ℕ) → List A → Stage A
  proposed replying rejected : A × List ℕ → List (A × List ℕ) → List A → Stage A
  confirmed : A → A × List ℕ → List (A × List ℕ) → List A → Stage A
  agreed : A → A → Stage A
  gave_up parted : List A → Stage A

abbrev pub same_end : End → End → Bool
same_end dialing dialing = true
same_end dialing listening = false
same_end listening dialing = false
same_end listening listening = true

-- An offer is the name it stands for, of the bytes that are read back from its message.
unfoldable pub IsOffer : {A : Type 0} → (A → List ℕ) → A × List ℕ → Type 0
IsOffer as_ref p = (p.1 ≡ as_ref p.0) × IsSingle p.1

pub same_bytes_refl : (xs : List ℕ) → same_bytes xs xs ≡ true
unfolding same_bytes
same_bytes_refl [] = refl
same_bytes_refl (x ∷ xs) = rw (same_bytes_refl xs) (ground arith)

module _ {A : Type 0} (v : Uvi) (as_ref : A → List ℕ) (ours theirs : Negotiator A) where
  unfoldable pub answered : A × List ℕ → Option A
  answered p = find_name theirs.protocols p.1

  unfoldable pub at : Stage A → Connection A
  at opened = connection propose_header await_header [] []
  at greeted = connection await_version await_header (encode v header ∷ []) []
  at greeting = connection await_version answer_header [] []
  at welcomed = connection await_version await_request [] (encode v header ∷ [])
  at (round ps cause) = connection (next_round ps cause) await_request [] []
  at (proposed p ps cause) =
      connection (await_answer p ps cause) await_request (encode v (protocol p.1) ∷ []) []
  at (replying p ps cause) =
      connection (await_answer p ps cause) (answer (reply_to p.1 (answered p)) (answered p)) [] []
  at (rejected p ps cause) =
      connection (await_answer p ps cause) await_request [] (encode v not_available ∷ [])
  at (confirmed y p ps cause) =
      connection (await_answer p ps cause) (listened (selected y)) [] (encode v (protocol p.1) ∷ [])
  at (agreed x y) = connection (dialed (selected x)) (listened (selected y)) [] []
  at (gave_up cause) = connection (dialed (refused (failed cause))) await_request [] []
  at (parted cause) =
      connection (dialed (refused (failed cause))) (listened (refused (protocol_error io_error))) []
        []

  unfoldable pub following : Stage A → Option (End × Stage A)
  following opened = some (dialing, greeted)
  following greeted = some (listening, greeting)
  following greeting = some (listening, welcomed)
  following welcomed = some (dialing, round ours.protocols [])
  following (round [] cause) = some (dialing, gave_up cause)
  following (round (p ∷ ps) cause) = some (dialing, proposed p ps cause)
  following (proposed p ps cause) = some (listening, replying p ps cause)
  following (replying p ps cause) = elim (answered p) [
    | none ↦ some (listening, rejected p ps cause)
    | some y ↦ some (listening, confirmed y p ps cause)
  ]
  following (rejected p ps cause) = some (dialing, round ps (cause ++ (p.0 ∷ [])))
  following (confirmed y p ps cause) = some (dialing, agreed p.0 y)
  following (agreed x y) = none
  following (gave_up cause) = some (listening, parted cause)
  following (parted cause) = none

  -- The offers that are left.
  unfoldable pub IsStage : Stage A → Type 0
  IsStage (round ps cause) = All (IsOffer as_ref) ps
  IsStage (proposed p ps cause) = IsOffer as_ref p × All (IsOffer as_ref) ps
  IsStage (replying p ps cause) = IsOffer as_ref p × All (IsOffer as_ref) ps
  IsStage (rejected p ps cause) = IsOffer as_ref p × All (IsOffer as_ref) ps
  IsStage (confirmed y p ps cause) = IsOffer as_ref p × All (IsOffer as_ref) ps
  IsStage s = Unit

  unfoldable pub moved : End → Option (End × Stage A) → Option (Connection A)
  moved e none = none
  moved e (some (f, s)) = if same_end e f then some (at s) else none

  decoded :
      (p : A × List ℕ) → IsOffer as_ref p → decode v (encode v (protocol p.1)) ≡ ok (protocol p.1)
  unfolding IsOffer
  decoded p h = decode-protocol v p.1 h.1

  header_decoded : decode v (encode v header) ≡ ok header
  unfolding IsSendable
  header_decoded = decode-encode_message v header tt

  refusal_decoded : decode v (encode v not_available) ≡ ok not_available
  unfolding IsSendable
  refusal_decoded = decode-encode_message v not_available tt

  step-replying :
      (e : End) (o : Option A) (p : A × List ℕ) (ps : List (A × List ℕ)) (cause : List A)
      → step v as_ref ours theirs e
          (connection (await_answer p ps cause) (answer (reply_to p.1 o) o) [] [])
        ≡ moved e (elim o [
          | none ↦ some (listening, rejected p ps cause)
          | some y ↦ some (listening, confirmed y p ps cause)
        ])
  unfolding at moved step dialer_step listener_step arriving dialer_action listener_action reply_to
      listener_sent dialer_hangs_up listener_hangs_up
  step-replying dialing none p ps cause = refl
  step-replying dialing (some y) p ps cause = refl
  step-replying listening none p ps cause = refl
  step-replying listening (some y) p ps cause = refl

  -- Where one end is at a stage, the other waits or has ended.
  pub step-at :
      (e : End) (s : Stage A)
      → IsStage s
      → step v as_ref ours theirs e (at s) ≡ moved e (following s)
  unfolding IsStage at moved following step dialer_step listener_step arriving dialer_action
      listener_action reply_to next_round listener_sent dialer_sent dialer_received
      listener_received on_request dialer_closed dialer_hangs_up listener_hangs_up hangs_up
      on_answer is_header answered IsOffer
  step-at dialing opened h = refl
  step-at listening opened h = refl
  step-at dialing greeted h = refl
  step-at listening greeted h = rw header_decoded refl
  step-at dialing greeting h = refl
  step-at listening greeting h = refl
  step-at dialing welcomed h = rw header_decoded refl
  step-at listening welcomed h = refl
  step-at dialing (round [] cause) h = refl
  step-at listening (round [] cause) h = refl
  step-at dialing (round (p ∷ ps) cause) h = refl
  step-at listening (round (p ∷ ps) cause) h = refl
  step-at dialing (proposed p ps cause) h = refl
  step-at listening (proposed p ps cause) h = rw (decoded p h.0) refl
  step-at e (replying p ps cause) h = step-replying e (answered p) p ps cause
  step-at dialing (rejected p ps cause) h = rw refusal_decoded refl
  step-at listening (rejected p ps cause) h = refl
  step-at dialing (confirmed y p ps cause) h =
      rw (decoded p h.0, sym h.0.0, same_bytes_refl p.1) refl
  step-at listening (confirmed y p ps cause) h = refl
  step-at dialing (agreed x y) h = refl
  step-at listening (agreed x y) h = refl
  step-at dialing (gave_up cause) h = refl
  step-at listening (gave_up cause) h = refl
  step-at dialing (parted cause) h = refl
  step-at listening (parted cause) h = refl
