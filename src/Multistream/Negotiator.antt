-- ===== src/Multistream/Negotiator.antt =====
-- core/src/multistream/negotiator.rs: the listener and the dialer, one state for each `.await`.
use libp2p_rs.Common.{ℕ, Bool, true, false, none, some, Option, List, [], ◌∷◌, ◌++◌, if◌then◌else◌}
use libp2p_rs.Multistream.Message.{
  Message, header, list_protocols, not_available, protocol, protocols, Result, ok, err,
  ProtocolError, invalid_message, try_from, same_bytes,
}

-- The names to choose from, of the caller's type, each with its `Protocol`.
pub record Negotiator (A : Type 0) : Type 0 where
  pub protocols : List (A × List ℕ)

-- What is known of the rejected protocols; the code keeps them as they are printed.
pub data NegotiationError (A : Type 0) : Type 0 where
  protocol_error : ProtocolError → NegotiationError A
  failed : List A → NegotiationError A

pub data Outcome (A : Type 0) : Type 0 where
  selected : A → Outcome A
  refused : NegotiationError A → Outcome A

-- `negotiate`: it receives in the states `await_...` and sends in the states `answer_...`; after
-- `answer` it returns the name, when there is one.
pub data Listener (A : Type 0) : Type 0 where
  await_header answer_header await_request : Listener A
  answer : Message → Option A → Listener A
  listened : Outcome A → Listener A

-- `select_one`: a state of the loop keeps the rounds that are left and the causes so far.
pub data Dialer (A : Type 0) : Type 0 where
  propose_header await_version : Dialer A
  propose : A × List ℕ → List (A × List ℕ) → List A → Dialer A
  await_answer : A × List ℕ → List (A × List ℕ) → List A → Dialer A
  closing : List A → Dialer A
  dialed : Outcome A → Dialer A

-- What an end does next on its socket.
pub data Action : Type 0 where
  send : Message → Action
  receive close stop : Action

unfoldable pub is_header : Message → Bool
is_header header = true
is_header m = false

module _ {A : Type 0} where
  unfoldable pub valid_protocols : (A → List ℕ) → List A → List (A × List ℕ)
  valid_protocols as_ref [] = []
  valid_protocols as_ref (n ∷ ns) = elim (try_from (as_ref n)) [
    | ok p ↦ (n, p) ∷ valid_protocols as_ref ns
    | err e ↦ valid_protocols as_ref ns
  ]

  unfoldable pub new_with_protocols : (A → List ℕ) → List A → Negotiator A
  new_with_protocols as_ref ns = record { protocols = valid_protocols as_ref ns }

  unfoldable pub add_protocol : (A → List ℕ) → Negotiator A → A → Result (Negotiator A)
  add_protocol as_ref n proto = elim (try_from (as_ref proto)) [
    | ok p ↦ ok (record { protocols = n.protocols ++ ((proto, p) ∷ []) })
    | err e ↦ err e
  ]

  -- The `find_map` over the protocols.
  unfoldable pub find_name : List (A × List ℕ) → List ℕ → Option A
  find_name [] p = none
  find_name ((name, proto) ∷ ps) p = if same_bytes p proto then some name else find_name ps p

  unfoldable pub names : List (A × List ℕ) → List (List ℕ)
  names [] = []
  names ((name, proto) ∷ ps) = proto ∷ names ps

  unfoldable pub reply_to : List ℕ → Option A → Message
  reply_to p none = not_available
  reply_to p (some name) = protocol p

  unfoldable pub on_request : Negotiator A → Message → Listener A
  on_request n header = listened (refused (protocol_error invalid_message))
  on_request n list_protocols = answer (protocols (names n.protocols)) none
  on_request n not_available = listened (refused (protocol_error invalid_message))
  on_request n (protocol p) = let found = find_name n.protocols p in answer (reply_to p found) found
  on_request n (protocols ps) = listened (refused (protocol_error invalid_message))

  -- What the listener does with what `recv_message` returns; elsewhere it does not receive.
  unfoldable pub listener_received : Negotiator A → Result Message → Listener A → Listener A
  listener_received n (err e) l = listened (refused (protocol_error e))
  listener_received n (ok m) await_header =
      if is_header m then answer_header else listened (refused (protocol_error invalid_message))
  listener_received n (ok m) await_request = on_request n m
  listener_received n (ok m) l = l

  unfoldable pub listener_action : Listener A → Action
  listener_action await_header = receive
  listener_action answer_header = send header
  listener_action await_request = receive
  listener_action (answer m found) = send m
  listener_action (listened o) = stop

  -- The listener once `send_message` has returned, with an error or with none.
  unfoldable pub listener_sent : Option ProtocolError → Listener A → Listener A
  listener_sent (some e) l = listened (refused (protocol_error e))
  listener_sent none answer_header = await_request
  listener_sent none (answer m none) = await_request
  listener_sent none (answer m (some name)) = listened (selected name)
  listener_sent none l = l

  -- The head of the dialer's loop.
  unfoldable pub next_round : List (A × List ℕ) → List A → Dialer A
  next_round [] cause = closing cause
  next_round (p ∷ ps) cause = propose p ps cause

  unfoldable pub on_answer :
      (A → List ℕ) → A × List ℕ → List (A × List ℕ) → List A → Message → Dialer A
  on_answer as_ref proto ps cause (protocol p) =
      if same_bytes p (as_ref proto.0)
      then dialed (selected proto.0)
      else dialed (refused (protocol_error invalid_message))
  on_answer as_ref proto ps cause not_available = next_round ps (cause ++ (proto.0 ∷ []))
  on_answer as_ref proto ps cause m = dialed (refused (protocol_error invalid_message))

  unfoldable pub dialer_received :
      (A → List ℕ) → Negotiator A → Result Message → Dialer A → Dialer A
  dialer_received as_ref n (err e) d = dialed (refused (protocol_error e))
  dialer_received as_ref n (ok m) await_version =
      if is_header m
      then next_round n.protocols []
      else dialed (refused (protocol_error invalid_message))
  dialer_received as_ref n (ok m) (await_answer proto ps cause) = on_answer as_ref proto ps cause m
  dialer_received as_ref n (ok m) d = d

  unfoldable pub dialer_action : Dialer A → Action
  dialer_action propose_header = send header
  dialer_action await_version = receive
  dialer_action (propose proto ps cause) = send (protocol proto.1)
  dialer_action (await_answer proto ps cause) = receive
  dialer_action (closing cause) = close
  dialer_action (dialed o) = stop

  unfoldable pub dialer_sent : Option ProtocolError → Dialer A → Dialer A
  dialer_sent (some e) d = dialed (refused (protocol_error e))
  dialer_sent none propose_header = await_version
  dialer_sent none (propose proto ps cause) = await_answer proto ps cause
  dialer_sent none d = d

  -- Whatever `close` returns, the causes are returned.
  unfoldable pub dialer_closed : Dialer A → Dialer A
  dialer_closed (closing cause) = dialed (refused (failed cause))
  dialer_closed d = d

  -- An end that returns an error drops its socket.
  unfoldable pub hangs_up : Outcome A → Bool
  hangs_up (selected name) = false
  hangs_up (refused e) = true

  unfoldable pub dialer_hangs_up : Dialer A → Bool
  dialer_hangs_up (dialed o) = hangs_up o
  dialer_hangs_up d = false

  unfoldable pub listener_hangs_up : Listener A → Bool
  listener_hangs_up (listened o) = hangs_up o
  listener_hangs_up l = false
