-- ===== src/Multistream/Negotiation/Joint.antt =====
-- The connection between a dialer and a listener (core/src/multistream/negotiator.rs): it carries
-- the bytes of the messages in order, and reports the end of the stream once an end has hung up.
use libp2p_rs.Common.{
  ℕ, zero, suc, ◌≡◌, Bool, none, some, Option, List, [], ◌∷◌, ◌++◌, if◌then◌else◌,
}
use libp2p_rs.Multistream.Uvi.{Uvi}
use libp2p_rs.Multistream.Message.{Message, Result, err, ProtocolError, io_error, encode, decode}
use libp2p_rs.Multistream.Negotiator.{
  Negotiator, Dialer, propose_header, Listener, await_header, Action, send, receive, close, stop,
  dialer_action, dialer_sent, dialer_received, dialer_closed, dialer_hangs_up, listener_action,
  listener_sent, listener_received, listener_hangs_up,
}

-- The two ends, the messages on the way to the listener, and those on the way to the dialer.
pub data Connection (A : Type 0) : Type 0 where
  connection : Dialer A → Listener A → List (List ℕ) → List (List ℕ) → Connection A

pub data End : Type 0 where
  dialing listening : End

-- What sending to an end returns.
abbrev pub sending : Bool → Option ProtocolError
sending hung_up = if hung_up then some io_error else none

-- What receiving returns, with what is left on the way, or `none` while it waits.
unfoldable pub arriving : Uvi → Bool → List (List ℕ) → Option (Result Message × List (List ℕ))
arriving v hung_up [] = if hung_up then some (err io_error, []) else none
arriving v hung_up (frame ∷ frames) = some (decode v frame, frames)

module _ {A : Type 0} (v : Uvi) (as_ref : A → List ℕ) (ours theirs : Negotiator A) where
  unfoldable pub dialer_step :
      Action → Dialer A → Listener A → List (List ℕ) → List (List ℕ) → Option (Connection A)
  dialer_step (send m) d l up down =
      some (
        connection (dialer_sent (sending (listener_hangs_up l)) d) l (up ++ (encode v m ∷ [])) down)
  dialer_step receive d l up down = elim (arriving v (listener_hangs_up l) down) [
    | none ↦ none
    | some (m, rest) ↦ some (connection (dialer_received as_ref ours m d) l up rest)
  ]
  dialer_step close d l up down = some (connection (dialer_closed d) l up down)
  dialer_step stop d l up down = none

  unfoldable pub listener_step :
      Action → Dialer A → Listener A → List (List ℕ) → List (List ℕ) → Option (Connection A)
  listener_step (send m) d l up down =
      some (
        connection d (listener_sent (sending (dialer_hangs_up d)) l) up (down ++ (encode v m ∷ [])))
  listener_step receive d l up down = elim (arriving v (dialer_hangs_up d) up) [
    | none ↦ none
    | some (m, rest) ↦ some (connection d (listener_received theirs m l) rest down)
  ]
  listener_step close d l up down = none
  listener_step stop d l up down = none

  -- One end goes on, when it can.
  unfoldable pub step : End → Connection A → Option (Connection A)
  step dialing (connection d l up down) = dialer_step (dialer_action d) d l up down
  step listening (connection d l up down) = listener_step (listener_action l) d l up down

  -- `Steps n c c'`: the two ends together went on `n` times, in any order.
  pub data Steps : ℕ → Connection A → Connection A → Type 0 where
    stay : (c : Connection A) → Steps zero c c
    go :
        (n : ℕ) (e : End) (c d f : Connection A)
        → step e c ≡ some d
        → Steps n d f
        → Steps (suc n) c f

  -- Neither end can go on.
  unfoldable pub IsSettled : Connection A → Type 0
  IsSettled c = (e : End) → step e c ≡ none

abbrev pub connected : {A : Type 0} → Connection A
connected = connection propose_header await_header [] []
