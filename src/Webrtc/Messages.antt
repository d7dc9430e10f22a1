-- ===== src/Webrtc/Messages.antt =====
-- internal/webrtc/webrtc.go: the loop that reads a web socket, and the close at its end.
use openai_gate.Base.{
  Bool, true, false, List, [], ◌∷◌, ◌++◌, Option, none, some, Bytes, bytes_eq, ok, err,
  if◌then◌else◌,
}
use openai_gate.Base.Assoc.{lookup, insert}
use openai_gate.Mdbx.{Mdbx}
use openai_gate.Bridge.Sessions.{Notice}
use openai_gate.Webrtc.{WebrtcEndpoint, WebrtcService, close}
use openai_gate.Webrtc.Signaling.{
  SignalingMessage, SignalingWorld, Handled, handle_signaling_message,
}

-- What a round finds: whether the endpoint's context is done, the message that was read or a
-- failed read, and what the library answers while the message is handled.
pub record MessageRound : Type 0 where
  pub is_done : Bool
  pub read : Option SignalingMessage
  pub world : SignalingWorld

-- An endpoint after some rounds, the messages written, and whether the loop has returned.
pub record Reading : Type 0 where
  pub endpoint : WebrtcEndpoint
  pub sent : List SignalingMessage
  pub ended : Bool

abbrev pub ends : WebrtcEndpoint → Reading
ends e = record { endpoint = e; sent = []; ended = true }

-- A message was handled; `later` are the rounds behind it.
after_message : Handled → Reading → Reading
after_message h later = elim h.outcome [
  | ok _ ↦ record later { sent = h.sent ++ later.sent }
  | err e ↦ record { endpoint = h.endpoint; sent = h.sent; ended = true }
]

unfoldable pub message_loop : WebrtcEndpoint → List MessageRound → Reading
unfolding after_message
message_loop e [] = record { endpoint = e; sent = []; ended = false }
message_loop e (r ∷ rounds) = if r.is_done then ends e else elim r.read [
  | none ↦ ends e
  | some msg ↦
      let h = handle_signaling_message e r.world msg in
      after_message h (message_loop h.endpoint rounds)
]

module _ (m : Mdbx) where
  -- What `handleMessages` leaves once its loop has returned, which closes the endpoint, or after
  -- the rounds so far.
  pub record Served : Type 0 where
    pub service : WebrtcService m
    pub notices : List Notice
    pub sent : List SignalingMessage

  left : WebrtcService m → Bytes → Reading → Served
  left s id r =
      let (b, told, e) = close s.bridge r.endpoint in
      if r.ended
      then record {
        service = record s { endpoints = insert id e s.endpoints; bridge = b };
        notices = told;
        sent = r.sent;
      }
      else record {
        service = record s { endpoints = insert id r.endpoint s.endpoints };
        notices = [];
        sent = r.sent;
      }

  -- `handleMessages` of the endpoint that the table has under the id.
  unfoldable pub handle_messages : WebrtcService m → Bytes → List MessageRound → Served
  unfolding message_loop left
  handle_messages s id rounds = elim (lookup id s.endpoints) [
    | none ↦ record { service = s; notices = []; sent = [] }
    | some e ↦ left s id (message_loop e rounds)
  ]
