-- ===== src/App/Steps.antt =====
-- cmd/openai-gate/main.go: the running program, one call of a handler at a time.
use openai_gate.Base.{
  ℕ, zero, suc, Bool, List, [], ◌∷◌, Option, none, some, Bytes, bytes_eq, Result,
}
use openai_gate.Base.Assoc.{lookup, insert}
use openai_gate.Text.Decimal.Int.{ℤ}
use openai_gate.Mdbx.{Mdbx}
use openai_gate.Openai.{Service, Channel, handle_data_channel_message}
use openai_gate.Api
use openai_gate.Bridge.Sessions.{
  Session, Notice, Round, process_incoming_opus, process_opus_output, on_opus_data, on_error,
  on_close, on_response_done, on_response_created, on_speech_start, clear_buffers,
}
use openai_gate.Sip.Rtp.{RtpFormat, Endpoint}
use openai_gate.Sip.Receive.{Read, RoundResult, process_rtp}
use openai_gate.Sip.Server
use openai_gate.Sip.Server.{Invite, InviteWorld}
use openai_gate.Json.{Json}
use openai_gate.Transcript.{on_text_data}
use openai_gate.Webrtc
use openai_gate.Webrtc.Messages.{MessageRound, handle_messages}
use openai_gate.App.{App, web_service, after_web, after_sip, deliver, after_session}

-- A request of the HTTP interface that writes to the store.
pub data Request : Type 0 where
  set_context : Bytes → Option Bytes → Request
  delete_context : Bytes → Request
  delete_record : Bytes → Bytes → Request
  delete_transcript : Bytes → Request

-- A call that the program handles: a request of the HTTP interface or of the SIP peer, a web socket, its messages or its end,
-- a round of the loop that reads an endpoint's socket, an audio frame of either side, an event of the
-- voice service or a message of its data channel, whose events are actions of their own, the end of the
-- wait before a buffer is cleared, or the goroutine of a notice, by its place among those that are pending.
pub data Action : Type 0 where
  invited : Invite → InviteWorld → Action
  acked : Bytes → ℤ → Result (Bytes × Service) (Unit {0}) → Action
  hung_up : Bytes → Action
  browser_came : Bool → ℤ → Bytes → ℤ → Result (Bytes × Service) (Unit {0}) → Action
  browser_wrote : Bytes → List MessageRound → Action
  browser_left : Bytes → Action
  socket_read : RtpFormat → Bytes → Read → Bool → ℤ → Bool → Action
  frame_in : Bytes → ℤ → Bool → Bytes → Action
  voice_frame : Bytes → Bytes → Action
  voice_played : Bytes → Round → Action
  voice_item : Bytes → Bytes → Action
  voice_text : Bytes → Option Json → ℤ → Action
  voice_done : Bytes → Action
  voice_failed : Bytes → Bytes → Action
  voice_closed : Bytes → Action
  voice_speech : Bytes → Channel → Action
  voice_message : Bytes → Option Json → Bytes → Action
  buffer_cleared : Bytes → Action
  requested : Request → Action
  delivered : ℕ → ℤ → Action

-- The notice at a place, and the others.
unfoldable pub pick : ℕ → List Notice → Option (Notice × List Notice)
pick n [] = none
pick zero (x ∷ xs) = some (x, xs)
pick (suc n) (x ∷ xs) = elim (pick n xs) [ none ↦ none | some (y, ys) ↦ some (y, x ∷ ys) ]

-- A message of the data channel, which changes what the service keeps.
unfoldable pub message_read : Session → Option Json → Bytes → Session
message_read x v raw = record x { service = (handle_data_channel_message x.service v raw).0 }

module _ (m : Mdbx) where
  -- A session is shared by its pointer: what an operation leaves of it stands in the bridge. What a
  -- session does that the bridge has lost is not followed: it is inactive, but its goroutine may
  -- still take frames from its buffer.
  unfoldable pub at_session : App m → Bytes → (Session → Session × List Notice) → App m
  at_session a id f = elim (lookup id a.server.bridge.sessions) [
    | none ↦ a
    | some x ↦ after_session m a id (f x)
  ]

  deliver_picked : App m → Option (Notice × List Notice) → ℤ → App m
  deliver_picked a none now = a
  deliver_picked a (some (n, rest)) now = deliver m (record a { pending = rest }) n now

  -- A server whose endpoint a round of its receiving loop has left.
  abbrev pub after_read : App m → Bytes → RoundResult → App m
  after_read a id r = record a {
    server = record a.server {
      endpoints = insert id r.endpoint a.server.endpoints;
      counters = r.counters;
    };
  }

  -- `ProcessIncomingOpus` of the payload of a packet, if there is one.
  abbrev pub taken_in : App m → Bytes → ℤ → Bool → Option Bytes → App m
  taken_in a id now accepts none = a
  taken_in a id now accepts (some frame) =
      at_session a id (λ x. process_incoming_opus a.server.bridge.hooks x now accepts frame)

  -- A round of the loop of an endpoint that the table has.
  unfoldable pub read_found :
      App m → RtpFormat → Bytes → Option Endpoint → Read → Bool → ℤ → Bool → App m
  unfolding at_session
  read_found a rtp id none read writes now accepts = a
  read_found a rtp id (some e) read writes now accepts =
      let r = process_rtp rtp read writes e a.server.counters in
      taken_in (after_read a id r) e.id now accepts r.forwarded

  -- What a request of the HTTP interface leaves of the store.
  unfoldable pub after_request : m.Txn → Request → m.Txn
  after_request db (set_context id text) = (Api.set_context m db id text).0
  after_request db (delete_context id) = (Api.delete_context m db id).0
  after_request db (delete_record id source) = (Api.delete_record m db id source).0
  after_request db (delete_transcript id) = (Api.delete_transcript m db id).0

  unfoldable pub step : App m → Action → App m
  unfolding at_session deliver_picked read_found after_request message_read
  step a (invited r w) =
      let h = Server.handle_invite m a.server r w in after_sip m a h.server h.notices
  step a (acked id now connects) =
      let h = Server.handle_ack m a.server id now connects in after_sip m a h.server h.notices
  step a (hung_up id) = let h = Server.handle_bye m a.server id in after_sip m a h.server h.notices
  step a (browser_came upgrades now user created connects) =
      let o = Webrtc.handle_web_socket m (web_service m a) upgrades now user created connects in
      after_web m a o.service o.notices
  step a (browser_wrote id rounds) =
      let s = handle_messages m (web_service m a) id rounds in after_web m a s.service s.notices
  step a (browser_left id) =
      let (s, told) = Webrtc.remove_endpoint m (web_service m a) id in after_web m a s told
  step a (socket_read rtp id read writes now accepts) =
      read_found a rtp id (lookup id a.server.endpoints) read writes now accepts
  step a (frame_in id now accepts frame) =
      at_session a id (λ x. process_incoming_opus a.server.bridge.hooks x now accepts frame)
  step a (voice_frame id frame) = at_session a id (λ x. (on_opus_data x frame, []))
  step a (voice_played id r) = at_session a id (λ x. process_opus_output a.server.bridge.hooks x r)
  step a (voice_item id item) = at_session a id (λ x. (on_response_created x item, []))
  step a (voice_text id v now) = record a {
    server = record a.server { db = on_text_data m a.server.db id v now };
  }
  step a (voice_done id) = at_session a id (λ x. (on_response_done x, []))
  step a (voice_failed id text) = at_session a id (λ x. (x, on_error a.server.bridge.hooks x text))
  step a (voice_closed id) = at_session a id (λ x. (x, on_close a.server.bridge.hooks x))
  step a (voice_speech id ch) = at_session a id (λ x. ((on_speech_start x ch).0, []))
  step a (voice_message id v raw) = at_session a id (λ x. (message_read x v raw, []))
  step a (buffer_cleared id) = at_session a id (λ x. (clear_buffers x, []))
  step a (requested q) = record a { server = record a.server { db = after_request a.server.db q } }
  step a (delivered n now) = deliver_picked a (pick n a.pending) now

  -- The program after some actions.
  unfoldable pub run : App m → List Action → App m
  unfolding step
  run a [] = a
  run a (x ∷ xs) = run (step a x) xs
