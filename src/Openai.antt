-- ===== src/Openai.antt =====
-- internal/openai/openai.go: the messages of the data channel, the state that they drive, and the
-- messages that the service sends. A call of a handler is an event; a handler that is not set is
-- not called. The channel and the audio track are parameters of each call: whether they are there,
-- open, and accept what is written.
pub mod Decode
pub mod Items
pub mod Sending
pub mod Ephemeral
pub mod Connect
pub mod Tracks
pub mod Listening
use openai_gate.Base.{
  ℕ, ◌+◌, ◌-◌, ◌/◌, ◌^◌, ◌≡◌, refl, Bool, true, false, List, [], ◌∷◌, ◌++◌, Option, none, some,
  Bytes, bytes_eq, codes, Result, ok, err, ◌>>=◌, ◌>>◌, ltb, eqb, ◌==◌, if◌then◌else◌,
}
use openai_gate.Text.Decimal.Int.{ℤ, pos, negsuc}
use openai_gate.Json.{Json, Members, get_member, as_string, as_object}
use Decode.{Message, decode}

-- Which of the handlers are set.
pub record Handlers : Type 0 where
  pub opus_data : Bool
  pub text_data : Bool
  pub speech_start : Bool
  pub response_done : Bool
  pub response_created : Bool
  pub error : Bool
  pub close : Bool

pub data SendError : Type 0 where
  service_closed : SendError
  no_channel : SendError
  channel_not_open : SendError
  send_failed : SendError
  no_track : SendError
  write_failed : SendError

-- The errors of `Connect`, by the call that fails. A refused request keeps the status and the body.
pub data ConnectError : Type 0 where
  api_key_is_empty : ConnectError
  key_request_failed : ConnectError
  key_refused : ℕ → Bytes → ConnectError
  key_unreadable : ConnectError
  peer_not_created : ConnectError
  peer_is_nil : ConnectError
  channel_not_created : ConnectError
  track_not_created : ConnectError
  track_not_added : ConnectError
  offer_not_created : ConnectError
  local_not_set : ConnectError
  offer_request_failed : ConnectError
  offer_refused : ℕ → Bytes → ConnectError
  answer_unreadable : ConnectError
  remote_not_set : ConnectError

pub data ErrorText : Type 0 where
  unmarshal_failed : ErrorText
  api_error : Bytes → ErrorText
  not_connected : ConnectError → ErrorText
  ice_failed : ErrorText
  peer_connection_failed : ErrorText
  configure_failed : SendError → ErrorText
  channel_failed : Bytes → ErrorText
  read_failed : Bytes → ErrorText

pub data Event : Type 0 where
  speech_started : Event
  response_created : Bytes → Event
  response_finished : Event
  text_received : Event
  errored : ErrorText → Event
  closed_down : Event

pub data Outgoing : Type 0 where
  session_update : Bytes → Outgoing
  response_create : Outgoing
  response_cancel : Outgoing
  item_truncate : Bytes → ℤ → Outgoing

pub record Service : Type 0 where
  pub handlers : Handlers
  pub is_response_playing : Bool
  pub current_item_id : Bytes
  pub closed : Bool
  pub cancelled : Bool
  pub has_channel : Bool
  pub has_connection : Bool
  pub has_track : Bool
  pub prompt : Bytes

abbrev pub when : Bool → Event → List Event
when true e = e ∷ []
when false e = []

-- `data["outer"]["id"]`, where both are there and have the types that the code asks for.
nested_id : Bytes → Members → Option Bytes
nested_id outer ms = elim (as_object (get_member outer ms)) [
  | none ↦ none
  | some inner ↦ as_string (get_member (codes "id") inner)
]

-- The branches `response.created` and `response.output_item.added`.
on_item : Service → Option Bytes → Service × List Event
on_item s none = (s, [])
on_item s (some id) =
    (record s { current_item_id = id }, when s.handlers.response_created (response_created id))

-- The text of an API error: the member `message`, or the raw bytes.
error_text : Members → Bytes → Bytes
error_text ms raw = elim (as_string (get_member (codes "message") ms)) [
  | none ↦ raw
  | some text ↦ text
]

-- The types that `handleMessage` passes to the text handler.
is_text_type : Bytes → Bool
is_text_type t =
    if t == codes "conversation.item.input_audio_transcription.delta"
    then true
    else if t == codes "conversation.item.input_audio_transcription.completed"
    then true
    else if t == codes "response.audio_transcript.delta"
    then true
    else if t == codes "response.audio_transcript.done"
    then true
    else if t == codes "response.content_part.done"
    then true
    else t == codes "response.output_item.done"

-- `handleMessage`; a type that no case names, or whose case is empty, changes nothing.
unfoldable pub handle_message : Service → Message → Bytes → Service × List Event
unfolding nested_id on_item error_text is_text_type
handle_message s msg raw =
    if msg.type == codes "input_audio_buffer.speech_started"
    then (s, when s.handlers.speech_start speech_started)
    else if msg.type == codes "response.created"
    then on_item s (nested_id (codes "response") msg.fields)
    else if msg.type == codes "response.output_item.added"
    then on_item s (nested_id (codes "item") msg.fields)
    else if msg.type == codes "response.audio.delta"
    then (record s { is_response_playing = true }, [])
    else if msg.type == codes "response.done"
    then (
      record s { is_response_playing = false; current_item_id = [] },
      when s.handlers.response_done response_finished,
    )
    else if msg.type == codes "response.cancelled"
    then (record s { is_response_playing = false; current_item_id = [] }, [])
    else if is_text_type msg.type
    then (s, when s.handlers.text_data text_received)
    else if msg.type == codes "error"
    then (s, when s.handlers.error (errored (api_error (error_text msg.fields raw))))
    else (s, [])

-- `handleDataChannelMessage`, after the bytes have been read as a JSON value.
unfoldable pub handle_data_channel_message : Service → Option Json → Bytes → Service × List Event
handle_data_channel_message s none raw = (s, when s.handlers.error (errored unmarshal_failed))
handle_data_channel_message s (some v) raw = elim (decode v) [
  | none ↦ (s, when s.handlers.error (errored unmarshal_failed))
  | some msg ↦ handle_message s msg raw
]

-- What the data channel does with a message: its state, and whether `Send` succeeds.
pub record Channel : Type 0 where
  pub is_open : Bool
  pub accepts : Outgoing → Bool

unfoldable pub send_message : Service → Channel → Outgoing → Result SendError (List Outgoing)
send_message s ch msg =
    if s.closed
    then err service_closed
    else if s.has_channel
    then (if ch.is_open
        then (if ch.accepts msg then ok (msg ∷ []) else err send_failed)
        else err channel_not_open)
    else err no_channel

-- `x / 24` of an int64 whose bits are `x`: Go's division rounds towards zero.
unfoldable pub div24 : ℕ → ℤ
div24 x =
    if ltb x (2 ^ 63)
    then pos (x / 24)
    else (let q = (2 ^ 64 - x) / 24 in if eqb q 0 then pos 0 else negsuc (q - 1))

-- The messages that were sent before an error stopped the call stay sent.
pub record Interrupted : Type 0 where
  pub service : Service
  pub sent : List Outgoing
  pub outcome : Result SendError (Unit {0})

truncate_item : Service → Channel → Bytes → ℕ → Interrupted
truncate_item s ch item played = elim (send_message s ch (item_truncate item (div24 played))) [
  | ok out ↦ record { service = s; sent = response_cancel ∷ out; outcome = ok tt }
  | err e ↦ record { service = s; sent = response_cancel ∷ []; outcome = err e }
]

unfoldable pub interrupt_response : Service → Channel → Bytes → ℕ → Interrupted
unfolding truncate_item
interrupt_response s ch item played =
    if s.closed
    then record { service = s; sent = []; outcome = err service_closed }
    else (let stopped = record s { is_response_playing = false } in
        elim (send_message stopped ch response_cancel) [
          | err e ↦ record { service = stopped; sent = []; outcome = err e }
          | ok out ↦
              if item == []
              then record { service = stopped; sent = out; outcome = ok tt }
              else truncate_item stopped ch item played
        ])

-- `configure`: the session's settings, then the request for a first response.
unfoldable pub configure : Service → Channel → Result SendError (List Outgoing)
configure s ch = do
  first ← send_message s ch (session_update s.prompt)
  second ← send_message s ch response_create
  ok (first ++ second)

-- `SendOpusAudio`; the flag says whether the track accepts the sample.
unfoldable pub send_opus_audio : Service → Bool → Bytes → Result SendError (Unit {0})
send_opus_audio s accepts frame =
    if s.closed
    then err service_closed
    else if s.has_track
    then (if accepts then ok tt else err write_failed)
    else err no_track

-- `Close`: only the first call does anything.
unfoldable pub close : Service → Service × List Event
close s = if s.closed then (s, []) else (
  record s { closed = true; cancelled = true; has_channel = false; has_connection = false },
  when s.handlers.close closed_down,
)
