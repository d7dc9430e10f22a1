-- ===== src/Bridge/Sessions.antt =====
-- One bridge session: the packet handlers, the audio in both directions, and what the service's
-- events do to it (internal/bridge/bridge.go).
use openai_gate.Base.{
  ℕ, ◌+◌, ◌%◌, ◌^◌, Bool, true, false, ◌&&◌, List, [], ◌∷◌, ◌++◌, Bytes, codes, Result, ok, err,
  ltb, length, if◌then◌else◌,
}
use openai_gate.Text.Decimal.Int.{ℤ}
use openai_gate.Openai
use openai_gate.Openai.{Service, Channel, Outgoing, SendError}

-- The two sources of internal/controllers/consts.go.
abbrev pub ai_source : Bytes
ai_source = codes "assistant"

abbrev pub user_source : Bytes
user_source = codes "user"

-- Which of the bridge's handlers are set.
pub record Hooks : Type 0 where
  pub incoming : Bool
  pub outgoing : Bool
  pub session_end : Bool

pub record Metadata : Type 0 where
  pub session_id : Bytes
  pub timestamp : ℤ
  pub direction : Bytes
  pub packet_size : ℕ
  pub sequence_num : ℕ

pub data Reason : Type 0 where
  openai_error : Bytes → Reason
  openai_connection_closed : Reason
  manual_removal : Reason
  bridge_shutdown : Reason
  other_reason : Bytes → Reason

pub data Notice : Type 0 where
  incoming_packet : Metadata → Bytes → Notice
  outgoing_packet : Metadata → Bytes → Notice
  ended : Bytes → Reason → Notice

pub record Session : Type 0 where
  pub id : Bytes
  pub identifier : Bytes
  pub is_active : Bool
  pub cancelled : Bool
  pub has_endpoint : Bool
  pub is_response_playing : Bool
  pub audio_sample_count : ℕ
  pub played_sample_count : ℕ
  pub current_item_id : Bytes
  pub input_packet_count : ℕ
  pub output_packet_count : ℕ
  pub opus_frame_count : ℕ
  pub incoming_seq_num : ℕ
  pub outgoing_seq_num : ℕ
  pub opus_buffer : List Bytes
  pub service : Service

-- `atomic.AddInt64` on the bits of an int64.
abbrev pub add64 : ℕ → ℕ → ℕ
add64 a b = (a + b) % 2 ^ 64

-- The capacity of the frame buffer.
abbrev pub buffer_size : ℕ
buffer_size = 2000

unfoldable pub metadata_of : Session → ℤ → Bytes → Bytes → ℕ → Metadata
metadata_of s now direction frame seq = record {
  session_id = s.id;
  timestamp = now;
  direction = direction;
  packet_size = length frame;
  sequence_num = seq;
}

unfoldable pub call_incoming_opus_handler : Hooks → Session → ℤ → Bytes → Session × List Notice
unfolding metadata_of
call_incoming_opus_handler h s now frame =
    let seq = add64 s.incoming_seq_num 1 in
    if h.incoming
    then (
      record s { incoming_seq_num = seq },
      incoming_packet (metadata_of s now user_source frame seq) frame ∷ [],
    )
    else (s, [])

unfoldable pub call_outgoing_opus_handler : Hooks → Session → ℤ → Bytes → Session × List Notice
unfolding metadata_of
call_outgoing_opus_handler h s now frame =
    let seq = add64 s.outgoing_seq_num 1 in
    if h.outgoing
    then (
      record s { outgoing_seq_num = seq },
      outgoing_packet (metadata_of s now ai_source frame seq) frame ∷ [],
    )
    else (s, [])

-- `callSessionEndHandler`
unfoldable pub notify_end : Hooks → Session → Reason → List Notice
notify_end h s reason = if h.session_end then ended s.id reason ∷ [] else []

-- A frame that the service took is counted.
unfoldable pub count_input : Session → Result SendError (Unit {0}) → Session
count_input s (ok _) = record s { input_packet_count = add64 s.input_packet_count 1 }
count_input s (err e) = s

-- `ProcessIncomingOpus`; `accepts` is what the service's track does with the sample.
unfoldable pub process_incoming_opus : Hooks → Session → ℤ → Bool → Bytes → Session × List Notice
unfolding call_incoming_opus_handler count_input
process_incoming_opus h s now accepts frame =
    let (s', told) = call_incoming_opus_handler h s now frame in
    if s.is_active
    then (count_input s' (Openai.send_opus_audio s'.service accepts frame), told)
    else (s, [])

-- `OnOpusData`, first half: the flag and the counter.
unfoldable pub offer_frame : Session → Session
offer_frame s = record s {
  is_response_playing = true;
  opus_frame_count = add64 s.opus_frame_count 1;
}

-- `OnOpusData`, second half: the frame goes into the buffer, or is dropped when the buffer has been
-- full for ten milliseconds.
unfoldable pub enqueue_frame : Session → Bytes → Session
enqueue_frame s frame =
    if ltb (length s.opus_buffer) buffer_size
    then record s { opus_buffer = s.opus_buffer ++ frame ∷ [] }
    else s

unfoldable pub on_opus_data : Session → Bytes → Session
unfolding offer_frame enqueue_frame
on_opus_data s frame = if s.is_active then enqueue_frame (offer_frame s) frame else s

-- One round of `processOpusOutput` with a frame taken from the buffer; `sent` is whether the
-- endpoint's `SendOpusFrame` succeeds.
unfoldable pub play_frame : Hooks → Session → ℤ → Bool → Bytes → Session × List Notice
unfolding call_outgoing_opus_handler
play_frame h s now sent frame =
    let (told, notices) = call_outgoing_opus_handler h s now frame in
    let played = record told { played_sample_count = add64 told.played_sample_count 480 } in
    let counted = record played { output_packet_count = add64 played.output_packet_count 1 } in
    if s.is_response_playing
    then (if s.has_endpoint then (if sent then counted else played, notices) else (s, []))
    else (s, [])

-- What a round of the loop meets: the time, whether the endpoint sends, and which case the
-- `select` picks when the session is cancelled and a frame is waiting too.
pub record Round : Type 0 where
  pub now : ℤ
  pub sent : Bool
  pub picks_done : Bool

-- A round of the loop: the end of the context stops it, an empty buffer makes it wait.
unfoldable pub process_opus_output : Hooks → Session → Round → Session × List Notice
process_opus_output h s r = elim s.opus_buffer [
  | [] ↦ (s, [])
  | frame ∷ rest ↦
      if s.cancelled && r.picks_done
      then (s, [])
      else play_frame h (record s { opus_buffer = rest }) r.now r.sent frame
]

unfoldable pub process_rounds : Hooks → Session → List Round → Session × List Notice
process_rounds h s [] = (s, [])
process_rounds h s (r ∷ rounds) =
    let (s', told) = process_opus_output h s r in
    let (s'', more) = process_rounds h s' rounds in (s'', told ++ more)

-- `clearBuffers` takes frames until the buffer is empty.
unfoldable pub drain : Session → List Bytes → Session
drain s [] = record s { opus_buffer = [] }
drain s (frame ∷ rest) = drain (record s { opus_buffer = rest }) rest

unfoldable pub clear_buffers : Session → Session
unfolding drain
clear_buffers s = drain s s.opus_buffer

-- `OnSpeechStart`: a response that plays is interrupted. The clearing of the buffer is scheduled
-- for 100 ms later: it is `clear_buffers`, run when the flag in the result is set.
unfoldable pub on_speech_start : Session → Channel → Session × List Outgoing × Bool
on_speech_start s ch =
    let done = Openai.interrupt_response s.service ch s.current_item_id s.played_sample_count in
    if s.is_response_playing
    then (record s { service = done.service }, done.sent, true)
    else (s, [], false)

unfoldable pub on_response_done : Session → Session
on_response_done s = record s { is_response_playing = false; current_item_id = [] }

unfoldable pub on_response_created : Session → Bytes → Session
on_response_created s item = record s { current_item_id = item }

-- `OnError` and `OnClose` of a session that is still active report its end.
unfoldable pub on_error : Hooks → Session → Bytes → List Notice
on_error h s text = if s.is_active then notify_end h s (openai_error text) else []

unfoldable pub on_close : Hooks → Session → List Notice
on_close h s = if s.is_active then notify_end h s openai_connection_closed else []
