-- ===== src/Bridge/Retired.antt =====
-- What other holders of a session still do to it after RemoveSession of internal/bridge/bridge.go.
use openai_gate.Base.{
  ◌≡◌, refl, sym, ◌∙◌, Bool, true, false, List, [], ◌∷◌, ◌++◌, some, arith, Bytes, bytes_eq,
  append_assoc, append-nil, Bool-cases, ◌⊎◌, inl, inr, subst,
}
use openai_gate.Base.Assoc.{lookup}
use openai_gate.Text.Decimal.Int.{ℤ}
use openai_gate.Openai.{Channel, Outgoing, close, interrupt_response}
use openai_gate.Bridge.{Bridge, remove_session_with_reason, end_found, end_session}
use openai_gate.Bridge.Sessions.{
  Session, Hooks, Round, Reason, process_incoming_opus, on_opus_data, process_opus_output,
  play_frame, clear_buffers, on_speech_start, on_response_done, on_response_created, drain,
  call_outgoing_opus_handler,
}

-- What can happen to a session, with the messages that it sends over the data channel.
pub data Step : Session → List Outgoing → Session → Type 0 where
  incoming :
      {s : Session} (h : Hooks) (now : ℤ) (accepts : Bool) (frame : Bytes)
      → Step s [] (process_incoming_opus h s now accepts frame).0
  received : {s : Session} (frame : Bytes) → Step s [] (on_opus_data s frame)
  played : {s : Session} (h : Hooks) (r : Round) → Step s [] (process_opus_output h s r).0
  interrupted :
      {s : Session} (ch : Channel) → Step s (on_speech_start s ch).1 (on_speech_start s ch).0
  cleared : {s : Session} → Step s [] (clear_buffers s)
  finished : {s : Session} → Step s [] (on_response_done s)
  started : {s : Session} (item : Bytes) → Step s [] (on_response_created s item)

-- A sequence of them, with all the messages.
pub data Steps : Session → List Outgoing → Session → Type 0 where
  stay : {s : Session} → Steps s [] s
  step :
      {s t u : Session} {sent more : List Outgoing}
      → Step s sent t
      → Steps t more u
      → Steps s (sent ++ more) u

pub record Over (s : Session) : Type 0 where
  pub inactive : s.is_active ≡ false
  pub cancelled : s.cancelled ≡ true
  pub closed : s.service.closed ≡ true

-- What a later state of a session has kept of an earlier one: what it counts of the audio that comes in,
-- and the end of its buffer.
pub record Keeps (s t : Session) : Type 0 where
  pub frames : t.opus_frame_count ≡ s.opus_frame_count
  pub inputs : t.input_packet_count ≡ s.input_packet_count
  pub sequence : t.incoming_seq_num ≡ s.incoming_seq_num
  pub taken : List Bytes
  pub buffer : s.opus_buffer ≡ taken ++ t.opus_buffer

pub drain-empty :
    (s : Session) (frames : List Bytes) → drain s frames ≡ record s { opus_buffer = [] }
unfolding drain
drain-empty s [] = refl
drain-empty s (frame ∷ rest) = drain-empty (record s { opus_buffer = rest }) rest

buffer_cases :
    (buffer : List Bytes)
    → (buffer ≡ []) ⊎ ((frame : Bytes) × (rest : List Bytes) × (buffer ≡ frame ∷ rest))
buffer_cases [] = inl refl
buffer_cases (frame ∷ rest) = inr (frame, rest, refl)

Keeps-refl : (s : Session) → Keeps s s
Keeps-refl s = record { frames = refl; inputs = refl; sequence = refl; taken = []; buffer = refl }

Over-Keeps : (s t : Session) → t ≡ s → Over s → Over t × Keeps s t
Over-Keeps s t same o = subst (λ (u : Session). Over u × Keeps s u) (sym same) (o, Keeps-refl s)

-- A round leaves the end of the session, and takes one frame at most.
played-Over :
    (s : Session) (h : Hooks) (r : Round)
    → Over s
    → Over (process_opus_output h s r).0 × Keeps s (process_opus_output h s r).0
unfolding process_opus_output play_frame call_outgoing_opus_handler
played-Over s h r o = elim (buffer_cases s.opus_buffer) [
  | inl empty ↦
      let same : (process_opus_output h s r).0 ≡ s = ground (arith, empty) in
      subst (λ (t : Session). Over t × Keeps s t) (sym same) (o, Keeps-refl s)
  | inr (frame, rest, b) ↦ (
    record {
      inactive = ground (arith, b, o.inactive);
      cancelled = ground (arith, b, o.cancelled);
      closed = ground (arith, b, o.closed);
    },
    elim (Bool-cases r.picks_done) [
      | inl stops ↦ record {
        frames = ground (arith, b);
        inputs = ground (arith, b);
        sequence = ground (arith, b);
        taken = [];
        buffer = ground (arith, b, stops, o.cancelled);
      }
      | inr goes ↦ record {
        frames = ground (arith, b);
        inputs = ground (arith, b);
        sequence = ground (arith, b);
        taken = frame ∷ [];
        buffer = ground (arith, b, goes, o.cancelled);
      }
    ],
  )
]

Step-Over :
    (s t : Session) (sent : List Outgoing)
    → Step s sent t
    → Over s
    → (Over t × Keeps s t) × (sent ≡ [])
unfolding process_incoming_opus on_opus_data on_speech_start interrupt_response clear_buffers
    on_response_done on_response_created
Step-Over s t sent (incoming h now accepts frame) o =
    (Over-Keeps s _ (ground (arith, o.inactive)) o, refl)
Step-Over s t sent (received frame) o = (Over-Keeps s _ (ground (arith, o.inactive)) o, refl)
Step-Over s t sent (played h r) o = (played-Over s h r o, refl)
Step-Over s t sent (interrupted ch) o = (
  (
    record {
      inactive = ground (arith, o.inactive);
      cancelled = ground (arith, o.cancelled);
      closed = ground (arith, o.closed);
    },
    record {
      frames = ground (arith, o.closed);
      inputs = ground (arith, o.closed);
      sequence = ground (arith, o.closed);
      taken = [];
      buffer = ground (arith, o.closed);
    },
  ),
  ground (arith, o.closed),
)
Step-Over s t sent cleared o = (
  (
    record {
      inactive = ground (arith, drain-empty s s.opus_buffer, o.inactive);
      cancelled = ground (arith, drain-empty s s.opus_buffer, o.cancelled);
      closed = ground (arith, drain-empty s s.opus_buffer, o.closed);
    },
    record {
      frames = ground (arith, drain-empty s s.opus_buffer);
      inputs = ground (arith, drain-empty s s.opus_buffer);
      sequence = ground (arith, drain-empty s s.opus_buffer);
      taken = s.opus_buffer;
      buffer = ground (arith, drain-empty s s.opus_buffer, append-nil s.opus_buffer);
    },
  ),
  refl,
)
Step-Over s t sent finished o = (
  (
    record { inactive = o.inactive; cancelled = o.cancelled; closed = o.closed },
    record { frames = refl; inputs = refl; sequence = refl; taken = []; buffer = refl },
  ),
  refl,
)
Step-Over s t sent (started item) o = (
  (
    record { inactive = o.inactive; cancelled = o.cancelled; closed = o.closed },
    record { frames = refl; inputs = refl; sequence = refl; taken = []; buffer = refl },
  ),
  refl,
)

Keeps-trans : (s t u : Session) → Keeps s t → Keeps t u → Keeps s u
Keeps-trans s t u a b = record {
  frames = b.frames ∙ a.frames;
  inputs = b.inputs ∙ a.inputs;
  sequence = b.sequence ∙ a.sequence;
  taken = a.taken ++ b.taken;
  buffer = ground (arith, a.buffer, b.buffer, append_assoc a.taken b.taken u.opus_buffer);
}

Steps-Over :
    (s t : Session) (sent : List Outgoing)
    → Steps s sent t
    → Over s
    → (Over t × Keeps s t) × (sent ≡ [])
Steps-Over s t sent stay o = ((o, Keeps-refl s), refl)
Steps-Over s t sent (step first rest) o =
    let ((over, kept), none_sent) = Step-Over _ _ _ first o in
    let ((last, all), no_more) = Steps-Over _ t _ rest over in
    ((last, Keeps-trans s _ t kept all), rw (none_sent, no_more) refl)

end_session-Over : (s : Session) → Over (end_session s) × Keeps s (end_session s)
unfolding end_session close
end_session-Over s = (
  record { inactive = refl; cancelled = refl; closed = ground arith },
  record { frames = refl; inputs = refl; sequence = refl; taken = []; buffer = refl },
)

-- A session that the bridge removes is over for all that still hold it: after any sequence of packets,
-- frames of the service, rounds of the playing loop, interruptions, clearings and response events it is
-- inactive, its context is cancelled and its service closed, no message was sent over the data channel,
-- no frame and no packet was counted that comes in, and its buffer is an end of the buffer that it had.
pub removed-Over :
    (b : Bridge) (id : Bytes) (reason : Reason) (s u t : Session) (sent : List Outgoing)
    → lookup id b.sessions ≡ some s
    → (remove_session_with_reason b id reason).session ≡ some u
    → Steps u sent t
    → (Over t × Keeps s t) × (sent ≡ [])
unfolding remove_session_with_reason end_found
removed-Over b id reason s u t sent found removed steps =
    let same : u ≡ end_session s = ground (arith, found, removed) in
    let (over, kept) =
      subst (λ (x : Session). Over x × Keeps s x) (sym same) (end_session-Over s) in
    let ((last, all), silent) = Steps-Over u t sent steps over in
    ((last, Keeps-trans s u t kept all), silent)
