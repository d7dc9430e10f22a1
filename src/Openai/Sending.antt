-- ===== src/Openai/Sending.antt =====
-- What the service sends: interruptions, and the service after `Close`.
use openai_gate.Base.{
  ℕ, ◌≡◌, Bool, true, false, List, [], ◌∷◌, arith, Bytes, bytes_eq, ok, err, ◌==◌, if◌then◌else◌,
}
use openai_gate.Openai.{
  Service, Outgoing, Channel, response_cancel, item_truncate, session_update, response_create,
  div24, service_closed, send_message, interrupt_response, close, closed_down, send_opus_audio,
  configure,
}

-- The messages of an interruption that runs to its end.
abbrev pub interruption : Bytes → ℕ → List Outgoing
interruption item played =
    if item == []
    then response_cancel ∷ []
    else response_cancel ∷ item_truncate item (div24 played) ∷ []

-- The service is not closed, and its channel takes every message.
pub record Ready (s : Service) (ch : Channel) : Type 0 where
  pub not_closed : s.closed ≡ false
  pub has_channel : s.has_channel ≡ true
  pub is_open : ch.is_open ≡ true
  pub accepts : (msg : Outgoing) → ch.accepts msg ≡ true

-- `InterruptResponse` that reports no error has sent the cancellation and, where an item is given,
-- its truncation, in this order, and has cleared the playing flag alone.
pub interrupt_response-ok :
    (s : Service) (ch : Channel) (item : Bytes) (played : ℕ)
    → (interrupt_response s ch item played).outcome ≡ ok tt
    → ((interrupt_response s ch item played).sent ≡ interruption item played)
      × ((interrupt_response s ch item played).service ≡ record s { is_response_playing = false })
unfolding interrupt_response send_message
interrupt_response-ok s ch item played h = (ground arith, ground arith)

-- On a service that is not closed and whose channel is open and takes every message,
-- `InterruptResponse` reports no error.
pub interrupt_response-Ready :
    (s : Service) (ch : Channel) (item : Bytes) (played : ℕ)
    → Ready s ch
    → (interrupt_response s ch item played).outcome ≡ ok tt
unfolding interrupt_response send_message
interrupt_response-Ready s ch item played h = ground (
  arith,
  h.not_closed,
  h.has_channel,
  h.is_open,
  h.accepts response_cancel,
  h.accepts (item_truncate item (div24 played)),
)

-- On a service that is not closed and whose channel is open and takes every message, `configure`
-- sends the session's settings with its prompt, then the request for a response.
pub configure-Ready :
    (s : Service) (ch : Channel)
    → Ready s ch
    → configure s ch ≡ ok (session_update s.prompt ∷ response_create ∷ [])
unfolding configure send_message
configure-Ready s ch h = ground (
  arith,
  h.not_closed,
  h.has_channel,
  h.is_open,
  h.accepts response_create,
  h.accepts (session_update s.prompt),
)

-- After `Close`, the sending of a message, of audio and of an interruption report that the
-- service is closed, and the interruption sends nothing; a further `Close` changes nothing; and
-- the close handler has been called once, if it is set and the service was open.
pub close_lem :
    (s : Service) (ch : Channel) (msg : Outgoing) (item frame : Bytes) (played : ℕ) (accepts : Bool)
    → let s' = (close s).0 in
      ((close s).1 ≡ (if s.closed then [] else if s.handlers.close then closed_down ∷ [] else []))
      × (close s' ≡ (s', []))
      × (send_message s' ch msg ≡ err service_closed)
      × (send_opus_audio s' accepts frame ≡ err service_closed)
      × (interrupt_response s' ch item played
          ≡ record { service = s'; sent = []; outcome = err service_closed })
unfolding close send_message send_opus_audio interrupt_response
close_lem s ch msg item frame played accepts =
    (ground arith, ground arith, ground arith, ground arith, ground arith)
