-- ===== src/App/Sessions.antt =====
-- The bridge of the running program: its sessions stand under their ids, and its settings stay.
use openai_gate.Base.{
  ◌≡◌, ◌≢◌, refl, ap, inl, inr, List, [], ◌∷◌, ◌++◌, Bool, Option, none, some, arith, Bytes,
  bytes_eq, bytes_beq_iff, ok, Option-cases, codes,
}
use openai_gate.Base.Assoc.{lookup}
use openai_gate.Text.Decimal.Int.{ℤ}
use openai_gate.Config.{Environment, settings}
use openai_gate.Mdbx.{Mdbx}
use openai_gate.Bridge.Sessions.{
  Session, Notice, process_incoming_opus, process_opus_output, on_opus_data, on_error, on_close,
  on_response_done, on_response_created, on_speech_start, clear_buffers, play_frame,
  incoming_packet, outgoing_packet, ended,
}
use openai_gate.Bridge.Retired.{drain-empty}
use openai_gate.Sip.Rtp.{RtpFormat, Endpoint}
use openai_gate.Sip.Receive.{Read, process_rtp}
use openai_gate.App.{App, start, wired_bridge, deliver, web_service}
use openai_gate.App.Steps.{
  Action, step, run, at_session, pick, invited, acked, hung_up, browser_came, browser_wrote,
  browser_left, socket_read, after_read, taken_in, read_found, frame_in, voice_frame, voice_played,
  voice_item, voice_text, voice_done, voice_failed, voice_closed, voice_speech, voice_message,
  buffer_cleared, requested, delivered, message_read,
}
use openai_gate.App.Sound.{
  Sound, insert-Sound, handle_ack-Sound, handle_bye-Sound, remove_endpoint-Sound,
  handle_messages-Sound, handle_web_socket-Sound, handle_invite-Sound,
}

-- An operation of the bridge that keeps the session's id.
at_session-Sound :
    (m : Mdbx) (a : App m) (id : Bytes) (f : Session → Session × List Notice)
    → ((x : Session) → (f x).0.id ≡ x.id)
    → Sound a.server.bridge
    → Sound (at_session m a id f).server.bridge
unfolding at_session
at_session-Sound m a id f same sound = elim (Option-cases (lookup id a.server.bridge.sessions)) [
  | inl gone ↦ rw (at_session, gone) sound
  | inr (x, there) ↦
      rw (at_session, there)
        (insert-Sound a.server.bridge id (f x).0 sound
          (ground (arith, same x, sound.keyed id x there)))
]

taken_in-Sound :
    (m : Mdbx) (a : App m) (id : Bytes) (now : ℤ) (accepts : Bool) (forwarded : Option Bytes)
    → Sound a.server.bridge
    → Sound (taken_in m a id now accepts forwarded).server.bridge
taken_in-Sound m a id now accepts none sound = sound
taken_in-Sound m a id now accepts (some frame) sound =
    at_session-Sound m a id (λ x. process_incoming_opus a.server.bridge.hooks x now accepts frame)
      (λ x. unfold process_incoming_opus in ground arith) sound

read_found-Sound :
    (m : Mdbx) (a : App m) (rtp : RtpFormat) (id : Bytes) (o : Option Endpoint) (read : Read)
    (writes : Bool) (now : ℤ) (accepts : Bool)
    → Sound a.server.bridge
    → Sound (read_found m a rtp id o read writes now accepts).server.bridge
unfolding read_found
read_found-Sound m a rtp id none read writes now accepts sound = sound
read_found-Sound m a rtp id (some e) read writes now accepts sound =
    let r = process_rtp rtp read writes e a.server.counters in
    taken_in-Sound m (after_read m a id r) e.id now accepts r.forwarded sound

deliver-bridge :
    (m : Mdbx) (a : App m) (n : Notice) (now : ℤ)
    → (deliver m a n now).server.bridge ≡ a.server.bridge
unfolding deliver
deliver-bridge m a (incoming_packet meta frame) now = refl
deliver-bridge m a (outgoing_packet meta frame) now = refl
deliver-bridge m a (ended id reason) now = refl

-- Every action of the program keeps the bridge's sessions under their ids, and its key, its store
-- and its three handlers set.
pub step-Sound :
    (m : Mdbx) (a : App m) (x : Action) → Sound a.server.bridge → Sound (step m a x).server.bridge
unfolding step
step-Sound m a (invited r w) sound = handle_invite-Sound m a.server r w sound
step-Sound m a (acked id now connects) sound = handle_ack-Sound m a.server id now connects sound
step-Sound m a (hung_up id) sound = handle_bye-Sound m a.server id sound
step-Sound m a (browser_came upgrades now user created connects) sound =
    handle_web_socket-Sound m (web_service m a) upgrades now user created connects sound
step-Sound m a (browser_wrote id rounds) sound =
    handle_messages-Sound m (web_service m a) id rounds sound
step-Sound m a (browser_left id) sound = remove_endpoint-Sound m (web_service m a) id sound
step-Sound m a (socket_read rtp id read writes now accepts) sound =
    read_found-Sound m a rtp id (lookup id a.server.endpoints) read writes now accepts sound
step-Sound m a (frame_in id now accepts frame) sound =
    at_session-Sound m a id (λ x. process_incoming_opus a.server.bridge.hooks x now accepts frame)
      (λ x. unfold process_incoming_opus in ground arith) sound
step-Sound m a (voice_frame id frame) sound =
    at_session-Sound m a id (λ x. (on_opus_data x frame, []))
      (λ x. unfold on_opus_data in ground arith) sound
step-Sound m a (voice_played id r) sound =
    at_session-Sound m a id (λ x. process_opus_output a.server.bridge.hooks x r)
      (λ x. unfold process_opus_output play_frame in ground arith) sound
step-Sound m a (voice_item id item) sound =
    at_session-Sound m a id (λ x. (on_response_created x item, []))
      (λ x. unfold on_response_created in refl) sound
step-Sound m a (voice_text id v now) sound = sound
step-Sound m a (voice_done id) sound =
    at_session-Sound m a id (λ x. (on_response_done x, [])) (λ x. unfold on_response_done in refl)
      sound
step-Sound m a (voice_failed id text) sound =
    at_session-Sound m a id (λ x. (x, on_error a.server.bridge.hooks x text)) (λ x. refl) sound
step-Sound m a (voice_closed id) sound =
    at_session-Sound m a id (λ x. (x, on_close a.server.bridge.hooks x)) (λ x. refl) sound
step-Sound m a (voice_speech id ch) sound =
    at_session-Sound m a id (λ x. ((on_speech_start x ch).0, []))
      (λ x. unfold on_speech_start in ground arith) sound
step-Sound m a (voice_message id v raw) sound =
    at_session-Sound m a id (λ x. (message_read x v raw, [])) (λ x. unfold message_read in refl)
      sound
step-Sound m a (buffer_cleared id) sound =
    at_session-Sound m a id (λ x. (clear_buffers x, []))
      (λ x. unfold clear_buffers in ap (λ (y : Session). y.id) (drain-empty x x.opus_buffer)) sound
step-Sound m a (requested q) sound = sound
step-Sound m a (delivered n now) sound = elim (Option-cases (pick n a.pending)) [
  | inl nothing ↦ rw (step, nothing) sound
  | inr ((notice, rest), there) ↦
      rw (step, there) (rw (deliver-bridge m (record a { pending = rest }) notice now) sound)
]

start-Sound :
    (m : Mdbx) (env : Environment) (opens : Bytes → Option m.Txn) (a : App m)
    → start m env opens ≡ ok a
    → Sound a.server.bridge
unfolding start wired_bridge
start-Sound m env opens a h =
    let key = (settings env).api_key in
    let wired : a.server.bridge ≡ wired_bridge key =
      ground (arith, Option-cases (opens ((settings env).data_dir ++ codes "/contexts.db"))) in
    let given : key ≢ [] = ground (arith, bytes_beq_iff key []) in
    rw wired (record {
      keyed = λ k x h. unfold lookup in ground arith;
      api_key = given;
      has_store = refl;
      hooks = refl;
    })

run-Sound_from :
    (m : Mdbx) (a : App m) (actions : List Action)
    → Sound a.server.bridge
    → Sound (run m a actions).server.bridge
unfolding run
run-Sound_from m a [] sound = sound
run-Sound_from m a (x ∷ xs) sound = run-Sound_from m (step m a x) xs (step-Sound m a x sound)

-- From `main`'s start on, whatever the program handles, each session of the bridge stands under its
-- own id, and the API key, the store and the three handlers are set.
pub run-Sound :
    (m : Mdbx) (env : Environment) (opens : Bytes → Option m.Txn) (a : App m)
    (actions : List Action)
    → start m env opens ≡ ok a
    → Sound (run m a actions).server.bridge
run-Sound m env opens a actions h = run-Sound_from m a actions (start-Sound m env opens a h)
