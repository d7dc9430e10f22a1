-- ===== src/App/Recording.antt =====
-- The running program records both directions of every session.
use openai_gate.Base.{
  ◌≡◌, refl, inl, inr, true, List, [], ◌∷◌, ◌++◌, Bool, Option, none, some, arith, Bytes, bytes_eq,
  ok, Option-cases, Result-cases, codes,
}
use openai_gate.Base.Assoc.{lookup}
use openai_gate.Text.Decimal.Int.{ℤ}
use openai_gate.Config.{Environment, settings}
use openai_gate.Mdbx.{Mdbx}
use openai_gate.ContextStore.{save_opus_frame}
use openai_gate.Bridge.Sessions.{
  Session, Notice, user_source, ai_source, incoming_packet, outgoing_packet, ended,
}
use openai_gate.Recorder.{
  Recorder, add_packet, finalize_session, on_incoming, on_outgoing, set_recording_options,
}
use openai_gate.Sip.Rtp.{RtpFormat, Endpoint}
use openai_gate.Sip.Receive.{Read, process_rtp}
use openai_gate.App.{App, start, deliver}
use openai_gate.App.Steps.{
  Action, step, run, pick, at_session, invited, acked, hung_up, browser_came, browser_wrote,
  browser_left, socket_read, after_read, taken_in, read_found, frame_in, voice_frame, voice_played,
  voice_item, voice_text, voice_done, voice_failed, voice_closed, voice_speech, voice_message,
  buffer_cleared, requested, delivered,
}

-- Both directions are recorded.
abbrev pub Records : Recorder → Type 0
Records r = (r.record_incoming ≡ true) × (r.record_outgoing ≡ true)

add_packet-Records :
    (m : Mdbx) (r : Recorder) (db : m.Txn) (id packet direction : Bytes) (time now : ℤ)
    → Records r
    → Records (add_packet m r db id packet direction time now).recorder
unfolding add_packet
add_packet-Records m r db id packet direction time now h =
    elim (Result-cases (save_opus_frame m db id direction packet time)) [
      | inl ((key, db'), written) ↦ ground (arith, written)
      | inr (e, failed) ↦ ground (arith, failed)
    ]

deliver-Records :
    (m : Mdbx) (a : App m) (n : Notice) (now : ℤ)
    → Records a.recorder
    → Records (deliver m a n now).recorder
unfolding deliver
deliver-Records m a (incoming_packet meta frame) now h =
    unfold on_incoming in
    ground (
      arith,
      add_packet-Records m a.recorder a.server.db meta.session_id frame user_source meta.timestamp
          now h,
    )
deliver-Records m a (outgoing_packet meta frame) now h =
    unfold on_outgoing in
    ground (
      arith,
      add_packet-Records m a.recorder a.server.db meta.session_id frame ai_source meta.timestamp now
          h,
    )
deliver-Records m a (ended id reason) now h = unfold finalize_session in ground arith

at_session-recorder :
    (m : Mdbx) (a : App m) (id : Bytes) (f : Session → Session × List Notice)
    → (at_session m a id f).recorder ≡ a.recorder
unfolding at_session
at_session-recorder m a id f = elim (Option-cases (lookup id a.server.bridge.sessions)) [
  | inl gone ↦ rw (at_session, gone) refl
  | inr (x, there) ↦ rw (at_session, there) refl
]

read_found-recorder :
    (m : Mdbx) (a : App m) (rtp : RtpFormat) (id : Bytes) (o : Option Endpoint) (read : Read)
    (writes : Bool) (now : ℤ) (accepts : Bool)
    → (read_found m a rtp id o read writes now accepts).recorder ≡ a.recorder
unfolding read_found
read_found-recorder m a rtp id none read writes now accepts = refl
read_found-recorder m a rtp id (some e) read writes now accepts =
    let r = process_rtp rtp read writes e a.server.counters in
    taken_in-recorder (after_read m a id r) r.forwarded
  where
    taken_in-recorder :
        (b : App m) (o : Option Bytes) → (taken_in m b e.id now accepts o).recorder ≡ b.recorder
    taken_in-recorder b none = refl
    taken_in-recorder b (some frame) = at_session-recorder m b e.id _

step-Records :
    (m : Mdbx) (a : App m) (x : Action) → Records a.recorder → Records (step m a x).recorder
unfolding step
step-Records m a (invited r w) h = h
step-Records m a (acked id now connects) h = h
step-Records m a (hung_up id) h = h
step-Records m a (browser_came upgrades now user created connects) h = h
step-Records m a (browser_wrote id rounds) h = h
step-Records m a (browser_left id) h = h
step-Records m a (socket_read rtp id read writes now accepts) h =
    rw (read_found-recorder m a rtp id (lookup id a.server.endpoints) read writes now accepts) h
step-Records m a (frame_in id now accepts frame) h = rw (at_session-recorder m a id _) h
step-Records m a (voice_frame id frame) h = rw (at_session-recorder m a id _) h
step-Records m a (voice_played id r) h = rw (at_session-recorder m a id _) h
step-Records m a (voice_item id item) h = rw (at_session-recorder m a id _) h
step-Records m a (voice_text id v now) h = h
step-Records m a (voice_done id) h = rw (at_session-recorder m a id _) h
step-Records m a (voice_failed id text) h = rw (at_session-recorder m a id _) h
step-Records m a (voice_closed id) h = rw (at_session-recorder m a id _) h
step-Records m a (voice_speech id ch) h = rw (at_session-recorder m a id _) h
step-Records m a (voice_message id v raw) h = rw (at_session-recorder m a id _) h
step-Records m a (buffer_cleared id) h = rw (at_session-recorder m a id _) h
step-Records m a (requested q) h = h
step-Records m a (delivered n now) h = elim (Option-cases (pick n a.pending)) [
  | inl nothing ↦ rw (step, nothing) h
  | inr ((notice, rest), there) ↦
      rw (step, there) (deliver-Records m (record a { pending = rest }) notice now h)
]

pub run-Records :
    (m : Mdbx) (a : App m) (actions : List Action)
    → Records a.recorder
    → Records (run m a actions).recorder
unfolding run
run-Records m a [] h = h
run-Records m a (x ∷ xs) h = run-Records m (step m a x) xs (step-Records m a x h)

pub start-Records :
    (m : Mdbx) (env : Environment) (opens : Bytes → Option m.Txn) (a : App m)
    → start m env opens ≡ ok a
    → Records a.recorder
unfolding start set_recording_options
start-Records m env opens a h =
    ground (arith, Option-cases (opens ((settings env).data_dir ++ codes "/contexts.db")))
