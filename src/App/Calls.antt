-- ===== src/App/Calls.antt =====
-- The calls of the running program: its endpoints stand under their ids, and what a BYE leaves.
use openai_gate.Base.{
  ◌≡◌, refl, ◌∙◌, inl, inr, Bool, true, List, [], ◌∷◌, ◌++◌, codes, Option, none, some, arith,
  Bytes, bytes_eq, ok, Option-cases, if◌then◌else◌, ◌==◌,
}
use openai_gate.Base.Assoc.{lookup}
use openai_gate.Text.Decimal.Int.{ℤ}
use openai_gate.Config.{Environment, settings}
use openai_gate.Mdbx.{Mdbx, Laws}
use openai_gate.Bridge.Sessions.{Session, Notice, incoming_packet, outgoing_packet, ended}
use openai_gate.Sip.Rtp.{Endpoint}
use openai_gate.Sip.Receive.{process_rtp}
use openai_gate.Sip.Server.{handle_bye}
use openai_gate.Sip.Server.Filed.{
  Filed, insert-Filed, handle_invite-Filed, handle_ack-Filed, handle_bye-Filed,
}
use openai_gate.Sip.Receive.Identity.{process_rtp-id}
use openai_gate.Sip.Server.Calls.{handle_bye_lem}
use openai_gate.App.{App, start, deliver}
use openai_gate.App.Steps.{
  Action, step, run, at_session, pick, invited, acked, hung_up, browser_came, browser_wrote,
  browser_left, socket_read, after_read, taken_in, read_found, frame_in, voice_frame, voice_played,
  voice_item, voice_text, voice_done, voice_failed, voice_closed, voice_speech, voice_message,
  buffer_cleared, requested, delivered,
}

at_session-endpoints :
    (m : Mdbx) (a : App m) (id : Bytes) (f : Session → Session × List Notice)
    → (at_session m a id f).server.endpoints ≡ a.server.endpoints
unfolding at_session
at_session-endpoints m a id f = elim (Option-cases (lookup id a.server.bridge.sessions)) [
  | inl gone ↦ rw (at_session, gone) refl
  | inr (x, there) ↦ rw (at_session, there) refl
]

taken_in-endpoints :
    (m : Mdbx) (a : App m) (id : Bytes) (now : ℤ) (accepts : Bool) (forwarded : Option Bytes)
    → (taken_in m a id now accepts forwarded).server.endpoints ≡ a.server.endpoints
taken_in-endpoints m a id now accepts none = refl
taken_in-endpoints m a id now accepts (some frame) = at_session-endpoints m a id _

deliver-endpoints :
    (m : Mdbx) (a : App m) (n : Notice) (now : ℤ)
    → (deliver m a n now).server.endpoints ≡ a.server.endpoints
unfolding deliver
deliver-endpoints m a (incoming_packet meta frame) now = refl
deliver-endpoints m a (outgoing_packet meta frame) now = refl
deliver-endpoints m a (ended id reason) now = refl

step-Filed :
    (m : Mdbx) (a : App m) (x : Action)
    → Filed a.server.endpoints
    → Filed (step m a x).server.endpoints
unfolding step read_found
step-Filed m a (invited r w) filed = handle_invite-Filed m a.server r w filed
step-Filed m a (acked id now connects) filed = handle_ack-Filed m a.server id now connects filed
step-Filed m a (hung_up id) filed = handle_bye-Filed m a.server id filed
step-Filed m a (browser_came upgrades now user created connects) filed = filed
step-Filed m a (browser_wrote id rounds) filed = filed
step-Filed m a (browser_left id) filed = filed
step-Filed m a (socket_read rtp id read writes now accepts) filed =
    elim (Option-cases (lookup id a.server.endpoints)) [
      | inl gone ↦ rw (step, gone) filed
      | inr (e, there) ↦
          let r = process_rtp rtp read writes e a.server.counters in
          rw (step, there)
            (rw (taken_in-endpoints m (after_read m a id r) e.id now accepts r.forwarded) (
              insert-Filed a.server.endpoints id r.endpoint filed
                (process_rtp-id rtp read writes e a.server.counters ∙ filed id e there)))
    ]
step-Filed m a (frame_in id now accepts frame) filed = rw (at_session-endpoints m a id _) filed
step-Filed m a (voice_frame id frame) filed = rw (at_session-endpoints m a id _) filed
step-Filed m a (voice_played id r) filed = rw (at_session-endpoints m a id _) filed
step-Filed m a (voice_item id item) filed = rw (at_session-endpoints m a id _) filed
step-Filed m a (voice_text id v now) filed = filed
step-Filed m a (voice_done id) filed = rw (at_session-endpoints m a id _) filed
step-Filed m a (voice_failed id text) filed = rw (at_session-endpoints m a id _) filed
step-Filed m a (voice_closed id) filed = rw (at_session-endpoints m a id _) filed
step-Filed m a (voice_speech id ch) filed = rw (at_session-endpoints m a id _) filed
step-Filed m a (voice_message id v raw) filed = rw (at_session-endpoints m a id _) filed
step-Filed m a (buffer_cleared id) filed = rw (at_session-endpoints m a id _) filed
step-Filed m a (requested q) filed = filed
step-Filed m a (delivered n now) filed = elim (Option-cases (pick n a.pending)) [
  | inl nothing ↦ rw (step, nothing) filed
  | inr ((notice, rest), there) ↦
      rw (step, there) (rw (deliver-endpoints m (record a { pending = rest }) notice now) filed)
]

run-Filed_from :
    (m : Mdbx) (a : App m) (actions : List Action)
    → Filed a.server.endpoints
    → Filed (run m a actions).server.endpoints
unfolding run
run-Filed_from m a [] filed = filed
run-Filed_from m a (x ∷ xs) filed = run-Filed_from m (step m a x) xs (step-Filed m a x filed)

start-Filed :
    (m : Mdbx) (env : Environment) (opens : Bytes → Option m.Txn) (a : App m)
    → start m env opens ≡ ok a
    → Filed a.server.endpoints
unfolding start lookup
start-Filed m env opens a h k e there =
    let empty : a.server.endpoints ≡ [] =
      ground (arith, Option-cases (opens ((settings env).data_dir ++ codes "/contexts.db"))) in
    absurd (cc (there, empty))

-- From `main`'s start on, whatever the program has handled: each SIP endpoint of the table stands
-- under its own id, and a BYE of a call that has an endpoint with its session takes the endpoint out of
-- the table and the session out of the bridge, is answered with 200, and leaves all other endpoints
-- and sessions.
pub hung_up_lem :
    (m : Mdbx) (laws : Laws m) (env : Environment) (opens : Bytes → Option m.Txn) (a0 : App m)
    (actions : List Action) (id : Bytes) (e : Endpoint)
    → start m env opens ≡ ok a0
    → let a = run m a0 actions in
      lookup id a.server.endpoints ≡ some e
      → e.has_session ≡ true
      → let b = step m a (hung_up id) in
        Filed a.server.endpoints
        × ((handle_bye m a.server id).responses ≡ record { code = 200; body = [] } ∷ [])
        × ((other : Bytes)
            → lookup other b.server.endpoints
              ≡ (if id == other then none else lookup other a.server.endpoints))
        × ((other : Bytes)
            → lookup other b.server.bridge.sessions
              ≡ (if id == other then none else lookup other a.server.bridge.sessions))
unfolding step
hung_up_lem m laws env opens a0 actions id e begun there joined =
    let a = run m a0 actions in
    let filed = run-Filed_from m a0 actions (start-Filed m env opens a0 begun) in
    let (answered, gone, left, _) = handle_bye_lem m laws a.server id e there in
    (filed, answered, gone, λ other. ground (arith, left other, joined, filed id e there))
