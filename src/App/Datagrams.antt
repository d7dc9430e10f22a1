-- ===== src/App/Datagrams.antt =====
-- The way of a datagram from a call's socket into the store.
use openai_gate.Base.{
  ℕ, ◌≡◌, refl, ap, ◌∙◌, inl, inr, Bool, true, List, Option, some, arith, Bytes, bytes_eq,
  bytes_beq_iff, Option-cases, ok, length,
}
use openai_gate.Base.Assoc.{lookup, lookup-insert}
use openai_gate.Text.Decimal.Int.{ℤ}
use openai_gate.Config.{Environment}
use openai_gate.Mdbx.{Mdbx, Laws}
use openai_gate.ContextStore.{save_opus_frame}
use openai_gate.Bridge.Sessions.{
  Session, Notice, incoming_packet, outgoing_packet, ended, user_source,
}
use openai_gate.Sip.Rtp.{Addr, RtpFormat, Endpoint, add64}
use openai_gate.Sip.Receive.{datagram, process_rtp}
use openai_gate.Sip.Receive.Packets.{CarriesOpus, InCall, process_rtp-opus}
use openai_gate.App.{App, start, deliver}
use openai_gate.App.Steps.{
  Action, step, run, at_session, after_read, taken_in, read_found, pick, socket_read, frame_in,
  delivered,
}
use openai_gate.App.Sessions.{run-Sound}
use openai_gate.App.Recording.{run-Records, start-Records}
use openai_gate.App.Frames.{Kept, frame_in-Kept}

module _ (m : Mdbx) (a : App m) (rtp : RtpFormat) (id : Bytes) (e : Endpoint) (addr : Addr)
    (bytes payload : Bytes) (now : ℤ) (writes accepts : Bool) where
  -- The round's own effect: the address and the counters.
  abbrev heard : App m
  heard = after_read m a id (process_rtp rtp (datagram addr bytes) writes e a.server.counters)

  -- The action is that effect, and the frame's way to the bridge.
  socket_read-frame_in :
      lookup id a.server.endpoints ≡ some e
      → InCall e
      → CarriesOpus rtp bytes payload
      → step m a (socket_read rtp id (datagram addr bytes) writes now accepts)
        ≡ step m heard (frame_in e.id now accepts payload)
  unfolding step read_found
  socket_read-frame_in there call opus =
      let (goes, _, _) =
        process_rtp-opus rtp addr bytes payload writes e a.server.counters opus call in
      ap (λ o. read_found m a rtp id o (datagram addr bytes) writes now accepts) there
      ∙ ap (λ o. taken_in m heard e.id now accepts o) goes

-- What a frame of a session, or the goroutine of a notice, leaves of the calls: everything.
abbrev SameCalls : (m : Mdbx) → App m → App m → Type 0
SameCalls m a b =
    (b.server.endpoints ≡ a.server.endpoints) × (b.server.counters ≡ a.server.counters)

frame_in-SameCalls :
    (m : Mdbx) (a : App m) (id frame : Bytes) (now : ℤ) (accepts : Bool)
    → SameCalls m a (step m a (frame_in id now accepts frame))
unfolding step
frame_in-SameCalls m a id frame now accepts =
    elim (Option-cases (lookup id a.server.bridge.sessions)) [
      | inl gone ↦ (rw (at_session, gone) refl, rw (at_session, gone) refl)
      | inr (x, there) ↦ (rw (at_session, there) refl, rw (at_session, there) refl)
    ]

deliver-SameCalls :
    (m : Mdbx) (a : App m) (n : Notice) (now : ℤ) → SameCalls m a (deliver m a n now)
unfolding deliver
deliver-SameCalls m a (incoming_packet meta frame) now = (refl, refl)
deliver-SameCalls m a (outgoing_packet meta frame) now = (refl, refl)
deliver-SameCalls m a (ended id reason) now = (refl, refl)

delivered-SameCalls :
    (m : Mdbx) (a : App m) (n : ℕ) (now : ℤ) → SameCalls m a (step m a (delivered n now))
unfolding step
delivered-SameCalls m a n now = elim (Option-cases (pick n a.pending)) [
  | inl nothing ↦ (rw (step, nothing) refl, rw (step, nothing) refl)
  | inr ((notice, rest), there) ↦
      let (ends, counts) = deliver-SameCalls m (record a { pending = rest }) notice now in
      (rw (step, there) ends, rw (step, there) counts)
]

-- From `main`'s start on, whatever the program has handled: when the socket of an endpoint that is in
-- the table, has its session and is neither closed nor cancelled receives an RTP packet of type 96 or
-- 111 with a payload, in a datagram of at least twelve bytes, the bridge has the endpoint's session and
-- it is active, the packet's notice is delivered next, and storing succeeds, then the payload is stored
-- under the session, the source "user" and the time at which it came in, and counts as one more
-- incoming packet of that session alone; the notices that were pending are left; the endpoint's address
-- is the sender's; and the server has counted one datagram as received and processed.
pub datagram_lem :
    (m : Mdbx) (laws : Laws m) (env : Environment) (opens : Bytes → Option m.Txn) (a0 : App m)
    (actions : List Action) (rtp : RtpFormat) (id : Bytes) (e : Endpoint) (addr : Addr)
    (bytes payload key : Bytes) (x : Session) (db' : m.Txn) (now later : ℤ) (writes accepts : Bool)
    → start m env opens ≡ ok a0
    → let a = run m a0 actions in
      lookup id a.server.endpoints ≡ some e
      → InCall e
      → CarriesOpus rtp bytes payload
      → lookup e.id a.server.bridge.sessions ≡ some x
      → x.is_active ≡ true
      → save_opus_frame m a.server.db e.id user_source payload now ≡ ok (key, db')
      → let b =
          step m
            (step m a (socket_read rtp id (datagram addr bytes) writes now accepts))
            (delivered (length a.pending) later) in
        Kept m a e.id payload now b
        × ((e' : Endpoint) × (lookup id b.server.endpoints ≡ some e')
            × (e'.remote_addr ≡ some addr))
        × (b.server.counters ≡ record a.server.counters {
          received = add64 a.server.counters.received 1;
          processed = add64 a.server.counters.processed 1;
        })
datagram_lem m laws env opens a0 actions rtp id e addr bytes payload key x db' now later writes
      accepts begun there call opus known active saves =
    let a = run m a0 actions in
    let next = heard m a rtp id e addr bytes payload now writes accepts in
    let taken = step m next (frame_in e.id now accepts payload) in
    let r = process_rtp rtp (datagram addr bytes) writes e a.server.counters in
    let (_, known_addr, counts) =
      process_rtp-opus rtp addr bytes payload writes e a.server.counters opus call in
    let kept =
      frame_in-Kept m laws next e.id payload key x db' now later accepts
        (run-Sound m env opens a0 actions begun)
        (run-Records m a0 actions (start-Records m env opens a0 begun)) known active opus.4 saves in
    let (ends, counters) = frame_in-SameCalls m next e.id payload now accepts in
    let (ends', counters') = delivered-SameCalls m taken (length a.pending) later in
    let found : lookup id next.server.endpoints ≡ some r.endpoint =
      ground (arith, lookup-insert id id r.endpoint a.server.endpoints, bytes_beq_iff id id) in
    rw (socket_read-frame_in m a rtp id e addr bytes payload now writes accepts there call opus) (
      kept,
      (r.endpoint, ap (λ es. lookup id es) (ends' ∙ ends) ∙ found, known_addr),
      counters' ∙ counters ∙ counts,
    )
