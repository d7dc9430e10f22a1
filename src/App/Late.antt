-- ===== src/App/Late.antt =====
-- The goroutines of a packet and of the end of its session, in either order.
use openai_gate.Base.{
  ◌≡◌, ◌≢◌, ap, ◌∙◌, true, false, [], arith, Bytes, bytes_eq, bytes_beq_iff, ok, Option-cases, sym,
  inl, inr,
}
use openai_gate.Base.Assoc.{lookup, lookup-insert, lookup-remove}
use openai_gate.Text.Decimal.Int.{ℤ}
use openai_gate.Mdbx.{Mdbx}
use openai_gate.ContextStore.{save_opus_frame}
use openai_gate.Bridge.Sessions.{Metadata, Reason, incoming_packet, ended, user_source}
use openai_gate.Recorder.{
  Recorder, Added, SessionRecording, add_packet, count_packet, finalize_session,
  get_recording_stats, on_incoming,
}
use openai_gate.App.{App, deliver}

finalized-stats :
    (r : Recorder) (id : Bytes) → get_recording_stats (finalize_session r id).0 id ≡ (0, 0, false)
unfolding get_recording_stats finalize_session
finalized-stats r id = ground (arith, lookup-remove id id r.recordings, bytes_beq_iff id id)

-- A packet of the user whose session has no recording starts one.
fresh-stats :
    (m : Mdbx) (r : Recorder) (db db' : m.Txn) (id packet key : Bytes) (time now : ℤ)
    → get_recording_stats r id ≡ (0, 0, false)
    → packet ≢ []
    → save_opus_frame m db id user_source packet time ≡ ok (key, db')
    → let added = add_packet m r db id packet user_source time now in
      (get_recording_stats added.recorder id ≡ (1, 0, true)) × (added.db ≡ db')
unfolding add_packet count_packet get_recording_stats
fresh-stats m r db db' id packet key time now fresh full saves =
    elim (Option-cases (lookup id r.recordings)) [
      | inl none_there ↦
          let x : SessionRecording = record {
            session_id = id;
            start_time = now;
            incoming_count = 1;
            outgoing_count = 0;
          } in
          (
            ground (
              arith,
              saves,
              bytes_beq_iff packet [],
              none_there,
              lookup-insert id id x r.recordings,
              bytes_beq_iff id id,
              bytes_beq_iff user_source user_source,
            ),
            ground (arith, saves, bytes_beq_iff packet []),
          )
      | inr (x, there) ↦ absurd (ground (arith, there, fresh))
    ]

on_incoming-on :
    (m : Mdbx) (r : Recorder) (db : m.Txn) (frame : Bytes) (meta : Metadata) (now : ℤ)
    → r.record_incoming ≡ true
    → on_incoming m r db frame meta now
      ≡ add_packet m r db meta.session_id frame user_source meta.timestamp now
unfolding on_incoming
on_incoming-on m r db frame meta now on = ground (arith, on)

finalized-on :
    (r : Recorder) (id : Bytes) → (finalize_session r id).0.record_incoming ≡ r.record_incoming
unfolding finalize_session
finalized-on r id = ground arith

add_packet-db :
    (m : Mdbx) (r : Recorder) (db db' : m.Txn) (id packet direction key : Bytes) (time now : ℤ)
    → packet ≢ []
    → save_opus_frame m db id direction packet time ≡ ok (key, db')
    → (add_packet m r db id packet direction time now).db ≡ db'
unfolding add_packet
add_packet-db m r db db' id packet direction key time now full saves =
    ground (arith, saves, bytes_beq_iff packet [])

-- While incoming packets are recorded, for a packet that is not empty and whose storing succeeds: if it
-- is delivered before the end of its session there is no recording of the session afterwards; if it
-- is delivered after it there is a new one with this packet alone; the store is the same.
pub deliver_late :
    (m : Mdbx) (a : App m) (meta : Metadata) (frame key : Bytes) (reason : Reason) (now later : ℤ)
    (db' : m.Txn)
    → a.recorder.record_incoming ≡ true
    → frame ≢ []
    → save_opus_frame m a.server.db meta.session_id user_source frame meta.timestamp ≡ ok (key, db')
    → let packet = incoming_packet meta frame in
      let end = ended meta.session_id reason in
      let in_time = deliver m (deliver m a packet now) end later in
      let too_late = deliver m (deliver m a end later) packet now in
      (get_recording_stats in_time.recorder meta.session_id ≡ (0, 0, false))
      × (get_recording_stats too_late.recorder meta.session_id ≡ (1, 0, true))
      × (too_late.server.db ≡ in_time.server.db)
unfolding deliver
deliver_late m a meta frame key reason now later db' on full saves =
    let id = meta.session_id in
    let r = (finalize_session a.recorder id).0 in
    let early = on_incoming-on m a.recorder a.server.db frame meta now on in
    let late = on_incoming-on m r a.server.db frame meta now (finalized-on a.recorder id ∙ on) in
    let (stats, db) =
      fresh-stats m r a.server.db db' id frame key meta.timestamp now
        (finalized-stats a.recorder id) full saves in
    (
      finalized-stats (on_incoming m a.recorder a.server.db frame meta now).recorder id,
      ap (λ (x : Added m). get_recording_stats x.recorder id) late ∙ stats,
      ap (λ (x : Added m). x.db) late
          ∙ db
          ∙ sym (
              ap (λ (x : Added m). x.db) early
              ∙ add_packet-db m a.recorder a.server.db db' id frame user_source key meta.timestamp
                  now full saves),
    )
