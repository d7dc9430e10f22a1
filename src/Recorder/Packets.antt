-- ===== src/Recorder/Packets.antt =====
-- Recording a packet, and closing the recorder.
use openai_gate.Base.{
  ℕ, ◌≡◌, ◌≢◌, ap, inl, inr, Bool, true, false, List, [], ◌∷◌, map, none, some, arith, Bytes,
  bytes_eq, bytes_beq_iff, ok, ◌==◌, if◌then◌else◌, Option-cases,
}
use openai_gate.Base.Assoc.{Assoc, lookup, lookup-insert, lookup-remove}
use openai_gate.Base.Membership.{In, lookup-In}
use openai_gate.Text.Decimal.Int.{ℤ}
use openai_gate.Mdbx.{Mdbx, Laws}
use openai_gate.Database.Lookup.{set_lem}
use openai_gate.ContextStore.Keys.{audio_key}
use openai_gate.ContextStore.Dialog.{VisitsAll}
use openai_gate.ContextStore.Phrases.{save-eq-ok}
use openai_gate.ContextStore.{save_opus_frame}
use openai_gate.Bridge.Sessions.{user_source, add64}
use openai_gate.Recorder.{
  Recorder, SessionRecording, add_packet, saved, or_new, count_packet, get_recording_stats,
  finalize_session, finalize_all, get_active_recordings, close,
}

-- A session's counts after a packet of a direction.
abbrev pub counted : Bytes → ℕ × ℕ × Bool → ℕ × ℕ × Bool
counted direction (incoming, outgoing, known) =
    if direction == user_source
    then (add64 incoming 1, outgoing, true)
    else (incoming, add64 outgoing 1, true)

module _ (m : Mdbx) (laws : Laws m) where
  -- A packet that is not empty, and whose storing succeeds, is stored under its session,
  -- direction and time, adds one to the count of its direction alone (from 0 on for a new
  -- recording), and leaves the counts of other sessions.
  pub add_packet_lem :
      (r : Recorder) (db db' : m.Txn) (id packet direction key : Bytes) (time now : ℤ)
      → packet ≢ []
      → save_opus_frame m db id direction packet time ≡ ok (key, db')
      → let a = add_packet m r db id packet direction time now in
        (lookup (audio_key id direction time) (m.entries a.db) ≡ some packet)
        × ((other : Bytes)
            → get_recording_stats a.recorder other ≡ (
                if id == other
                then counted direction (get_recording_stats r id)
                else get_recording_stats r other))
  unfolding add_packet saved count_packet get_recording_stats save_opus_frame
  add_packet_lem r db db' id packet direction key time now full h =
      let written = (save-eq-ok m laws db db' (audio_key id direction time) key packet h).1 in
      (
        ground (
          arith,
          h,
          bytes_beq_iff packet [],
          set_lem m laws db db' (audio_key id direction time) packet (audio_key id direction time)
              written,
          bytes_beq_iff (audio_key id direction time) (audio_key id direction time),
        ),
        λ other. ground (
          arith,
          h,
          bytes_beq_iff packet [],
          bytes_beq_iff id other,
          lookup-insert id other (count_packet direction (or_new id now (lookup id r.recordings)))
              r.recordings,
        ),
      )

finalize_all-lookup :
    (r : Recorder) (ids : List Bytes) (id : Bytes)
    → lookup id r.recordings ≡ none
    → lookup id (finalize_all r ids).recordings ≡ none
unfolding finalize_all finalize_session
finalize_all-lookup r [] id h = h
finalize_all-lookup r (x ∷ ids) id h =
    finalize_all-lookup (finalize_session r x).0 ids id
      (ground (arith, lookup-remove x id r.recordings))

finalize_all-In :
    (r : Recorder) (ids : List Bytes) (id : Bytes)
    → In id ids
    → lookup id (finalize_all r ids).recordings ≡ none
unfolding finalize_all finalize_session
finalize_all-In r [] id h = absurd h
finalize_all-In r (x ∷ ids) id (inl e) =
    finalize_all-lookup (finalize_session r x).0 ids id
      (ground (arith, lookup-remove x id r.recordings, bytes_beq_iff x id))
finalize_all-In r (x ∷ ids) id (inr h) = finalize_all-In (finalize_session r x).0 ids id h

In-map :
    (x : Bytes × SessionRecording) (xs : Assoc Bytes SessionRecording)
    → In x xs
    → In x.0 (map (λ y. y.0) xs)
In-map x [] h = absurd h
In-map x (y ∷ xs) (inl e) = inl (ap (λ (z : Bytes × SessionRecording). z.0) e)
In-map x (y ∷ xs) (inr h) = inr (In-map x xs h)

-- After the recorder is closed, by a loop that visits every recording, no session is recorded.
pub close-lookup :
    (range : Assoc Bytes SessionRecording → Assoc Bytes SessionRecording) (r : Recorder)
    (id : Bytes)
    → VisitsAll range
    → get_recording_stats (close range r) id ≡ (0, 0, false)
unfolding close get_active_recordings get_recording_stats
close-lookup range r id visits = elim (Option-cases (lookup id r.recordings)) [
  | inl fresh ↦ ground (arith, finalize_all-lookup r (map (λ x. x.0) (range r.recordings)) id fresh)
  | inr (x, known) ↦ ground (
    arith,
    finalize_all-In r (map (λ x. x.0) (range r.recordings)) id (
        In-map (id, x) (range r.recordings)
          ((visits r.recordings (id, x)).1 (lookup-In id x r.recordings known))),
  )
]
