-- ===== src/App/Frames.antt =====
-- The way of a frame through the running program, and the order in which packets are delivered.
use openai_gate.Base.{
  ℕ, ◌≡◌, ◌≢◌, refl, ap, ◌∙◌, Bool, true, List, [], ◌∷◌, ◌++◌, Option, some, arith, Bytes, bytes_eq,
  ok, ◌==◌, if◌then◌else◌, length,
}
use openai_gate.Base.Assoc.{lookup}
use openai_gate.Text.Decimal.Int.{ℤ}
use openai_gate.Config.{Environment}
use openai_gate.Mdbx.{Mdbx, Laws}
use openai_gate.ContextStore.{save_opus_frame}
use openai_gate.ContextStore.Keys.{audio_key}
use openai_gate.Bridge.Sessions.{
  Session, Hooks, Notice, Metadata, user_source, add64, incoming_packet, process_incoming_opus,
  metadata_of,
}
use openai_gate.Recorder.{Recorder, Added, add_packet, get_recording_stats, on_incoming}
use openai_gate.Recorder.Packets.{counted, add_packet_lem}
use openai_gate.App.{App, start, deliver}
use openai_gate.App.Steps.{Action, step, run, pick, at_session, frame_in, delivered}
use openai_gate.App.Sessions.{run-Sound}
use openai_gate.App.Sound.{Sound}
use openai_gate.App.Recording.{Records, run-Records, start-Records}

pick-last : (n : Notice) (ns : List Notice) → pick (length ns) (ns ++ n ∷ []) ≡ some (n, ns)
unfolding pick
pick-last n [] = refl
pick-last n (x ∷ ns) = rw (pick-last n ns) refl

-- What an active session makes of a frame of its endpoint.
process_incoming_opus-notices :
    (h : Hooks) (x : Session) (now : ℤ) (accepts : Bool) (frame : Bytes)
    → h.incoming ≡ true
    → x.is_active ≡ true
    → (meta : Metadata) × (meta.session_id ≡ x.id)
      × (meta.timestamp ≡ now)
      × ((process_incoming_opus h x now accepts frame).1 ≡ incoming_packet meta frame ∷ [])
unfolding process_incoming_opus
process_incoming_opus-notices h x now accepts frame on active = (
  metadata_of x now user_source frame (add64 x.incoming_seq_num 1),
  ground arith,
  ground arith,
  ground arith,
)

frame_in-pending :
    (m : Mdbx) (a : App m) (id frame : Bytes) (x : Session) (now : ℤ) (accepts : Bool)
    → lookup id a.server.bridge.sessions ≡ some x
    → let b = step m a (frame_in id now accepts frame) in
      (b.pending ≡ a.pending ++ (process_incoming_opus a.server.bridge.hooks x now accepts frame).1)
      × (b.recorder ≡ a.recorder)
      × (b.server.db ≡ a.server.db)
unfolding step
frame_in-pending m a id frame x now accepts there =
    (rw (at_session, there) refl, rw (at_session, there) refl, rw (at_session, there) refl)

-- An incoming packet that is delivered, while incoming packets are recorded.
delivered-incoming :
    (m : Mdbx) (a : App m) (n : ℕ) (later : ℤ) (meta : Metadata) (frame : Bytes)
    (rest : List Notice)
    → pick n a.pending ≡ some (incoming_packet meta frame, rest)
    → a.recorder.record_incoming ≡ true
    → let b = step m a (delivered n later) in
      let r =
        add_packet m a.recorder a.server.db meta.session_id frame user_source meta.timestamp
          later in
      (b.pending ≡ rest) × (b.recorder ≡ r.recorder) × (b.server.db ≡ r.db)
unfolding step deliver on_incoming
delivered-incoming m a n later meta frame rest picked on =
    (rw (step, picked) refl, ground (arith, picked), ground (arith, picked))

-- A frame of a session is stored as the user's at a time and counted for the session alone, and the
-- notices that were pending are left.
abbrev pub Kept : (m : Mdbx) → App m → Bytes → Bytes → ℤ → App m → Type 0
Kept m a id frame now b =
    (lookup (audio_key id user_source now) (m.entries b.server.db) ≡ some frame)
    × ((other : Bytes)
        → get_recording_stats b.recorder other ≡ (
            if id == other
            then counted user_source (get_recording_stats a.recorder id)
            else get_recording_stats a.recorder other))
    × (b.pending ≡ a.pending)

-- A program whose bridge is sound and whose recorder records takes in a frame of a session, and its
-- notice is delivered next.
module _ (m : Mdbx) (laws : Laws m) (a : App m) (id frame key : Bytes) (x : Session) (db' : m.Txn)
    (now later : ℤ) (accepts : Bool) where
  pub frame_in-Kept :
      Sound a.server.bridge
      → Records a.recorder
      → lookup id a.server.bridge.sessions ≡ some x
      → x.is_active ≡ true
      → frame ≢ []
      → save_opus_frame m a.server.db id user_source frame now ≡ ok (key, db')
      → Kept m a id frame now
          (step m (step m a (frame_in id now accepts frame)) (delivered (length a.pending) later))
  frame_in-Kept sound records there active full saves =
      let on : a.server.bridge.hooks.incoming ≡ true = ap (λ (h : Hooks). h.incoming) sound.hooks in
      let (meta, own, time, told) =
        process_incoming_opus-notices a.server.bridge.hooks x now accepts frame on active in
      let (stored, counts) =
        add_packet_lem m laws a.recorder a.server.db db' id frame user_source key now later full
          saves in
      let b = step m a (frame_in id now accepts frame) in
      let (pending, same, db) = frame_in-pending m a id frame x now accepts there in
      let queued : b.pending ≡ a.pending ++ incoming_packet meta frame ∷ [] =
        rw pending (rw told refl) in
      let picked : pick (length a.pending) b.pending
          ≡ some (incoming_packet meta frame, a.pending) =
        rw queued (pick-last (incoming_packet meta frame) a.pending) in
      let (rest, recorded, written) =
        delivered-incoming m b (length a.pending) later meta frame a.pending picked
          (ap (λ (r : Recorder). r.record_incoming) same ∙ records.0) in
      let named = own ∙ sound.keyed id x there in
      let args : add_packet m b.recorder b.server.db meta.session_id frame user_source
            meta.timestamp later
          ≡ add_packet m a.recorder a.server.db id frame user_source now later =
        cc in
      let recorder = recorded ∙ ap (λ (r : Added m). r.recorder) args in
      let store = written ∙ ap (λ (r : Added m). r.db) args in
      (
        ap (λ t. lookup (audio_key id user_source now) (m.entries t)) store ∙ stored,
        λ other. ap (λ r. get_recording_stats r other) recorder ∙ counts other,
        rest,
      )

-- From `main`'s start on, whatever the program has handled: when a frame that is not empty comes in
-- for a session that the bridge has and that is active, its notice is delivered next, and storing it
-- succeeds, then it is stored under the session, the source "user" and the time at which it came in,
-- it counts as one more incoming packet of the session's recording, and the recordings of other
-- sessions and the notices that were pending stay as they were.
pub frame_lem :
    (m : Mdbx) (laws : Laws m) (env : Environment) (opens : Bytes → Option m.Txn) (a0 : App m)
    (actions : List Action) (id frame key : Bytes) (x : Session) (db' : m.Txn) (now later : ℤ)
    (accepts : Bool)
    → start m env opens ≡ ok a0
    → let a = run m a0 actions in
      lookup id a.server.bridge.sessions ≡ some x
      → x.is_active ≡ true
      → frame ≢ []
      → save_opus_frame m a.server.db id user_source frame now ≡ ok (key, db')
      → let b =
          step m (step m a (frame_in id now accepts frame)) (delivered (length a.pending) later) in
        Kept m a id frame now b
frame_lem m laws env opens a0 actions id frame key x db' now later accepts begun there active full
      saves =
    let a = run m a0 actions in
    frame_in-Kept m laws a id frame key x db' now later accepts
      (run-Sound m env opens a0 actions begun)
      (run-Records m a0 actions (start-Records m env opens a0 begun)) there active full saves
