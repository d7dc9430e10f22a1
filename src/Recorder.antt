-- ===== src/Recorder.antt =====
-- internal/controllers/recorder.go: the recordings in progress, the packets that they store, and
-- the packets that a WebM file is made of. The WebM writer is a parameter.
pub mod Packets
pub mod Timecodes
pub mod Orderings
pub mod Loading
pub mod Webm
use openai_gate.Base.{
  ℕ, ◌+◌, ◌-◌, ◌/◌, ◌^◌, min, Bool, true, false, List, [], ◌∷◌, ◌++◌, map, Option, none, some,
  Bytes, bytes_eq, codes, Result, ok, err, keep, ◌==◌, if◌then◌else◌,
}
use openai_gate.Base.Assoc.{Assoc, lookup, insert, remove}
use openai_gate.Text.Decimal.Int.{ℤ, pos, negsuc, int_eq}
use openai_gate.Mdbx.{Mdbx, Error}
use openai_gate.Database.{Fallible}
use openai_gate.ContextStore.{OpusBatch, save_opus_frame, get_opus_frames}
use openai_gate.Bridge.Sessions.{ai_source, user_source, Metadata, add64}

pub record SessionRecording : Type 0 where
  pub session_id : Bytes
  pub start_time : ℤ
  pub incoming_count : ℕ
  pub outgoing_count : ℕ

pub record Recorder : Type 0 where
  pub recordings : Assoc Bytes SessionRecording
  pub record_incoming : Bool
  pub record_outgoing : Bool
  pub enable_merging : Bool
  pub ffmpeg_path : Bytes

-- `NewOpusRecorderController`
abbrev pub new_recorder : Recorder
new_recorder = record {
  recordings = [];
  record_incoming = true;
  record_outgoing = true;
  enable_merging = true;
  ffmpeg_path = codes "ffmpeg";
}

unfoldable pub set_ffmpeg_path : Recorder → Bytes → Recorder
set_ffmpeg_path r path = record r { ffmpeg_path = path }

unfoldable pub set_merging_enabled : Recorder → Bool → Recorder
set_merging_enabled r enabled = record r { enable_merging = enabled }

unfoldable pub set_recording_options : Recorder → Bool → Bool → Recorder
set_recording_options r user ai = record r { record_incoming = user; record_outgoing = ai }

abbrev or_new : Bytes → ℤ → Option SessionRecording → SessionRecording
or_new id now none = record {
  session_id = id;
  start_time = now;
  incoming_count = 0;
  outgoing_count = 0;
}
or_new id now (some x) = x

-- A packet from the user counts as incoming, any other as outgoing.
unfoldable pub count_packet : Bytes → SessionRecording → SessionRecording
count_packet direction x =
    if direction == user_source
    then record x { incoming_count = add64 x.incoming_count 1 }
    else record x { outgoing_count = add64 x.outgoing_count 1 }

module _ (m : Mdbx) where
  pub record Added : Type 0 where
    pub recorder : Recorder
    pub db : m.Txn

  saved : Recorder → m.Txn → Bytes → Bytes → SessionRecording → Fallible (Bytes × m.Txn) → Added
  unfolding count_packet
  saved r db id direction x (err e) = record {
    recorder = record r { recordings = insert id x r.recordings };
    db = db;
  }
  saved r db id direction x (ok (key, db')) = record {
    recorder = record r { recordings = insert id (count_packet direction x) r.recordings };
    db = db';
  }

  -- `addPacket`: the recording is there from the first packet on; a packet counts when it is stored.
  unfoldable pub add_packet : Recorder → m.Txn → Bytes → Bytes → Bytes → ℤ → ℤ → Added
  unfolding saved
  add_packet r db id packet direction timestamp now =
      if packet == []
      then record { recorder = r; db = db }
      else saved r db id direction (or_new id now (lookup id r.recordings))
          (save_opus_frame m db id direction packet timestamp)

  -- The handlers of incoming and of outgoing packets.
  unfoldable pub on_incoming : Recorder → m.Txn → Bytes → Metadata → ℤ → Added
  on_incoming r db packet meta now =
      if r.record_incoming
      then add_packet r db meta.session_id packet user_source meta.timestamp now
      else record { recorder = r; db = db }

  unfoldable pub on_outgoing : Recorder → m.Txn → Bytes → Metadata → ℤ → Added
  on_outgoing r db packet meta now =
      if r.record_outgoing
      then add_packet r db meta.session_id packet ai_source meta.timestamp now
      else record { recorder = r; db = db }

-- `finalizeSession`: the recording is dropped; its counts go to the log. A session that has none
-- changes nothing.
unfoldable pub finalize_session : Recorder → Bytes → Recorder × Option SessionRecording
finalize_session r id = elim (lookup id r.recordings) [
  | none ↦ (r, none)
  | some x ↦ (record r { recordings = remove id r.recordings }, some x)
]

-- `ForceFinalize`
unfoldable pub force_finalize : Recorder → Bytes → Recorder
force_finalize r id = (finalize_session r id).0

-- `GetActiveRecordings`; `range` is the order in which Go visits the recordings.
unfoldable pub get_active_recordings :
    (Assoc Bytes SessionRecording → Assoc Bytes SessionRecording) → Recorder → List Bytes
get_active_recordings range r = map (λ x. x.0) (range r.recordings)

-- `GetRecordingStats`, without the duration.
unfoldable pub get_recording_stats : Recorder → Bytes → ℕ × ℕ × Bool
get_recording_stats r id = elim (lookup id r.recordings) [
  | none ↦ (0, 0, false)
  | some x ↦ (x.incoming_count, x.outgoing_count, true)
]

finalize_all : Recorder → List Bytes → Recorder
finalize_all r [] = r
finalize_all r (id ∷ ids) = finalize_all (finalize_session r id).0 ids

unfoldable pub close :
    (Assoc Bytes SessionRecording → Assoc Bytes SessionRecording) → Recorder → Recorder
unfolding finalize_all get_active_recordings
close range r = finalize_all r (get_active_recordings range r)

-- A packet as `loadPacketsFromStore` makes it of a stored frame.
pub record OpusPacket : Type 0 where
  pub frame : Bytes
  pub timestamp : ℤ
  pub source : Bytes

abbrev pub packets_of : Bytes → Assoc ℤ Bytes → List OpusPacket
packets_of source [] = []
packets_of source ((t, frame) ∷ frames) =
    record { frame = frame; timestamp = t; source = source } ∷ packets_of source frames

-- A batch that cannot be loaded counts as empty.
unfoldable pub loaded :
    (Assoc ℤ Bytes → Assoc ℤ Bytes) → Bytes → Fallible OpusBatch → List OpusPacket
loaded visit source (err e) = []
loaded visit source (ok batch) = packets_of source (visit batch.frames)

-- `t.Sub(base)` in nanoseconds, cut off below at 0 and above at the longest duration.
unfoldable pub elapsed : ℤ → ℤ → ℕ
elapsed (pos base) (pos t) = min (t - base) (2 ^ 63 - 1)
elapsed (pos base) (negsuc t) = 0
elapsed (negsuc base) (pos t) = min (t + base + 1) (2 ^ 63 - 1)
elapsed (negsuc base) (negsuc t) = min (base - t) (2 ^ 63 - 1)

-- The timecode of a packet: whole milliseconds since the first one.
unfoldable pub timecode : ℤ → OpusPacket → ℕ
unfolding elapsed
timecode base p = elapsed base p.timestamp / 1000000

unfoldable pub blocks : ℤ → List OpusPacket → List (ℕ × Bytes)
unfolding timecode
blocks base [] = []
blocks base (p ∷ ps) = (timecode base p, p.frame) ∷ blocks base ps

pub data WebmError : Type 0 where
  no_packets : WebmError
  writer_failed : WebmError

-- "User#" or "Assistant#", and the session.
unfoldable pub track_name : Bytes → Bytes → Bytes
track_name source id = (if source == user_source then codes "User#" else codes "Assistant#") ++ id

or_failed : Option Bytes → Result WebmError Bytes
or_failed none = err writer_failed
or_failed (some file) = ok file

-- `createSingleTrackWebMData` of the packets that were chosen; there must be one.
unfoldable pub create_track :
    (Bytes → List (ℕ × Bytes) → Option Bytes) → Bytes → List OpusPacket → Result WebmError Bytes
unfolding blocks or_failed
create_track write name [] = err no_packets
create_track write name (p ∷ ps) = or_failed (write name (blocks p.timestamp (p ∷ ps)))

module _ (m : Mdbx) (range : Assoc Bytes Bytes → Assoc Bytes Bytes)
    (visit : Assoc ℤ Bytes → Assoc ℤ Bytes) where
  unfoldable pub load_packets_from_store : m.Txn → Bytes → List OpusPacket
  unfolding loaded
  load_packets_from_store db id =
      loaded visit ai_source (get_opus_frames m range db id ai_source)
      ++ loaded visit user_source (get_opus_frames m range db id user_source)

  -- `sort` is `sort.Slice` by time; `write` makes the file of a track's name and its blocks.
  unfoldable pub create_webm_data :
      (List OpusPacket → List OpusPacket)
      → (Bytes → List (ℕ × Bytes) → Option Bytes)
      → m.Txn
      → Bytes
      → Bytes
      → Result WebmError Bytes
  unfolding create_track
  create_webm_data sort write db id source =
      create_track write (track_name source id)
        (keep (λ p. p.source == source) (sort (load_packets_from_store db id)))
