-- ===== src/Tests/Wiring.antt =====
-- Runs of the theorems on the running program.
use openai_gate.Base.{
  ◌≡◌, refl, Bool, true, false, not, ◌==◌, if◌then◌else◌, List, [], ◌∷◌, ◌++◌, some, Option, arith,
  Bytes, bytes_eq, bytes_beq, codes, ok, err, keep, length,
}
use openai_gate.Base.Assoc.{Assoc, lookup, insert}
use openai_gate.Text.Decimal.Int.{format_int}
use openai_gate.Text.Decimal.Natural.{format_nat}
use openai_gate.Config.{Environment, settings}
use openai_gate.Mdbx.Reference.{reference, reference_laws, Sorted, put_entry}
use openai_gate.Database
use openai_gate.Database.Opening.{
  EnvCall, OpenError, create_dbi, new_env, new_database, close, closes, new_database_lem,
}
use openai_gate.ContextStore.{save, save_opus_frame, save_user_session, get_context}
use openai_gate.ContextStore.Keys.{audio_key}
use openai_gate.Bridge.{new_session, create_session, or_default, prompt_of, kept_state}
use openai_gate.Bridge.Sessions.{
  Session, user_source, ai_source, Metadata, incoming_packet, ended, manual_removal,
}
use openai_gate.Openai.Tracks.{AudioRound, eof, broken, handle_incoming_audio}
use openai_gate.Openai.Listening.{frames, events, payloads, failures, handle_incoming_audio_lem}
use openai_gate.Webrtc
use openai_gate.Recorder
use openai_gate.Recorder.{add_packet, get_recording_stats, new_recorder}
use openai_gate.Recorder.Packets.{counted}
use openai_gate.Recorder.Orderings.{add_packet_comm}
use openai_gate.Sip.Rtp.{Endpoint}
use openai_gate.App.{App, start, wired_bridge, deliver}
use openai_gate.App.Late.{deliver_late}
use openai_gate.Sip.Server.{no_packets}
use openai_gate.App.Steps.{Action, step, run, browser_came, frame_in, delivered}
use openai_gate.App.Sound.{Sound}
use openai_gate.App.Sessions.{run-Sound}
use openai_gate.App.Frames.{frame_lem}
use openai_gate.Tests.Data.{empty_store, with, call_1, hello, user, noon, talking, heard}

abbrev pub environment : Environment
environment = (codes "OPENAI_API_KEY", codes "key") ∷ []

abbrev pub opens : Bytes → Option Sorted
opens path = some empty_store

abbrev pub at_start : App reference
at_start = record {
  server = record {
    endpoints = [];
    bridge = wired_bridge (codes "key");
    db = empty_store;
    public_host = codes "0.0.0.0";
    cancelled = false;
    counters = no_packets;
  };
  browsers = [];
  recorder = new_recorder;
  pending = [];
}

pub starts : start reference environment opens ≡ ok at_start
unfolding start settings wired_bridge Recorder.set_recording_options lookup bytes_beq
starts = refl

abbrev visit : List Action
visit = browser_came true noon (codes "alice") noon (ok tt) ∷ []

abbrev browser : Bytes
browser = format_int noon

abbrev running : App reference
running = run reference at_start visit

abbrev talks : Session
talks = new_session browser (codes "alice") []

abbrev with_frame : Sorted
with_frame = with running.server.db (audio_key browser user_source noon) hello

talks_there : lookup browser running.server.bridge.sessions ≡ some talks
unfolding run step wired_bridge Webrtc.handle_web_socket create_session or_default prompt_of
    kept_state get_context save_user_session save Database.set Database.get Database.update
    Database.view Database.hide_missing lookup insert bytes_beq format_int format_nat put_entry
talks_there = refl

frame_saves :
    save_opus_frame reference running.server.db browser user_source hello noon
    ≡ ok (audio_key browser user_source noon, with_frame)
unfolding save_opus_frame save Database.set Database.update
frame_saves = refl

abbrev recorded : App reference
recorded =
    step reference (step reference running (frame_in browser noon true hello))
      (delivered (length running.pending) noon)

frame_example :
    (lookup (audio_key browser user_source noon) recorded.server.db.0 ≡ some hello)
    × ((other : Bytes)
        → get_recording_stats recorded.recorder other ≡ (
            if browser == other
            then counted user_source (get_recording_stats running.recorder browser)
            else get_recording_stats running.recorder other))
    × (recorded.pending ≡ running.pending)
frame_example =
    frame_lem reference reference_laws environment opens at_start visit browser hello
      (audio_key browser user_source noon) talks with_frame noon noon true starts talks_there refl
      (λ h. absurd (ground arith)) frame_saves

run-Sound_example : Sound running.server.bridge
run-Sound_example = run-Sound reference environment opens at_start visit starts

abbrev pub endpoints_in_order : Assoc Bytes Endpoint → Assoc Bytes Endpoint
endpoints_in_order es = es

abbrev pub sessions_in_order : Assoc Bytes Session → Assoc Bytes Session
sessions_in_order es = es

abbrev user_first : Recorder.Added reference
user_first = add_packet reference new_recorder empty_store call_1 hello user_source noon noon

abbrev assistant_first : Recorder.Added reference
assistant_first = add_packet reference new_recorder empty_store call_1 user ai_source noon noon

apart : audio_key call_1 user_source noon ≡ audio_key call_1 ai_source noon → ⊥
apart h = ground arith

add_packet_comm_example :
    ((j : Bytes)
      → lookup j
          (add_packet reference user_first.recorder user_first.db call_1 user ai_source noon
            noon).db.0
        ≡ lookup j
            (add_packet reference assistant_first.recorder assistant_first.db call_1 hello
              user_source noon noon).db.0)
    × ((other : Bytes)
        → get_recording_stats
            (add_packet reference user_first.recorder user_first.db call_1 user ai_source noon
              noon).recorder
            other
          ≡ get_recording_stats
              (add_packet reference assistant_first.recorder assistant_first.db call_1 hello
                user_source noon noon).recorder
              other)
add_packet_comm_example =
    add_packet_comm reference reference_laws
      (λ t k v. (with t k v, unfold Database.set Database.update in refl)) new_recorder empty_store
      call_1 call_1 hello user user_source ai_source noon noon noon noon
      (λ h. absurd (ground arith)) (λ h. absurd (ground arith)) apart

-- Everything succeeds but the last call.
abbrev no_dbi : EnvCall → Bool
no_dbi (create_dbi name) = false
no_dbi call = true

new_database_example :
    ((new_database no_dbi (codes "db")).outcome ≡ ok tt
      → (closes (new_database no_dbi (codes "db")).calls ≡ 0)
        × (closes (
              (new_database no_dbi (codes "db")).calls
              ++ (close true).0
              ++ (close (close true).1).0)
            ≡ 1))
    × ((e : OpenError)
        → (new_database no_dbi (codes "db")).outcome ≡ err e
        → closes (new_database no_dbi (codes "db")).calls
          ≡ (if no_dbi (new_env (codes "database")) then 1 else 0))
new_database_example = new_database_lem no_dbi (codes "db")

abbrev rounds : List AudioRound
rounds =
    record { is_closed = false; read = ok hello }
    ∷ record { is_closed = false; read = err (broken (codes "late")) }
    ∷ record { is_closed = false; read = ok [] }
    ∷ record { is_closed = false; read = ok user }
    ∷ record { is_closed = false; read = err eof }
    ∷ []

handle_incoming_audio_example :
    (frames (handle_incoming_audio talking.service rounds)
      ≡ keep (λ f. not (f == [])) (payloads rounds))
    × (events (handle_incoming_audio talking.service rounds) ≡ failures rounds)
handle_incoming_audio_example = handle_incoming_audio_lem talking.service rounds refl refl refl

abbrev heard_meta : Metadata
heard_meta = record {
  session_id = call_1;
  timestamp = noon;
  direction = user_source;
  packet_size = 5;
  sequence_num = 1;
}

heard_saves :
    save_opus_frame reference empty_store call_1 user_source hello noon
    ≡ ok (audio_key call_1 user_source noon, heard)
unfolding save_opus_frame save Database.set Database.update
heard_saves = refl

abbrev in_time : App reference
in_time =
    deliver reference (deliver reference at_start (incoming_packet heard_meta hello) noon)
      (ended call_1 manual_removal) noon

abbrev too_late : App reference
too_late =
    deliver reference (deliver reference at_start (ended call_1 manual_removal) noon)
      (incoming_packet heard_meta hello) noon

deliver_late_example :
    (get_recording_stats in_time.recorder call_1 ≡ (0, 0, false))
    × (get_recording_stats too_late.recorder call_1 ≡ (1, 0, true))
    × (too_late.server.db ≡ in_time.server.db)
deliver_late_example =
    deliver_late reference at_start heard_meta hello (audio_key call_1 user_source noon)
      manual_removal noon noon heard refl (λ h. absurd (ground arith)) heard_saves
