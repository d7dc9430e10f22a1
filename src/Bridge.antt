-- ===== src/Bridge.antt =====
-- internal/bridge/bridge.go: sessions between an endpoint and the voice service. A handler runs in
-- a goroutine of its own: its call is a notice in the output. The atomic int64 counters are kept
-- as their 64 bits. Go shares a session by its pointer; here an operation on a session returns it.
pub mod Sessions
pub mod Lifecycle
pub mod Playback
pub mod Retired
pub mod Playing
pub mod Connecting
pub mod Requests
pub mod Answered
pub mod Shutdown
use openai_gate.Base.{
  ℕ, Bool, true, false, List, [], ◌∷◌, ◌++◌, Option, none, some, Bytes, bytes_eq, codes, Result, ok,
  err, ◌==◌, if◌then◌else◌,
}
use openai_gate.Base.Assoc.{Assoc, lookup, insert, remove}
use openai_gate.Text.Decimal.Int.{ℤ}
use openai_gate.Mdbx.{Mdbx}
use openai_gate.Database.{Fallible}
use openai_gate.ContextStore.{save_user_session, get_context}
use openai_gate.Openai
use openai_gate.Openai.{Service, Handlers}
use Sessions
use Sessions.{Session, Hooks, Notice, Reason, manual_removal, bridge_shutdown}

pub record Bridge : Type 0 where
  pub sessions : Assoc Bytes Session
  pub api_key : Bytes
  pub hooks : Hooks
  pub has_store : Bool

-- `NewBridge`
abbrev pub new_bridge : Bytes → Bridge
new_bridge key = record {
  sessions = [];
  api_key = key;
  hooks = record { incoming = false; outgoing = false; session_end = false };
  has_store = false;
}

pub data CreateError : Type 0 where
  empty_api_key : CreateError
  nil_store_panic : CreateError
  connect_failed : CreateError

-- The handlers that `CreateSession` sets.
abbrev pub all_handlers : Handlers
all_handlers = record {
  opus_data = true;
  text_data = true;
  speech_start = true;
  response_done = true;
  response_created = true;
  error = true;
  close = true;
}

-- `NewOpenAIService` with the handlers set, and what `Connect` leaves when it succeeds.
abbrev pub connected_service : Bytes → Service
connected_service prompt = record {
  handlers = all_handlers;
  is_response_playing = false;
  current_item_id = [];
  closed = false;
  cancelled = false;
  has_channel = true;
  has_connection = true;
  has_track = true;
  prompt = prompt;
}

abbrev pub new_session : Bytes → Bytes → Bytes → Session
new_session id identifier prompt = record {
  id = id;
  identifier = identifier;
  is_active = true;
  cancelled = false;
  has_endpoint = true;
  is_response_playing = false;
  audio_sample_count = 0;
  played_sample_count = 0;
  current_item_id = [];
  input_packet_count = 0;
  output_packet_count = 0;
  opus_frame_count = 0;
  incoming_seq_num = 0;
  outgoing_seq_num = 0;
  opus_buffer = [];
  service = connected_service prompt;
}

-- An empty identifier becomes "default".
unfoldable pub or_default : Bytes → Bytes
or_default identifier = if identifier == [] then codes "default" else identifier

-- The prompt is the stored context, or empty when there is none to read.
unfoldable pub prompt_of : Fallible Bytes → Bytes
prompt_of (ok context) = context
prompt_of (err e) = []

-- The error of `SaveUserSession` is not looked at.
unfoldable pub kept_state : (m : Mdbx) → m.Txn → Fallible (Bytes × m.Txn) → m.Txn
kept_state m db (ok (key, db')) = db'
kept_state m db (err e) = db

module _ (m : Mdbx) where
  -- What `CreateSession` leaves in the store and in the bridge, the notices that its failing
  -- connection causes, the session or the error, and the session that it drops when it returns the
  -- error of `Connect`, as it leaves that session.
  pub record Created : Type 0 where
    pub db : m.Txn
    pub bridge : Bridge
    pub notices : List Notice
    pub outcome : Result CreateError Session
    pub dropped : Option Session

  -- `connects` is the result of the service's `Connect`; a failing one gives the text of its error and
  -- the service as it has left it.
  unfoldable pub create_session :
      Bridge → m.Txn → Bytes → Bytes → Bytes → ℤ → Result (Bytes × Service) (Unit {0}) → Created
  unfolding or_default prompt_of kept_state
  create_session b db endpoint_id identifier from now connects =
      let name = or_default identifier in
      let db' = kept_state m db (save_user_session m db name endpoint_id from now) in
      let session = new_session endpoint_id name (prompt_of (get_context m db' name)) in
      let opened = record b { sessions = insert endpoint_id session b.sessions } in
      if b.api_key == []
      then record { db = db; bridge = b; notices = []; outcome = err empty_api_key; dropped = none }
      else if b.has_store
      then elim connects [
        | ok _ ↦ record {
          db = db';
          bridge = opened;
          notices = [];
          outcome = ok session;
          dropped = none;
        }
        | err (text, service) ↦ record {
          db = db';
          bridge = b;
          notices = Sessions.on_error b.hooks session text;
          outcome = err connect_failed;
          dropped = some (record session { cancelled = true; service = service });
        }
      ]
      else record {
        db = db;
        bridge = b;
        notices = [];
        outcome = err nil_store_panic;
        dropped = none;
      }

-- What is done to a session that leaves the bridge.
unfoldable pub end_session : Session → Session
end_session s = record s {
  is_active = false;
  cancelled = true;
  service = (Openai.close s.service).0;
}

-- What a removal leaves: the bridge, the notices, and the session as its other holders see it.
pub record Removal : Type 0 where
  pub bridge : Bridge
  pub notices : List Notice
  pub session : Option Session

unfoldable pub end_found : Bridge → Bytes → Reason → Option Session → Removal
unfolding end_session
end_found b id reason none = record { bridge = b; notices = []; session = none }
end_found b id reason (some s) = record {
  bridge = record b { sessions = remove id b.sessions };
  notices = Sessions.notify_end b.hooks s reason;
  session = some (end_session s);
}

unfoldable pub remove_session_with_reason : Bridge → Bytes → Reason → Removal
unfolding end_found
remove_session_with_reason b id reason = end_found b id reason (lookup id b.sessions)

-- `RemoveSession`
unfoldable pub remove_session : Bridge → Bytes → Removal
unfolding end_found
remove_session b id = end_found b id manual_removal (lookup id b.sessions)

-- The loop of `Shutdown` over the sessions that it found: a notice, then the removal.
unfoldable pub shutdown_loop : Bridge → List Session → Bridge × List Notice
shutdown_loop b [] = (b, [])
shutdown_loop b (s ∷ ss) =
    let told = Sessions.notify_end b.hooks s bridge_shutdown in
    let gone = remove_session b s.id in
    let (b', more) = shutdown_loop gone.bridge ss in (b', told ++ (gone.notices ++ more))

abbrev pub values : Assoc Bytes Session → List Session
values [] = []
values ((k, s) ∷ m) = s ∷ values m

-- `Shutdown`; `range` is the order in which Go visits the sessions.
unfoldable pub shutdown :
    (Assoc Bytes Session → Assoc Bytes Session) → Bridge → Bridge × List Notice
unfolding shutdown_loop
shutdown range b = shutdown_loop b (values (range b.sessions))

-- `GetSession`
unfoldable pub get_session : Bridge → Bytes → Option Session
get_session b id = lookup id b.sessions

-- `SetContextStore`, and the setters of the three handlers.
unfoldable pub set_context_store : Bridge → Bridge
set_context_store b = record b { has_store = true }

unfoldable pub set_incoming_handler : Bridge → Bool → Bridge
set_incoming_handler b on = record b { hooks = record b.hooks { incoming = on } }

unfoldable pub set_outgoing_handler : Bridge → Bool → Bridge
set_outgoing_handler b on = record b { hooks = record b.hooks { outgoing = on } }

unfoldable pub set_session_end_handler : Bridge → Bool → Bridge
set_session_end_handler b on = record b { hooks = record b.hooks { session_end = on } }

-- `GetSessionStats`: input and output packets, audio and played samples, frames.
abbrev pub Stats : Type 0
Stats = ℕ × ℕ × ℕ × ℕ × ℕ

unfoldable pub get_session_stats : Bridge → Bytes → Stats
get_session_stats b id = elim (lookup id b.sessions) [
  | none ↦ (0, 0, 0, 0, 0)
  | some s ↦ (
    s.input_packet_count, s.output_packet_count, s.audio_sample_count, s.played_sample_count,
    s.opus_frame_count,
  )
]
