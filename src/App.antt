-- ===== src/App.antt =====
-- cmd/openai-gate/main.go: how the parts are put together. All parts share one bridge and one store,
-- which stand in the SIP server's record here; without SIP its table of endpoints stays empty. The
-- handlers of the bridge run in goroutines of their own: a notice is pending until it is delivered.
pub mod Steps
pub mod Sound
pub mod Sessions
pub mod Recording
pub mod Frames
pub mod Datagrams
pub mod Calls
pub mod Main
pub mod Shutdown
pub mod Late
use openai_gate.Base.{
  true, List, [], ◌++◌, Option, none, some, Bytes, bytes_eq, codes, Result, ok, err, ◌==◌,
  if◌then◌else◌,
}
use openai_gate.Base.Assoc.{Assoc, insert}
use openai_gate.Text.Decimal.Int.{ℤ}
use openai_gate.Config.{Environment, Settings, settings}
use openai_gate.Mdbx.{Mdbx}
use openai_gate.Bridge
use openai_gate.Bridge.{Bridge, new_bridge}
use openai_gate.Bridge.Sessions.{Session, Notice, incoming_packet, outgoing_packet, ended}
use openai_gate.Recorder
use openai_gate.Recorder.{Recorder, new_recorder}
use openai_gate.Sip.Rtp.{Endpoint}
use openai_gate.Sip.Server
use openai_gate.Sip.Server.{Server}
use openai_gate.Webrtc
use openai_gate.Webrtc.{WebrtcEndpoint, WebrtcService}

-- The bridge with the store and the three handlers that `main` sets.
unfoldable pub wired_bridge : Bytes → Bridge
unfolding Bridge.set_session_end_handler Bridge.set_outgoing_handler Bridge.set_incoming_handler
    Bridge.set_context_store
wired_bridge key =
    Bridge.set_session_end_handler
      (Bridge.set_outgoing_handler
        (Bridge.set_incoming_handler (Bridge.set_context_store (new_bridge key)) true) true)
      true

pub data StartError : Type 0 where
  api_key_required : StartError
  no_context_store : StartError

module _ (m : Mdbx) where
  pub record App : Type 0 where
    pub server : Server m
    pub browsers : Assoc Bytes WebrtcEndpoint
    pub recorder : Recorder
    pub pending : List Notice

  -- `main` up to its wait; `opens` is what `NewContextStore` makes of the path.
  started : Settings → Option m.Txn → Result StartError App
  started c none = err no_context_store
  started c (some db) = ok (record {
    server = Server.new_server m c.sip_public_host (wired_bridge c.api_key) db;
    browsers = [];
    recorder = Recorder.set_recording_options new_recorder true true;
    pending = [];
  })

  unfoldable pub start : Environment → (Bytes → Option m.Txn) → Result StartError App
  unfolding started wired_bridge
  start env opens =
      let c = settings env in
      if c.api_key == []
      then err api_key_required
      else started c (opens (c.data_dir ++ codes "/contexts.db"))

  -- The web service, as it sees the shared bridge and store.
  abbrev pub web_service : App → WebrtcService m
  web_service a = record { endpoints = a.browsers; bridge = a.server.bridge; db = a.server.db }

  abbrev pub after_web : App → WebrtcService m → List Notice → App
  after_web a s told = record a {
    server = record a.server { bridge = s.bridge; db = s.db };
    browsers = s.endpoints;
    pending = a.pending ++ told;
  }

  abbrev pub after_sip : App → Server m → List Notice → App
  after_sip a s told = record a { server = s; pending = a.pending ++ told }

  -- What an operation on a session of the bridge left of it.
  abbrev pub after_session : App → Bytes → Session × List Notice → App
  after_session a id (x, told) = record a {
    server = record a.server {
      bridge = record a.server.bridge { sessions = insert id x a.server.bridge.sessions };
    };
    pending = a.pending ++ told;
  }

  -- The closures that `main` gives the bridge: each hands its packet, or the session's id, to the
  -- handler of the recorder.
  unfoldable pub deliver : App → Notice → ℤ → App
  deliver a (incoming_packet meta frame) now =
      let r = Recorder.on_incoming m a.recorder a.server.db frame meta now in
      record a { recorder = r.recorder; server = record a.server { db = r.db } }
  deliver a (outgoing_packet meta frame) now =
      let r = Recorder.on_outgoing m a.recorder a.server.db frame meta now in
      record a { recorder = r.recorder; server = record a.server { db = r.db } }
  deliver a (ended id reason) now = record a {
    recorder = (Recorder.finalize_session a.recorder id).0;
  }

  sip_stopped :
      Settings → (Assoc Bytes Endpoint → Assoc Bytes Endpoint) → App → Server m × List Notice
  sip_stopped c range a = if c.enable_sip then Server.stop m range a.server else (a.server, [])

  -- The goroutine that stops the program: the SIP server if there is one, then the bridge. A shutdown
  -- of the HTTP server leaves the web sockets, which were taken over, as they are. The store is closed
  -- after that, which is `close` of Database/Opening.antt.
  unfoldable pub stop :
      Settings
      → (Assoc Bytes Endpoint → Assoc Bytes Endpoint)
      → (Assoc Bytes Session → Assoc Bytes Session)
      → App
      → App
  unfolding sip_stopped
  stop c range_endpoints range_sessions a =
      let (server, told) = sip_stopped c range_endpoints a in
      let (b, more) = Bridge.shutdown range_sessions server.bridge in
      record a { server = record server { bridge = b }; pending = a.pending ++ told ++ more }
