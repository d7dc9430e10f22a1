-- ===== src/Webrtc.antt =====
-- internal/webrtc/webrtc.go: browser endpoints, each behind a web socket. The web socket, the peer
-- connection (pion/webrtc) and the audio track are parameters of each call: what they accept and
-- return. A peer connection is known by a number that `NewPeerConnection` gives it.
pub mod Signaling
pub mod Messages
pub mod Audio
pub mod Playing
pub mod Closing
pub mod Lifecycle
pub mod Offers
use openai_gate.Base.{
  ℕ, Bool, true, false, List, [], ◌∷◌, ◌++◌, Option, none, some, Bytes, bytes_eq, codes, Result, ok,
  err, keep, eqb, not, if◌then◌else◌,
}
use openai_gate.Base.Assoc.{Assoc, lookup, insert, remove}
use openai_gate.Text.Decimal.Int.{ℤ, format_int}
use openai_gate.Mdbx.{Mdbx}
use openai_gate.Openai.{Service}
use openai_gate.Bridge
use openai_gate.Bridge.{Bridge, CreateError, Created}
use openai_gate.Bridge.Sessions.{Notice, Session}

-- `session` is the id of the endpoint's bridge session; `open_peers` are the peer connections that
-- the endpoint has created and that are not closed.
pub record WebrtcEndpoint : Type 0 where
  pub id : Bytes
  pub identifier : Bytes
  pub conn_open : Bool
  pub peer_connection : Option ℕ
  pub open_peers : List ℕ
  pub has_local_track : Bool
  pub session : Option Bytes
  pub is_closed : Bool
  pub cancelled : Bool

pub data TrackError : Type 0 where
  endpoint_closed : TrackError
  no_local_track : TrackError
  write_failed : TrackError

-- `SendOpusFrame`; `writes` is whether the track takes the sample.
unfoldable pub send_opus_frame : WebrtcEndpoint → Bool → Result TrackError (Unit {0})
send_opus_frame e writes =
    if e.is_closed
    then err endpoint_closed
    else if e.has_local_track
    then (if writes then ok tt else err write_failed)
    else err no_local_track

-- The session goes, if there is one.
unfoldable pub remove_own : Bridge → Option Bytes → Bridge × List Notice
remove_own b none = (b, [])
remove_own b (some id) = let gone = Bridge.remove_session b id in (gone.bridge, gone.notices)

-- The peer connection that the endpoint holds is closed; others stay as they are.
close_peer : Option ℕ → List ℕ → List ℕ
close_peer none peers = peers
close_peer (some p) peers = keep (λ q. not (eqb q p)) peers

-- `(*WebRTCEndpoint).Close`: only the first call does anything.
unfoldable pub close : Bridge → WebrtcEndpoint → Bridge × List Notice × WebrtcEndpoint
unfolding remove_own close_peer
close b e =
    let (b', told) = remove_own b e.session in
    if e.is_closed then (b, [], e) else (
      b',
      told,
      record e {
        is_closed = true;
        open_peers = close_peer e.peer_connection e.open_peers;
        conn_open = false;
        cancelled = true;
      },
    )

-- The new endpoint of a web socket; its id is the time in nanoseconds.
unfoldable pub new_endpoint : ℤ → Bytes → WebrtcEndpoint
new_endpoint now user = record {
  id = format_int now;
  identifier = user;
  conn_open = true;
  peer_connection = none;
  open_peers = [];
  has_local_track = false;
  session = none;
  is_closed = false;
  cancelled = false;
}

module _ (m : Mdbx) where
  pub record WebrtcService : Type 0 where
    pub endpoints : Assoc Bytes WebrtcEndpoint
    pub bridge : Bridge
    pub db : m.Txn

  -- A service after a step of a handler, the notices of the bridge, and the endpoint whose messages
  -- are read from then on, if there is one.
  pub record Opened : Type 0 where
    pub service : WebrtcService
    pub notices : List Notice
    pub reads : Option Bytes

  -- The end of the first part of `HandleWebSocket`, after `CreateSession`.
  opened : WebrtcService → WebrtcEndpoint → Created m → Result CreateError Session → Opened
  opened s e made (ok session) = record {
    service = record s {
      endpoints = insert e.id (record e { session = some session.id }) s.endpoints;
      bridge = made.bridge;
      db = made.db;
    };
    notices = made.notices;
    reads = some e.id;
  }
  opened s e made (err error) =
      let (b, told, e') = close made.bridge e in
      record {
        service = record s { endpoints = insert e.id e' s.endpoints; bridge = b; db = made.db };
        notices = made.notices ++ told;
        reads = none;
      }

  -- `HandleWebSocket` up to the wait for the endpoint's context. `upgrades` is whether the upgrade
  -- succeeds, `user` the query parameter, `created` the time at `CreateSession`.
  unfoldable pub handle_web_socket :
      WebrtcService → Bool → ℤ → Bytes → ℤ → Result (Bytes × Service) (Unit {0}) → Opened
  unfolding new_endpoint opened
  handle_web_socket s upgrades now user created connects =
      let e = new_endpoint now user in
      let made =
        Bridge.create_session m s.bridge s.db e.id user (codes "webrtc") created connects in
      if upgrades
      then opened s e made made.outcome
      else record { service = s; notices = []; reads = none }

  removed : WebrtcService → Bytes → Option WebrtcEndpoint → WebrtcService × List Notice
  removed s id none = (s, [])
  removed s id (some e) =
      let (b, told, e') = close s.bridge e in
      (record s { endpoints = remove id s.endpoints; bridge = b }, told)

  -- `removeEndpoint`, which `HandleWebSocket` ends with.
  unfoldable pub remove_endpoint : WebrtcService → Bytes → WebrtcService × List Notice
  unfolding removed
  remove_endpoint s id = removed s id (lookup id s.endpoints)
