-- ===== src/Sip/Server.antt =====
-- internal/sip/sip.go: the server's table of endpoints and its handlers. The table holds pointers:
-- an update of an endpoint is an update of its entry.
pub mod Calls
pub mod Filed
use openai_gate.Base.{
  ℕ, Bool, true, false, List, [], ◌∷◌, ◌++◌, map, Option, none, some, Bytes, bytes_eq, codes,
  Result, ok, err, ◌==◌, if◌then◌else◌,
}
use openai_gate.Base.Assoc.{Assoc, lookup, insert, remove}
use openai_gate.Text.Decimal.Int.{ℤ, pos}
use openai_gate.Mdbx.{Mdbx}
use openai_gate.Openai.{Service}
use openai_gate.Bridge
use openai_gate.Bridge.{Bridge}
use openai_gate.Bridge.Sessions.{Notice, Session}
use openai_gate.Sip.Rtp.{Addr, Endpoint, Counters}
use openai_gate.Sip.Sdp.{extract_client_rtp_address, generate_opus_only_sdp}

-- The parts of an INVITE that the server reads: the user of its From and Contact headers.
pub record Invite : Type 0 where
  pub call_id : Bytes
  pub from : Option Bytes
  pub contact : Option Bytes
  pub body : Bytes

pub record Response : Type 0 where
  pub code : ℕ
  pub body : Bytes

-- What the system gives an INVITE: the local port, whether it can be bound, the public mapping of
-- the socket, the random numbers, the clock, and the resolver.
pub record InviteWorld : Type 0 where
  pub local_port : ℕ
  pub binds : Bool
  pub mapping : Option (Bytes × ℤ)
  pub ssrc : ℕ
  pub seq_num : ℕ
  pub timestamp_base : ℕ
  pub now : ℤ
  pub resolve : Bytes → ℕ → Option Addr

abbrev or_empty : Option Bytes → Bytes
or_empty none = []
or_empty (some s) = s

-- The user of From; where that is missing or empty, the user of Contact.
unfoldable pub identifier_of : Invite → Bytes
identifier_of r = if or_empty r.from == [] then or_empty r.contact else or_empty r.from

unfoldable pub public_address : Bytes → InviteWorld → Bytes × ℤ
public_address public_host w = elim w.mapping [
  | none ↦ (public_host, pos w.local_port)
  | some found ↦ found
]

unfoldable pub new_endpoint : Invite → InviteWorld → Endpoint
unfolding identifier_of
new_endpoint r w = record {
  id = r.call_id;
  identifier = identifier_of r;
  has_conn = true;
  remote_addr = extract_client_rtp_address w.resolve r.body;
  has_session = false;
  active = false;
  closed = false;
  cancelled = false;
  seq_num = w.seq_num;
  timestamp = 0;
  ssrc = w.ssrc;
  last_recv_timestamp = 0;
  timestamp_base = w.timestamp_base;
  first_packet = true;
}

-- `(*SIPEndpoint).Close`: only the first call does anything.
unfoldable pub close : Endpoint → Endpoint
close e =
    if e.closed
    then e
    else record e { closed = true; active = false; cancelled = true; has_conn = false }

-- A goroutine that a handler starts: the receiving loop of a call's endpoint, or a number of dummy
-- packets from it to an address.
pub data Task : Type 0 where
  receive_rtp : Bytes → Task
  send_dummies : Bytes → Addr → ℕ → Task

-- The dummy packets go out if the connection and the client's address are there.
unfoldable pub dummies_of : Endpoint → List Task
dummies_of e = elim e.remote_addr [
  | none ↦ []
  | some addr ↦ if e.has_conn then send_dummies e.id addr 5 ∷ [] else []
]

-- The answer to REGISTER: 200, the request's contact if it has one, and an expiry of 3600 seconds.
pub record Registered : Type 0 where
  pub code : ℕ
  pub contact : Option Bytes
  pub expires : Bytes

unfoldable pub handle_register : Option Bytes → Registered
handle_register contact = record { code = 200; contact = contact; expires = codes "3600" }

-- The counters of a new server.
abbrev pub no_packets : Counters
no_packets = record { processed = 0; dropped = 0; sent = 0; received = 0 }

module _ (m : Mdbx) where
  pub record Server : Type 0 where
    pub endpoints : Assoc Bytes Endpoint
    pub bridge : Bridge
    pub db : m.Txn
    pub public_host : Bytes
    pub cancelled : Bool
    pub counters : Counters

  -- `NewSIPServer`, with the bridge and its store; host and port are for the SIP library alone.
  abbrev pub new_server : Bytes → Bridge → m.Txn → Server
  new_server public_host b db = record {
    endpoints = [];
    bridge = b;
    db = db;
    public_host = public_host;
    cancelled = false;
    counters = no_packets;
  }

  -- A server after a handler, the responses that it sent, the notices of the bridge and the
  -- goroutines that were started.
  pub record Handled : Type 0 where
    pub server : Server
    pub responses : List Response
    pub notices : List Notice
    pub started : List Task

  unfoldable pub handle_invite : Server → Invite → InviteWorld → Handled
  unfolding new_endpoint public_address
  handle_invite s r w =
      let (ip, port) = public_address s.public_host w in
      let sdp = generate_opus_only_sdp w.now ip port in
      if w.binds
      then record {
        server = record s { endpoints = insert r.call_id (new_endpoint r w) s.endpoints };
        responses = record { code = 100; body = [] } ∷ record { code = 200; body = sdp } ∷ [];
        notices = [];
        started = receive_rtp r.call_id ∷ [];
      }
      else record {
        server = s;
        responses = record { code = 500; body = [] } ∷ [];
        notices = [];
        started = [];
      }

  -- The endpoint is active from the ACK on, also if no session can be made for it.
  ack_found : Server → Bytes → Option Endpoint → ℤ → Result (Bytes × Service) (Unit {0}) → Handled
  unfolding dummies_of
  ack_found s call_id none now connects = record {
    server = s;
    responses = [];
    notices = [];
    started = [];
  }
  ack_found s call_id (some e) now connects =
      let active = record e { active = true } in
      let made =
        Bridge.create_session m s.bridge s.db e.id e.identifier (codes "sip") now connects in
      let joined : Endpoint = elim made.outcome [
        | ok session ↦ record active { has_session = true }
        | err error ↦ active
      ] in
      record {
        server = record s {
          endpoints = insert call_id joined s.endpoints;
          bridge = made.bridge;
          db = made.db;
        };
        responses = [];
        notices = made.notices;
        started = elim made.outcome [ ok session ↦ dummies_of e | err error ↦ [] ];
      }

  unfoldable pub handle_ack : Server → Bytes → ℤ → Result (Bytes × Service) (Unit {0}) → Handled
  unfolding ack_found
  handle_ack s call_id now connects = ack_found s call_id (lookup call_id s.endpoints) now connects

  -- `closeEndpoint`: the bridge session goes first, if the endpoint has one.
  unfoldable pub close_endpoint : Bridge → Endpoint → Bridge × List Notice × Endpoint
  unfolding close
  close_endpoint b e =
      let gone = Bridge.remove_session b e.id in
      let e' = close (record e { active = false }) in
      if e.has_session then (gone.bridge, gone.notices, e') else (b, [], e')

  bye_found : Server → Bytes → Option Endpoint → Server × List Notice
  bye_found s call_id none = (s, [])
  bye_found s call_id (some e) =
      let (b, told, e') = close_endpoint s.bridge e in
      (record s { endpoints = remove call_id s.endpoints; bridge = b }, told)

  -- `handleBye`, and `handleCancel`, whose body is the same.
  unfoldable pub handle_bye : Server → Bytes → Handled
  unfolding bye_found
  handle_bye s call_id =
      let (s', told) = bye_found s call_id (lookup call_id s.endpoints) in
      record {
        server = s';
        responses = record { code = 200; body = [] } ∷ [];
        notices = told;
        started = [];
      }

  -- The loop of `Stop` over the endpoints, in the order in which they are visited; their entries
  -- stay in the table.
  unfoldable pub stop_loop : Server → List Bytes → Server × List Notice
  stop_loop s [] = (s, [])
  stop_loop s (id ∷ ids) = elim (lookup id s.endpoints) [
    | none ↦ stop_loop s ids
    | some e ↦
        let (b, told, e') = close_endpoint s.bridge e in
        let (s', more) =
          stop_loop (record s { endpoints = insert id e' s.endpoints; bridge = b }) ids in
        (s', told ++ more)
  ]

  abbrev pub keys : Assoc Bytes Endpoint → List Bytes
  keys = map (λ x. x.0)

  unfoldable pub stop :
      (Assoc Bytes Endpoint → Assoc Bytes Endpoint) → Server → Server × List Notice
  unfolding stop_loop
  stop range s = stop_loop (record s { cancelled = true }) (keys (range s.endpoints))
