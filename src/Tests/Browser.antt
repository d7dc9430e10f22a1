-- ===== src/Tests/Browser.antt =====
-- Runs of the theorems on browsers' endpoints and on the service's connection.
use openai_gate.Base.{
  ◌≡◌, ◌↔◌, inl, refl, true, false, ◌==◌, if◌then◌else◌, List, [], ◌∷◌, none, some, Option, arith,
  Bytes, bytes_eq, bytes_beq, codes, ok, err,
}
use openai_gate.Base.Assoc.{lookup}
use openai_gate.Base.Membership.{In}
use openai_gate.Text.Decimal.Int.{format_int, pos}
use openai_gate.Json.{Json, string, object, member, done, get_member, as_string, as_object}
use openai_gate.Json.Names.{same_name, lower}
use openai_gate.Mdbx.Reference.{reference, reference_laws}
use openai_gate.ContextStore.{get_context}
use openai_gate.Bridge.{all_handlers, connected_service, create_session, prompt_of, or_default}
use openai_gate.Bridge.Sessions.{Session}
use openai_gate.Bridge.Connecting.{connect_lem, create_session-leak, reported, has_peer}
use openai_gate.Bridge.Answered.{Requested, Answered, connect-requests_lem}
use openai_gate.Openai.{ConnectError, errored, not_connected, remote_not_set}
use openai_gate.Openai.Decode.{read_string}
use openai_gate.Openai.Ephemeral.{SessionResponse, decode_response, response_member, secret_member}
use openai_gate.Openai.Connect.{
  Peers, HttpAnswer, Body, json_body, sdp_body, new_openai_service, connect, get_ephemeral_key,
  create_peer_connection, setup_data_channel, setup_audio_track, perform_signaling,
}
use openai_gate.Webrtc
use openai_gate.Webrtc.{
  WebrtcService, WebrtcEndpoint, new_endpoint, handle_web_socket, remove_endpoint, close,
}
use openai_gate.Webrtc.Messages.{MessageRound, message_loop, handle_messages}
use openai_gate.Webrtc.Signaling.{SignalingWorld, handle_offer, send_signaling_message}
use openai_gate.Webrtc.Lifecycle.{web_socket_lem, handle_web_socket-err}
use openai_gate.Webrtc.Offers.{handle_offer-leak}
use openai_gate.Tests.Data.{empty_store, noon, open_bridge}

abbrev service : WebrtcService reference
service = record { endpoints = []; bridge = open_bridge; db = empty_store }

abbrev alice : Bytes
alice = codes "alice"

abbrev browser : Bytes
browser = format_int noon

abbrev answers : SignalingWorld
answers = record {
  new_peer = some 2;
  new_track = true;
  add_track = true;
  set_remote = λ type sdp. true;
  create_answer = some (string (codes "v=0"));
  set_local = λ answer. true;
  add_candidate = λ peer c. true;
  writes = λ msg. true;
  uint16_of = λ literal. 0;
}

-- The socket fails at the first read.
abbrev silent : List MessageRound
silent = record { is_done = false; read = none; world = answers } ∷ []

abbrev has_joined : WebrtcEndpoint
has_joined = record (new_endpoint noon alice) { session = some browser }

silent_ends : (message_loop has_joined silent).ended ≡ true
unfolding message_loop
silent_ends = refl

abbrev opened : Webrtc.Opened reference
opened = handle_web_socket reference service true noon alice noon (ok tt)

abbrev gone : WebrtcService reference
gone =
    (remove_endpoint reference (handle_messages reference opened.service browser silent).service
      browser).0

web_socket_example :
    (opened.reads ≡ some browser)
    × ((x : Session) × (lookup browser opened.service.bridge.sessions ≡ some x)
        × (x.service.prompt ≡ prompt_of (get_context reference empty_store (or_default alice))))
    × ((other : Bytes)
        → lookup other gone.endpoints
          ≡ (if browser == other then none else lookup other service.endpoints))
    × ((other : Bytes)
        → lookup other gone.bridge.sessions
          ≡ (if browser == other then none else lookup other service.bridge.sessions))
web_socket_example =
    web_socket_lem reference reference_laws service noon alice noon (λ t. refl)
      (λ h. absurd (ground arith)) refl silent silent_ends

abbrev refused : Webrtc.Opened reference
refused =
    handle_web_socket reference service true noon alice noon
      (err (codes "no route", connected_service alice))

handle_web_socket-err_example :
    (refused.reads ≡ none)
    × (refused.service.bridge ≡ open_bridge)
    × (lookup browser refused.service.endpoints
        ≡ some (record (new_endpoint noon alice) {
          is_closed = true;
          conn_open = false;
          cancelled = true;
        }))
handle_web_socket-err_example =
    handle_web_socket-err reference service noon alice noon (codes "no route")
      (connected_service alice) (λ h. absurd (ground arith)) refl

-- An endpoint whose first offer made the peer connection 1.
abbrev offered : WebrtcEndpoint
offered = record (new_endpoint noon alice) {
  peer_connection = some 1;
  open_peers = 1 ∷ [];
  has_local_track = true;
}

abbrev second_offer : Option Json
second_offer = some (
    object (
      member (codes "type") (string (codes "offer"))
        (member (codes "sdp") (string (codes "v=0")) done)))

second_offer_handled : (handle_offer offered answers second_offer).outcome ≡ ok tt
unfolding new_endpoint handle_offer get_member as_string as_object send_signaling_message bytes_beq
second_offer_handled = refl

handle_offer-leak_example :
    In 1 (close open_bridge (handle_offer offered answers second_offer).endpoint).2.open_peers
handle_offer-leak_example =
    handle_offer-leak open_bridge offered answers second_offer 1 2 (inl refl) refl (omega arith)
      second_offer_handled

abbrev key : Bytes
key = codes "key"

abbrev key_answer : HttpAnswer
key_answer = record { status = 200; body = codes "{}"; complete = true }

abbrev offer_answer : HttpAnswer
offer_answer = record { status = 201; body = codes "answer"; complete = true }

abbrev answer_of : Body → HttpAnswer
answer_of (json_body v) = key_answer
answer_of (sdp_body sdp) = offer_answer

abbrev key_value : Json
key_value = object (
    member (codes "client_secret") (object (member (codes "value") (string (codes "secret")) done))
      done)

abbrev secret : SessionResponse
secret = record {
  id = [];
  model = [];
  expires_at = pos 0;
  client_secret = record { value = codes "secret"; expires_at = pos 0 };
}

abbrev peers : Peers
peers = record {
  answer = λ request. some (answer_of request.body);
  first_value = λ answer. some key_value;
  new_peer = true;
  new_channel = true;
  new_track = true;
  add_track = true;
  create_offer = some (codes "offer");
  set_local = λ sdp. true;
  set_remote = λ sdp. true;
}

secret_decoded : decode_response key_value ≡ some secret
unfolding decode_response response_member secret_member same_name lower read_string bytes_beq
secret_decoded = refl

connect-requests_lem_example :
    Requested key peers (connect (new_openai_service key alice all_handlers) peers).0
    × (((connect (new_openai_service key alice all_handlers) peers).0.outcome ≡ ok tt)
        ↔ Answered key peers)
connect-requests_lem_example = connect-requests_lem key alice peers

-- The same, but the answer is refused as remote description.
abbrev refusing : Peers
refusing = record peers { set_remote = λ sdp. false }

connect_example :
    ((connect (new_openai_service key alice all_handlers) refusing).0.outcome ≡ ok tt
      → ((connect (new_openai_service key alice all_handlers) refusing).0.client.service
          ≡ connected_service alice)
        × ((connect (new_openai_service key alice all_handlers) refusing).1 ≡ []))
    × ((e : ConnectError)
        → (connect (new_openai_service key alice all_handlers) refusing).0.outcome ≡ err e
        → ((connect (new_openai_service key alice all_handlers) refusing).1
            ≡ errored (not_connected e) ∷ [])
          × ((connect (new_openai_service key alice all_handlers) refusing).0.client.service.closed
              ≡ false)
          × ((connect
                (new_openai_service key alice all_handlers)
                refusing).0.client.service.has_connection
              ≡ has_peer e))
connect_example = connect_lem key alice refusing

refusing_fails :
    (connect (new_openai_service key alice all_handlers) refusing).0.outcome ≡ err remote_not_set
unfolding connect get_ephemeral_key create_peer_connection setup_data_channel setup_audio_track
    perform_signaling new_openai_service decode_response response_member secret_member same_name
    lower read_string bytes_beq
refusing_fails = refl

create_session-leak_example :
    let r = create_session reference open_bridge empty_store browser alice alice noon (
      reported
        (λ e. codes "failed")
        (connect (new_openai_service key alice all_handlers) refusing).0.client.service
        (connect (new_openai_service key alice all_handlers) refusing).0.outcome) in
    (r.bridge ≡ open_bridge)
    × ((x : Session) × (r.dropped ≡ some x)
        × (x.cancelled ≡ true)
        × (x.service.has_connection ≡ true)
        × (x.service.closed ≡ false))
create_session-leak_example =
    create_session-leak reference open_bridge empty_store browser alice alice noon alice refusing
      remote_not_set (λ e. codes "failed") (λ h. absurd (ground arith)) refl refusing_fails refl
