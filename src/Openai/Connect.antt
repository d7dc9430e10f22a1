-- ===== src/Openai/Connect.antt =====
-- internal/openai/openai.go: `Connect` and its steps. The HTTP client and the peer connection
-- (pion/webrtc) are parameters: what each call of them returns.
use openai_gate.Base.{
  ℕ, Bool, true, false, List, [], ◌∷◌, ◌++◌, Option, none, some, Bytes, bytes_eq, codes, Result, ok,
  err, eqb, ◌==◌, if◌then◌else◌,
}
use openai_gate.Json.{Json}
use openai_gate.Openai.{
  Service, Handlers, Event, errored, ConnectError, api_key_is_empty, key_request_failed,
  key_refused, key_unreadable, peer_not_created, peer_is_nil, channel_not_created,
  track_not_created, track_not_added, offer_not_created, local_not_set, offer_request_failed,
  offer_refused, answer_unreadable, remote_not_set, not_connected, when,
}
use openai_gate.Openai.Ephemeral.{SessionResponse, decode_response, session_request, model}

pub data Body : Type 0 where
  json_body : Json → Body
  sdp_body : Bytes → Body

pub record HttpRequest : Type 0 where
  pub method : Bytes
  pub url : Bytes
  pub authorization : Bytes
  pub content_type : Bytes
  pub body : Body

-- An answer: what was read of its body, and whether reading came to its end.
pub record HttpAnswer : Type 0 where
  pub status : ℕ
  pub body : Bytes
  pub complete : Bool

-- What the HTTP client and the peer connection do; `first_value` is the JSON value that a body
-- begins with.
pub record Peers : Type 0 where
  pub answer : HttpRequest → Option HttpAnswer
  pub first_value : HttpAnswer → Option Json
  pub new_peer : Bool
  pub new_channel : Bool
  pub new_track : Bool
  pub add_track : Bool
  pub create_offer : Option Bytes
  pub set_local : Bytes → Bool
  pub set_remote : Bytes → Bool

-- A service with the two keys that only `Connect` uses.
pub record Client : Type 0 where
  pub service : Service
  pub api_key : Bytes
  pub ephemeral_key : Bytes

-- `NewOpenAIService`, with the handlers that its owner sets before `Connect`.
unfoldable pub new_openai_service : Bytes → Bytes → Handlers → Client
new_openai_service key prompt handlers = record {
  service = record {
    handlers = handlers;
    is_response_playing = false;
    current_item_id = [];
    closed = false;
    cancelled = false;
    has_channel = false;
    has_connection = false;
    has_track = false;
    prompt = prompt;
  };
  api_key = key;
  ephemeral_key = [];
}

-- A client after some steps, and the requests that they made.
pub record Attempt : Type 0 where
  pub client : Client
  pub requests : List HttpRequest
  pub outcome : Result ConnectError (Unit {0})

abbrev pub done : Client → Attempt
done c = record { client = c; requests = []; outcome = ok tt }

abbrev pub failed : Client → ConnectError → Attempt
failed c e = record { client = c; requests = []; outcome = err e }

-- The next step runs when there is no error yet.
unfoldable pub then_step : Attempt → (Client → Attempt) → Attempt
then_step a next = elim a.outcome [
  | err e ↦ a
  | ok _ ↦ record (next a.client) { requests = a.requests ++ (next a.client).requests }
]

abbrev pub key_request : Bytes → HttpRequest
key_request key = record {
  method = codes "POST";
  url = codes "https://api.openai.com/v1/realtime/sessions";
  authorization = codes "Bearer " ++ key;
  content_type = codes "application/json";
  body = json_body session_request;
}

-- The decoded answer gives the key.
keep_key : Client → List HttpRequest → Option SessionResponse → Attempt
keep_key c sent none = record { client = c; requests = sent; outcome = err key_unreadable }
keep_key c sent (some x) = record {
  client = record c { ephemeral_key = x.client_secret.value };
  requests = sent;
  outcome = ok tt;
}

decoded : Option Json → Option SessionResponse
decoded none = none
decoded (some v) = decode_response v

unfoldable pub get_ephemeral_key : Client → Peers → Attempt
unfolding keep_key decoded
get_ephemeral_key c w =
    let sent = key_request c.api_key ∷ [] in
    elim (w.answer (key_request c.api_key)) [
      | none ↦ record { client = c; requests = sent; outcome = err key_request_failed }
      | some r ↦
          if eqb r.status 200
          then keep_key c sent (decoded (w.first_value r))
          else record { client = c; requests = sent; outcome = err (key_refused r.status r.body) }
    ]

unfoldable pub create_peer_connection : Peers → Client → Attempt
create_peer_connection w c =
    if w.new_peer
    then done (record c { service = record c.service { has_connection = true } })
    else failed c peer_not_created

unfoldable pub setup_data_channel : Peers → Client → Attempt
setup_data_channel w c =
    if c.service.has_connection
    then (if w.new_channel
        then done (record c { service = record c.service { has_channel = true } })
        else failed c channel_not_created)
    else failed c peer_is_nil

-- The track is kept before it is added to the connection.
unfoldable pub setup_audio_track : Peers → Client → Attempt
setup_audio_track w c =
    let kept = record c { service = record c.service { has_track = true } } in
    if c.service.has_connection
    then (if w.new_track
        then (if w.add_track then done kept else failed kept track_not_added)
        else failed c track_not_created)
    else failed c peer_is_nil

abbrev pub offer_request : Bytes → Bytes → HttpRequest
offer_request key sdp = record {
  method = codes "POST";
  url = codes "https://api.openai.com/v1/realtime?model=" ++ model;
  authorization = codes "Bearer " ++ key;
  content_type = codes "application/sdp";
  body = sdp_body sdp;
}

-- `sendOfferToOpenAI` after its request: the answer's description.
unfoldable pub read_answer : Option HttpAnswer → Result ConnectError Bytes
read_answer none = err offer_request_failed
read_answer (some r) =
    if eqb r.status 200
    then (if r.complete then ok r.body else err answer_unreadable)
    else if eqb r.status 201
    then (if r.complete then ok r.body else err answer_unreadable)
    else err (offer_refused r.status r.body)

-- The end of `performWebRTCSignaling`, after the answer.
unfoldable pub set_answer : Peers → Result ConnectError Bytes → Result ConnectError (Unit {0})
set_answer w (err e) = err e
set_answer w (ok answer) = if w.set_remote answer then ok tt else err remote_not_set

signal_offer : Peers → Client → Option Bytes → Attempt
signal_offer w c none = failed c offer_not_created
signal_offer w c (some sdp) =
    let request = offer_request c.ephemeral_key sdp in
    if w.set_local sdp
    then record {
      client = c;
      requests = request ∷ [];
      outcome = set_answer w (read_answer (w.answer request));
    }
    else failed c local_not_set

unfoldable pub perform_signaling : Peers → Client → Attempt
unfolding read_answer set_answer signal_offer
perform_signaling w c =
    if c.service.has_connection then signal_offer w c w.create_offer else failed c peer_is_nil

-- The steps of `Connect`, without its reports.
unfoldable pub connect_steps : Client → Peers → Attempt
unfolding then_step
connect_steps c w =
    if c.api_key == []
    then failed c api_key_is_empty
    else then_step
        (then_step
          (then_step (then_step (get_ephemeral_key c w) (create_peer_connection w))
            (setup_data_channel w))
          (setup_audio_track w))
        (perform_signaling w)

unfoldable pub connect : Client → Peers → Attempt × List Event
unfolding connect_steps
connect c w =
    let a = connect_steps c w in
    (
      a,
      elim a.outcome [
        | ok _ ↦ []
        | err e ↦ when c.service.handlers.error (errored (not_connected e))
      ],
    )
