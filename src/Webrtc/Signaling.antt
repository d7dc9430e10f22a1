-- ===== src/Webrtc/Signaling.antt =====
-- internal/webrtc/webrtc.go: the messages of the web socket.
use openai_gate.Base.{
  ℕ, Bool, true, List, [], ◌∷◌, Option, none, some, Bytes, bytes_eq, codes, Result, ok, err, ◌==◌,
  if◌then◌else◌,
}
use openai_gate.Json.{Json, number, Members, get_member, as_string, as_object}
use openai_gate.Webrtc.{WebrtcEndpoint}

pub record SignalingMessage : Type 0 where
  pub type : Bytes
  pub content : Option Json

pub data SignalingError : Type 0 where
  invalid_offer : SignalingError
  invalid_sdp : SignalingError
  invalid_type : SignalingError
  peer_failed : SignalingError
  track_failed : SignalingError
  add_track_failed : SignalingError
  remote_failed : SignalingError
  answer_failed : SignalingError
  local_failed : SignalingError
  invalid_candidate : SignalingError
  invalid_candidate_string : SignalingError
  no_peer : SignalingError
  candidate_refused : SignalingError
  connection_not_available : SignalingError
  write_failed : SignalingError

-- `webrtc.ICECandidateInit`
pub record Candidate : Type 0 where
  pub candidate : Bytes
  pub sdp_mid : Option Bytes
  pub sdp_m_line_index : Option ℕ

-- What the library and the web socket answer while one message is handled. `uint16_of` is Go's
-- conversion of a JSON number, a float64, to uint16, on the number's literal.
pub record SignalingWorld : Type 0 where
  pub new_peer : Option ℕ
  pub new_track : Bool
  pub add_track : Bool
  pub set_remote : Bytes → Bytes → Bool
  pub create_answer : Option Json
  pub set_local : Json → Bool
  pub add_candidate : ℕ → Candidate → Bool
  pub writes : SignalingMessage → Bool
  pub uint16_of : Bytes → ℕ

-- An endpoint after a message, the messages written to the socket, and the error.
pub record Handled : Type 0 where
  pub endpoint : WebrtcEndpoint
  pub sent : List SignalingMessage
  pub outcome : Result SignalingError (Unit {0})

abbrev failed : WebrtcEndpoint → SignalingError → Handled
failed e error = record { endpoint = e; sent = []; outcome = err error }

-- The web socket of an endpoint is never nil.
unfoldable pub send_signaling_message : WebrtcEndpoint → SignalingWorld → SignalingMessage → Handled
send_signaling_message e w msg =
    if e.is_closed
    then failed e connection_not_available
    else if w.writes msg
    then record { endpoint = e; sent = msg ∷ []; outcome = ok tt }
    else failed e write_failed

-- The descriptions are exchanged and the answer goes out.
send_answer : WebrtcEndpoint → SignalingWorld → Option Json → Handled
unfolding send_signaling_message
send_answer e w none = failed e answer_failed
send_answer e w (some answer) =
    if w.set_local answer
    then send_signaling_message e w (record { type = codes "answer"; content = some answer })
    else failed e local_failed

-- From `NewPeerConnection` on: the connection is kept before anything that can fail after it.
negotiate : WebrtcEndpoint → SignalingWorld → Bytes → Bytes → Option ℕ → Handled
unfolding send_answer
negotiate e w sdp type none = failed e peer_failed
negotiate e w sdp type (some p) =
    let held = record e { peer_connection = some p; open_peers = p ∷ e.open_peers } in
    let tracked = record held { has_local_track = true } in
    if w.new_track
    then (if w.add_track
        then (if w.set_remote type sdp
            then send_answer tracked w w.create_answer
            else failed tracked remote_failed)
        else failed tracked add_track_failed)
    else failed held track_failed

offer_type : WebrtcEndpoint → SignalingWorld → Bytes → Option Bytes → Handled
unfolding negotiate
offer_type e w sdp none = failed e invalid_type
offer_type e w sdp (some type) = negotiate e w sdp type w.new_peer

offer_sdp : WebrtcEndpoint → SignalingWorld → Members → Option Bytes → Handled
unfolding offer_type
offer_sdp e w ms none = failed e invalid_sdp
offer_sdp e w ms (some sdp) = offer_type e w sdp (as_string (get_member (codes "type") ms))

offer_members : WebrtcEndpoint → SignalingWorld → Option Members → Handled
unfolding offer_sdp
offer_members e w none = failed e invalid_offer
offer_members e w (some ms) = offer_sdp e w ms (as_string (get_member (codes "sdp") ms))

unfoldable pub handle_offer : WebrtcEndpoint → SignalingWorld → Option Json → Handled
unfolding offer_members
handle_offer e w content = offer_members e w (as_object content)

-- A member that is missing, null or of another type gives no index.
index_of : (Bytes → ℕ) → Option Json → Option ℕ
index_of uint16_of (some (number literal)) = some (uint16_of literal)
index_of uint16_of v = none

unfoldable pub candidate_of : (Bytes → ℕ) → Members → Bytes → Candidate
unfolding index_of
candidate_of uint16_of ms text = record {
  candidate = text;
  sdp_mid = as_string (get_member (codes "sdpMid") ms);
  sdp_m_line_index = index_of uint16_of (get_member (codes "sdpMLineIndex") ms);
}

add_to : WebrtcEndpoint → SignalingWorld → Candidate → Option ℕ → Handled
add_to e w c none = failed e no_peer
add_to e w c (some p) =
    if w.add_candidate p c
    then record { endpoint = e; sent = []; outcome = ok tt }
    else failed e candidate_refused

candidate_text : WebrtcEndpoint → SignalingWorld → Members → Option Bytes → Handled
unfolding candidate_of add_to
candidate_text e w ms none = failed e invalid_candidate_string
candidate_text e w ms (some text) = add_to e w (candidate_of w.uint16_of ms text) e.peer_connection

candidate_members : WebrtcEndpoint → SignalingWorld → Option Members → Handled
unfolding candidate_text
candidate_members e w none = failed e invalid_candidate
candidate_members e w (some ms) =
    candidate_text e w ms (as_string (get_member (codes "candidate") ms))

unfoldable pub handle_ice_candidate : WebrtcEndpoint → SignalingWorld → Option Json → Handled
unfolding candidate_members
handle_ice_candidate e w content = candidate_members e w (as_object content)

-- A message of any other type is ignored.
unfoldable pub handle_signaling_message :
    WebrtcEndpoint → SignalingWorld → SignalingMessage → Handled
unfolding handle_offer handle_ice_candidate
handle_signaling_message e w msg =
    if msg.type == codes "offer"
    then handle_offer e w msg.content
    else if msg.type == codes "ice-candidate"
    then handle_ice_candidate e w msg.content
    else record { endpoint = e; sent = []; outcome = ok tt }

-- The callback of `OnICECandidate`; nil ends the candidates. Its error is not looked at.
unfoldable pub on_ice_candidate :
    WebrtcEndpoint → SignalingWorld → Option Json → List SignalingMessage
unfolding send_signaling_message
on_ice_candidate e w none = []
on_ice_candidate e w (some candidate) =
    (send_signaling_message e w
      (record { type = codes "ice-candidate"; content = some candidate })).sent
