-- ===== src/Webrtc/Closing.antt =====
-- Closing a browser's endpoint.
use openai_gate.Base.{
  ◌≡◌, refl, Bool, true, false, [], Option, none, some, arith, Bytes, bytes_eq, bytes_beq_iff, err,
  if◌then◌else◌, ◌==◌,
}
use openai_gate.Base.Assoc.{lookup, lookup-remove}
use openai_gate.Bridge.{Bridge, remove_session, end_found}
use openai_gate.Bridge.Sessions.{Session}
use openai_gate.Webrtc.{WebrtcEndpoint, endpoint_closed, close, remove_own, send_opus_frame}
use openai_gate.Webrtc.Signaling.{
  SignalingMessage, SignalingWorld, connection_not_available, send_signaling_message,
}

remove_session-lookup :
    (b : Bridge) (id other : Bytes)
    → lookup other (remove_session b id).bridge.sessions
      ≡ (if id == other then none else lookup other b.sessions)
unfolding remove_session end_found
remove_session-lookup b id other =
    ground (arith, lookup-remove id other b.sessions, bytes_beq_iff id other)

-- The sessions after the session of an id, if there is one, was removed.
abbrev pub without : Option Bytes → Bridge → Bytes → Option Session
without none b other = lookup other b.sessions
without (some id) b other = if id == other then none else lookup other b.sessions

remove_own-lookup :
    (b : Bridge) (own : Option Bytes) (other : Bytes)
    → lookup other (remove_own b own).0.sessions ≡ without own b other
unfolding remove_own
remove_own-lookup b none other = refl
remove_own-lookup b (some id) other = remove_session-lookup b id other

-- Closing an endpoint that is open ends its bridge session and no other; from then on it refuses
-- frames and writes no message, and a further close changes nothing.
pub close_lem :
    (b : Bridge) (e : WebrtcEndpoint) (w : SignalingWorld) (msg : SignalingMessage) (writes : Bool)
    → e.is_closed ≡ false
    → let (b', told, e') = close b e in
      ((other : Bytes) → lookup other b'.sessions ≡ without e.session b other)
      × (e'.cancelled ≡ true)
      × (send_opus_frame e' writes ≡ err endpoint_closed)
      × (send_signaling_message e' w msg
          ≡ record { endpoint = e'; sent = []; outcome = err connection_not_available })
      × (close b' e' ≡ (b', [], e'))
unfolding close send_opus_frame send_signaling_message
close_lem b e w msg writes h = (
  λ other. ground (arith, remove_own-lookup b e.session other),
  ground arith,
  ground arith,
  ground arith,
  ground arith,
)

pub close-lookup :
    (b : Bridge) (e : WebrtcEndpoint) (other : Bytes)
    → e.is_closed ≡ false
    → lookup other (close b e).0.sessions ≡ without e.session b other
unfolding close
close-lookup b e other h = ground (arith, remove_own-lookup b e.session other)
