-- ===== src/Webrtc/Audio.antt =====
-- internal/webrtc/webrtc.go: the loop that reads a remote audio track.
use openai_gate.Base.{Bool, List, [], ◌∷◌, Option, none, some, Bytes, bytes_eq, ◌==◌, if◌then◌else◌}

-- What a round finds: whether the endpoint's context is done, the payload that was read or a
-- failed read, and whether the endpoint has its session by then.
pub record TrackRound : Type 0 where
  pub is_done : Bool
  pub payload : Option Bytes
  pub has_session : Bool

-- `handleIncomingAudio`: the payloads that go to `ProcessIncomingOpus`.
unfoldable pub handle_incoming_audio : List TrackRound → List Bytes
handle_incoming_audio [] = []
handle_incoming_audio (r ∷ rounds) =
    let later = handle_incoming_audio rounds in
    if r.is_done then [] else elim r.payload [
      | none ↦ []
      | some payload ↦
          if payload == [] then later else if r.has_session then payload ∷ later else later
    ]
