-- ===== src/Openai/Tracks.antt =====
-- internal/openai/openai.go: the service's audio track, and what the library reports of its
-- connection and of its channel.
use openai_gate.Base.{
  Bool, List, [], ◌∷◌, ◌++◌, map, Bytes, bytes_eq, Result, ok, err, ◌==◌, if◌then◌else◌,
}
use openai_gate.Openai.{
  Service, Channel, Event, errored, closed_down, ice_failed, peer_connection_failed,
  configure_failed, channel_failed, read_failed, when, configure,
}

-- `webrtc.ICEConnectionState` and `webrtc.PeerConnectionState`
pub data IceState : Type 0 where
  ice_new : IceState
  ice_checking : IceState
  ice_connected : IceState
  ice_completed : IceState
  ice_disconnected : IceState
  ice_failed_state : IceState
  ice_closed : IceState

pub data PeerState : Type 0 where
  peer_new : PeerState
  peer_connecting : PeerState
  peer_connected : PeerState
  peer_disconnected : PeerState
  peer_failed : PeerState
  peer_closed : PeerState

unfoldable pub on_ice_state : Service → IceState → List Event
on_ice_state s ice_failed_state = when s.handlers.error (errored ice_failed)
on_ice_state s ice_disconnected = when s.handlers.close closed_down
on_ice_state s ice_closed = when s.handlers.close closed_down
on_ice_state s other = []

unfoldable pub on_peer_state : Service → PeerState → List Event
on_peer_state s peer_failed = when s.handlers.error (errored peer_connection_failed)
on_peer_state s peer_disconnected = when s.handlers.close closed_down
on_peer_state s peer_closed = when s.handlers.close closed_down
on_peer_state s other = []

-- The channel's `OnOpen`: the messages of `configure` that were sent, and the event of an error.
-- An error drops the list that `configure` returns with; the first message may have been sent.
unfoldable pub on_channel_open : Service → Channel → List Event
on_channel_open s ch = elim (configure s ch) [
  | ok sent ↦ []
  | err e ↦ when s.handlers.error (errored (configure_failed e))
]

unfoldable pub on_channel_close : Service → List Event
on_channel_close s = when s.handlers.close closed_down

unfoldable pub on_channel_error : Service → Bytes → List Event
on_channel_error s text = when s.handlers.error (errored (channel_failed text))

pub data ReadError : Type 0 where
  eof : ReadError
  broken : Bytes → ReadError

-- What a round of the loop finds: whether the service is closed, and the payload or the error of
-- the read.
pub record AudioRound : Type 0 where
  pub is_closed : Bool
  pub read : Result ReadError Bytes

-- What the loop does: a frame goes to the handler, or an event is reported.
pub data Heard : Type 0 where
  frame : Bytes → Heard
  told : Event → Heard

-- The loop of `handleIncomingAudio`.
unfoldable pub handle_incoming_audio : Service → List AudioRound → List Heard
handle_incoming_audio s [] = []
handle_incoming_audio s (r ∷ rounds) =
    let later = handle_incoming_audio s rounds in
    if r.is_closed then [] else elim r.read [
      | err e ↦ elim e [
        | eof ↦ map told (when s.handlers.close closed_down)
        | broken text ↦ map told (when s.handlers.error (errored (read_failed text))) ++ later
      ]
      | ok payload ↦
          if payload == []
          then later
          else if s.handlers.opus_data
          then frame payload ∷ later
          else later
    ]
