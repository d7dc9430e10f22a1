-- ===== src/Openai/Listening.antt =====
-- The service's audio: which frames of the track reach the handler.
use openai_gate.Base.{
  ◌≡◌, refl, true, not, List, [], ◌∷◌, arith, Bytes, bytes_eq, ok, err, keep, ◌==◌, if◌then◌else◌,
}
use openai_gate.Openai.{Service, Event, errored, closed_down, read_failed}
use openai_gate.Openai.Tracks.{AudioRound, Heard, eof, broken, frame, told, handle_incoming_audio}

-- The frames that the handler got.
abbrev pub frames : List Heard → List Bytes
frames [] = []
frames (frame f ∷ hs) = f ∷ frames hs
frames (told e ∷ hs) = frames hs

-- The events that were reported.
abbrev pub events : List Heard → List Event
events [] = []
events (frame f ∷ hs) = events hs
events (told e ∷ hs) = e ∷ events hs

-- The payloads that are read before the service is closed or the track ends.
abbrev pub payloads : List AudioRound → List Bytes
payloads [] = []
payloads (r ∷ rounds) = if r.is_closed then [] else elim r.read [
  | ok payload ↦ payload ∷ payloads rounds
  | err e ↦ elim e [ eof ↦ [] | broken text ↦ payloads rounds ]
]

-- The events of the reads that fail until then.
abbrev pub failures : List AudioRound → List Event
failures [] = []
failures (r ∷ rounds) = if r.is_closed then [] else elim r.read [
  | ok payload ↦ failures rounds
  | err e ↦ elim e [
    | eof ↦ closed_down ∷ []
    | broken text ↦ errored (read_failed text) ∷ failures rounds
  ]
]

-- With the handlers set, the frames that the loop passes on are the payloads that are not empty, in
-- the order in which they are read before the service is closed or the track ends; each failed read
-- is reported and does not end the loop, and the end of the track is reported as a close.
pub handle_incoming_audio_lem :
    (s : Service) (rounds : List AudioRound)
    → s.handlers.opus_data ≡ true
    → s.handlers.error ≡ true
    → s.handlers.close ≡ true
    → let heard = handle_incoming_audio s rounds in
      (frames heard ≡ keep (λ f. not (f == [])) (payloads rounds))
      × (events heard ≡ failures rounds)
unfolding handle_incoming_audio
handle_incoming_audio_lem s [] on_data on_error on_close = (refl, refl)
handle_incoming_audio_lem s (r ∷ rounds) on_data on_error on_close =
    ground (arith, handle_incoming_audio_lem s rounds on_data on_error on_close)
