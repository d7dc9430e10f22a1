-- ===== src/Webrtc/Playing.antt =====
-- The browser's endpoint as an `AudioEndpoint` of the bridge.
use openai_gate.Base.{◌≡◌, refl, Bool, true, false, List, [], ◌∷◌, ◌++◌, Bytes, Result, ok, err}
use openai_gate.Bridge.Playing.{AudioEndpoint}
use openai_gate.Webrtc.{WebrtcEndpoint, TrackError, send_opus_frame}

-- An endpoint with the samples that its local track has taken.
pub record Track : Type 0 where
  pub endpoint : WebrtcEndpoint
  pub samples : List Bytes

-- What the track is after a call, and whether the call reported no error.
abbrev after : Track → Bytes → Result TrackError (Unit {0}) → Track × Bool
after t frame (ok _) = (record t { samples = t.samples ++ frame ∷ [] }, true)
after t frame (err e) = (t, false)

unfoldable pub send : Bool → Track → Bytes → Track × Bool
send writes t frame = after t frame (send_opus_frame t.endpoint writes)

pub after-ids :
    (t : Track) (frame : Bytes) (r : Result TrackError (Unit {0}))
    → ((after t frame r).0.endpoint.id ≡ t.endpoint.id)
      × ((after t frame r).0.endpoint.identifier ≡ t.endpoint.identifier)
after-ids t frame (ok _) = (refl, refl)
after-ids t frame (err e) = (refl, refl)

pub after-true :
    (t : Track) (frame : Bytes) (r : Result TrackError (Unit {0}))
    → (after t frame r).1 ≡ true
    → (after t frame r).0.samples ≡ t.samples ++ frame ∷ []
after-true t frame (ok _) h = refl
after-true t frame (err e) h = cc h

pub after-false :
    (t : Track) (frame : Bytes) (r : Result TrackError (Unit {0}))
    → (after t frame r).1 ≡ false
    → (after t frame r).0.samples ≡ t.samples
after-false t frame (ok _) h = cc h
after-false t frame (err e) h = refl

-- The browser's endpoint keeps the promises of the bridge's endpoints, at any time and for any frame.
unfoldable pub browser_audio : AudioEndpoint Track Bool
unfolding send
browser_audio = record {
  get_id = λ t. t.endpoint.id;
  get_identifier = λ t. t.endpoint.identifier;
  send_opus_frame = send;
  sent_frames = λ t. t.samples;
  IsReady = λ t. Unit;
  Fits = λ frame. Unit;
  stays = λ writes t frame up. tt;
  keeps = λ writes t frame up. after-ids t frame (send_opus_frame t.endpoint writes);
  sends =
      λ writes t frame up fits done. after-true t frame (send_opus_frame t.endpoint writes) done;
  fails =
      λ writes t frame up failed. after-false t frame (send_opus_frame t.endpoint writes) failed;
}
