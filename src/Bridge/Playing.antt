-- ===== src/Bridge/Playing.antt =====
-- The playing loop of a session with the endpoint that it plays to: the interface `AudioEndpoint` of
-- internal/bridge/bridge.go, and what the loop does on any endpoint that keeps it.
pub mod Counts
use openai_gate.Base.{
  ◌≡◌, Bool, true, false, not, ◌&&◌, ◌||◌, List, [], ◌∷◌, ◌++◌, Option, none, some, Bytes,
  if◌then◌else◌,
}
use openai_gate.Text.Decimal.Int.{ℤ}
use openai_gate.Bridge.Sessions.{Session, Hooks, Notice, process_opus_output}

-- The methods that a session uses of its endpoint, whose state is an `E`; what a call finds outside is
-- an `X`. `send_opus_frame` tells whether it reports no error, `sent_frames` are the frames that have
-- gone out to the network. The fields behind them are what an endpoint promises: one that is ready
-- stays so, a call without an error has sent a frame that fits, and a call with an error has sent none.
pub record AudioEndpoint (E : Type 0) (X : Type 0) : Type 1 where
  pub get_id : E → Bytes
  pub get_identifier : E → Bytes
  pub send_opus_frame : X → E → Bytes → E × Bool
  pub sent_frames : E → List Bytes
  pub IsReady : E → Type 0
  pub Fits : Bytes → Type 0
  pub stays : (x : X) (e : E) (frame : Bytes) → IsReady e → IsReady (send_opus_frame x e frame).0
  pub keeps :
      (x : X) (e : E) (frame : Bytes)
      → IsReady e
      → (get_id (send_opus_frame x e frame).0 ≡ get_id e)
        × (get_identifier (send_opus_frame x e frame).0 ≡ get_identifier e)
  pub sends :
      (x : X) (e : E) (frame : Bytes)
      → IsReady e
      → Fits frame
      → (send_opus_frame x e frame).1 ≡ true
      → sent_frames (send_opus_frame x e frame).0 ≡ sent_frames e ++ frame ∷ []
  pub fails :
      (x : X) (e : E) (frame : Bytes)
      → IsReady e
      → (send_opus_frame x e frame).1 ≡ false
      → sent_frames (send_opus_frame x e frame).0 ≡ sent_frames e

-- What a turn of the loop meets: the time, the case that the `select` picks, and what the endpoint
-- finds if it is called.
pub record Turn (X : Type 0) : Type 0 where
  pub now : ℤ
  pub picks_done : Bool
  pub found : X

-- The frame that the endpoint is called with in a turn.
unfoldable pub offered : Session → Bool → Option Bytes
offered s picks_done = elim s.opus_buffer [
  | [] ↦ none
  | frame ∷ rest ↦
      if (s.cancelled && picks_done) || not s.is_response_playing || not s.has_endpoint
      then none
      else some frame
]

module _ {E : Type 0} {X : Type 0} (ep : AudioEndpoint E X) where
  -- A turn of `processOpusOutput`, with the call of the endpoint's `SendOpusFrame`.
  unfoldable pub play_turn : Hooks → Session → E → Turn X → Session × E × List Notice
  play_turn h s e t = elim (offered s t.picks_done) [
    | none ↦
        let (s', told) =
          process_opus_output h s
            (record { now = t.now; sent = false; picks_done = t.picks_done }) in
        (s', e, told)
    | some frame ↦
        let (e', sent) = ep.send_opus_frame t.found e frame in
        let (s', told) =
          process_opus_output h s
            (record { now = t.now; sent = sent; picks_done = t.picks_done }) in
        (s', e', told)
  ]

  unfoldable pub play_turns : Hooks → Session → E → List (Turn X) → Session × E × List Notice
  unfolding play_turn
  play_turns h s e [] = (s, e, [])
  play_turns h s e (t ∷ turns) =
      let (s', e', told) = play_turn h s e t in
      let (s'', e'', more) = play_turns h s' e' turns in (s'', e'', told ++ more)
