-- ===== src/Webrtc/Offers.antt =====
-- Offers of a browser: what an accepted one leaves, and what becomes of the connection before it.
use mathlib.Core.Option.{some-injective}
use openai_gate.Base.{
  ℕ, ◌≡◌, ◌≢◌, sym, ap, ◌∙◌, inl, inr, true, false, not, List, [], ◌∷◌, Option, some, arith,
  bytes_eq, codes, ok, keep, eqb, if◌then◌else◌, Option-cases, if-lem,
}
use openai_gate.Base.Membership.{In, In-keep}
use openai_gate.Json.{Json}
use openai_gate.Bridge.{Bridge}
use openai_gate.Webrtc.{WebrtcEndpoint, close, close_peer}
use openai_gate.Webrtc.Signaling.{SignalingWorld, Handled, handle_offer}

-- The endpoint with a new peer connection and a track on it.
abbrev pub connected : WebrtcEndpoint → ℕ → WebrtcEndpoint
connected e p = record e {
  peer_connection = some p;
  open_peers = p ∷ e.open_peers;
  has_local_track = true;
}

-- What an offer that is accepted says, and what the library answered to it.
pub record Accepted (e : WebrtcEndpoint) (w : SignalingWorld) (content : Option Json) (r : Handled)
    : Type 0 where
  pub peer : ℕ
  pub answer : Json
  pub created : w.new_peer ≡ some peer
  pub answered : w.create_answer ≡ some answer
  pub endpoint : r.endpoint ≡ connected e peer
  pub sent : r.sent ≡ record { type = codes "answer"; content = some answer } ∷ []
  pub was_open : e.is_closed ≡ false

-- An offer that is handled without an error has made one peer connection and one track, which the
-- endpoint holds from then on, and has sent one message: the answer that the library created.
pub handle_offer-ok :
    (e : WebrtcEndpoint) (w : SignalingWorld) (content : Option Json)
    → (handle_offer e w content).outcome ≡ ok tt
    → Accepted e w content (handle_offer e w content)
unfolding handle_offer
handle_offer-ok e w content h = elim (Option-cases w.new_peer) [
  | inl bad ↦ absurd (ground arith)
  | inr (p, good) ↦ elim (Option-cases w.create_answer) [
    | inl bad ↦ absurd (ground arith)
    | inr (a, answered) ↦ record {
      peer = p;
      answer = a;
      created = good;
      answered = answered;
      endpoint = ground arith;
      sent = ground arith;
      was_open = ground arith;
    }
  ]
]

keep-In_other :
    (p q : ℕ) (peers : List ℕ) → p ≢ q → In p peers → In p (keep (λ r. not (eqb r q)) peers)
keep-In_other p q peers ne i = In-keep (λ r. not (eqb r q)) p peers i (ground arith)

close-open_peers :
    (b : Bridge) (e : WebrtcEndpoint)
    → let (_, _, e') = close b e in
      e'.open_peers
      ≡ (if e.is_closed then e.open_peers else close_peer e.peer_connection e.open_peers)
unfolding close
close-open_peers b e = ground arith

-- Closing an endpoint closes no peer connection but the one that it holds.
close-In_other :
    (b : Bridge) (e : WebrtcEndpoint) (p q : ℕ)
    → e.peer_connection ≡ some q
    → p ≢ q
    → In p e.open_peers
    → let (_, _, e') = close b e in In p e'.open_peers
unfolding close_peer
close-In_other b e p q held ne i = rw (close-open_peers b e) (
    if-lem (In p) e.is_closed e.open_peers (close_peer e.peer_connection e.open_peers) (λ _. i)
      (λ _. rw held (keep-In_other p q e.open_peers ne i)))

-- A second offer that is handled without an error, and for which the library makes another peer
-- connection than the first one, leaves the first one open even after the endpoint is closed.
pub handle_offer-leak :
    (b : Bridge) (e : WebrtcEndpoint) (w : SignalingWorld) (content : Option Json) (p q : ℕ)
    → In p e.open_peers
    → w.new_peer ≡ some q
    → p ≢ q
    → (handle_offer e w content).outcome ≡ ok tt
    → let (_, _, e') = close b (handle_offer e w content).endpoint in In p e'.open_peers
unfolding close
handle_offer-leak b e w content p q i made ne h =
    let a = handle_offer-ok e w content h in
    let same : a.peer ≡ q = some-injective _ _ (sym a.created ∙ made) in
    let next = (handle_offer e w content).endpoint in
    close-In_other b next p q
      (ap (λ (x : WebrtcEndpoint). x.peer_connection) a.endpoint ∙ ap some same) ne
      (rw (ap (λ (x : WebrtcEndpoint). x.open_peers) a.endpoint) (inr i))
