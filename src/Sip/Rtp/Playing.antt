-- ===== src/Sip/Rtp/Playing.antt =====
-- The SIP endpoint as an `AudioEndpoint` of the bridge.
use openai_gate.Base.{
  ℕ, ◌^◌, ◌≤◌, ◌<◌, ◌≡◌, ◌⊎◌, refl, sym, ap, ◌∙◌, subst, inl, inr, Bool, true, false, List, [], ◌∷◌,
  ◌++◌, map, arith, Bytes, Result, ok, err, length, append-nil,
}
use openai_gate.Bridge.Playing.{AudioEndpoint}
use openai_gate.Sip.Rtp.{
  Addr, RtpPacket, RtpFormat, Endpoint, Counters, Attempt, Sending, SendError, packet_of,
  send_opus_frame,
}
use openai_gate.Sip.Rtp.Attempts.{InWidth, Sends, advanced, send_opus_frame_lem}

-- An endpoint with the server's counters and the datagrams that its socket has taken.
pub record Line : Type 0 where
  pub endpoint : Endpoint
  pub counters : Counters
  pub written : List (Addr × RtpPacket)

abbrev succeeded : Result SendError (Unit {0}) → Bool
succeeded (ok _) = true
succeeded (err e) = false

abbrev payloads : List (Addr × RtpPacket) → List Bytes
payloads ws = map (λ (w : Addr × RtpPacket). w.1.payload) ws

payloads-append :
    (ws xs : List (Addr × RtpPacket)) → payloads (ws ++ xs) ≡ payloads ws ++ payloads xs
payloads-append [] xs = refl
payloads-append (w ∷ ws) xs = ap (◌∷◌ w.1.payload) (payloads-append ws xs)

succeeded-ok : (r : Result SendError (Unit {0})) → succeeded r ≡ true → r ≡ ok tt
succeeded-ok (ok _) h = refl
succeeded-ok (err e) h = cc h

advanced-InWidth : (e : Endpoint) (n : ℕ) → InWidth e → InWidth (advanced e n)
advanced-InWidth e n w = record { seq = omega arith; time = omega arith; base = w.base }

-- What the line is after a call, and whether the call reported no error.
abbrev after : Line → Sending → Line × Bool
after l r = (
  record { endpoint = r.endpoint; counters = r.counters; written = l.written ++ r.written },
  succeeded r.outcome,
)

-- The line can carry frames.
pub record IsUp (l : Line) : Type 0 where
  pub width : InWidth l.endpoint
  pub count : l.counters.sent < 2 ^ 64
  pub active : l.endpoint.active ≡ true
  pub opened : l.endpoint.closed ≡ false

module _ (rtp : RtpFormat) where
  unfoldable pub send : (ℕ → Attempt) → Line → Bytes → Line × Bool
  send seen l frame = after l (send_opus_frame rtp seen l.endpoint l.counters frame)

  module _ (seen : ℕ → Attempt) (l : Line) (frame : Bytes) (up : IsUp l) where
    abbrev sending : Sending
    sending = send_opus_frame rtp seen l.endpoint l.counters frame

    -- A call on a line that is up makes its attempts, or does nothing with a short frame.
    send_cases :
        ((n : ℕ) × Sends l.endpoint l.counters frame n sending)
        ⊎ ((length frame < 5)
            × (sending ≡ record {
              endpoint = l.endpoint;
              counters = l.counters;
              written = [];
              outcome = ok tt;
            }))
    send_cases = elim (send_opus_frame_lem rtp seen l.endpoint l.counters frame up.width up.count) [
      | inl (n, _, _, _, _, sends) ↦ inl (n, sends)
      | inr (inl inactive, _) ↦ absurd (cc (inactive, up.active))
      | inr (inr (inl closed), _) ↦ absurd (cc (closed, up.opened))
      | inr (inr (inr short), same) ↦ inr (short, same)
    ]

    pub send-IsUp : IsUp (send seen l frame).0
    unfolding send
    send-IsUp = elim send_cases [
      | inl (n, s) ↦ record {
        width = subst InWidth (sym s.fields) (advanced-InWidth l.endpoint n up.width);
        count = ground (arith, s.counted);
        active = ap (λ (e : Endpoint). e.active) s.fields ∙ up.active;
        opened = ap (λ (e : Endpoint). e.closed) s.fields ∙ up.opened;
      }
      | inr (short, same) ↦
          rw (same, send)
            (record { width = up.width; count = up.count; active = up.active; opened = up.opened })
    ]

    pub send-ids :
        ((send seen l frame).0.endpoint.id ≡ l.endpoint.id)
        × ((send seen l frame).0.endpoint.identifier ≡ l.endpoint.identifier)
    unfolding send
    send-ids = elim send_cases [
      | inl (n, s) ↦
          (ap (λ (e : Endpoint). e.id) s.fields, ap (λ (e : Endpoint). e.identifier) s.fields)
      | inr (short, same) ↦ rw same (refl, refl)
    ]

    pub send-sent :
        5 ≤ length frame
        → (send seen l frame).1 ≡ true
        → payloads (send seen l frame).0.written ≡ payloads l.written ++ frame ∷ []
    unfolding send packet_of
    send-sent long done = elim send_cases [
      | inl (n, s) ↦ elim s.packets [
        | inl (_, failed) ↦ absurd (failed (succeeded-ok _ done))
        | inr (addr, written, _, _) ↦
            payloads-append l.written _
            ∙ ap (λ (ws : List (Addr × RtpPacket)). payloads l.written ++ payloads ws) written
      ]
      | inr (short, same) ↦ absurd (omega arith)
    ]

    pub send-unsent :
        (send seen l frame).1 ≡ false → payloads (send seen l frame).0.written ≡ payloads l.written
    unfolding send
    send-unsent failed = elim send_cases [
      | inl (n, s) ↦ elim s.packets [
        | inl (written, _) ↦
            payloads-append l.written _
            ∙ ap (λ (ws : List (Addr × RtpPacket)). payloads l.written ++ payloads ws) written
            ∙ append-nil (payloads l.written)
        | inr (addr, _, done, _) ↦ absurd (cc (failed, done))
      ]
      | inr (short, same) ↦ rw same (ap payloads (append-nil l.written))
    ]

  -- The SIP endpoint keeps the promises of the bridge's endpoints: a line is ready when it is up, and
  -- frames of at least five bytes fit it.
  unfoldable pub sip_audio : AudioEndpoint Line (ℕ → Attempt)
  sip_audio = record {
    get_id = λ l. l.endpoint.id;
    get_identifier = λ l. l.endpoint.identifier;
    send_opus_frame = send;
    sent_frames = λ l. payloads l.written;
    IsReady = IsUp;
    Fits = λ frame. 5 ≤ length frame;
    stays = send-IsUp;
    keeps = send-ids;
    sends = λ seen l frame up. send-sent seen l frame up;
    fails = λ seen l frame up. send-unsent seen l frame up;
  }
