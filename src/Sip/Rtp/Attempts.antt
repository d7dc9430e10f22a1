-- ===== src/Sip/Rtp/Attempts.antt =====
-- What `SendOpusFrame` sends, over its attempts.
use openai_gate.Base.{
  ℕ, zero, suc, ◌+◌, ◌*◌, ◌%◌, ◌^◌, ◌≤◌, ◌<◌, ◌≡◌, ◌≢◌, refl, sym, ◌∙◌, ◌⊎◌, inl, inr, Bool, true,
  false, not, ◌||◌, [], ◌∷◌, Option, none, some, arith, Bytes, ltb, ok, length, Bool-cases,
}
use openai_gate.Sip.Rtp.{
  Addr, RtpPacket, RtpFormat, Endpoint, Counters, Attempt, Sending, advance, packet_of, one_attempt,
  send_attempts, send_opus_frame,
}

-- The RTP fields fit their widths.
pub record InWidth (e : Endpoint) : Type 0 where
  pub seq : e.seq_num < 2 ^ 32
  pub time : e.timestamp < 2 ^ 32
  pub base : e.timestamp_base < 2 ^ 32

-- After `n` packets were made: both fields have moved on by `n` steps, modulo their width.
abbrev pub advanced : Endpoint → ℕ → Endpoint
advanced e n = record e {
  seq_num = (e.seq_num + n) % 2 ^ 32;
  timestamp = (e.timestamp + 960 * n) % 2 ^ 32;
}

-- What the attempts leave: nothing written, or one packet, which is the last one made; it is
-- counted; and an error exactly if nothing was written.
pub record Sends (e : Endpoint) (c : Counters) (payload : Bytes) (n : ℕ) (r : Sending)
    : Type 0 where
  pub fields : r.endpoint ≡ advanced e n
  pub counted : r.counters ≡ record c { sent = (c.sent + length r.written) % 2 ^ 64 }
  pub packets :
      ((r.written ≡ []) × (r.outcome ≢ ok tt))
      ⊎ ((addr : Addr) × (r.written ≡ (addr, packet_of r.endpoint payload) ∷ [])
          × (r.outcome ≡ ok tt)
          × (0 < n))

advanced-zero : (e : Endpoint) → InWidth e → advanced e 0 ≡ e
advanced-zero e w = ground arith

advanced-advance : (e : Endpoint) (n : ℕ) → advanced (advance e) n ≡ advanced e (suc n)
unfolding advance
advanced-advance e n = ground arith

advance-InWidth : (e : Endpoint) → InWidth e → InWidth (advance e)
unfolding advance
advance-InWidth e w = record { seq = omega arith; time = omega arith; base = w.base }

Sends-retry :
    {e : Endpoint} {c : Counters} {payload : Bytes} {r : Sending} (n : ℕ)
    → Sends (advance e) c payload n r
    → Sends e c payload (suc n) r
Sends-retry {e} n s = record {
  fields = s.fields ∙ advanced-advance e n;
  counted = s.counted;
  packets = elim s.packets [ inl h ↦ inl h | inr (addr, w, o, _) ↦ inr (addr, w, o, omega arith) ];
}

-- A call that writes nothing and fails, after `n` packets were made.
Sends-failed :
    (e : Endpoint) (c : Counters) (payload : Bytes) (n : ℕ) (r : Sending)
    → c.sent < 2 ^ 64
    → r.endpoint ≡ advanced e n
    → r.counters ≡ c
    → r.written ≡ []
    → r.outcome ≢ ok tt
    → Sends e c payload n r
Sends-failed e c payload n r s fields same written failed = record {
  fields = fields;
  counted = ground arith;
  packets = inl (written, failed);
}

Sends-ok :
    {e : Endpoint} {c : Counters} {payload : Bytes} (n : ℕ) (r : Sending)
    → Sends e c payload n r
    → r.outcome ≡ ok tt
    → (length r.written ≡ 1) × (r.counters ≡ record c { sent = (c.sent + 1) % 2 ^ 64 })
Sends-ok n r s done = elim s.packets [
  | inl (_, failed) ↦ absurd (failed done)
  | inr (addr, w, _, _) ↦ (ground arith, ground (arith, s.counted))
]

-- One attempt, from what the attempts behind it leave.
one_attempt_lem :
    (k : ℕ) (e : Endpoint) (c : Counters) (payload : Bytes)
    → InWidth e
    → c.sent < 2 ^ 64
    → (conn : Bool) (remote : Option Addr) (bytes : Option Bytes) (writes : Bool)
      (wait again : Sending)
    → ((n : ℕ) × (n ≤ k) × Sends e c payload n wait)
    → ((n : ℕ) × (n ≤ k) × Sends (advance e) c payload n again)
    → (n : ℕ) × (n ≤ suc k)
      × Sends e c payload n (
          one_attempt
            (advance e)
            c
            (packet_of (advance e) payload)
            conn
            remote
            bytes
            writes
            wait
            again)
unfolding one_attempt
one_attempt_lem k e c payload w s false remote bytes writes wait again (n, h, g) later =
    (n, omega arith, g)
one_attempt_lem k e c payload w s true none bytes writes wait again (n, h, g) later =
    (n, omega arith, g)
one_attempt_lem k e c payload w s true (some addr) none writes wait again first later =
    (1, omega arith, Sends-failed e c payload 1 _ s (unfold advance in refl) refl refl (λ h. cc))
one_attempt_lem k e c payload w s true (some addr) (some b) true wait again first later = (
  1,
  omega arith,
  record {
    fields = unfold advance in refl;
    counted = refl;
    packets = inr (addr, refl, refl, omega arith);
  },
)
one_attempt_lem k e c payload w s true (some addr) (some b) false wait again first (n, h, g) =
    (suc n, omega arith, Sends-retry n g)

module _ (rtp : RtpFormat) (seen : ℕ → Attempt) where
  -- Any number of attempts makes at most as many packets, and sends at most one of them.
  pub send_attempts_lem :
      (k : ℕ) (e : Endpoint) (c : Counters) (payload : Bytes)
      → InWidth e
      → c.sent < 2 ^ 64
      → (n : ℕ) × (n ≤ k) × Sends e c payload n (send_attempts rtp k seen e c payload)
  unfolding send_attempts
  send_attempts_lem zero e c payload w s =
      (0, omega arith, Sends-failed e c payload 0 _ s (sym (advanced-zero e w)) refl refl (λ h. cc))
  send_attempts_lem (suc k) e c payload w s =
      one_attempt_lem k e c payload w s (seen k).has_conn (seen k).remote _ (seen k).writes _ _
        (send_attempts_lem k e c payload w s)
        (send_attempts_lem k (advance e) c payload (advance-InWidth e w) s)

  -- With RTP fields of 32 bits and a counter of 64: for an active endpoint that is not closed
  -- and a frame of five bytes or more, `SendOpusFrame` makes at most five packets and sends at
  -- most one, the last that it made; the sequence number and the timestamp advance once for each
  -- packet; a packet that was sent is counted, and there is no error exactly if one was sent. An
  -- inactive or closed endpoint, or a frame below five bytes, changes nothing.
  pub send_opus_frame_lem :
      (e : Endpoint) (c : Counters) (payload : Bytes)
      → InWidth e
      → c.sent < 2 ^ 64
      → ((n : ℕ) × (n ≤ 5)
          × (e.active ≡ true)
          × (e.closed ≡ false)
          × (5 ≤ length payload)
          × Sends e c payload n (send_opus_frame rtp seen e c payload))
        ⊎ (((e.active ≡ false) ⊎ (e.closed ≡ true) ⊎ (length payload < 5))
            × (send_opus_frame rtp seen e c payload
                ≡ record { endpoint = e; counters = c; written = []; outcome = ok tt }))
  unfolding send_opus_frame
  send_opus_frame_lem e c payload w s =
      elim (Bool-cases (not e.active || e.closed || ltb (length payload) 5)) [
        | inl idle ↦ inr (ground arith, rw idle refl)
        | inr ready ↦
            let (n, small, sends) = send_attempts_lem 5 e c payload w s in
            inl (n, small, ground arith, ground arith, ground arith, rw ready sends)
      ]

  module _ (marshals : (p : RtpPacket) → (b : Bytes) × (rtp.marshal p ≡ some b)) where
    -- An attempt that finds a connection and an address and whose datagram is taken ends the loop
    -- with success, at that attempt or before.
    send_attempts_ready :
        (k j : ℕ) (e : Endpoint) (c : Counters) (payload : Bytes) (addr : Addr)
        → j < k
        → (seen j).has_conn ≡ true
        → (seen j).remote ≡ some addr
        → (seen j).writes ≡ true
        → (send_attempts rtp k seen e c payload).outcome ≡ ok tt
    unfolding send_attempts
    send_attempts_ready zero j e c payload addr lt conn remote writes = absurd (omega arith)
    send_attempts_ready (suc k) j e c payload addr lt conn remote writes = ground (
      arith,
      marshals (packet_of (advance e) payload),
      send_attempts_ready k j e c payload addr,
      send_attempts_ready k j (advance e) c payload addr,
    )

    -- With RTP fields of 32 bits, a counter of 64, and packets that can be marshalled: if one of
    -- the five attempts of an active endpoint that is not closed finds a connection and an
    -- address and its datagram is taken, `SendOpusFrame` sends a frame of five bytes or more in
    -- one packet, counts it, and returns no error.
    pub send_opus_frame_ready :
        (j : ℕ) (e : Endpoint) (c : Counters) (payload : Bytes) (addr : Addr)
        → InWidth e
        → c.sent < 2 ^ 64
        → e.active ≡ true
        → e.closed ≡ false
        → 5 ≤ length payload
        → j < 5
        → (seen j).has_conn ≡ true
        → (seen j).remote ≡ some addr
        → (seen j).writes ≡ true
        → let r = send_opus_frame rtp seen e c payload in
          (r.outcome ≡ ok tt)
          × (length r.written ≡ 1)
          × (r.counters ≡ record c { sent = (c.sent + 1) % 2 ^ 64 })
    unfolding send_opus_frame
    send_opus_frame_ready j e c payload addr w s active opened long lt conn remote writes =
        let done = send_attempts_ready 5 j e c payload addr lt conn remote writes in
        let (n, _, sends) = send_attempts_lem 5 e c payload w s in
        let (one, counted) = Sends-ok n _ sends done in
        let busy : (not e.active || e.closed || ltb (length payload) 5) ≡ false = ground arith in
        rw busy (done, one, counted)
