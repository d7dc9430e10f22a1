-- ===== src/Sip/Receive/Accounting.antt =====
-- What the receiving loop counts and forwards.
use openai_gate.Base.{
  ◌+◌, ◌%◌, ◌^◌, ◌≤◌, ◌<◌, ◌≡◌, ◌≢◌, ◌↔◌, refl, ◌⊎◌, inl, inr, Bool, true, [], ◌∷◌, some, arith,
  Bytes, length, Option-cases,
}
use openai_gate.Sip.Rtp.{Addr, RtpPacket, RtpFormat, Endpoint, Counters, send_silence_dummy}
use openai_gate.Sip.Receive.{
  Read, timed_out, failed, datagram, handle_rtp_packet_passthrough, on_timeout, on_datagram,
  on_read, process_rtp,
}

-- Every datagram received so far was processed or dropped.
pub record Balanced (c : Counters) : Type 0 where
  pub balance : c.received ≡ (c.processed + c.dropped) % 2 ^ 64
  pub processed_width : c.processed < 2 ^ 64
  pub dropped_width : c.dropped < 2 ^ 64

length_zero : (xs : Bytes) → length xs ≡ 0 → xs ≡ []
length_zero [] h = refl
length_zero (x ∷ xs) h = absurd (omega arith)

module _ (rtp : RtpFormat) where
  -- The payload of a datagram goes to the bridge exactly if the datagram has at least twelve bytes,
  -- is an RTP packet of type 96 or 111 with a payload, and the endpoint has a session.
  pub forwarded_iff :
      (e : Endpoint) (c : Counters) (bytes p : Bytes)
      → ((handle_rtp_packet_passthrough rtp e c bytes).forwarded ≡ some p) ↔ (
          (packet : RtpPacket) × (12 ≤ length bytes)
          × (rtp.unmarshal bytes ≡ some packet)
          × (packet.payload ≡ p)
          × (p ≢ [])
          × (e.has_session ≡ true)
          × ((packet.payload_type ≡ 96) ⊎ (packet.payload_type ≡ 111)))
  unfolding handle_rtp_packet_passthrough
  forwarded_iff e c bytes p = (
    λ h. elim (Option-cases (rtp.unmarshal bytes)) [
      | inl bad ↦ absurd (ground arith)
      | inr (packet, good) ↦
          (packet, ground arith, good, ground arith, λ e. ground arith, ground arith, ground arith)
    ],
    λ (packet, long, good, same, ne, s, type). ground (arith, length_zero packet.payload),
  )

  -- A datagram is counted as received, and as processed or as dropped.
  on_datagram-Balanced :
      (addr : Addr) (bytes : Bytes) (e : Endpoint) (c : Counters)
      → Balanced c
      → Balanced (on_datagram rtp addr bytes e c).counters
  unfolding on_datagram handle_rtp_packet_passthrough
  on_datagram-Balanced addr bytes e c b = ground arith

  on_timeout-Balanced :
      (writes : Bool) (e : Endpoint) (c : Counters)
      → Balanced c
      → Balanced (on_timeout rtp writes e c).counters
  unfolding on_timeout send_silence_dummy
  on_timeout-Balanced writes e c b = ground arith

  -- If the received datagrams are the processed and the dropped ones, modulo 2^64, they are so
  -- after any round of the receiving loop.
  pub process_rtp-Balanced :
      (read : Read) (writes : Bool) (e : Endpoint) (c : Counters)
      → Balanced c
      → Balanced (process_rtp rtp read writes e c).counters
  unfolding process_rtp on_read
  process_rtp-Balanced timed_out writes e c b = ground (arith, on_timeout-Balanced writes e c b)
  process_rtp-Balanced failed writes e c b = ground arith
  process_rtp-Balanced (datagram addr bytes) writes e c b =
      ground (arith, on_datagram-Balanced addr bytes e c b)
