-- ===== src/Sip/Receive/Packets.antt =====
-- What a round of the receiving loop does with an Opus packet of a call.
use openai_gate.Base.{
  ◌≤◌, ◌≡◌, ◌≢◌, ◌⊎◌, refl, ap, ◌∙◌, inl, inr, Bool, true, false, ltb, Bool-cases, [], Option, none,
  some, arith, Bytes, bytes_eq, bytes_beq_iff, length,
}
use openai_gate.Sip.Rtp.{Addr, RtpPacket, RtpFormat, Endpoint, Counters, add64}
use openai_gate.Sip.Receive.{
  Received, datagram, process_rtp, on_read, on_datagram, update_remote,
  handle_rtp_packet_passthrough, pass_packet, track_first, same_addr,
}
use openai_gate.Sip.Receive.Accounting.{forwarded_iff}

-- A datagram that is an Opus packet with a payload.
abbrev pub CarriesOpus : RtpFormat → Bytes → Bytes → Type 0
CarriesOpus rtp bytes payload =
    (packet : RtpPacket) × (12 ≤ length bytes)
    × (rtp.unmarshal bytes ≡ some packet)
    × (packet.payload ≡ payload)
    × (payload ≢ [])
    × ((packet.payload_type ≡ 96) ⊎ (packet.payload_type ≡ 111))

-- An endpoint of a call that is under way.
pub record InCall (e : Endpoint) : Type 0 where
  pub joined : e.has_session ≡ true
  pub opened : e.closed ≡ false
  pub running : e.cancelled ≡ false

same_addr-eq : (o : Option Addr) (addr : Addr) → same_addr o addr ≡ true → o ≡ some addr
unfolding same_addr
same_addr-eq none addr h = absurd (cc h)
same_addr-eq (some a) addr h =
    let ip : a.ip ≡ addr.ip = ground (arith, h, bytes_beq_iff a.ip addr.ip) in
    let port : a.port ≡ addr.port = ground (arith, h) in
    ap (λ x. some (record { ip = x; port = a.port })) ip
    ∙ ap (λ x. some (record { ip = addr.ip; port = x })) port

update_remote-addr : (e : Endpoint) (addr : Addr) → (update_remote e addr).remote_addr ≡ some addr
unfolding update_remote
update_remote-addr e addr = elim (Bool-cases (same_addr e.remote_addr addr)) [
  | inl known ↦ rw known (same_addr-eq e.remote_addr addr known)
  | inr new ↦ rw new refl
]

update_remote-joined :
    (e : Endpoint) (addr : Addr) → (update_remote e addr).has_session ≡ e.has_session
unfolding update_remote
update_remote-joined e addr = ground arith

track_first-addr :
    (e : Endpoint) (packet : RtpPacket) → (track_first e packet).remote_addr ≡ e.remote_addr
unfolding track_first
track_first-addr e packet = ground arith

process_rtp-open :
    (rtp : RtpFormat) (addr : Addr) (bytes : Bytes) (writes : Bool) (e : Endpoint) (c : Counters)
    → InCall e
    → process_rtp rtp (datagram addr bytes) writes e c ≡ on_datagram rtp addr bytes e c
unfolding process_rtp on_read
process_rtp-open rtp addr bytes writes e c call = rw (call.running, call.opened) refl

handle-read :
    (rtp : RtpFormat) (bytes : Bytes) (packet : RtpPacket) (e : Endpoint) (c : Counters)
    → 12 ≤ length bytes
    → rtp.unmarshal bytes ≡ some packet
    → handle_rtp_packet_passthrough rtp e c bytes ≡ pass_packet e c packet
unfolding handle_rtp_packet_passthrough
handle-read rtp bytes packet e c long reads =
    let enough : ltb (length bytes) 12 ≡ false = ground arith in rw enough (rw reads refl)

-- What a round does with an Opus packet of a call.
pub process_rtp-opus :
    (rtp : RtpFormat) (addr : Addr) (bytes payload : Bytes) (writes : Bool) (e : Endpoint)
    (c : Counters)
    → CarriesOpus rtp bytes payload
    → InCall e
    → let r = process_rtp rtp (datagram addr bytes) writes e c in
      (r.forwarded ≡ some payload)
      × (r.endpoint.remote_addr ≡ some addr)
      × (r.counters ≡ record c { received = add64 c.received 1; processed = add64 c.processed 1 })
unfolding on_datagram pass_packet
process_rtp-opus rtp addr bytes payload writes e c (packet, long, reads, same, full, type) call =
    let counted = record c { received = add64 c.received 1 } in
    let e' = update_remote e addr in
    let opens = process_rtp-open rtp addr bytes writes e c call in
    let passes = handle-read rtp bytes packet e' counted long reads in
    let (_, goes) = forwarded_iff rtp e' counted bytes payload in
    let joined = update_remote-joined e addr ∙ call.joined in
    rw opens (
      goes (packet, long, reads, same, full, joined, type),
      ap (λ (r : Received). r.endpoint.remote_addr) passes
          ∙ track_first-addr e' packet
          ∙ update_remote-addr e addr,
      ap (λ (r : Received). r.counters) passes,
    )
