-- ===== src/Sip/Receive/Identity.antt =====
-- A round of the receiving loop keeps the endpoint's id.
use openai_gate.Base.{◌≡◌, inl, inr, Bool, arith, Bytes, Option-cases}
use openai_gate.Sip.Rtp.{RtpFormat, Endpoint, Counters, add64, send_silence_dummy, advance}
use openai_gate.Sip.Receive.{
  Read, timed_out, failed, datagram, process_rtp, on_read, on_timeout, on_datagram, update_remote,
  handle_rtp_packet_passthrough, pass_packet, drop_packet, track_first,
}

handle-id :
    (rtp : RtpFormat) (e : Endpoint) (c : Counters) (bytes : Bytes)
    → (handle_rtp_packet_passthrough rtp e c bytes).endpoint.id ≡ e.id
unfolding handle_rtp_packet_passthrough pass_packet drop_packet track_first
handle-id rtp e c bytes = elim (Option-cases (rtp.unmarshal bytes)) [
  | inl bad ↦ ground (arith, bad)
  | inr (packet, good) ↦ ground (arith, good)
]

on_timeout-id :
    (rtp : RtpFormat) (writes : Bool) (e : Endpoint) (c : Counters)
    → (on_timeout rtp writes e c).endpoint.id ≡ e.id
unfolding on_timeout send_silence_dummy advance
on_timeout-id rtp writes e c = ground arith

pub process_rtp-id :
    (rtp : RtpFormat) (read : Read) (writes : Bool) (e : Endpoint) (c : Counters)
    → (process_rtp rtp read writes e c).endpoint.id ≡ e.id
unfolding process_rtp on_read on_datagram update_remote
process_rtp-id rtp timed_out writes e c = ground (arith, on_timeout-id rtp writes e c)
process_rtp-id rtp failed writes e c = ground arith
process_rtp-id rtp (datagram addr bytes) writes e c =
    ground (
      arith,
      handle-id rtp (update_remote e addr) (record c { received = add64 c.received 1 }) bytes,
    )
