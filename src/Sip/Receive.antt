-- ===== src/Sip/Receive.antt =====
-- internal/sip/sip.go: what a received datagram does. The result names the payload that goes to
-- the bridge, if one does.
pub mod Accounting
pub mod Packets
pub mod Identity
use openai_gate.Base.{
  ℕ, ◌+◌, ◌%◌, ◌^◌, Bool, true, false, not, ◌||◌, ◌&&◌, List, [], ◌∷◌, Option, none, some, Bytes,
  bytes_eq, ltb, eqb, length, ◌==◌, if◌then◌else◌,
}
use openai_gate.Sip.Rtp.{Addr, RtpPacket, RtpFormat, Endpoint, Counters, add64, send_silence_dummy}

pub record Received : Type 0 where
  pub endpoint : Endpoint
  pub counters : Counters
  pub forwarded : Option Bytes

-- The payload types 96 and 111.
unfoldable pub is_opus : ℕ → Bool
is_opus t = eqb t 96 || eqb t 111

-- The first packet's timestamp is kept.
unfoldable pub track_first : Endpoint → RtpPacket → Endpoint
track_first e packet =
    if e.first_packet
    then record e { first_packet = false; last_recv_timestamp = packet.timestamp }
    else e

-- What `handleRTPPacketPassthrough` does with a packet that it could read.
unfoldable pub pass_packet : Endpoint → Counters → RtpPacket → Received
unfolding is_opus track_first
pass_packet e c packet =
    let e' = track_first e packet in
    let c' = record c { processed = add64 c.processed 1 } in
    record {
      endpoint = e';
      counters = c';
      forwarded =
          if eqb (length packet.payload) 0
          then none
          else if e.has_session && is_opus packet.payload_type
          then some packet.payload
          else none;
    }

unfoldable pub drop_packet : Endpoint → Counters → Received
drop_packet e c = record {
  endpoint = e;
  counters = record c { dropped = add64 c.dropped 1 };
  forwarded = none;
}

-- The address of the last datagram is the endpoint's address from then on.
unfoldable pub same_addr : Option Addr → Addr → Bool
same_addr none b = false
same_addr (some a) b = a.ip == b.ip && eqb a.port b.port

unfoldable pub update_remote : Endpoint → Addr → Endpoint
unfolding same_addr
update_remote e addr =
    if same_addr e.remote_addr addr then e else record e { remote_addr = some addr }

-- The result of a read from the socket.
pub data Read : Type 0 where
  timed_out : Read
  failed : Read
  datagram : Addr → Bytes → Read

-- What a round of `processRTP` leaves, and whether the loop goes on.
pub record RoundResult : Type 0 where
  pub endpoint : Endpoint
  pub counters : Counters
  pub forwarded : Option Bytes
  pub written : List (Addr × RtpPacket)
  pub goes_on : Bool

module _ (rtp : RtpFormat) where
  unfoldable pub handle_rtp_packet_passthrough : Endpoint → Counters → Bytes → Received
  unfolding pass_packet drop_packet
  handle_rtp_packet_passthrough e c bytes =
      if ltb (length bytes) 12 then drop_packet e c else elim (rtp.unmarshal bytes) [
        | none ↦ drop_packet e c
        | some packet ↦ pass_packet e c packet
      ]

  -- A timeout sends a silent frame to an active endpoint whose address is known.
  unfoldable pub on_timeout : Bool → Endpoint → Counters → RoundResult
  on_timeout writes e c = elim e.remote_addr [
    | none ↦ record { endpoint = e; counters = c; forwarded = none; written = []; goes_on = true }
    | some addr ↦
        let s = send_silence_dummy rtp writes addr e c in
        if e.active
        then record {
          endpoint = s.endpoint;
          counters = s.counters;
          forwarded = none;
          written = s.written;
          goes_on = true;
        }
        else record { endpoint = e; counters = c; forwarded = none; written = []; goes_on = true }
  ]

  unfoldable pub on_datagram : Addr → Bytes → Endpoint → Counters → RoundResult
  unfolding update_remote
  on_datagram addr bytes e c =
      let counted = record c { received = add64 c.received 1 } in
      let r = handle_rtp_packet_passthrough (update_remote e addr) counted bytes in
      record {
        endpoint = r.endpoint;
        counters = r.counters;
        forwarded = r.forwarded;
        written = [];
        goes_on = true;
      }

  unfoldable pub on_read : Read → Bool → Endpoint → Counters → RoundResult
  on_read timed_out writes e c = on_timeout writes e c
  on_read failed writes e c = record {
    endpoint = e;
    counters = c;
    forwarded = none;
    written = [];
    goes_on = not e.closed;
  }
  on_read (datagram addr bytes) writes e c = on_datagram addr bytes e c

  -- One round: the end of the context and a closed endpoint stop the loop before it reads.
  unfoldable pub process_rtp : Read → Bool → Endpoint → Counters → RoundResult
  process_rtp read writes e c =
      if e.cancelled || e.closed
      then record { endpoint = e; counters = c; forwarded = none; written = []; goes_on = false }
      else on_read read writes e c
