-- ===== src/Sip/Rtp.antt =====
-- internal/sip/sip.go: the endpoint's state and the packets that it sends. The packet format
-- (pion/rtp) and the socket are parameters. Counters and RTP fields wrap at their widths.
pub mod Attempts
pub mod Playing
use openai_gate.Base.{
  ℕ, zero, suc, ◌+◌, ◌*◌, ◌%◌, ◌^◌, Bool, true, false, not, ◌||◌, ◌&&◌, List, [], ◌∷◌, ◌++◌, Option,
  none, some, Bytes, Result, ok, err, ltb, length, if◌then◌else◌,
}

pub record Addr : Type 0 where
  pub ip : Bytes
  pub port : ℕ

pub record RtpPacket : Type 0 where
  pub payload_type : ℕ
  pub sequence_number : ℕ
  pub timestamp : ℕ
  pub ssrc : ℕ
  pub payload : Bytes

-- `Marshal` and `Unmarshal` of pion/rtp.
pub record RtpFormat : Type 0 where
  pub marshal : RtpPacket → Option Bytes
  pub unmarshal : Bytes → Option RtpPacket

pub record Endpoint : Type 0 where
  pub id : Bytes
  pub identifier : Bytes
  pub has_conn : Bool
  pub remote_addr : Option Addr
  pub has_session : Bool
  pub active : Bool
  pub closed : Bool
  pub cancelled : Bool
  pub seq_num : ℕ
  pub timestamp : ℕ
  pub ssrc : ℕ
  pub last_recv_timestamp : ℕ
  pub timestamp_base : ℕ
  pub first_packet : Bool

-- The server's counters, as the bits of an int64.
pub record Counters : Type 0 where
  pub processed : ℕ
  pub dropped : ℕ
  pub sent : ℕ
  pub received : ℕ

abbrev pub add16 : ℕ → ℕ → ℕ
add16 a b = (a + b) % 2 ^ 16

abbrev pub add32 : ℕ → ℕ → ℕ
add32 a b = (a + b) % 2 ^ 32

abbrev pub add64 : ℕ → ℕ → ℕ
add64 a b = (a + b) % 2 ^ 64

abbrev pub opus_samples_per_frame : ℕ
opus_samples_per_frame = 960

pub data SendError : Type 0 where
  not_ready : SendError
  marshal_failed : SendError
  not_implemented : SendError

-- What a call of a sender leaves: the endpoint, the counters, the datagrams that the socket took,
-- and the returned error.
pub record Sending : Type 0 where
  pub endpoint : Endpoint
  pub counters : Counters
  pub written : List (Addr × RtpPacket)
  pub outcome : Result SendError (Unit {0})

-- The next sequence number and timestamp are taken, whether or not the packet goes out.
unfoldable pub advance : Endpoint → Endpoint
advance e = record e {
  seq_num = add32 e.seq_num 1;
  timestamp = add32 e.timestamp opus_samples_per_frame;
}

-- The packet after `advance`: the low half of the sequence number, the timestamp from its base.
unfoldable pub packet_of : Endpoint → Bytes → RtpPacket
packet_of e payload = record {
  payload_type = 111;
  sequence_number = e.seq_num % 2 ^ 16;
  timestamp = add32 e.timestamp_base e.timestamp;
  ssrc = e.ssrc;
  payload = payload;
}

-- What an attempt finds: the connection and the address, which other goroutines may change between
-- attempts, and whether the socket takes the datagram.
pub record Attempt : Type 0 where
  pub has_conn : Bool
  pub remote : Option Addr
  pub writes : Bool

-- One attempt: whether there is a connection, the address, the marshalled packet, whether the socket
-- takes it; then the result of the attempts behind it, without and with the step of the fields.
one_attempt :
    Endpoint
    → Counters
    → RtpPacket
    → Bool
    → Option Addr
    → Option Bytes
    → Bool
    → Sending
    → Sending
    → Sending
one_attempt e' c packet false remote bytes writes wait again = wait
one_attempt e' c packet true none bytes writes wait again = wait
one_attempt e' c packet true (some addr) none writes wait again = record {
  endpoint = e';
  counters = c;
  written = [];
  outcome = err marshal_failed;
}
one_attempt e' c packet true (some addr) (some bytes) true wait again = record {
  endpoint = e';
  counters = record c { sent = add64 c.sent 1 };
  written = (addr, packet) ∷ [];
  outcome = ok tt;
}
one_attempt e' c packet true (some addr) (some bytes) false wait again = again

module _ (rtp : RtpFormat) where
  -- The loop of `SendOpusFrame`: the attempts that are left, and what each of them finds.
  unfoldable pub send_attempts : ℕ → (ℕ → Attempt) → Endpoint → Counters → Bytes → Sending
  unfolding advance packet_of one_attempt
  send_attempts zero seen e c payload = record {
    endpoint = e;
    counters = c;
    written = [];
    outcome = err not_ready;
  }
  send_attempts (suc n) seen e c payload =
      let a = seen n in
      let e' = advance e in
      let packet = packet_of e' payload in
      one_attempt e' c packet a.has_conn a.remote (rtp.marshal packet) a.writes
        (send_attempts n seen e c payload) (send_attempts n seen e' c payload)

  -- An endpoint that is not active, or a frame of less than five bytes, sends nothing and reports
  -- no error.
  unfoldable pub send_opus_frame : (ℕ → Attempt) → Endpoint → Counters → Bytes → Sending
  unfolding send_attempts
  send_opus_frame seen e c payload =
      if not e.active || e.closed || ltb (length payload) 5
      then record { endpoint = e; counters = c; written = []; outcome = ok tt }
      else send_attempts 5 seen e c payload

  unfoldable pub send_audio : (ℕ → Attempt) → Endpoint → Counters → Bytes → Sending
  unfolding send_opus_frame
  send_audio seen e c payload =
      if ltb 20 (length payload) && ltb (length payload) 1000
      then send_opus_frame seen e c payload
      else record { endpoint = e; counters = c; written = []; outcome = err not_implemented }

  -- `sendSilenceDummy`: one frame of three bytes.
  unfoldable pub send_silence_dummy : Bool → Addr → Endpoint → Counters → Sending
  unfolding advance packet_of
  send_silence_dummy writes addr e c =
      let e' = advance e in
      let packet = packet_of e' (0xf8 ∷ 0xff ∷ 0xfe ∷ []) in
      if e.closed
      then record { endpoint = e; counters = c; written = []; outcome = ok tt }
      else elim (rtp.marshal packet) [
        | none ↦ record { endpoint = e'; counters = c; written = []; outcome = ok tt }
        | some bytes ↦
            if writes
            then record {
              endpoint = e';
              counters = record c { sent = add64 c.sent 1 };
              written = (addr, packet) ∷ [];
              outcome = ok tt;
            }
            else record { endpoint = e'; counters = c; written = []; outcome = ok tt }
      ]

  -- The empty packet of round `i` of `sendDummyRTPPackets`; the timestamps count from the base.
  unfoldable pub dummy_packet : Endpoint → ℕ → RtpPacket
  dummy_packet e i = record {
    payload_type = 111;
    sequence_number = e.seq_num % 2 ^ 16;
    timestamp = add32 e.timestamp_base ((i % 2 ^ 32 * opus_samples_per_frame) % 2 ^ 32);
    ssrc = e.ssrc;
    payload = [];
  }

  -- The loop of `sendDummyRTPPackets`: the rounds left, the number of the round, and whether the
  -- socket takes each datagram. The endpoint's flags are read at each round.
  unfoldable pub dummy_loop :
      ℕ → ℕ → (ℕ → Bool) → Addr → Endpoint → Endpoint × List (Addr × RtpPacket)
  unfolding dummy_packet
  dummy_loop zero i writes addr e = (e, [])
  dummy_loop (suc n) i writes addr e =
      let e' = record e { seq_num = add32 e.seq_num 1 } in
      let packet = dummy_packet e' i in
      let (last, later) = dummy_loop n (suc i) writes addr e' in
      if not e.active || e.closed then (e, []) else elim (rtp.marshal packet) [
        | none ↦ (last, later)
        | some bytes ↦ (last, if writes i then (addr, packet) ∷ later else later)
      ]

  unfoldable pub send_dummy_rtp_packets :
      (ℕ → Bool) → Addr → Endpoint → ℕ → Endpoint × List (Addr × RtpPacket)
  unfolding dummy_loop
  send_dummy_rtp_packets writes addr e count = dummy_loop count 0 writes addr e
