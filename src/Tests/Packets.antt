-- ===== src/Tests/Packets.antt =====
-- Runs of the theorems on RTP packets, ports and recordings.
use openai_gate.Base.{
  ℕ, ◌≤◌, ◌<◌, ◌≡◌, ◌≢◌, ◌↔◌, ◌⊎◌, refl, Bool, true, false, eqb, if◌then◌else◌, [], ◌∷◌, none, some,
  arith, Bytes, bytes_eq, codes, ok, length,
}
use openai_gate.Base.Assoc.{Assoc}
use openai_gate.Text.Decimal.Int.{pos}
use openai_gate.Mdbx.Reference.{reference}
use openai_gate.Database.{set, update}
use openai_gate.ContextStore.{save, save_opus_frame}
use openai_gate.ContextStore.Keys.{audio_key}
use openai_gate.Sip.Rtp.{Addr, RtpPacket, RtpFormat, Endpoint, Counters, Attempt, send_opus_frame}
use openai_gate.Sip.Rtp.Attempts.{InWidth, Sends, send_opus_frame_lem, send_opus_frame_ready}
use openai_gate.Sip.Receive.{datagram, process_rtp, handle_rtp_packet_passthrough}
use openai_gate.Sip.Receive.Accounting.{Balanced, process_rtp-Balanced, forwarded_iff}
use openai_gate.Sip.Sdp.{get_port}
use openai_gate.Sip.Sdp.Ports.{FirstFree, AllTaken, get_port_lem}
use openai_gate.Recorder.{OpusPacket, Recorder, SessionRecording, new_recorder}
use openai_gate.Tests.Data.{empty_store, call_1, hello, user, noon, heard}

-- A packet of type 111 as its payload alone.
abbrev pub format : RtpFormat
format = record {
  marshal = λ p. some p.payload;
  unmarshal = λ b.
      some (record {
        payload_type = 111;
        sequence_number = 1;
        timestamp = 960;
        ssrc = 7;
        payload = b;
      });
}

abbrev pub phone : Addr
phone = record { ip = codes "192.0.2.7"; port = 4000 }

abbrev pub endpoint : Endpoint
endpoint = record {
  id = call_1;
  identifier = user;
  has_conn = true;
  remote_addr = some phone;
  has_session = true;
  active = true;
  closed = false;
  cancelled = false;
  seq_num = 65535;
  timestamp = 0;
  ssrc = 7;
  last_recv_timestamp = 0;
  timestamp_base = 4294967295;
  first_packet = true;
}

abbrev pub fresh : Counters
fresh = record { processed = 0; dropped = 0; sent = 0; received = 0 }

-- The third attempt is the first one that finds an address.
abbrev pub third : ℕ → Attempt
third k = record { has_conn = true; remote = if eqb k 2 then some phone else none; writes = true }

pub endpoint_InWidth : InWidth endpoint
endpoint_InWidth = record { seq = omega arith; time = omega arith; base = omega arith }

send_opus_frame_example :
    ((n : ℕ) × (n ≤ 5)
      × (endpoint.active ≡ true)
      × (endpoint.closed ≡ false)
      × (5 ≤ length hello)
      × Sends endpoint fresh hello n (send_opus_frame format third endpoint fresh hello))
    ⊎ (((endpoint.active ≡ false) ⊎ (endpoint.closed ≡ true) ⊎ (length hello < 5))
        × (send_opus_frame format third endpoint fresh hello
            ≡ record { endpoint = endpoint; counters = fresh; written = []; outcome = ok tt }))
send_opus_frame_example =
    send_opus_frame_lem format third endpoint fresh hello endpoint_InWidth (omega arith)

send_opus_frame_ready_example :
    ((send_opus_frame format third endpoint fresh hello).outcome ≡ ok tt)
    × (length (send_opus_frame format third endpoint fresh hello).written ≡ 1)
    × ((send_opus_frame format third endpoint fresh hello).counters ≡ record fresh { sent = 1 })
send_opus_frame_ready_example =
    send_opus_frame_ready format third (λ p. (p.payload, refl)) 2 endpoint fresh hello phone
      endpoint_InWidth (omega arith) refl refl (omega arith) (omega arith) refl refl refl

fresh-Balanced : Balanced fresh
fresh-Balanced = record {
  balance = refl;
  processed_width = omega arith;
  dropped_width = omega arith;
}

process_rtp_example :
    Balanced (process_rtp format (datagram phone hello) true endpoint fresh).counters
process_rtp_example =
    process_rtp-Balanced format (datagram phone hello) true endpoint fresh fresh-Balanced

forwarded_example :
    ((handle_rtp_packet_passthrough format endpoint fresh hello).forwarded ≡ some hello) ↔ (
      (packet : RtpPacket) × (12 ≤ length hello)
      × (format.unmarshal hello ≡ some packet)
      × (packet.payload ≡ hello)
      × (hello ≢ [])
      × (endpoint.has_session ≡ true)
      × ((packet.payload_type ≡ 96) ⊎ (packet.payload_type ≡ 111)))
forwarded_example = forwarded_iff format endpoint fresh hello hello

abbrev even_taken : ℕ → Bool
even_taken p = eqb p 10004

get_port_example :
    FirstFree even_taken 10010 10000 (get_port even_taken 10000 10010)
    ⊎ ((get_port even_taken 10000 10010 ≡ 10000) × AllTaken even_taken 10010 10000)
get_port_example = get_port_lem even_taken 10010 10000

abbrev first : OpusPacket
first = record { frame = hello; timestamp = noon; source = user }

abbrev second : OpusPacket
second = record { frame = user; timestamp = pos 1720000000; source = user }

frame_kept :
    save_opus_frame reference empty_store call_1 user hello noon
    ≡ ok (audio_key call_1 user noon, heard)
unfolding save_opus_frame save set update
frame_kept = refl

abbrev recording : Recorder
recording = record new_recorder {
  recordings =
      (
        call_1,
        record { session_id = call_1; start_time = noon; incoming_count = 1; outgoing_count = 0 },
      )
      ∷ [];
}

abbrev as_stored : Assoc Bytes SessionRecording → Assoc Bytes SessionRecording
as_stored xs = xs
