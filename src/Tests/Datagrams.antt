-- ===== src/Tests/Datagrams.antt =====
-- A run of a call's datagram through the program.
use openai_gate.Base.{
  ◌≡◌, refl, true, List, [], ◌∷◌, some, arith, Bytes, bytes_eq, bytes_beq, codes, ok, inr, length,
}
use openai_gate.Base.Assoc.{lookup, insert}
use openai_gate.Text.Decimal.Int.{format_int}
use openai_gate.Text.Decimal.Natural.{format_nat}
use openai_gate.Mdbx.Reference.{Sorted, reference, reference_laws, put_entry}
use openai_gate.Database
use openai_gate.ContextStore.{save_opus_frame, save, save_user_session, get_context}
use openai_gate.ContextStore.Keys.{audio_key}
use openai_gate.Bridge.{new_session, create_session, or_default, prompt_of, kept_state}
use openai_gate.Bridge.Sessions.{Session, user_source}
use openai_gate.Sip.Rtp.{Endpoint, add64}
use openai_gate.Sip.Receive.{datagram}
use openai_gate.Sip.Receive.Packets.{CarriesOpus}
use openai_gate.Sip.Server.{new_endpoint, handle_invite, handle_ack}
use openai_gate.App.{App, wired_bridge}
use openai_gate.App.Steps.{Action, step, run, invited, acked, socket_read, delivered}
use openai_gate.App.Frames.{Kept}
use openai_gate.App.Datagrams.{datagram_lem}
use openai_gate.Sip.Server.{handle_bye}
use openai_gate.Sip.Server.Filed.{Filed}
use openai_gate.App.Calls.{hung_up_lem}
use openai_gate.App.Steps.{hung_up}
use openai_gate.Base.{◌==◌, if◌then◌else◌, none}
use openai_gate.Tests.Data.{call_1, noon, with}
use openai_gate.Tests.Calls.{invite, world, joined}
use openai_gate.Tests.Packets.{format, phone}
use openai_gate.Tests.Wiring.{environment, opens, at_start, starts}

abbrev answered : List Action
answered = invited invite world ∷ acked call_1 noon (ok tt) ∷ []

abbrev calling : App reference
calling = run reference at_start answered

abbrev caller : Session
caller = new_session call_1 (codes "alice") []

abbrev speech : Bytes
speech = codes "twenty milliseconds"

abbrev with_speech : Sorted
with_speech = with calling.server.db (audio_key call_1 user_source noon) speech

joined_there : lookup call_1 calling.server.endpoints ≡ some joined
unfolding run step wired_bridge handle_invite handle_ack create_session or_default prompt_of
    kept_state get_context save_user_session save Database.set Database.get Database.update
    Database.view Database.hide_missing lookup insert bytes_beq format_int format_nat put_entry
joined_there = refl

caller_there : lookup call_1 calling.server.bridge.sessions ≡ some caller
unfolding run step wired_bridge handle_invite handle_ack create_session or_default prompt_of
    kept_state get_context save_user_session save Database.set Database.get Database.update
    Database.view Database.hide_missing lookup insert bytes_beq format_int format_nat put_entry
caller_there = refl

speech_saves :
    save_opus_frame reference calling.server.db call_1 user_source speech noon
    ≡ ok (audio_key call_1 user_source noon, with_speech)
unfolding save_opus_frame save Database.set Database.update
speech_saves = refl

speech_opus : CarriesOpus format speech speech
speech_opus = (
  record { payload_type = 111; sequence_number = 1; timestamp = 960; ssrc = 7; payload = speech },
  omega arith,
  refl,
  refl,
  λ h. absurd (cc h),
  inr refl,
)

datagram_lem_example :
    let read =
      step reference
        (step reference calling (socket_read format call_1 (datagram phone speech) true noon true))
        (delivered (length calling.pending) noon) in
    Kept reference calling call_1 speech noon read
    × ((e' : Endpoint) × (lookup call_1 read.server.endpoints ≡ some e')
        × (e'.remote_addr ≡ some phone))
    × (read.server.counters ≡ record calling.server.counters {
      received = add64 calling.server.counters.received 1;
      processed = add64 calling.server.counters.processed 1;
    })
unfolding new_endpoint
datagram_lem_example =
    datagram_lem reference reference_laws environment opens at_start answered format call_1 joined
      phone speech speech (audio_key call_1 user_source noon) caller with_speech noon noon true true
      starts joined_there (record { joined = refl; opened = refl; running = refl }) speech_opus
      caller_there refl speech_saves

hung_up_lem_example :
    let left = step reference calling (hung_up call_1) in
    Filed calling.server.endpoints
    × ((handle_bye reference calling.server call_1).responses
        ≡ record { code = 200; body = [] } ∷ [])
    × ((other : Bytes)
        → lookup other left.server.endpoints
          ≡ (if call_1 == other then none else lookup other calling.server.endpoints))
    × ((other : Bytes)
        → lookup other left.server.bridge.sessions
          ≡ (if call_1 == other then none else lookup other calling.server.bridge.sessions))
hung_up_lem_example =
    hung_up_lem reference reference_laws environment opens at_start answered call_1 joined starts
      joined_there refl
