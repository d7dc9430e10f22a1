-- ===== src/Tests/Sessions.antt =====
-- Runs of the theorems on bridge sessions and on the service.
use openai_gate.Base.{
  ◌≡◌, refl, true, false, ◌==◌, if◌then◌else◌, List, [], ◌∷◌, ◌++◌, none, some, arith, Bytes,
  bytes_eq, bytes_beq, codes, ok, err,
}
use openai_gate.Base.Assoc.{lookup}
use openai_gate.Json.{object, done, member, string}
use openai_gate.Json.Names.{same_name, lower}
use openai_gate.Mdbx.Reference.{reference}
use openai_gate.Openai.{
  Outgoing, Service, interrupt_response, close, closed_down, send_message, send_opus_audio,
  service_closed, response_cancel, handle_data_channel_message,
}
use openai_gate.Openai.Sending.{
  interruption, Ready, interrupt_response-ok, interrupt_response-Ready, close_lem,
}
use openai_gate.Openai.Items.{NoData, starts_response, handle_data_channel_message-NoData}
use openai_gate.Bridge.{
  create_session, connect_failed, connected_service, remove_session_with_reason, end_session,
  end_found,
}
use openai_gate.Bridge.Sessions.{
  Session, Round, manual_removal, ended, process_rounds, on_opus_data, on_speech_start,
}
use openai_gate.Bridge.Lifecycle.{remove_session_with_reason_lem, Inert}
use openai_gate.Bridge.Playback.{Played, process_rounds_lem}
use openai_gate.Bridge.Retired.{Over, Keeps, Steps, received, interrupted, step, stay, removed-Over}
use openai_gate.Tests.Data.{
  empty_store, call_1, hello, user, noon, open_bridge, busy_bridge, talking, handlers_set,
  open_channel,
}

abbrev alice : Bytes
alice = codes "alice"

abbrev service : Service
service = connected_service (codes "be brief")

service_Ready : Ready service open_channel
service_Ready = record {
  not_closed = refl;
  has_channel = refl;
  is_open = refl;
  accepts = λ msg. refl;
}

refused :
    (create_session reference open_bridge empty_store call_1 alice
      (codes "sip")
      noon
      (err (hello, service))).outcome
    ≡ err connect_failed
unfolding create_session bytes_beq
refused = refl

busy : lookup call_1 busy_bridge.sessions ≡ some talking
unfolding lookup bytes_beq
busy = refl

remove_session_example :
    ((other : Bytes)
      → lookup other (remove_session_with_reason busy_bridge call_1 manual_removal).bridge.sessions
        ≡ (if call_1 == other then none else lookup other busy_bridge.sessions))
    × ((remove_session_with_reason busy_bridge call_1 manual_removal).notices
        ≡ ended call_1 manual_removal ∷ [])
    × ((s' : Session) × ((remove_session_with_reason busy_bridge call_1 manual_removal).session
          ≡ some s')
        × Inert s'
        × (s'.cancelled ≡ true)
        × (s'.service.closed ≡ true))
    × (remove_session_with_reason
          (remove_session_with_reason busy_bridge call_1 manual_removal).bridge
          call_1
          manual_removal
        ≡ record {
          bridge = (remove_session_with_reason busy_bridge call_1 manual_removal).bridge;
          notices = [];
          session = none;
        })
remove_session_example =
    remove_session_with_reason_lem busy_bridge call_1 manual_removal manual_removal talking busy

abbrev rounds : List Round
rounds = record { now = noon; sent = true; picks_done = false } ∷ []

process_rounds_example : Played (hello ∷ user ∷ []) 0 1 (process_rounds handlers_set talking rounds)
process_rounds_example =
    process_rounds_lem handlers_set talking rounds
      (record { playing = refl; joined = refl; running = refl }) refl (omega arith)

-- What the removal has left, after a frame of the service and an interruption.
abbrev ended_session : Session
ended_session = end_session talking

abbrev later_session : Session
later_session = (on_speech_start (on_opus_data ended_session hello) open_channel).0

removed_talking :
    (remove_session_with_reason busy_bridge call_1 manual_removal).session ≡ some ended_session
unfolding remove_session_with_reason end_found end_session lookup bytes_beq
removed_talking = refl

abbrev later_sent : List Outgoing
later_sent = [] ++ ((on_speech_start (on_opus_data ended_session hello) open_channel).1 ++ [])

later_steps : Steps ended_session later_sent later_session
later_steps = step (received hello) (step (interrupted open_channel) stay)

removed-Over_example : (Over later_session × Keeps talking later_session) × (later_sent ≡ [])
removed-Over_example =
    removed-Over busy_bridge call_1 manual_removal talking ended_session later_session later_sent
      busy removed_talking later_steps

interrupted_ok : (interrupt_response service open_channel hello 4800).outcome ≡ ok tt
interrupted_ok = interrupt_response-Ready service open_channel hello 4800 service_Ready

interrupt_response-ok_example :
    ((interrupt_response service open_channel hello 4800).sent ≡ interruption hello 4800)
    × ((interrupt_response service open_channel hello 4800).service
        ≡ record service { is_response_playing = false })
interrupt_response-ok_example = interrupt_response-ok service open_channel hello 4800 interrupted_ok

interrupt_response-Ready_example :
    (interrupt_response service open_channel hello 4800).outcome ≡ ok tt
interrupt_response-Ready_example =
    interrupt_response-Ready service open_channel hello 4800 service_Ready

close_lem_example :
    ((close service).1 ≡ closed_down ∷ [])
    × (close (close service).0 ≡ ((close service).0, []))
    × (send_message (close service).0 open_channel response_cancel ≡ err service_closed)
    × (send_opus_audio (close service).0 true hello ≡ err service_closed)
    × (interrupt_response (close service).0 open_channel hello 4800
        ≡ record { service = (close service).0; sent = []; outcome = err service_closed })
close_lem_example = close_lem service open_channel response_cancel hello hello 4800 true

created_NoData : NoData (member (codes "type") (string (codes "response.created")) done)
unfolding same_name lower bytes_beq
created_NoData = (refl, tt)

handle_data_channel_message_example :
    ((handle_data_channel_message service
        (some (object (member (codes "type") (string (codes "response.created")) done)))
        hello).0.current_item_id
      ≡ [])
    × (starts_response
          (handle_data_channel_message service
            (some (object (member (codes "type") (string (codes "response.created")) done)))
            hello).1
        ≡ false)
handle_data_channel_message_example =
    handle_data_channel_message-NoData service
      (member (codes "type") (string (codes "response.created")) done) hello created_NoData refl
