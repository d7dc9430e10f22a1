-- ===== src/Tests/Requests.antt =====
-- Runs of the theorems on requests and transcripts.
use openai_gate.Base.{◌≡◌, ◌≢◌, refl, List, [], some, arith, Bytes, bytes_eq, bytes_beq, codes, ok}
use openai_gate.Base.Assoc.{lookup}
use openai_gate.Base.Membership.{In}
use openai_gate.Json.{Json, object, member, done, string, get_member, as_string}
use openai_gate.Mdbx.Reference.{reference, reference_laws}
use openai_gate.Database.{set, update, delete}
use openai_gate.ContextStore
use openai_gate.ContextStore.{DialogPhrase, get_dialog_texts, save_dialog_phrase, save}
use openai_gate.ContextStore.Keys.{audio_key}
use openai_gate.ContextStore.Keyed.{WellKeyed}
use openai_gate.Bridge.{create_session}
use openai_gate.Bridge.Sessions.{Session}
use openai_gate.Transcript.{add_message, parse_openai_message}
use openai_gate.Transcript.Phrases.{add_message_lem}
use openai_gate.Api.{reply, context, set_context, get_context, delete_context, delete_record}
use openai_gate.Api.Requests.{
  set_context-get_context, set_context-create_session, delete_record_no_source,
}
use openai_gate.Tests.Data.{
  empty_store, call_1, hello, user, noon, open_bridge, greeted, heard, in_order, in_order_visits,
  empty_WellKeyed,
}

abbrev alice : Bytes
alice = codes "alice"

set_answered : (set_context reference empty_store alice (some hello)).1.status ≡ 200
unfolding set_context ContextStore.set_context set update
set_answered = refl

delete_answered : (delete_context reference empty_store alice).1.status ≡ 200
unfolding delete_context ContextStore.delete_context delete update lookup
delete_answered = refl

set_context-get_context_example :
    (get_context reference (set_context reference empty_store alice (some hello)).0 alice
      ≡ reply 200 (context hello))
    × ((other : Bytes)
        → alice ≢ other
        → get_context reference (set_context reference empty_store alice (some hello)).0 other
          ≡ get_context reference empty_store other)
set_context-get_context_example =
    set_context-get_context reference reference_laws (λ t. refl) empty_store alice hello
      set_answered

set_context-create_session_example :
    (s : Session) × ((create_session reference open_bridge
        (set_context reference empty_store alice (some hello)).0
        call_1
        alice
        (codes "sip")
        noon
        (ok tt)).outcome
      ≡ ok s)
    × (s.service.prompt ≡ hello)
set_context-create_session_example =
    set_context-create_session reference reference_laws (λ t. refl) empty_store alice hello
      open_bridge call_1 (codes "sip") noon (λ h. absurd (ground arith))
      (λ h. absurd (ground arith)) refl set_answered

delete_record_example :
    lookup (audio_key call_1 user noon) (delete_record reference heard call_1 []).0.0
    ≡ lookup (audio_key call_1 user noon) heard.0
delete_record_example =
    delete_record_no_source reference reference_laws heard call_1 call_1 user noon (omega arith)
      (omega arith) (omega arith) (λ h. absurd (ground arith))

abbrev transcribed : Json
transcribed = object (
    member (codes "type") (string (codes "conversation.item.input_audio_transcription.completed"))
      (member (codes "transcript") (string hello) done))

transcribed_phrase : parse_openai_message (some transcribed) ≡ some (user, hello)
unfolding parse_openai_message get_member bytes_beq as_string
transcribed_phrase = refl

transcribed_added : add_message reference empty_store call_1 (some transcribed) noon ≡ ok greeted
unfolding add_message get_member bytes_beq save_dialog_phrase save set update as_string
transcribed_added = refl

add_message_example :
    (old : List DialogPhrase) × (new : List DialogPhrase) × (get_dialog_texts reference in_order
        empty_store call_1
      ≡ ok old)
    × (get_dialog_texts reference in_order greeted call_1 ≡ ok new)
    × In (record { time = noon; source = user; phrase = hello }) new
    × ((p : DialogPhrase) → In p old → ¬ ((p.source ≡ user) × (p.time ≡ noon)) → In p new)
    × WellKeyed (codes "text") greeted.0
add_message_example =
    add_message_lem reference reference_laws in_order in_order_visits empty_store greeted call_1
      user hello (some transcribed) noon (refl, refl) (refl, refl) (omega arith) (omega arith)
      (empty_WellKeyed (codes "text")) transcribed_phrase transcribed_added
