-- ===== src/Tests/Store.antt =====
-- Runs of the theorems on the store and its wrapper.
use openai_gate.Base.{◌≡◌, refl, ◌⊎◌, List, some, arith, Bytes, bytes_eq, codes, ok, keep}
use openai_gate.Base.Membership.{In}
use openai_gate.Text.Decimal.Int.{negsuc, int_eq, format_int, parse_int, parse-format_int}
use openai_gate.Mdbx.Reference.{Sorted, reference, reference_laws}
use openai_gate.Database.{filter, delete_by_prefix, set, update}
use openai_gate.Database.Range.{under, outside}
use openai_gate.Database.Filter.{filter_lem}
use openai_gate.Database.Delete.{delete_by_prefix_lem, DelFailed}
use openai_gate.ContextStore.Keys.{text_key, audio_key, text_prefix}
use openai_gate.ContextStore.Keyed.{WellKeyed}
use openai_gate.ContextStore.Phrases.{get_dialog_texts-save, save_dialog_phrase-WellKeyed}
use openai_gate.ContextStore.Audio.{save_opus_frame_lem}
use openai_gate.ContextStore.{
  DialogPhrase, save, save_dialog_phrase, get_dialog_texts, save_opus_frame,
}
use openai_gate.Tests.Data.{
  empty_store, call_1, hello, user, noon, greeted, heard, in_order, in_order_visits,
  empty_WellKeyed,
}

abbrev text : Bytes
text = codes "text"

abbrev audio : Bytes
audio = codes "audio"

greeting_saved :
    save_dialog_phrase reference empty_store call_1 user hello noon
    ≡ ok (text_key call_1 user noon, greeted)
unfolding save_dialog_phrase save set update
greeting_saved = refl

frame_saved :
    save_opus_frame reference empty_store call_1 user hello noon
    ≡ ok (audio_key call_1 user noon, heard)
unfolding save_opus_frame save set update
frame_saved = refl

pub greeted_WellKeyed : WellKeyed text greeted.0
greeted_WellKeyed =
    save_dialog_phrase-WellKeyed reference reference_laws empty_store greeted call_1 user hello
      (text_key call_1 user noon) noon (omega arith) (omega arith) (omega arith) greeting_saved
      (empty_WellKeyed text)

pub heard_WellKeyed : WellKeyed audio heard.0
heard_WellKeyed =
    (save_opus_frame_lem reference reference_laws empty_store heard call_1 user hello
      (audio_key call_1 user noon) noon (omega arith) (omega arith) (omega arith) frame_saved
      (empty_WellKeyed audio)).1

filter_lem_example :
    filter reference greeted (text_prefix call_1) ≡ ok (keep (under (text_prefix call_1)) greeted.0)
filter_lem_example = filter_lem reference reference_laws greeted (text_prefix call_1)

delete_by_prefix_lem_example :
    ((t : Sorted) × (delete_by_prefix reference greeted (text_prefix call_1) ≡ ok t)
      × (t.0 ≡ keep (outside (text_prefix call_1)) greeted.0))
    ⊎ DelFailed reference reference_laws (delete_by_prefix reference greeted (text_prefix call_1))
delete_by_prefix_lem_example =
    delete_by_prefix_lem reference reference_laws greeted (text_prefix call_1) refl refl

save_example :
    (old : List DialogPhrase) × (new : List DialogPhrase) × (get_dialog_texts reference in_order
        empty_store call_1
      ≡ ok old)
    × (get_dialog_texts reference in_order greeted call_1 ≡ ok new)
    × In (record { time = noon; source = user; phrase = hello }) new
    × ((p : DialogPhrase)
        → In p new
        → (p.source ≡ user) × (p.time ≡ noon) × (p.phrase ≡ hello)
          ⊎ In p old × ¬ ((p.source ≡ user) × (p.time ≡ noon)))
    × ((p : DialogPhrase) → In p old → ¬ ((p.source ≡ user) × (p.time ≡ noon)) → In p new)
save_example =
    get_dialog_texts-save reference reference_laws in_order in_order_visits empty_store greeted
      call_1 user hello (text_key call_1 user noon) noon (refl, refl) (refl, refl) (omega arith)
      (omega arith) (omega arith) (empty_WellKeyed text) greeting_saved

parse-format_int_example : parse_int (format_int (negsuc 41)) ≡ some (negsuc 41)
parse-format_int_example = parse-format_int (negsuc 41) (omega arith)
