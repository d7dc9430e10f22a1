-- ===== src/Tests/Refinement.antt =====
-- A run of the commands of the store.
use openai_gate.Base.{◌≡◌, refl, List, [], ◌∷◌, arith, ok, All, bytes_beq}
use openai_gate.Mdbx.Reference.{reference, reference_laws, put_entry}
use openai_gate.ContextStore.{
  save_dialog_phrase, save_opus_frame, save_user_session, set_context, save, delete_dialog_texts,
  delete_context,
}
use openai_gate.Database.{set, update, delete, delete_by_prefix}
use openai_gate.Mdbx.Ordered.{first_from, first_above}
use openai_gate.Text.Order.{bytes_lt}
use openai_gate.Text.Decimal.Int.{format_int}
use openai_gate.Text.Decimal.Natural.{format_nat}
use openai_gate.Base.Assoc.{lookup, remove}
use openai_gate.ContextStore.Commands.{
  Command, save_frame, save_phrase, delete_texts, put_context, remove_context, IsPlainCommand,
  perform,
}
use openai_gate.ContextStore.Refines.{perform_all, replay, nothing, Answers, store_refines}
use openai_gate.Tests.Data.{
  empty_store, heard, call_1, hello, user, noon, in_order, in_order_visits,
}

abbrev commands : List Command
commands =
    save_phrase call_1 user hello noon
    ∷ delete_texts call_1
    ∷ put_context call_1 hello
    ∷ remove_context call_1
    ∷ save_frame call_1 user hello noon
    ∷ []

performed : perform_all reference commands empty_store ≡ ok heard
unfolding perform_all perform save_dialog_phrase save_opus_frame save_user_session set_context save
    set update delete_dialog_texts delete_by_prefix delete_context delete first_from put_entry
    bytes_lt bytes_beq lookup format_int format_nat first_above remove
performed = refl

commands-IsPlain : All IsPlainCommand commands
commands-IsPlain = omega arith

store_refines_example : Answers reference in_order heard (replay commands nothing) call_1 user
store_refines_example =
    store_refines reference reference_laws in_order in_order_visits commands empty_store heard
      call_1 user refl commands-IsPlain performed (refl, refl) (omega arith) (omega arith)
