-- ===== src/Transcript.antt =====
-- internal/controllers/transcript.go: which messages of the service are phrases, and their storing.
pub mod Phrases
use openai_gate.Base.{
  ℕ, Bool, true, false, List, [], ◌∷◌, Option, none, some, Bytes, bytes_eq, codes, Result, ok, err,
  ◌==◌, if◌then◌else◌,
}
use openai_gate.Text.Decimal.Int.{ℤ}
use openai_gate.Json.{Json, null, object, Members, done, get_member, as_string}
use openai_gate.Mdbx.{Mdbx}
use openai_gate.Database.{Fallible}
use openai_gate.ContextStore.{save_dialog_phrase}
use openai_gate.Bridge.Sessions.{ai_source, user_source}

-- `json.Unmarshal` into a map: an object, or `null` for a nil map.
unfoldable pub members_of : Option Json → Option Members
members_of (some (object ms)) = some ms
members_of (some null) = some done
members_of v = none

-- The source and the text; a text that is missing, no string or empty is no phrase.
unfoldable pub phrase_from : Bytes → Option Bytes → Option (Bytes × Bytes)
phrase_from source none = none
phrase_from source (some text) = if text == [] then none else some (source, text)

unfoldable pub parse_members : Members → Option (Bytes × Bytes)
unfolding phrase_from
parse_members ms = elim (as_string (get_member (codes "type") ms)) [
  | none ↦ none
  | some type ↦
      if type == codes "conversation.item.input_audio_transcription.completed"
      then phrase_from user_source (as_string (get_member (codes "transcript") ms))
      else if type == codes "response.audio_transcript.done"
      then phrase_from ai_source (as_string (get_member (codes "transcript") ms))
      else none
]

-- `parseOpenAIMessage`, after the bytes have been read as a JSON value; `none` is `ok == false`.
unfoldable pub parse_openai_message : Option Json → Option (Bytes × Bytes)
unfolding members_of parse_members
parse_openai_message v = elim (members_of v) [ none ↦ none | some ms ↦ parse_members ms ]

module _ (m : Mdbx) where
  -- `AddMessage` at the Unix time `now`: the state that is left, or the error of the store.
  unfoldable pub add_message : m.Txn → Bytes → Option Json → ℤ → Fallible m.Txn
  unfolding parse_openai_message
  add_message db session v now = elim (parse_openai_message v) [
    | none ↦ ok db
    | some (source, text) ↦ elim (save_dialog_phrase m db session source text now) [
      | ok (key, db') ↦ ok db'
      | err e ↦ err e
    ]
  ]

  -- What `AddMessage` leaves when its error is not looked at.
  kept : m.Txn → Fallible m.Txn → m.Txn
  kept db (ok db') = db'
  kept db (err e) = db

  -- The `OnTextData` that `CreateSession` of internal/bridge/bridge.go sets.
  unfoldable pub on_text_data : m.Txn → Bytes → Option Json → ℤ → m.Txn
  unfolding kept
  on_text_data db session v now = kept db (add_message db session v now)
