-- ===== src/ContextStore.antt =====
-- internal/store/store.go: the keys under which contexts, sessions, phrases and audio frames are
-- kept, and the operations on them. Times are int64 values; a state `db` is a state of the engine.
-- Go visits the entries of a map in an order of its own: `range` and `range_ids` are that order.
pub mod Keys
pub mod Parsing
pub mod Keyed
pub mod Dialog
pub mod Phrases
pub mod Audio
pub mod Contexts
pub mod Items
pub mod Commands
pub mod Changes
pub mod Invariant
pub mod Users
pub mod Refines
use openai_gate.Base.{
  ℕ, Bool, true, false, List, [], ◌∷◌, ◌++◌, map, Option, none, some, Bytes, bytes_eq, codes, Eq,
  Result, ok, err, ◌>>=◌, ltb, if◌then◌else◌, length, get_elem?, ◌==◌,
}
use openai_gate.Base.Assoc.{Assoc}
use openai_gate.Base.Membership.{filter_map, collect}
use openai_gate.Text.Parts.{split}
use openai_gate.Text.Decimal.Int.{ℤ, int_eq, parse_int}
use openai_gate.Mdbx.{Mdbx}
use openai_gate.Database
use openai_gate.Database.{Fallible}
use Keys.{
  user_key, user_prefix, audio_key, audio_prefix, text_key, text_prefix, context_key, drop_context,
}

pub record OpusBatch : Type 0 where
  pub session : Bytes
  pub source : Bytes
  pub frames : Assoc ℤ Bytes

pub record DialogPhrase : Type 0 where
  pub time : ℤ
  pub source : Bytes
  pub phrase : Bytes

-- The third and the fourth part of a key with four parts or more, the fourth one read as a time.
unfoldable pub source_and_time : List Bytes → Option (Bytes × ℤ)
source_and_time (kind ∷ session ∷ source ∷ time ∷ more) = elim (parse_int time) [
  | none ↦ none
  | some t ↦ some (source, t)
]
source_and_time parts = none

-- One round of the loop of `GetDialogTexts`; `none` is `continue`.
unfoldable pub phrase_of : Bytes × Bytes → Option DialogPhrase
unfolding source_and_time
phrase_of (key, value) = elim (source_and_time (split b':' key)) [
  | none ↦ none
  | some (source, t) ↦ some (record { time = t; source = source; phrase = value })
]

-- One round of the loop of `GetOpusFrames`.
unfoldable pub frame_of : Bytes × Bytes → Option (ℤ × Bytes)
unfolding source_and_time
frame_of (key, value) = elim (source_and_time (split b':' key)) [
  | none ↦ none
  | some (source, t) ↦ some (t, value)
]

-- One round of the loop of `ListContexts`.
unfoldable pub context_of : Bytes × Bytes → Option (Bytes × Bytes)
unfolding drop_context
context_of (key, value) = if ltb 8 (length key) then some (drop_context key, value) else none

-- One round of the loop of `ListSessions`.
unfoldable pub session_of : Bytes × Bytes → Option (Bytes × Bool)
session_of (key, value) = if value == [] then none else some (value, true)

module _ (m : Mdbx) where
  open m use {Txn}

  -- An operation that writes one entry returns its key.
  unfoldable pub save : Txn → Bytes → Bytes → Fallible (Bytes × Txn)
  save db key value = do db' ← Database.set m db key value; ok (key, db')

  unfoldable pub save_user_session : Txn → Bytes → Bytes → Bytes → ℤ → Fallible (Bytes × Txn)
  unfolding save
  save_user_session db user session src_type time = save db (user_key user src_type time) session

  unfoldable pub delete_user_session : Txn → Bytes → Bytes → Bytes → ℤ → Fallible Txn
  delete_user_session db user session src_type time =
      Database.delete m db (user_key user src_type time)

  unfoldable pub delete_opus_frames : Txn → Bytes → Bytes → Fallible Txn
  delete_opus_frames db session source =
      Database.delete_by_prefix m db (audio_prefix session source)

  unfoldable pub save_opus_frame : Txn → Bytes → Bytes → Bytes → ℤ → Fallible (Bytes × Txn)
  unfolding save
  save_opus_frame db session source frame time = save db (audio_key session source time) frame

  unfoldable pub save_dialog_phrase : Txn → Bytes → Bytes → Bytes → ℤ → Fallible (Bytes × Txn)
  unfolding save
  save_dialog_phrase db session source phrase time = save db (text_key session source time) phrase

  unfoldable pub delete_dialog_texts : Txn → Bytes → Fallible Txn
  delete_dialog_texts db session = Database.delete_by_prefix m db (text_prefix session)

  unfoldable pub set_context : Txn → Bytes → Bytes → Fallible Txn
  set_context db phone context = Database.set m db (context_key phone) context

  unfoldable pub get_context : Txn → Bytes → Fallible Bytes
  get_context db phone = Database.get m db (context_key phone)

  unfoldable pub delete_context : Txn → Bytes → Fallible Txn
  delete_context db phone = Database.delete m db (context_key phone)

  module _ (range : Assoc Bytes Bytes → Assoc Bytes Bytes) where
    unfoldable pub get_user_sessions : Txn → Bytes → Bytes → Fallible (List Bytes)
    get_user_sessions db user src_type = do
      list_sessions ← Database.filter m db (user_prefix user src_type)
      ok (map (λ x. x.1) (range list_sessions))

    unfoldable pub get_dialog_texts : Txn → Bytes → Fallible (List DialogPhrase)
    get_dialog_texts db session = do
      list_phrases ← Database.filter m db (text_prefix session)
      ok (filter_map phrase_of (range list_phrases))

    unfoldable pub get_opus_frames : Txn → Bytes → Bytes → Fallible OpusBatch
    get_opus_frames db session source = do
      list_frames ← Database.filter m db (audio_prefix session source)
      ok (record {
        session = session;
        source = source;
        frames = collect frame_of (range list_frames) [];
      })

    unfoldable pub list_contexts : Txn → Fallible (Assoc Bytes Bytes)
    list_contexts db = do
      found ← Database.filter m db (codes "context")
      ok (collect context_of (range found) [])

    -- The distinct values, as the keys of a map.
    unfoldable pub list_sessions :
        (Assoc Bytes Bool → Assoc Bytes Bool) → Txn → Fallible (List Bytes)
    list_sessions range_ids db = do
      found ← Database.filter m db (codes "user")
      ok (map (λ x. x.0) (range_ids (collect session_of (range found) [])))
