-- ===== src/ContextStore/Commands.antt =====
-- The writing operations of internal/store/store.go as commands, and what each one means for the
-- places of the store.
use openai_gate.Base.{◌&&◌, Option, none, some, Bytes, bytes_eq, ok, err, ◌==◌, if◌then◌else◌}
use openai_gate.Text.Decimal.Int.{ℤ}
use openai_gate.Mdbx.{Mdbx}
use openai_gate.Database.{Fallible}
use openai_gate.ContextStore.{
  save_user_session, delete_user_session, save_opus_frame, delete_opus_frames, save_dialog_phrase,
  delete_dialog_texts, set_context, delete_context,
}
use openai_gate.ContextStore.Parsing.{NoColon}
use openai_gate.ContextStore.Items.{
  Item, user_session, frame, phrase, context, IsPlain, View, same_item,
}

pub data Command : Type 0 where
  save_session : Bytes → Bytes → Bytes → ℤ → Command
  forget_session : Bytes → Bytes → Bytes → ℤ → Command
  save_frame : Bytes → Bytes → Bytes → ℤ → Command
  delete_frames : Bytes → Bytes → Command
  save_phrase : Bytes → Bytes → Bytes → ℤ → Command
  delete_texts : Bytes → Command
  put_context : Bytes → Bytes → Command
  remove_context : Bytes → Command

-- What is done to a place: written, cleared or left.
abbrev pub set_at : Item → Option Bytes → View → View
set_at i value v j = if same_item i j then value else v j

-- The frames of a session and a source, or the phrases of a session, are cleared.
unfoldable pub without_frames : Bytes → Bytes → View → View
without_frames session source v (user_session user src_type time) =
    v (user_session user src_type time)
without_frames session source v (frame session' source' time) =
    if session' == session && source' == source then none else v (frame session' source' time)
without_frames session source v (phrase session' source' time) = v (phrase session' source' time)
without_frames session source v (context phone) = v (context phone)

unfoldable pub without_phrases : Bytes → View → View
without_phrases session v (user_session user src_type time) = v (user_session user src_type time)
without_phrases session v (frame session' source time) = v (frame session' source time)
without_phrases session v (phrase session' source time) =
    if session' == session then none else v (phrase session' source time)
without_phrases session v (context phone) = v (context phone)

-- The meaning of a command, on the places alone.
unfoldable pub apply : Command → View → View
unfolding without_frames without_phrases
apply (save_session user session src_type time) v =
    set_at (user_session user src_type time) (some session) v
apply (forget_session user session src_type time) v =
    set_at (user_session user src_type time) none v
apply (save_frame session source bytes time) v = set_at (frame session source time) (some bytes) v
apply (delete_frames session source) v = without_frames session source v
apply (save_phrase session source text time) v = set_at (phrase session source time) (some text) v
apply (delete_texts session) v = without_phrases session v
apply (put_context phone text) v = set_at (context phone) (some text) v
apply (remove_context phone) v = set_at (context phone) none v

-- The places of a command have plain names and times.
abbrev pub IsPlainCommand : Command → Type 0
IsPlainCommand (save_session user session src_type time) = IsPlain (user_session user src_type time)
IsPlainCommand (forget_session user session src_type time) =
    IsPlain (user_session user src_type time)
IsPlainCommand (save_frame session source bytes time) = IsPlain (frame session source time)
IsPlainCommand (delete_frames session source) = NoColon session × NoColon source
IsPlainCommand (save_phrase session source text time) = IsPlain (phrase session source time)
IsPlainCommand (delete_texts session) = NoColon session
IsPlainCommand (put_context phone text) = Unit {0}
IsPlainCommand (remove_context phone) = Unit {0}

-- The state that a saving operation leaves; its key is not looked at.
abbrev pub state_of : {S : Type 0} → Fallible (Bytes × S) → Fallible S
state_of (ok (key, db)) = ok db
state_of (err e) = err e

module _ (m : Mdbx) where
  -- The operation of the store that a command names.
  unfoldable pub perform : Command → m.Txn → Fallible m.Txn
  perform (save_session user session src_type time) db =
      state_of (save_user_session m db user session src_type time)
  perform (forget_session user session src_type time) db =
      delete_user_session m db user session src_type time
  perform (save_frame session source bytes time) db =
      state_of (save_opus_frame m db session source bytes time)
  perform (delete_frames session source) db = delete_opus_frames m db session source
  perform (save_phrase session source text time) db =
      state_of (save_dialog_phrase m db session source text time)
  perform (delete_texts session) db = delete_dialog_texts m db session
  perform (put_context phone text) db = set_context m db phone text
  perform (remove_context phone) db = delete_context m db phone
