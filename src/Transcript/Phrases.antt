-- ===== src/Transcript/Phrases.antt =====
-- Messages of the service as phrases of a session's transcript.
use openai_gate.Base.{
  ◌≡◌, ◌≢◌, refl, ap, ◌∙◌, ◌⊎◌, inl, inr, List, [], Option, some, arith, Bytes, bytes_eq,
  bytes_beq_iff, codes, ok, Result-cases, ok-injective,
}
use openai_gate.Base.Assoc.{Assoc}
use openai_gate.Base.Membership.{In}
use openai_gate.Text.Decimal.Int.{ℤ, IsInt64}
use openai_gate.Json.{Json}
use openai_gate.Mdbx.{Mdbx, Laws}
use openai_gate.Database.Lookup.{Opens}
use openai_gate.ContextStore.Parsing.{NoColon}
use openai_gate.ContextStore.Keyed.{WellKeyed}
use openai_gate.ContextStore.Dialog.{VisitsAll}
use openai_gate.ContextStore.Phrases.{get_dialog_texts-save, save_dialog_phrase-WellKeyed}
use openai_gate.ContextStore.{DialogPhrase, get_dialog_texts, save_dialog_phrase}
use openai_gate.Bridge.Sessions.{ai_source, user_source}
use openai_gate.Transcript.{
  parse_openai_message, parse_members, members_of, phrase_from, add_message,
}

-- A message is a phrase only of one of the two sources, and its text is not empty.
pub parse_openai_message_lem :
    (v : Option Json) (source text : Bytes)
    → parse_openai_message v ≡ some (source, text)
    → ((source ≡ user_source) ⊎ (source ≡ ai_source)) × (text ≢ [])
unfolding parse_openai_message parse_members phrase_from members_of
parse_openai_message_lem v source text h =
    (ground arith, λ e. absurd (ground (arith, bytes_beq_iff text [])))

source-NoColon : (source : Bytes) → (source ≡ user_source) ⊎ (source ≡ ai_source) → NoColon source
source-NoColon source (inl e) = ground arith
source-NoColon source (inr e) = ground arith

module _ (m : Mdbx) (laws : Laws m) (range : Assoc Bytes Bytes → Assoc Bytes Bytes)
    (visits : VisitsAll range) where
  -- On an engine that opens its transactions, with a session id without a colon, an int64 time
  -- and a store whose text keys are all well formed: a message that is a phrase, and that
  -- `AddMessage` reports no error for, is in the session's transcript under its source and the
  -- time of the call; the phrases of the session that have another source or another time stay,
  -- and the text keys stay well formed.
  pub add_message_lem :
      (db db' : m.Txn) (session source text : Bytes) (v : Option Json) (now : ℤ)
      → Opens m db
      → Opens m db'
      → NoColon session
      → IsInt64 now
      → WellKeyed (codes "text") (m.entries db)
      → parse_openai_message v ≡ some (source, text)
      → add_message m db session v now ≡ ok db'
      → (old : List DialogPhrase) × (new : List DialogPhrase) × (get_dialog_texts m range db session
          ≡ ok old)
        × (get_dialog_texts m range db' session ≡ ok new)
        × In (record { time = now; source = source; phrase = text }) new
        × ((p : DialogPhrase) → In p old → ¬ ((p.source ≡ source) × (p.time ≡ now)) → In p new)
        × WellKeyed (codes "text") (m.entries db')
  unfolding add_message
  add_message_lem db db' session source text v now opens opens' plain wide keyed parsed h =
      elim (Result-cases (save_dialog_phrase m db session source text now)) [
        | inl ((key, t), saved) ↦
            let same : t ≡ db' = ok-injective t db' (ground arith) h refl in
            let kept : save_dialog_phrase m db session source text now ≡ ok (key, db') =
              saved ∙ ap (λ (x : m.Txn). ok (key, x)) same in
            let bare = source-NoColon source (parse_openai_message_lem v source text parsed).0 in
            let (old, new, was, is, there, _, stay) =
              get_dialog_texts-save m laws range visits db db' session source text key now opens
                opens' plain bare wide keyed kept in
            (
              old,
              new,
              was,
              is,
              there,
              stay,
              save_dialog_phrase-WellKeyed m laws db db' session source text key now plain bare wide
                  kept keyed,
            )
        | inr (e, failed) ↦ absurd (ground arith)
      ]
