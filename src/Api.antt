-- ===== src/Api.antt =====
-- internal/api/api.go: the handlers of the context API. A request is the parameters and the body
-- that gin hands over; the status and the content of the reply are modelled, the text of an error
-- message is the error itself.
pub mod Requests
pub mod Transcripts
use openai_gate.Base.{
  ℕ, Bool, true, false, List, [], ◌∷◌, map, Option, none, some, Bytes, bytes_eq, codes, Result, ok,
  err, ◌==◌, if◌then◌else◌,
}
use openai_gate.Base.Assoc.{Assoc}
use openai_gate.Text.Decimal.Int.{ℤ, format_int}
use openai_gate.Mdbx.{Mdbx, Error}
use openai_gate.Database.{Fallible}
use openai_gate.ContextStore
use openai_gate.ContextStore.{DialogPhrase}
use openai_gate.Recorder
use openai_gate.Recorder.{OpusPacket}

pub record TranscriptMessage : Type 0 where
  pub time : Bytes
  pub source : Bytes
  pub text : Bytes

pub data Content : Type 0 where
  done_ok : Content
  bad_request : Content
  store_error : Error → Content
  not_found : Content
  context : Bytes → Content
  contexts : Assoc Bytes Bytes → Content
  sessions : List Bytes → Content
  transcript : List TranscriptMessage → Content
  webm : Bytes → Content
  webm_error : Content

pub record Reply : Type 0 where
  pub status : ℕ
  pub content : Content

abbrev pub reply : ℕ → Content → Reply
reply status content = record { status = status; content = content }

unfoldable pub to_message : DialogPhrase → TranscriptMessage
to_message p = record { time = format_int p.time; source = p.source; text = p.phrase }

module _ (m : Mdbx) where
  -- The state that a handler leaves, and its reply.
  abbrev pub Served : Type 0
  Served = m.Txn × Reply

  -- A write that fails leaves the state and answers 500.
  abbrev pub written : m.Txn → Fallible m.Txn → Served
  written db (ok db') = (db', reply 200 done_ok)
  written db (err e) = (db, reply 500 (store_error e))

  -- `body` is the decoded field `context`, or `none` when the JSON does not bind.
  unfoldable pub set_context : m.Txn → Bytes → Option Bytes → Served
  set_context db phone none = (db, reply 400 bad_request)
  set_context db phone (some text) = written db (ContextStore.set_context m db phone text)

  unfoldable pub get_context : m.Txn → Bytes → Reply
  get_context db phone = elim (ContextStore.get_context m db phone) [
    | ok text ↦ reply 200 (context text)
    | err e ↦ reply 404 not_found
  ]

  -- `GetContextByPhone`
  unfoldable pub get_context_by_phone : m.Txn → Bytes → Fallible Bytes
  get_context_by_phone db phone = ContextStore.get_context m db phone

  unfoldable pub delete_context : m.Txn → Bytes → Served
  delete_context db phone = written db (ContextStore.delete_context m db phone)

  -- `source` is the query parameter, empty when the request has none.
  unfoldable pub delete_record : m.Txn → Bytes → Bytes → Served
  delete_record db session source = written db (ContextStore.delete_opus_frames m db session source)

  unfoldable pub delete_transcript : m.Txn → Bytes → Served
  delete_transcript db session = written db (ContextStore.delete_dialog_texts m db session)

  module _ (range : Assoc Bytes Bytes → Assoc Bytes Bytes) where
    -- Only sessions of the type "webrtc" are listed.
    unfoldable pub get_user_sessions : m.Txn → Bytes → Reply
    get_user_sessions db user =
        elim (ContextStore.get_user_sessions m range db user (codes "webrtc")) [
          | ok ids ↦ reply 200 (sessions ids)
          | err e ↦ reply 500 (store_error e)
        ]

    unfoldable pub list_contexts : m.Txn → Reply
    list_contexts db = elim (ContextStore.list_contexts m range db) [
      | ok cs ↦ reply 200 (contexts cs)
      | err e ↦ reply 500 (store_error e)
    ]

    unfoldable pub list_sessions : (Assoc Bytes Bool → Assoc Bytes Bool) → m.Txn → Reply
    list_sessions range_ids db = elim (ContextStore.list_sessions m range range_ids db) [
      | ok ids ↦ reply 200 (sessions ids)
      | err e ↦ reply 500 (store_error e)
    ]

    -- `sort` is `sort.Slice` with the comparison of the times as strings.
    unfoldable pub get_transcript :
        (List TranscriptMessage → List TranscriptMessage) → m.Txn → Bytes → Reply
    unfolding to_message
    get_transcript sort db session = elim (ContextStore.get_dialog_texts m range db session) [
      | ok ps ↦ reply 200 (transcript (sort (map to_message ps)))
      | err e ↦ reply 500 (store_error e)
    ]

    unfoldable pub get_record :
        (Assoc ℤ Bytes → Assoc ℤ Bytes)
        → (List OpusPacket → List OpusPacket)
        → (Bytes → List (ℕ × Bytes) → Option Bytes)
        → m.Txn
        → Bytes
        → Bytes
        → Reply
    get_record visit sort write db session source =
        if source == []
        then reply 400 bad_request
        else elim (Recorder.create_webm_data m range visit sort write db session source) [
          | ok file ↦ reply 200 (webm file)
          | err e ↦ reply 500 webm_error
        ]
