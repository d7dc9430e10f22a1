-- ===== src/Api/Requests.antt =====
-- What requests of the context API do to what calls and later requests find.
use openai_gate.Base.{
  ◌≡◌, ◌≢◌, inl, inr, true, [], some, arith, Bytes, bytes_eq, bytes_beq_iff, ok, Result-cases,
}
use openai_gate.Base.Assoc.{lookup}
use openai_gate.Text.Decimal.Int.{ℤ}
use openai_gate.Mdbx.{Mdbx, Laws}
use openai_gate.ContextStore
use openai_gate.ContextStore.Keys.{audio_key}
use openai_gate.ContextStore.Parsing.{NoColon}
use openai_gate.ContextStore.Contexts.{get_context-set, get_context-delete}
use openai_gate.ContextStore.Audio.{delete_opus_frames_lem}
use openai_gate.Bridge.{Bridge, create_session, prompt_of, or_default}
use openai_gate.Bridge.Sessions.{Session}
use openai_gate.Bridge.Lifecycle.{create_session_lem}
use openai_gate.Api.{
  reply, context, not_found, set_context, get_context, delete_context, delete_record,
}

module _ (m : Mdbx) (laws : Laws m) (begins : (t : m.Txn) → m.begin t ≡ ok tt) where
  set_context-stored :
      (db : m.Txn) (phone text : Bytes)
      → (set_context m db phone (some text)).1.status ≡ 200
      → ContextStore.set_context m db phone text ≡ ok (set_context m db phone (some text)).0
  unfolding set_context
  set_context-stored db phone text h =
      elim (Result-cases (ContextStore.set_context m db phone text)) [
        | inl (t, e) ↦ ground arith
        | inr (e, f) ↦ absurd (ground arith)
      ]

  -- With transactions that open: after a request that sets the context of a phone is answered
  -- with 200, a request for it is answered with 200 and that context, and requests for other
  -- phones as before.
  pub set_context-get_context :
      (db : m.Txn) (phone text : Bytes)
      → (set_context m db phone (some text)).1.status ≡ 200
      → let db' = (set_context m db phone (some text)).0 in
        (get_context m db' phone ≡ reply 200 (context text))
        × ((other : Bytes) → phone ≢ other → get_context m db' other ≡ get_context m db other)
  unfolding get_context
  set_context-get_context db phone text h =
      let db' = (set_context m db phone (some text)).0 in
      let (set, others) =
        get_context-set m laws db db' phone text (begins db) (begins db')
          (set_context-stored db phone text h) in
      (ground (arith, set), λ other ne. ground (arith, others other ne))

  -- With transactions that open, an API key and a store: after a context has been set for a
  -- phone that is not empty by a request that is answered with 200, a session that the bridge
  -- creates for that phone, with a connection that opens, gives its service the context as its
  -- prompt.
  pub set_context-create_session :
      (db : m.Txn) (phone text : Bytes) (b : Bridge) (endpoint from : Bytes) (now : ℤ)
      → phone ≢ []
      → b.api_key ≢ []
      → b.has_store ≡ true
      → (set_context m db phone (some text)).1.status ≡ 200
      → let db' = (set_context m db phone (some text)).0 in
        (s : Session) × ((create_session m b db' endpoint phone from now (ok tt)).outcome ≡ ok s)
        × (s.service.prompt ≡ text)
  unfolding or_default prompt_of
  set_context-create_session db phone text b endpoint from now named key store h =
      let db' = (set_context m db phone (some text)).0 in
      let (set, _) =
        get_context-set m laws db db' phone text (begins db) (begins db')
          (set_context-stored db phone text h) in
      let (s, made, _, prompt, _) =
        create_session_lem m laws b db' endpoint phone from now begins key store in
      (s, made, ground (arith, prompt, set, bytes_beq_iff phone []))

  -- With transactions that open: after a request that deletes the context of a phone is answered
  -- with 200, a request for it is answered with 404, and requests for other phones as before.
  pub delete_context-get_context :
      (db : m.Txn) (phone : Bytes)
      → (delete_context m db phone).1.status ≡ 200
      → let db' = (delete_context m db phone).0 in
        (get_context m db' phone ≡ reply 404 not_found)
        × ((other : Bytes) → phone ≢ other → get_context m db' other ≡ get_context m db other)
  unfolding get_context delete_context
  delete_context-get_context db phone h =
      elim (Result-cases (ContextStore.delete_context m db phone)) [
        | inl (t, e) ↦
            let (gone, others) = get_context-delete m laws db t phone (begins db) (begins t) e in
            (ground (arith, gone), λ other ne. ground (arith, others other ne))
        | inr (e, f) ↦ absurd (ground arith)
      ]

-- A request to delete a session's recording that names no source leaves every frame that is
-- stored under a source that is not empty, of that session or of another, where no name has a
-- colon.
pub delete_record_no_source :
    (m : Mdbx) (laws : Laws m) (db : m.Txn) (session s source : Bytes) (t : ℤ)
    → NoColon session
    → NoColon s
    → NoColon source
    → source ≢ []
    → lookup (audio_key s source t) (m.entries (delete_record m db session []).0)
      ≡ lookup (audio_key s source t) (m.entries db)
unfolding delete_record
delete_record_no_source m laws db session s source t hx hs hb named =
    elim (Result-cases (ContextStore.delete_opus_frames m db session [])) [
      | inl (db', e) ↦ ground (
        arith,
        e,
        delete_opus_frames_lem m laws db db' session [] s source t hx tt hs hb e,
        bytes_beq_iff source [],
      )
      | inr (e, failed) ↦ ground (arith, failed)
    ]
