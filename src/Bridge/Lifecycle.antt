-- ===== src/Bridge/Lifecycle.antt =====
-- The life of a bridge session: its creation, its removal, and what is left of it.
use openai_gate.Base.{
  ◌≡◌, ◌≢◌, refl, ap, inl, inr, Bool, true, false, [], ◌∷◌, none, some, arith, Bytes, bytes_eq,
  bytes_beq_iff, Result, ok, err, Result-cases, ◌==◌, if◌then◌else◌,
}
use openai_gate.Base.Assoc.{lookup, lookup-insert, lookup-remove}
use openai_gate.Text.Decimal.Int.{ℤ}
use openai_gate.Mdbx.{Mdbx, Laws}
use openai_gate.Openai.{Service}
use openai_gate.Database.Lookup.{set_lem, get_found}
use openai_gate.ContextStore.Keys.{context_key, user_key}
use openai_gate.ContextStore.Phrases.{save-eq-ok}
use openai_gate.ContextStore.{save_user_session, get_context, save}
use openai_gate.Openai
use openai_gate.Bridge.Sessions
use openai_gate.Bridge.Sessions.{
  Session, Reason, ended, process_incoming_opus, on_opus_data, on_error, on_close, notify_end,
}
use openai_gate.Bridge.{
  Bridge, CreateError, new_session, create_session, prompt_of, or_default, kept_state, end_session,
  end_found, remove_session_with_reason,
}

-- The context that a session reads does not depend on whether its own record was saved.
get_context-kept :
    (m : Mdbx) (laws : Laws m) (db : m.Txn) (user session from phone : Bytes) (now : ℤ)
    → ((t : m.Txn) → m.begin t ≡ ok tt)
    → get_context m (kept_state m db (save_user_session m db user session from now)) phone
      ≡ get_context m db phone
unfolding kept_state get_context save_user_session
get_context-kept m laws db user session from phone now begins =
    elim (Result-cases (save m db (user_key user from now) session)) [
      | inl ((key, t), h) ↦ ground (
        arith,
        get_found m laws t (context_key phone) (begins t),
        get_found m laws db (context_key phone) (begins db),
        set_lem m laws db t (user_key user from now) session (context_key phone)
            (save-eq-ok m laws db t (user_key user from now) key session h).1,
        bytes_beq_iff (user_key user from now) (context_key phone),
      )
      | inr (e, h) ↦ rw h refl
    ]

pub create_session_lem :
    (m : Mdbx) (laws : Laws m) (b : Bridge) (db : m.Txn) (endpoint identifier from : Bytes)
    (now : ℤ)
    → ((t : m.Txn) → m.begin t ≡ ok tt)
    → b.api_key ≢ []
    → b.has_store ≡ true
    → let r = create_session m b db endpoint identifier from now (ok tt) in
      (s : Session) × (r.outcome ≡ ok s)
      × (s.is_active ≡ true)
      × (s.service.prompt ≡ prompt_of (get_context m db (or_default identifier)))
      × ((id : Bytes)
          → lookup id r.bridge.sessions ≡ (if endpoint == id then some s else lookup id b.sessions))
unfolding create_session
create_session_lem m laws b db endpoint identifier from now begins key store =
    let name = or_default identifier in
    let db' = kept_state m db (save_user_session m db name endpoint from now) in
    let session = new_session endpoint name (prompt_of (get_context m db' name)) in
    (
      session,
      ground (arith, bytes_beq_iff b.api_key []),
      refl,
      ap prompt_of (get_context-kept m laws db name endpoint from name now begins),
      λ id.
          ground (arith, bytes_beq_iff b.api_key [], lookup-insert endpoint id session b.sessions),
    )

-- A `CreateSession` that reports an error leaves the sessions of the bridge as they were.
pub create_session-err :
    (m : Mdbx) (b : Bridge) (db : m.Txn) (endpoint identifier from : Bytes) (now : ℤ)
    (connects : Result (Bytes × Service) (Unit {0})) (error : CreateError)
    → (create_session m b db endpoint identifier from now connects).outcome ≡ err error
    → (create_session m b db endpoint identifier from now connects).bridge ≡ b
unfolding create_session
create_session-err m b db endpoint identifier from now (ok x) error h = ground arith
create_session-err m b db endpoint identifier from now (err (text, service)) error h = ground arith

-- Nothing that reaches a session after its end is passed on, counted or reported.
pub record Inert (s : Session) : Type 0 where
  pub drops_input :
      (hooks : Sessions.Hooks) (now : ℤ) (accepts : Bool) (frame : Bytes)
      → process_incoming_opus hooks s now accepts frame ≡ (s, [])
  pub drops_output : (frame : Bytes) → on_opus_data s frame ≡ s
  pub no_error : (hooks : Sessions.Hooks) (text : Bytes) → on_error hooks s text ≡ []
  pub no_close : (hooks : Sessions.Hooks) → on_close hooks s ≡ []

inactive-Inert : (s : Session) → s.is_active ≡ false → Inert s
unfolding process_incoming_opus on_opus_data on_error on_close
inactive-Inert s h = record {
  drops_input = λ hooks now accepts frame. ground (arith, h);
  drops_output = λ frame. ground (arith, h);
  no_error = λ hooks text. ground (arith, h);
  no_close = λ hooks. ground (arith, h);
}

-- Removing a session that the bridge has takes it out of the bridge and no other, reports its end
-- with the reason if the end handler is set, leaves it inert with its service closed; and a second
-- removal does nothing.
pub remove_session_with_reason_lem :
    (b : Bridge) (id : Bytes) (reason again : Reason) (s : Session)
    → lookup id b.sessions ≡ some s
    → let r = remove_session_with_reason b id reason in
      ((other : Bytes)
        → lookup other r.bridge.sessions ≡ (if id == other then none else lookup other b.sessions))
      × (r.notices ≡ (if b.hooks.session_end then ended s.id reason ∷ [] else []))
      × ((s' : Session) × (r.session ≡ some s')
          × Inert s'
          × (s'.cancelled ≡ true)
          × (s'.service.closed ≡ true))
      × (remove_session_with_reason r.bridge id again
          ≡ record { bridge = r.bridge; notices = []; session = none })
unfolding remove_session_with_reason end_found notify_end end_session
remove_session_with_reason_lem b id reason again s h = (
  λ other. ground (arith, lookup-remove id other b.sessions),
  ground arith,
  (
    end_session s,
    ground arith,
    inactive-Inert (end_session s) refl,
    refl,
    unfold Openai.close in ground arith,
  ),
  ground (arith, lookup-remove id id b.sessions, bytes_beq_iff id id),
)
