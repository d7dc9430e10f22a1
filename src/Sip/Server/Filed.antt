-- ===== src/Sip/Server/Filed.antt =====
-- The table of endpoints: each stands under its own id, whatever the handlers do.
use openai_gate.Base.{
  ◌≡◌, refl, inl, inr, some, arith, Bytes, bytes_eq, bytes_beq_iff, codes, Option-cases, Bool-cases,
  Result, Result-cases,
}
use openai_gate.Base.Assoc.{Assoc, lookup, insert, remove, lookup-insert, lookup-remove}
use openai_gate.Text.Decimal.Int.{ℤ}
use openai_gate.Mdbx.{Mdbx}
use openai_gate.Openai.{Service}
use openai_gate.Bridge.{create_session}
use openai_gate.Sip.Rtp.{Endpoint}
use openai_gate.Sip.Server.{
  Server, Invite, InviteWorld, new_endpoint, handle_invite, handle_ack, ack_found, handle_bye,
  bye_found, close_endpoint,
}

-- Each endpoint stands under its own id.
abbrev pub Filed : Assoc Bytes Endpoint → Type 0
Filed es = (k : Bytes) (e : Endpoint) → lookup k es ≡ some e → e.id ≡ k

pub insert-Filed :
    (es : Assoc Bytes Endpoint) (id : Bytes) (e : Endpoint)
    → Filed es
    → e.id ≡ id
    → Filed (insert id e es)
insert-Filed es id e filed own k x h =
    ground (arith, filed k x, lookup-insert id k e es, bytes_beq_iff id k)

remove-Filed : (es : Assoc Bytes Endpoint) (id : Bytes) → Filed es → Filed (remove id es)
remove-Filed es id filed k x h =
    ground (arith, filed k x, lookup-remove id k es, bytes_beq_iff id k)

pub handle_invite-Filed :
    (m : Mdbx) (s : Server m) (r : Invite) (w : InviteWorld)
    → Filed s.endpoints
    → Filed (handle_invite m s r w).server.endpoints
unfolding handle_invite
handle_invite-Filed m s r w filed = elim (Bool-cases w.binds) [
  | inl bound ↦
      rw (bound, handle_invite)
        (insert-Filed s.endpoints r.call_id (new_endpoint r w) filed (unfold new_endpoint in refl))
  | inr taken ↦ rw (taken, handle_invite) filed
]

pub handle_ack-Filed :
    (m : Mdbx) (s : Server m) (id : Bytes) (now : ℤ)
    (connects : Result (Bytes × Service) (Unit {0}))
    → Filed s.endpoints
    → Filed (handle_ack m s id now connects).server.endpoints
unfolding handle_ack ack_found
handle_ack-Filed m s id now connects filed = elim (Option-cases (lookup id s.endpoints)) [
  | inl gone ↦ rw (handle_ack, gone) filed
  | inr (e, there) ↦
      let made = create_session m s.bridge s.db e.id e.identifier (codes "sip") now connects in
      rw (handle_ack, there)
        (insert-Filed s.endpoints id _ filed (elim (Result-cases made.outcome) [
          | inl (x, joined) ↦ rw joined (filed id e there)
          | inr (f, refused) ↦ rw refused (filed id e there)
        ]))
]

pub handle_bye-Filed :
    (m : Mdbx) (s : Server m) (id : Bytes)
    → Filed s.endpoints
    → Filed (handle_bye m s id).server.endpoints
unfolding handle_bye bye_found close_endpoint
handle_bye-Filed m s id filed = elim (Option-cases (lookup id s.endpoints)) [
  | inl gone ↦ rw (handle_bye, gone) filed
  | inr (e, there) ↦ rw (handle_bye, there) (remove-Filed s.endpoints id filed)
]
