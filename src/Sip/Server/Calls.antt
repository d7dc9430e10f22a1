-- ===== src/Sip/Server/Calls.antt =====
-- A call over SIP: INVITE, ACK and BYE on the table of endpoints and on the bridge.
use openai_gate.Base.{
  ◌≡◌, ◌≢◌, refl, sym, ap, ◌∙◌, true, [], ◌∷◌, none, some, arith, Bytes, bytes_eq, bytes_beq_iff,
  codes, ok, ◌==◌, if◌then◌else◌,
}
use openai_gate.Base.Assoc.{lookup, lookup-insert, lookup-remove}
use openai_gate.Text.Decimal.Int.{ℤ}
use openai_gate.Mdbx.{Mdbx, Laws}
use openai_gate.Bridge.{Bridge, remove_session, end_found}
use openai_gate.Bridge.Sessions.{Session}
use openai_gate.Bridge.Lifecycle.{create_session_lem}
use openai_gate.Sip.Rtp.{Endpoint}
use openai_gate.Sip.Server.{
  Server, Invite, InviteWorld, new_endpoint, handle_invite, handle_ack, ack_found, handle_bye,
  bye_found, close_endpoint,
}

module _ (m : Mdbx) (laws : Laws m) where
  -- The bridge can open sessions, and the store its transactions.
  pub record Opening (s : Server m) : Type 0 where
    pub key : s.bridge.api_key ≢ []
    pub store : s.bridge.has_store ≡ true
    pub begins : (t : m.Txn) → m.begin t ≡ ok tt

  Opening-bridge : (s s' : Server m) → s'.bridge ≡ s.bridge → Opening s → Opening s'
  Opening-bridge s s' same o = record {
    key = λ h. o.key (ap (λ (b : Bridge). b.api_key) (sym same) ∙ h);
    store = ap (λ (b : Bridge). b.has_store) same ∙ o.store;
    begins = o.begins;
  }

  invite_lem :
      (s : Server m) (r : Invite) (w : InviteWorld)
      → w.binds ≡ true
      → (lookup r.call_id (handle_invite m s r w).server.endpoints ≡ some (new_endpoint r w))
        × ((handle_invite m s r w).server.bridge ≡ s.bridge)
  unfolding handle_invite
  invite_lem s r w binds = (
    ground (
      arith,
      lookup-insert r.call_id r.call_id (new_endpoint r w) s.endpoints,
      bytes_beq_iff r.call_id r.call_id,
    ),
    ground arith,
  )

  ack_lem :
      (s : Server m) (call_id : Bytes) (now : ℤ) (e : Endpoint)
      → Opening s
      → lookup call_id s.endpoints ≡ some e
      → let s' = (handle_ack m s call_id now (ok tt)).server in
        (lookup call_id s'.endpoints ≡ some (record e { active = true; has_session = true }))
        × ((x : Session) × (lookup e.id s'.bridge.sessions ≡ some x))
  unfolding handle_ack ack_found
  ack_lem s call_id now e opening h =
      let (x, made, _, _, entered) =
        create_session_lem m laws s.bridge s.db e.id e.identifier (codes "sip") now opening.begins
          opening.key opening.store in
      (
        ground (
          arith,
          made,
          lookup-insert call_id call_id (record e { active = true; has_session = true })
              s.endpoints,
          bytes_beq_iff call_id call_id,
        ),
        (x, ground (arith, made, entered e.id, bytes_beq_iff e.id e.id)),
      )

  -- A BYE of a call that has an endpoint is answered with 200. It takes the call's endpoint out
  -- of the table, and the session of the endpoint's id out of the bridge if the endpoint has
  -- one; it leaves all other endpoints and sessions, and a further BYE of the call changes
  -- nothing.
  pub handle_bye_lem :
      (s : Server m) (call_id : Bytes) (e : Endpoint)
      → lookup call_id s.endpoints ≡ some e
      → let r = handle_bye m s call_id in
        (r.responses ≡ record { code = 200; body = [] } ∷ [])
        × ((id : Bytes)
            → lookup id r.server.endpoints
              ≡ (if call_id == id then none else lookup id s.endpoints))
        × ((id : Bytes)
            → lookup id r.server.bridge.sessions ≡ (
                if e.has_session
                then (if e.id == id then none else lookup id s.bridge.sessions)
                else lookup id s.bridge.sessions))
        × ((handle_bye m r.server call_id).server ≡ r.server)
  unfolding handle_bye bye_found close_endpoint remove_session end_found
  handle_bye_lem s call_id e h = (
    refl,
    λ id. ground (arith, lookup-remove call_id id s.endpoints),
    λ id. ground (arith, lookup-remove e.id id s.bridge.sessions, bytes_beq_iff e.id id),
    ground (arith, lookup-remove call_id call_id s.endpoints, bytes_beq_iff call_id call_id),
  )

  -- With an API key, a store and transactions that open: an accepted INVITE, its ACK with a
  -- connection that opens, and a BYE leave no endpoint and no bridge session of the call;
  -- between ACK and BYE the call has both.
  pub call_lem :
      (s : Server m) (r : Invite) (w : InviteWorld) (now : ℤ)
      → w.binds ≡ true
      → Opening s
      → let invited = (handle_invite m s r w).server in
        let acked = (handle_ack m invited r.call_id now (ok tt)).server in
        let left = (handle_bye m acked r.call_id).server in
        ((x : Session) × (lookup r.call_id acked.bridge.sessions ≡ some x))
        × (lookup r.call_id acked.endpoints
            ≡ some (record (new_endpoint r w) { active = true; has_session = true }))
        × (lookup r.call_id left.endpoints ≡ none)
        × (lookup r.call_id left.bridge.sessions ≡ none)
  unfolding new_endpoint
  call_lem s r w now binds opening =
      let invited = (handle_invite m s r w).server in
      let acked = (handle_ack m invited r.call_id now (ok tt)).server in
      let (placed, same) = invite_lem s r w binds in
      let (joined, session) =
        ack_lem invited r.call_id now (new_endpoint r w) (Opening-bridge s invited same opening)
          placed in
      let (_, gone, closed, _) = handle_bye_lem acked r.call_id _ joined in
      (
        session,
        joined,
        ground (arith, gone r.call_id, bytes_beq_iff r.call_id r.call_id),
        ground (arith, closed r.call_id, bytes_beq_iff r.call_id r.call_id),
      )

  -- When a call has a bridge session, an accepted INVITE with its Call-ID and then a BYE of it, with no
  -- ACK in between, leave no endpoint of the call, and leave that session in the bridge.
  pub second_invite_lem :
      (s : Server m) (r : Invite) (w : InviteWorld) (x : Session)
      → w.binds ≡ true
      → lookup r.call_id s.bridge.sessions ≡ some x
      → let left = (handle_bye m (handle_invite m s r w).server r.call_id).server in
        (lookup r.call_id left.endpoints ≡ none) × (lookup r.call_id left.bridge.sessions ≡ some x)
  unfolding new_endpoint
  second_invite_lem s r w x binds h =
      let (placed, same) = invite_lem s r w binds in
      let (_, gone, closed, _) = handle_bye_lem (handle_invite m s r w).server r.call_id _ placed in
      (
        ground (arith, gone r.call_id, bytes_beq_iff r.call_id r.call_id),
        ground (arith, closed r.call_id, same, h),
      )
