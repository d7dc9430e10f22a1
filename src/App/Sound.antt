-- ===== src/App/Sound.antt =====
-- What each handler keeps of the shared bridge: its sessions stand under their ids, and its settings
-- stay.
use openai_gate.Base.{
  ◌≡◌, ◌≢◌, refl, inl, inr, Bool, true, false, List, [], Option, none, some, arith, Bytes, bytes_eq,
  bytes_beq_iff, Result, ok, err, Option-cases, Bool-cases, Result-cases, codes,
}
use openai_gate.Base.Assoc.{lookup, insert, remove, lookup-insert, lookup-remove}
use openai_gate.Text.Decimal.Int.{ℤ}
use openai_gate.Mdbx.{Mdbx}
use openai_gate.Openai.{Service}
use openai_gate.Bridge.{
  Bridge, create_session, new_session, or_default, kept_state, prompt_of, remove_session, end_found,
}
use openai_gate.ContextStore.{get_context, save_user_session}
use openai_gate.Bridge.Sessions.{Session}
use openai_gate.Webrtc.{WebrtcEndpoint, WebrtcService, remove_own, new_endpoint}
use openai_gate.Sip.Rtp.{Endpoint}
use openai_gate.Sip.Server
use openai_gate.Sip.Server.{Server, Invite, InviteWorld}
use openai_gate.Webrtc.Messages.{MessageRound, message_loop, handle_messages}
use openai_gate.Webrtc

-- Each session stands under its own id; the key, the store and the three handlers are set.
pub record Sound (b : Bridge) : Type 0 where
  pub keyed : (k : Bytes) (x : Session) → lookup k b.sessions ≡ some x → x.id ≡ k
  pub api_key : b.api_key ≢ []
  pub has_store : b.has_store ≡ true
  pub hooks : b.hooks ≡ record { incoming = true; outgoing = true; session_end = true }

pub insert-Sound :
    (b : Bridge) (id : Bytes) (x : Session)
    → Sound b
    → x.id ≡ id
    → Sound (record b { sessions = insert id x b.sessions })
insert-Sound b id x sound own = record {
  keyed =
      λ k y h. ground (arith, sound.keyed k y, lookup-insert id k x b.sessions, bytes_beq_iff id k);
  api_key = sound.api_key;
  has_store = sound.has_store;
  hooks = sound.hooks;
}

remove-Sound :
    (b : Bridge) (id : Bytes) → Sound b → Sound (record b { sessions = remove id b.sessions })
remove-Sound b id sound = record {
  keyed =
      λ k y h. ground (arith, sound.keyed k y, lookup-remove id k b.sessions, bytes_beq_iff id k);
  api_key = sound.api_key;
  has_store = sound.has_store;
  hooks = sound.hooks;
}

remove_session-Sound : (b : Bridge) (id : Bytes) → Sound b → Sound (remove_session b id).bridge
unfolding remove_session end_found
remove_session-Sound b id sound = elim (Option-cases (lookup id b.sessions)) [
  | inl gone ↦ rw gone sound
  | inr (x, there) ↦ rw there (remove-Sound b id sound)
]

create_session-Sound :
    (m : Mdbx) (b : Bridge) (db : m.Txn) (endpoint identifier from : Bytes) (now : ℤ)
    (connects : Result (Bytes × Service) (Unit {0}))
    → Sound b
    → Sound (create_session m b db endpoint identifier from now connects).bridge
unfolding create_session
create_session-Sound m b db endpoint identifier from now (err (text, service)) sound =
    let kept : (create_session m b db endpoint identifier from now (err (text, service))).bridge
        ≡ b =
      ground arith in
    rw kept sound
create_session-Sound m b db endpoint identifier from now (ok _) sound =
    let name = or_default identifier in
    let db' = kept_state m db (save_user_session m db name endpoint from now) in
    let x = new_session endpoint name (prompt_of (get_context m db' name)) in
    let entered : (create_session m b db endpoint identifier from now (ok tt)).bridge
        ≡ record b { sessions = insert endpoint x b.sessions } =
      ground (arith, sound, bytes_beq_iff b.api_key []) in
    rw entered (insert-Sound b endpoint x sound refl)

remove_own-Sound : (b : Bridge) (own : Option Bytes) → Sound b → Sound (remove_own b own).0
unfolding remove_own
remove_own-Sound b none sound = sound
remove_own-Sound b (some id) sound = remove_session-Sound b id sound

close-Sound : (b : Bridge) (e : WebrtcEndpoint) → Sound b → Sound (Webrtc.close b e).0
unfolding Webrtc.close
close-Sound b e sound = elim (Bool-cases e.is_closed) [
  | inl closed ↦ rw (Webrtc.close, closed) sound
  | inr is_open ↦ rw (Webrtc.close, is_open) (remove_own-Sound b e.session sound)
]

pub close_endpoint-Sound :
    (m : Mdbx) (b : Bridge) (e : Endpoint) → Sound b → Sound (Server.close_endpoint m b e).0
unfolding Server.close_endpoint
close_endpoint-Sound m b e sound = elim (Bool-cases e.has_session) [
  | inl there ↦ rw (Server.close_endpoint, there) (remove_session-Sound b e.id sound)
  | inr none_there ↦ rw (Server.close_endpoint, none_there) sound
]

pub handle_ack-Sound :
    (m : Mdbx) (s : Server m) (id : Bytes) (now : ℤ)
    (connects : Result (Bytes × Service) (Unit {0}))
    → Sound s.bridge
    → Sound (Server.handle_ack m s id now connects).server.bridge
unfolding Server.handle_ack
handle_ack-Sound m s id now connects sound = elim (Option-cases (lookup id s.endpoints)) [
  | inl gone ↦ rw (Server.handle_ack, gone) sound
  | inr (e, there) ↦
      rw (Server.handle_ack, there)
        (create_session-Sound m s.bridge s.db e.id e.identifier (codes "sip") now connects sound)
]

pub handle_bye-Sound :
    (m : Mdbx) (s : Server m) (id : Bytes)
    → Sound s.bridge
    → Sound (Server.handle_bye m s id).server.bridge
unfolding Server.handle_bye
handle_bye-Sound m s id sound = elim (Option-cases (lookup id s.endpoints)) [
  | inl gone ↦ rw (Server.handle_bye, gone) sound
  | inr (e, there) ↦ rw (Server.handle_bye, there) (close_endpoint-Sound m s.bridge e sound)
]

pub remove_endpoint-Sound :
    (m : Mdbx) (s : WebrtcService m) (id : Bytes)
    → Sound s.bridge
    → Sound (Webrtc.remove_endpoint m s id).0.bridge
unfolding Webrtc.remove_endpoint
remove_endpoint-Sound m s id sound = elim (Option-cases (lookup id s.endpoints)) [
  | inl gone ↦ rw (Webrtc.remove_endpoint, gone) sound
  | inr (e, there) ↦ rw (Webrtc.remove_endpoint, there) (close-Sound s.bridge e sound)
]

pub handle_messages-Sound :
    (m : Mdbx) (s : WebrtcService m) (id : Bytes) (rounds : List MessageRound)
    → Sound s.bridge
    → Sound (handle_messages m s id rounds).service.bridge
unfolding handle_messages
handle_messages-Sound m s id rounds sound = elim (Option-cases (lookup id s.endpoints)) [
  | inl gone ↦ rw (handle_messages, gone) sound
  | inr (e, there) ↦
      let r = message_loop e rounds in
      rw (handle_messages, there)
        (elim (Bool-cases r.ended) [
          | inl over ↦ rw over (close-Sound s.bridge r.endpoint sound)
          | inr more ↦ rw more sound
        ])
]

pub handle_web_socket-Sound :
    (m : Mdbx) (s : WebrtcService m) (upgrades : Bool) (now : ℤ) (user : Bytes) (created : ℤ)
    (connects : Result (Bytes × Service) (Unit {0}))
    → Sound s.bridge
    → Sound (Webrtc.handle_web_socket m s upgrades now user created connects).service.bridge
unfolding Webrtc.handle_web_socket
handle_web_socket-Sound m s false now user created connects sound = sound
handle_web_socket-Sound m s true now user created connects sound =
    let e = new_endpoint now user in
    let made = create_session m s.bridge s.db e.id user (codes "webrtc") created connects in
    let kept =
      create_session-Sound m s.bridge s.db e.id user (codes "webrtc") created connects sound in
    elim (Result-cases made.outcome) [
      | inl (x, h) ↦ rw (Webrtc.handle_web_socket, h) kept
      | inr (error, h) ↦ rw (Webrtc.handle_web_socket, h) (close-Sound made.bridge e kept)
    ]

pub handle_invite-Sound :
    (m : Mdbx) (s : Server m) (r : Invite) (w : InviteWorld)
    → Sound s.bridge
    → Sound (Server.handle_invite m s r w).server.bridge
unfolding Server.handle_invite
handle_invite-Sound m s r w sound = elim (Bool-cases w.binds) [
  | inl bound ↦ rw (Server.handle_invite, bound) sound
  | inr refused ↦ rw (Server.handle_invite, refused) sound
]
