-- ===== src/Webrtc/Lifecycle.antt =====
-- The life of a browser's endpoint: web socket, bridge session, messages, close.
use openai_gate.Base.{
  ◌≡◌, ◌≢◌, refl, inl, inr, true, false, List, [], ◌∷◌, none, some, arith, Bytes, bytes_eq,
  bytes_beq_iff, codes, ok, err, if◌then◌else◌, ◌==◌, Option-cases, Bool-cases,
}
use openai_gate.Base.Assoc.{lookup, insert, remove, lookup-insert, lookup-remove}
use openai_gate.Text.Decimal.Int.{ℤ, format_int}
use openai_gate.Mdbx.{Mdbx, Laws}
use openai_gate.Openai.{Service}
use openai_gate.Bridge.{Bridge, create_session, prompt_of, or_default}
use openai_gate.Bridge.Sessions.{Session}
use openai_gate.Bridge.Lifecycle.{create_session_lem}
use openai_gate.ContextStore.{get_context}
use openai_gate.Webrtc.{
  WebrtcEndpoint, WebrtcService, Opened, close, close_peer, new_endpoint, handle_web_socket,
  remove_endpoint,
}
use openai_gate.Webrtc.Signaling.{
  SignalingMessage, SignalingWorld, handle_signaling_message, handle_offer, handle_ice_candidate,
}
use openai_gate.Webrtc.Messages.{MessageRound, message_loop, handle_messages}
use openai_gate.Webrtc.Closing.{close-lookup}

-- What the messages of a socket leave alone.
pub record SameOwner (e e' : WebrtcEndpoint) : Type 0 where
  pub id : e'.id ≡ e.id
  pub session : e'.session ≡ e.session
  pub is_closed : e'.is_closed ≡ e.is_closed

handle_signaling_message-SameOwner :
    (e : WebrtcEndpoint) (w : SignalingWorld) (msg : SignalingMessage)
    → SameOwner e (handle_signaling_message e w msg).endpoint
unfolding handle_signaling_message handle_offer handle_ice_candidate
handle_signaling_message-SameOwner e w msg = ground arith

message_loop-SameOwner :
    (e : WebrtcEndpoint) (rounds : List MessageRound) → SameOwner e (message_loop e rounds).endpoint
unfolding message_loop
message_loop-SameOwner e [] = record { id = refl; session = refl; is_closed = refl }
message_loop-SameOwner e (r ∷ rounds) = elim (Option-cases r.read) [
  | inl failed ↦ ground arith
  | inr (msg, read) ↦
      let next = (handle_signaling_message e r.world msg).endpoint in
      ground (
        arith,
        handle_signaling_message-SameOwner e r.world msg,
        message_loop-SameOwner next rounds,
      )
]

create_session-id :
    (m : Mdbx) (b : Bridge) (db : m.Txn) (endpoint identifier from : Bytes) (now : ℤ) (x : Session)
    → (create_session m b db endpoint identifier from now (ok tt)).outcome ≡ ok x
    → x.id ≡ endpoint
unfolding create_session
create_session-id m b db endpoint identifier from now x h = ground arith

-- Reading an endpoint's messages to the end, and removing it: the table has lost it, and the bridge
-- is the one that closing it leaves.
served_lem :
    (m : Mdbx) (s : WebrtcService m) (id : Bytes) (e : WebrtcEndpoint) (rounds : List MessageRound)
    → lookup id s.endpoints ≡ some e
    → e.is_closed ≡ false
    → (message_loop e rounds).ended ≡ true
    → let gone = (remove_endpoint m (handle_messages m s id rounds).service id).0 in
      let closed = close s.bridge (message_loop e rounds).endpoint in
      (gone.bridge ≡ closed.0) × (gone.endpoints ≡ remove id (insert id closed.2 s.endpoints))
unfolding handle_messages remove_endpoint close
served_lem m s id e rounds placed is_open ended =
    let r = message_loop e rounds in
    let same = message_loop-SameOwner e rounds in
    (
      ground (
        arith,
        placed,
        same,
        bytes_beq_iff id id,
        lookup-insert id id (close s.bridge r.endpoint).2 s.endpoints,
      ),
      ground (
        arith,
        placed,
        same,
        bytes_beq_iff id id,
        lookup-insert id id (close s.bridge r.endpoint).2 s.endpoints,
      ),
    )

module _ (m : Mdbx) (laws : Laws m) (s : WebrtcService m) (now : ℤ) (user : Bytes) (created : ℤ)
    (begins : (t : m.Txn) → m.begin t ≡ ok tt) (key : s.bridge.api_key ≢ [])
    (store : s.bridge.has_store ≡ true) where
  -- The endpoint of a web socket once its session is there.
  abbrev pub joined : WebrtcEndpoint
  joined = record (new_endpoint now user) { session = some (format_int now) }

  abbrev pub accepted : Opened m
  accepted = handle_web_socket m s true now user created (ok tt)

  accepted_lem :
      (accepted.reads ≡ some (format_int now))
      × (lookup (format_int now) accepted.service.endpoints ≡ some joined)
      × ((x : Session) × (lookup (format_int now) accepted.service.bridge.sessions ≡ some x)
          × (x.service.prompt ≡ prompt_of (get_context m s.db (or_default user))))
      × ((other : Bytes)
          → (format_int now == other) ≡ false
          → (lookup other accepted.service.endpoints ≡ lookup other s.endpoints)
            × (lookup other accepted.service.bridge.sessions ≡ lookup other s.bridge.sessions))
  unfolding handle_web_socket
  accepted_lem =
      let id = format_int now in
      let (x, made, _, prompt, entered) =
        create_session_lem m laws s.bridge s.db id user (codes "webrtc") created begins key store in
      let own = create_session-id m s.bridge s.db id user (codes "webrtc") created x made in
      (
        ground (arith, made),
        ground (arith, made, own, lookup-insert id id joined s.endpoints, bytes_beq_iff id id),
        (x, ground (arith, made, entered id, bytes_beq_iff id id), prompt),
        λ other ne. (
          ground (
            arith,
            made,
            lookup-insert id other (record (new_endpoint now user) { session = some x.id })
                s.endpoints,
          ),
          ground (arith, made, entered other),
        ),
      )

  -- With an API key, a store, transactions that open and a connection that opens: a web socket
  -- that is accepted gets a bridge session under its id, whose prompt is the one stored for its
  -- user (for "default" if it names none; empty if none is stored). When the loop that reads its
  -- messages has returned, and `HandleWebSocket` has come to its end, neither the endpoint nor the
  -- session is there, and all others are as they were.
  pub web_socket_lem :
      (rounds : List MessageRound)
      → (message_loop joined rounds).ended ≡ true
      → let id = format_int now in
        let served = handle_messages m accepted.service id rounds in
        let gone = (remove_endpoint m served.service id).0 in
        (accepted.reads ≡ some id)
        × ((x : Session) × (lookup id accepted.service.bridge.sessions ≡ some x)
            × (x.service.prompt ≡ prompt_of (get_context m s.db (or_default user))))
        × ((other : Bytes)
            → lookup other gone.endpoints
              ≡ (if id == other then none else lookup other s.endpoints))
        × ((other : Bytes)
            → lookup other gone.bridge.sessions
              ≡ (if id == other then none else lookup other s.bridge.sessions))
  unfolding new_endpoint
  web_socket_lem rounds ended =
      let (reads, placed, session, others) = accepted_lem in
      let id = format_int now in
      let after = accepted.service in
      let r = message_loop joined rounds in
      let same = message_loop-SameOwner joined rounds in
      let (bridge, table) = served_lem m after id joined rounds placed refl ended in
      let e' = (close after.bridge r.endpoint).2 in
      (
        reads,
        session,
        λ other. ground (
          arith,
          table,
          lookup-remove id other (insert id e' after.endpoints),
          lookup-insert id other e' after.endpoints,
          others other,
          Bool-cases (id == other),
        ),
        λ other. ground (
          arith,
          bridge,
          close-lookup after.bridge r.endpoint other,
          same,
          others other,
          Bool-cases (id == other),
        ),
      )

-- With an API key and a store: when the connection of a new endpoint's session does not open, the
-- bridge is as it was and nothing reads the web socket, but the endpoint stays in the table,
-- closed.
pub handle_web_socket-err :
    (m : Mdbx) (s : WebrtcService m) (now : ℤ) (user : Bytes) (created : ℤ) (reason : Bytes)
    (left : Service)
    → s.bridge.api_key ≢ []
    → s.bridge.has_store ≡ true
    → let after = handle_web_socket m s true now user created (err (reason, left)) in
      (after.reads ≡ none)
      × (after.service.bridge ≡ s.bridge)
      × (lookup (format_int now) after.service.endpoints
          ≡ some (record (new_endpoint now user) {
            is_closed = true;
            conn_open = false;
            cancelled = true;
          }))
unfolding handle_web_socket create_session close new_endpoint close_peer
handle_web_socket-err m s now user created reason left key store =
    let e = record (new_endpoint now user) {
      is_closed = true;
      conn_open = false;
      cancelled = true;
    } in
    let id = format_int now in
    (
      ground arith,
      ground arith,
      ground (arith, lookup-insert id id e s.endpoints, bytes_beq_iff id id),
    )
