-- ===== src/Bridge/Connecting.antt =====
-- `Connect` as `CreateSession` of internal/bridge/bridge.go uses it.
use openai_gate.Base.{
  ◌≡◌, ◌≢◌, refl, Bool, true, false, [], ◌∷◌, some, arith, Bytes, bytes_eq, bytes_beq_iff, Result,
  ok, err,
}
use openai_gate.Text.Decimal.Int.{ℤ}
use openai_gate.Mdbx.{Mdbx}
use openai_gate.Openai.{
  Service, errored, ConnectError, api_key_is_empty, key_request_failed, key_refused, key_unreadable,
  peer_not_created, peer_is_nil, channel_not_created, track_not_created, track_not_added,
  offer_not_created, local_not_set, offer_request_failed, offer_refused, answer_unreadable,
  remote_not_set, not_connected,
}
use openai_gate.Openai.Connect.{
  Peers, new_openai_service, connect, get_ephemeral_key, create_peer_connection, setup_data_channel,
  setup_audio_track, perform_signaling,
}
use openai_gate.ContextStore.{save_user_session, get_context}
use openai_gate.Bridge.Sessions.{Session}
use openai_gate.Bridge.{
  Bridge, all_handlers, connected_service, create_session, new_session, or_default, prompt_of,
  kept_state,
}

-- The errors that `Connect` can meet once the peer connection is there.
abbrev pub has_peer : ConnectError → Bool
has_peer api_key_is_empty = false
has_peer key_request_failed = false
has_peer (key_refused status body) = false
has_peer key_unreadable = false
has_peer peer_not_created = false
has_peer peer_is_nil = false
has_peer channel_not_created = true
has_peer track_not_created = true
has_peer track_not_added = true
has_peer offer_not_created = true
has_peer local_not_set = true
has_peer offer_request_failed = true
has_peer (offer_refused status body) = true
has_peer answer_unreadable = true
has_peer remote_not_set = true

-- After `Connect`, of a new service with the handlers of a session: when it succeeds the service
-- is the one that the bridge keeps and nothing is reported; when it fails its error is reported
-- once, the service is not closed, and it has a peer connection exactly if the error is one that
-- is met after that connection was made.
pub connect_lem :
    (key prompt : Bytes) (w : Peers)
    → let (a, told) = connect (new_openai_service key prompt all_handlers) w in
      (a.outcome ≡ ok tt → (a.client.service ≡ connected_service prompt) × (told ≡ []))
      × ((e : ConnectError)
          → a.outcome ≡ err e
          → (told ≡ errored (not_connected e) ∷ [])
            × (a.client.service.closed ≡ false)
            × (a.client.service.has_connection ≡ has_peer e))
unfolding connect get_ephemeral_key create_peer_connection setup_data_channel setup_audio_track
    perform_signaling new_openai_service
connect_lem key prompt w = ground arith

-- The result of `Connect` as `CreateSession` gets it, with the service that `Connect` has left; `text`
-- is the text of an error.
abbrev pub reported :
    (ConnectError → Bytes)
    → Service
    → Result ConnectError (Unit {0})
    → Result (Bytes × Service) (Unit {0})
reported text service (ok _) = ok tt
reported text service (err e) = err (text e, service)

-- When the bridge has an API key and a store, and `Connect` fails with an error that it meets once
-- the peer connection is there, `CreateSession` leaves the bridge as it was and drops its session,
-- whose context it has cancelled, with a service that still has that connection and is not closed.
pub create_session-leak :
    (m : Mdbx) (b : Bridge) (db : m.Txn) (endpoint identifier from : Bytes) (now : ℤ)
    (prompt : Bytes) (w : Peers) (e : ConnectError) (text : ConnectError → Bytes)
    → b.api_key ≢ []
    → b.has_store ≡ true
    → let a = (connect (new_openai_service b.api_key prompt all_handlers) w).0 in
      a.outcome ≡ err e
      → has_peer e ≡ true
      → let r =
          create_session m b db endpoint identifier from now
            (reported text a.client.service a.outcome) in
        (r.bridge ≡ b)
        × ((x : Session) × (r.dropped ≡ some x)
            × (x.cancelled ≡ true)
            × (x.service.has_connection ≡ true)
            × (x.service.closed ≡ false))
unfolding create_session
create_session-leak m b db endpoint identifier from now prompt w e text has_key store failed peer =
    let (_, closed, connection) = (connect_lem b.api_key prompt w).1 e failed in
    let name = or_default identifier in
    let db' = kept_state m db (save_user_session m db name endpoint from now) in
    let service = (connect (new_openai_service b.api_key prompt all_handlers) w).0.client.service in
    (
      ground (arith, failed, bytes_beq_iff b.api_key []),
      (
        record (new_session endpoint name (prompt_of (get_context m db' name))) {
          cancelled = true;
          service = service;
        },
        ground (arith, failed, bytes_beq_iff b.api_key []),
        refl,
        ground (arith, connection, peer),
        closed,
      ),
    )
