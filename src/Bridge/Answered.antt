-- ===== src/Bridge/Answered.antt =====
-- `Connect` of internal/openai/openai.go as a whole: which requests it sends, and when it succeeds.
use openai_gate.Base.{
  ◌≡◌, ◌≢◌, ◌⊎◌, ◌↔◌, inl, inr, refl, false, [], ◌∷◌, some, arith, Bytes, bytes_eq, bytes_beq_iff,
  ◌==◌, ok, err, Bool-cases, Result-cases,
}
use openai_gate.Openai.{ConnectError, api_key_is_empty}
use openai_gate.Openai.Ephemeral.{SessionResponse}
use openai_gate.Openai.Connect.{
  Peers, Client, Attempt, new_openai_service, connect, get_ephemeral_key, create_peer_connection,
  setup_data_channel, setup_audio_track, perform_signaling,
}
use openai_gate.Bridge.{all_handlers, connected_service}
use openai_gate.Bridge.Requests.{
  to_sessions, to_realtime, KeyGiven, PeerReady, OfferTaken, key_cases, signal_cases,
  get_ephemeral_key-ok, perform_signaling-ok,
}

-- `Connect` of a new service that has a key, once the key is given and the connection is ready.
module _ (key prompt : Bytes) (w : Peers) where
  ready : Bytes → Client
  ready ephemeral = record {
    service = connected_service prompt;
    api_key = key;
    ephemeral_key = ephemeral;
  }

  connect-ready :
      (x : SessionResponse)
      → key ≢ []
      → KeyGiven w key x
      → PeerReady w
      → let a = (connect (new_openai_service key prompt all_handlers) w).0 in
        let last = perform_signaling w (ready x.client_secret.value) in
        (a.requests ≡ to_sessions key ∷ last.requests)
        × (a.outcome ≡ last.outcome)
        × (a.client ≡ last.client)
  unfolding connect create_peer_connection setup_data_channel setup_audio_track new_openai_service
      ready
  connect-ready x has_key g p = ground (
    arith,
    bytes_beq_iff key [],
    get_ephemeral_key-ok (new_openai_service key prompt all_handlers) w x g,
    p.peer,
    p.channel,
    p.track,
    p.added,
  )

  connect-unready :
      key ≢ []
      → (w.new_peer ≡ false)
        ⊎ ((w.new_channel ≡ false) ⊎ ((w.new_track ≡ false) ⊎ (w.add_track ≡ false)))
      → let a = (connect (new_openai_service key prompt all_handlers) w).0 in
        (a.requests ≡ to_sessions key ∷ []) × ((e : ConnectError) × (a.outcome ≡ err e))
  unfolding connect create_peer_connection setup_data_channel setup_audio_track new_openai_service
      ready
  connect-unready has_key p =
      let c = new_openai_service key prompt all_handlers in
      let k = bytes_beq_iff key [] in
      elim (key_cases c w) [
        | inl (e, h) ↦ (ground (arith, k, h), (e, ground (arith, k, h)))
        | inr (x, g, h) ↦ (
          ground (arith, k, h, p),
          elim (Result-cases (connect c w).0.outcome) [
            | inl (u, good) ↦ absurd (ground (arith, k, h, p, good))
            | inr failed ↦ failed
          ],
        )
      ]

  connect-keyless :
      (e : ConnectError)
      → key ≢ []
      → (get_ephemeral_key (new_openai_service key prompt all_handlers) w).outcome ≡ err e
      → let a = (connect (new_openai_service key prompt all_handlers) w).0 in
        (a.requests ≡ (get_ephemeral_key (new_openai_service key prompt all_handlers) w).requests)
        × (a.outcome ≡ err e)
  unfolding connect new_openai_service
  connect-keyless e has_key h = ground (arith, bytes_beq_iff key [], h)

ready_cases :
    (w : Peers)
    → PeerReady w
      ⊎ ((w.new_peer ≡ false)
          ⊎ ((w.new_channel ≡ false) ⊎ ((w.new_track ≡ false) ⊎ (w.add_track ≡ false))))
ready_cases w = elim (Bool-cases w.new_peer) [
  | inr h ↦ inr (inl h)
  | inl peer ↦ elim (Bool-cases w.new_channel) [
    | inr h ↦ inr (inr (inl h))
    | inl channel ↦ elim (Bool-cases w.new_track) [
      | inr h ↦ inr (inr (inr (inl h)))
      | inl track ↦ elim (Bool-cases w.add_track) [
        | inr h ↦ inr (inr (inr (inr h)))
        | inl added ↦ inl (record { peer = peer; channel = channel; track = track; added = added })
      ]
    ]
  ]
]

-- Both requests are answered as `Connect` needs it, and the library takes every step.
abbrev pub Answered : Bytes → Peers → Type 0
Answered key w =
    (key ≢ [])
    × ((x : SessionResponse) × (sdp : Bytes) × KeyGiven w key x
        × PeerReady w
        × OfferTaken w x.client_secret.value sdp)

-- The requests of a `Connect` with how it ends: none without a key; one, and an error; or two, the
-- second with the ephemeral key of the answer to the first.
abbrev pub Requested : Bytes → Peers → Attempt → Type 0
Requested key w a =
    ((key ≡ []) × (a.requests ≡ []) × (a.outcome ≡ err api_key_is_empty))
    ⊎ (((key ≢ [])
          × (a.requests ≡ to_sessions key ∷ [])
          × ((e : ConnectError) × (a.outcome ≡ err e)))
        ⊎ ((key ≢ [])
            × ((x : SessionResponse) × (sdp : Bytes) × KeyGiven w key x
                × PeerReady w
                × (w.create_offer ≡ some sdp)
                × (a.requests ≡ to_sessions key ∷ to_realtime x.client_secret.value sdp ∷ [])
                × (a.client.ephemeral_key ≡ x.client_secret.value))))

-- The second request, and how the `Connect` that sends it ends.
abbrev Offered : Bytes → Peers → Attempt → Type 0
Offered key w a =
    (x : SessionResponse) × (sdp : Bytes) × KeyGiven w key x
    × PeerReady w
    × (w.create_offer ≡ some sdp)
    × (a.requests ≡ to_sessions key ∷ to_realtime x.client_secret.value sdp ∷ [])
    × (a.client.ephemeral_key ≡ x.client_secret.value)
    × (OfferTaken w x.client_secret.value sdp ⊎ ((e : ConnectError) × (a.outcome ≡ err e)))

module _ (key prompt : Bytes) (w : Peers) where
  connect_cases :
      key ≢ []
      → let a = (connect (new_openai_service key prompt all_handlers) w).0 in
        ((a.requests ≡ to_sessions key ∷ []) × ((e : ConnectError) × (a.outcome ≡ err e)))
        ⊎ Offered key w a
  unfolding ready new_openai_service
  connect_cases has_key = elim (key_cases (new_openai_service key prompt all_handlers) w) [
    | inl (e, h) ↦
        let (sent, failed) = connect-keyless key prompt w e has_key (ground (arith, h)) in
        inl (ground (arith, sent, h), (e, failed))
    | inr (x, g, h) ↦ elim (ready_cases w) [
      | inr p ↦ inl (connect-unready key prompt w has_key p)
      | inl p ↦
          let last = ready key prompt w x.client_secret.value in
          let (sent, ended, left) = connect-ready key prompt w x has_key g p in
          elim (signal_cases last w refl) [
            | inl (e, inl f) ↦ inl (ground (arith, sent, f), (e, ground (arith, ended, f)))
            | inl (e, inr (sdp, o, f)) ↦ inr (
              x,
              sdp,
              g,
              p,
              o,
              ground (arith, sent, f),
              ground (arith, left, f),
              inr (e, ground (arith, ended, f)),
            )
            | inr (sdp, t, f) ↦
                inr (x, sdp, g, p, t.offer, ground (arith, sent, f), ground (arith, left, f), inl t)
          ]
    ]
  ]

  connect-no_key :
      key ≡ []
      → let a = (connect (new_openai_service key prompt all_handlers) w).0 in
        (a.requests ≡ []) × (a.outcome ≡ err api_key_is_empty)
  unfolding connect new_openai_service
  connect-no_key h = ground (arith, bytes_beq_iff key [], h)

  connect-Requested : Requested key w (connect (new_openai_service key prompt all_handlers) w).0
  connect-Requested = elim (Bool-cases (key == [])) [
    | inl h ↦
        let none_given = (bytes_beq_iff key []).0 h in
        let (sent, failed) = connect-no_key none_given in inl (none_given, sent, failed)
    | inr h ↦
        let has_key : key ≢ [] = λ e. absurd (ground (arith, h, bytes_beq_iff key [], e)) in
        elim (connect_cases has_key) [
          | inl one ↦ inr (inl (has_key, one.0, one.1))
          | inr (x, sdp, g, p, o, sent, kept, ends) ↦
              inr (inr (has_key, (x, sdp, g, p, o, sent, kept)))
        ]
  ]

  ok-Answered :
      (connect (new_openai_service key prompt all_handlers) w).0.outcome ≡ ok tt → Answered key w
  ok-Answered good = elim (Bool-cases (key == [])) [
    | inl h ↦
        let (_, failed) = connect-no_key ((bytes_beq_iff key []).0 h) in absurd (cc (good, failed))
    | inr h ↦
        let has_key : key ≢ [] = λ e. absurd (ground (arith, h, bytes_beq_iff key [], e)) in
        elim (connect_cases has_key) [
          | inl (_, (e, failed)) ↦ absurd (cc (good, failed))
          | inr (x, sdp, g, p, o, sent, kept, inr (e, failed)) ↦ absurd (cc (good, failed))
          | inr (x, sdp, g, p, o, sent, kept, inl t) ↦ (has_key, (x, sdp, g, p, t))
        ]
  ]

  Answered-ok :
      Answered key w → (connect (new_openai_service key prompt all_handlers) w).0.outcome ≡ ok tt
  unfolding ready
  Answered-ok (has_key, (x, sdp, g, p, t)) =
      let last = ready key prompt w x.client_secret.value in
      let (_, ended, _) = connect-ready key prompt w x has_key g p in
      ground (arith, ended, perform_signaling-ok last w sdp refl t)

-- `Connect` of a new service with the handlers of a session sends nothing without an API key. With one its first request asks for an
-- ephemeral key, and carries the API key. It either sends no other and fails, or it sends the offer of
-- the library as second request, which carries the ephemeral key that the answer to the first gives,
-- and keeps that key; the answer has then status 200 and a body that decodes, and the peer connection
-- has its channel and its track. It succeeds exactly if there is an API key, the first request is so
-- answered, the library takes every step, and the second request is answered with status 200 or 201 and
-- a body that is read to its end and that the library accepts.
pub connect-requests_lem :
    (key prompt : Bytes) (w : Peers)
    → let a = (connect (new_openai_service key prompt all_handlers) w).0 in
      Requested key w a × ((a.outcome ≡ ok tt) ↔ Answered key w)
connect-requests_lem key prompt w =
    (connect-Requested key prompt w, (ok-Answered key prompt w, Answered-ok key prompt w))
