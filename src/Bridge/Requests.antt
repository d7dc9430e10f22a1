-- ===== src/Bridge/Requests.antt =====
-- The two HTTP requests of `Connect` of internal/openai/openai.go, written out here once more, and the
-- answers that it needs.
use openai_gate.Base.{
  ◌≡◌, ◌⊎◌, inl, inr, ◌++◌, true, [], ◌∷◌, some, arith, Bytes, bytes_eq, ok, err, codes,
  Option-cases, Bool-cases, Result-cases, eqb, eqb_iff,
}
use openai_gate.Json.{Json}
use openai_gate.Openai.{
  ConnectError, key_request_failed, key_refused, key_unreadable, offer_not_created, local_not_set,
  offer_request_failed,
}
use openai_gate.Openai.Ephemeral.{SessionResponse, decode_response, session_request, model}
use openai_gate.Openai.Connect.{
  HttpRequest, Peers, Client, HttpAnswer, get_ephemeral_key, perform_signaling, read_answer,
  set_answer, json_body, sdp_body,
}

-- The request for an ephemeral key, with the API key.
abbrev pub to_sessions : Bytes → HttpRequest
to_sessions key = record {
  method = codes "POST";
  url = codes "https://api.openai.com/v1/realtime/sessions";
  authorization = codes "Bearer " ++ key;
  content_type = codes "application/json";
  body = json_body session_request;
}

-- The request that offers a connection, with the ephemeral key.
abbrev pub to_realtime : Bytes → Bytes → HttpRequest
to_realtime key sdp = record {
  method = codes "POST";
  url = codes "https://api.openai.com/v1/realtime?model=" ++ model;
  authorization = codes "Bearer " ++ key;
  content_type = codes "application/sdp";
  body = sdp_body sdp;
}

-- The request for the ephemeral key is answered with status 200 and a body that decodes.
pub record KeyGiven (w : Peers) (key : Bytes) (x : SessionResponse) : Type 0 where
  pub reply : HttpAnswer
  pub value : Json
  pub answered : w.answer (to_sessions key) ≡ some reply
  pub status : reply.status ≡ 200
  pub parsed : w.first_value reply ≡ some value
  pub decodes : decode_response value ≡ some x

-- The peer connection takes its data channel and its track.
pub record PeerReady (w : Peers) : Type 0 where
  pub peer : w.new_peer ≡ true
  pub channel : w.new_channel ≡ true
  pub track : w.new_track ≡ true
  pub added : w.add_track ≡ true

-- The offer is made and kept, its request is answered with status 200 or 201 and a body that is read to
-- its end, and that answer is accepted.
pub record OfferTaken (w : Peers) (key sdp : Bytes) : Type 0 where
  pub reply : HttpAnswer
  pub offer : w.create_offer ≡ some sdp
  pub local : w.set_local sdp ≡ true
  pub answered : w.answer (to_realtime key sdp) ≡ some reply
  pub accepted : (reply.status ≡ 200) ⊎ (reply.status ≡ 201)
  pub complete : reply.complete ≡ true
  pub remote : w.set_remote reply.body ≡ true

pub key_cases :
    (c : Client) (w : Peers)
    → ((e : ConnectError) × (get_ephemeral_key c w
          ≡ record { client = c; requests = to_sessions c.api_key ∷ []; outcome = err e }))
      ⊎ ((x : SessionResponse) × KeyGiven w c.api_key x
          × (get_ephemeral_key c w ≡ record {
            client = record c { ephemeral_key = x.client_secret.value };
            requests = to_sessions c.api_key ∷ [];
            outcome = ok tt;
          }))
unfolding get_ephemeral_key
key_cases c w =
    let request = to_sessions c.api_key in
    elim (Option-cases (w.answer request)) [
      | inl h ↦ inl (key_request_failed, ground (arith, h))
      | inr (r, h) ↦ elim (Bool-cases (eqb r.status 200)) [
        | inr refused ↦ inl (key_refused r.status r.body, ground (arith, h, refused))
        | inl status ↦ elim (Option-cases (w.first_value r)) [
          | inl p ↦ inl (key_unreadable, ground (arith, h, status, p))
          | inr (v, p) ↦ elim (Option-cases (decode_response v)) [
            | inl d ↦ inl (key_unreadable, ground (arith, h, status, p, d))
            | inr (x, d) ↦ inr (
              x,
              record {
                reply = r;
                value = v;
                answered = h;
                status = (eqb_iff r.status 200).0 status;
                parsed = p;
                decodes = d;
              },
              ground (arith, h, status, p, d),
            )
          ]
        ]
      ]
    ]

answer_cases :
    (w : Peers) (request : HttpRequest)
    → ((e : ConnectError) × (set_answer w (read_answer (w.answer request)) ≡ err e))
      ⊎ ((r : HttpAnswer) × (w.answer request ≡ some r)
          × ((r.status ≡ 200) ⊎ (r.status ≡ 201))
          × (r.complete ≡ true)
          × (w.set_remote r.body ≡ true)
          × (set_answer w (read_answer (w.answer request)) ≡ ok tt))
unfolding read_answer set_answer
answer_cases w request = elim (Option-cases (w.answer request)) [
  | inl h ↦ inl (offer_request_failed, ground (arith, h))
  | inr (r, h) ↦ elim (Bool-cases (w.set_remote r.body)) [
    | inr n ↦ inl (elim (Result-cases (set_answer w (read_answer (w.answer request)))) [
      | inl (a, g) ↦ absurd (ground (arith, h, n, g))
      | inr failed ↦ failed
    ])
    | inl remote ↦ elim (Result-cases (set_answer w (read_answer (w.answer request)))) [
      | inr failed ↦ inl failed
      | inl (a, g) ↦ inr (r, h, ground (arith, h, g), ground (arith, h, g), remote, g)
    ]
  ]
]

signaled_lem :
    (c : Client) (w : Peers) (sdp : Bytes)
    → c.service.has_connection ≡ true
    → w.create_offer ≡ some sdp
    → w.set_local sdp ≡ true
    → perform_signaling w c ≡ record {
      client = c;
      requests = to_realtime c.ephemeral_key sdp ∷ [];
      outcome = set_answer w (read_answer (w.answer (to_realtime c.ephemeral_key sdp)));
    }
unfolding perform_signaling
signaled_lem c w sdp there o l = ground (arith, o, l, there)

pub signal_cases :
    (c : Client) (w : Peers)
    → c.service.has_connection ≡ true
    → ((e : ConnectError) × ((perform_signaling w c
            ≡ record { client = c; requests = []; outcome = err e })
          ⊎ ((sdp : Bytes) × (w.create_offer ≡ some sdp)
              × (perform_signaling w c ≡ record {
                client = c;
                requests = to_realtime c.ephemeral_key sdp ∷ [];
                outcome = err e;
              }))))
      ⊎ ((sdp : Bytes) × OfferTaken w c.ephemeral_key sdp
          × (perform_signaling w c ≡ record {
            client = c;
            requests = to_realtime c.ephemeral_key sdp ∷ [];
            outcome = ok tt;
          }))
unfolding perform_signaling
signal_cases c w there = elim (Option-cases w.create_offer) [
  | inl o ↦ inl (offer_not_created, inl (ground (arith, o, there)))
  | inr (sdp, o) ↦ elim (Bool-cases (w.set_local sdp)) [
    | inr l ↦ inl (local_not_set, inl (ground (arith, o, l, there)))
    | inl l ↦
        let signaled = signaled_lem c w sdp there o l in
        elim (answer_cases w (to_realtime c.ephemeral_key sdp)) [
          | inl (e, f) ↦ inl (e, inr (sdp, o, ground (arith, f, signaled)))
          | inr (r, h, a, complete, remote, f) ↦ inr (
            sdp,
            record {
              reply = r;
              offer = o;
              local = l;
              answered = h;
              accepted = a;
              complete = complete;
              remote = remote;
            },
            ground (arith, f, signaled),
          )
        ]
  ]
]

pub get_ephemeral_key-ok :
    (c : Client) (w : Peers) (x : SessionResponse)
    → KeyGiven w c.api_key x
    → get_ephemeral_key c w ≡ record {
      client = record c { ephemeral_key = x.client_secret.value };
      requests = to_sessions c.api_key ∷ [];
      outcome = ok tt;
    }
unfolding get_ephemeral_key
get_ephemeral_key-ok c w x g = ground (arith, g.answered, g.status, g.parsed, g.decodes)

pub perform_signaling-ok :
    (c : Client) (w : Peers) (sdp : Bytes)
    → c.service.has_connection ≡ true
    → OfferTaken w c.ephemeral_key sdp
    → perform_signaling w c
      ≡ record { client = c; requests = to_realtime c.ephemeral_key sdp ∷ []; outcome = ok tt }
unfolding perform_signaling read_answer set_answer
perform_signaling-ok c w sdp there t =
    ground (arith, there, t.offer, t.local, t.answered, t.accepted, t.complete, t.remote)
