-- ===== src/Openai/Items.antt =====
-- The current item of the service (internal/openai/openai.go) under the messages of the channel.
use openai_gate.Base.{
  ◌≡◌, ◌⊎◌, inl, inr, Bool, true, false, List, [], ◌∷◌, some, arith, Bytes, bytes_eq, codes,
  Option-cases,
}
use openai_gate.Json.{Json, object, Members, done, member, get_member, as_object}
use openai_gate.Json.Names.{same_name}
use openai_gate.Openai.Decode.{Message, empty_message, decode, decode_members, decode_member}
use openai_gate.Openai.{
  Service, Event, response_created, handle_message, handle_data_channel_message,
}

-- No member of the object is called "data", in whatever case.
abbrev pub NoData : Members → Type 0
NoData done = Unit
NoData (member name v rest) = (same_name name (codes "data") ≡ false) × NoData rest

-- A member of another name leaves the fields of the message alone.
decode_member-fields :
    (msg msg' : Message) (name : Bytes) (v : Json)
    → same_name name (codes "data") ≡ false
    → decode_member msg name v ≡ some msg'
    → msg'.fields ≡ msg.fields
unfolding decode_member
decode_member-fields msg msg' name v h e = ground arith

decode_members-fields :
    (msg msg' : Message) (ms : Members)
    → NoData ms
    → decode_members msg ms ≡ some msg'
    → msg'.fields ≡ msg.fields
unfolding decode_members
decode_members-fields msg msg' done h e = cc
decode_members-fields msg msg' (member name v rest) h e =
    elim (Option-cases (decode_member msg name v)) [
      | inl bad ↦ absurd (ground arith)
      | inr (next, good) ↦ ground (
        arith,
        good,
        decode_members-fields next msg' rest h.1,
        decode_member-fields msg next name v h.0 good,
      )
    ]

-- A message whose fields are empty names no item.
handle_message-no_fields :
    (s : Service) (msg : Message) (raw : Bytes)
    → msg.fields ≡ done
    → let r = handle_message s msg raw in
      ((r.0.current_item_id ≡ s.current_item_id) ⊎ (r.0.current_item_id ≡ []))
unfolding handle_message get_member as_object
handle_message-no_fields s msg raw h = ground arith

-- The service reports the start of a response.
abbrev pub starts_response : List Event → Bool
starts_response [] = false
starts_response (response_created id ∷ events) = true
starts_response (event ∷ events) = starts_response events

handle_message-starts_response :
    (s : Service) (msg : Message) (raw : Bytes)
    → msg.fields ≡ done
    → starts_response (handle_message s msg raw).1 ≡ false
unfolding handle_message get_member as_object
handle_message-starts_response s msg raw h = ground arith

-- A message of the data channel that is an object without a member called "data", in any case of
-- letters, keeps an empty current item empty, and does not report the start of a response.
pub handle_data_channel_message-NoData :
    (s : Service) (ms : Members) (raw : Bytes)
    → NoData ms
    → s.current_item_id ≡ []
    → let r = handle_data_channel_message s (some (object ms)) raw in
      (r.0.current_item_id ≡ []) × (starts_response r.1 ≡ false)
unfolding handle_data_channel_message decode
handle_data_channel_message-NoData s ms raw h e =
    elim (Option-cases (decode_members empty_message ms)) [
      | inl bad ↦ (ground arith, ground arith)
      | inr (msg, good) ↦
          let fields = decode_members-fields empty_message msg ms h good in
          (
            ground (arith, handle_message-no_fields s msg raw fields),
            ground (arith, handle_message-starts_response s msg raw fields),
          )
    ]
