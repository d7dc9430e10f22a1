-- ===== src/Openai/Decode.antt =====
-- `json.Unmarshal` into `Message`. `encoding/json` knows no option "inline": the tag of the field
-- `Data` gives it no name, so it is filled from a member called `Data` in any case, like any field.
use openai_gate.Base.{Option, none, some, [], Bytes, bytes_eq, codes, if◌then◌else◌}
use openai_gate.Json.{Json, null, string, object, Members, done, member, append_members}
use openai_gate.Json.Names.{same_name}

pub record Message : Type 0 where
  pub type : Bytes
  pub delta : Bytes
  pub audio : Bytes
  pub fields : Members

abbrev pub empty_message : Message
empty_message = record { type = []; delta = []; audio = []; fields = done }

-- A string field takes a string, keeps its value at `null`, and refuses anything else.
unfoldable pub read_string : Bytes → Json → Option Bytes
read_string old (string s) = some s
read_string old null = some old
read_string old v = none

-- The map field takes the members of an object; `null` makes it nil.
unfoldable pub read_members : Members → Json → Option Members
read_members old (object ms) = some (append_members old ms)
read_members old null = some done
read_members old v = none

unfoldable pub decode_member : Message → Bytes → Json → Option Message
unfolding read_string read_members
decode_member msg name v =
    if same_name name (codes "type")
    then elim (read_string msg.type v) [ none ↦ none | some s ↦ some (record msg { type = s }) ]
    else if same_name name (codes "delta")
    then elim (read_string msg.delta v) [ none ↦ none | some s ↦ some (record msg { delta = s }) ]
    else if same_name name (codes "audio")
    then elim (read_string msg.audio v) [ none ↦ none | some s ↦ some (record msg { audio = s }) ]
    else if same_name name (codes "data")
    then elim (read_members msg.fields v) [
      | none ↦ none
      | some ms ↦ some (record msg { fields = ms })
    ]
    else some msg

unfoldable pub decode_members : Message → Members → Option Message
decode_members msg done = some msg
decode_members msg (member name v rest) = elim (decode_member msg name v) [
  | none ↦ none
  | some msg' ↦ decode_members msg' rest
]

-- `none` is an error of `Unmarshal`.
unfoldable pub decode : Json → Option Message
unfolding decode_members
decode (object ms) = decode_members empty_message ms
decode null = some empty_message
decode v = none
