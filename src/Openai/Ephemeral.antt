-- ===== src/Openai/Ephemeral.antt =====
-- internal/openai/openai.go: the request for an ephemeral key, and how its answer is read.
use openai_gate.Base.{
  ◌+◌, ◌/◌, ◌%◌, [], ◌∷◌, ◌++◌, Option, none, some, Bytes, bytes_eq, codes, ltb, if◌then◌else◌,
}
use openai_gate.Text.Decimal.Int.{ℤ, pos, parse_int}
use openai_gate.Json.{Json, null, number, string, object, Members, done, member}
use openai_gate.Json.Names.{same_name}
use openai_gate.Openai.Decode.{read_string}

-- The UTF-8 bytes of a text whose characters are below U+0800.
abbrev pub utf8 : Bytes → Bytes
utf8 [] = []
utf8 (c ∷ cs) = (if ltb c 128 then c ∷ [] else (192 + c / 64) ∷ (128 + c % 64) ∷ []) ++ utf8 cs

abbrev pub model : Bytes
model = codes "gpt-4o-realtime-preview-2024-12-17"

abbrev instructions : Bytes
instructions = utf8 (
    codes
      "Говори по-русски, отвечай кратко и естественно, предлагай русский язык в начале, но будь готов переключиться.")

-- The `SessionRequest` of `getEphemeralKey`.
abbrev pub session_request : Json
session_request = object (
    member (codes "model") (string model) (
      member (codes "voice") (string (codes "ballad"))
        (member (codes "instructions") (string instructions) done)))

pub record ClientSecret : Type 0 where
  pub value : Bytes
  pub expires_at : ℤ

pub record SessionResponse : Type 0 where
  pub id : Bytes
  pub model : Bytes
  pub expires_at : ℤ
  pub client_secret : ClientSecret

abbrev empty_response : SessionResponse
empty_response = record {
  id = [];
  model = [];
  expires_at = pos 0;
  client_secret = record { value = []; expires_at = pos 0 };
}

-- An int64 field takes a number that is an integer of 64 bits, and keeps its value at `null`.
unfoldable pub read_int64 : ℤ → Json → Option ℤ
read_int64 old (number literal) = parse_int literal
read_int64 old null = some old
read_int64 old v = none

unfoldable pub secret_member : ClientSecret → Bytes → Json → Option ClientSecret
unfolding read_int64
secret_member x name v =
    if same_name name (codes "value")
    then elim (read_string x.value v) [ none ↦ none | some s ↦ some (record x { value = s }) ]
    else if same_name name (codes "expires_at")
    then elim (read_int64 x.expires_at v) [
      | none ↦ none
      | some n ↦ some (record x { expires_at = n })
    ]
    else some x

unfoldable pub secret_members : ClientSecret → Members → Option ClientSecret
secret_members x done = some x
secret_members x (member name v rest) = elim (secret_member x name v) [
  | none ↦ none
  | some x' ↦ secret_members x' rest
]

-- A struct takes the members of an object, and stays as it is at `null`.
unfoldable pub read_secret : ClientSecret → Json → Option ClientSecret
unfolding secret_members
read_secret old (object ms) = secret_members old ms
read_secret old null = some old
read_secret old v = none

unfoldable pub response_member : SessionResponse → Bytes → Json → Option SessionResponse
unfolding read_secret
response_member x name v =
    if same_name name (codes "id")
    then elim (read_string x.id v) [ none ↦ none | some s ↦ some (record x { id = s }) ]
    else if same_name name (codes "model")
    then elim (read_string x.model v) [ none ↦ none | some s ↦ some (record x { model = s }) ]
    else if same_name name (codes "expires_at")
    then elim (read_int64 x.expires_at v) [
      | none ↦ none
      | some n ↦ some (record x { expires_at = n })
    ]
    else if same_name name (codes "client_secret")
    then elim (read_secret x.client_secret v) [
      | none ↦ none
      | some s ↦ some (record x { client_secret = s })
    ]
    else some x

unfoldable pub response_members : SessionResponse → Members → Option SessionResponse
response_members x done = some x
response_members x (member name v rest) = elim (response_member x name v) [
  | none ↦ none
  | some x' ↦ response_members x' rest
]

-- Decoding a `SessionResponse`; `none` is an error of `Decode`.
unfoldable pub decode_response : Json → Option SessionResponse
unfolding response_members
decode_response (object ms) = response_members empty_response ms
decode_response null = some empty_response
decode_response v = none
