-- ===== src/Tests/Data.antt =====
-- The inputs that the runs share: stores of the reference engine, a bridge and a service.
use openai_gate.Base.{true, [], ◌∷◌, arith, Bytes, bytes_eq, codes}
use openai_gate.Base.Assoc.{Assoc, lookup}
use openai_gate.Text.Decimal.Int.{ℤ, pos}
use openai_gate.Mdbx.Reference.{Sorted, put_entry, put_entry-Ascending}
use openai_gate.ContextStore.Keys.{text_key, audio_key}
use openai_gate.ContextStore.Keyed.{WellKeyed}
use openai_gate.ContextStore.Dialog.{VisitsAll}
use openai_gate.Bridge.{Bridge, new_session}
use openai_gate.Bridge.Sessions.{Session, Hooks}
use openai_gate.Openai.{Channel}

abbrev pub empty_store : Sorted
empty_store = ([], tt)

abbrev pub with : Sorted → Bytes → Bytes → Sorted
with t k v = (put_entry k v t.0, put_entry-Ascending k v t.0 t.1)

abbrev pub call_1 : Bytes
call_1 = codes "call1"

abbrev pub hello : Bytes
hello = codes "hello"

abbrev pub user : Bytes
user = codes "user"

abbrev pub noon : ℤ
noon = pos 1700000000

-- One phrase of the user.
abbrev pub greeted : Sorted
greeted = with empty_store (text_key call_1 user noon) hello

-- One frame of the user.
abbrev pub heard : Sorted
heard = with empty_store (audio_key call_1 user noon) hello

abbrev pub in_order : Assoc Bytes Bytes → Assoc Bytes Bytes
in_order es = es

pub in_order_visits : VisitsAll in_order
in_order_visits = λ es x. (λ h. h, λ h. h)

pub empty_WellKeyed : (kind : Bytes) → WellKeyed kind []
unfolding lookup
empty_WellKeyed kind = record { at_key = λ k v h p. absurd (ground arith) }

abbrev pub handlers_set : Hooks
handlers_set = record { incoming = true; outgoing = true; session_end = true }

abbrev pub talking : Session
talking = record (new_session call_1 (codes "alice") (codes "be brief")) {
  is_response_playing = true;
  opus_buffer = hello ∷ user ∷ [];
}

abbrev pub open_bridge : Bridge
open_bridge = record {
  sessions = [];
  api_key = codes "key";
  hooks = handlers_set;
  has_store = true;
}

abbrev pub busy_bridge : Bridge
busy_bridge = record open_bridge { sessions = (call_1, talking) ∷ [] }

abbrev pub open_channel : Channel
open_channel = record { is_open = true; accepts = λ msg. true }
