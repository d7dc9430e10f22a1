-- ===== src/Tests/Calls.antt =====
-- Runs of the theorems on SIP calls.
use openai_gate.Base.{
  ◌≡◌, refl, true, false, [], ◌∷◌, none, some, arith, bytes_eq, bytes_beq, codes, ok,
}
use openai_gate.Base.Assoc.{lookup}
use openai_gate.Mdbx.Reference.{reference, reference_laws}
use openai_gate.Bridge.Sessions.{Session}
use openai_gate.Sip.Rtp.{Endpoint}
use openai_gate.Sip.Server.{
  Server, no_packets, Invite, InviteWorld, new_endpoint, handle_invite, handle_ack, handle_bye,
}
use openai_gate.Sip.Server.Calls.{Opening, call_lem, second_invite_lem}
use openai_gate.Tests.Data.{empty_store, call_1, noon, open_bridge, busy_bridge, talking}

abbrev idle : Server reference
idle = record {
  endpoints = [];
  bridge = open_bridge;
  db = empty_store;
  public_host = codes "192.0.2.1";
  cancelled = false;
  counters = no_packets;
}

abbrev pub invite : Invite
invite = record { call_id = call_1; from = some (codes "alice"); contact = none; body = [] }

abbrev pub world : InviteWorld
world = record {
  local_port = 10000;
  binds = true;
  mapping = none;
  ssrc = 7;
  seq_num = 1;
  timestamp_base = 160;
  now = noon;
  resolve = λ ip port. none;
}

abbrev pub joined : Endpoint
joined = record (new_endpoint invite world) { active = true; has_session = true }

abbrev in_call : Server reference
in_call = record idle { endpoints = (call_1, joined) ∷ []; bridge = busy_bridge }

idle-Opening : Opening reference reference_laws idle
idle-Opening = record { key = λ h. absurd (ground arith); store = refl; begins = λ t. refl }

abbrev invited : Server reference
invited = (handle_invite reference idle invite world).server

abbrev acked : Server reference
acked = (handle_ack reference invited call_1 noon (ok tt)).server

abbrev left : Server reference
left = (handle_bye reference acked call_1).server

call_example :
    ((x : Session) × (lookup call_1 acked.bridge.sessions ≡ some x))
    × (lookup call_1 acked.endpoints ≡ some joined)
    × (lookup call_1 left.endpoints ≡ none)
    × (lookup call_1 left.bridge.sessions ≡ none)
call_example = call_lem reference reference_laws idle invite world noon refl idle-Opening

joined_there : lookup call_1 in_call.endpoints ≡ some joined
unfolding lookup bytes_beq
joined_there = refl

talking_there : lookup call_1 in_call.bridge.sessions ≡ some talking
unfolding lookup bytes_beq
talking_there = refl

second_invite_example :
    (lookup call_1
        (handle_bye reference
          (handle_invite reference in_call invite world).server
          call_1).server.endpoints
      ≡ none)
    × (lookup call_1
          (handle_bye reference
            (handle_invite reference in_call invite world).server
            call_1).server.bridge.sessions
        ≡ some talking)
second_invite_example =
    second_invite_lem reference reference_laws in_call invite world talking refl talking_there
