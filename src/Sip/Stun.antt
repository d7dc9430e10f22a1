-- ===== src/Sip/Stun.antt =====
-- internal/sip/sip.go: `discoverPublicMapping`, which asks a STUN server for the public address of a
-- socket. The STUN messages are a library's: `xor_mapped` is the mapping that a reply carries, if it
-- decodes and carries one.
use openai_gate.Base.{
  ℕ, ◌≡◌, refl, Bool, true, false, ◌&&◌, List, [], ◌∷◌, Option, none, some, arith, Bytes, bytes_eq,
  Result, ok, err, eqb, ◌==◌, if◌then◌else◌, Option-cases,
}
use openai_gate.Base.Membership.{filter_map}
use openai_gate.Sip.Rtp.{Addr}

pub data StunError : Type 0 where
  not_resolved : StunError
  not_sent : StunError
  not_read : StunError

-- A read of the socket: a datagram with its sender, or an error, the end of the two seconds included.
abbrev pub Reads : Type 0
Reads = List (Result (Unit {0}) (Addr × Bytes))

-- What a datagram gives: nothing unless it comes from the server and carries a mapping.
unfoldable pub mapping_of : Addr → (Bytes → Option (Bytes × ℕ)) → Addr × Bytes → Option (Bytes × ℕ)
mapping_of server xor_mapped (from, content) =
    if (from.ip == server.ip && eqb from.port server.port) then xor_mapped content else none

-- The loop over the reads; `none` is a loop that still waits.
unfoldable pub read_loop :
    Addr → (Bytes → Option (Bytes × ℕ)) → Reads → Option (Result StunError (Bytes × ℕ))
unfolding mapping_of
read_loop server xor_mapped [] = none
read_loop server xor_mapped (r ∷ rs) =
    let later = read_loop server xor_mapped rs in
    elim r [
      | err _ ↦ some (err not_read)
      | ok datagram ↦ elim (mapping_of server xor_mapped datagram) [
        | none ↦ later
        | some found ↦ some (ok found)
      ]
    ]

-- `server` is the resolved address; `sends` is whether the request can be written.
unfoldable pub discover_public_mapping :
    Option Addr
    → Bool
    → (Bytes → Option (Bytes × ℕ))
    → Reads
    → Option (Result StunError (Bytes × ℕ))
unfolding read_loop
discover_public_mapping none sends xor_mapped rs = some (err not_resolved)
discover_public_mapping (some server) sends xor_mapped rs =
    if sends then read_loop server xor_mapped rs else some (err not_sent)

-- The datagrams before the first failed read, and whether a read failed.
abbrev pub arrived : Reads → List (Addr × Bytes)
arrived [] = []
arrived (err _ ∷ rs) = []
arrived (ok datagram ∷ rs) = datagram ∷ arrived rs

abbrev pub has_failed : Reads → Bool
has_failed [] = false
has_failed (err _ ∷ rs) = true
has_failed (ok datagram ∷ rs) = has_failed rs

-- The first of some mappings; without one, an error if a read failed.
abbrev pub first_or : Bool → List (Bytes × ℕ) → Option (Result StunError (Bytes × ℕ))
first_or failed (found ∷ more) = some (ok found)
first_or true [] = some (err not_read)
first_or false [] = none

-- When the server's name resolves and the request is sent, the result is the first mapping that the
-- server's datagrams before a failed read carry, whatever others send in between; without one it is
-- an error if a read fails, and the loop waits on otherwise.
pub discover_public_mapping_lem :
    (server : Addr) (xor_mapped : Bytes → Option (Bytes × ℕ)) (rs : Reads)
    → discover_public_mapping (some server) true xor_mapped rs
      ≡ first_or (has_failed rs) (filter_map (mapping_of server xor_mapped) (arrived rs))
unfolding discover_public_mapping filter_map
discover_public_mapping_lem server xor_mapped [] = refl
discover_public_mapping_lem server xor_mapped (err _ ∷ rs) = refl
discover_public_mapping_lem server xor_mapped (ok datagram ∷ rs) = ground (
  arith,
  discover_public_mapping_lem server xor_mapped rs,
  Option-cases (mapping_of server xor_mapped datagram),
)
