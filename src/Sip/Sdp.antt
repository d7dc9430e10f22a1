-- ===== src/Sip/Sdp.antt =====
-- internal/sip/sip.go: the client's RTP address in a session description, the description that the
-- server answers with, and the search for a free port. `strings.TrimSpace` is read on ASCII text.
pub mod Ports
use openai_gate.Base.{
  ℕ, zero, suc, ◌+◌, ◌-◌, ◌<◌, Bool, true, false, not, ◌||◌, ◌&&◌, List, [], ◌∷◌, ◌++◌, Option,
  none, some, Bytes, bytes_eq, codes, ltb, leb, eqb, get_elem?, ◌==◌, if◌then◌else◌,
}
use openai_gate.Text.Order.{starts_with}
use openai_gate.Text.Parts.{split}
use openai_gate.Text.Decimal.Int.{ℤ, pos, negsuc, format_int, parse_int}
use openai_gate.Sip.Rtp.{Addr}

-- Tab, line feed, vertical tab, form feed, carriage return, space.
abbrev pub is_space : ℕ → Bool
is_space c = eqb c 32 || (leb 9 c && leb c 13)

trim_left : Bytes → Bytes
trim_left [] = []
trim_left (c ∷ s) = let rest = trim_left s in if is_space c then rest else c ∷ s

-- A character stays if it or one behind it is no space.
onto_trimmed : ℕ → Bytes → Bytes
onto_trimmed c [] = if is_space c then [] else c ∷ []
onto_trimmed c (d ∷ s) = c ∷ d ∷ s

trim_right : Bytes → Bytes
unfolding onto_trimmed
trim_right [] = []
trim_right (c ∷ s) = onto_trimmed c (trim_right s)

unfoldable pub trim_space : Bytes → Bytes
unfolding trim_left trim_right
trim_space s = trim_right (trim_left s)

-- The address and the port that the lines so far have given.
pub record Client : Type 0 where
  pub ip : Bytes
  pub port : ℤ

set_ip : Client → Option Bytes → Client
set_ip c none = c
set_ip c (some ip) = record c { ip = ip }

set_port : Client → Option ℤ → Client
set_port c none = c
set_port c (some port) = record c { port = port }

read_port : Option Bytes → Option ℤ
read_port none = none
read_port (some text) = parse_int text

-- One round of the loop over the lines. The second part of a line is there if it has two parts.
unfoldable pub read_line : Client → Bytes → Client
unfolding set_ip set_port read_port trim_space
read_line c raw =
    let line = trim_space raw in
    let parts = split b' ' line in
    if starts_with (codes "c=") line
    then set_ip c (get_elem? parts 2)
    else if starts_with (codes "m=audio ") line
    then set_port c (read_port (get_elem? parts 1))
    else c

unfoldable pub read_lines : Client → List Bytes → Client
unfolding read_line
read_lines c [] = c
read_lines c (line ∷ lines) = read_lines (read_line c line) lines

-- An address needs an IP and a positive port. `resolve` is `net.ResolveUDPAddr`.
address_of : (Bytes → ℕ → Option Addr) → Client → ℤ → Option Addr
address_of resolve c (pos n) = if not (c.ip == []) && ltb 0 n then resolve c.ip n else none
address_of resolve c (negsuc n) = none

unfoldable pub extract_client_rtp_address : (Bytes → ℕ → Option Addr) → Bytes → Option Addr
unfolding read_lines address_of
extract_client_rtp_address resolve body =
    let c = read_lines (record { ip = []; port = pos 0 }) (split b'\n' body) in
    if body == [] then none else address_of resolve c c.port

abbrev line_of : Bytes → Bytes → Bytes
line_of s rest = s ++ b'\n' ∷ rest

-- The answer's description; `now` is the Unix time.
unfoldable pub generate_opus_only_sdp : ℤ → Bytes → ℤ → Bytes
generate_opus_only_sdp now public_ip public_port = line_of (codes "v=0") (
    line_of
      (codes "o=openai "
        ++ (format_int now ++ (codes " " ++ (format_int now ++ (codes " IN IP4 " ++ public_ip)))))
      (line_of (codes "s=OpenAI") (
        line_of (codes "c=IN IP4 " ++ public_ip) (
          line_of (codes "t=0 0") (
            line_of (codes "m=audio " ++ (format_int public_port ++ codes " RTP/AVP 111 96")) (
              line_of (codes "a=rtpmap:111 opus/48000/2") (
                line_of (codes "a=rtpmap:96 opus/48000/2") (
                  line_of (codes "a=fmtp:111 minptime=10;useinbandfec=1") (
                    line_of (codes "a=fmtp:96 minptime=10;useinbandfec=1")
                      (line_of (codes "a=sendrecv") (line_of (codes "a=ptime:20") [])))))))))))

-- The loop of `getPort`: every second port from `port` on and below `max_port`; `free` is whether
-- the port can be resolved and bound. The fuel is a bound on the rounds.
unfoldable pub port_loop : ℕ → (ℕ → Bool) → ℕ → ℕ → Option ℕ
port_loop zero free max_port port = none
port_loop (suc f) free max_port port =
    let rest = port_loop f free max_port (port + 2) in
    if ltb port max_port then (if free port then some port else rest) else none

-- The bounds are those of the environment, where neither of them is negative.
unfoldable pub get_port : (ℕ → Bool) → ℕ → ℕ → ℕ
unfolding port_loop
get_port free min_port max_port = elim (port_loop (max_port - min_port) free max_port min_port) [
  | none ↦ min_port
  | some port ↦ port
]
