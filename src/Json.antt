-- ===== src/Json.antt =====
-- JSON as `encoding/json` decodes it: the values of `interface{}`, the members of an object, and
-- the rule by which a member's name selects the field of a struct.
pub mod Names
use openai_gate.Base.{
  Bool, true, false, ◌&&◌, List, [], ◌∷◌, Option, none, some, arith, Bytes, bytes_eq, ◌==◌,
  if◌then◌else◌,
}

-- A number keeps its literal.
mutual
  pub data Json : Type 0 where
    null : Json
    bool : Bool → Json
    number : Bytes → Json
    string : Bytes → Json
    array : Elements → Json
    object : Members → Json

  pub data Elements : Type 0 where
    nil : Elements
    cons : Json → Elements → Elements

  pub data Members : Type 0 where
    done : Members
    member : Bytes → Json → Members → Members

abbrev pub or_else : {A : Type 0} → Option A → Option A → Option A
or_else none d = d
or_else (some a) d = some a

-- `m[name]` of a decoded map: of two members with one name the later one counts.
unfoldable pub get_member : Bytes → Members → Option Json
get_member name done = none
get_member name (member n v rest) =
    or_else (get_member name rest) (if n == name then some v else none)

-- `v.(string)`
unfoldable pub as_string : Option Json → Option Bytes
as_string (some (string s)) = some s
as_string v = none

-- `v.(map[string]interface{})`
unfoldable pub as_object : Option Json → Option Members
as_object (some (object ms)) = some ms
as_object v = none

unfoldable pub append_members : Members → Members → Members
append_members done ms = ms
append_members (member n v rest) ms = member n v (append_members rest ms)
