-- ===== src/Text/Decimal/Int.antt =====
-- Signed decimals of 64 bits.
use openai_gate.Base.{
  ℕ, suc, ◌-◌, ◌^◌, ◌<◌, ◌≤◌, ◌≡◌, ◌↔◌, Bool, true, false, [], ◌∷◌, Option, none, some, arith,
  Bytes, eqb, ltb, leb, if◌then◌else◌, Eq,
}
use openai_gate.Text.Parts.{Lacks}
use openai_gate.Text.Decimal.Natural.{
  format_nat, parse_nat, parse-format_nat, format_nat-Lacks, format_nat-head,
}

-- `negsuc n` is -(n + 1).
pub data ℤ : Type 0 where
  pos : ℕ → ℤ
  negsuc : ℕ → ℤ

unfoldable pub int_beq : ℤ → ℤ → Bool
int_beq (pos a) (pos b) = eqb a b
int_beq (pos a) (negsuc b) = false
int_beq (negsuc a) (pos b) = false
int_beq (negsuc a) (negsuc b) = eqb a b

pub int_beq_iff : (a b : ℤ) → (int_beq a b ≡ true) ↔ (a ≡ b)
unfolding int_beq
int_beq_iff (pos a) (pos b) = ground arith
int_beq_iff (pos a) (negsuc b) = ground arith
int_beq_iff (negsuc a) (pos b) = ground arith
int_beq_iff (negsuc a) (negsuc b) = ground arith

instance abbrev pub int_eq : Eq ℤ
int_eq = record { beq = int_beq; beq_iff = int_beq_iff }

-- The values of an int64.
abbrev pub IsInt64 : ℤ → Type 0
IsInt64 (pos n) = n < 2 ^ 63
IsInt64 (negsuc n) = n < 2 ^ 63

unfoldable pub format_int : ℤ → Bytes
format_int (pos n) = format_nat n
format_int (negsuc n) = b'-' ∷ format_nat (suc n)

-- The magnitude is checked against the bound of its sign.
signed : Bool → Option ℕ → Option ℤ
signed neg none = none
signed false (some n) = if ltb n (2 ^ 63) then some (pos n) else none
signed true (some n) =
    if eqb n 0 then some (pos 0) else if leb n (2 ^ 63) then some (negsuc (n - 1)) else none

unfoldable pub parse_int : Bytes → Option ℤ
unfolding signed
parse_int [] = none
parse_int (c ∷ s) =
    if eqb c b'+'
    then signed false (parse_nat s)
    else if eqb c b'-'
    then signed true (parse_nat s)
    else signed false (parse_nat (c ∷ s))

parse_int-digits :
    (c : ℕ) (s : Bytes) → b'0' ≤ c → parse_int (c ∷ s) ≡ signed false (parse_nat (c ∷ s))
unfolding parse_int
parse_int-digits c s h = ground arith

-- Every int64 is read back from its decimal print.
pub parse-format_int : (t : ℤ) → IsInt64 t → parse_int (format_int t) ≡ some t
unfolding format_int
parse-format_int (pos n) h =
    let (c, s, e, d) = format_nat-head n in
    rw e (
      rw (parse_int-digits c s d)
        (rw (← e) (rw (parse-format_nat n) (unfold signed in ground arith))))
parse-format_int (negsuc n) h = unfold parse_int in ground (arith, parse-format_nat (suc n))

-- A printed integer holds no byte above the digits.
pub format_int-Lacks : (t : ℤ) (b : ℕ) → b'9' < b → Lacks b (format_int t)
unfolding format_int
format_int-Lacks (pos n) b h = format_nat-Lacks n b h
format_int-Lacks (negsuc n) b h = (omega arith, format_nat-Lacks (suc n) b h)
