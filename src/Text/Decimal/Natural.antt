-- ===== src/Text/Decimal/Natural.antt =====
-- Unsigned decimals: the digits of a number, and the loop that reads them.
pub mod Ordering
use openai_gate.Base.{
  ℕ, zero, suc, ◌+◌, ◌-◌, ◌*◌, ◌/◌, ◌%◌, ◌<◌, ◌≤◌, ◌≡◌, ◌≢◌, refl, ◌∙◌, ◌||◌, [], ◌∷◌, ◌++◌, Option,
  none, some, arith, Bytes, ltb, if◌then◌else◌, All, All-append,
}
use openai_gate.Text.Parts.{Lacks}

abbrev pub digit : ℕ → ℕ
digit d = b'0' + d

-- The most significant digit first; the fuel bounds the number of digits.
digits : ℕ → ℕ → Bytes
digits zero n = []
digits (suc f) n =
    let more = digits f (n / 10) ++ digit (n % 10) ∷ [] in if ltb n 10 then digit n ∷ [] else more

unfoldable pub format_nat : ℕ → Bytes
unfolding digits
format_nat n = digits (suc n) n

-- One byte at a time; `none` at a byte that is no digit.
scan : Bytes → ℕ → Option ℕ
scan [] n = some n
scan (c ∷ s) n =
    let rest = scan s (n * 10 + (c - b'0')) in if ltb c b'0' || ltb b'9' c then none else rest

-- `none` for the empty text too.
unfoldable pub parse_nat : Bytes → Option ℕ
unfolding scan
parse_nat [] = none
parse_nat (c ∷ s) = scan (c ∷ s) 0

abbrev then_scan : Option ℕ → Bytes → Option ℕ
then_scan none s = none
then_scan (some n) s = scan s n

scan-append : (s r : Bytes) (n : ℕ) → scan (s ++ r) n ≡ then_scan (scan s n) r
unfolding scan
scan-append [] r n = refl
scan-append (c ∷ s) r n = ground (arith, scan-append s r (n * 10 + (c - b'0')))

scan-digit : (d n : ℕ) → d < 10 → scan (digit d ∷ []) n ≡ some (n * 10 + d)
unfolding scan
scan-digit d n h = ground arith

scan-digits : (f n : ℕ) → n < f → scan (digits f n) 0 ≡ some n
unfolding digits
scan-digits zero n h = absurd (omega arith)
scan-digits (suc f) n h = ground (
  arith,
  scan-append (digits f (n / 10)) (digit (n % 10) ∷ []) 0,
  scan-digits f (n / 10),
  scan-digit (n % 10) (n / 10),
  scan-digit n 0,
)

abbrev IsDigit : ℕ → Type 0
IsDigit c = (b'0' ≤ c) × (c ≤ b'9')

digits-All : (f n : ℕ) → All IsDigit (digits f n)
unfolding digits
digits-All zero n = tt
digits-All (suc f) n = ground (
  arith,
  digits-All f (n / 10),
  All-append IsDigit (digits f (n / 10)) (digit (n % 10) ∷ []) (digits-All f (n / 10)),
)

digits-Lacks : (b : ℕ) (s : Bytes) → b'9' < b → All IsDigit s → Lacks b s
digits-Lacks b [] h a = tt
digits-Lacks b (c ∷ s) h a = (omega arith, digits-Lacks b s h a.1)

-- No byte above the digits occurs, `:` among them.
pub format_nat-Lacks : (n b : ℕ) → b'9' < b → Lacks b (format_nat n)
unfolding format_nat
format_nat-Lacks n b h = digits-Lacks b _ h (digits-All (suc n) n)

append-ne-nil : (s : Bytes) (c : ℕ) → s ++ c ∷ [] ≢ []
append-ne-nil [] c e = cc
append-ne-nil (x ∷ s) c e = cc

digits-ne-nil : (f n : ℕ) → digits (suc f) n ≢ []
unfolding digits
digits-ne-nil f n = ground (arith, append-ne-nil (digits f (n / 10)) (digit (n % 10)))

parse_nat-scan : (s : Bytes) → s ≢ [] → parse_nat s ≡ scan s 0
unfolding parse_nat
parse_nat-scan [] h = absurd (h refl)
parse_nat-scan (c ∷ s) h = refl

-- A printed number reads back.
pub parse-format_nat : (n : ℕ) → parse_nat (format_nat n) ≡ some n
unfolding format_nat
parse-format_nat n = parse_nat-scan _ (digits-ne-nil n n) ∙ scan-digits (suc n) n (omega arith)

-- The first byte of a printed number is a digit, so it is no sign.
pub format_nat-head : (n : ℕ) → (c : ℕ) × (s : Bytes) × (format_nat n ≡ c ∷ s) × (b'0' ≤ c)
unfolding format_nat
format_nat-head n = first (digits (suc n) n) (digits-ne-nil n n) (digits-All (suc n) n)
  where
    first : (t : Bytes) → t ≢ [] → All IsDigit t → (c : ℕ) × (s : Bytes) × (t ≡ c ∷ s) × (b'0' ≤ c)
    first [] h a = absurd (h refl)
    first (c ∷ s) h a = (c, s, refl, a.0.0)
