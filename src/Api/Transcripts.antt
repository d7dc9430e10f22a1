-- ===== src/Api/Transcripts.antt =====
-- The transcript that a request is answered with.
use openai_gate.Base.{ℕ, ◌≡◌, false, List, some, bytes_eq, length}
use openai_gate.Base.Assoc.{Assoc}
use openai_gate.Base.Apart.{Apart}
use openai_gate.Text.Order.{bytes_lt}
use openai_gate.Text.Decimal.Natural.{format_nat}
use openai_gate.Text.Decimal.Int.{ℤ, pos, IsInt64, format_int, parse_int}
use openai_gate.Mdbx.{Mdbx}
use openai_gate.Recorder.Timecodes.{◌≤ℤ◌}
use openai_gate.Api.{TranscriptMessage}

-- The comparison of `sort.Slice`: no later message is less than an earlier one.
abbrev pub ByString : TranscriptMessage → TranscriptMessage → Type 0
ByString a b = bytes_lt b.time a.time ≡ false

-- The times that two messages show are in order.
abbrev pub ByTime : TranscriptMessage → TranscriptMessage → Type 0
ByTime a b = (t u : ℤ) → parse_int a.time ≡ some t → parse_int b.time ≡ some u → t ≤ℤ u

-- A time of so many digits.
abbrev pub HasDigits : ℕ → ℤ → Type 0
HasDigits d t = (n : ℕ) × (t ≡ pos n) × (length (format_nat n) ≡ d)

-- A message that shows a time of so many digits.
abbrev Shows : ℕ → TranscriptMessage → Type 0
Shows d a = (t : ℤ) × (a.time ≡ format_int t) × IsInt64 t × HasDigits d t
