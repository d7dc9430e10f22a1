-- ===== src/Json/Names.antt =====
-- The comparison of names without regard to case, on ASCII letters.
use openai_gate.Base.{ℕ, ◌+◌, Bool, ◌&&◌, map, Bytes, bytes_eq, leb, ◌==◌, if◌then◌else◌}

unfoldable pub lower : ℕ → ℕ
lower c = if leb b'A' c && leb c b'Z' then c + 32 else c

unfoldable pub same_name : Bytes → Bytes → Bool
unfolding lower
same_name a b = map lower a == map lower b
