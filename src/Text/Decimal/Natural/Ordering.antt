-- ===== src/Text/Decimal/Natural/Ordering.antt =====
-- The order of decimals as strings, against their order as numbers.
use openai_gate.Base.{
  ℕ, suc, ◌+◌, ◌-◌, ◌*◌, ◌<◌, ◌≡◌, sym, subst, Bool-cases, ◌⊎◌, inl, inr, [], ◌∷◌, some, arith,
  Bytes, All, length, ltb,
}
use openai_gate.Text.Order.{bytes_lt}
use openai_gate.Text.Decimal.Natural.{format_nat, digits-All, IsDigit, scan, scan-digits}

scan-lt :
    (s t : Bytes) (n k x y : ℕ)
    → All IsDigit s
    → All IsDigit t
    → length s ≡ length t
    → scan s n ≡ some x
    → scan t k ≡ some y
    → n < k
    → x < y
unfolding scan
scan-lt [] [] n k x y ds dt e hx hy h = ground (arith, hx, hy)
scan-lt [] (d ∷ t) n k x y ds dt e hx hy h = absurd (omega arith)
scan-lt (c ∷ s) [] n k x y ds dt e hx hy h = absurd (omega arith)
scan-lt (c ∷ s) (d ∷ t) n k x y ds dt e hx hy h =
    scan-lt s t (n * 10 + (c - b'0')) (k * 10 + (d - b'0')) x y ds.1 dt.1 (omega arith)
      (ground (arith, hx, ds.0)) (ground (arith, hy, dt.0)) (omega arith)

compare_cases : (c d : ℕ) → (c < d) ⊎ (c ≡ d) ⊎ (d < c)
compare_cases c d = elim (Bool-cases (ltb c d)) [
  | inl lt ↦ inl (ground (arith, lt))
  | inr le ↦ elim (Bool-cases (ltb d c)) [
    | inl gt ↦ inr (inr (ground (arith, gt)))
    | inr ge ↦ inr (inl (ground (arith, le, ge)))
  ]
]

bytes_lt-scan :
    (s t : Bytes) (n x y : ℕ)
    → All IsDigit s
    → All IsDigit t
    → length s ≡ length t
    → scan s n ≡ some x
    → scan t n ≡ some y
    → bytes_lt s t ≡ ltb x y
unfolding scan bytes_lt
bytes_lt-scan [] [] n x y ds dt e hx hy = ground (arith, hx, hy)
bytes_lt-scan [] (d ∷ t) n x y ds dt e hx hy = absurd (omega arith)
bytes_lt-scan (c ∷ s) [] n x y ds dt e hx hy = absurd (omega arith)
bytes_lt-scan (c ∷ s) (d ∷ t) n x y ds dt e hx hy =
    let hs : scan s (n * 10 + (c - b'0')) ≡ some x = ground (arith, hx, ds.0) in
    let ht : scan t (n * 10 + (d - b'0')) ≡ some y = ground (arith, hy, dt.0) in
    let up =
      scan-lt s t (n * 10 + (c - b'0')) (n * 10 + (d - b'0')) x y ds.1 dt.1 (omega arith) hs ht in
    let down =
      scan-lt t s (n * 10 + (d - b'0')) (n * 10 + (c - b'0')) y x dt.1 ds.1 (omega arith) ht hs in
    elim (compare_cases c d) [
      | inl lt ↦ ground (arith, up (omega arith), lt)
      | inr (inl eq) ↦ ground (
        arith,
        eq,
        bytes_lt-scan s t (n * 10 + (c - b'0')) x y ds.1 dt.1 (omega arith) hs
            (subst (λ z. scan t (n * 10 + (z - b'0')) ≡ some y) (sym eq) ht),
      )
      | inr (inr gt) ↦ ground (arith, down (omega arith), gt)
    ]

-- Decimals with equally many digits are ordered as strings as their numbers are.
pub bytes_lt-format_nat :
    (n k : ℕ)
    → length (format_nat n) ≡ length (format_nat k)
    → bytes_lt (format_nat n) (format_nat k) ≡ ltb n k
unfolding format_nat
bytes_lt-format_nat n k e =
    bytes_lt-scan _ _ 0 n k (digits-All (suc n) n) (digits-All (suc k) k) e
      (scan-digits (suc n) n (omega arith)) (scan-digits (suc k) k (omega arith))
