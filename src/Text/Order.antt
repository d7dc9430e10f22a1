-- ===== src/Text/Order.antt =====
-- Go's `<` on strings (bytewise, lexicographic) and `strings.HasPrefix`.
use openai_gate.Base.{
  ℕ, ◌+◌, ◌≡◌, refl, Bool, true, false, not, ◌&&◌, [], ◌∷◌, ◌++◌, arith, Bytes, ltb, eqb,
  if◌then◌else◌, bytes_beq,
}

unfoldable pub bytes_lt : Bytes → Bytes → Bool
bytes_lt [] [] = false
bytes_lt [] (y ∷ ys) = true
bytes_lt (x ∷ xs) [] = false
bytes_lt (x ∷ xs) (y ∷ ys) =
    let rest = bytes_lt xs ys in if ltb x y then true else if ltb y x then false else rest

unfoldable pub starts_with : Bytes → Bytes → Bool
starts_with [] s = true
starts_with (p ∷ ps) [] = false
starts_with (p ∷ ps) (c ∷ s) = let rest = starts_with ps s in if eqb p c then rest else false

pub bytes_lt_irrefl : (a : Bytes) → bytes_lt a a ≡ false
unfolding bytes_lt
bytes_lt_irrefl [] = refl
bytes_lt_irrefl (x ∷ xs) = ground (arith, bytes_lt_irrefl xs)

pub bytes_lt_trans :
    (a b c : Bytes) → bytes_lt a b ≡ true → bytes_lt b c ≡ true → bytes_lt a c ≡ true
unfolding bytes_lt
bytes_lt_trans [] [] c h k = ground arith
bytes_lt_trans [] (y ∷ ys) [] h k = ground arith
bytes_lt_trans [] (y ∷ ys) (z ∷ zs) h k = refl
bytes_lt_trans (x ∷ xs) [] c h k = ground arith
bytes_lt_trans (x ∷ xs) (y ∷ ys) [] h k = ground arith
bytes_lt_trans (x ∷ xs) (y ∷ ys) (z ∷ zs) h k = ground (arith, bytes_lt_trans xs ys zs)

pub bytes_lt_total : (a b : Bytes) → bytes_lt a b ≡ false → bytes_lt b a ≡ false → a ≡ b
unfolding bytes_lt
bytes_lt_total [] [] h k = refl
bytes_lt_total [] (y ∷ ys) h k = ground arith
bytes_lt_total (x ∷ xs) [] h k = ground arith
bytes_lt_total (x ∷ xs) (y ∷ ys) h k = ground (arith, bytes_lt_total xs ys)

-- A key that is not below a bound stays so at every larger key.
pub bytes_lt_mono :
    (a b c : Bytes) → bytes_lt a b ≡ true → bytes_lt a c ≡ false → bytes_lt b c ≡ false
unfolding bytes_lt
bytes_lt_mono [] [] c h k = ground arith
bytes_lt_mono [] (y ∷ ys) [] h k = refl
bytes_lt_mono [] (y ∷ ys) (z ∷ zs) h k = ground arith
bytes_lt_mono (x ∷ xs) [] c h k = ground arith
bytes_lt_mono (x ∷ xs) (y ∷ ys) [] h k = refl
bytes_lt_mono (x ∷ xs) (y ∷ ys) (z ∷ zs) h k = ground (arith, bytes_lt_mono xs ys zs)

pub bytes_lt-ne : (a b : Bytes) → bytes_lt a b ≡ true → bytes_beq a b ≡ false
unfolding bytes_lt bytes_beq
bytes_lt-ne [] [] h = ground arith
bytes_lt-ne [] (y ∷ ys) h = refl
bytes_lt-ne (x ∷ xs) [] h = refl
bytes_lt-ne (x ∷ xs) (y ∷ ys) h = ground (arith, bytes_lt-ne xs ys)

pub starts_with-append : (p s : Bytes) → starts_with p (p ++ s) ≡ true
unfolding starts_with
starts_with-append [] s = refl
starts_with-append (c ∷ p) s = ground (arith, starts_with-append p s)

-- The half-open range between `prefix ++ [c]` and `prefix ++ [c + 1]` holds exactly the strings
-- that begin with `prefix ++ [c]`.
pub range-starts_with :
    (p k : Bytes) (c : ℕ)
    → not (bytes_lt k (p ++ c ∷ [])) && bytes_lt k (p ++ (c + 1) ∷ []) ≡ starts_with (p ++ c ∷ []) k
unfolding bytes_lt starts_with
range-starts_with [] [] c = refl
range-starts_with [] (x ∷ []) c = ground arith
range-starts_with [] (x ∷ y ∷ k) c = ground arith
range-starts_with (q ∷ p) [] c = refl
range-starts_with (q ∷ p) (x ∷ k) c = ground (arith, range-starts_with p k c)

pub starts_with_left : (p q k : Bytes) → starts_with (p ++ q) k ≡ true → starts_with p k ≡ true
unfolding starts_with
starts_with_left [] q k h = refl
starts_with_left (c ∷ p) q [] h = ground arith
starts_with_left (c ∷ p) q (d ∷ k) h = ground (arith, starts_with_left p q k)
