-- ===== src/Database/Range.antt =====
-- The entries of one prefix, and what a scan from `prefix:` up to `prefix;` sees of them.
use openai_gate.Base.{◌≡◌, refl, Bool, false, not, List, [], ◌∷◌, arith, Bytes, keep, All, All-map}
use openai_gate.Text.Order.{bytes_lt, bytes_lt_mono, starts_with, range-starts_with}
use openai_gate.Mdbx.Ordered.{Entry, Above, Below}
use openai_gate.Database.{start_key, end_key}

-- The key begins with `prefix:`.
abbrev pub under : Bytes → Entry → Bool
under prefix x = starts_with (start_key prefix) x.0

abbrev pub outside : Bytes → Entry → Bool
outside prefix x = not (starts_with (start_key prefix) x.0)

-- The key is before `prefix;`, where the scans stop.
abbrev pub before : Bytes → Entry → Bool
before prefix x = bytes_lt x.0 (end_key prefix)

abbrev pub FromStart : Bytes → List Entry → Type 0
FromStart prefix = All (λ (x : Entry). bytes_lt x.0 (start_key prefix) ≡ false)

abbrev pub FromEnd : Bytes → List Entry → Type 0
FromEnd prefix = All (λ (x : Entry). bytes_lt x.0 (end_key prefix) ≡ false)

-- Nothing below `prefix:` is in the range.
pub keep-under-Below :
    (prefix : Bytes) (pre : List Entry)
    → Below (start_key prefix) pre
    → keep (under prefix) pre ≡ []
keep-under-Below prefix [] h = refl
keep-under-Below prefix ((k, v) ∷ pre) h =
    ground (arith, range-starts_with prefix k b':', keep-under-Below prefix pre h.1)

pub keep-outside-Below :
    (prefix : Bytes) (pre : List Entry)
    → Below (start_key prefix) pre
    → keep (outside prefix) pre ≡ pre
keep-outside-Below prefix [] h = refl
keep-outside-Below prefix ((k, v) ∷ pre) h =
    ground (arith, range-starts_with prefix k b':', keep-outside-Below prefix pre h.1)

-- From `prefix:` on, being in the range is being before `prefix;`.
pub under-before :
    (prefix k : Bytes)
    → bytes_lt k (start_key prefix) ≡ false
    → starts_with (start_key prefix) k ≡ bytes_lt k (end_key prefix)
under-before prefix k h = ground (arith, range-starts_with prefix k b':')

-- Nothing from `prefix;` on is in the range.
pub keep-under-FromEnd :
    (prefix : Bytes) (xs : List Entry)
    → FromEnd prefix xs
    → FromStart prefix xs
    → keep (under prefix) xs ≡ []
keep-under-FromEnd prefix [] h g = refl
keep-under-FromEnd prefix ((k, v) ∷ xs) h g =
    ground (arith, under-before prefix k g.0, keep-under-FromEnd prefix xs h.1 g.1)

pub keep-outside-FromEnd :
    (prefix : Bytes) (xs : List Entry)
    → FromEnd prefix xs
    → FromStart prefix xs
    → keep (outside prefix) xs ≡ xs
keep-outside-FromEnd prefix [] h g = refl
keep-outside-FromEnd prefix ((k, v) ∷ xs) h g =
    ground (arith, under-before prefix k g.0, keep-outside-FromEnd prefix xs h.1 g.1)

-- What is not below a bound at one key is not below it further on.
pub Above-bound :
    (k bound : Bytes) (xs : List Entry)
    → bytes_lt k bound ≡ false
    → Above k xs
    → All (λ (x : Entry). bytes_lt x.0 bound ≡ false) xs
Above-bound k bound xs h = All-map (λ x g. bytes_lt_mono k x.0 bound g h) xs
