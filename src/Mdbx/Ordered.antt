-- ===== src/Mdbx/Ordered.antt =====
-- Entries in key order, and what a cursor finds in them.
use openai_gate.Base.{
  ◌≡◌, refl, ◌∙◌, Bool, true, false, List, [], ◌∷◌, ◌++◌, Option, none, some, arith, ◌⊎◌, inl, inr,
  Bytes, if◌then◌else◌, All, All-append_right, head?, bytes_beq_iff, bytes_eq,
}
use openai_gate.Base.Assoc.{lookup, remove}
use openai_gate.Text.Order.{bytes_lt, bytes_lt_irrefl, bytes_lt_mono, bytes_lt-ne}

abbrev pub Entry : Type 0
Entry = Bytes × Bytes

abbrev pub Above : Bytes → List Entry → Type 0
Above k = All (λ (x : Entry). bytes_lt k x.0 ≡ true)

abbrev pub Below : Bytes → List Entry → Type 0
Below k = All (λ (x : Entry). bytes_lt x.0 k ≡ true)

abbrev pub Ascending : List Entry → Type 0
Ascending [] = Unit
Ascending ((k, v) ∷ m) = Above k m × Ascending m

-- The first entry whose key is not below `k`.
unfoldable pub first_from : Bytes → List Entry → Option Entry
first_from k [] = none
first_from k ((j, v) ∷ m) = let rest = first_from k m in if bytes_lt j k then rest else some (j, v)

-- The first entry whose key is above `k`.
unfoldable pub first_above : Bytes → List Entry → Option Entry
first_above k [] = none
first_above k ((j, v) ∷ m) =
    let rest = first_above k m in if bytes_lt k j then some (j, v) else rest

pub bytes_lt_asym : (a b : Bytes) → bytes_lt a b ≡ true → bytes_lt b a ≡ false
bytes_lt_asym a b h = bytes_lt_mono a b a h (bytes_lt_irrefl a)

pub Ascending-right : (pre rest : List Entry) → Ascending (pre ++ rest) → Ascending rest
Ascending-right [] rest h = h
Ascending-right ((k, v) ∷ pre) rest h = Ascending-right pre rest h.1

-- The entries before a key are below it.
pub Ascending-Below :
    (pre : List Entry) (k v : Bytes) (rest : List Entry)
    → Ascending (pre ++ (k, v) ∷ rest)
    → Below k pre
Ascending-Below [] k v rest h = tt
Ascending-Below ((j, w) ∷ pre) k v rest h = (
  (All-append_right (λ (x : Entry). bytes_lt j x.0 ≡ true) pre ((k, v) ∷ rest) h.0).0,
  Ascending-Below pre k v rest h.1,
)

first_above_head : (k : Bytes) (rest : List Entry) → Above k rest → first_above k rest ≡ head? rest
unfolding first_above
first_above_head k [] h = refl
first_above_head k ((j, v) ∷ rest) h = ground arith

first_above_skip :
    (k : Bytes) (pre rest : List Entry)
    → Below k pre
    → first_above k (pre ++ rest) ≡ first_above k rest
unfolding first_above
first_above_skip k [] rest h = refl
first_above_skip k ((j, w) ∷ pre) rest h =
    ground (arith, bytes_lt_asym j k h.0, first_above_skip k pre rest h.1)

first_above_self :
    (k v : Bytes) (rest : List Entry) → first_above k ((k, v) ∷ rest) ≡ first_above k rest
unfolding first_above
first_above_self k v rest = ground (arith, bytes_lt_irrefl k)

-- From an entry, the cursor moves to the one behind it.
pub first_above_next :
    (pre : List Entry) (k v : Bytes) (rest : List Entry)
    → Ascending (pre ++ (k, v) ∷ rest)
    → first_above k (pre ++ (k, v) ∷ rest) ≡ head? rest
first_above_next pre k v rest h =
    first_above_skip k pre _ (Ascending-Below pre k v rest h)
    ∙ first_above_self k v rest
    ∙ first_above_head k rest (Ascending-right pre _ h).0

lookup-Below :
    (k : Bytes) (pre rest : List Entry) → Below k pre → lookup k (pre ++ rest) ≡ lookup k rest
unfolding lookup
lookup-Below k [] rest h = refl
lookup-Below k ((j, w) ∷ pre) rest h =
    ground (arith, bytes_lt-ne j k h.0, lookup-Below k pre rest h.1)

pub lookup_at :
    (pre : List Entry) (k v : Bytes) (rest : List Entry)
    → Ascending (pre ++ (k, v) ∷ rest)
    → lookup k (pre ++ (k, v) ∷ rest) ≡ some v
lookup_at pre k v rest h =
    lookup-Below k pre _ (Ascending-Below pre k v rest h)
    ∙ unfold lookup in ground (arith, bytes_beq_iff k k)

remove-Above : (k : Bytes) (rest : List Entry) → Above k rest → remove k rest ≡ rest
unfolding remove
remove-Above k [] h = refl
remove-Above k ((j, w) ∷ rest) h =
    ground (arith, bytes_lt_irrefl k, bytes_beq_iff j k, remove-Above k rest h.1)

-- Removing the entry at a place leaves those around it.
pub remove_at :
    (pre : List Entry) (k v : Bytes) (rest : List Entry)
    → Ascending (pre ++ (k, v) ∷ rest)
    → remove k (pre ++ (k, v) ∷ rest) ≡ pre ++ rest
unfolding remove
remove_at [] k v rest h = ground (arith, bytes_beq_iff k k, remove-Above k rest h.0)
remove_at ((j, w) ∷ pre) k v rest h = ground (
  arith,
  bytes_lt-ne j k (Ascending-Below ((j, w) ∷ pre) k v rest h).0,
  remove_at pre k v rest h.1,
)

-- What `first_from` finds splits the entries into those below the bound and the rest.
pub first_from-cases :
    (k : Bytes) (m : List Entry)
    → ((first_from k m ≡ none) × Below k m)
      ⊎ ((pre : List Entry) × (e : Entry) × (rest : List Entry) × (first_from k m ≡ some e)
          × (m ≡ pre ++ e ∷ rest)
          × Below k pre
          × (bytes_lt e.0 k ≡ false))
unfolding first_from
first_from-cases k [] = inl (refl, tt)
first_from-cases k ((j, v) ∷ m) = split (bytes_lt j k) refl (first_from-cases k m)
  where
    split :
        (b : Bool)
        → bytes_lt j k ≡ b
        → ((first_from k m ≡ none) × Below k m)
          ⊎ ((pre : List Entry) × (e : Entry) × (rest : List Entry) × (first_from k m ≡ some e)
              × (m ≡ pre ++ e ∷ rest)
              × Below k pre
              × (bytes_lt e.0 k ≡ false))
        → ((first_from k ((j, v) ∷ m) ≡ none) × Below k ((j, v) ∷ m))
          ⊎ ((pre : List Entry) × (e : Entry) × (rest : List Entry) × (first_from k ((j, v) ∷ m)
                ≡ some e)
              × ((j, v) ∷ m ≡ pre ++ e ∷ rest)
              × Below k pre
              × (bytes_lt e.0 k ≡ false))
    split false e _ = inr ([], (j, v), m, rw e, refl, tt, e)
    split true e (inl (n, b)) = inl (ground arith, (e, b))
    split true e (inr (pre, x, rest, f, eq, b, g)) =
        inr ((j, v) ∷ pre, x, rest, ground arith, ground arith, (e, b), g)

-- A cursor whose entry has been removed moves to the entry that was behind it.
pub first_above_gap :
    (pre : List Entry) (k v : Bytes) (rest : List Entry)
    → Ascending (pre ++ (k, v) ∷ rest)
    → first_above k (pre ++ rest) ≡ head? rest
first_above_gap pre k v rest h =
    first_above_skip k pre rest (Ascending-Below pre k v rest h)
    ∙ first_above_head k rest (Ascending-right pre _ h).0
