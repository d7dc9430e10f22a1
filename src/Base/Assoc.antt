-- ===== src/Base/Assoc.antt =====
-- Go's maps as association lists: an assignment replaces the entry of its key, or appends one.
use mathlib.Core.Path.{◌≡◌, refl}
use mathlib.Core.Bool.{false}
use mathlib.Core.List.{List, [], ◌∷◌, ◌++◌}
use mathlib.Core.Option.{Option, none, some}
use native.Mathlib.Omega.{arith}
use openai_gate.Base.Tests.{if◌then◌else◌}
use openai_gate.Base.Lists.{All}
use openai_gate.Base.Equality.{Eq, ◌==◌}

abbrev pub Assoc {ℓ κ} : Type ℓ → Type κ → Type (ℓ ⊔ κ)
Assoc K V = List (K × V)

module _ {ℓ κ} {K : Type ℓ} {V : Type κ} ⦃e : Eq K⦄ where
  unfoldable pub lookup : K → Assoc K V → Option V
  lookup key [] = none
  lookup key ((other, value) ∷ entries) = if other == key then some value else lookup key entries

  unfoldable pub insert : K → V → Assoc K V → Assoc K V
  insert key value [] = (key, value) ∷ []
  insert key value ((other, old) ∷ entries) =
      if other == key then (key, value) ∷ entries else (other, old) ∷ insert key value entries

  unfoldable pub remove : K → Assoc K V → Assoc K V
  remove key [] = []
  remove key ((other, old) ∷ entries) =
      let rest = remove key entries in if other == key then rest else (other, old) ∷ rest

  pub lookup-insert :
      (key other : K) (value : V) (entries : Assoc K V)
      → lookup other (insert key value entries)
        ≡ (if key == other then some value else lookup other entries)
  unfolding lookup insert
  lookup-insert key other value [] = refl
  lookup-insert key other value ((place, old) ∷ entries) = ground (
    arith,
    e.beq_iff key other,
    e.beq_iff place key,
    e.beq_iff place other,
    lookup-insert key other value entries,
  )

  pub lookup-remove :
      (key other : K) (entries : Assoc K V)
      → lookup other (remove key entries) ≡ (if key == other then none else lookup other entries)
  unfolding lookup remove
  lookup-remove key other [] = ground arith
  lookup-remove key other ((place, old) ∷ entries) = ground (
    arith,
    e.beq_iff key other,
    e.beq_iff place key,
    e.beq_iff place other,
    lookup-remove key other entries,
  )

  -- A key that no entry has is appended.
  pub insert_fresh :
      (key : K) (value : V) (entries : Assoc K V)
      → All (λ (x : K × V). (x.0 == key) ≡ false) entries
      → insert key value entries ≡ entries ++ (key, value) ∷ []
  unfolding insert
  insert_fresh key value [] h = refl
  insert_fresh key value ((place, old) ∷ entries) h =
      ground (arith, insert_fresh key value entries h.1)
