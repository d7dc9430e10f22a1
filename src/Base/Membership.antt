-- ===== src/Base/Membership.antt =====
-- Membership as a sum over the places of a list, and loops that skip elements.
use mathlib.Core.Path.{◌≡◌, refl, sym, ◌∙◌, ap}
use mathlib.Core.Logic.{◌⊎◌, inl, inr}
use mathlib.Core.Bool.{Bool, true, false}
use mathlib.Core.List.{List, [], ◌∷◌, map}
use mathlib.Core.Option.{Option, none, some, some-injective}
use native.Mathlib.Omega.{arith}
use openai_gate.Base.Tests.{Bool-cases}
use openai_gate.Base.Lists.{keep}
use openai_gate.Base.Equality.{Eq, ◌==◌}
use openai_gate.Base.Assoc.{Assoc, lookup, insert, lookup-insert}

abbrev pub In : {A : Type 0} → A → List A → Type 0
In x [] = ⊥
In x (y ∷ ys) = (x ≡ y) ⊎ In x ys

-- A loop that appends the results of the elements that have one.
abbrev pub append_some : {B : Type 0} → Option B → List B → List B
append_some none ys = ys
append_some (some y) ys = y ∷ ys

module _ {A : Type 0} {B : Type 0} (f : A → Option B) where
  unfoldable pub filter_map : List A → List B
  filter_map [] = []
  filter_map (x ∷ xs) = append_some (f x) (filter_map xs)

  pub In-filter_map : (x : A) (y : B) (xs : List A) → In x xs → f x ≡ some y → In y (filter_map xs)
  unfolding filter_map
  In-filter_map x y [] h e = absurd h
  In-filter_map x y (z ∷ xs) (inl h) e = rw (sym (ap f h) ∙ e) (inl refl)
  In-filter_map x y (z ∷ xs) (inr h) e = behind (f z) (In-filter_map x y xs h e)
    where
      behind : (o : Option B) → In y (filter_map xs) → In y (append_some o (filter_map xs))
      behind none g = g
      behind (some w) g = inr g

  pub filter_map-In :
      (y : B) (xs : List A) → In y (filter_map xs) → (x : A) × In x xs × (f x ≡ some y)
  unfolding filter_map
  filter_map-In y [] h = absurd h
  filter_map-In y (z ∷ xs) h = place (f z) refl h (filter_map-In y xs)
    where
      place :
          (o : Option B)
          → f z ≡ o
          → In y (append_some o (filter_map xs))
          → (In y (filter_map xs) → (x : A) × In x xs × (f x ≡ some y))
          → (x : A) × In x (z ∷ xs) × (f x ≡ some y)
      place none e g rest = let (x, i, h) = rest g in (x, inr i, h)
      place (some w) e (inl g) rest = (z, inl refl, e ∙ ap some (sym g))
      place (some w) e (inr g) rest = let (x, i, h) = rest g in (x, inr i, h)

pub In-keep :
    {A : Type 0} (p : A → Bool) (x : A) (xs : List A) → In x xs → p x ≡ true → In x (keep p xs)
In-keep p x [] h e = absurd h
In-keep p x (y ∷ xs) (inl h) e = place (p y) (sym (ap p h) ∙ e)
  where
    place : (b : Bool) → b ≡ true → In x (elim b [ true ↦ y ∷ keep p xs | false ↦ keep p xs ])
    place true g = inl h
    place false g = cc
In-keep p x (y ∷ xs) (inr h) e = place (p y) (In-keep p x xs h e)
  where
    place :
        (b : Bool) → In x (keep p xs) → In x (elim b [ true ↦ y ∷ keep p xs | false ↦ keep p xs ])
    place true g = inr g
    place false g = g

pub keep-In :
    {A : Type 0} (p : A → Bool) (x : A) (xs : List A) → In x (keep p xs) → In x xs × (p x ≡ true)
keep-In p x [] h = absurd h
keep-In p x (y ∷ xs) h = place (p y) refl h (keep-In p x xs)
  where
    place :
        (b : Bool)
        → p y ≡ b
        → In x (elim b [ true ↦ y ∷ keep p xs | false ↦ keep p xs ])
        → (In x (keep p xs) → In x xs × (p x ≡ true))
        → In x (y ∷ xs) × (p x ≡ true)
    place true e (inl g) rest = (inl g, ap p g ∙ e)
    place true e (inr g) rest = (inr (rest g).0, (rest g).1)
    place false e g rest = (inr (rest g).0, (rest g).1)

module _ {K : Type 0} {V : Type 0} ⦃e : Eq K⦄ where
  pub lookup-In : (k : K) (v : V) (m : Assoc K V) → lookup k m ≡ some v → In (k, v) m
  unfolding lookup
  lookup-In k v [] h = cc
  lookup-In k v ((j, w) ∷ m) h = elim (Bool-cases (j == k)) [
    | inl t ↦ inl (ground (arith, e.beq_iff j k))
    | inr t ↦ inr (lookup-In k v m (ground arith))
  ]

-- A loop that assigns to a map what some elements give, and skips the others.
abbrev pub assign : {K : Type 0} {V : Type 0} ⦃e : Eq K⦄ → Option (K × V) → Assoc K V → Assoc K V
assign none m = m
assign (some (k, v)) m = insert k v m

module _ {A : Type 0} {K : Type 0} {V : Type 0} ⦃e : Eq K⦄ (f : A → Option (K × V)) where
  unfoldable pub collect : List A → Assoc K V → Assoc K V
  collect [] m = m
  collect (x ∷ xs) m = collect xs (assign (f x) m)

  -- A key whose value is settled by every element that gives one keeps it.
  collect_kept :
      (k : K) (v : V) (xs : List A) (m : Assoc K V)
      → ((x : A) (w : V) → In x xs → f x ≡ some (k, w) → w ≡ v)
      → lookup k m ≡ some v
      → lookup k (collect xs m) ≡ some v
  unfolding collect
  collect_kept k v [] m same h = h
  collect_kept k v (x ∷ xs) m same h =
      collect_kept k v xs (assign (f x) m) (λ y w i. same y w (inr i)) (one (f x) refl)
    where
      one : (o : Option (K × V)) → f x ≡ o → lookup k (assign o m) ≡ some v
      one none g = h
      one (some (j, w)) g =
          ground (arith, lookup-insert j k w m, e.beq_iff j k, same x w (inl refl), g)

  -- An element gives its key a value: the map has it, if no other element disagrees.
  pub lookup-collect :
      (x : A) (k : K) (v : V) (xs : List A) (m : Assoc K V)
      → In x xs
      → f x ≡ some (k, v)
      → ((y : A) (w : V) → In y xs → f y ≡ some (k, w) → w ≡ v)
      → lookup k (collect xs m) ≡ some v
  unfolding collect
  lookup-collect x k v [] m i h same = absurd i
  lookup-collect x k v (y ∷ xs) m (inl p) h same = rw (sym (ap f p) ∙ h) (
      collect_kept k v xs (insert k v m) (λ z w i. same z w (inr i))
        (ground (arith, lookup-insert k k v m, e.beq_iff k k)))
  lookup-collect x k v (y ∷ xs) m (inr i) h same =
      lookup-collect x k v xs (assign (f y) m) i h (λ z w j. same z w (inr j))

  -- What the map has was given by an element, or was there before.
  pub collect-lookup :
      (k : K) (v : V) (xs : List A) (m : Assoc K V)
      → lookup k (collect xs m) ≡ some v
      → ((x : A) × In x xs × (f x ≡ some (k, v))) ⊎ (lookup k m ≡ some v)
  unfolding collect
  collect-lookup k v [] m h = inr h
  collect-lookup k v (x ∷ xs) m h = elim (collect-lookup k v xs (assign (f x) m) h) [
    | inl (y, i, g) ↦ inl (y, inr i, g)
    | inr g ↦ one (f x) refl g
  ]
    where
      one :
          (o : Option (K × V))
          → f x ≡ o
          → lookup k (assign o m) ≡ some v
          → ((y : A) × In y (x ∷ xs) × (f y ≡ some (k, v))) ⊎ (lookup k m ≡ some v)
      one none p g = inr g
      one (some (j, w)) p g = elim (Bool-cases (j == k)) [
        | inl t ↦ inl (x, inl refl, p ∙ ground (arith, lookup-insert j k w m, e.beq_iff j k))
        | inr t ↦ inr (ground (arith, lookup-insert j k w m))
      ]

  -- The map's value at a key is settled by what the elements give it.
  pub lookup-collect_exact :
      (k : K) (o : Option V) (xs : List A)
      → ((x : A) (w : V) → In x xs → f x ≡ some (k, w) → o ≡ some w)
      → ((v : V) → o ≡ some v → (x : A) × In x xs × (f x ≡ some (k, v)))
      → lookup k (collect xs []) ≡ o
  lookup-collect_exact k (some v) xs sound complete =
      let (x, i, h) = complete v refl in
      lookup-collect x k v xs [] i h (λ y w j g. sym (some-injective _ _ (sound y w j g)))
  lookup-collect_exact k none xs sound complete = absent (lookup k (collect xs [])) refl
    where
      absent : (r : Option V) → lookup k (collect xs []) ≡ r → lookup k (collect xs []) ≡ none
      absent none e = e
      absent (some w) e = elim (collect-lookup k w xs [] e) [
        | inl (x, i, h) ↦ cc (sound x w i h)
        | inr h ↦ unfold lookup in cc h
      ]

pub In-map : {A B : Type 0} (f : A → B) (x : A) (xs : List A) → In x xs → In (f x) (map f xs)
In-map f x [] h = absurd h
In-map f x (y ∷ xs) (inl e) = inl (ap f e)
In-map f x (y ∷ xs) (inr h) = inr (In-map f x xs h)

pub map-In :
    {A B : Type 0} (f : A → B) (y : B) (xs : List A)
    → In y (map f xs)
    → (x : A) × In x xs × (f x ≡ y)
map-In f y [] h = absurd h
map-In f y (x ∷ xs) (inl e) = (x, inl refl, sym e)
map-In f y (x ∷ xs) (inr h) = let (z, i, e) = map-In f y xs h in (z, inr i, e)
