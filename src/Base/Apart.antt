-- ===== src/Base/Apart.antt =====
-- Lists whose elements are apart from each other in pairs: maps with one entry for each key, and
-- what reordering does to them.
use mathlib.Core.Path.{◌≡◌, refl, sym, ◌∙◌, ap, subst}
use mathlib.Core.Logic.{◌⊎◌, inl, inr}
use mathlib.Core.Bool.{Bool, true, false}
use mathlib.Core.List.{List, [], ◌∷◌, ◌++◌, Permᴰ}
use mathlib.Core.List.Permᴰ.{symm}
use mathlib.Core.Option.{Option, none, some}
use native.Mathlib.Omega.{arith}
use openai_gate.Base.Tests.{Bool-cases}
use openai_gate.Base.Lists.{All, All-append, keep}
use openai_gate.Base.Equality.{Eq, ◌==◌}
use openai_gate.Base.Assoc.{Assoc, lookup, insert}
use openai_gate.Base.Membership.{In, keep-In, assign, collect}

module _ {A : Type 0} where
  pub All-In : (P : A → Type 0) (x : A) (xs : List A) → All P xs → In x xs → P x
  All-In P x [] h i = absurd i
  All-In P x (y ∷ ys) h (inl e) = subst P (sym e) h.0
  All-In P x (y ∷ ys) h (inr i) = All-In P x ys h.1 i

  pub In-All : (P : A → Type 0) (xs : List A) → ((x : A) → In x xs → P x) → All P xs
  In-All P [] h = tt
  In-All P (x ∷ xs) h = (h x (inl refl), In-All P xs (λ y i. h y (inr i)))

  pub In-left : (x : A) (xs ys : List A) → In x xs → In x (xs ++ ys)
  In-left x [] ys i = absurd i
  In-left x (y ∷ xs) ys (inl e) = inl e
  In-left x (y ∷ xs) ys (inr i) = inr (In-left x xs ys i)

  pub In-right : (x : A) (xs ys : List A) → In x ys → In x (xs ++ ys)
  In-right x [] ys i = i
  In-right x (y ∷ xs) ys i = inr (In-right x xs ys i)

  pub append-In : (x : A) (xs ys : List A) → In x (xs ++ ys) → In x xs ⊎ In x ys
  append-In x [] ys i = inr i
  append-In x (y ∷ xs) ys (inl e) = inl (inl e)
  append-In x (y ∷ xs) ys (inr i) = elim (append-In x xs ys i) [
    | inl j ↦ inl (inr j)
    | inr j ↦ inr j
  ]

  pub In-perm : (x : A) {xs ys : List A} → Permᴰ xs ys → In x xs → In x ys
  In-perm x Permᴰ.nil i = i
  In-perm x (Permᴰ.cons e p) (inl h) = inl (h ∙ e)
  In-perm x (Permᴰ.cons e p) (inr i) = inr (In-perm x p i)
  In-perm x (Permᴰ.swap e f) (inl h) = inr (inl (h ∙ e))
  In-perm x (Permᴰ.swap e f) (inr (inl h)) = inl (h ∙ f)
  In-perm x (Permᴰ.swap e f) (inr (inr i)) = inr (inr i)
  In-perm x (Permᴰ.trans p q) i = In-perm x q (In-perm x p i)

  -- A function that reorders a list, as Go's sorting and its loops over maps do.
  abbrev pub Reorders : (List A → List A) → Type 0
  Reorders f = (xs : List A) → Permᴰ xs (f xs)

module _ {A : Type 0} (R : A → A → Type 0) where
  -- Every element stands in the relation to every later one.
  abbrev pub Apart : List A → Type 0
  Apart [] = Unit
  Apart (x ∷ xs) = All (R x) xs × Apart xs

  pub Apart-append :
      (xs ys : List A) → Apart xs → Apart ys → All (λ x. All (R x) ys) xs → Apart (xs ++ ys)
  Apart-append [] ys hx hy h = hy
  Apart-append (x ∷ xs) ys hx hy h =
      (All-append (R x) xs ys hx.0 h.0, Apart-append xs ys hx.1 hy h.1)

  pub Apart-keep : (p : A → Bool) (xs : List A) → Apart xs → Apart (keep p xs)
  Apart-keep p [] h = tt
  Apart-keep p (x ∷ xs) h = place (p x) (Apart-keep p xs h.1)
    where
      place :
          (b : Bool)
          → Apart (keep p xs)
          → Apart (elim b [ true ↦ x ∷ keep p xs | false ↦ keep p xs ])
      place true g =
          (In-All (R x) (keep p xs) (λ y i. All-In (R x) y xs h.0 (keep-In p y xs i).0), g)
      place false g = g

  pub Apart-perm :
      ((x y : A) → R x y → R y x) → {xs ys : List A} → Permᴰ xs ys → Apart xs → Apart ys
  Apart-perm symmetric Permᴰ.nil h = tt
  Apart-perm symmetric (Permᴰ.cons {b} {l₁} {l₂} e p) h = (
    In-All (R b) l₂ (λ y i. subst (λ z. R z y) e (All-In _ y l₁ h.0 (In-perm y (symm p) i))),
    Apart-perm symmetric p h.1,
  )
  Apart-perm symmetric (Permᴰ.swap {a} {b} {a'} {b'} {l} e f) h = (
    (
      subst (λ z. R z b') f (subst (λ z. R b z) e (symmetric a b h.0.0)),
      subst (λ z. All (R z) l) f h.1.0,
    ),
    (subst (λ z. All (R z) l) e h.0.1, h.1.1),
  )
  Apart-perm symmetric (Permᴰ.trans p q) h = Apart-perm symmetric q (Apart-perm symmetric p h)

-- A relation that implies another one on the elements of a list.
pub Apart-imp :
    {A : Type 0} (P : A → Type 0) (R S : A → A → Type 0)
    → ((x y : A) → P x → P y → R x y → S x y)
    → (xs : List A) → All P xs
    → Apart R xs
    → Apart S xs
Apart-imp P R S f [] a h = tt
Apart-imp P R S f (x ∷ xs) a h = (
  In-All (S x) xs (λ y i. f x y a.0 (All-In P y xs a.1 i) (All-In (R x) y xs h.0 i)),
  Apart-imp P R S f xs a.1 h.1,
)

module _ {K : Type 0} {V : Type 0} ⦃e : Eq K⦄ where
  -- A map with one entry for each key.
  abbrev pub OneEach : Assoc K V → Type 0
  OneEach = Apart (λ (x : K × V) (y : K × V). (x.0 == y.0) ≡ false)

  pub OneEach-perm : {l r : Assoc K V} → Permᴰ l r → OneEach l → OneEach r
  OneEach-perm = Apart-perm _ (λ x y h. ground (arith, e.beq_iff x.0 y.0, e.beq_iff y.0 x.0))

  insert-All :
      (other key : K) (value : V) (m : Assoc K V)
      → (other == key) ≡ false
      → All (λ (y : K × V). (other == y.0) ≡ false) m
      → All (λ (y : K × V). (other == y.0) ≡ false) (insert key value m)
  unfolding insert
  insert-All other key value [] h a = (h, tt)
  insert-All other key value ((k, v) ∷ m) h a = elim (Bool-cases (k == key)) [
    | inl same ↦ rw same (h, a.1)
    | inr differs ↦ rw differs (a.0, insert-All other key value m h a.1)
  ]

  insert-OneEach : (key : K) (value : V) (m : Assoc K V) → OneEach m → OneEach (insert key value m)
  unfolding insert
  insert-OneEach key value [] h = (tt, tt)
  insert-OneEach key value ((k, v) ∷ m) h = elim (Bool-cases (k == key)) [
    | inl same ↦
        rw same (
          subst (λ z. All (λ (y : K × V). (z == y.0) ≡ false) m) ((e.beq_iff k key).0 same) h.0,
          h.1,
        )
    | inr differs ↦
        rw differs (insert-All k key value m differs h.0, insert-OneEach key value m h.1)
  ]

  pub In-lookup_each :
      (k : K) (v : V) (m : Assoc K V) → OneEach m → In (k, v) m → lookup k m ≡ some v
  unfolding lookup
  In-lookup_each k v [] h i = absurd i
  In-lookup_each k v ((j, w) ∷ m) h (inl g) =
      ground (arith, e.beq_iff j k, ap (λ (x : K × V). x.0) g, ap (λ (x : K × V). x.1) g)
  In-lookup_each k v ((j, w) ∷ m) h (inr i) =
      ground (
        arith,
        All-In (λ (y : K × V). (j == y.0) ≡ false) (k, v) m h.0 i,
        In-lookup_each k v m h.1 i,
      )

module _ {A : Type 0} {K : Type 0} {V : Type 0} ⦃e : Eq K⦄ (f : A → Option (K × V)) where
  assign-OneEach : (o : Option (K × V)) (m : Assoc K V) → OneEach m → OneEach (assign o m)
  assign-OneEach none m h = h
  assign-OneEach (some (k, v)) m h = insert-OneEach k v m h

  pub collect-OneEach : (xs : List A) (m : Assoc K V) → OneEach m → OneEach (collect f xs m)
  unfolding collect
  collect-OneEach [] m h = h
  collect-OneEach (x ∷ xs) m h = collect-OneEach xs (assign (f x) m) (assign-OneEach (f x) m h)
