-- ===== src/Tests/Sorting.antt =====
-- An insertion sort, which the runs take for Go's sort.
use openai_gate.Base.{
  ◌≡◌, refl, sym, subst, inl, inr, Bool, true, false, List, [], ◌∷◌, if◌then◌else◌, Bool-cases,
}
use mathlib.Core.List.{Permᴰ}
use mathlib.Core.List.Permᴰ
use openai_gate.Base.Apart.{Apart, Reorders, All-In, In-All, In-perm}

module _ {A : Type 0} (before : A → A → Bool) where
  put : A → List A → List A
  put p [] = p ∷ []
  put p (q ∷ qs) = let rest = put p qs in if before p q then p ∷ q ∷ qs else q ∷ rest

  pub insertion_sort : List A → List A
  unfolding put
  insertion_sort [] = []
  insertion_sort (p ∷ ps) = put p (insertion_sort ps)

  put-perm : (p : A) (ps : List A) → Permᴰ (p ∷ ps) (put p ps)
  unfolding put
  put-perm p [] = Permᴰ.refl (p ∷ [])
  put-perm p (q ∷ qs) = elim (Bool-cases (before p q)) [
    | inl e ↦ rw e (Permᴰ.refl (p ∷ q ∷ qs))
    | inr e ↦ rw e (Permᴰ.trans (Permᴰ.swap refl refl) (Permᴰ.cons refl (put-perm p qs)))
  ]

  pub insertion_sort-perm : Reorders insertion_sort
  unfolding insertion_sort
  insertion_sort-perm [] = Permᴰ.nil
  insertion_sort-perm (p ∷ ps) =
      Permᴰ.trans (Permᴰ.cons refl (insertion_sort-perm ps)) (put-perm p (insertion_sort ps))

  module _ (R : A → A → Type 0) (yes : (a b : A) → before a b ≡ true → R a b)
      (no : (a b : A) → before a b ≡ false → R b a)
      (trans : (a b c : A) → R a b → R b c → R a c) where
    put-Apart : (p : A) (ps : List A) → Apart R ps → Apart R (put p ps)
    unfolding put
    put-Apart p [] h = (tt, tt)
    put-Apart p (q ∷ qs) h = elim (Bool-cases (before p q)) [
      | inl e ↦ rw e (
        (yes p q e, In-All (R p) qs (λ x i. trans p q x (yes p q e) (All-In (R q) x qs h.0 i))),
        h,
      )
      | inr e ↦ rw e (
        In-All (R q) (put p qs) (λ x i. elim (In-perm x (Permᴰ.symm (put-perm p qs)) i) [
          | inl same ↦ subst (R q) (sym same) (no p q e)
          | inr behind ↦ All-In (R q) x qs h.0 behind
        ]),
        put-Apart p qs h.1,
      )
    ]

    pub insertion_sort-Apart : (ps : List A) → Apart R (insertion_sort ps)
    unfolding insertion_sort
    insertion_sort-Apart [] = tt
    insertion_sort-Apart (p ∷ ps) = put-Apart p (insertion_sort ps) (insertion_sort-Apart ps)
