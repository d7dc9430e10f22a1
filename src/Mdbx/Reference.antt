-- ===== src/Mdbx/Reference.antt =====
-- An engine that keeps its entries in a list in key order, and satisfies the laws of `Mdbx`.
use openai_gate.Base.{
  ◌≡◌, refl, sym, ap, subst, true, false, List, [], ◌∷◌, Option, none, some, arith, Bytes, bytes_eq,
  bytes_beq_iff, Result, ok, err, if◌then◌else◌, if-lem, ◌==◌, ok-injective, All-map,
}
use openai_gate.Base.Assoc.{lookup, remove}
use openai_gate.Text.Order.{bytes_lt, bytes_lt_trans, bytes_lt_total}
use openai_gate.Mdbx.Ordered.{Entry, Above, Ascending, first_from, first_above}
use openai_gate.Mdbx.{Mdbx, Laws, Error, not_found, found}

unfoldable pub put_entry : Bytes → Bytes → List Entry → List Entry
put_entry k v [] = (k, v) ∷ []
put_entry k v ((j, w) ∷ m) =
    let rest = put_entry k v m in
    if bytes_lt k j then (k, v) ∷ (j, w) ∷ m else if j == k then (k, v) ∷ m else (j, w) ∷ rest

put_entry-Above :
    (j k v : Bytes) (m : List Entry) → bytes_lt j k ≡ true → Above j m → Above j (put_entry k v m)
unfolding put_entry
put_entry-Above j k v [] h a = (h, tt)
put_entry-Above j k v ((i, w) ∷ m) h a =
    if-lem (Above j) (bytes_lt k i) _ _ (λ _. (h, a))
      (λ _.
        if-lem (Above j) (i == k) _ _ (λ _. (h, a.1)) (λ _. (a.0, put_entry-Above j k v m h a.1)))

above_other : (j k : Bytes) → bytes_lt k j ≡ false → (j == k) ≡ false → bytes_lt j k ≡ true
above_other j k ge other = ground (arith, bytes_lt_total j k, bytes_beq_iff j k)

pub put_entry-Ascending : (k v : Bytes) (m : List Entry) → Ascending m → Ascending (put_entry k v m)
unfolding put_entry
put_entry-Ascending k v [] h = (tt, tt)
put_entry-Ascending k v ((j, w) ∷ m) h =
    if-lem Ascending (bytes_lt k j) _ _
      (λ lt. ((lt, All-map (λ x g. bytes_lt_trans k j x.0 lt g) m h.0), h))
      (λ ge.
        if-lem Ascending (j == k) _ _
          (λ same. (subst (λ (x : Bytes). Above x m) ((bytes_beq_iff j k).0 same) h.0, h.1))
          (λ other. (
            put_entry-Above j k v m (above_other j k ge other) h.0,
            put_entry-Ascending k v m h.1,
          )))

lookup-put_entry :
    (k v j : Bytes) (m : List Entry)
    → Ascending m
    → lookup j (put_entry k v m) ≡ (if k == j then some v else lookup j m)
unfolding put_entry lookup
lookup-put_entry k v j [] h = refl
lookup-put_entry k v j ((i, w) ∷ m) h =
    ground
      (arith, bytes_beq_iff k j, bytes_beq_iff i k, bytes_beq_iff i j, lookup-put_entry k v j m h.1)

remove-Above : (j k : Bytes) (m : List Entry) → Above j m → Above j (remove k m)
unfolding remove
remove-Above j k [] h = tt
remove-Above j k ((i, w) ∷ m) h =
    if-lem (Above j) (i == k) _ _ (λ _. remove-Above j k m h.1) (λ _. (h.0, remove-Above j k m h.1))

pub remove-Ascending : (k : Bytes) (m : List Entry) → Ascending m → Ascending (remove k m)
unfolding remove
remove-Ascending k [] h = tt
remove-Ascending k ((i, w) ∷ m) h =
    if-lem Ascending (i == k) _ _ (λ _. remove-Ascending k m h.1)
      (λ _. (remove-Above i k m h.0, remove-Ascending k m h.1))

abbrev pub Sorted : Type 0
Sorted = (es : List Entry) × Ascending es

-- A key that no entry has cannot be deleted.
abbrev pub del_found : Sorted → Bytes → Option Bytes → Result Error Sorted
del_found t k none = err not_found
del_found t k (some v) = ok (remove k t.0, remove-Ascending k t.0 t.1)

abbrev pub reference : Mdbx
reference = record {
  Txn = Sorted;
  begin = λ t. ok tt;
  commit = λ t. ok t;
  open_cursor = λ t. ok tt;
  get = λ t k. found (lookup k t.0);
  put = λ t k v. ok (put_entry k v t.0, put_entry-Ascending k v t.0 t.1);
  del = λ t k. del_found t k (lookup k t.0);
  set_range = λ t k. found (first_from k t.0);
  next = λ t k. found (first_above k t.0);
  entries = λ t. t.0;
}

same_entries : (t t' : Sorted) (r : Result Error Sorted) → r ≡ ok t → r ≡ ok t' → t'.0 ≡ t.0
same_entries t t' r h g = ap (λ (x : Sorted). x.0) (sym (ok-injective t t' h g refl))

del_found-ok :
    (t t' : Sorted) (k : Bytes) (o : Option Bytes) → del_found t k o ≡ ok t' → t'.0 ≡ remove k t.0
del_found-ok t t' k none h = absurd (ground arith)
del_found-ok t t' k (some v) h = same_entries (remove k t.0, remove-Ascending k t.0 t.1) t' _ refl h

del_found-missing :
    (t : Sorted) (k : Bytes) (o : Option Bytes) → del_found t k o ≡ err not_found → o ≡ none
del_found-missing t k none h = refl
del_found-missing t k (some v) h = absurd (ground arith)

pub reference_laws : Laws reference
reference_laws = record {
  ascending = λ t. t.1;
  get_lem = λ t k. refl;
  set_range_lem = λ t k. refl;
  next_lem = λ t k. refl;
  put_lem = λ t t' k v j h.
      rw (same_entries (put_entry k v t.0, put_entry-Ascending k v t.0 t.1) t' _ refl h)
        (lookup-put_entry k v j t.0 t.1);
  del_lem = λ t t' k h. del_found-ok t t' k (lookup k t.0) h;
  del_missing = λ t k h. del_found-missing t k (lookup k t.0) h;
  commit_lem = λ t t' h. same_entries t t' _ refl h;
}
