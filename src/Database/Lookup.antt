-- ===== src/Database/Lookup.antt =====
-- The wrapper's operations as operations on a map from keys to values.
use openai_gate.Base.{
  ◌≡◌, refl, ◌∙◌, ap, inl, inr, true, List, [], ◌∷◌, Option, none, some, arith, Bytes, bytes_eq,
  bytes_beq_iff, ok, err, >>=-eq-ok, keep, if◌then◌else◌, ◌==◌,
}
use openai_gate.Base.Assoc.{lookup, lookup-remove}
use openai_gate.Base.Membership.{In}
use openai_gate.Text.Order.{bytes_lt, bytes_lt-ne, starts_with}
use openai_gate.Mdbx.{Mdbx, Laws, not_found, failure, key_not_found, out_of_fuel}
use openai_gate.Mdbx.Ordered.{Entry, Above, Ascending}
use openai_gate.Database.{Fallible, start_key, set, get, delete, filter, update, del_or_ignore}
use openai_gate.Database.Range.{under, outside}
use openai_gate.Database.Filter.{filter_lem}

pub lookup-keep-under :
    (prefix j : Bytes) (es : List Entry)
    → lookup j (keep (under prefix) es)
      ≡ (if starts_with (start_key prefix) j then lookup j es else none)
unfolding lookup
lookup-keep-under prefix j [] = ground arith
lookup-keep-under prefix j ((k, v) ∷ es) =
    ground (arith, bytes_beq_iff k j, lookup-keep-under prefix j es)

pub lookup-keep-outside :
    (prefix j : Bytes) (es : List Entry)
    → lookup j (keep (outside prefix) es)
      ≡ (if starts_with (start_key prefix) j then none else lookup j es)
unfolding lookup
lookup-keep-outside prefix j [] = ground arith
lookup-keep-outside prefix j ((k, v) ∷ es) =
    ground (arith, bytes_beq_iff k j, lookup-keep-outside prefix j es)

Above-In : (k j v : Bytes) (es : List Entry) → Above k es → In (j, v) es → bytes_lt k j ≡ true
Above-In k j v [] h i = absurd i
Above-In k j v (x ∷ es) h (inl e) = rw (ap (λ (y : Entry). y.0) e) h.0
Above-In k j v (x ∷ es) h (inr i) = Above-In k j v es h.1 i

-- In key order no key occurs twice.
pub In-lookup : (j v : Bytes) (es : List Entry) → Ascending es → In (j, v) es → lookup j es ≡ some v
unfolding lookup
In-lookup j v [] h i = absurd i
In-lookup j v ((k, w) ∷ es) h (inl e) =
    ground (arith, bytes_beq_iff k j, ap (λ (y : Entry). y.0) e, ap (λ (y : Entry). y.1) e)
In-lookup j v ((k, w) ∷ es) h (inr i) =
    ground (arith, bytes_lt-ne k j (Above-In k j v es h.0 i), In-lookup j v es h.1 i)

-- An engine on which a read transaction and a cursor can be opened.
abbrev pub Opens : (m : Mdbx) → m.Txn → Type 0
Opens m db = (m.begin db ≡ ok tt) × (m.open_cursor db ≡ ok tt)

abbrev pub or_missing : Option Bytes → Fallible Bytes
or_missing none = err key_not_found
or_missing (some v) = ok v

module _ (m : Mdbx) (laws : Laws m) where
  update-eq-ok :
      (f : m.Txn → Fallible m.Txn) (db db' : m.Txn)
      → update m f db ≡ ok db'
      → (t : m.Txn) × (f db ≡ ok t) × (m.entries db' ≡ m.entries t)
  unfolding update
  update-eq-ok f db db' h =
      let (_, _, g) = >>=-eq-ok (m.begin db) _ h in
      let (t, e, c) = >>=-eq-ok (f db) (λ t. m.commit t) g in (t, e, laws.commit_lem t db' c)

  pub set_lem :
      (db db' : m.Txn) (k v j : Bytes)
      → set m db k v ≡ ok db'
      → lookup j (m.entries db') ≡ (if k == j then some v else lookup j (m.entries db))
  unfolding set
  set_lem db db' k v j h =
      let (t, e, same) = update-eq-ok (λ t. m.put t k v) db db' h in
      rw same (laws.put_lem db t k v j e)

  pub get_found :
      (db : m.Txn) (k : Bytes)
      → m.begin db ≡ ok tt
      → get m db k ≡ or_missing (lookup k (m.entries db))
  unfolding get
  get_found db k h = ground (arith, h, laws.get_lem db k)

  pub delete_lem :
      (db db' : m.Txn) (k j : Bytes)
      → delete m db k ≡ ok db'
      → lookup j (m.entries db') ≡ (if k == j then none else lookup j (m.entries db))
  unfolding delete
  delete_lem db db' k j h =
      let (t, e, same) = update-eq-ok (λ t. del_or_ignore m t k) db db' h in
      rw same (gone (m.del db k) refl t e)
    where
      gone :
          (r : Fallible m.Txn)
          → m.del db k ≡ r
          → (t : m.Txn) → del_or_ignore m db k ≡ ok t
          → lookup j (m.entries t) ≡ (if k == j then none else lookup j (m.entries db))
      gone (ok t') p t e = ground (arith, laws.del_lem db t k, lookup-remove k j (m.entries db))
      gone (err not_found) p t e = ground (arith, laws.del_missing db k p, bytes_beq_iff k j)
      gone (err (failure n)) p t e = ground arith
      gone (err key_not_found) p t e = ground arith
      gone (err out_of_fuel) p t e = ground arith

  pub filter_ok :
      (db : m.Txn) (prefix : Bytes)
      → Opens m db
      → filter m db prefix ≡ ok (keep (under prefix) (m.entries db))
  filter_ok db prefix h = filter_lem m laws db prefix ∙ ground arith
