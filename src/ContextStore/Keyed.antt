-- ===== src/ContextStore/Keyed.antt =====
-- The invariant of the store's keys: those of a kind have the shape `kind:name:source:time`, the
-- names free of colons. The operations that write and delete are taken one by one.
use openai_gate.Base.{
  ◌≡◌, subst, inl, inr, true, [], ◌∷◌, ◌++◌, some, arith, Bytes, bytes_eq, bytes_beq_iff, ok,
  Bool-cases, ◌==◌,
}
use openai_gate.Base.Assoc.{Assoc, lookup}
use openai_gate.Text.Order.{starts_with}
use openai_gate.Text.Decimal.Int.{ℤ, IsInt64}
use openai_gate.Mdbx.{Mdbx, Laws}
use openai_gate.Database.{delete_by_prefix}
use openai_gate.Database.Lookup.{set_lem, delete_lem, lookup-keep-outside}
use openai_gate.Database.Delete.{delete_by_prefix_ok}
use openai_gate.Database
use openai_gate.ContextStore.Keys.{timed_key}
use openai_gate.ContextStore.Parsing.{NoColon}

-- A key made from names without a colon and an int64 time.
abbrev pub IsTimedKey : Bytes → Bytes → Type 0
IsTimedKey kind k =
    (a : Bytes) × (b : Bytes) × (t : ℤ) × NoColon a
    × NoColon b
    × IsInt64 t
    × (k ≡ timed_key kind a b t)

pub record WellKeyed (kind : Bytes) (es : Assoc Bytes Bytes) : Type 0 where
  pub at_key :
      (k v : Bytes)
      → lookup k es ≡ some v
      → starts_with (kind ++ b':' ∷ []) k ≡ true
      → IsTimedKey kind k

module _ (m : Mdbx) (laws : Laws m) (kind : Bytes) where
  pub set-WellKeyed :
      (db db' : m.Txn) (k v : Bytes)
      → (starts_with (kind ++ b':' ∷ []) k ≡ true → IsTimedKey kind k)
      → Database.set m db k v ≡ ok db'
      → WellKeyed kind (m.entries db)
      → WellKeyed kind (m.entries db')
  set-WellKeyed db db' k v shape h w = record {
    at_key = λ j u found under. elim (Bool-cases (k == j)) [
      | inl same ↦
          let e : k ≡ j = (bytes_beq_iff k j).0 same in
          subst (IsTimedKey kind) e (shape (rw e under))
      | inr other ↦ w.at_key j u (ground (arith, set_lem m laws db db' k v j h)) under
    ];
  }

  pub delete-WellKeyed :
      (db db' : m.Txn) (k : Bytes)
      → Database.delete m db k ≡ ok db'
      → WellKeyed kind (m.entries db)
      → WellKeyed kind (m.entries db')
  delete-WellKeyed db db' k h w = record {
    at_key = λ j u found under. w.at_key j u (ground (arith, delete_lem m laws db db' k j h)) under;
  }

  pub delete_by_prefix-WellKeyed :
      (db db' : m.Txn) (prefix : Bytes)
      → delete_by_prefix m db prefix ≡ ok db'
      → WellKeyed kind (m.entries db)
      → WellKeyed kind (m.entries db')
  delete_by_prefix-WellKeyed db db' prefix h w = record {
    at_key = λ j u found under.
        w.at_key j u
          (ground (
            arith,
            delete_by_prefix_ok m laws db db' prefix h,
            lookup-keep-outside prefix j (m.entries db),
          ))
          under;
  }
