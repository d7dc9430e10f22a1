-- ===== src/Database.antt =====
-- internal/store/db.go: the wrapper's operations, each in a transaction of its own. A result
-- `ok db'` is the committed state; on an error the transaction is aborted and the caller keeps `db`.
pub mod Range
pub mod Filter
pub mod Delete
pub mod Lookup
pub mod Opening
use openai_gate.Base.{
  ℕ, zero, suc, ◌≡◌, Bool, true, false, [], ◌∷◌, ◌++◌, Bytes, bytes_eq, Result, ok, err, ◌>>=◌,
  ◌>>◌, length,
}
use openai_gate.Base.Assoc.{Assoc, insert}
use openai_gate.Text.Order.{bytes_lt}
use openai_gate.Mdbx.{Mdbx, Error, not_found, failure, key_not_found, out_of_fuel}

abbrev pub Fallible {ℓ} : Type ℓ → Type ℓ
Fallible = Result Error

-- `prefix:` and `prefix;`
abbrev pub start_key : Bytes → Bytes
start_key prefix = prefix ++ b':' ∷ []

abbrev pub end_key : Bytes → Bytes
end_key prefix = prefix ++ b';' ∷ []

-- `IsNotFound` on reading becomes the wrapper's own message.
unfoldable pub hide_missing : Fallible Bytes → Fallible Bytes
hide_missing (ok v) = ok v
hide_missing (err not_found) = err key_not_found
hide_missing (err e) = err e

module _ (m : Mdbx) where
  open m use {Txn}

  -- `env.Update`
  unfoldable pub update : (Txn → Fallible Txn) → Txn → Fallible Txn
  update f db = do m.begin db; t ← f db; m.commit t

  -- `env.View`
  unfoldable pub view {ℓ} : {A : Type ℓ} → (Txn → Fallible A) → Txn → Fallible A
  view f db = do m.begin db; f db

  unfoldable pub set : Txn → Bytes → Bytes → Fallible Txn
  unfolding update
  set db key value = update (λ t. m.put t key value) db

  unfoldable pub get : Txn → Bytes → Fallible Bytes
  unfolding view hide_missing
  get db key = hide_missing (view (λ t. m.get t key) db)

  -- A key that is not there is no error.
  del_or_ignore : Txn → Bytes → Fallible Txn
  del_or_ignore t key = elim (m.del t key) [ ok t' ↦ ok t' | err not_found ↦ ok t | err e ↦ err e ]

  unfoldable pub delete : Txn → Bytes → Fallible Txn
  unfolding update del_or_ignore
  delete db key = update (λ t. del_or_ignore t key) db

  -- The loop of `Filter`, at an entry that the cursor stands on.
  filter_loop : ℕ → Txn → Bytes → Bytes × Bytes → Assoc Bytes Bytes → Fallible (Assoc Bytes Bytes)
  filter_loop zero t stop (key, val) result = err out_of_fuel
  filter_loop (suc f) t stop (key, val) result = elim (bytes_lt key stop) [
    | false ↦ ok result
    | true ↦ elim (m.next t key) [
      | ok e ↦ filter_loop f t stop e (insert key val result)
      | err not_found ↦ ok (insert key val result)
      | err e ↦ err e
    ]
  ]

  filter_scan : Txn → Bytes → Fallible (Assoc Bytes Bytes)
  unfolding filter_loop
  filter_scan t prefix = do
    m.open_cursor t
    elim (m.set_range t (start_key prefix)) [
      | ok e ↦ filter_loop (length (m.entries t)) t (end_key prefix) e []
      | err not_found ↦ ok []
      | err e ↦ err e
    ]

  unfoldable pub filter : Txn → Bytes → Fallible (Assoc Bytes Bytes)
  unfolding view filter_scan
  filter db prefix = view (λ t. filter_scan t prefix) db

  -- The loop of `DeleteByPrefix`.
  delete_loop : ℕ → Txn → Bytes → Bytes → Fallible Txn
  delete_loop zero t stop key = err out_of_fuel
  delete_loop (suc f) t stop key = elim (bytes_lt key stop) [
    | false ↦ ok t
    | true ↦ elim (m.del t key) [
      | ok t' ↦ elim (m.next t' key) [
        | ok (key', val') ↦ delete_loop f t' stop key'
        | err not_found ↦ ok t'
        | err e ↦ err e
      ]
      | err not_found ↦ ok t
      | err e ↦ err e
    ]
  ]

  delete_scan : Txn → Bytes → Fallible Txn
  unfolding delete_loop
  delete_scan t prefix = do
    m.open_cursor t
    elim (m.set_range t (start_key prefix)) [
      | ok (key, val) ↦ delete_loop (length (m.entries t)) t (end_key prefix) key
      | err not_found ↦ ok t
      | err e ↦ err e
    ]

  unfoldable pub delete_by_prefix : Txn → Bytes → Fallible Txn
  unfolding update delete_scan
  delete_by_prefix db prefix = update (λ t. delete_scan t prefix) db
