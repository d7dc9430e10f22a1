-- ===== src/Mdbx.antt =====
-- The embedded key-value engine (mdbx-go), which the repository only calls: its operations and
-- what its documentation says of them, as a record. A value of `Txn` is a state of the database
-- as a transaction sees it; the position of a cursor is the key that it stands on.
pub mod Ordered
pub mod Reference
use openai_gate.Base.{
  ℕ, ◌≡◌, ◌≢◌, Bool, Option, none, some, Bytes, bytes_eq, Result, ok, err, if◌then◌else◌, ◌==◌,
}
use openai_gate.Base.Assoc.{Assoc, lookup, remove}
use Ordered.{Ascending, first_from, first_above}

-- `not_found` is `mdbx.ErrNotFound` and `failure` any other error of the engine. The last two are
-- the wrapper's: its message "key not found", and a loop of the model that ran out of fuel.
pub data Error : Type 0 where
  not_found : Error
  failure : ℕ → Error
  key_not_found : Error
  out_of_fuel : Error

pub record Mdbx : Type 1 where
  pub Txn : Type 0
  pub begin : Txn → Result Error (Unit {0})
  pub commit : Txn → Result Error Txn
  pub open_cursor : Txn → Result Error (Unit {0})
  pub get : Txn → Bytes → Result Error Bytes
  pub put : Txn → Bytes → Bytes → Result Error Txn
  pub del : Txn → Bytes → Result Error Txn
  pub set_range : Txn → Bytes → Result Error (Bytes × Bytes)
  pub next : Txn → Bytes → Result Error (Bytes × Bytes)
  pub entries : Txn → Assoc Bytes Bytes

abbrev pub found {ℓ} : {A : Type ℓ} → Option A → Result Error A
found none = err not_found
found (some a) = ok a

-- Reads answer from the entries, which are kept in key order; writes that succeed have their
-- effect; `del` answers "not found" only of a key that is missing.
pub record Laws (m : Mdbx) : Type 0 where
  pub ascending : (t : m.Txn) → Ascending (m.entries t)
  pub get_lem : (t : m.Txn) (k : Bytes) → m.get t k ≡ found (lookup k (m.entries t))
  pub set_range_lem : (t : m.Txn) (k : Bytes) → m.set_range t k ≡ found (first_from k (m.entries t))
  pub next_lem : (t : m.Txn) (k : Bytes) → m.next t k ≡ found (first_above k (m.entries t))
  pub put_lem :
      (t t' : m.Txn) (k v j : Bytes)
      → m.put t k v ≡ ok t'
      → lookup j (m.entries t') ≡ (if k == j then some v else lookup j (m.entries t))
  pub del_lem :
      (t t' : m.Txn) (k : Bytes) → m.del t k ≡ ok t' → m.entries t' ≡ remove k (m.entries t)
  pub del_missing :
      (t : m.Txn) (k : Bytes) → m.del t k ≡ err not_found → lookup k (m.entries t) ≡ none
  pub commit_lem : (t t' : m.Txn) → m.commit t ≡ ok t' → m.entries t' ≡ m.entries t
