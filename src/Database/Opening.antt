-- ===== src/Database/Opening.antt =====
-- internal/store/db.go: `NewDatabase` and `Close`, as the calls of the engine and of the file system
-- that they make. Each call is answered by whether it succeeds.
use openai_gate.Base.{
  ℕ, ◌+◌, ◌*◌, ◌≡◌, Bool, true, false, List, [], ◌∷◌, ◌++◌, arith, Bytes, bytes_eq, codes, Result,
  ok, err, if◌then◌else◌,
}
use openai_gate.Text.Decimal.Int.{ℤ, pos, negsuc}

-- A call of the engine's environment, or of the file system.
pub data EnvCall : Type 0 where
  new_env : Bytes → EnvCall
  set_max_dbs : ℕ → EnvCall
  set_geometry : ℤ → ℤ → ℤ → ℤ → ℤ → ℤ → EnvCall
  mkdir_all : Bytes → ℕ → EnvCall
  open_env : Bytes → ℕ → EnvCall
  create_dbi : Bytes → EnvCall
  close_env : EnvCall

pub data OpenError : Type 0 where
  no_environment : OpenError
  max_databases_refused : OpenError
  geometry_refused : OpenError
  no_directory : OpenError
  not_opened : OpenError
  no_database : OpenError

abbrev geometry : EnvCall
geometry =
    set_geometry (negsuc 0) (pos (100 * 1024 * 1024)) (pos (1024 * 1024 * 1024)) (negsuc 0)
      (negsuc 0) (negsuc 0)

-- The calls that were made, and the result.
pub record Opened : Type 0 where
  pub calls : List EnvCall
  pub outcome : Result OpenError (Unit {0})

-- A call after which an error closes the environment.
guarded : (EnvCall → Bool) → EnvCall → OpenError → Opened → Opened
guarded answers call error later =
    if answers call
    then record { calls = call ∷ later.calls; outcome = later.outcome }
    else record { calls = call ∷ close_env ∷ []; outcome = err error }

abbrev all_done : Opened
all_done = record { calls = []; outcome = ok tt }

-- 0755 and 0664 are 493 and 436.
unfoldable pub new_database : (EnvCall → Bool) → Bytes → Opened
unfolding guarded
new_database answers path =
    let later = guarded answers (set_max_dbs 1) max_databases_refused (
      guarded answers geometry geometry_refused (
        guarded answers (mkdir_all path 493) no_directory (
          guarded answers (open_env path 436) not_opened
            (guarded answers (create_dbi []) no_database all_done)))) in
    if answers (new_env (codes "database"))
    then record { calls = new_env (codes "database") ∷ later.calls; outcome = later.outcome }
    else record { calls = new_env (codes "database") ∷ []; outcome = err no_environment }

-- `Close` of a wrapper whose environment is there or was closed already: whether it is there then.
unfoldable pub close : Bool → List EnvCall × Bool
close true = (close_env ∷ [], false)
close false = ([], false)

-- How often the environment is closed.
abbrev pub closes : List EnvCall → ℕ
closes [] = 0
closes (close_env ∷ calls) = 1 + closes calls
closes (call ∷ calls) = closes calls

-- `NewDatabase` closes the environment that it has created exactly once if a later call fails, and
-- not at all if it succeeds or has created none; after a success the first `Close` closes it, and a
-- second one does nothing.
pub new_database_lem :
    (answers : EnvCall → Bool) (path : Bytes)
    → let r = new_database answers path in
      let (first, left) = close true in
      (r.outcome ≡ ok tt → (closes r.calls ≡ 0) × (closes (r.calls ++ first ++ (close left).0) ≡ 1))
      × ((e : OpenError)
          → r.outcome ≡ err e
          → closes r.calls ≡ (if answers (new_env (codes "database")) then 1 else 0))
unfolding new_database close
new_database_lem answers path = ground arith
