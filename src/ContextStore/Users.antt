-- ===== src/ContextStore/Users.antt =====
-- `GetUserSessions` of internal/store/store.go.
use openai_gate.Base.{
  ◌≡◌, ◌↔◌, ap, ◌∙◌, subst, true, List, [], ◌∷◌, ◌++◌, append_assoc, some, arith, Bytes, bytes_eq,
  codes, ok, keep, map,
}
use openai_gate.Base.Assoc.{Assoc, lookup}
use openai_gate.Base.Membership.{In, In-keep, keep-In, lookup-In, In-map, map-In}
use openai_gate.Text.Order.{starts_with, starts_with-append, starts_with_left}
use openai_gate.Text.Decimal.Int.{ℤ, IsInt64, format_int}
use openai_gate.Mdbx.{Mdbx, Laws}
use openai_gate.Mdbx.Ordered.{Entry}
use openai_gate.Database.{start_key}
use openai_gate.Database.Range.{under}
use openai_gate.Database.Lookup.{Opens, filter_ok, In-lookup}
use openai_gate.ContextStore.Keys.{user_key, user_prefix}
use openai_gate.ContextStore.Parsing.{NoColon, names_under}
use openai_gate.ContextStore.Keyed.{WellKeyed}
use openai_gate.ContextStore.Dialog.{VisitsAll}
use openai_gate.ContextStore.{get_user_sessions}

abbrev user : Bytes
user = codes "user"

under_user :
    (u r : Bytes) (t : ℤ) → starts_with (start_key (user_prefix u r)) (user_key u r t) ≡ true
under_user u r t =
    subst (λ k. starts_with (start_key (user_prefix u r)) k ≡ true)
      (ap (λ (rest : Bytes). user ++ b':' ∷ rest)
        (append_assoc (u ++ b':' ∷ r) (b':' ∷ []) _ ∙ append_assoc u (b':' ∷ r) _))
      (starts_with-append (start_key (user_prefix u r)) (format_int t))

module _ (m : Mdbx) (laws : Laws m) (range : Assoc Bytes Bytes → Assoc Bytes Bytes)
    (visits : VisitsAll range) (db : m.Txn) (u r : Bytes) (hu : NoColon u) (hr : NoColon r)
    (keyed : WellKeyed user (m.entries db)) where
  abbrev held : List Entry
  held = keep (under (user_prefix u r)) (m.entries db)

  listed_stored :
      (id : Bytes)
      → In id (map (λ (x : Entry). x.1) (range held))
      → (t : ℤ) × IsInt64 t × (lookup (user_key u r t) (m.entries db) ≡ some id)
  listed_stored id i =
      let (e, j, same) = map-In (λ (x : Entry). x.1) id (range held) i in
      let (stored, below) = keep-In _ e (m.entries db) ((visits held e).0 j) in
      let found = In-lookup e.0 e.1 (m.entries db) (laws.ascending db) stored in
      let (a, b, t, ha, hb, ht, shape) =
        keyed.at_key e.0 e.1 found
          (starts_with_left (user ++ b':' ∷ []) ((u ++ b':' ∷ r) ++ b':' ∷ []) e.0 below) in
      let (name, source) =
        names_under user u r a b t (omega arith) hu hr ha hb
          (subst (λ x. starts_with (start_key (user_prefix u r)) x ≡ true) shape below) in
      (t, ht, cc (shape, name, source, found, same))

  stored_listed :
      (id : Bytes) (t : ℤ)
      → lookup (user_key u r t) (m.entries db) ≡ some id
      → In id (map (λ (x : Entry). x.1) (range held))
  stored_listed id t found =
      In-map (λ (x : Entry). x.1) (user_key u r t, id) (range held)
        ((visits held _).1 (
          In-keep _ (user_key u r t, id) (m.entries db) (lookup-In _ _ _ found) (under_user u r t)))

  -- On an engine that opens its transactions, with a user and a source type without a colon and a
  -- store whose user keys are all well formed: a session is listed exactly if it is stored for the
  -- user and the source type at some int64 time.
  pub get_user_sessions_lem :
      Opens m db
      → (ids : List Bytes) × (get_user_sessions m range db u r ≡ ok ids)
        × ((id : Bytes)
            → In id ids
              ↔ ((t : ℤ) × IsInt64 t × (lookup (user_key u r t) (m.entries db) ≡ some id)))
  unfolding get_user_sessions
  get_user_sessions_lem opened = (
    map (λ (x : Entry). x.1) (range held),
    ground (arith, filter_ok m laws db (user_prefix u r) opened),
    λ id. (listed_stored id, λ h. stored_listed id h.0 h.2),
  )
