-- ===== src/ContextStore/Contexts.antt =====
-- Contexts by phone number: a map behind `SetContext`, `GetContext`, `DeleteContext`, `ListContexts`.
use openai_gate.Base.{
  ℕ, ◌≡◌, ◌≢◌, sym, ap, ◌∙◌, true, List, [], ◌∷◌, Option, none, some, arith, Bytes, bytes_eq,
  bytes_beq, bytes_beq_iff, codes, ok, err, if◌then◌else◌, ◌==◌, keep,
}
use openai_gate.Base.Assoc.{Assoc, lookup}
use openai_gate.Base.Membership.{In, In-keep, keep-In, lookup-In, collect, lookup-collect_exact}
use openai_gate.Text.Order.{starts_with, starts_with-append}
use openai_gate.Mdbx.{Mdbx, Laws, key_not_found}
use openai_gate.Mdbx.Ordered.{Entry}
use openai_gate.Database.{start_key}
use openai_gate.Database.Range.{under}
use openai_gate.Database.Lookup.{Opens, filter_ok, set_lem, get_found, delete_lem, In-lookup}
use openai_gate.ContextStore.Keys.{context_key}
use openai_gate.ContextStore.Parsing.{starts_with-cases}
use openai_gate.ContextStore.Dialog.{VisitsAll}
use openai_gate.ContextStore.{context_of, set_context, get_context, delete_context, list_contexts}

abbrev context : Bytes
context = codes "context"

module _ (m : Mdbx) (laws : Laws m) (db db' : m.Txn) where
  -- After a context is set for a phone, it is read back, and other phones have what they had.
  pub get_context-set :
      (phone c : Bytes)
      → m.begin db ≡ ok tt
      → m.begin db' ≡ ok tt
      → set_context m db phone c ≡ ok db'
      → (get_context m db' phone ≡ ok c)
        × ((other : Bytes) → phone ≢ other → get_context m db' other ≡ get_context m db other)
  unfolding set_context get_context
  get_context-set phone c began began' h = (
    ground (
      arith,
      get_found m laws db' (context_key phone) began',
      set_lem m laws db db' (context_key phone) c (context_key phone) h,
      bytes_beq_iff (context_key phone) (context_key phone),
    ),
    λ other ne. ground (
      arith,
      get_found m laws db' (context_key other) began',
      get_found m laws db (context_key other) began,
      set_lem m laws db db' (context_key phone) c (context_key other) h,
      bytes_beq_iff (context_key phone) (context_key other),
    ),
  )

  -- After a context is deleted, its phone is reported as not found, and others have what they had.
  pub get_context-delete :
      (phone : Bytes)
      → m.begin db ≡ ok tt
      → m.begin db' ≡ ok tt
      → delete_context m db phone ≡ ok db'
      → (get_context m db' phone ≡ err key_not_found)
        × ((other : Bytes) → phone ≢ other → get_context m db' other ≡ get_context m db other)
  unfolding delete_context get_context
  get_context-delete phone began began' h = (
    ground (
      arith,
      get_found m laws db' (context_key phone) began',
      delete_lem m laws db db' (context_key phone) (context_key phone) h,
      bytes_beq_iff (context_key phone) (context_key phone),
    ),
    λ other ne. ground (
      arith,
      get_found m laws db' (context_key other) began',
      get_found m laws db (context_key other) began,
      delete_lem m laws db db' (context_key phone) (context_key other) h,
      bytes_beq_iff (context_key phone) (context_key other),
    ),
  )

-- The loop of `ListContexts` gives an entry its phone, if that is not empty.
context_of-key :
    (c : ℕ) (phone v : Bytes) → context_of (context_key (c ∷ phone), v) ≡ some (c ∷ phone, v)
unfolding context_of
context_of-key c phone v = ground arith

context_of-empty : (v : Bytes) → context_of (context_key [], v) ≡ none
unfolding context_of
context_of-empty v = ground arith

context_of-entry :
    (rest v phone w : Bytes)
    → context_of (context_key rest, v) ≡ some (phone, w)
    → (rest ≡ phone) × (v ≡ w) × (phone ≢ [])
context_of-entry [] v phone w h = absurd (cc (context_of-empty v))
context_of-entry (c ∷ rest) v phone w h =
    let e : ◌≡◌ {A = Option (Bytes × Bytes)} (some (c ∷ rest, v)) (some (phone, w)) =
      sym (context_of-key c rest v) ∙ h in
    (cc, cc, λ n. cc)

under_context : (phone : Bytes) → starts_with (start_key context) (context_key phone) ≡ true
under_context phone = starts_with-append (start_key context) phone

module _ (m : Mdbx) (laws : Laws m) (range : Assoc Bytes Bytes → Assoc Bytes Bytes)
    (visits : VisitsAll range) (db : m.Txn) where
  abbrev held : List Entry
  held = keep (under context) (m.entries db)

  visited :
      (e : Entry) (phone w : Bytes)
      → In e (range held)
      → context_of e ≡ some (phone, w)
      → (lookup (context_key phone) (m.entries db) ≡ some w) × (phone ≢ [])
  visited e phone w i h =
      let (stored, below) = keep-In _ e (m.entries db) ((visits held e).0 i) in
      let found = In-lookup e.0 e.1 (m.entries db) (laws.ascending db) stored in
      let (rest, shape) = starts_with-cases _ e.0 below in
      let (name, value, ne) =
        context_of-entry rest e.1 phone w
          (ap (λ (k : Bytes). context_of (k, e.1)) (sym shape) ∙ h) in
      (cc (shape, name, value, found), ne)

  context_at : Bytes → Option Bytes
  context_at phone = if phone == [] then none else lookup (context_key phone) (m.entries db)

  visited_at :
      (e : Entry) (phone w : Bytes)
      → In e (range held)
      → context_of e ≡ some (phone, w)
      → context_at phone ≡ some w
  unfolding context_at
  visited_at e phone w i h =
      let (found, ne) = visited e phone w i h in ground (arith, bytes_beq_iff phone [])

  stored_visited :
      (phone v : Bytes)
      → context_at phone ≡ some v
      → (e : Entry) × In e (range held) × (context_of e ≡ some (phone, v))
  unfolding context_at bytes_beq
  stored_visited [] v h = absurd (cc h)
  stored_visited (c ∷ phone) v h = (
    (context_key (c ∷ phone), v),
    (visits held _).1 (
        In-keep _ (context_key (c ∷ phone), v) (m.entries db) (lookup-In _ _ _ h)
          (under_context (c ∷ phone))),
    context_of-key c phone v,
  )

  -- On an engine that opens its transactions, `ListContexts` returns, for every phone that is
  -- not empty, the context that is stored for it, and nothing for the empty phone.
  pub list_contexts_lem :
      Opens m db
      → (contexts : Assoc Bytes Bytes) × (list_contexts m range db ≡ ok contexts)
        × ((phone : Bytes)
            → lookup phone contexts
              ≡ (if phone == [] then none else lookup (context_key phone) (m.entries db)))
  unfolding list_contexts context_at
  list_contexts_lem opened = (
    collect context_of (range held) [],
    ground (arith, filter_ok m laws db context opened),
    λ phone.
        lookup-collect_exact context_of phone (context_at phone) (range held)
          (λ e w i h. visited_at e phone w i h) (λ v h. stored_visited phone v h),
  )
