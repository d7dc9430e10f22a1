-- ===== src/ContextStore/Dialog.antt =====
-- Phrases: what `GetDialogTexts` returns of what `SaveDialogPhrase` stored.
use mathlib.Core.Option.{some-injective}
use openai_gate.Base.{
  ◌≡◌, ◌↔◌, sym, ap, ◌∙◌, subst, true, List, [], ◌∷◌, ◌++◌, append_assoc, some, arith, Bytes,
  bytes_eq, codes, ok, keep,
}
use openai_gate.Base.Assoc.{Assoc, lookup}
use openai_gate.Base.Membership.{
  In, filter_map, In-filter_map, filter_map-In, In-keep, keep-In, lookup-In,
}
use openai_gate.Text.Order.{starts_with, starts_with-append, starts_with_left}
use openai_gate.Text.Decimal.Int.{ℤ, IsInt64, format_int}
use openai_gate.Mdbx.{Mdbx, Laws}
use openai_gate.Database.{start_key}
use openai_gate.Database.Range.{under}
use openai_gate.Database.Lookup.{Opens, filter_ok, In-lookup}
use openai_gate.ContextStore.Keys.{text_key, text_prefix}
use openai_gate.ContextStore.Parsing.{NoColon, name_under, phrase_of-timed_key}
use openai_gate.ContextStore.Keyed.{IsTimedKey, WellKeyed}
use openai_gate.ContextStore.{DialogPhrase, phrase_of, get_dialog_texts}

-- An iteration order visits exactly the entries of the map.
abbrev pub VisitsAll : {A : Type 0} → (List A → List A) → Type 0
VisitsAll {A} range = (es : List A) (x : A) → In x (range es) ↔ In x es

abbrev text : Bytes
text = codes "text"

-- A key of session `s` lies under its prefix, and under the kind's.
pub under_text :
    (s b : Bytes) (t : ℤ) → starts_with (start_key (text_prefix s)) (text_key s b t) ≡ true
under_text s b t =
    subst (λ k. starts_with (start_key (text_prefix s)) k ≡ true)
      (ap (λ (rest : Bytes). text ++ b':' ∷ rest) (append_assoc s (b':' ∷ []) _))
      (starts_with-append (start_key (text_prefix s)) (b ++ b':' ∷ format_int t))

-- The entry of a phrase.
abbrev entry_of : Bytes → DialogPhrase → Bytes × Bytes
entry_of s p = (text_key s p.source p.time, p.phrase)

-- What a phrase made from an entry under the prefix of `s` says of that entry.
phrase_of-entry :
    (s : Bytes) (e : Bytes × Bytes) (p : DialogPhrase)
    → NoColon s
    → IsTimedKey text e.0
    → starts_with (start_key (text_prefix s)) e.0 ≡ true
    → phrase_of e ≡ some p
    → NoColon p.source × IsInt64 p.time × (e ≡ entry_of s p)
phrase_of-entry s (k, v) p plain (a, b, t, ha, hb, ht, shape) below h =
    let same =
      name_under text s a b t (omega arith) plain ha hb
        (subst (λ x. starts_with (start_key (text_prefix s)) x ≡ true) shape below) in
    let made = phrase_of-timed_key text a b v t (omega arith) ha hb ht in
    let made' : some (record { time = t; source = b; phrase = v }) ≡ some p =
      sym made ∙ ap (λ (x : Bytes). phrase_of (x, v)) (sym shape) ∙ h in
    subst (λ (q : DialogPhrase). NoColon q.source × IsInt64 q.time × ((k, v) ≡ entry_of s q))
      (some-injective _ _ made')
      (hb, ht, ap (λ (x : Bytes). (x, v)) (shape ∙ ap (λ (n : Bytes). text_key n b t) same))

module _ (m : Mdbx) (laws : Laws m) (range : Assoc Bytes Bytes → Assoc Bytes Bytes)
    (visits : VisitsAll range) where
  module _ (db : m.Txn) (s : Bytes) (plain : NoColon s) where
    abbrev held : List (Bytes × Bytes)
    held = keep (under (text_prefix s)) (m.entries db)

    phrase_stored :
        WellKeyed text (m.entries db)
        → (p : DialogPhrase) → In p (filter_map phrase_of (range held))
        → NoColon p.source
          × IsInt64 p.time
          × (lookup (text_key s p.source p.time) (m.entries db) ≡ some p.phrase)
    phrase_stored keyed p i =
        let (e, j, h) = filter_map-In phrase_of p (range held) i in
        let (stored, under) = keep-In _ e (m.entries db) ((visits held e).0 j) in
        let found = In-lookup e.0 e.1 (m.entries db) (laws.ascending db) stored in
        let shape =
          keyed.at_key e.0 e.1 found
            (starts_with_left (text ++ b':' ∷ []) (s ++ b':' ∷ []) e.0 under) in
        let (hs, ht, same) = phrase_of-entry s e p plain shape under h in
        (hs, ht, subst (λ (x : Bytes × Bytes). lookup x.0 (m.entries db) ≡ some x.1) same found)

    stored_phrase :
        (p : DialogPhrase)
        → NoColon p.source
        → IsInt64 p.time
        → lookup (text_key s p.source p.time) (m.entries db) ≡ some p.phrase
        → In p (filter_map phrase_of (range held))
    stored_phrase p hs ht found =
        In-filter_map phrase_of (entry_of s p) p (range held)
          ((visits held (entry_of s p)).1 (
            In-keep _ (entry_of s p) (m.entries db) (lookup-In _ _ _ found)
              (under_text s p.source p.time)))
          (phrase_of-timed_key text s p.source p.phrase p.time (omega arith) plain hs ht)

  -- On an engine that opens its transactions, with a session id without a colon and a store
  -- whose text keys are all well formed: a phrase is returned for the session exactly if its
  -- source has no colon, its time is an int64, and it is stored under that session, its source
  -- and its time.
  pub get_dialog_texts_lem :
      (db : m.Txn) (s : Bytes)
      → Opens m db
      → NoColon s
      → WellKeyed text (m.entries db)
      → (ps : List DialogPhrase) × (get_dialog_texts m range db s ≡ ok ps)
        × ((p : DialogPhrase)
            → In p ps ↔ (
                NoColon p.source
                × IsInt64 p.time
                × (lookup (text_key s p.source p.time) (m.entries db) ≡ some p.phrase)))
  unfolding get_dialog_texts
  get_dialog_texts_lem db s opened plain keyed = (
    filter_map phrase_of (range (held db s plain)),
    ground (arith, filter_ok m laws db (text_prefix s) opened),
    λ p. (phrase_stored db s plain keyed p, λ h. stored_phrase db s plain p h.0 h.1 h.2),
  )
