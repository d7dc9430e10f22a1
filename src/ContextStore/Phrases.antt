-- ===== src/ContextStore/Phrases.antt =====
-- Saving and deleting phrases, as `GetDialogTexts` shows it.
use mathlib.Core.Option.{some-injective}
use openai_gate.Base.{
  ◌≡◌, ◌≢◌, refl, sym, ap, ◌∙◌, ◌⊎◌, inl, inr, false, List, [], ◌∷◌, some, arith, Bytes, bytes_eq,
  bytes_beq_iff, codes, ok, >>=-eq-ok, Bool-cases, ◌==◌, keep,
}
use openai_gate.Base.Assoc.{Assoc, lookup}
use openai_gate.Base.Membership.{In, filter_map}
use openai_gate.Text.Order.{starts_with}
use openai_gate.Text.Decimal.Int.{ℤ, IsInt64}
use openai_gate.Mdbx.{Mdbx, Laws}
use openai_gate.Mdbx.Ordered.{Entry}
use openai_gate.Database.{start_key}
use openai_gate.Database.Range.{under, outside}
use openai_gate.Database.Lookup.{Opens, filter_ok, set_lem, lookup-keep-outside}
use openai_gate.Database.Delete.{delete_by_prefix_ok}
use openai_gate.Database
use openai_gate.ContextStore.Keys.{text_key, text_prefix}
use openai_gate.ContextStore.Parsing.{NoColon, name_under, timed_key-injective}
use openai_gate.ContextStore.Keyed.{WellKeyed, set-WellKeyed}
use openai_gate.ContextStore.Dialog.{VisitsAll, get_dialog_texts_lem}
use openai_gate.ContextStore.{
  DialogPhrase, save, get_dialog_texts, save_dialog_phrase, delete_dialog_texts,
}

abbrev text : Bytes
text = codes "text"

-- Nothing is visited of an empty map.
pub visits_none : {A : Type 0} (xs : List A) → ((x : A) → In x xs → ⊥) → xs ≡ []
visits_none [] h = refl
visits_none (x ∷ xs) h = absurd (h x (inl refl))

keep-under-outside :
    (prefix : Bytes) (es : List Entry) → keep (under prefix) (keep (outside prefix) es) ≡ []
keep-under-outside prefix [] = refl
keep-under-outside prefix ((k, v) ∷ es) = ground (arith, keep-under-outside prefix es)

module _ (m : Mdbx) (laws : Laws m) where
  pub save-eq-ok :
      (db db' : m.Txn) (k k' v : Bytes)
      → save m db k v ≡ ok (k', db')
      → (k' ≡ k) × (Database.set m db k v ≡ ok db')
  unfolding save
  save-eq-ok db db' k k' v h = let (t, e, g) = >>=-eq-ok (Database.set m db k v) _ h in (cc, cc)

  -- Saving a phrase under names without a colon and an int64 time keeps the text keys well
  -- formed.
  pub save_dialog_phrase-WellKeyed :
      (db db' : m.Txn) (s source phrase key : Bytes) (t : ℤ)
      → NoColon s
      → NoColon source
      → IsInt64 t
      → save_dialog_phrase m db s source phrase t ≡ ok (key, db')
      → WellKeyed text (m.entries db)
      → WellKeyed text (m.entries db')
  unfolding save_dialog_phrase
  save_dialog_phrase-WellKeyed db db' s source phrase key t hs hb ht h =
      set-WellKeyed m laws text db db' (text_key s source t) phrase
        (λ _. (s, source, t, hs, hb, ht, refl))
        (save-eq-ok db db' (text_key s source t) key phrase h).1

  set-lookup_self :
      (db db' : m.Txn) (k v : Bytes)
      → Database.set m db k v ≡ ok db'
      → lookup k (m.entries db') ≡ some v
  set-lookup_self db db' k v h = ground (arith, set_lem m laws db db' k v k h, bytes_beq_iff k k)

  -- What the key of a phrase holds after another phrase of the session was written.
  lookup-set_text :
      (db db' : m.Txn) (s source phrase : Bytes) (t : ℤ) (p : DialogPhrase)
      → Database.set m db (text_key s source t) phrase ≡ ok db'
      → NoColon s
      → NoColon source
      → IsInt64 t
      → NoColon p.source
      → IsInt64 p.time
      → (((p.source ≡ source) × (p.time ≡ t))
          × (lookup (text_key s p.source p.time) (m.entries db') ≡ some phrase))
        ⊎ (¬ ((p.source ≡ source) × (p.time ≡ t))
            × (lookup (text_key s p.source p.time) (m.entries db')
                ≡ lookup (text_key s p.source p.time) (m.entries db)))
  lookup-set_text db db' s source phrase t p written hs hb ht pb pt =
      let k = text_key s source t in
      let j = text_key s p.source p.time in
      let now = set_lem m laws db db' k phrase j written in
      elim (Bool-cases (k == j)) [
        | inl e ↦
            let (_, same, at) =
              timed_key-injective text s s source p.source t p.time (omega arith) hs hs hb pb ht pt
                ((bytes_beq_iff k j).0 e) in
            inl ((sym same, sym at), ground (arith, now, e))
        | inr e ↦
            inr
              (λ same. cc (e, (bytes_beq_iff k j).1 (cc (same.0, same.1))), ground (arith, now, e))
      ]

  module _ (range : Assoc Bytes Bytes → Assoc Bytes Bytes) (visits : VisitsAll range) where
    -- On an engine that opens its transactions, with names without a colon, an int64 time and a
    -- store whose text keys are all well formed: after a phrase has been saved for a session,
    -- the session's texts hold it, hold no other phrase of its source and time, and hold a
    -- phrase of another source or time exactly if they did before.
    pub get_dialog_texts-save :
        (db db' : m.Txn) (s source phrase key : Bytes) (t : ℤ)
        → Opens m db
        → Opens m db'
        → NoColon s
        → NoColon source
        → IsInt64 t
        → WellKeyed text (m.entries db)
        → save_dialog_phrase m db s source phrase t ≡ ok (key, db')
        → (old : List DialogPhrase) × (new : List DialogPhrase) × (get_dialog_texts m range db s
            ≡ ok old)
          × (get_dialog_texts m range db' s ≡ ok new)
          × In (record { time = t; source = source; phrase = phrase }) new
          × ((p : DialogPhrase)
              → In p new
              → (p.source ≡ source) × (p.time ≡ t) × (p.phrase ≡ phrase)
                ⊎ In p old × ¬ ((p.source ≡ source) × (p.time ≡ t)))
          × ((p : DialogPhrase) → In p old → ¬ ((p.source ≡ source) × (p.time ≡ t)) → In p new)
    unfolding save_dialog_phrase
    get_dialog_texts-save db db' s source phrase key t opens opens' hs hb ht keyed h =
        let written = (save-eq-ok db db' (text_key s source t) key phrase h).1 in
        let keyed' = save_dialog_phrase-WellKeyed db db' s source phrase key t hs hb ht h keyed in
        let (old, was, before) = get_dialog_texts_lem m laws range visits db s opens hs keyed in
        let (new, is, after) = get_dialog_texts_lem m laws range visits db' s opens' hs keyed' in
        (
          old,
          new,
          was,
          is,
          (after (record { time = t; source = source; phrase = phrase })).1
              (hb, ht, set-lookup_self db db' (text_key s source t) phrase written),
          λ p i.
              let (pb, pt, found) = (after p).0 i in
              elim (lookup-set_text db db' s source phrase t p written hs hb ht pb pt) [
                | inl (same, value) ↦ inl (same.0, same.1, some-injective _ _ (sym found ∙ value))
                | inr (other, value) ↦ inr ((before p).1 (pb, pt, sym value ∙ found), other)
              ],
          λ p i other.
              let (pb, pt, found) = (before p).0 i in
              elim (lookup-set_text db db' s source phrase t p written hs hb ht pb pt) [
                | inl (same, value) ↦ absurd (other same)
                | inr (_, value) ↦ (after p).1 (pb, pt, value ∙ found)
              ],
        )

    -- On an engine that opens its transactions: deleting the texts of a session whose id has no
    -- colon leaves it none, and changes the stored phrase of no other session, source and time,
    -- where these names have no colon.
    pub get_dialog_texts-delete :
        (db db' : m.Txn) (s : Bytes)
        → Opens m db'
        → NoColon s
        → delete_dialog_texts m db s ≡ ok db'
        → (get_dialog_texts m range db' s ≡ ok [])
          × ((s' source : Bytes) (t : ℤ)
              → NoColon s'
              → NoColon source
              → s' ≢ s
              → lookup (text_key s' source t) (m.entries db')
                ≡ lookup (text_key s' source t) (m.entries db))
    unfolding delete_dialog_texts get_dialog_texts filter_map
    get_dialog_texts-delete db db' s opens hs h =
        let left = delete_by_prefix_ok m laws db db' (text_prefix s) h in
        let none_held =
          ap (keep (under (text_prefix s))) left
          ∙ keep-under-outside (text_prefix s) (m.entries db) in
        (
          ground (
            arith,
            filter_ok m laws db' (text_prefix s) opens,
            none_held,
            visits_none (range []) (λ x i. (visits [] x).0 i),
          ),
          λ s' source t hs' hb other.
              let k = text_key s' source t in
              let away : starts_with (start_key (text_prefix s)) k ≡ false =
                elim (Bool-cases (starts_with (start_key (text_prefix s)) k)) [
                  | inl e ↦ absurd (other (name_under text s s' source t (omega arith) hs hs' hb e))
                  | inr e ↦ e
                ] in
              ground (arith, left, lookup-keep-outside (text_prefix s) k (m.entries db), away),
        )
