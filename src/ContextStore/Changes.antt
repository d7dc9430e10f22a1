-- ===== src/ContextStore/Changes.antt =====
-- What each writing operation of internal/store/store.go does to the places of the store.
use openai_gate.Base.{
  ◌≡◌, refl, ap, inl, inr, false, none, some, arith, Bytes, bytes_eq, bytes_beq_iff, codes, ok, err,
  ok-injective, Bool-cases,
}
use openai_gate.Text.Order.{starts_with}
use openai_gate.Mdbx.{Mdbx, Laws}
use openai_gate.Database
use openai_gate.Database.{Fallible, start_key}
use openai_gate.Database.Lookup.{set_lem, delete_lem, lookup-keep-outside}
use openai_gate.Database.Delete.{delete_by_prefix_ok}
use openai_gate.ContextStore.{
  save, save_user_session, delete_user_session, save_opus_frame, delete_opus_frames,
  save_dialog_phrase, delete_dialog_texts, set_context, delete_context,
}
use openai_gate.ContextStore.Keys.{audio_prefix, text_prefix, text_key}
use openai_gate.ContextStore.Parsing.{NoColon, name_under}
use openai_gate.ContextStore.Dialog.{under_text}
use openai_gate.ContextStore.Phrases.{save-eq-ok}
use openai_gate.ContextStore.Audio.{delete_opus_frames_lem}
use openai_gate.ContextStore.Items.{
  Item, user_session, frame, phrase, context, key_of, IsPlain, view, same_item-key_of,
}
use openai_gate.ContextStore.Commands.{
  Command, save_session, forget_session, save_frame, delete_frames, save_phrase, delete_texts,
  put_context, remove_context, set_at, without_frames, without_phrases, apply, IsPlainCommand,
  state_of, perform,
}

pub state_of-ok :
    {S : Type 0} (r : Fallible (Bytes × S)) (db : S)
    → state_of r ≡ ok db
    → (key : Bytes) × (r ≡ ok (key, db))
state_of-ok (ok (key, db')) db h = (key, ap (λ s. ok (key, s)) (ok-injective db' db refl refl h))
state_of-ok (err e) db h = absurd (cc h)

module _ (m : Mdbx) (laws : Laws m) (db db' : m.Txn) where
  set-view :
      (i j : Item) (v : Bytes)
      → IsPlain i
      → IsPlain j
      → Database.set m db (key_of i) v ≡ ok db'
      → view m db' j ≡ set_at i (some v) (view m db) j
  set-view i j v hi hj h =
      ground (arith, set_lem m laws db db' (key_of i) v (key_of j) h, same_item-key_of i j hi hj)

  delete-view :
      (i j : Item)
      → IsPlain i
      → IsPlain j
      → Database.delete m db (key_of i) ≡ ok db'
      → view m db' j ≡ set_at i none (view m db) j
  delete-view i j hi hj h =
      ground (arith, delete_lem m laws db db' (key_of i) (key_of j) h, same_item-key_of i j hi hj)

  save-view :
      (i j : Item) (v : Bytes)
      → IsPlain i
      → IsPlain j
      → state_of (save m db (key_of i) v) ≡ ok db'
      → view m db' j ≡ set_at i (some v) (view m db) j
  save-view i j v hi hj h =
      let (key, saved) = state_of-ok (save m db (key_of i) v) db' h in
      set-view i j v hi hj (save-eq-ok m laws db db' (key_of i) key v saved).1

  -- The places whose keys lie outside of a prefix.
  outside-view :
      (prefix : Bytes) (j : Item)
      → starts_with (start_key prefix) (key_of j) ≡ false
      → Database.delete_by_prefix m db prefix ≡ ok db'
      → view m db' j ≡ view m db j
  outside-view prefix j away h = ground (
    arith,
    delete_by_prefix_ok m laws db db' prefix h,
    lookup-keep-outside prefix (key_of j) (m.entries db),
  )

  delete_opus_frames-view :
      (s b : Bytes) (j : Item)
      → NoColon s
      → NoColon b
      → IsPlain j
      → delete_opus_frames m db s b ≡ ok db'
      → view m db' j ≡ without_frames s b (view m db) j
  unfolding delete_opus_frames without_frames starts_with
  delete_opus_frames-view s b (frame s' b' t) hs hb (hs', hb', ht) h =
      delete_opus_frames_lem m laws db db' s b s' b' t hs hb hs' hb' h
  delete_opus_frames-view s b (user_session u r t) hs hb hj h =
      outside-view (audio_prefix s b) (user_session u r t) refl h
  delete_opus_frames-view s b (phrase s' b' t) hs hb hj h =
      outside-view (audio_prefix s b) (phrase s' b' t) refl h
  delete_opus_frames-view s b (context phone) hs hb hj h =
      outside-view (audio_prefix s b) (context phone) refl h

  delete_dialog_texts-view :
      (s : Bytes) (j : Item)
      → NoColon s
      → IsPlain j
      → delete_dialog_texts m db s ≡ ok db'
      → view m db' j ≡ without_phrases s (view m db) j
  unfolding delete_dialog_texts without_phrases starts_with
  delete_dialog_texts-view s (user_session u r t) hs hj h =
      outside-view (text_prefix s) (user_session u r t) refl h
  delete_dialog_texts-view s (frame s' b' t) hs hj h =
      outside-view (text_prefix s) (frame s' b' t) refl h
  delete_dialog_texts-view s (context phone) hs hj h =
      outside-view (text_prefix s) (context phone) refl h
  delete_dialog_texts-view s (phrase s' b' t) hs (hs', hb', ht) h =
      let k = text_key s' b' t in
      let left = delete_by_prefix_ok m laws db db' (text_prefix s) h in
      let now = lookup-keep-outside (text_prefix s) k (m.entries db) in
      elim (Bool-cases (starts_with (start_key (text_prefix s)) k)) [
        | inl e ↦
            let same = name_under (codes "text") s s' b' t (omega arith) hs hs' hb' e in
            ground (arith, left, now, e, (bytes_beq_iff s' s).1 same)
        | inr e ↦ ground (arith, left, now, e, bytes_beq_iff s' s, under_text s' b' t)
      ]

  -- A command that is performed without an error changes the plain places as its meaning says.
  pub perform-view :
      (c : Command) (j : Item)
      → IsPlainCommand c
      → IsPlain j
      → perform m c db ≡ ok db'
      → view m db' j ≡ apply c (view m db) j
  unfolding perform apply save_user_session save_opus_frame save_dialog_phrase delete_user_session
      set_context delete_context
  perform-view (save_session user session src_type time) j hc hj h =
      save-view (user_session user src_type time) j session hc hj h
  perform-view (forget_session user session src_type time) j hc hj h =
      delete-view (user_session user src_type time) j hc hj h
  perform-view (save_frame session source bytes time) j hc hj h =
      save-view (frame session source time) j bytes hc hj h
  perform-view (delete_frames session source) j (hs, hb) hj h =
      delete_opus_frames-view session source j hs hb hj h
  perform-view (save_phrase session source text time) j hc hj h =
      save-view (phrase session source time) j text hc hj h
  perform-view (delete_texts session) j hc hj h = delete_dialog_texts-view session j hc hj h
  perform-view (put_context phone text) j hc hj h = set-view (context phone) j text hc hj h
  perform-view (remove_context phone) j hc hj h = delete-view (context phone) j hc hj h
