-- ===== src/ContextStore/Invariant.antt =====
-- The keys of the store stay well formed under every command with plain names.
use openai_gate.Base.{◌≡◌, refl, Bytes, bytes_eq, codes, ok}
use openai_gate.Base.Assoc.{Assoc}
use openai_gate.Text.Order.{starts_with}
use openai_gate.Text.Decimal.Int.{int_eq}
use openai_gate.Mdbx.{Mdbx, Laws}
use openai_gate.Database
use openai_gate.ContextStore
use openai_gate.ContextStore.{
  save_user_session, delete_user_session, save_opus_frame, delete_opus_frames, save_dialog_phrase,
  delete_dialog_texts, set_context, delete_context,
}
use openai_gate.ContextStore.Keyed.{
  WellKeyed, set-WellKeyed, delete-WellKeyed, delete_by_prefix-WellKeyed,
}
use openai_gate.ContextStore.Phrases.{save-eq-ok}
use openai_gate.ContextStore.Items.{Item, user_session, frame, phrase, context, key_of, IsPlain}
use openai_gate.ContextStore.Commands.{
  Command, save_session, forget_session, save_frame, delete_frames, save_phrase, delete_texts,
  put_context, remove_context, IsPlainCommand, state_of, perform,
}
use openai_gate.ContextStore.Changes.{state_of-ok}

-- Keys of every kind are well formed.
abbrev pub AllKeyed : Assoc Bytes Bytes → Type 0
AllKeyed es =
    WellKeyed (codes "user") es × WellKeyed (codes "audio") es × WellKeyed (codes "text") es

module _ (m : Mdbx) (laws : Laws m) where
  set-AllKeyed :
      (db db' : m.Txn) (i : Item) (v : Bytes)
      → IsPlain i
      → Database.set m db (key_of i) v ≡ ok db'
      → AllKeyed (m.entries db)
      → AllKeyed (m.entries db')
  unfolding starts_with
  set-AllKeyed db db' (user_session a b t) v (ha, hb, ht) h (u, f, p) =
      let k = key_of (user_session a b t) in
      (
        set-WellKeyed m laws (codes "user") db db' k v (λ _. (a, b, t, ha, hb, ht, refl)) h u,
        set-WellKeyed m laws (codes "audio") db db' k v (λ e. absurd (cc e)) h f,
        set-WellKeyed m laws (codes "text") db db' k v (λ e. absurd (cc e)) h p,
      )
  set-AllKeyed db db' (frame a b t) v (ha, hb, ht) h (u, f, p) =
      let k = key_of (frame a b t) in
      (
        set-WellKeyed m laws (codes "user") db db' k v (λ e. absurd (cc e)) h u,
        set-WellKeyed m laws (codes "audio") db db' k v (λ _. (a, b, t, ha, hb, ht, refl)) h f,
        set-WellKeyed m laws (codes "text") db db' k v (λ e. absurd (cc e)) h p,
      )
  set-AllKeyed db db' (phrase a b t) v (ha, hb, ht) h (u, f, p) =
      let k = key_of (phrase a b t) in
      (
        set-WellKeyed m laws (codes "user") db db' k v (λ e. absurd (cc e)) h u,
        set-WellKeyed m laws (codes "audio") db db' k v (λ e. absurd (cc e)) h f,
        set-WellKeyed m laws (codes "text") db db' k v (λ _. (a, b, t, ha, hb, ht, refl)) h p,
      )
  set-AllKeyed db db' (context phone) v hi h (u, f, p) =
      let k = key_of (context phone) in
      (
        set-WellKeyed m laws (codes "user") db db' k v (λ e. absurd (cc e)) h u,
        set-WellKeyed m laws (codes "audio") db db' k v (λ e. absurd (cc e)) h f,
        set-WellKeyed m laws (codes "text") db db' k v (λ e. absurd (cc e)) h p,
      )

  delete-AllKeyed :
      (db db' : m.Txn) (k : Bytes)
      → Database.delete m db k ≡ ok db'
      → AllKeyed (m.entries db)
      → AllKeyed (m.entries db')
  delete-AllKeyed db db' k h (u, f, p) = (
    delete-WellKeyed m laws (codes "user") db db' k h u,
    delete-WellKeyed m laws (codes "audio") db db' k h f,
    delete-WellKeyed m laws (codes "text") db db' k h p,
  )

  delete_by_prefix-AllKeyed :
      (db db' : m.Txn) (prefix : Bytes)
      → Database.delete_by_prefix m db prefix ≡ ok db'
      → AllKeyed (m.entries db)
      → AllKeyed (m.entries db')
  delete_by_prefix-AllKeyed db db' prefix h (u, f, p) = (
    delete_by_prefix-WellKeyed m laws (codes "user") db db' prefix h u,
    delete_by_prefix-WellKeyed m laws (codes "audio") db db' prefix h f,
    delete_by_prefix-WellKeyed m laws (codes "text") db db' prefix h p,
  )

  save-AllKeyed :
      (db db' : m.Txn) (i : Item) (v : Bytes)
      → IsPlain i
      → state_of (ContextStore.save m db (key_of i) v) ≡ ok db'
      → AllKeyed (m.entries db)
      → AllKeyed (m.entries db')
  save-AllKeyed db db' i v hi h w =
      let (key, saved) = state_of-ok (ContextStore.save m db (key_of i) v) db' h in
      set-AllKeyed db db' i v hi (save-eq-ok m laws db db' (key_of i) key v saved).1 w

  pub perform-AllKeyed :
      (c : Command) (db db' : m.Txn)
      → IsPlainCommand c
      → perform m c db ≡ ok db'
      → AllKeyed (m.entries db)
      → AllKeyed (m.entries db')
  unfolding perform save_user_session save_opus_frame save_dialog_phrase delete_user_session
      delete_opus_frames delete_dialog_texts set_context delete_context
  perform-AllKeyed (save_session user session src_type time) db db' hc h w =
      save-AllKeyed db db' (user_session user src_type time) session hc h w
  perform-AllKeyed (forget_session user session src_type time) db db' hc h w =
      delete-AllKeyed db db' _ h w
  perform-AllKeyed (save_frame session source bytes time) db db' hc h w =
      save-AllKeyed db db' (frame session source time) bytes hc h w
  perform-AllKeyed (delete_frames session source) db db' hc h w =
      delete_by_prefix-AllKeyed db db' _ h w
  perform-AllKeyed (save_phrase session source text time) db db' hc h w =
      save-AllKeyed db db' (phrase session source time) text hc h w
  perform-AllKeyed (delete_texts session) db db' hc h w = delete_by_prefix-AllKeyed db db' _ h w
  perform-AllKeyed (put_context phone text) db db' hc h w =
      set-AllKeyed db db' (context phone) text hc h w
  perform-AllKeyed (remove_context phone) db db' hc h w = delete-AllKeyed db db' _ h w
