-- ===== src/ContextStore/Refines.antt =====
-- The store as a whole: after any commands, its reading operations answer as the commands' meaning
-- says.
use openai_gate.Base.{
  ◌≡◌, ◌↔◌, refl, sym, ap, ◌∙◌, subst, List, [], ◌∷◌, none, some, arith, Bytes, bytes_eq, ok, ◌>>=◌,
  >>=-eq-ok, ok-injective, ◌==◌, if◌then◌else◌, All,
}
use openai_gate.Base.Assoc.{Assoc, lookup}
use openai_gate.Base.Membership.{In}
use openai_gate.Text.Decimal.Int.{ℤ, IsInt64, int_eq}
use openai_gate.Mdbx.{Mdbx, Laws}
use openai_gate.Database
use openai_gate.Database.{Fallible}
use openai_gate.Database.Lookup.{Opens, or_missing, get_found}
use openai_gate.ContextStore.{
  DialogPhrase, OpusBatch, get_user_sessions, get_context, get_dialog_texts, get_opus_frames,
  list_contexts,
}
use openai_gate.ContextStore.Parsing.{NoColon}
use openai_gate.ContextStore.Dialog.{VisitsAll, get_dialog_texts_lem}
use openai_gate.ContextStore.Audio.{get_opus_frames_lem}
use openai_gate.ContextStore.Contexts.{list_contexts_lem}
use openai_gate.ContextStore.Items.{
  Item, user_session, frame, phrase, context, key_of, IsPlain, View, view,
}
use openai_gate.ContextStore.Commands.{
  Command, save_session, forget_session, save_frame, delete_frames, save_phrase, delete_texts,
  put_context, remove_context, without_frames, without_phrases, apply, IsPlainCommand, perform,
}
use openai_gate.ContextStore.Changes.{perform-view}
use openai_gate.ContextStore.Invariant.{AllKeyed, perform-AllKeyed}
use openai_gate.ContextStore.Users.{get_user_sessions_lem}

module _ (m : Mdbx) where
  -- Commands one after the other, up to the first error.
  unfoldable pub perform_all : List Command → m.Txn → Fallible m.Txn
  perform_all [] db = ok db
  perform_all (c ∷ cs) db = do db' ← perform m c db; perform_all cs db'

-- Their meaning.
unfoldable pub replay : List Command → View → View
replay [] v = v
replay (c ∷ cs) v = replay cs (apply c v)

-- The meaning of a command at a place depends on that place alone.
apply_local : (c : Command) (v w : View) (i : Item) → v i ≡ w i → apply c v i ≡ apply c w i
unfolding apply without_frames without_phrases
apply_local (save_session user session src_type time) v w i h = ground (arith, h)
apply_local (forget_session user session src_type time) v w i h = ground (arith, h)
apply_local (save_frame session source bytes time) v w i h = ground (arith, h)
apply_local (delete_frames session source) v w (user_session a b t) h = h
apply_local (delete_frames session source) v w (frame a b t) h = ground (arith, h)
apply_local (delete_frames session source) v w (phrase a b t) h = h
apply_local (delete_frames session source) v w (context a) h = h
apply_local (save_phrase session source text time) v w i h = ground (arith, h)
apply_local (delete_texts session) v w (user_session a b t) h = h
apply_local (delete_texts session) v w (frame a b t) h = h
apply_local (delete_texts session) v w (phrase a b t) h = ground (arith, h)
apply_local (delete_texts session) v w (context a) h = h
apply_local (put_context phone text) v w i h = ground (arith, h)
apply_local (remove_context phone) v w i h = ground (arith, h)

replay_local :
    (cs : List Command) (v w : View) (i : Item) → v i ≡ w i → replay cs v i ≡ replay cs w i
unfolding replay
replay_local [] v w i h = h
replay_local (c ∷ cs) v w i h = replay_local cs (apply c v) (apply c w) i (apply_local c v w i h)

-- The empty store.
abbrev pub nothing : View
nothing i = none

nothing-AllKeyed : AllKeyed []
unfolding lookup
nothing-AllKeyed = (
  record { at_key = λ k v h _. absurd (cc h) },
  record { at_key = λ k v h _. absurd (cc h) },
  record { at_key = λ k v h _. absurd (cc h) },
)

module _ (m : Mdbx) (range : Assoc Bytes Bytes → Assoc Bytes Bytes) (db : m.Txn) where
  -- What the reading operations answer on a session or user `s` and a source or source type `b`, when
  -- the store stands for the view `v`.
  abbrev pub Answers : View → Bytes → Bytes → Type 0
  Answers v s b =
      ((phone : Bytes) → get_context m db phone ≡ or_missing (v (context phone)))
      × ((contexts : Assoc Bytes Bytes) × (list_contexts m range db ≡ ok contexts)
          × ((phone : Bytes)
              → lookup phone contexts ≡ (if phone == [] then none else v (context phone))))
      × ((batch : OpusBatch) × (get_opus_frames m range db s b ≡ ok batch)
          × ((t : ℤ) → IsInt64 t → lookup t batch.frames ≡ v (frame s b t)))
      × ((ps : List DialogPhrase) × (get_dialog_texts m range db s ≡ ok ps)
          × ((p : DialogPhrase)
              → In p ps ↔ (
                  NoColon p.source
                  × IsInt64 p.time
                  × (v (phrase s p.source p.time) ≡ some p.phrase))))
      × ((ids : List Bytes) × (get_user_sessions m range db s b ≡ ok ids)
          × ((id : Bytes) → In id ids ↔ ((t : ℤ) × IsInt64 t × (v (user_session s b t) ≡ some id))))

module _ (m : Mdbx) (laws : Laws m) where
  -- Commands with plain names that are performed without an error.
  perform_all_lem :
      (cs : List Command) (db db' : m.Txn)
      → All IsPlainCommand cs
      → perform_all m cs db ≡ ok db'
      → AllKeyed (m.entries db)
      → AllKeyed (m.entries db') × ((i : Item) → IsPlain i → view m db' i ≡ replay cs (view m db) i)
  unfolding perform_all replay
  perform_all_lem [] db db' plain h w =
      let same : db ≡ db' = ok-injective db db' refl refl h in
      (subst (λ t. AllKeyed (m.entries t)) same w, λ i hi. ap (λ t. view m t i) (sym same))
  perform_all_lem (c ∷ cs) db db' (hc, hcs) h w =
      let (t, e, g) = >>=-eq-ok (perform m c db) _ h in
      let (keyed, shown) = perform_all_lem cs t db' hcs g (perform-AllKeyed m laws c db t hc e w) in
      (
        keyed,
        λ i hi.
            shown i hi
            ∙ replay_local cs (view m t) (apply c (view m db)) i
                (perform-view m laws db t c i hc hi e),
      )

  module _ (range : Assoc Bytes Bytes → Assoc Bytes Bytes) (visits : VisitsAll range) where
    -- From an empty store on: after any commands whose names have no colon and whose times are int64
    -- values, performed without an error, and while transactions and cursors open, the reading
    -- operations answer by the meaning of the commands alone, for any session or user `s` and source or
    -- source type `b` without a colon: `GetContext` and `ListContexts` by the contexts, `GetOpusFrames`
    -- by the frames of its session and source, `GetDialogTexts` by the phrases of its session,
    -- `GetUserSessions` by the sessions of its user and source type. Go's order of visiting a map is any
    -- that visits all entries.
    pub store_refines :
        (cs : List Command) (db db' : m.Txn) (s b : Bytes)
        → m.entries db ≡ []
        → All IsPlainCommand cs
        → perform_all m cs db ≡ ok db'
        → Opens m db'
        → NoColon s
        → NoColon b
        → Answers m range db' (replay cs nothing) s b
    unfolding lookup get_context Database.get
    store_refines cs db db' s b empty plain done opened hs hb =
        let (keyed, shown) =
          perform_all_lem cs db db' plain done (subst AllKeyed (sym empty) nothing-AllKeyed) in
        let at : (i : Item) → IsPlain i → view m db' i ≡ replay cs nothing i = λ i hi.
          shown i hi
          ∙ replay_local cs (view m db) nothing i (ap (λ es. lookup (key_of i) es) empty) in
        let (contexts, listed, by_phone) = list_contexts_lem m laws range visits db' opened in
        let (batch, got, _, _, frames) =
          get_opus_frames_lem m laws range visits db' s b hs hb keyed.1 opened in
        let (ps, texts, phrases) =
          get_dialog_texts_lem m laws range visits db' s opened hs keyed.2 in
        let (ids, sessions, by_user) =
          get_user_sessions_lem m laws range visits db' s b hs hb keyed.0 opened in
        (
          λ phone.
              get_found m laws db' (key_of (context phone)) opened.0
              ∙ ap or_missing (at (context phone) tt),
          (
            contexts,
            listed,
            λ phone.
                by_phone phone ∙ ap (λ o. if phone == [] then none else o) (at (context phone) tt),
          ),
          (batch, got, λ t ht. frames t ht ∙ at (frame s b t) (hs, hb, ht)),
          (
            ps,
            texts,
            λ p. (
              λ i.
                  let (x, y, z) = (phrases p).0 i in
                  (x, y, sym (at (phrase s p.source p.time) (hs, x, y)) ∙ z),
              λ h. (phrases p).1 (h.0, h.1, at (phrase s p.source p.time) (hs, h.0, h.1) ∙ h.2),
            ),
          ),
          (
            ids,
            sessions,
            λ id. (
              λ i.
                  let (t, ht, z) = (by_user id).0 i in
                  (t, ht, sym (at (user_session s b t) (hs, hb, ht)) ∙ z),
              λ h. (by_user id).1 (h.0, h.1, at (user_session s b h.0) (hs, hb, h.1) ∙ h.2),
            ),
          ),
        )
