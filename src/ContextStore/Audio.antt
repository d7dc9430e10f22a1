-- ===== src/ContextStore/Audio.antt =====
-- Audio frames of internal/store/store.go: saving, reading and deleting them.
use openai_gate.Base.{
  ◌≡◌, ◌↔◌, refl, sym, ap, ◌∙◌, subst, inl, inr, true, ◌&&◌, List, [], ◌∷◌, ◌++◌, append_assoc,
  none, some, arith, Bytes, bytes_eq, bytes_beq_iff, codes, ok, if◌then◌else◌, Bool-cases, ◌==◌,
  keep,
}
use openai_gate.Base.Assoc.{Assoc, lookup}
use openai_gate.Base.Membership.{
  In, In-keep, keep-In, lookup-In, collect, collect-lookup, lookup-collect_exact,
}
use openai_gate.Base.Apart.{OneEach, collect-OneEach, In-lookup_each}
use openai_gate.Text.Order.{starts_with, starts_with-append, starts_with_left}
use openai_gate.Text.Decimal.Int.{ℤ, int_eq, IsInt64, format_int}
use openai_gate.Mdbx.{Mdbx, Laws}
use openai_gate.Mdbx.Ordered.{Entry}
use openai_gate.Database.{start_key}
use openai_gate.Database.Range.{under}
use openai_gate.Database.Lookup.{Opens, filter_ok, set_lem, In-lookup, lookup-keep-outside}
use openai_gate.Database.Delete.{delete_by_prefix_ok}
use openai_gate.ContextStore.Keys.{audio_key, audio_prefix}
use openai_gate.ContextStore.Parsing.{NoColon, names_under, frame_of-timed_key}
use openai_gate.ContextStore.Keyed.{IsTimedKey, WellKeyed, set-WellKeyed}
use openai_gate.ContextStore.Dialog.{VisitsAll}
use openai_gate.ContextStore.Phrases.{save-eq-ok}
use openai_gate.ContextStore.{
  OpusBatch, frame_of, get_opus_frames, save_opus_frame, delete_opus_frames,
}

abbrev audio : Bytes
audio = codes "audio"

-- The keys of a session's source lie under their prefix.
under_audio :
    (s b : Bytes) (t : ℤ) → starts_with (start_key (audio_prefix s b)) (audio_key s b t) ≡ true
under_audio s b t =
    subst (λ k. starts_with (start_key (audio_prefix s b)) k ≡ true)
      (ap (λ (rest : Bytes). audio ++ b':' ∷ rest)
        (append_assoc (s ++ b':' ∷ b) (b':' ∷ []) _ ∙ append_assoc s (b':' ∷ b) _))
      (starts_with-append (start_key (audio_prefix s b)) (format_int t))

-- A frame made from an entry under the prefix of a session and source tells that entry.
frame_of-entry :
    (s b : Bytes) (e : Entry) (t : ℤ) (w : Bytes)
    → NoColon s
    → NoColon b
    → IsTimedKey audio e.0
    → starts_with (start_key (audio_prefix s b)) e.0 ≡ true
    → frame_of e ≡ some (t, w)
    → (e ≡ (audio_key s b t, w)) × IsInt64 t
frame_of-entry s b (k, v) t w hs hb (a', b', t', ha, hb', ht, shape) below h =
    let (same_name, same_source) =
      names_under audio s b a' b' t' (omega arith) hs hb ha hb'
        (subst (λ x. starts_with (start_key (audio_prefix s b)) x ≡ true) shape below) in
    let made = frame_of-timed_key audio a' b' v t' (omega arith) ha hb' ht in
    let made' : some (t', v) ≡ some (t, w) =
      sym made ∙ ap (λ (x : Bytes). frame_of (x, v)) (sym shape) ∙ h in
    let same_time : t' ≡ t = cc made' in
    (cc (shape, same_name, same_source, made'), subst IsInt64 same_time ht)

module _ (m : Mdbx) (laws : Laws m) (range : Assoc Bytes Bytes → Assoc Bytes Bytes)
    (visits : VisitsAll range) (db : m.Txn) (s b : Bytes) (hs : NoColon s) (hb : NoColon b)
    (keyed : WellKeyed audio (m.entries db)) where
  abbrev held : List Entry
  held = keep (under (audio_prefix s b)) (m.entries db)

  -- An entry that the loop visits, and the frame that it makes of it.
  visited :
      (e : Entry) (t : ℤ) (w : Bytes)
      → In e (range held)
      → frame_of e ≡ some (t, w)
      → IsInt64 t × (lookup (audio_key s b t) (m.entries db) ≡ some w)
  visited e t w i h =
      let (stored, below) = keep-In _ e (m.entries db) ((visits held e).0 i) in
      let found = In-lookup e.0 e.1 (m.entries db) (laws.ascending db) stored in
      let shape =
        keyed.at_key e.0 e.1 found
          (starts_with_left (audio ++ b':' ∷ []) ((s ++ b':' ∷ b) ++ b':' ∷ []) e.0 below) in
      let (same, ht) = frame_of-entry s b e t w hs hb shape below h in
      (ht, subst (λ (x : Entry). lookup x.0 (m.entries db) ≡ some x.1) same found)

  -- A frame that is stored under the session, the source and a time is visited.
  stored_visited :
      (t : ℤ) (v : Bytes)
      → IsInt64 t
      → lookup (audio_key s b t) (m.entries db) ≡ some v
      → (e : Entry) × In e (range held) × (frame_of e ≡ some (t, v))
  stored_visited t v ht found = (
    (audio_key s b t, v),
    (visits held _).1
        (In-keep _ (audio_key s b t, v) (m.entries db) (lookup-In _ _ _ found) (under_audio s b t)),
    frame_of-timed_key audio s b v t (omega arith) hs hb ht,
  )

  -- On an engine that opens its transactions, with a session and a source without a colon and a
  -- store whose audio keys are all well formed: the batch of the session and the source is, at
  -- every int64 time, the frame stored under that time.
  pub get_opus_frames_lem :
      Opens m db
      → (batch : OpusBatch) × (get_opus_frames m range db s b ≡ ok batch)
        × (batch.session ≡ s)
        × (batch.source ≡ b)
        × ((t : ℤ) → IsInt64 t → lookup t batch.frames ≡ lookup (audio_key s b t) (m.entries db))
  unfolding get_opus_frames
  get_opus_frames_lem opened = (
    record { session = s; source = b; frames = collect frame_of (range held) [] },
    ground (arith, filter_ok m laws db (audio_prefix s b) opened),
    refl,
    refl,
    λ t ht.
        lookup-collect_exact frame_of t (lookup (audio_key s b t) (m.entries db)) (range held)
          (λ e w i h. (visited e t w i h).1) (λ v found. stored_visited t v ht found),
  )

  -- Under the same conditions the batch has one frame for each time, and its frames are those that are
  -- stored under the session, the source and an int64 time.
  pub get_opus_frames-OneEach :
      Opens m db
      → (batch : OpusBatch) × (get_opus_frames m range db s b ≡ ok batch)
        × OneEach batch.frames
        × ((t : ℤ) (v : Bytes)
            → In (t, v) batch.frames
              ↔ (IsInt64 t × (lookup (audio_key s b t) (m.entries db) ≡ some v)))
  unfolding get_opus_frames lookup
  get_opus_frames-OneEach opened =
      let frames = collect frame_of (range held) [] in
      let each : OneEach frames = collect-OneEach frame_of (range held) [] tt in
      (
        record { session = s; source = b; frames = frames },
        ground (arith, filter_ok m laws db (audio_prefix s b) opened),
        each,
        λ t v. (
          λ i.
              elim (collect-lookup frame_of t v (range held) []
                (In-lookup_each t v frames each i)) [
                  | inl (e, at, h) ↦ visited e t v at h
                  | inr h ↦ cc h
                ],
          λ h. lookup-In t v frames (
              lookup-collect_exact frame_of t (some v) (range held)
                (λ e w i g. sym h.1 ∙ (visited e t w i g).1)
                (λ w g. stored_visited t w h.0 (h.1 ∙ g))),
        ),
      )

module _ (m : Mdbx) (laws : Laws m) (db db' : m.Txn) where
  -- Saving a frame without an error, under names without a colon and an int64 time in a store
  -- whose audio keys are all well formed, returns its key, keeps the keys well formed, and sets
  -- the frame of that key alone.
  pub save_opus_frame_lem :
      (s b frame key : Bytes) (t : ℤ)
      → NoColon s
      → NoColon b
      → IsInt64 t
      → save_opus_frame m db s b frame t ≡ ok (key, db')
      → WellKeyed audio (m.entries db)
      → (key ≡ audio_key s b t)
        × WellKeyed audio (m.entries db')
        × ((j : Bytes)
            → lookup j (m.entries db')
              ≡ (if audio_key s b t == j then some frame else lookup j (m.entries db)))
  unfolding save_opus_frame
  save_opus_frame_lem s b frame key t hs hb ht h keyed =
      let (same, written) = save-eq-ok m laws db db' (audio_key s b t) key frame h in
      (
        same,
        set-WellKeyed m laws audio db db' (audio_key s b t) frame (λ _. (s, b, t, hs, hb, ht, refl))
            written keyed,
        λ j. set_lem m laws db db' (audio_key s b t) frame j written,
      )

  -- When the frames of a session and a source are deleted without an error, a frame of a
  -- session, source and time is gone if it is of that session and source, and otherwise as it
  -- was, where no name has a colon.
  pub delete_opus_frames_lem :
      (s b s' b' : Bytes) (t : ℤ)
      → NoColon s
      → NoColon b
      → NoColon s'
      → NoColon b'
      → delete_opus_frames m db s b ≡ ok db'
      → lookup (audio_key s' b' t) (m.entries db')
        ≡ (if s' == s && b' == b then none else lookup (audio_key s' b' t) (m.entries db))
  unfolding delete_opus_frames
  delete_opus_frames_lem s b s' b' t hs hb hs' hb' h =
      let k = audio_key s' b' t in
      let left = delete_by_prefix_ok m laws db db' (audio_prefix s b) h in
      let now = lookup-keep-outside (audio_prefix s b) k (m.entries db) in
      elim (Bool-cases (starts_with (start_key (audio_prefix s b)) k)) [
        | inl e ↦
            let (same_s, same_b) = names_under audio s b s' b' t (omega arith) hs hb hs' hb' e in
            ground
              (arith, left, now, e, (bytes_beq_iff s' s).1 same_s, (bytes_beq_iff b' b).1 same_b)
        | inr e ↦
            ground
              (arith, left, now, e, bytes_beq_iff s' s, bytes_beq_iff b' b, under_audio s' b' t)
      ]
