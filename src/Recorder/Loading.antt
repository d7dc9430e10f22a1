-- ===== src/Recorder/Loading.antt =====
-- The packets that `loadPacketsFromStore` finds for a session: its stored frames of both sources.
use openai_gate.Base.{
  ◌≡◌, ◌≢◌, ◌↔◌, ◌⊎◌, sym, ap, ◌∙◌, subst, inl, inr, [], ◌∷◌, some, arith, Bytes, codes, bytes_eq,
}
use openai_gate.Base.Assoc.{Assoc, lookup}
use openai_gate.Base.Membership.{In}
use openai_gate.Base.Apart.{
  Apart, Apart-append, All-In, In-All, In-left, In-right, append-In, In-perm, Reorders, OneEach,
  OneEach-perm,
}
use mathlib.Core.List.Permᴰ.{symm}
use openai_gate.Text.Decimal.Int.{ℤ, int_eq, IsInt64}
use openai_gate.Mdbx.{Mdbx, Laws}
use openai_gate.Database.Lookup.{Opens}
use openai_gate.ContextStore.{get_opus_frames}
use openai_gate.ContextStore.Keys.{audio_key}
use openai_gate.ContextStore.Parsing.{NoColon}
use openai_gate.ContextStore.Keyed.{WellKeyed}
use openai_gate.ContextStore.Dialog.{VisitsAll}
use openai_gate.ContextStore.Audio.{get_opus_frames-OneEach}
use openai_gate.Bridge.Sessions.{ai_source, user_source}
use openai_gate.Recorder.{OpusPacket, packets_of, loaded, load_packets_from_store}

-- Packets of one source have different times.
abbrev pub TimesApart : OpusPacket → OpusPacket → Type 0
TimesApart p q = p.source ≡ q.source → p.timestamp ≢ q.timestamp

pub TimesApart-sym : (p q : OpusPacket) → TimesApart p q → TimesApart q p
TimesApart-sym p q h e g = h (sym e) (sym g)

In-packets_of :
    (source : Bytes) (p : OpusPacket) (frames : Assoc ℤ Bytes)
    → p.source ≡ source
    → In (p.timestamp, p.frame) frames
    → In p (packets_of source frames)
In-packets_of source p [] e i = absurd i
In-packets_of source p ((t, f) ∷ frames) e (inl h) = inl (
    ap (λ (x : ℤ × Bytes). record { frame = x.1; timestamp = x.0; source = p.source }) h
    ∙ ap (λ (x : Bytes). record { frame = f; timestamp = t; source = x }) e)
In-packets_of source p ((t, f) ∷ frames) e (inr i) = inr (In-packets_of source p frames e i)

packets_of-In :
    (source : Bytes) (p : OpusPacket) (frames : Assoc ℤ Bytes)
    → In p (packets_of source frames)
    → (p.source ≡ source) × In (p.timestamp, p.frame) frames
packets_of-In source p [] i = absurd i
packets_of-In source p ((t, f) ∷ frames) (inl h) =
    (ap (λ (x : OpusPacket). x.source) h, inl (ap (λ (x : OpusPacket). (x.timestamp, x.frame)) h))
packets_of-In source p ((t, f) ∷ frames) (inr i) =
    let (e, j) = packets_of-In source p frames i in (e, inr j)

packets_of-Apart :
    (source : Bytes) (frames : Assoc ℤ Bytes)
    → OneEach frames
    → Apart TimesApart (packets_of source frames)
packets_of-Apart source [] h = tt
packets_of-Apart source ((t, f) ∷ frames) h = (
  In-All _ (packets_of source frames) (λ q i _ same. absurd (
      cc (
        All-In _ (q.timestamp, q.frame) frames h.0 (packets_of-In source q frames i).1,
        (int_eq.beq_iff t q.timestamp).1 same,
      ))),
  packets_of-Apart source frames h.1,
)

module _ (m : Mdbx) (db : m.Txn) (s : Bytes) where
  -- A packet is a stored frame of its source.
  abbrev pub IsStored : Bytes → OpusPacket → Type 0
  IsStored source p =
      (p.source ≡ source)
      × IsInt64 p.timestamp
      × (lookup (audio_key s source p.timestamp) (m.entries db) ≡ some p.frame)

  pub chosen :
      (source : Bytes) (p : OpusPacket)
      → p.source ≡ source
      → IsStored ai_source p ⊎ IsStored user_source p
      → ((source ≡ ai_source) ⊎ (source ≡ user_source)) × IsStored source p
  chosen source p same (inl h) =
      let e = sym same ∙ h.0 in (inl e, subst (λ x. IsStored x p) (sym e) h)
  chosen source p same (inr h) =
      let e = sym same ∙ h.0 in (inr e, subst (λ x. IsStored x p) (sym e) h)

  pub of_one :
      (source : Bytes) (p : OpusPacket)
      → (source ≡ ai_source) ⊎ (source ≡ user_source)
      → IsStored source p
      → IsStored ai_source p ⊎ IsStored user_source p
  of_one source p (inl e) h = inl (subst (λ x. IsStored x p) e h)
  of_one source p (inr e) h = inr (subst (λ x. IsStored x p) e h)

module _ (m : Mdbx) (laws : Laws m) (range : Assoc Bytes Bytes → Assoc Bytes Bytes)
    (visits : VisitsAll range) (visit : Assoc ℤ Bytes → Assoc ℤ Bytes)
    (visits_frames : Reorders visit) (db : m.Txn) (s : Bytes) (hs : NoColon s)
    (keyed : WellKeyed (codes "audio") (m.entries db)) (opened : Opens m db) where
  loaded_lem :
      (source : Bytes)
      → NoColon source
      → let ps = loaded visit source (get_opus_frames m range db s source) in
        Apart TimesApart ps × ((p : OpusPacket) → In p ps ↔ IsStored m db s source p)
  unfolding loaded
  loaded_lem source plain =
      let (batch, got, each, stored) =
        get_opus_frames-OneEach m laws range visits db s source hs plain keyed opened in
      let order = visits_frames batch.frames in
      rw got (
        packets_of-Apart source (visit batch.frames) (OneEach-perm order each),
        λ p. (
          λ i.
              let (e, j) = packets_of-In source p (visit batch.frames) i in
              let (ht, found) = (stored p.timestamp p.frame).0 (In-perm _ (symm order) j) in
              (e, ht, found),
          λ h.
              In-packets_of source p (visit batch.frames) h.0
                (In-perm _ order ((stored p.timestamp p.frame).1 (h.1, h.2))),
        ),
      )

  pub load_packets_from_store_lem :
      let ps = load_packets_from_store m range visit db s in
      Apart TimesApart ps
      × ((p : OpusPacket) → In p ps ↔ (IsStored m db s ai_source p ⊎ IsStored m db s user_source p))
  unfolding load_packets_from_store
  load_packets_from_store_lem =
      let (apart_ai, ai) = loaded_lem ai_source (omega arith) in
      let (apart_user, user) = loaded_lem user_source (omega arith) in
      let of_ai = loaded visit ai_source (get_opus_frames m range db s ai_source) in
      let of_user = loaded visit user_source (get_opus_frames m range db s user_source) in
      (
        Apart-append _ of_ai of_user apart_ai apart_user (
            In-All _ of_ai (λ p i.
              In-All _ of_user
                (λ q j same _. absurd (cc (((ai p).0 i).0, ((user q).0 j).0, same))))),
        λ p. (
          λ i. elim (append-In p of_ai of_user i) [
            | inl j ↦ inl ((ai p).0 j)
            | inr j ↦ inr ((user p).0 j)
          ],
          λ h. elim h [
            | inl g ↦ In-left p of_ai of_user ((ai p).1 g)
            | inr g ↦ In-right p of_ai of_user ((user p).1 g)
          ],
        ),
      )
