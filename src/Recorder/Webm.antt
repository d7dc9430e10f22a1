-- ===== src/Recorder/Webm.antt =====
-- The file of a recording: the stored frames that it is made of, and their times.
use openai_gate.Base.{
  ℕ, ◌≡◌, ◌≢◌, ◌↔◌, ◌⊎◌, refl, sym, ◌∙◌, Bool, List, [], ◌∷◌, map, Option, none, some, Bytes, codes,
  bytes_eq, bytes_beq_iff, ok, err, Result, keep, ◌==◌,
}
use openai_gate.Base.Assoc.{Assoc}
use openai_gate.Base.Membership.{In, In-keep, keep-In}
use openai_gate.Base.Apart.{Apart, Apart-keep, Apart-perm, In-All, In-perm, Reorders, Apart-imp}
use mathlib.Core.List.Permᴰ.{symm}
use openai_gate.Text.Decimal.Int.{ℤ, int_eq}
use openai_gate.Mdbx.{Mdbx, Laws}
use openai_gate.Database.Lookup.{Opens}
use openai_gate.ContextStore.Parsing.{NoColon}
use openai_gate.ContextStore.Keyed.{WellKeyed}
use openai_gate.ContextStore.Dialog.{VisitsAll}
use openai_gate.Bridge.Sessions.{ai_source, user_source}
use openai_gate.Recorder.{
  OpusPacket, WebmError, no_packets, writer_failed, load_packets_from_store, blocks, timecode,
  create_track, or_failed, track_name, create_webm_data,
}
use openai_gate.Recorder.Timecodes.{InOrder, Rising, blocks_lem}
use openai_gate.Recorder.Loading.{
  TimesApart, TimesApart-sym, IsStored, chosen, of_one, load_packets_from_store_lem,
}

-- What `createSingleTrackWebMData` returns for the packets of a track: an error if there is none, and
-- otherwise what the writer makes of their frames in order, under timecodes that begin at 0 and do
-- not fall.
abbrev pub Made :
    (Bytes → List (ℕ × Bytes) → Option Bytes)
    → Bytes
    → List OpusPacket
    → Result WebmError Bytes
    → Type 0
Made write name [] result = result ≡ err no_packets
Made write name (p ∷ ps) result =
    let bs = blocks p.timestamp (p ∷ ps) in
    (map (λ b. b.1) bs ≡ map (λ q. q.frame) (p ∷ ps))
    × Rising bs
    × (timecode p.timestamp p ≡ 0)
    × (write name bs ≡ none → result ≡ err writer_failed)
    × ((file : Bytes) → write name bs ≡ some file → result ≡ ok file)

create_track-Made :
    (write : Bytes → List (ℕ × Bytes) → Option Bytes) (name : Bytes) (ps : List OpusPacket)
    → InOrder ps
    → Made write name ps (create_track write name ps)
unfolding create_track or_failed
create_track-Made write name [] h = refl
create_track-Made write name (p ∷ ps) h =
    let (frames, rising, first) = blocks_lem p ps h in
    (frames, rising, first, λ e. rw e refl, λ file e. rw e refl)

module _ (m : Mdbx) (laws : Laws m) (range : Assoc Bytes Bytes → Assoc Bytes Bytes)
    (visits : VisitsAll range) (visit : Assoc ℤ Bytes → Assoc ℤ Bytes)
    (visits_frames : Reorders visit) (sort : List OpusPacket → List OpusPacket)
    (reorders : Reorders sort) (sorts : (ps : List OpusPacket) → InOrder (sort ps)) where
  -- With a loop over a map that visits its entries in some order, each once, a `sort.Slice` that
  -- reorders by time, a session without a colon, a store whose audio keys are all well formed, and
  -- transactions and cursors that open: `CreateWebMData` makes its file of packets in the order of
  -- their times, no time twice, which are exactly the frames stored under the session and the source
  -- at int64 times if the source is the user or the assistant, and none for any other source. Without
  -- packets it fails; otherwise the writer is given the track's name and the frames in order, under
  -- timecodes that begin at 0 and do not fall, and its file, or an error if it fails, is returned.
  pub create_webm_data_lem :
      (write : Bytes → List (ℕ × Bytes) → Option Bytes) (db : m.Txn) (s source : Bytes)
      → NoColon s
      → WellKeyed (codes "audio") (m.entries db)
      → Opens m db
      → (ps : List OpusPacket) × InOrder ps
        × Apart (λ (p : OpusPacket) (q : OpusPacket). p.timestamp ≢ q.timestamp) ps
        × ((p : OpusPacket)
            → In p ps
              ↔ (((source ≡ ai_source) ⊎ (source ≡ user_source)) × IsStored m db s source p))
        × Made write
            (track_name source s)
            ps
            (create_webm_data m range visit sort write db s source)
  unfolding create_webm_data
  create_webm_data_lem write db s source hs keyed opened =
      let (apart, stored) =
        load_packets_from_store_lem m laws range visits visit visits_frames db s hs keyed opened in
      let all = load_packets_from_store m range visit db s in
      let of_source : OpusPacket → Bool = λ p. p.source == source in
      let order = reorders all in
      let ps = keep of_source (sort all) in
      let in_order = Apart-keep _ of_source (sort all) (sorts all) in
      (
        ps,
        in_order,
        Apart-imp (λ p. p.source ≡ source) TimesApart _ (λ p q hp hq h. h (hp ∙ sym hq)) ps
            (In-All _ ps
              (λ p i. (bytes_beq_iff p.source source).0 (keep-In of_source p (sort all) i).1))
            (Apart-keep _ of_source (sort all) (Apart-perm _ TimesApart-sym order apart)),
        λ p. (
          λ i.
              let (j, same) = keep-In of_source p (sort all) i in
              chosen m db s source p ((bytes_beq_iff p.source source).0 same)
                ((stored p).0 (In-perm p (symm order) j)),
          λ (known, h).
              In-keep of_source p (sort all)
                (In-perm p order ((stored p).1 (of_one m db s source p known h)))
                ((bytes_beq_iff p.source source).1 h.0),
        ),
        create_track-Made write (track_name source s) ps in_order,
      )
