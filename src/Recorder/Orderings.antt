-- ===== src/Recorder/Orderings.antt =====
-- The handlers of packets run in goroutines of their own: two packets may be stored in either order.
use openai_gate.Base.{
  ℕ, ◌≡◌, ◌≢◌, refl, sym, ap, ◌∙◌, inl, inr, Bool, true, [], some, arith, Bytes, bytes_eq,
  bytes_beq_iff, ok, ◌==◌, if◌then◌else◌, Bool-cases,
}
use openai_gate.Base.Assoc.{lookup}
use openai_gate.Text.Decimal.Int.{ℤ}
use openai_gate.Mdbx.{Mdbx, Laws}
use openai_gate.Database
use openai_gate.Database.Lookup.{set_lem}
use openai_gate.ContextStore.Keys.{audio_key}
use openai_gate.ContextStore.{save_opus_frame}
use openai_gate.Recorder.{Recorder, add_packet, get_recording_stats}
use openai_gate.Recorder.Packets.{counted, add_packet_lem}

counted_comm :
    (d d' : Bytes) (x : ℕ × ℕ × Bool) → counted d' (counted d x) ≡ counted d (counted d' x)
counted_comm d d' x = ground arith

chosen : (b : Bool) (x y : ℕ × ℕ × Bool) → b ≡ true → (if b then x else y) ≡ x
chosen b x y h = rw h refl

module _ (m : Mdbx) (laws : Laws m)
    (writes : (t : m.Txn) (k v : Bytes) → (t' : m.Txn) × (Database.set m t k v ≡ ok t')) where
  -- What a packet leaves in the store and in the counts.
  packet_lem :
      (r : Recorder) (db : m.Txn) (id packet direction : Bytes) (time now : ℤ)
      → packet ≢ []
      → let a = add_packet m r db id packet direction time now in
        ((j : Bytes)
          → lookup j (m.entries a.db)
            ≡ (if audio_key id direction time == j then some packet else lookup j (m.entries db)))
        × ((other : Bytes)
            → get_recording_stats a.recorder other ≡ (
                if id == other
                then counted direction (get_recording_stats r id)
                else get_recording_stats r other))
  unfolding add_packet save_opus_frame
  packet_lem r db id packet direction time now full =
      let (t, wrote) = writes db (audio_key id direction time) packet in
      let saves : save_opus_frame m db id direction packet time
          ≡ ok (audio_key id direction time, t) =
        rw wrote refl in
      (
        λ j. ground (
          arith,
          wrote,
          bytes_beq_iff packet [],
          set_lem m laws db t (audio_key id direction time) packet j wrote,
        ),
        (add_packet_lem m laws r db t id packet direction (audio_key id direction time) time now
            full saves).1,
      )

  -- If the engine takes every write, two packets that are not empty and are stored under different
  -- keys leave the same entries and the same counts in either order.
  pub add_packet_comm :
      (r : Recorder) (db : m.Txn) (id id' packet packet' direction direction' : Bytes)
      (time time' now now' : ℤ)
      → packet ≢ []
      → packet' ≢ []
      → audio_key id direction time ≢ audio_key id' direction' time'
      → let first = add_packet m r db id packet direction time now in
        let a = add_packet m first.recorder first.db id' packet' direction' time' now' in
        let second = add_packet m r db id' packet' direction' time' now' in
        let b = add_packet m second.recorder second.db id packet direction time now in
        ((j : Bytes) → lookup j (m.entries a.db) ≡ lookup j (m.entries b.db))
        × ((other : Bytes)
            → get_recording_stats a.recorder other ≡ get_recording_stats b.recorder other)
  add_packet_comm r db id id' packet packet' direction direction' time time' now now' full full'
        apart =
      let first = add_packet m r db id packet direction time now in
      let second = add_packet m r db id' packet' direction' time' now' in
      let (e1, c1) = packet_lem r db id packet direction time now full in
      let (e2, c2) = packet_lem first.recorder first.db id' packet' direction' time' now' full' in
      let (f1, d1) = packet_lem r db id' packet' direction' time' now' full' in
      let (f2, d2) = packet_lem second.recorder second.db id packet direction time now full in
      (
        λ j. ground (
          arith,
          e1 j,
          e2 j,
          f1 j,
          f2 j,
          bytes_beq_iff (audio_key id direction time) j,
          bytes_beq_iff (audio_key id' direction' time') j,
        ),
        λ other. elim (Bool-cases (id == other)) [
          | inl one ↦ elim (Bool-cases (id' == other)) [
            | inl two ↦
                let same : id ≡ other = (bytes_beq_iff id other).0 one in
                let same' : id' ≡ other = (bytes_beq_iff id' other).0 two in
                let twin : (id == id') ≡ true = (bytes_beq_iff id id').1 (same ∙ sym same') in
                let twin' : (id' == id) ≡ true = (bytes_beq_iff id' id).1 (same' ∙ sym same) in
                let left =
                  c2 other
                  ∙ chosen _ _ _ two
                  ∙ ap (counted direction') (c1 id' ∙ chosen _ _ _ twin) in
                let right =
                  d2 other
                  ∙ chosen _ _ _ one
                  ∙ ap (counted direction) (d1 id ∙ chosen _ _ _ twin') in
                left
                ∙ counted_comm direction direction' (get_recording_stats r id)
                ∙ ap (λ x. counted direction (counted direction' (get_recording_stats r x)))
                    (same ∙ sym same')
                ∙ sym right
            | inr two ↦ ground (
              arith,
              c1 other,
              c2 other,
              d1 other,
              d2 other,
              d1 id,
              bytes_beq_iff id' id,
              bytes_beq_iff id other,
            )
          ]
          | inr one ↦ ground (
            arith,
            c1 other,
            c2 other,
            d1 other,
            d2 other,
            c1 id',
            bytes_beq_iff id id',
            bytes_beq_iff id' other,
          )
        ],
      )
