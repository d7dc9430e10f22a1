-- ===== src/Tests/Recording.antt =====
-- A run of the making of a recording's file, with an insertion sort for Go's sort.
use openai_gate.Base.{
  ℕ, ◌≡◌, ◌≢◌, ◌↔◌, ◌⊎◌, refl, bytes_eq, not, Bool, true, false, List, [], ◌∷◌, ◌++◌, some, arith,
  Bytes, leb,
}
use mathlib.Core.List.Permᴰ
use openai_gate.Base.Membership.{In}
use openai_gate.Base.Apart.{Apart, Reorders}
use openai_gate.Text.Decimal.Int.{ℤ, pos, negsuc}
use openai_gate.Mdbx.Reference.{reference, reference_laws}
use openai_gate.Bridge.Sessions.{ai_source, user_source}
use openai_gate.Recorder.{OpusPacket, track_name, create_webm_data}
use openai_gate.Recorder.Timecodes.{InOrder, ◌≤ℤ◌}
use openai_gate.Recorder.Loading.{IsStored}
use openai_gate.Recorder.Webm.{Made, create_webm_data_lem}
use openai_gate.Text.Order.{bytes_lt}
use openai_gate.Api.{TranscriptMessage}
use openai_gate.Tests.Sorting.{insertion_sort, insertion_sort-perm, insertion_sort-Apart}
use openai_gate.Tests.Store.{heard_WellKeyed}
use openai_gate.Tests.Data.{heard, call_1, user, in_order, in_order_visits}

not_after : ℤ → ℤ → Bool
not_after (pos a) (pos b) = leb a b
not_after (pos a) (negsuc b) = false
not_after (negsuc a) (pos b) = true
not_after (negsuc a) (negsuc b) = leb b a

not_after-yes : (a b : ℤ) → not_after a b ≡ true → a ≤ℤ b
unfolding not_after
not_after-yes (pos a) (pos b) h = ground (arith, h)
not_after-yes (pos a) (negsuc b) h = cc h
not_after-yes (negsuc a) (pos b) h = tt
not_after-yes (negsuc a) (negsuc b) h = ground (arith, h)

not_after-no : (a b : ℤ) → not_after a b ≡ false → b ≤ℤ a
unfolding not_after
not_after-no (pos a) (pos b) h = ground (arith, h)
not_after-no (pos a) (negsuc b) h = tt
not_after-no (negsuc a) (pos b) h = cc h
not_after-no (negsuc a) (negsuc b) h = ground (arith, h)

le_trans : (a b c : ℤ) → a ≤ℤ b → b ≤ℤ c → a ≤ℤ c
le_trans (pos a) (pos b) (pos c) h k = omega arith
le_trans (pos a) (pos b) (negsuc c) h k = k
le_trans (pos a) (negsuc b) c h k = absurd h
le_trans (negsuc a) b (pos c) h k = tt
le_trans (negsuc a) (pos b) (negsuc c) h k = absurd k
le_trans (negsuc a) (negsuc b) (negsuc c) h k = omega arith

earlier : OpusPacket → OpusPacket → Bool
earlier p q = not_after p.timestamp q.timestamp

by_time : List OpusPacket → List OpusPacket
by_time = insertion_sort earlier

by_time-InOrder : (ps : List OpusPacket) → InOrder (by_time ps)
unfolding by_time earlier
by_time-InOrder =
    insertion_sort-Apart earlier _ (λ p q. not_after-yes p.timestamp q.timestamp)
      (λ p q. not_after-no p.timestamp q.timestamp)
      (λ p q r. le_trans p.timestamp q.timestamp r.timestamp)

by_time-perm : Reorders by_time
unfolding by_time
by_time-perm = insertion_sort-perm earlier

-- A writer that puts the frames of the blocks together behind the name.
joined : List (ℕ × Bytes) → Bytes
joined [] = []
joined (b ∷ bs) = b.1 ++ joined bs

create_webm_data_lem_example :
    (ps : List OpusPacket) × InOrder ps
    × Apart (λ (p : OpusPacket) (q : OpusPacket). p.timestamp ≢ q.timestamp) ps
    × ((p : OpusPacket)
        → In p ps
          ↔ (((user ≡ ai_source) ⊎ (user ≡ user_source)) × IsStored reference heard call_1 user p))
    × Made
        (λ name bs. some (name ++ joined bs))
        (track_name user call_1)
        ps
        (create_webm_data reference in_order
          (λ es. es)
          by_time
          (λ name bs. some (name ++ joined bs))
          heard
          call_1
          user)
create_webm_data_lem_example =
    create_webm_data_lem reference reference_laws in_order in_order_visits (λ es. es)
      (λ es. Permᴰ.refl es) by_time by_time-perm by_time-InOrder
      (λ name bs. some (name ++ joined bs)) heard call_1 user (omega arith) heard_WellKeyed
      (refl, refl)

-- A later time is not less as a string.
by_string : TranscriptMessage → TranscriptMessage → Bool
by_string a b = not (bytes_lt b.time a.time)
