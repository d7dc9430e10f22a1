-- ===== src/Recorder/Timecodes.antt =====
-- The blocks of a track: their frames, and their timecodes relative to the first packet.
use openai_gate.Base.{ℕ, ◌≤◌, ◌≡◌, refl, ap, List, [], ◌∷◌, map, arith, Bytes, All}
use openai_gate.Base.Apart.{Apart}
use openai_gate.Text.Decimal.Int.{ℤ, pos, negsuc}
use openai_gate.Recorder.{OpusPacket, blocks, timecode, elapsed}

infix 4 ◌≤ℤ◌
abbrev pub ◌≤ℤ◌ : ℤ → ℤ → Type 0
pos a ≤ℤ pos b = a ≤ b
pos a ≤ℤ negsuc b = ⊥
negsuc a ≤ℤ pos b = Unit
negsuc a ≤ℤ negsuc b = b ≤ a

-- Packets in the order of their times.
abbrev pub InOrder : List OpusPacket → Type 0
InOrder = Apart (λ (p : OpusPacket) (q : OpusPacket). p.timestamp ≤ℤ q.timestamp)

-- Blocks whose timecodes do not fall.
abbrev pub Rising : List (ℕ × Bytes) → Type 0
Rising = Apart (λ (b : ℕ × Bytes) (c : ℕ × Bytes). b.0 ≤ c.0)

elapsed_mono : (base t u : ℤ) → t ≤ℤ u → elapsed base t ≤ elapsed base u
unfolding elapsed
elapsed_mono (pos a) (pos t) (pos u) h = omega arith
elapsed_mono (pos a) (pos t) (negsuc u) h = absurd h
elapsed_mono (pos a) (negsuc t) (pos u) h = omega arith
elapsed_mono (pos a) (negsuc t) (negsuc u) h = omega arith
elapsed_mono (negsuc a) (pos t) (pos u) h = omega arith
elapsed_mono (negsuc a) (pos t) (negsuc u) h = absurd h
elapsed_mono (negsuc a) (negsuc t) (pos u) h = omega arith
elapsed_mono (negsuc a) (negsuc t) (negsuc u) h = omega arith

elapsed_self : (base : ℤ) → elapsed base base ≡ 0
unfolding elapsed
elapsed_self (pos a) = omega arith
elapsed_self (negsuc a) = omega arith

timecode_mono :
    (base : ℤ) (p q : OpusPacket) → p.timestamp ≤ℤ q.timestamp → timecode base p ≤ timecode base q
unfolding timecode
timecode_mono base p q h = omega (arith, elapsed_mono base p.timestamp q.timestamp h)

blocks-All :
    (base : ℤ) (p : OpusPacket) (ps : List OpusPacket)
    → All (λ (q : OpusPacket). p.timestamp ≤ℤ q.timestamp) ps
    → All (λ (c : ℕ × Bytes). timecode base p ≤ c.0) (blocks base ps)
unfolding blocks
blocks-All base p [] h = tt
blocks-All base p (q ∷ ps) h = (timecode_mono base p q h.0, blocks-All base p ps h.1)

blocks-Rising : (base : ℤ) (ps : List OpusPacket) → InOrder ps → Rising (blocks base ps)
unfolding blocks
blocks-Rising base [] h = tt
blocks-Rising base (p ∷ ps) h = (blocks-All base p ps h.0, blocks-Rising base ps h.1)

blocks-frames :
    (base : ℤ) (ps : List OpusPacket) → map (λ b. b.1) (blocks base ps) ≡ map (λ p. p.frame) ps
unfolding blocks
blocks-frames base [] = refl
blocks-frames base (p ∷ ps) = ap (λ (fs : List Bytes). p.frame ∷ fs) (blocks-frames base ps)

-- The blocks of packets in the order of their times, counted from the first one, hold the frames in
-- that order; their timecodes begin at 0 and do not fall.
pub blocks_lem :
    (p : OpusPacket) (ps : List OpusPacket)
    → InOrder (p ∷ ps)
    → let bs = blocks p.timestamp (p ∷ ps) in
      (map (λ b. b.1) bs ≡ map (λ q. q.frame) (p ∷ ps)) × Rising bs × (timecode p.timestamp p ≡ 0)
blocks_lem p ps h = (
  blocks-frames p.timestamp (p ∷ ps),
  blocks-Rising p.timestamp (p ∷ ps) h,
  unfold timecode in omega (arith, elapsed_self p.timestamp),
)
