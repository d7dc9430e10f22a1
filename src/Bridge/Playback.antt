-- ===== src/Bridge/Playback.antt =====
-- The audio of a response on its way to the endpoint: the buffer and the loop that plays it.
use openai_gate.Base.{
  ℕ, ◌+◌, ◌*◌, ◌%◌, ◌^◌, ◌<◌, ◌≡◌, refl, true, false, List, [], ◌∷◌, ◌++◌, arith, Bytes, length,
  min, suc, ap,
}
use openai_gate.Bridge.Sessions.{
  Session, Hooks, Notice, Round, outgoing_packet, incoming_packet, ended, process_opus_output,
  process_rounds, play_frame, call_outgoing_opus_handler,
}

-- The frames that the outgoing handler is given.
abbrev pub frames_of : List Notice → List Bytes
frames_of [] = []
frames_of (outgoing_packet about frame ∷ notices) = frame ∷ frames_of notices
frames_of (incoming_packet about frame ∷ notices) = frames_of notices
frames_of (ended id reason ∷ notices) = frames_of notices

-- A session that plays: it has its endpoint, and its context is not cancelled.
pub record Plays (s : Session) : Type 0 where
  pub playing : s.is_response_playing ≡ true
  pub joined : s.has_endpoint ≡ true
  pub running : s.cancelled ≡ false

play_round :
    (h : Hooks) (s : Session) (r : Round) (frame : Bytes) (rest : List Bytes)
    → Plays s
    → h.outgoing ≡ true
    → s.opus_buffer ≡ frame ∷ rest
    → let (s', told) = process_opus_output h s r in
      (frames_of told ≡ frame ∷ [])
      × Plays s'
      × (s'.opus_buffer ≡ rest)
      × (s'.played_sample_count ≡ (s.played_sample_count + 480) % 2 ^ 64)
unfolding process_opus_output play_frame call_outgoing_opus_handler
play_round h s r frame rest p on buffer = (
  ground (arith, p.playing, p.joined, p.running),
  record {
    playing = ground (arith, p.playing, p.joined, p.running);
    joined = ground (arith, p.playing, p.joined, p.running);
    running = ground (arith, p.playing, p.joined, p.running);
  },
  ground (arith, p.playing, p.joined, p.running),
  ground (arith, p.playing, p.joined, p.running),
)

idle_round :
    (h : Hooks) (s : Session) (r : Round) → s.opus_buffer ≡ [] → process_opus_output h s r ≡ (s, [])
unfolding process_opus_output
idle_round h s r empty = ground (arith, empty)

frames_of-append : (xs ys : List Notice) → frames_of (xs ++ ys) ≡ frames_of xs ++ frames_of ys
frames_of-append [] ys = refl
frames_of-append (outgoing_packet about frame ∷ xs) ys =
    ap (λ (fs : List Bytes). frame ∷ fs) (frames_of-append xs ys)
frames_of-append (incoming_packet about frame ∷ xs) ys = frames_of-append xs ys
frames_of-append (ended id reason ∷ xs) ys = frames_of-append xs ys

-- What a run of rounds has passed on of the frames of a buffer, and what it has left.
abbrev pub Played : List Bytes → ℕ → ℕ → Session × List Notice → Type 0
Played buffer samples rounds r =
    (frames_of r.1 ++ r.0.opus_buffer ≡ buffer)
    × (length (frames_of r.1) ≡ min rounds (length buffer))
    × (r.0.played_sample_count ≡ (samples + 480 * length (frames_of r.1)) % 2 ^ 64)

process_rounds-cons :
    (h : Hooks) (s : Session) (r : Round) (rounds : List Round) (buffer : List Bytes)
    → Plays s
    → h.outgoing ≡ true
    → s.played_sample_count < 2 ^ 64
    → s.opus_buffer ≡ buffer
    → ((t : Session)
        → Plays t
        → t.played_sample_count < 2 ^ 64
        → Played t.opus_buffer t.played_sample_count (length rounds) (process_rounds h t rounds))
    → Played buffer s.played_sample_count (suc (length rounds)) (process_rounds h s (r ∷ rounds))
unfolding process_rounds
process_rounds-cons h s r rounds [] p on low e more =
    let idle = idle_round h s r e in
    let (all, count, samples) = more s p low in
    (ground (arith, idle, all, e), ground (arith, idle, count, e), ground (arith, idle, samples))
process_rounds-cons h s r rounds (frame ∷ rest) p on low e more =
    let next = (process_opus_output h s r).0 in
    let told = (process_opus_output h s r).1 in
    let (sent, plays, left, sampled) = play_round h s r frame rest p on e in
    let (all, count, samples) = more next plays (omega (arith, sampled)) in
    let parts = frames_of-append told (process_rounds h next rounds).1 in
    (
      ground (arith, parts, sent, all, left),
      ground (arith, parts, sent, count, left),
      ground (arith, parts, sent, samples, sampled),
    )

-- While a session plays, has its endpoint and is not cancelled, the outgoing handler is set and
-- the count of played samples is a 64-bit number, the rounds of the loop pass the frames of the
-- buffer on in their order, one for each round until it is empty: those passed on, followed by
-- those left, are the frames that the buffer held. Every frame passed on adds 480 to the played
-- samples, modulo 2^64, whether it was sent or not.
pub process_rounds_lem :
    (h : Hooks) (s : Session) (rounds : List Round)
    → Plays s
    → h.outgoing ≡ true
    → s.played_sample_count < 2 ^ 64
    → Played s.opus_buffer s.played_sample_count (length rounds) (process_rounds h s rounds)
unfolding process_rounds
process_rounds_lem h s [] p on low = (refl, ground arith, ground arith)
process_rounds_lem h s (r ∷ rounds) p on low =
    process_rounds-cons h s r rounds s.opus_buffer p on low refl
      (λ t q lo. process_rounds_lem h t rounds q on lo)
