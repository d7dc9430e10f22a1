-- ===== src/Bridge/Playing/Counts.antt =====
-- What a run of the playing loop takes from the buffer, passes on and counts.
use mathlib.Core.List.{Sublistᴰ}
use openai_gate.Base.{
  ℕ, suc, ◌+◌, ◌%◌, ◌^◌, ◌<◌, ◌≡◌, refl, sym, ap, subst, ◌∙◌, Bool, true, false, List, [], ◌∷◌,
  ◌++◌, append_assoc, append-nil, some, arith, Bytes, length, min, inl, inr, All, Bool-cases,
  if◌then◌else◌,
}
use openai_gate.Bridge.Sessions.{
  Session, Hooks, Notice, Round, process_opus_output, play_frame, call_outgoing_opus_handler,
}
use openai_gate.Bridge.Playback.{Plays}
use openai_gate.Bridge.Playing.{AudioEndpoint, Turn, offered, play_turn, play_turns}

module _ {E : Type 0} {X : Type 0} (ep : AudioEndpoint E X) where
  -- What a run has done: the frames that it took from the buffer, those of them that went out, and the
  -- count of these.
  abbrev pub Carried : ℕ → Session → E → Session × E × List Notice → Type 0
  Carried turns s e (s', e', told) =
      (taken : List Bytes) × (passed : List Bytes) × (taken ++ s'.opus_buffer ≡ s.opus_buffer)
      × (length taken ≡ min turns (length s.opus_buffer))
      × Sublistᴰ passed taken
      × (ep.sent_frames e' ≡ ep.sent_frames e ++ passed)
      × (s'.output_packet_count ≡ (s.output_packet_count + length passed) % 2 ^ 64)

  offered-some :
      (s : Session) (picks_done : Bool) (frame : Bytes) (rest : List Bytes)
      → Plays s
      → s.opus_buffer ≡ frame ∷ rest
      → offered s picks_done ≡ some frame
  unfolding offered
  offered-some s picks_done frame rest p buffer = rw (buffer, p.running, p.playing, p.joined) refl

  -- A turn with an empty buffer waits.
  idle_turn :
      (h : Hooks) (s : Session) (e : E) (t : Turn X)
      → s.opus_buffer ≡ []
      → play_turn ep h s e t ≡ (s, e, [])
  unfolding play_turn offered process_opus_output
  idle_turn h s e t empty = ground (arith, empty)

  -- A turn with a frame in the buffer takes it; the call of the endpoint decides whether it counts.
  abbrev Turned : Session → E → Bool → List Bytes → Session × E × List Notice → E → Type 0
  Turned s e sent rest (s', e', told) next =
      Plays s'
      × (s'.opus_buffer ≡ rest)
      × (e' ≡ next)
      × (s'.output_packet_count
          ≡ (if sent then (s.output_packet_count + 1) % 2 ^ 64 else s.output_packet_count))

  busy_turn :
      (h : Hooks) (s : Session) (e : E) (t : Turn X) (frame : Bytes) (rest : List Bytes)
      → Plays s
      → s.opus_buffer ≡ frame ∷ rest
      → let (e', sent) = ep.send_opus_frame t.found e frame in
        Turned s e sent rest (play_turn ep h s e t) e'
  unfolding play_turn offered process_opus_output play_frame call_outgoing_opus_handler
  busy_turn h s e t frame rest p buffer =
      let called = offered-some s t.picks_done frame rest p buffer in
      let r : Round = record {
        now = t.now;
        sent = (ep.send_opus_frame t.found e frame).1;
        picks_done = t.picks_done;
      } in
      rw (called, play_turn)
        (
          record {
            playing = ground (arith, p.playing, p.joined, p.running, buffer);
            joined = ground (arith, p.playing, p.joined, p.running, buffer);
            running = ground (arith, p.playing, p.joined, p.running, buffer);
          },
          ground (arith, p.playing, p.joined, p.running, buffer),
          refl,
          ground (arith, p.playing, p.joined, p.running, buffer),
        )

  Carried-nil : (s : Session) (e : E) → s.output_packet_count < 2 ^ 64 → Carried 0 s e (s, e, [])
  Carried-nil s e low = (
    [],
    [],
    refl,
    ground arith,
    Sublistᴰ.slnil,
    sym (append-nil (ep.sent_frames e)),
    ground arith,
  )

  -- One frame that was taken, before a run that carries on.
  Carried-cons :
      (n : ℕ) (s t : Session) (e next : E) (sent : Bool) (frame : Bytes) (rest : List Bytes)
      (r : Session × E × List Notice) (told : List Notice)
      → s.opus_buffer ≡ frame ∷ rest
      → t.opus_buffer ≡ rest
      → (t.output_packet_count
          ≡ (if sent then (s.output_packet_count + 1) % 2 ^ 64 else s.output_packet_count))
      → ep.sent_frames next ≡ (if sent then ep.sent_frames e ++ frame ∷ [] else ep.sent_frames e)
      → Carried n t next r
      → Carried (suc n) s e (r.0, r.1, told)
  Carried-cons n s t e next true frame rest r told buffer left count log
        (taken, passed, all, long, sub, went, counted) =
      (
        frame ∷ taken,
        frame ∷ passed,
        ap (◌∷◌ frame) (all ∙ left) ∙ sym buffer,
        ground (arith, long, buffer, left),
        Sublistᴰ.cons-cons refl sub,
        went
            ∙ ap (λ (l : List Bytes). l ++ passed) log
            ∙ append_assoc (ep.sent_frames e) (frame ∷ []) passed,
        ground (arith, counted, count),
      )
  Carried-cons n s t e next false frame rest r told buffer left count log
        (taken, passed, all, long, sub, went, counted) =
      (
        frame ∷ taken,
        passed,
        ap (◌∷◌ frame) (all ∙ left) ∙ sym buffer,
        ground (arith, long, buffer, left),
        Sublistᴰ.cons sub,
        went ∙ ap (λ (l : List Bytes). l ++ passed) log,
        counted ∙ ap (λ c. (c + length passed) % 2 ^ 64) count,
      )

  play_turns-cons :
      (h : Hooks) (s : Session) (e : E) (t : Turn X) (turns : List (Turn X)) (buffer : List Bytes)
      → Plays s
      → ep.IsReady e
      → All ep.Fits buffer
      → s.output_packet_count < 2 ^ 64
      → s.opus_buffer ≡ buffer
      → ((u : Session) (next : E)
          → Plays u
          → ep.IsReady next
          → All ep.Fits u.opus_buffer
          → u.output_packet_count < 2 ^ 64
          → Carried (length turns) u next (play_turns ep h u next turns))
      → Carried (suc (length turns)) s e (play_turns ep h s e (t ∷ turns))
  unfolding play_turns
  play_turns-cons h s e t turns [] p ready fits low empty more =
      let (taken, passed, all, long, sub, went, counted) =
        more s e p ready (subst (All ep.Fits) (sym empty) tt) low in
      rw (idle_turn h s e t empty)
        (taken, passed, all, ground (arith, long, empty), sub, went, counted)
  play_turns-cons h s e t turns (frame ∷ rest) p ready fits low buffer more =
      let next = (ep.send_opus_frame t.found e frame).0 in
      let sent = (ep.send_opus_frame t.found e frame).1 in
      let (plays, left, goes, count) = busy_turn h s e t frame rest p buffer in
      let u = (play_turn ep h s e t).0 in
      let after : E = (play_turn ep h s e t).1 in
      let log : ep.sent_frames next
          ≡ (if sent then ep.sent_frames e ++ frame ∷ [] else ep.sent_frames e) =
        elim (Bool-cases sent) [
          | inl done ↦ rw done (ep.sends t.found e frame ready fits.0 done)
          | inr failed ↦ rw failed (ep.fails t.found e frame ready failed)
        ] in
      Carried-cons (length turns) s u e after sent frame rest (play_turns ep h u after turns)
        ((play_turn ep h s e t).2 ++ (play_turns ep h u after turns).2) buffer left count
        (ap ep.sent_frames goes ∙ log)
        (more u after plays (subst ep.IsReady (sym goes) (ep.stays t.found e frame ready))
          (subst (All ep.Fits) (sym left) fits.1) (ground (arith, count, low)))

  -- While a session plays, has its endpoint and is not cancelled, its count of sent packets is a 64-bit
  -- number, its endpoint is ready and the frames of the buffer fit it: the turns of the loop take the
  -- frames from the front of the buffer, one for each turn until it is empty; the frames that go out
  -- through the endpoint are some of those taken, in their order; and the count grows by exactly their
  -- number, modulo 2^64. This holds for every endpoint that keeps the promises of `AudioEndpoint`.
  pub play_turns_lem :
      (h : Hooks) (s : Session) (e : E) (turns : List (Turn X))
      → Plays s
      → ep.IsReady e
      → All ep.Fits s.opus_buffer
      → s.output_packet_count < 2 ^ 64
      → Carried (length turns) s e (play_turns ep h s e turns)
  unfolding play_turns
  play_turns_lem h s e [] p ready fits low = Carried-nil s e low
  play_turns_lem h s e (t ∷ turns) p ready fits low =
      play_turns-cons h s e t turns s.opus_buffer p ready fits low refl
        (λ u next q r f l. play_turns_lem h u next turns q r f l)
