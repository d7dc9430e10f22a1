-- ===== src/Tests/Playing.antt =====
-- A run of the playing loop with a SIP endpoint and with a browser.
use openai_gate.Base.{ℕ, refl, false, List, [], ◌∷◌, arith, codes}
use openai_gate.Sip.Rtp.{Attempt}
use openai_gate.Sip.Rtp.Playing.{Line, sip_audio}
use openai_gate.Bridge.Sessions.{Session}
use openai_gate.Bridge.Playing.{Turn, play_turns}
use openai_gate.Bridge.Playing.Counts.{Carried, play_turns_lem}
use openai_gate.Tests.Data.{hello, noon, talking, handlers_set}
use openai_gate.Tests.Packets.{format, endpoint, fresh, third, endpoint_InWidth}

abbrev two_frames : Session
two_frames = record talking { opus_buffer = hello ∷ codes "later" ∷ [] }

abbrev line : Line
line = record { endpoint = endpoint; counters = fresh; written = [] }

-- Two turns, in each of which the third attempt finds an address.
abbrev turns : List (Turn (ℕ → Attempt))
turns =
    record { now = noon; picks_done = false; found = third }
    ∷ record { now = noon; picks_done = false; found = third }
    ∷ []

play_turns_lem_example :
    Carried
      (sip_audio format)
      2
      two_frames
      line
      (play_turns (sip_audio format) handlers_set two_frames line turns)
unfolding sip_audio
play_turns_lem_example =
    play_turns_lem (sip_audio format) handlers_set two_frames line turns
      (record { playing = refl; joined = refl; running = refl })
      (record { width = endpoint_InWidth; count = omega arith; active = refl; opened = refl })
      (omega arith) (omega arith)
