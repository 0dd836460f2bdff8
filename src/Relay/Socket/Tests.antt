-- ===== src/Relay/Socket/Tests.antt =====
-- The theorems at concrete inputs.
use leave_cli.Prelude.{
  ℕ, ◌≡◌, ◌≤◌, ◌+◌, ◌*◌, ◌/◌, ◌-◌, refl, Bool, true, Option, none, some, List, [], ◌∷◌, arith,
  length, All, keep,
}
use leave_cli.Prelude.Text.{Text, text_eq}
use leave_cli.Crypto.Error.{Bytes}
use leave_cli.Envelope.{RelayEnvelope, validate_envelope}
use leave_cli.Relay.Socket.{
  Message, binary, ping, text, count_frame, acceptable, read_step, read_loop, Event, frame, lagged,
  tick, frame_sent, ping_sent, close_sent, write_loop,
}
use leave_cli.Relay.Socket.Laws.{IsRouted, read_loop-IsRouted, read_loop-rate}
use leave_cli.Relay.Socket.Fanout.{frames_of, carried, by_other, bytes_of, write_loop-fanout}

-- A frame of one byte is an envelope for the route `r` with that byte as its ciphertext.
abbrev decode_one : Bytes → Option RelayEnvelope
decode_one [] = none
decode_one (b ∷ r) =
    some (record { version = 1; route_id = b'r' ∷ []; message_id = b'm' ∷ []; ciphertext = b ∷ [] })

abbrev any_uuid : Text → Bool
any_uuid t = true

abbrev traffic : List (ℕ × Message)
traffic =
    (5, binary (7 ∷ []))
    ∷ (6, ping)
    ∷ (1400, binary (8 ∷ []))
    ∷ (1401, text)
    ∷ (1402, binary (9 ∷ []))
    ∷ []

run : Unit {0}
unfolding count_frame acceptable read_step read_loop validate_envelope write_loop text_eq
run = tt

text_ends_the_loop :
    read_loop decode_one any_uuid (b'r' ∷ []) traffic (record { started = 0; frames = 0 })
    ≡ (7 ∷ []) ∷ (8 ∷ []) ∷ []
unfolding run
text_ends_the_loop = refl

read_loop-IsRouted_example :
    All
      (IsRouted decode_one any_uuid (b'r' ∷ []))
      (read_loop decode_one any_uuid (b'r' ∷ []) traffic (record { started = 0; frames = 0 }))
read_loop-IsRouted_example =
    read_loop-IsRouted decode_one any_uuid (b'r' ∷ []) traffic (record { started = 0; frames = 0 })

read_loop-rate_example :
    length (read_loop decode_one any_uuid (b'r' ∷ []) traffic (record { started = 0; frames = 0 }))
    ≤ 100 * (1 + (1500 - 0) / 1000)
read_loop-rate_example =
    read_loop-rate decode_one any_uuid (b'r' ∷ []) 0 1500 traffic
      (omega arith, (omega arith, (omega arith, (omega arith, (omega arith, omega arith)))))

abbrev heard : List (Event × Bool)
heard =
    (frame 1 (7 ∷ []), true)
    ∷ (tick, true)
    ∷ (frame 2 (8 ∷ []), true)
    ∷ (lagged, true)
    ∷ (frame 3 (9 ∷ []), true)
    ∷ []

own_frames_are_skipped : write_loop 1 heard ≡ ping_sent ∷ frame_sent (8 ∷ []) ∷ close_sent ∷ []
unfolding run
own_frames_are_skipped = refl

write_loop-fanout_example :
    frames_of (write_loop 1 heard) ≡ bytes_of (keep (by_other 1) (carried heard))
write_loop-fanout_example = write_loop-fanout 1 heard (refl, (refl, (refl, (refl, (refl, tt)))))
