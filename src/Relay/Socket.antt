-- ===== src/Relay/Socket.antt =====
-- apps/relay/src/lib.rs: `route_socket`, the two loops of one attached endpoint. Instants are
-- milliseconds of one clock; each message comes with the time at which the loop looked at it.
pub mod Laws
pub mod Fanout
mod Tests
use leave_cli.Prelude.{
  ℕ, ◌+◌, ◌-◌, ◌^◌, Bool, true, false, not, ◌||◌, Option, none, some, List, [], ◌∷◌, ◌++◌, ltb, leb,
  ◌==◌, if◌then◌else◌, is_err,
}
use leave_cli.Prelude.Text.{Text, text_eq}
use leave_cli.Crypto.Error.{Bytes}
use leave_cli.Envelope.{RelayEnvelope, validate_envelope}

-- What `stream.next()` yields; `failed` is an error of the stream.
pub data Message : Type 0 where
  binary : Bytes → Message
  text close ping pong failed : Message

-- `window_started` and `frames`.
pub record Window : Type 0 where
  pub started : ℕ
  pub frames : ℕ

abbrev pub max_frames_per_second : ℕ
max_frames_per_second = 100

-- `u32::saturating_add`.
abbrev saturating_add : ℕ → ℕ → ℕ
saturating_add a b = if ltb (2 ^ 32 - 1) (a + b) then 2 ^ 32 - 1 else a + b

-- The reset of the window and the count of this frame.
unfoldable pub count_frame : ℕ → Window → Window
count_frame now w =
    if leb 1000 (now - w.started)
    then record { started = now; frames = saturating_add 0 1 }
    else record { started = w.started; frames = saturating_add w.frames 1 }

module _ (decode : Bytes → Option RelayEnvelope) (parses : Text → Bool) (route_id : Text) where
  -- Whether the frame is an envelope of this route.
  unfoldable pub acceptable : Bytes → Bool
  acceptable frame = elim (decode frame) [
    | none ↦ false
    | some e ↦ not (not (text_eq e.route_id route_id) || is_err (validate_envelope parses e))
  ]

  -- One message of the reading loop: `none` is a `break`, else the window and what was published.
  unfoldable pub read_step : ℕ → Message → Window → Option (Window × List Bytes)
  read_step now (binary frame) w =
      if ltb max_frames_per_second (count_frame now w).frames
      then none
      else if acceptable frame
      then some (count_frame now w, frame ∷ [])
      else none
  read_step now text w = none
  read_step now close w = none
  read_step now failed w = none
  read_step now ping w = some (w, [])
  read_step now pong w = some (w, [])

  -- The reading loop: all frames that it publishes.
  unfoldable pub read_loop : List (ℕ × Message) → Window → List Bytes
  read_loop [] w = []
  read_loop ((now, message) ∷ rest) w = elim (read_step now message w) [
    | none ↦ []
    | some (next, published) ↦ published ++ read_loop rest next
  ]

-- What the writing loop selects: a frame of the fanout with its publisher, or the heartbeat.
pub data Event : Type 0 where
  frame : ℕ → Bytes → Event
  lagged closed tick : Event

-- What it sends on the socket.
pub data Sent : Type 0 where
  frame_sent : Bytes → Sent
  close_sent ping_sent : Sent

-- The writing loop; `delivers` says of each event whether sending succeeds then.
unfoldable pub write_loop : ℕ → List (Event × Bool) → List Sent
write_loop endpoint_id [] = []
write_loop endpoint_id ((frame from bytes, delivers) ∷ rest) =
    let further = write_loop endpoint_id rest in
    if from == endpoint_id then further else frame_sent bytes ∷ (if delivers then further else [])
write_loop endpoint_id ((lagged, delivers) ∷ rest) = close_sent ∷ []
write_loop endpoint_id ((closed, delivers) ∷ rest) = []
write_loop endpoint_id ((tick, delivers) ∷ rest) =
    let further = write_loop endpoint_id rest in ping_sent ∷ (if delivers then further else [])
