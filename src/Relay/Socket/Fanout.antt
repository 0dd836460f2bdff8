-- ===== src/Relay/Socket/Fanout.antt =====
-- What one endpoint hears of a route.
use leave_cli.Prelude.{
  ℕ, ◌≡◌, refl, ap, Bool, true, List, [], ◌∷◌, ◌==◌, inl, inr, All, not, keep, Bool-cases,
}
use leave_cli.Crypto.Error.{Bytes}
use leave_cli.Relay.Socket.{
  Event, frame, lagged, closed, tick, Sent, frame_sent, close_sent, ping_sent, write_loop,
}

-- The frames among what was sent.
abbrev pub frames_of : List Sent → List Bytes
frames_of [] = []
frames_of (frame_sent b ∷ rest) = b ∷ frames_of rest
frames_of (close_sent ∷ rest) = frames_of rest
frames_of (ping_sent ∷ rest) = frames_of rest

-- What the fanout carried until the first lag or its end, with the publishers.
abbrev pub carried : List (Event × Bool) → List (ℕ × Bytes)
carried [] = []
carried ((frame from b, s) ∷ rest) = (from, b) ∷ carried rest
carried ((lagged, s) ∷ rest) = []
carried ((closed, s) ∷ rest) = []
carried ((tick, s) ∷ rest) = carried rest

abbrev pub by_other : ℕ → ℕ × Bytes → Bool
by_other me (from, b) = not (from == me)

abbrev pub bytes_of : List (ℕ × Bytes) → List Bytes
bytes_of [] = []
bytes_of ((from, b) ∷ rest) = b ∷ bytes_of rest

-- Every send succeeds.
abbrev pub IsConnected : Event × Bool → Type 0
IsConnected (e, s) = s ≡ true

-- While the socket takes what is sent, an endpoint hears exactly the other endpoints' frames, in
-- the order of the route, and never its own, up to the first lag.
pub write_loop-fanout :
    (me : ℕ) (events : List (Event × Bool))
    → All IsConnected events
    → frames_of (write_loop me events) ≡ bytes_of (keep (by_other me) (carried events))
unfolding write_loop
write_loop-fanout me [] h = refl
write_loop-fanout me ((frame from b, s) ∷ rest) (h, hs) =
    let further = write_loop-fanout me rest hs in
    elim (Bool-cases (from == me)) [
      | inl own ↦ rw own further
      | inr other ↦ rw (other, h) (ap (λ t. b ∷ t) further)
    ]
write_loop-fanout me ((lagged, s) ∷ rest) (h, hs) = refl
write_loop-fanout me ((closed, s) ∷ rest) (h, hs) = refl
write_loop-fanout me ((tick, s) ∷ rest) (h, hs) = rw h (write_loop-fanout me rest hs)
