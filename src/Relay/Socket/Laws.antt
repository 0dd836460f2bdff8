-- ===== src/Relay/Socket/Laws.antt =====
-- What the reading loop publishes, and how fast.
use leave_cli.Prelude.{
  ℕ, ◌+◌, ◌-◌, ◌*◌, ◌/◌, ◌≤◌, ◌<◌, ◌≡◌, ◌↔◌, ◌⊎◌, inl, inr, refl, sym, ap, Bool, true, false, not,
  ◌||◌, Option, none, some, List, [], ◌∷◌, arith, length, All, is_err, ok, err, Result, leb,
  Bool-cases, Option-cases, some-injective, if◌then◌else◌,
}
use leave_cli.Prelude.Text.{Text, text_eq, text_eq_iff}
use leave_cli.Crypto.Error.{Bytes}
use leave_cli.Envelope.{RelayEnvelope, EnvelopeError, validate_envelope}
use leave_cli.Relay.Socket.{
  Message, binary, text, close, ping, pong, failed, Window, count_frame, acceptable, read_step,
  read_loop,
}

is_err_iff : (r : Result EnvelopeError (Unit {0})) → (is_err r ≡ false) ↔ (r ≡ ok tt)
is_err_iff (ok _) = (λ h. refl, λ h. refl)
is_err_iff (err e) = (λ h. cc, λ h. cc)

module _ {a c : Window} {b d : List Bytes} where
  pair_fst : ◌≡◌ {A = Option (Window × List Bytes)} (some (a, b)) (some (c, d)) → c ≡ a
  pair_fst h = sym (ap (λ x. x.0) (some-injective h))

  pair_snd : ◌≡◌ {A = Option (Window × List Bytes)} (some (a, b)) (some (c, d)) → d ≡ b
  pair_snd h = sym (ap (λ x. x.1) (some-injective h))

-- A step that counts goes on only within the limit and with an acceptable frame.
counted :
    (over good : Bool) (frame : Bytes) (c next : Window) (published : List Bytes)
    → ◌≡◌ {A = Option (Window × List Bytes)}
        (if over then none else if good then some (c, frame ∷ []) else none)
        (some (next, published))
    → (over ≡ false) × (good ≡ true) × (next ≡ c) × (published ≡ frame ∷ [])
counted true good frame c next published h = cc
counted false true frame c next published h = (refl, refl, pair_fst h, pair_snd h)
counted false false frame c next published h = cc

module _ (decode : Bytes → Option RelayEnvelope) (parses : Text → Bool) (route_id : Text) where
  -- The frame is a well-formed envelope of this route.
  abbrev pub IsRouted : Bytes → Type 0
  IsRouted frame =
      (e : RelayEnvelope) × (decode frame ≡ some e)
      × (e.route_id ≡ route_id)
      × (validate_envelope parses e ≡ ok tt)

  checks_iff :
      (e : RelayEnvelope)
      → (not (not (text_eq e.route_id route_id) || is_err (validate_envelope parses e)) ≡ true)
        ↔ ((e.route_id ≡ route_id) × (validate_envelope parses e ≡ ok tt))
  checks_iff e =
      ground (arith, text_eq_iff e.route_id route_id, is_err_iff (validate_envelope parses e))

  acceptable_iff :
      (frame : Bytes) → (acceptable decode parses route_id frame ≡ true) ↔ IsRouted frame
  unfolding acceptable
  acceptable_iff frame = of (decode frame)
    where
      of :
          (o : Option RelayEnvelope)
          → ((elim o [
            | none ↦ false
            | some e ↦
                not (not (text_eq e.route_id route_id) || is_err (validate_envelope parses e))
          ])
              ≡ true)
            ↔ ((e : RelayEnvelope) × (o ≡ some e)
                × (e.route_id ≡ route_id)
                × (validate_envelope parses e ≡ ok tt))
      of none = (λ h. cc, λ (e, h, k, l). cc)
      of (some e) = (
        λ h. let (k, l) = (checks_iff e).0 h in (e, refl, k, l),
        λ (other, same, k, l). (checks_iff e).1 (moved (sym (some-injective same)) k l),
      )
        where
          moved :
              {f : RelayEnvelope}
              → f ≡ e
              → f.route_id ≡ route_id
              → validate_envelope parses f ≡ ok tt
              → (e.route_id ≡ route_id) × (validate_envelope parses e ≡ ok tt)
          moved same k l = (cc, cc)

  -- A step that goes on either publishes nothing and keeps the window, or counts one acceptable
  -- frame within the limit and publishes it.
  read_step-cases :
      (now : ℕ) (m : Message) (w next : Window) (published : List Bytes)
      → read_step decode parses route_id now m w ≡ some (next, published)
      → ((next ≡ w) × (published ≡ []))
        ⊎ ((frame : Bytes) × (next ≡ count_frame now w)
            × (published ≡ frame ∷ [])
            × IsRouted frame
            × ((count_frame now w).frames ≤ 100))
  unfolding read_step
  read_step-cases now (binary frame) w next published h =
      let (over, good, same, out) = counted _ _ frame (count_frame now w) next published h in
      inr (frame, same, out, (acceptable_iff frame).0 good, ground arith)
  read_step-cases now text w next published h = cc
  read_step-cases now close w next published h = cc
  read_step-cases now failed w next published h = cc
  read_step-cases now ping w next published h = inl (pair_fst h, pair_snd h)
  read_step-cases now pong w next published h = inl (pair_fst h, pair_snd h)

  abbrev loop : List (ℕ × Message) → Window → List Bytes
  loop = read_loop decode parses route_id

  -- The loop stops, skips a message, or counts and publishes an acceptable frame.
  read_loop-cases :
      (now : ℕ) (m : Message) (rest : List (ℕ × Message)) (w : Window)
      → (loop ((now, m) ∷ rest) w ≡ [])
        ⊎ (loop ((now, m) ∷ rest) w ≡ loop rest w)
        ⊎ ((frame : Bytes) × IsRouted frame
            × ((count_frame now w).frames ≤ 100)
            × (loop ((now, m) ∷ rest) w ≡ frame ∷ loop rest (count_frame now w)))
  unfolding read_loop
  read_loop-cases now m rest w = elim (Option-cases (read_step decode parses route_id now m w)) [
    | inl stop ↦ inl (rw (stop, read_loop) refl)
    | inr ((next, published), on) ↦ elim (read_step-cases now m w next published on) [
      | inl (same, nothing) ↦ inr (inl (rw (on, read_loop) (rw (same, nothing) refl)))
      | inr (frame, same, one, routed, within) ↦
          inr (inr (frame, routed, within, rw (on, read_loop) (rw (same, one) refl)))
    ]
  ]

  -- Every frame that an endpoint publishes is a well-formed envelope of the route it attached to.
  pub read_loop-IsRouted :
      (messages : List (ℕ × Message)) (w : Window)
      → All IsRouted (read_loop decode parses route_id messages w)
  unfolding read_loop
  read_loop-IsRouted [] w = tt
  read_loop-IsRouted ((now, m) ∷ rest) w = elim (read_loop-cases now m rest w) [
    | inl stop ↦ rw stop tt
    | inr (inl skip) ↦ rw skip (read_loop-IsRouted rest w)
    | inr (inr (frame, routed, within, e)) ↦
        rw e (routed, read_loop-IsRouted rest (count_frame now w))
  ]

  -- No instant comes before the previous one, and none after `last`.
  abbrev pub InOrder : ℕ → ℕ → List (ℕ × Message) → Type 0
  InOrder last start [] = start ≤ last
  InOrder last start ((now, m) ∷ rest) = (start ≤ now) × InOrder last now rest

  InOrder_lem :
      (last start : ℕ) (messages : List (ℕ × Message)) → InOrder last start messages → start ≤ last
  InOrder_lem last start [] h = h
  InOrder_lem last start ((now, m) ∷ rest) (h, k) = omega (arith, h, InOrder_lem last now rest k)

  count_frame_lem :
      (now : ℕ) (w : Window)
      → w.frames ≤ 100
      → ((now < w.started + 1000)
          × (count_frame now w ≡ record { started = w.started; frames = w.frames + 1 }))
        ⊎ ((w.started + 1000 ≤ now) × (count_frame now w ≡ record { started = now; frames = 1 }))
  unfolding count_frame
  count_frame_lem now w small = elim (Bool-cases (leb 1000 (now - w.started))) [
    | inl far ↦ inr (ground arith, rw far refl)
    | inr near ↦ inl (
      ground arith,
      rw near (ap (λ f. record { started = w.started; frames = f }) (ground arith)),
    )
  ]

  -- From a window with `frames` counted, at most 100 frames for each second begun until `last`.
  bound :
      (last now : ℕ) (messages : List (ℕ × Message)) (w : Window)
      → w.started ≤ now
      → InOrder last now messages
      → w.frames ≤ 100
      → length (loop messages w) + w.frames ≤ 100 * (1 + (last - w.started) / 1000)
  unfolding read_loop
  bound last before [] w begun order small = omega arith
  bound last before ((now, m) ∷ rest) w begun (later, order) small =
      elim (read_loop-cases now m rest w) [
        | inl stop ↦ rw stop (omega arith)
        | inr (inl skip) ↦ rw skip (bound last now rest w (omega arith) order small)
        | inr (inr (frame, routed, within, e)) ↦ rw e (elim (count_frame_lem now w small) [
          | inl (near, same) ↦
              let further =
                bound last now rest (record { started = w.started; frames = w.frames + 1 })
                  (omega arith) order (omega (arith, within, ap (λ c. c.frames) same)) in
              rw same (omega arith)
          | inr (far, same) ↦
              let further =
                bound last now rest (record { started = now; frames = 1 }) (omega arith) order
                  (omega arith) in
              rw same (omega (arith, InOrder_lem last now rest order))
        ])
      ]

  -- However fast an endpoint sends, the number of its frames that are published from `start`, when the
  -- loop starts, until `last`, before which every message comes, is at most 100 times the number of
  -- seconds begun in that time. This bounds the total and not each second by itself.
  pub read_loop-rate :
      (start last : ℕ) (messages : List (ℕ × Message))
      → InOrder last start messages
      → length (read_loop decode parses route_id messages (record { started = start; frames = 0 }))
        ≤ 100 * (1 + (last - start) / 1000)
  read_loop-rate start last messages order = omega (
    arith,
    bound last start messages (record { started = start; frames = 0 }) (omega arith) order
        (omega arith),
  )
