-- ===== src/Transport/Delivery.antt =====
-- The host's frames against the relay's check and the other end.
use leave_cli.Prelude.{
  ◌≡◌, ◌≤◌, refl, ap, sym, ◌∙◌, inl, inr, Bool, true, false, Option, none, some, List, [], ◌∷◌,
  ◌++◌, Result, ok, err, ltb, ◌==◌, length, arith, Bool-cases, Option-cases,
}
use leave_cli.Prelude.Text.{Text, text_eq, text_eq_refl, text_eq_iff, is_empty}
use leave_cli.Crypto.Error.{Bytes}
use leave_cli.Envelope.{RelayEnvelope, validate_envelope, max_ciphertext_bytes}
use leave_cli.Transport.{
  TransportError, EnvelopeCodec, RelayMessage, binary, closing, text_frame, ping, pong, raw_frame,
  failed_message, envelope_of, send, recv,
}

ok_value-injective : {a b : Bytes} → ◌≡◌ {A = Result TransportError Bytes} (ok a) (ok b) → a ≡ b
ok_value-injective {a} e =
    ap (λ (r : Result TransportError Bytes). let v : Bytes = elim r [ ok x ↦ x | err y ↦ a ] in v) e

payload_of : Bytes → Result TransportError (Option Bytes) → Bytes
payload_of before (err e) = before
payload_of before (ok none) = before
payload_of before (ok (some s)) = s

payload-injective :
    {a b : Bytes}
    → ◌≡◌ {A = Result TransportError (Option Bytes)} (ok (some a)) (ok (some b))
    → a ≡ b
unfolding payload_of
payload-injective {a} e = ap (payload_of a) e

module _ (codec : EnvelopeCodec) (route_id : Text) where
  -- What `send` checked of a frame that it published.
  send-ok :
      (message_id : Text) (published : Bool) (ciphertext : Bytes) {frame : Bytes}
      → send codec route_id message_id published ciphertext ≡ ok frame
      → (is_empty ciphertext ≡ false)
        × (ltb max_ciphertext_bytes (length ciphertext) ≡ false)
        × (codec.encode (envelope_of codec route_id message_id ciphertext) ≡ frame)
  unfolding send
  send-ok message_id published ciphertext h = elim (Bool-cases (is_empty ciphertext)) [
    | inl empty ↦ cc (rw empty at h)
    | inr says ↦ elim (Bool-cases (ltb max_ciphertext_bytes (length ciphertext))) [
      | inl large ↦ cc (rw (says, large) at h)
      | inr fits ↦ elim (Bool-cases published) [
        | inl out ↦ (says, fits, ok_value-injective (rw (says, fits, out) at h))
        | inr lost ↦ cc (rw (says, fits, lost) at h)
      ]
    ]
  ]

  -- A frame that the host publishes passes the relay's check, and the other end of the route receives
  -- exactly the ciphertext, as long as the codec decodes what it encoded of this envelope, the fresh
  -- identifier parses and the route's identifier has 1 to 128 bytes.
  pub send-delivered :
      (parses : Text → Bool) (message_id : Text) (published : Bool) (ciphertext : Bytes)
      (frame : Bytes) (rest : List RelayMessage)
      → codec.decode (codec.encode (envelope_of codec route_id message_id ciphertext))
        ≡ some (envelope_of codec route_id message_id ciphertext)
      → parses message_id ≡ true
      → is_empty route_id ≡ false
      → length route_id ≤ 128
      → send codec route_id message_id published ciphertext ≡ ok frame
      → ((e : RelayEnvelope) × (codec.decode frame ≡ some e) × (validate_envelope parses e ≡ ok tt))
        × (recv codec route_id (binary frame ∷ rest) ≡ (ok (some ciphertext), rest))
  unfolding validate_envelope recv
  send-delivered parses message_id published ciphertext frame rest inverse fresh named short sent =
      let (says, fits, made) = send-ok message_id published ciphertext sent in
      let decoded = ap codec.decode (sym made) ∙ inverse in
      let routed : ltb 128 (length route_id) ≡ false = ground arith in
      (
        (
          envelope_of codec route_id message_id ciphertext,
          decoded,
          rw (named, routed, fresh, says, fits) refl,
        ),
        rw (decoded, recv, text_eq_refl route_id) refl,
      )

  -- The bytes that `recv` hands over came in a frame of this route.
  pub recv-routed :
      (messages : List RelayMessage) (ciphertext : Bytes)
      → (recv codec route_id messages).0 ≡ ok (some ciphertext)
      → (before : List RelayMessage) × (frame : Bytes) × (e : RelayEnvelope) × (messages
          ≡ before ++ binary frame ∷ (recv codec route_id messages).1)
        × (codec.decode frame ≡ some e)
        × (e.route_id ≡ route_id)
        × (e.ciphertext ≡ ciphertext)
  unfolding recv
  recv-routed [] ciphertext h = cc
  recv-routed (failed_message ∷ rest) ciphertext h = cc
  recv-routed (closing none ∷ rest) ciphertext h = cc
  recv-routed (closing (some (code, reason)) ∷ rest) ciphertext h =
      elim (Bool-cases (code == 1000)) [
        | inl normal ↦ cc (rw normal at h)
        | inr odd ↦ cc (rw odd at h)
      ]
  recv-routed (text_frame ∷ rest) ciphertext h = cc
  recv-routed (ping ∷ rest) ciphertext h =
      let (before, frame, e, where_at, decoded, routed, same) = recv-routed rest ciphertext h in
      (ping ∷ before, frame, e, ap (λ t. ping ∷ t) where_at, decoded, routed, same)
  recv-routed (pong ∷ rest) ciphertext h =
      let (before, frame, e, where_at, decoded, routed, same) = recv-routed rest ciphertext h in
      (pong ∷ before, frame, e, ap (λ t. pong ∷ t) where_at, decoded, routed, same)
  recv-routed (raw_frame ∷ rest) ciphertext h =
      let (before, frame, e, where_at, decoded, routed, same) = recv-routed rest ciphertext h in
      (raw_frame ∷ before, frame, e, ap (λ t. raw_frame ∷ t) where_at, decoded, routed, same)
  recv-routed (binary frame ∷ rest) ciphertext h = elim (Option-cases (codec.decode frame)) [
    | inl broken ↦ cc (rw (broken, recv) at h)
    | inr (e, decoded) ↦ elim (Bool-cases (text_eq e.route_id route_id)) [
      | inl mine ↦ (
        [],
        frame,
        e,
        rw (decoded, mine, recv) refl,
        decoded,
        (text_eq_iff e.route_id route_id).0 mine,
        payload-injective (rw (decoded, mine, recv) at h),
      )
      | inr other ↦
          let (before, f, d, where_at, found, routed, same) =
            recv-routed rest ciphertext (rw (decoded, other, recv) at h) in
          (
            binary frame ∷ before,
            f,
            d,
            rw (decoded, other, recv) (ap (λ t. binary frame ∷ t) where_at),
            found,
            routed,
            same,
          )
    ]
  ]
