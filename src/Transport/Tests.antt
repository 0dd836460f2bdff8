-- ===== src/Transport/Tests.antt =====
-- Runs of the transport on small inputs.
use leave_cli.Prelude.{◌≡◌, refl, true, some, [], ◌∷◌, ok, arith}
use leave_cli.Envelope.{RelayEnvelope, validate_envelope}
use leave_cli.Transport.{EnvelopeCodec, binary, ping, send, recv}
use leave_cli.Transport.Delivery.{send-delivered}

abbrev sent_envelope : RelayEnvelope
sent_envelope = record {
  version = 1;
  route_id = b'r' ∷ [];
  message_id = b'm' ∷ [];
  ciphertext = 5 ∷ 6 ∷ [];
}

-- A codec that knows one envelope.
abbrev one_codec : EnvelopeCodec
one_codec = record { encode = λ e. 9 ∷ []; decode = λ b. some sent_envelope }

send-delivered_example :
    ((e : RelayEnvelope) × (one_codec.decode (9 ∷ []) ≡ some e)
      × (validate_envelope (λ id. true) e ≡ ok tt))
    × (recv one_codec (b'r' ∷ []) (binary (9 ∷ []) ∷ ping ∷ [])
        ≡ (ok (some (5 ∷ 6 ∷ [])), ping ∷ []))
unfolding send
send-delivered_example =
    send-delivered one_codec (b'r' ∷ []) (λ id. true) (b'm' ∷ []) true (5 ∷ 6 ∷ []) (9 ∷ [])
      (ping ∷ []) refl refl refl (omega arith) refl
