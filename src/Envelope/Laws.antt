-- ===== src/Envelope/Laws.antt =====
-- Which envelopes the relay routes.
use leave_cli.Prelude.{◌≤◌, ◌≡◌, ◌↔◌, ◌⊎◌, Bool, true, arith, ok, err, length}
use leave_cli.Prelude.Text.{Text}
use leave_cli.Envelope.{RelayEnvelope, validate_envelope, ciphertext_too_large, empty_ciphertext}

pub record IsRoutable (parses : Text → Bool) (e : RelayEnvelope) : Type 0 where
  pub version : e.version ≡ 1
  pub route_some : 1 ≤ length e.route_id
  pub route_most : length e.route_id ≤ 128
  pub message_id : parses e.message_id ≡ true
  pub cipher_some : 1 ≤ length e.ciphertext
  pub cipher_most : length e.ciphertext ≤ 8388608

-- The check passes exactly the envelopes of version 1 whose route identifier has 1 to 128 bytes,
-- whose message identifier is a UUID and whose ciphertext has 1 to 8 MiB.
pub validate_envelope_iff :
    (parses : Text → Bool) (e : RelayEnvelope)
    → (validate_envelope parses e ≡ ok tt) ↔ IsRoutable parses e
unfolding validate_envelope
validate_envelope_iff parses e = ground arith

-- A bad route is reported before a bad message identifier, and that before a bad ciphertext: the
-- error about the ciphertext says that the visible metadata was accepted.
pub validate_envelope-metadata_first :
    (parses : Text → Bool) (e : RelayEnvelope)
    → (validate_envelope parses e ≡ err empty_ciphertext)
      ⊎ (validate_envelope parses e ≡ err ciphertext_too_large)
    → (e.version ≡ 1)
      × (1 ≤ length e.route_id)
      × (length e.route_id ≤ 128)
      × (parses e.message_id ≡ true)
unfolding validate_envelope
validate_envelope-metadata_first parses e h = ground arith
