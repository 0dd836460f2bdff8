-- ===== src/Envelope.antt =====
-- crates/leave-protocol/src/lib.rs: `validate_envelope`, the check of what the blind relay can see.
pub mod Laws
mod Tests
use leave_cli.Prelude.{
  ℕ, ◌*◌, Bool, true, false, not, ◌||◌, List, [], ◌∷◌, Result, ok, err, refuse_if, ◌>>◌, ◌>>=◌, ltb,
  ◌==◌, length,
}
use leave_cli.Prelude.Text.{Text, is_empty}

abbrev pub protocol_version : ℕ
protocol_version = 1

abbrev pub max_ciphertext_bytes : ℕ
max_ciphertext_bytes = 8 * 1024 * 1024

-- proto/leave.proto, as far as the check reads it.
pub record RelayEnvelope : Type 0 where
  pub version : ℕ
  pub route_id : Text
  pub message_id : Text
  pub ciphertext : List ℕ

pub data EnvelopeError : Type 0 where
  unsupported_version : ℕ → EnvelopeError
  invalid_route invalid_message_id ciphertext_too_large empty_ciphertext : EnvelopeError

-- `parses` is `Uuid::parse_str(..).is_ok()` of the uuid crate.
unfoldable pub validate_envelope : (Text → Bool) → RelayEnvelope → Result EnvelopeError (Unit {0})
validate_envelope parses e = do
  refuse_if (not (e.version == protocol_version)) (unsupported_version e.version)
  refuse_if (is_empty e.route_id || ltb 128 (length e.route_id)) invalid_route
  refuse_if (not (parses e.message_id)) invalid_message_id
  refuse_if (is_empty e.ciphertext) empty_ciphertext
  refuse_if (ltb max_ciphertext_bytes (length e.ciphertext)) ciphertext_too_large
  ok tt
