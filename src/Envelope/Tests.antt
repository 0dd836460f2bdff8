-- ===== src/Envelope/Tests.antt =====
-- The crate's own cases, and the theorems at concrete inputs.
use leave_cli.Prelude.{ℕ, ◌≡◌, Bool, true, List, [], ◌∷◌, refl, ok, err}
use leave_cli.Prelude.Text.{Text, codes}
use leave_cli.Envelope.{RelayEnvelope, validate_envelope, empty_ciphertext}

abbrev parses : Text → Bool
parses s = true

abbrev envelope : List ℕ → RelayEnvelope
envelope bytes = record {
  version = 1;
  route_id = codes "workspace-1";
  message_id = [];
  ciphertext = bytes;
}

rejects_plain_payloads :
    (validate_envelope parses (envelope []) ≡ err empty_ciphertext)
    × (validate_envelope parses (envelope (1 ∷ [])) ≡ ok tt)
unfolding validate_envelope codes
rejects_plain_payloads = (refl, refl)
