-- ===== src/Base64/Tests.antt =====
-- Runs, and the theorem at a concrete input.
use leave_cli.Prelude.{◌≡◌, refl, [], ◌∷◌, ok, err, arith}
use leave_cli.Prelude.Text.{codes}
use leave_cli.Base64.{
  serialize, deserialize, decode_loop, take_bits, encode_chunk, encode_at, symbol, packed, at,
  alphabet, position, invalid_base64,
}
use leave_cli.Base64.RoundTrip.{deserialize-serialize}

run : Unit {0}
unfolding serialize deserialize decode_loop take_bits encode_chunk encode_at symbol packed at
    alphabet position codes
run = tt

runs :
    (serialize (codes "leave") ≡ codes "bGVhdmU=")
    × (serialize (codes "l") ≡ codes "bA==")
    × (deserialize (codes "bGVhdmU=") ≡ ok (codes "leave"))
    × (deserialize (codes "b-") ≡ err invalid_base64)
unfolding run
runs = (refl, refl, refl, refl)

deserialize-serialize_example :
    deserialize (serialize (0 ∷ 255 ∷ 128 ∷ 7 ∷ [])) ≡ ok (0 ∷ 255 ∷ 128 ∷ 7 ∷ [])
deserialize-serialize_example = deserialize-serialize (0 ∷ 255 ∷ 128 ∷ 7 ∷ []) (omega arith)
