-- ===== src/Crypto/Codec/Tests.antt =====
-- The crate's own cases, and the theorems at concrete inputs.
use leave_cli.Prelude.{◌≡◌, refl, [], ◌∷◌, ◌++◌, ok, err}
use leave_cli.Prelude.Text.{codes, text_eq}
use leave_cli.Crypto.Error.{Bytes, group}
use leave_cli.Crypto.Codec.{
  put_bytes, take_bytes, put_header, take_header, split_at_checked, from_be_bytes, to_be_bytes,
  saturated, magic,
}

run : Unit {0}
unfolding put_bytes take_bytes put_header take_header split_at_checked from_be_bytes to_be_bytes
    saturated magic codes text_eq
run = tt

runs :
    (take_bytes (0 ∷ 0 ∷ 0 ∷ 1 ∷ 7 ∷ 9 ∷ []) ≡ ok (7 ∷ [], 9 ∷ []))
    × (take_bytes (0 ∷ 0 ∷ 0 ∷ 3 ∷ 7 ∷ []) ≡ err (group "saved session ended inside a value"))
    × (take_header (codes "LEAVE") ≡ err (group "saved session is truncated"))
    × (take_header (magic ++ 2 ∷ [])
        ≡ err (group "saved session uses an unsupported state version"))
unfolding run
runs = (refl, refl, refl, refl)

abbrev framed : Bytes
framed = 0 ∷ 0 ∷ 0 ∷ 1 ∷ 7 ∷ 9 ∷ []
