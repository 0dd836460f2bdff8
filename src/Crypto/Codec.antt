-- ===== src/Crypto/Codec.antt =====
-- crates/leave-crypto/src/codec.rs: the length-prefixed encoding of saved state. Writing appends to
-- the buffer; reading returns the value and the cursor behind it.
pub mod Laws
mod Tests
use leave_cli.Prelude.{
  ℕ, zero, suc, ◌+◌, ◌-◌, ◌*◌, ◌/◌, ◌%◌, ◌^◌, Bool, true, false, not, Option, none, some, List, [],
  ◌∷◌, ◌++◌, Result, ok, err, ok_or, refuse_if, ◌>>=◌, ◌>>◌, leb, ◌==◌, if◌then◌else◌, length, take,
  drop,
}
use leave_cli.Prelude.Text.{Text, codes, text_eq}
use leave_cli.Crypto.Error.{CryptoError, group, Bytes, Checked}

unfoldable pub magic : Bytes
unfolding codes
magic = codes "LEAVEMLS"

abbrev pub state_version : ℕ
state_version = 1

abbrev pub max_u32 : ℕ
max_u32 = 2 ^ 32 - 1

-- `u32::try_from(n).unwrap_or(u32::MAX)`.
unfoldable pub saturated : ℕ → ℕ
saturated n = if leb n max_u32 then n else max_u32

-- `u32::to_be_bytes`.
unfoldable pub to_be_bytes : ℕ → Bytes
to_be_bytes n = (n / 16777216 % 256) ∷ (n / 65536 % 256) ∷ (n / 256 % 256) ∷ (n % 256) ∷ []

-- `<[u8; 4]>::try_from`, then `u32::from_be_bytes`.
unfoldable pub from_be_bytes : Bytes → Option ℕ
from_be_bytes (a ∷ b ∷ c ∷ d ∷ []) = some (a * 16777216 + b * 65536 + c * 256 + d)
from_be_bytes _ = none

-- `slice::split_at_checked`.
unfoldable pub split_at_checked : ℕ → Bytes → Option (Bytes × Bytes)
split_at_checked n bytes = if leb n (length bytes) then some (take n bytes, drop n bytes) else none

unfoldable pub put_bytes : Bytes → Bytes → Bytes
put_bytes buffer value = (buffer ++ to_be_bytes (saturated (length value))) ++ value

unfoldable pub take_bytes : Bytes → Checked (Bytes × Bytes)
take_bytes cursor = do
  (prefix, rest) ← ok_or (split_at_checked 4 cursor) (group "saved session ended inside a length")
  length ← ok_or (from_be_bytes prefix) (group "saved session has a malformed length")
  ok_or (split_at_checked length rest) (group "saved session ended inside a value")

unfoldable pub put_count : Bytes → ℕ → Bytes
put_count buffer count = buffer ++ to_be_bytes (saturated count)

unfoldable pub take_count : Bytes → Checked (ℕ × Bytes)
take_count cursor = do
  (prefix, rest) ← ok_or (split_at_checked 4 cursor) (group "saved session ended inside a count")
  count ← ok_or (from_be_bytes prefix) (group "saved session has a malformed count")
  ok (count, rest)

unfoldable pub put_header : Bytes → Bytes
put_header buffer = (buffer ++ magic) ++ state_version ∷ []

abbrev header_version : Bytes → ℕ
header_version [] = 0
header_version (b ∷ bs) = b

-- The header is `magic` and one byte of version.
unfoldable pub take_header : Bytes → Checked Bytes
take_header cursor = do
  (header, rest) ←
      ok_or (split_at_checked (length magic + 1) cursor) (group "saved session is truncated")
  refuse_if (not (text_eq (take (length magic) header) magic)) (group "not a Leave session state")
  refuse_if (not (header_version (drop (length magic) header) == state_version))
      (group "saved session uses an unsupported state version")
  ok rest
