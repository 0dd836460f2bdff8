-- ===== src/Crypto/Vault.antt =====
-- crates/leave-crypto/src/vault.rs: session state sealed for the disk, and the comparison that
-- does not leak. The cipher (XChaCha20-Poly1305) is a parameter.
pub mod Laws
mod Tests
use leave_cli.Prelude.{
  ℕ, Bool, true, false, not, Option, none, some, List, [], ◌∷◌, Result, ok, err, ok_or, ◌>>=◌, ◌>>◌,
  length, if◌then◌else◌, refuse_if, ◌==◌,
}
use leave_cli.Crypto.Error.{CryptoError, Bytes, Checked, identity, seal, open_failed}
use leave_cli.Crypto.Primitives.{Primitives}
use leave_cli.Crypto.Codec.{put_bytes, take_bytes, put_header, take_header}

abbrev pub state_key_bytes : ℕ
state_key_bytes = 32

abbrev pub nonce_bytes : ℕ
nonce_bytes = 24

-- `StateKey::from_bytes`.
unfoldable pub key_from_bytes : Bytes → Checked Bytes
key_from_bytes bytes =
    if length bytes == state_key_bytes
    then ok bytes
    else err (identity "stored state key is the wrong length")

-- `encrypt key nonce text` and `decrypt key nonce ciphertext`.
pub record Cipher : Type 0 where
  pub encrypt : Bytes → Bytes → Bytes → Option Bytes
  pub decrypt : Bytes → Bytes → Bytes → Option Bytes

-- `seal_state`, at the nonce that was drawn.
unfoldable pub seal_state : Cipher → Bytes → Bytes → Bytes → Checked Bytes
seal_state cipher key nonce state = do
  ciphertext ← ok_or (cipher.encrypt key nonce state) (seal "could not encrypt the saved session")
  ok (put_bytes (put_bytes (put_header []) nonce) ciphertext)

unfoldable pub open_state : Cipher → Bytes → Bytes → Checked Bytes
open_state cipher key sealed = do
  behind_header ← take_header sealed
  (nonce, behind_nonce) ← take_bytes behind_header
  refuse_if (not (length nonce == nonce_bytes)) (open_failed "saved session has a malformed nonce")
  (ciphertext, rest) ← take_bytes behind_nonce
  ok_or (cipher.decrypt key nonce ciphertext) (open_failed "saved session did not decrypt")

unfoldable pub subtle_eq : Primitives → Bytes → Bytes → Bool
subtle_eq p left right = if not (length left == length right) then false else p.ct_eq left right
