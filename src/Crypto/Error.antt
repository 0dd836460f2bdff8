-- ===== src/Crypto/Error.antt =====
-- crates/leave-crypto/src/error.rs
use Prim.Native.String.{String}
use leave_cli.Prelude.{ℕ, List, Result}

pub data CryptoError : Type 0 where
  identity key_package group seal open_failed encode : String → CryptoError
  unexpected_message unknown_device malformed_identity : CryptoError

abbrev pub Bytes : Type 0
Bytes = List ℕ

-- `crate::error::Result`.
abbrev pub Checked {ℓ} : Type ℓ → Type ℓ
Checked A = Result CryptoError A
