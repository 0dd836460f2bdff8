-- ===== src/Crypto/Pairing.antt =====
-- crates/leave-crypto/src/pairing.rs: the frames by which a phone joins a workspace. The group is
-- of the MLS library: `Session`, with the two parts of an invitation, is a parameter.
pub mod Frames
pub mod Admission
mod Tests
use leave_cli.Prelude.{
  ℕ, Bool, true, false, not, ◌||◌, Option, none, some, List, [], ◌∷◌, ◌++◌, Result, ok, err, ok_or,
  ◌>>=◌, ◌>>◌, refuse_if, ◌==◌, if◌then◌else◌, length,
}
use leave_cli.Prelude.Text.{codes}
use leave_cli.Crypto.Error.{CryptoError, Bytes, Checked, identity, key_package, unexpected_message}
use leave_cli.Crypto.Primitives.{Primitives}
use leave_cli.Crypto.Codec.{put_bytes, take_bytes, put_header, take_header}
use leave_cli.Crypto.Vault.{subtle_eq}

abbrev pub pairing_secret_bytes : ℕ
pairing_secret_bytes = 32

abbrev pub kind_request : ℕ
kind_request = 1

abbrev pub kind_welcome : ℕ
kind_welcome = 2

unfoldable pub tag_context : Bytes
unfolding codes
tag_context = codes "leave pairing tag v1"

pub record Invitation : Type 0 where
  pub commit : Bytes
  pub welcome : Bytes

-- `PairingSecret::from_bytes`.
unfoldable pub secret_from_bytes : Bytes → Checked Bytes
secret_from_bytes bytes =
    if length bytes == pairing_secret_bytes
    then ok bytes
    else err (identity "pairing secret is the wrong length")

-- `PairingSecret::tag`.
unfoldable pub tag : Primitives → Bytes → Bytes → Bytes
tag p secret offered = p.keyed_hash secret tag_context offered

unfoldable pub pairing_request : Primitives → Bytes → Bytes → Bytes
pairing_request p offered secret =
    put_bytes (put_bytes (put_header [] ++ kind_request ∷ []) offered) (tag p secret offered)

-- `slice::split_first`.
abbrev pub split_first : Bytes → Option (ℕ × Bytes)
split_first [] = none
split_first (b ∷ rest) = some (b, rest)

-- What `accept_pairing` does before it touches the session: the key package that may join.
unfoldable pub admitted_package : Primitives → Bytes → Bytes → Checked Bytes
admitted_package p request secret = do
  behind_header ← take_header request
  (kind, rest) ← ok_or (split_first behind_header) (key_package "pairing request is truncated")
  refuse_if (not (kind == kind_request)) (key_package "that frame is not a pairing request")
  (offered, behind_package) ← take_bytes rest
  (presented, behind_tag) ← take_bytes behind_package
  refuse_if (not (subtle_eq p (tag p secret offered) presented))
      (key_package "this device did not present the pairing secret")
  ok offered

-- `WorkspaceSession::add_device` returns the session beside its result, which may be an error.
abbrev pub AddDevice : Type 0 → Type 0
AddDevice S = S → Bytes → Checked Invitation × S

abbrev admit : {S : Type 0} → AddDevice S → S → Checked Bytes → Checked Invitation × S
admit add_device session (ok offered) = add_device session offered
admit add_device session (err e) = (err e, session)

unfoldable pub accept_pairing :
    {S : Type 0} → Primitives → AddDevice S → S → Bytes → Bytes → Checked Invitation × S
accept_pairing p add_device session request secret =
    admit add_device session (admitted_package p request secret)

unfoldable pub pairing_welcome : Invitation → Bytes
pairing_welcome invitation = put_bytes (put_header [] ++ kind_welcome ∷ []) invitation.welcome

unfoldable pub read_pairing_welcome : Bytes → Checked Bytes
read_pairing_welcome frame = do
  behind_header ← take_header frame
  (kind, rest) ← ok_or (split_first behind_header) unexpected_message
  refuse_if (not (kind == kind_welcome)) unexpected_message
  (welcome, behind) ← take_bytes rest
  ok welcome

abbrev is_pairing_kind : Option (ℕ × Bytes) → Bool
is_pairing_kind none = false
is_pairing_kind (some (kind, rest)) = kind == kind_request || kind == kind_welcome

unfoldable pub is_pairing_frame : Bytes → Bool
is_pairing_frame frame = elim (take_header frame) [
  | ok behind ↦ is_pairing_kind (split_first behind)
  | err e ↦ false
]
