-- ===== src/Crypto/Pairing/Frames.antt =====
-- The two frames: what each reader makes of what each writer wrote.
use mathlib.Core.List.{append_assoc, append-nil}
use leave_cli.Prelude.{◌≤◌, ◌≡◌, refl, ap, ◌∙◌, true, [], ◌∷◌, ◌++◌, arith, ok, err, length}
use leave_cli.Crypto.Error.{Bytes, key_package, unexpected_message}
use leave_cli.Crypto.Primitives.{Primitives}
use leave_cli.Crypto.Codec.{put_bytes, put_header, max_u32}
use leave_cli.Crypto.Codec.Laws.{take_bytes-put_bytes, put_bytes_behind, take_header-put_header}
use leave_cli.Crypto.Vault.Laws.{subtle_eq_iff}
use leave_cli.Crypto.Pairing.{
  tag, tag_context, Invitation, pairing_request, admitted_package, pairing_welcome,
  read_pairing_welcome, is_pairing_frame,
}

module _ (p : Primitives) (offered secret : Bytes) where
  pub request_parts :
      pairing_request p offered secret
      ≡ put_header [] ++ (1 ∷ (put_bytes [] offered ++ (put_bytes [] (tag p secret offered) ++ [])))
  unfolding pairing_request
  request_parts =
      put_bytes_behind _ (tag p secret offered)
      ∙ ap (λ t. t ++ put_bytes [] (tag p secret offered)) (put_bytes_behind _ offered)
      ∙ simp (append_assoc, append-nil)

  -- The host admits the key package of a request that was made with the secret on its screen, if the
  -- package is at most 2 ^ 32 - 1 bytes long, so that its length fits the prefix.
  pub admitted_package-pairing_request :
      length offered ≤ max_u32
      → admitted_package p (pairing_request p offered secret) secret ≡ ok offered
  unfolding admitted_package tag
  admitted_package-pairing_request fits =
      let t = tag p secret offered in
      let short : length t ≤ max_u32 =
        omega (arith, p.length-keyed_hash secret tag_context offered) in
      rw (request_parts, take_header-put_header)
        (rw (take_bytes-put_bytes offered _ fits)
          (rw (take_bytes-put_bytes t [] short) (rw ((subtle_eq_iff p t t).1 refl))))

pub welcome_parts :
    (i : Invitation) → pairing_welcome i ≡ put_header [] ++ (2 ∷ (put_bytes [] i.welcome ++ []))
unfolding pairing_welcome
welcome_parts i = put_bytes_behind _ i.welcome ∙ simp (append_assoc, append-nil)

-- The phone reads the welcome that the host wrapped.
pub read_pairing_welcome-pairing_welcome :
    (i : Invitation)
    → length i.welcome ≤ max_u32
    → read_pairing_welcome (pairing_welcome i) ≡ ok i.welcome
unfolding read_pairing_welcome
read_pairing_welcome-pairing_welcome i fits =
    rw (welcome_parts i, take_header-put_header) (rw (take_bytes-put_bytes i.welcome [] fits))

-- Both frames are told apart from group traffic, and neither is taken for the other: a welcome is
-- refused as a request, and a request as a welcome.
pub frames_distinct :
    (p : Primitives) (offered secret : Bytes) (i : Invitation)
    → (is_pairing_frame (pairing_request p offered secret) ≡ true)
      × (is_pairing_frame (pairing_welcome i) ≡ true)
      × (admitted_package p (pairing_welcome i) secret
          ≡ err (key_package "that frame is not a pairing request"))
      × (read_pairing_welcome (pairing_request p offered secret) ≡ err unexpected_message)
unfolding is_pairing_frame admitted_package read_pairing_welcome
frames_distinct p offered secret i = (
  rw (request_parts p offered secret) (rw (take_header-put_header, is_pairing_frame)),
  rw (welcome_parts i) (rw (take_header-put_header, is_pairing_frame)),
  rw (welcome_parts i, take_header-put_header) refl,
  rw (request_parts p offered secret, take_header-put_header) refl,
)
