-- ===== src/Crypto/Session.antt =====
-- crates/leave-crypto/src/session.rs with `identity_of` and `parse_key_package` of identity.rs: one
-- device's workspace session. The MLS group is of the openmls crate: `Mls G` names the calls that
-- the source makes of it, for any type `G` of group states. A failed call may have changed the
-- state, so each returns the state as well; a signer and a provider belong to the state.
pub mod Laws
pub mod Sample
mod Tests
use Prim.Native.String.{String}
use leave_cli.Prelude.{
  ℕ, Bool, true, false, Option, none, some, List, [], ◌∷◌, Result, ok, err, ok_or, map_err, ◌>>=◌,
  find, if◌then◌else◌,
}
use leave_cli.Prelude.Text.{Text, text_eq}
use leave_cli.Crypto.Error.{
  CryptoError, Bytes, Checked, group, key_package, seal, open_failed, encode, unexpected_message,
  unknown_device, malformed_identity,
}
use leave_cli.Crypto.Pairing.{Invitation}

-- `openmls::prelude::Member`, with its leaf index and its credential.
pub record Member : Type 0 where
  pub index : ℕ
  pub credential : Bytes

-- `ProcessedMessageContent`, as far as the source tells its cases apart.
pub data Content : Type 0 where
  application_message staged_commit_message : Bytes → Content
  other_content : Content

-- `ProcessedMessage`.
pub record Processed : Type 0 where
  pub credential : Bytes
  pub content : Content

-- A call that changes a group state and may fail with a text.
abbrev pub Call : Type 0 → Type 0 → Type 0
Call G A = G → Result String A × G

pub record Mls (G : Type 0) : Type 0 where
  -- `BasicCredential::try_from(..)` and its identity.
  pub basic : Bytes → Option Bytes
  pub is_utf8 : Bytes → Bool
  pub members : G → List Member
  -- The key package behind `tls_deserialize_exact`, `extract`, `validate` and the ciphersuite test.
  pub validated : Bytes → Result String Bytes
  pub add_members : Bytes → Call G (Bytes × Bytes)
  pub remove_members : ℕ → Call G Bytes
  pub merge_pending_commit : Call G (Unit {0})
  pub merge_staged_commit : Bytes → Call G (Unit {0})
  pub create_message : Bytes → Call G Bytes
  pub as_protocol_message : Bytes → Result String Bytes
  pub process_message : Bytes → Call G Processed
  -- `tls_serialize_detached`.
  pub serialized : Bytes → Result String Bytes

pub record OpenedMessage : Type 0 where
  pub sender_device_id : Text
  pub plaintext : Bytes

-- A step that may fail and keeps the state it has reached.
abbrev pub then_with {ℓ} :
    {G : Type ℓ} {A B : Type 0} → Checked A × G → (A → G → Checked B × G) → Checked B × G
then_with (ok a, g) next = next a g
then_with (err e, g) next = (err e, g)

-- A failure of the library as an error of this crate.
abbrev pub failing {ℓ} :
    {G : Type ℓ} {A : Type 0} → (String → CryptoError) → Result String A × G → Checked A × G
failing kind (r, g) = (map_err kind r, g)

module _ {G : Type 0} (mls : Mls G) where
  unfoldable pub identity_of : Bytes → Checked Text
  identity_of credential = do
    identity ← ok_or (mls.basic credential) malformed_identity
    if mls.is_utf8 identity then ok identity else err malformed_identity

  -- `is_ok_and(|identity| identity == device_id)`.
  abbrev pub is_device : Text → Member → Bool
  is_device device_id m = elim (identity_of m.credential) [
    | ok identity ↦ text_eq identity device_id
    | err e ↦ false
  ]

  unfoldable pub add_device : G → Bytes → Checked Invitation × G
  add_device g offered =
      then_with (map_err key_package (mls.validated offered), g)
        (λ valid g. then_with (failing group (mls.add_members valid g)) (λ made g.
          then_with (failing group (mls.merge_pending_commit g)) (λ _ g. (
            do
              commit ← map_err encode (mls.serialized made.0)
              welcome ← map_err encode (mls.serialized made.1)
              ok (record { commit = commit; welcome = welcome }),
            g,
          ))))

  -- `remove_device` behind the search for the member.
  abbrev pub remove_member : G → Option Member → Checked Bytes × G
  remove_member g none = (err unknown_device, g)
  remove_member g (some m) = then_with (failing group (mls.remove_members m.index g)) (λ commit g.
      then_with (failing group (mls.merge_pending_commit g))
        (λ _ g. (map_err encode (mls.serialized commit), g)))

  unfoldable pub remove_device : G → Text → Checked Bytes × G
  remove_device g device_id = remove_member g (find (is_device device_id) (mls.members g))

  -- `WorkspaceSession::process`.
  unfoldable pub process : G → Bytes → Checked Processed × G
  process g bytes =
      then_with (map_err open_failed (mls.as_protocol_message bytes), g)
        (λ protocol g. failing open_failed (mls.process_message protocol g))

  abbrev pub application : Text → Content → Checked OpenedMessage
  application sender (application_message text) =
      ok (record { sender_device_id = sender; plaintext = text })
  application sender _ = err unexpected_message

  -- `WorkspaceSession::open`.
  unfoldable pub open_message : G → Bytes → Checked OpenedMessage × G
  open_message g ciphertext = then_with (process g ciphertext) (λ processed g.
      (do sender ← identity_of processed.credential; application sender processed.content, g))

  -- `WorkspaceSession::seal`.
  unfoldable pub seal_message : G → Bytes → Checked Bytes × G
  seal_message g plaintext =
      then_with (failing CryptoError.seal (mls.create_message plaintext g))
        (λ message g. (map_err encode (mls.serialized message), g))

  abbrev merged : Content → G → Checked (Unit {0}) × G
  merged (staged_commit_message staged) g = failing group (mls.merge_staged_commit staged g)
  merged _ g = (err unexpected_message, g)

  unfoldable pub apply_commit : G → Bytes → Checked (Unit {0}) × G
  apply_commit g commit = then_with (process g commit) (λ processed g. merged processed.content g)

  -- `collect` into a `Result`: the first error wins.
  unfoldable pub identities : List Member → Checked (List Text)
  identities [] = ok []
  identities (m ∷ ms) = do
    identity ← identity_of m.credential
    others ← identities ms
    ok (identity ∷ others)

  unfoldable pub member_device_ids : G → Checked (List Text)
  member_device_ids g = identities (mls.members g)
