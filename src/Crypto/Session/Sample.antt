-- ===== src/Crypto/Session/Sample.antt =====
-- A concrete group, which shows that the assumptions on one can be met: the members in the clear,
-- every message sent by the device named `phone`.
use leave_cli.Prelude.{ℕ, ◌==◌, Bool, true, not, some, List, [], ◌∷◌, ok, length, keep}
use leave_cli.Crypto.Error.{Bytes}
use leave_cli.Crypto.Session.{Member, Mls, application_message}

abbrev pub phone : Bytes
phone = b'p' ∷ b'h' ∷ []

abbrev other_leaf : ℕ → Member → Bool
other_leaf leaf m = not (m.index == leaf)

abbrev pub plain_group : Mls (List Member)
plain_group = record {
  basic = λ credential. some credential;
  is_utf8 = λ text. true;
  members = λ g. g;
  validated = λ offered. ok offered;
  add_members =
      λ offered g. (ok (offered, offered), record { index = length g; credential = offered } ∷ g);
  remove_members = λ leaf g. (ok (leaf ∷ []), keep (other_leaf leaf) g);
  merge_pending_commit = λ g. (ok tt, g);
  merge_staged_commit = λ staged g. (ok tt, g);
  create_message = λ text g. (ok text, g);
  as_protocol_message = λ bytes. ok bytes;
  process_message =
      λ bytes g. (ok (record { credential = phone; content = application_message bytes }), g);
  serialized = λ message. ok message;
}
