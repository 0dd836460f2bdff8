-- ===== src/Crypto/Storage.antt =====
-- crates/leave-crypto/src/provider.rs and the saved form of a session in session.rs: the key store
-- as its map of byte strings, written in key order and read back.
pub mod Order
pub mod RoundTrip
pub mod Restart
mod Tests
use Prim.Native.Nat.{compare, Ordering}
use leave_cli.Prelude.{
  ℕ, zero, suc, Bool, true, false, Option, none, some, List, [], ◌∷◌, Result, ok, err, ok_or, ◌>>=◌,
  ◌>>◌, length, if◌then◌else◌, refuse_if, not,
}
use leave_cli.Prelude.Maps.{Assoc, insert}
use leave_cli.Crypto.Error.{CryptoError, Bytes, Checked, identity, group, malformed_identity}
use leave_cli.Crypto.Codec.{put_bytes, take_bytes, put_count, take_count, put_header, take_header}

-- `Ord` on byte vectors: lexicographic.
unfoldable pub bytes_le : Bytes → Bytes → Bool
bytes_le [] t = true
bytes_le (a ∷ s) [] = false
bytes_le (a ∷ s) (b ∷ t) = elim (compare a b) [
  | Ordering.lt ↦ true
  | Ordering.eq ↦ bytes_le s t
  | Ordering.gt ↦ false
]

unfoldable pub insert_sorted : Bytes × Bytes → Assoc Bytes → Assoc Bytes
insert_sorted e [] = e ∷ []
insert_sorted (k, v) ((j, w) ∷ es) =
    let later = insert_sorted (k, v) es in
    if bytes_le k j then (k, v) ∷ (j, w) ∷ es else (j, w) ∷ later

-- `entries.sort_by(|left, right| left.0.cmp(right.0))`, over the keys of a map.
unfoldable pub sort_entries : Assoc Bytes → Assoc Bytes
sort_entries [] = []
sort_entries (e ∷ es) = insert_sorted e (sort_entries es)

unfoldable pub put_entries : Bytes → Assoc Bytes → Bytes
put_entries buffer [] = buffer
put_entries buffer ((key, value) ∷ es) = put_entries (put_bytes (put_bytes buffer key) value) es

-- `LeaveProvider::export`.
unfoldable pub export : Assoc Bytes → Bytes → Bytes
export values buffer = put_entries (put_count buffer (length values)) (sort_entries values)

-- The loop of `LeaveProvider::restore` over the declared count.
unfoldable pub take_entries : ℕ → Bytes → Assoc Bytes → Checked (Assoc Bytes × Bytes)
take_entries zero cursor values = ok (values, cursor)
take_entries (suc n) cursor values = do
  (key, behind_key) ← take_bytes cursor
  (value, behind_value) ← take_bytes behind_key
  take_entries n behind_value (insert key value values)

-- `LeaveProvider::restore`.
unfoldable pub restore : Bytes → Checked (Assoc Bytes × Bytes)
restore cursor = do (count, entries) ← take_count cursor; take_entries count entries []

-- What `WorkspaceSession::export_state` writes of a session: the parts that restoring reads.
pub record SavedSession : Type 0 where
  pub device_id : Bytes
  pub group_id : Bytes
  pub signature_public_key : Bytes
  pub values : Assoc Bytes

unfoldable pub export_state : SavedSession → Bytes
export_state s = export s.values (
    put_bytes (put_bytes (put_bytes (put_header []) s.device_id) s.group_id) s.signature_public_key)

-- `WorkspaceSession::restore`. `is_utf8` is the test of `String::from_utf8`; `has_signer` is whether
-- `SignatureKeyPair::read` finds the key pair in the storage; `has_group` is whether
-- `MlsGroup::load` finds the group there.
unfoldable pub restore_state :
    (Bytes → Bool)
    → (Assoc Bytes → Bytes → Bool)
    → (Assoc Bytes → Bytes → Bool)
    → Bytes
    → Checked SavedSession
restore_state is_utf8 has_signer has_group state = do
  behind_header ← take_header state
  (device_id, behind_device) ← take_bytes behind_header
  refuse_if (not (is_utf8 device_id)) malformed_identity
  (group_id, behind_group) ← take_bytes behind_device
  (public_key, behind_key) ← take_bytes behind_group
  (values, rest) ← restore behind_key
  refuse_if (not (has_signer values public_key)) (identity "stored signing key is missing")
  refuse_if (not (has_group values group_id)) (group "the saved workspace group is missing")
  ok (record {
    device_id = device_id;
    group_id = group_id;
    signature_public_key = public_key;
    values = values;
  })
