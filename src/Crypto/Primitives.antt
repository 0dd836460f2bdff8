-- ===== src/Crypto/Primitives.antt =====
-- What the crate uses of subtle and blake3: a comparison that does not leak, and two hashes.
use leave_cli.Prelude.{◌≡◌, ◌↔◌, Bool, true}
use leave_cli.Crypto.Error.{Bytes}
use leave_cli.Prelude.{length}

pub record Primitives : Type 0 where
  -- `ConstantTimeEq::ct_eq`, which is defined on slices of one length.
  pub ct_eq : Bytes → Bytes → Bool
  pub ct_eq_iff : (l r : Bytes) → length l ≡ length r → (ct_eq l r ≡ true) ↔ (l ≡ r)
  -- `blake3::Hasher::new_keyed(key)`, then one `update` for each part, then `finalize`.
  pub keyed_hash : Bytes → Bytes → Bytes → Bytes
  pub length-keyed_hash :
      (key context message : Bytes) → length (keyed_hash key context message) ≡ 32
  -- `blake3::hash`.
  pub hash : Bytes → Bytes
  pub length-hash : (message : Bytes) → length (hash message) ≡ 32
