-- ===== src/Crypto/Storage/Tests.antt =====
-- Runs, and the theorems at concrete inputs.
use leave_cli.Prelude.{◌≡◌, refl, Bool, true, [], ◌∷◌, ok, arith, is_some}
use leave_cli.Prelude.Text.{text_eq}
use leave_cli.Prelude.Maps.{Assoc, lookup}
use leave_cli.Crypto.Error.{Bytes}
use leave_cli.Crypto.Storage.{
  SavedSession, export_state, restore_state, sort_entries, insert_sorted, bytes_le,
}
use leave_cli.Crypto.Storage.Order.{HasKeysOnce}
use leave_cli.Crypto.Storage.Restart.{IsWritable, ReadsByKey, restore_state-export_state}

abbrev stored : Assoc Bytes
stored = (9 ∷ [], 1 ∷ []) ∷ (3 ∷ 4 ∷ [], 2 ∷ []) ∷ (3 ∷ [], []) ∷ []

in_key_order : sort_entries stored ≡ (3 ∷ [], []) ∷ (3 ∷ 4 ∷ [], 2 ∷ []) ∷ (9 ∷ [], 1 ∷ []) ∷ []
unfolding sort_entries insert_sorted bytes_le
in_key_order = refl

stored-HasKeysOnce : HasKeysOnce stored
unfolding lookup text_eq
stored-HasKeysOnce = (refl, (refl, (refl, tt)))

abbrev session : SavedSession
session = record {
  device_id = 7 ∷ [];
  group_id = 8 ∷ [];
  signature_public_key = 9 ∷ [];
  values = stored;
}

abbrev present : Assoc Bytes → Bytes → Bool
present m k = is_some (lookup k m)

abbrev any_text : Bytes → Bool
any_text s = true

present-ReadsByKey : ReadsByKey present
present-ReadsByKey m n k same = rw (same k)

abbrev group_known : Assoc Bytes → Bytes → Bool
group_known m k = true

session-IsWritable : IsWritable session
session-IsWritable = record {
  once = stored-HasKeysOnce;
  entries = omega arith;
  few = omega arith;
  device = omega arith;
  group = omega arith;
  key = omega arith;
}

restore_state-export_state_example :
    (t : SavedSession) × (restore_state any_text present group_known (export_state session) ≡ ok t)
    × (t.device_id ≡ session.device_id)
    × (t.group_id ≡ session.group_id)
    × (t.signature_public_key ≡ session.signature_public_key)
    × ((key : Bytes) → lookup key t.values ≡ lookup key session.values)
unfolding lookup text_eq
restore_state-export_state_example =
    restore_state-export_state any_text present group_known session present-ReadsByKey
      (λ m n k same. refl) session-IsWritable refl refl refl
