-- ===== src/Crypto/Storage/Restart.antt =====
-- A whole saved session: what a restart brings back.
use mathlib.Core.List.{append_assoc, append-nil}
use leave_cli.Prelude.{◌≤◌, ◌≡◌, refl, ap, ◌∙◌, Bool, true, [], ◌++◌, ok, All, length}
use leave_cli.Prelude.Maps.{Assoc, lookup}
use leave_cli.Crypto.Error.{Bytes}
use leave_cli.Crypto.Codec.{put_bytes, put_header, max_u32}
use leave_cli.Crypto.Codec.Laws.{take_bytes-put_bytes, put_bytes_behind, take_header-put_header}
use leave_cli.Crypto.Storage.{export, SavedSession, export_state, restore_state}
use leave_cli.Crypto.Storage.Order.{HasKeysOnce}
use leave_cli.Crypto.Storage.RoundTrip.{Fits, restore-export, export_behind}

-- A session that can be written: a map, and lengths that fit the format.
pub record IsWritable (s : SavedSession) : Type 0 where
  pub once : HasKeysOnce s.values
  pub entries : All Fits s.values
  pub few : length s.values ≤ max_u32
  pub device : length s.device_id ≤ max_u32
  pub group : length s.group_id ≤ max_u32
  pub key : length s.signature_public_key ≤ max_u32

-- A lookup in the storage reads its values by key.
abbrev pub ReadsByKey : (Assoc Bytes → Bytes → Bool) → Type 0
ReadsByKey has =
    (m n : Assoc Bytes) (k : Bytes)
    → ((key : Bytes) → lookup key m ≡ lookup key n)
    → has m k ≡ has n k

export_state_parts :
    (s : SavedSession)
    → export_state s
      ≡ put_header []
        ++ (put_bytes [] s.device_id
            ++ (put_bytes [] s.group_id
                ++ (put_bytes [] s.signature_public_key ++ (export s.values [] ++ []))))
unfolding export_state
export_state_parts s =
    let d = put_bytes [] s.device_id in
    let g = put_bytes [] s.group_id in
    let k = put_bytes [] s.signature_public_key in
    let h = put_header [] in
    let e = export s.values [] in
    export_behind s.values _
    ∙ ap (λ t. t ++ e) (put_bytes_behind _ s.signature_public_key)
    ∙ ap (λ t. (t ++ k) ++ e) (put_bytes_behind _ s.group_id)
    ∙ ap (λ t. ((t ++ g) ++ k) ++ e) (put_bytes_behind h s.device_id)
    ∙ simp (append_assoc, append-nil)

module _ (is_utf8 : Bytes → Bool) (has_signer has_group : Assoc Bytes → Bytes → Bool) where
  -- Restoring an exported session succeeds and gives back its device, its group, its signing key
  -- and a key store that answers every key as before, provided that the session can be written,
  -- its device identifier is text, and its storage holds its signing key and its group.
  pub restore_state-export_state :
      (s : SavedSession)
      → ReadsByKey has_signer
      → ReadsByKey has_group
      → IsWritable s
      → is_utf8 s.device_id ≡ true
      → has_signer s.values s.signature_public_key ≡ true
      → has_group s.values s.group_id ≡ true
      → (t : SavedSession) × (restore_state is_utf8 has_signer has_group (export_state s) ≡ ok t)
        × (t.device_id ≡ s.device_id)
        × (t.group_id ≡ s.group_id)
        × (t.signature_public_key ≡ s.signature_public_key)
        × ((key : Bytes) → lookup key t.values ≡ lookup key s.values)
  unfolding restore_state
  restore_state-export_state s by_key by_key' w text signer group =
      let (back, restored, same) = restore-export s.values [] w.once w.entries w.few in
      let found = by_key back s.values s.signature_public_key same ∙ signer in
      let loaded = by_key' back s.values s.group_id same ∙ group in
      (
        record s { values = back },
        rw (export_state_parts s, take_header-put_header)
            (rw (take_bytes-put_bytes s.device_id _ w.device, text)
              (rw (take_bytes-put_bytes s.group_id _ w.group) (
                rw (take_bytes-put_bytes s.signature_public_key _ w.key)
                  (rw restored (rw (found, loaded)))))),
        refl,
        refl,
        refl,
        same,
      )
