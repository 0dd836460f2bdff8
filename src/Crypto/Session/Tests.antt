-- ===== src/Crypto/Session/Tests.antt =====
-- The theorems at concrete inputs.
use leave_cli.Prelude.{
  ℕ, ◌==◌, ◌≡◌, ◌∙◌, sym, ap, refl, true, false, not, List, [], ◌∷◌, ok, any, keep,
}
use leave_cli.Prelude.Text.{text_eq}
use leave_cli.Crypto.Error.{Bytes}
use leave_cli.Crypto.Session.{
  Member, application_message, Processed, identity_of, is_device, remove_device, process,
  open_message,
}
use leave_cli.Crypto.Session.Laws.{remove_device_lem, open_message_lem}
use leave_cli.Crypto.Session.Sample.{phone, plain_group}

abbrev host_and_phone : List Member
host_and_phone =
    record { index = 1; credential = phone } ∷ record { index = 0; credential = b'h' ∷ [] } ∷ []

abbrev only_host : List Member
only_host = record { index = 0; credential = b'h' ∷ [] } ∷ []

drops :
    (leaf : ℕ) (g committed merged : List Member) (commit : Bytes)
    → plain_group.remove_members leaf g ≡ (ok commit, committed)
    → plain_group.merge_pending_commit committed ≡ (ok tt, merged)
    → plain_group.members merged ≡ keep (λ m. not (m.index == leaf)) (plain_group.members g)
drops leaf g committed merged commit removed merge =
    sym (ap (λ x. x.1) removed ∙ ap (λ x. x.1) merge)

remove_device_lem_example :
    (any (is_device plain_group phone) host_and_phone ≡ true)
    × (any (is_device plain_group phone) only_host ≡ false)
unfolding remove_device identity_of text_eq
remove_device_lem_example =
    remove_device_lem plain_group drops host_and_phone only_host phone (1 ∷ []) 1
      (λ h. refl, (λ h. cc h, tt)) refl

open_message_lem_example :
    (protocol : Bytes) × (processed : Processed) × (plain_group.as_protocol_message (7 ∷ [])
      ≡ ok protocol)
    × (plain_group.process_message protocol host_and_phone ≡ (ok processed, host_and_phone))
    × (identity_of plain_group processed.credential ≡ ok phone)
    × (processed.content ≡ application_message (7 ∷ []))
unfolding open_message process identity_of
open_message_lem_example =
    open_message_lem plain_group host_and_phone host_and_phone (7 ∷ [])
      (record { sender_device_id = phone; plaintext = 7 ∷ [] }) refl
