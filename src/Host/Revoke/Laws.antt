-- ===== src/Host/Revoke/Laws.antt =====
-- Who may remove a device, and what it leaves.
use leave_cli.Prelude.{
  ◌≤◌, ◌≡◌, ◌≢◌, ◌↔◌, ◌⊎◌, inl, inr, refl, ap, ◌∙◌, true, false, Option, none, some, ok, err, arith,
  Bool-cases,
}
use leave_cli.Prelude.Text.{Text, text_eq, text_eq_iff}
use leave_cli.Prelude.Maps.{lookup-remove_ne, lookup-remove}
use leave_cli.Crypto.Error.{Bytes, Checked}
use leave_cli.Crypto.Session.{Mls, OpenedMessage, remove_device}
use leave_cli.Policy.{Role, owner, viewer, manage_members}
use leave_cli.Policy.Laws.{authorize_iff, rank}
use leave_cli.Host.Registry.{DeviceGrant, DeviceRegistry, get_grant, permitted}
use leave_cli.Host.Registry.Laws.{permitted-remove_grant}
use leave_cli.Host.Handle.{Service, refusal}
use leave_cli.Host.Revoke.{revoke, may_manage, after_removal, exchange_of}

rank-owner : (r : Role) → 3 ≤ rank r → r ≡ owner
rank-owner r h = ground arith

may_manage_iff :
    (o : Option DeviceGrant)
    → (may_manage o ≡ true) ↔ ((grant : DeviceGrant) × (o ≡ some grant) × (grant.role ≡ owner))
may_manage_iff none = (λ h. cc, λ (g, e, h). cc)
may_manage_iff (some grant) = (
  λ h. (
    grant,
    refl,
    rank-owner grant.role ((authorize_iff grant.role grant.capabilities manage_members).0 h).0,
  ),
  λ (other, e, is_owner).
      (authorize_iff grant.role grant.capabilities manage_members).1
        (rw (ap (λ o. may_role o) e ∙ is_owner) (omega arith), tt),
)
  where
    may_role : Option DeviceGrant → Role
    may_role none = viewer
    may_role (some g) = g.role

-- What a removal leaves: the target may do nothing any more, and nobody else's grant changes.
pub record IsRemoved (target : Text) (before after : DeviceRegistry) : Type 0 where
  pub target_refused : (m p : Text) → permitted after target m p ≡ false
  pub others_kept : (other : Text) → other ≢ target → get_grant after other ≡ get_grant before other

module _ {G W : Type 0} (mls : Mls G) (service : Service W) (g : G)
    (registry : DeviceRegistry) where
  -- The sender is an owner.
  abbrev pub IsOwner : OpenedMessage → Type 0
  IsOwner opened =
      (grant : DeviceGrant) × (get_grant registry opened.sender_device_id ≡ some grant)
      × (grant.role ≡ owner)

  after_removal-cases :
      (exchange_id target : Text) (r : Checked Bytes × G)
      → let (reply, after, grants) = after_removal registry exchange_id target r in
        (after ≡ r.1)
        × (((reply.status ≡ 404) × (grants ≡ registry))
            ⊎ ((reply.status ≡ 204)
                × ((commit : Bytes) × (r.0 ≡ ok commit))
                × IsRemoved target registry grants))
  unfolding refusal
  after_removal-cases exchange_id target (err e, after) = (refl, inl (refl, refl))
  after_removal-cases exchange_id target (ok commit, after) = (
    refl,
    inr (
      refl,
      (commit, refl),
      record {
        target_refused = (permitted-remove_grant registry target).0;
        others_kept = λ other differ. lookup-remove_ne target other registry differ;
      },
    ),
  )

  -- A revocation ends in one of four ways. The authenticated sender is no owner: status 403, nothing
  -- changes. It is one and names itself: 400, nothing changes. The group has no such member or
  -- fails: 404, no grant changes. Or the group has removed the target: 204, the target may do
  -- nothing any more, and no other grant changes.
  pub revoke_lem :
      (opened : OpenedMessage) (target : Text)
      → let (reply, after, grants) = revoke mls service g registry opened target in
        ((¬ IsOwner opened) × (reply.status ≡ 403) × (after ≡ g) × (grants ≡ registry))
        ⊎ (IsOwner opened
            × (target ≡ opened.sender_device_id)
            × (reply.status ≡ 400)
            × (after ≡ g)
            × (grants ≡ registry))
        ⊎ (IsOwner opened
            × (target ≢ opened.sender_device_id)
            × (after ≡ (remove_device mls g target).1)
            × (((reply.status ≡ 404) × (grants ≡ registry))
                ⊎ ((reply.status ≡ 204)
                    × ((commit : Bytes) × ((remove_device mls g target).0 ≡ ok commit))
                    × IsRemoved target registry grants)))
  unfolding revoke refusal
  revoke_lem opened target =
      elim (Bool-cases (may_manage (get_grant registry opened.sender_device_id))) [
        | inr bars ↦
            inl (λ h. cc (bars, (may_manage_iff _).1 h), rw bars refl, rw bars refl, rw bars refl)
        | inl may ↦ elim (Bool-cases (text_eq target opened.sender_device_id)) [
          | inl self ↦ inr (
              inl (
                (may_manage_iff _).0 may,
                (text_eq_iff _ _).0 self,
                rw (may, self) refl,
                rw (may, self) refl,
                rw (may, self) refl,
              ))
          | inr other ↦
              let (group, how) =
                after_removal-cases (exchange_of service (service.decode opened.plaintext)) target
                  (remove_device mls g target) in
              inr (
                inr (
                  (may_manage_iff _).0 may,
                  λ same. cc (other, (text_eq_iff _ _).1 same),
                  rw (may, other) group,
                  rw (may, other) how,
                ))
        ]
      ]

-- Whoever holds a grant afterwards held the same before.
abbrev pub Shrinks : DeviceRegistry → DeviceRegistry → Type 0
Shrinks before after =
    (device : Text) (grant : DeviceGrant)
    → get_grant after device ≡ some grant
    → get_grant before device ≡ some grant

module _ {G W : Type 0} (mls : Mls G) (service : Service W) (g : G)
    (registry : DeviceRegistry) where
  removal-Shrinks :
      (exchange_id target : Text) (r : Checked Bytes × G)
      → Shrinks registry (after_removal registry exchange_id target r).2
  removal-Shrinks exchange_id target (err e, after) device grant held = held
  removal-Shrinks exchange_id target (ok commit, after) device grant held =
      ground (arith, lookup-remove target device registry)

  pub revoke-Shrinks :
      (opened : OpenedMessage) (target : Text)
      → Shrinks registry (revoke mls service g registry opened target).2
  unfolding revoke
  revoke-Shrinks opened target =
      elim (Bool-cases (may_manage (get_grant registry opened.sender_device_id))) [
        | inr bars ↦ rw bars (λ device grant held. held)
        | inl may ↦ elim (Bool-cases (text_eq target opened.sender_device_id)) [
          | inl self ↦ rw (may, self) (λ device grant held. held)
          | inr other ↦
              rw (may, other)
                (removal-Shrinks (exchange_of service (service.decode opened.plaintext)) target
                  (remove_device mls g target))
        ]
      ]
