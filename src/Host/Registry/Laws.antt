-- ===== src/Host/Registry/Laws.antt =====
-- Which requests a device may make.
use leave_cli.Prelude.{
  ◌≤◌, ◌≡◌, ◌≢◌, ◌↔◌, ◌⊎◌, refl, sym, ap, ◌∙◌, Bool, true, false, Option, none, some,
  some-injective, arith, ◌++◌,
}
use mathlib.Core.Path.{subst}
use leave_cli.Prelude.Text.{Text, codes, text_eq, starts_with, has_byte}
use leave_cli.Prelude.Splitting.{before_absent}
use leave_cli.Prelude.Maps.{lookup, lookup-remove_self, lookup-remove_ne}
use leave_cli.Policy.{
  Capability, Action, contains, authorize, role_allows, grant_allows, view, prompt,
  low_risk_approval, edit_files,
}
use leave_cli.Policy.Laws.{rank, needed_rank, needed_grant, Holds, authorize_iff}
use leave_cli.Tunnel.{action_for, terminals, previews, write_action, is_reading}
use leave_cli.Tunnel.Classes.{route_of, action_for-terminals, action_for-previews}
use leave_cli.Host.Registry.{
  DeviceGrant, DeviceRegistry, newly_paired, remove_grant, get_grant, permitted,
}

-- What `permitted` makes of the grant that it finds.
abbrev allows : Option DeviceGrant → Action → Bool
allows o a = elim o [ none ↦ false | some grant ↦ authorize grant.role grant.capabilities a ]

allows_iff :
    (o : Option DeviceGrant) (a : Action)
    → (allows o a ≡ true) ↔ (
        (grant : DeviceGrant) × (o ≡ some grant)
        × (needed_rank a ≤ rank grant.role)
        × Holds grant.capabilities (needed_grant a))
allows_iff none a = (λ h. cc, λ (grant, e, h, k). cc)
allows_iff (some grant) a = (
  λ h.
      let (high, held) = (authorize_iff grant.role grant.capabilities a).0 h in
      (grant, refl, high, held),
  λ (other, e, high, held). moved other (sym (some-injective e)) high held,
)
  where
    moved :
        (other : DeviceGrant)
        → other ≡ grant
        → needed_rank a ≤ rank other.role
        → Holds other.capabilities (needed_grant a)
        → authorize grant.role grant.capabilities a ≡ true
    moved other e high held =
        ap (λ g. authorize g.role g.capabilities a) (sym e)
        ∙ (authorize_iff other.role other.capabilities a).1 (high, held)

-- A device may make a request exactly when it holds a grant whose role reaches the rank that the
-- request's action needs and whose capabilities hold the one that the action needs, if it needs one.
pub permitted_iff :
    (registry : DeviceRegistry) (device m p : Text)
    → (permitted registry device m p ≡ true) ↔ (
        (grant : DeviceGrant) × (get_grant registry device ≡ some grant)
        × (needed_rank (action_for m p) ≤ rank grant.role)
        × Holds grant.capabilities (needed_grant (action_for m p)))
unfolding permitted
permitted_iff registry device m p = allows_iff (lookup device registry) (action_for m p)

-- Whatever the method and the query, a permitted request under the terminals route comes from a
-- device that holds the raw terminal capability, and one under the previews route from a device
-- that holds the browser capability. No role stands in for it.
pub permitted-capability :
    (registry : DeviceRegistry) (device m p : Text)
    → permitted registry device m p ≡ true
    → (starts_with (route_of p) terminals ≡ true
        → (grant : DeviceGrant) × (get_grant registry device ≡ some grant)
          × (contains grant.capabilities Capability.raw_pty ≡ true))
      × (starts_with (route_of p) previews ≡ true
          → (grant : DeviceGrant) × (get_grant registry device ≡ some grant)
            × (contains grant.capabilities Capability.persistent_browser_profile ≡ true))
permitted-capability registry device m p h =
    let (grant, found, high, held) = (permitted_iff registry device m p).0 h in
    (
      λ under. (
        grant,
        found,
        subst (λ a. Holds grant.capabilities (needed_grant a)) (action_for-terminals m p under)
            held,
      ),
      λ under. (
        grant,
        found,
        subst (λ a. Holds grant.capabilities (needed_grant a)) (action_for-previews m p under) held,
      ),
    )

-- A removed device may make no request at all, and every other device may do what it could before.
pub permitted-remove_grant :
    (registry : DeviceRegistry) (device : Text)
    → ((m p : Text) → permitted (remove_grant registry device).1 device m p ≡ false)
      × ((other m p : Text)
          → other ≢ device
          → permitted (remove_grant registry device).1 other m p ≡ permitted registry other m p)
unfolding permitted
permitted-remove_grant registry device = (
  λ m p. ap (λ o. allows o (action_for m p)) (lookup-remove_self device registry),
  λ other m p differ.
      ap (λ o. allows o (action_for m p)) (lookup-remove_ne device other registry differ),
)

newly_paired-allows_iff :
    (a : Action)
    → (allows (some newly_paired) a ≡ true) ↔ ((a ≡ view) ⊎ (a ≡ prompt) ⊎ (a ≡ low_risk_approval))
unfolding authorize contains role_allows grant_allows
newly_paired-allows_iff a = ground arith

-- The path at which the local API takes the answer to a permission request.
abbrev pub answer_path : Text → Text
answer_path id = codes "/api/v1/local/permissions/" ++ id

-- It is no route of a session, so that answering there counts as editing files.
action_for-answer_path :
    (id : Text) → has_byte b'?' id ≡ false → action_for (codes "POST") (answer_path id) ≡ edit_files
unfolding action_for write_action is_reading text_eq starts_with codes
action_for-answer_path id plain = rw (before_absent b'?' (answer_path id) plain) refl

-- A device with the grant of a newly paired phone may make exactly the requests that are classed as
-- viewing, prompting or a low-risk approval. The answer to a permission request, as the local API
-- takes it by POST at `/api/v1/local/permissions/{id}`, with no `?` in the identifier, is classed as
-- none of them, and is refused.
pub permitted-newly_paired_iff :
    (registry : DeviceRegistry) (device : Text)
    → get_grant registry device ≡ some newly_paired
    → ((m p : Text)
        → (permitted registry device m p ≡ true) ↔ (
            (action_for m p ≡ view)
            ⊎ (action_for m p ≡ prompt)
            ⊎ (action_for m p ≡ low_risk_approval)))
      × ((id : Text)
          → has_byte b'?' id ≡ false
          → permitted registry device (codes "POST") (answer_path id) ≡ false)
unfolding permitted authorize contains role_allows grant_allows
permitted-newly_paired_iff registry device h = (
  λ m p. rw (h, permitted) (newly_paired-allows_iff (action_for m p)),
  λ id plain. rw (h, permitted) (rw (action_for-answer_path id plain) refl),
)
