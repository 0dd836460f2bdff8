-- ===== src/Policy/Laws.antt =====
-- What `authorize` permits, against an order on roles and the capability that an action needs.
use leave_cli.Prelude.{ℕ, ◌≤◌, ◌≡◌, ◌↔◌, refl, true, Option, none, some, arith}
use leave_cli.Policy.{
  Role, owner, maintainer, operator, viewer, Capability, Action, Grants, contains, role_allows,
  grant_allows, authorize, view, edit_files, git_write, project_customization, manage_members,
}

-- Owner 3, maintainer 2, operator 1, viewer 0.
abbrev pub rank : Role → ℕ
rank owner = 3
rank maintainer = 2
rank operator = 1
rank viewer = 0

-- The least rank at which a role may perform the action at all.
abbrev pub needed_rank : Action → ℕ
needed_rank view = 0
needed_rank edit_files = 2
needed_rank git_write = 2
needed_rank project_customization = 2
needed_rank manage_members = 3
needed_rank _ = 1

-- The capability without which no role may perform the action.
abbrev pub needed_grant : Action → Option Capability
needed_grant Action.raw_pty = some Capability.raw_pty
needed_grant Action.dangerous_approval = some Capability.dangerous_approval
needed_grant Action.persistent_browser_profile = some Capability.persistent_browser_profile
needed_grant Action.global_customization = some Capability.global_customization
needed_grant _ = none

abbrev pub Holds : Grants → Option Capability → Type 0
Holds grants none = Unit
Holds grants (some c) = contains grants c ≡ true

role_allows_iff : (r : Role) (a : Action) → (role_allows r a ≡ true) ↔ (needed_rank a ≤ rank r)
unfolding role_allows
role_allows_iff owner a = ground arith
role_allows_iff maintainer a = ground arith
role_allows_iff operator a = ground arith
role_allows_iff viewer a = ground arith

grant_allows_iff :
    (grants : Grants) (a : Action) → (grant_allows grants a ≡ true) ↔ Holds grants (needed_grant a)
unfolding grant_allows
grant_allows_iff grants Action.raw_pty = (λ h. h, λ h. h)
grant_allows_iff grants Action.dangerous_approval = (λ h. h, λ h. h)
grant_allows_iff grants Action.persistent_browser_profile = (λ h. h, λ h. h)
grant_allows_iff grants Action.global_customization = (λ h. h, λ h. h)
grant_allows_iff grants _ = (λ h. tt, λ h. refl)

-- A role with grants may perform an action exactly when its rank reaches the rank that the action
-- needs and the grants hold the capability that the action needs, if it needs one.
pub authorize_iff :
    (r : Role) (grants : Grants) (a : Action)
    → (authorize r grants a ≡ true) ↔ ((needed_rank a ≤ rank r) × Holds grants (needed_grant a))
unfolding authorize
authorize_iff r grants a = ground (arith, role_allows_iff r a, grant_allows_iff grants a)

-- A higher role with more capabilities may do whatever a lower one may.
pub authorize_mono :
    (r s : Role) (few many : Grants) (a : Action)
    → rank r ≤ rank s
    → ((c : Capability) → contains few c ≡ true → contains many c ≡ true)
    → authorize r few a ≡ true
    → authorize s many a ≡ true
authorize_mono r s few many a up more h =
    let (fits, held) = (authorize_iff r few a).0 h in
    (authorize_iff s many a).1 (omega arith, lift (needed_grant a) held)
  where
    lift : (o : Option Capability) → Holds few o → Holds many o
    lift none k = tt
    lift (some c) k = more c k
