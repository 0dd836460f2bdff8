-- ===== src/Policy.antt =====
-- crates/leave-protocol/src/lib.rs: collaboration roles, sensitive capabilities, and `authorize`.
pub mod Laws
mod Tests
use leave_cli.Prelude.{Bool, true, false, ◌&&◌, List, if◌then◌else◌, any}

pub data Role : Type 0 where
  owner maintainer operator viewer : Role

pub data Capability : Type 0 where
  raw_pty dangerous_approval persistent_browser_profile global_customization : Capability

pub data Action : Type 0 where
  view prompt low_risk_approval edit_files git_write project_customization : Action
  manage_members raw_pty dangerous_approval persistent_browser_profile : Action
  global_customization : Action

-- The derived `Eq` of `Capability`.
unfoldable pub capability_eq : Capability → Capability → Bool
capability_eq Capability.raw_pty Capability.raw_pty = true
capability_eq Capability.dangerous_approval Capability.dangerous_approval = true
capability_eq Capability.persistent_browser_profile Capability.persistent_browser_profile = true
capability_eq Capability.global_customization Capability.global_customization = true
capability_eq _ _ = false

-- A `BTreeSet<Capability>` is read by membership only.
abbrev pub Grants : Type 0
Grants = List Capability

-- `BTreeSet::contains`.
unfoldable pub contains : Grants → Capability → Bool
unfolding capability_eq
contains grants c = any (λ g. capability_eq g c) grants

not_viewer : Role → Bool
not_viewer viewer = false
not_viewer _ = true

edits : Role → Bool
edits owner = true
edits maintainer = true
edits _ = false

-- The first `match` of `authorize`.
unfoldable pub role_allows : Role → Action → Bool
unfolding not_viewer edits
role_allows role view = true
role_allows role edit_files = edits role
role_allows role git_write = edits role
role_allows role project_customization = edits role
role_allows owner manage_members = true
role_allows maintainer manage_members = false
role_allows operator manage_members = false
role_allows viewer manage_members = false
role_allows role _ = not_viewer role

-- The second `match` of `authorize`.
unfoldable pub grant_allows : Grants → Action → Bool
grant_allows grants Action.raw_pty = contains grants Capability.raw_pty
grant_allows grants Action.dangerous_approval = contains grants Capability.dangerous_approval
grant_allows grants Action.persistent_browser_profile =
    contains grants Capability.persistent_browser_profile
grant_allows grants Action.global_customization = contains grants Capability.global_customization
grant_allows grants _ = true

unfoldable pub authorize : Role → Grants → Action → Bool
authorize role grants action = if role_allows role action then grant_allows grants action else false
