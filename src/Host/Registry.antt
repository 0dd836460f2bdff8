-- ===== src/Host/Registry.antt =====
-- apps/leave/src/relay_tunnel.rs: what each paired device may do.
pub mod Laws
use leave_cli.Prelude.{Bool, true, false, Option, none, some, List, [], ◌∷◌, is_some}
use leave_cli.Prelude.Text.{Text}
use leave_cli.Prelude.Maps.{Assoc, lookup, insert, remove}
use leave_cli.Policy.{Role, operator, Grants, authorize}
use leave_cli.Tunnel.{action_for}

pub record DeviceGrant : Type 0 where
  pub role : Role
  pub capabilities : Grants

abbrev pub newly_paired : DeviceGrant
newly_paired = record { role = operator; capabilities = [] }

-- The `grants` map of `DeviceRegistry`.
abbrev pub DeviceRegistry : Type 0
DeviceRegistry = Assoc DeviceGrant

-- `DeviceRegistry::set`.
abbrev pub set_grant : DeviceRegistry → Text → DeviceGrant → DeviceRegistry
set_grant registry device_id grant = insert device_id grant registry

-- `DeviceRegistry::remove`.
abbrev pub remove_grant : DeviceRegistry → Text → Bool × DeviceRegistry
remove_grant registry device_id = (is_some (lookup device_id registry), remove device_id registry)

-- `DeviceRegistry::get`.
abbrev pub get_grant : DeviceRegistry → Text → Option DeviceGrant
get_grant registry device_id = lookup device_id registry

unfoldable pub permitted : DeviceRegistry → Text → Text → Text → Bool
permitted registry device_id method path = elim (get_grant registry device_id) [
  | none ↦ false
  | some grant ↦ authorize grant.role grant.capabilities (action_for method path)
]
