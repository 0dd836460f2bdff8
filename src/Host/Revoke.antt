-- ===== src/Host/Revoke.antt =====
-- apps/leave/src/relay_tunnel.rs: `revocation_target` and `revoke`.
pub mod Laws
use leave_cli.Prelude.{
  Bool, true, false, not, ◌&&◌, Option, none, some, List, [], ◌∷◌, ok, err, if◌then◌else◌,
}
use leave_cli.Prelude.Text.{Text, codes, text_eq, strip_prefix, is_empty, contains}
use leave_cli.Crypto.Error.{Bytes, Checked}
use leave_cli.Crypto.Session.{Mls, OpenedMessage, remove_device}
use leave_cli.Policy.{Action, authorize, manage_members}
use leave_cli.Tunnel.{TunnelRequest, TunnelResponse, tunnel_version}
use leave_cli.Host.Registry.{DeviceGrant, DeviceRegistry, get_grant, remove_grant}
use leave_cli.Host.Handle.{Service, refusal}

abbrev devices_prefix : Text
devices_prefix = codes "/api/v1/local/devices/"

-- The device of a request behind `decode`.
unfoldable pub target_of : TunnelRequest → Option Text
target_of request =
    if not (text_eq request.method (codes "DELETE"))
    then none
    else elim (strip_prefix request.path devices_prefix) [
      | none ↦ none
      | some device ↦
          if not (is_empty device) && not (contains device (codes "/")) then some device else none
    ]

module _ {W : Type 0} (service : Service W) where
  unfoldable pub revocation_target : OpenedMessage → Option Text
  revocation_target opened = elim (service.decode opened.plaintext) [
    | none ↦ none
    | some request ↦ target_of request
  ]

  -- `.map(|request| request.exchange_id).unwrap_or_default()`.
  abbrev exchange_of : Option TunnelRequest → Text
  exchange_of none = []
  exchange_of (some request) = request.exchange_id

abbrev pub may_manage : Option DeviceGrant → Bool
may_manage none = false
may_manage (some grant) = authorize grant.role grant.capabilities manage_members

-- The answer to what `remove_device` returned.
abbrev pub after_removal :
    {G : Type 0}
    → DeviceRegistry
    → Text
    → Text
    → Checked Bytes × G
    → TunnelResponse × G × DeviceRegistry
after_removal registry exchange_id target (ok commit, g) = (
  record {
    version = tunnel_version;
    exchange_id = exchange_id;
    status = 204;
    headers = [];
    body = [];
  },
  g,
  (remove_grant registry target).1,
)
after_removal registry exchange_id target (err e, g) =
    (refusal exchange_id 404 (codes "that device is not a member of this workspace"), g, registry)

-- `revoke`; the session is the group state `g`.
unfoldable pub revoke :
    {G W : Type 0}
    → Mls G
    → Service W
    → G
    → DeviceRegistry
    → OpenedMessage
    → Text
    → TunnelResponse × G × DeviceRegistry
revoke mls service g registry opened target =
    let exchange_id = exchange_of service (service.decode opened.plaintext) in
    if not (may_manage (get_grant registry opened.sender_device_id))
    then (refusal exchange_id 403 (codes "only a workspace owner may revoke a device"), g, registry)
    else if text_eq target opened.sender_device_id
    then (refusal exchange_id 400 (codes "a device cannot revoke itself"), g, registry)
    else after_removal registry exchange_id target (remove_device mls g target)
