-- ===== src/Host/Serve.antt =====
-- apps/leave/src/relay_tunnel.rs: `serve_route`, one step for each received frame, `newest_device`
-- and `pairing_payload`.
pub mod Laws
use leave_cli.Prelude.{
  Bool, true, false, not, ◌&&◌, Option, none, some, List, [], ◌∷◌, ◌++◌, ok, err, find, is_some,
  if◌then◌else◌,
}
use leave_cli.Prelude.Text.{Text, codes, text_eq}
use leave_cli.Crypto.Error.{Bytes, Checked}
use leave_cli.Crypto.Primitives.{Primitives}
use leave_cli.Crypto.Pairing.{Invitation, is_pairing_frame, accept_pairing, pairing_welcome}
use leave_cli.Crypto.Session.{
  Mls, OpenedMessage, add_device, member_device_ids, open_message, seal_message,
}
use leave_cli.Tunnel.{TunnelResponse}
use leave_cli.Relay.Routes.{hex}
use leave_cli.Host.Registry.{DeviceRegistry, newly_paired, get_grant, set_grant}
use leave_cli.Host.Handle.{Service, handle}
use leave_cli.Host.Revoke.{revocation_target, revoke}

-- The first member that is not this device and holds no grant.
abbrev unknown_device_in : Text → DeviceRegistry → Checked (List Text) → Option Text
unknown_device_in own registry (ok ids) =
    find (λ device. not (text_eq device own) && not (is_some (get_grant registry device))) ids
unknown_device_in own registry (err e) = none

unfoldable pub newest_device : {G : Type 0} → Mls G → Text → G → DeviceRegistry → Option Text
newest_device mls own g registry = unknown_device_in own registry (member_device_ids mls g)

-- The mutable parts of a `RouteService` and the workspace behind its router.
pub record Host (G W : Type 0) : Type 0 where
  pub session : G
  pub registry : DeviceRegistry
  pub workspace : W
  pub pairing : Option Bytes

-- What a step leaves: whether the route goes on, the frames handed to the relay, and the host.
pub record Served (G W : Type 0) : Type 0 where
  pub goes_on : Bool
  pub sent : List Bytes
  pub host : Host G W

abbrev pub admit_newest : DeviceRegistry → Option Text → DeviceRegistry
admit_newest registry none = registry
admit_newest registry (some device) = set_grant registry device newly_paired

-- `own` is `session.device_id()`, and `delivers` is `client.send(..).is_ok()`.
module _ {G W : Type 0} (p : Primitives) (mls : Mls G) (service : Service W) (own : Text)
    (delivers : Bytes → Bool) where
  -- The answer to `accept_pairing`.
  abbrev pub paired : Host G W → Checked Invitation × G → Served G W
  paired h (err e, g) = record {
    goes_on = true;
    sent = [];
    host = record {
      session = g;
      registry = h.registry;
      workspace = h.workspace;
      pairing = h.pairing;
    };
  }
  paired h (ok invitation, g) =
      let welcome = pairing_welcome invitation in
      if delivers welcome
      then record {
        goes_on = true;
        sent = welcome ∷ [];
        host = record {
          session = g;
          registry = admit_newest h.registry (newest_device mls own g h.registry);
          workspace = h.workspace;
          pairing = none;
        };
      }
      else record {
        goes_on = false;
        sent = welcome ∷ [];
        host = record {
          session = g;
          registry = h.registry;
          workspace = h.workspace;
          pairing = h.pairing;
        };
      }

  abbrev sealed : Host G W → Checked Bytes × G → Served G W
  sealed h (err e, g) = record {
    goes_on = false;
    sent = [];
    host = record {
      session = g;
      registry = h.registry;
      workspace = h.workspace;
      pairing = h.pairing;
    };
  }
  sealed h (ok frame, g) = record {
    goes_on = delivers frame;
    sent = frame ∷ [];
    host = record {
      session = g;
      registry = h.registry;
      workspace = h.workspace;
      pairing = h.pairing;
    };
  }

  -- `encode`, `seal` and `send`.
  abbrev pub answer : TunnelResponse → Host G W → Served G W
  answer response h = elim (service.encode response) [
    | none ↦ record { goes_on = false; sent = []; host = h }
    | some payload ↦ sealed h (seal_message mls h.session payload)
  ]

  abbrev pub revoked : Host G W → OpenedMessage → G → Text → Served G W
  revoked h opened g target =
      let (response, after, registry) = revoke mls service g h.registry opened target in
      answer response (record {
        session = after;
        registry = registry;
        workspace = h.workspace;
        pairing = h.pairing;
      })

  abbrev pub handled : Host G W → OpenedMessage → G → Served G W
  handled h opened g =
      let (response, workspace) = handle service h.registry opened h.workspace in
      answer response
        (record { session = g; registry = h.registry; workspace = workspace; pairing = h.pairing })

  abbrev pub opened_by : Host G W → Checked OpenedMessage × G → Served G W
  opened_by h (err e, g) = record {
    goes_on = true;
    sent = [];
    host = record {
      session = g;
      registry = h.registry;
      workspace = h.workspace;
      pairing = h.pairing;
    };
  }
  opened_by h (ok opened, g) = elim (revocation_target service opened) [
    | some target ↦ revoked h opened g target
    | none ↦ handled h opened g
  ]

  -- A pairing frame, at the secret of the code on the screen.
  abbrev pub pairing_step : Host G W → Bytes → Option Bytes → Served G W
  pairing_step h frame none = record { goes_on = true; sent = []; host = h }
  pairing_step h frame (some secret) =
      paired h (accept_pairing p (add_device mls) h.session frame secret)

  -- The body of the loop of `serve_route`.
  unfoldable pub serve_step : Bytes → Host G W → Served G W
  serve_step frame h =
      if is_pairing_frame frame
      then pairing_step h frame h.pairing
      else opened_by h (open_message mls h.session frame)

  -- The loop, over the frames that the relay yields until it closes.
  unfoldable pub serve_route : List Bytes → Host G W → Served G W
  serve_route [] h = record { goes_on = true; sent = []; host = h }
  serve_route (frame ∷ frames) h =
      let step = serve_step frame h in
      let rest = serve_route frames step.host in
      if step.goes_on
      then record { goes_on = rest.goes_on; sent = step.sent ++ rest.sent; host = rest.host }
      else step

-- `pairing_payload`.
unfoldable pub pairing_payload : Text → Text → Text → Bytes → Text
pairing_payload relay_url route_id token secret =
    codes "leave://pair?relay="
    ++ relay_url
    ++ codes "&route="
    ++ route_id
    ++ codes "&token="
    ++ token
    ++ codes "&secret="
    ++ hex secret
