-- ===== src/Host/Tests.antt =====
-- The theorems at concrete inputs.
use leave_cli.Prelude.{
  ℕ, suc, ◌≡◌, ◌≢◌, ◌↔◌, ◌⊎◌, refl, Bool, true, false, Option, none, some, List, [], ◌∷◌, ok,
}
use leave_cli.Prelude.Text.{Text, codes, starts_with, text_eq, before, has_byte}
use leave_cli.Prelude.Maps.{lookup}
use leave_cli.Crypto.Error.{Bytes}
use leave_cli.Crypto.Sample.{sample}
use leave_cli.Crypto.Session.{Member, OpenedMessage, remove_device}
use leave_cli.Crypto.Session.Sample.{phone, plain_group}
use leave_cli.Policy.{
  authorize, role_allows, grant_allows, owner, Capability, contains, view, prompt,
  low_risk_approval,
}
use leave_cli.Tunnel.{TunnelRequest, action_for, validate, terminals, previews}
use leave_cli.Tunnel.Classes.{route_of}
use leave_cli.Host.Registry.{DeviceRegistry, DeviceGrant, newly_paired, get_grant, permitted}
use leave_cli.Host.Registry.Laws.{permitted-capability, permitted-newly_paired_iff, answer_path}
use leave_cli.Host.Handle.{Service, dispatch, completed, handle}
use leave_cli.Host.Handle.Laws.{handle_lem}
use leave_cli.Host.Revoke.{revoke}
use leave_cli.Host.Revoke.Laws.{revoke_lem, IsOwner, IsRemoved, Shrinks}
use leave_cli.Host.Serve.{Host, serve_route}
use leave_cli.Host.Serve.Laws.{OnlyGains, serve_route-closed, serve_route-one_device}

abbrev request_to : Text → Text → TunnelRequest
request_to method path = record {
  version = 1;
  exchange_id = b'e' ∷ [];
  method = method;
  path = path;
  headers = [];
  body = [];
}

-- A workspace that counts its requests; the first byte of a message stands for its text.
abbrev messages : Bytes → Option TunnelRequest
messages [] = none
messages (b ∷ rest) = some (request_to (codes "GET") (codes "/api/v1/local/status"))

abbrev counting : Service ℕ
counting = record {
  decode = messages;
  encode = λ response. some response.body;
  is_buildable = λ request. true;
  oneshot = λ request w. (some (record { status = 200; headers = []; body = 7 ∷ [] }), suc w);
}

abbrev terminal_owner : DeviceGrant
terminal_owner = record { role = owner; capabilities = Capability.raw_pty ∷ [] }

abbrev registry : DeviceRegistry
registry = (phone, terminal_owner) ∷ (codes "b", newly_paired) ∷ []

abbrev opened : OpenedMessage
opened = record { sender_device_id = phone; plaintext = 1 ∷ [] }

may_attach : permitted registry phone (codes "GET") terminals ≡ true
unfolding permitted lookup text_eq action_for starts_with codes before authorize contains
    role_allows grant_allows
may_attach = refl

permitted-capability_example :
    (starts_with (route_of terminals) terminals ≡ true
      → (grant : DeviceGrant) × (get_grant registry phone ≡ some grant)
        × (contains grant.capabilities Capability.raw_pty ≡ true))
    × (starts_with (route_of terminals) previews ≡ true
        → (grant : DeviceGrant) × (get_grant registry phone ≡ some grant)
          × (contains grant.capabilities Capability.persistent_browser_profile ≡ true))
permitted-capability_example =
    permitted-capability registry phone (codes "GET") terminals may_attach

permitted-newly_paired_iff_example :
    ((m p : Text)
      → (permitted registry (codes "b") m p ≡ true) ↔ (
          (action_for m p ≡ view)
          ⊎ (action_for m p ≡ prompt)
          ⊎ (action_for m p ≡ low_risk_approval)))
    × ((id : Text)
        → has_byte b'?' id ≡ false
        → permitted registry (codes "b") (codes "POST") (answer_path id) ≡ false)
unfolding lookup text_eq codes
permitted-newly_paired_iff_example = permitted-newly_paired_iff registry (codes "b") refl

handle_lem_example :
    let (reply, after) = handle counting registry opened 4 in
    ((reply.status ≡ 400)
      × (after ≡ 4)
      × ((request : TunnelRequest)
          → counting.decode opened.plaintext ≡ some request
          → validate request ≢ ok tt))
    ⊎ ((request : TunnelRequest) × (counting.decode opened.plaintext ≡ some request)
        × (reply.status ≡ 403)
        × (after ≡ 4)
        × (validate request ≡ ok tt)
        × (permitted registry opened.sender_device_id request.method request.path ≡ false))
    ⊎ ((request : TunnelRequest) × (counting.decode opened.plaintext ≡ some request)
        × (validate request ≡ ok tt)
        × (permitted registry opened.sender_device_id request.method request.path ≡ true)
        × (handle counting registry opened 4
            ≡ completed counting request (dispatch counting request 4)))
handle_lem_example = handle_lem counting registry opened 4

abbrev members : List Member
members =
    record { index = 1; credential = phone } ∷ record { index = 0; credential = b'h' ∷ [] } ∷ []

revoke_lem_example :
    let (reply, after, grants) = revoke plain_group counting members registry opened (codes "b") in
    ((¬ IsOwner plain_group counting members registry opened)
      × (reply.status ≡ 403)
      × (after ≡ members)
      × (grants ≡ registry))
    ⊎ (IsOwner plain_group counting members registry opened
        × (codes "b" ≡ opened.sender_device_id)
        × (reply.status ≡ 400)
        × (after ≡ members)
        × (grants ≡ registry))
    ⊎ (IsOwner plain_group counting members registry opened
        × (codes "b" ≢ opened.sender_device_id)
        × (after ≡ (remove_device plain_group members (codes "b")).1)
        × (((reply.status ≡ 404) × (grants ≡ registry))
            ⊎ ((reply.status ≡ 204)
                × ((commit : Bytes) × ((remove_device plain_group members (codes "b")).0
                      ≡ ok commit))
                × IsRemoved (codes "b") registry grants)))
revoke_lem_example = revoke_lem plain_group counting members registry opened (codes "b")

abbrev delivers : Bytes → Bool
delivers frame = true

abbrev closed_host : Host (List Member) ℕ
closed_host = record { session = members; registry = registry; workspace = 4; pairing = none }

abbrev showing_host : Host (List Member) ℕ
showing_host = record {
  session = members;
  registry = registry;
  workspace = 4;
  pairing = some (7 ∷ []);
}

serve_route-closed_example :
    Shrinks closed_host.registry
      (serve_route sample plain_group counting
        (b'h' ∷ [])
        delivers
        ((1 ∷ []) ∷ [])
        closed_host).host.registry
    × ((serve_route sample plain_group counting
          (b'h' ∷ [])
          delivers
          ((1 ∷ []) ∷ [])
          closed_host).host.pairing
        ≡ none)
serve_route-closed_example =
    serve_route-closed sample plain_group counting (b'h' ∷ []) delivers ((1 ∷ []) ∷ []) closed_host
      refl

serve_route-one_device_example :
    (device : Option Text) × OnlyGains sample plain_group counting
      (b'h' ∷ [])
      delivers
      device
      showing_host.registry
      (serve_route sample plain_group counting
        (b'h' ∷ [])
        delivers
        ((1 ∷ []) ∷ [])
        showing_host).host.registry
serve_route-one_device_example =
    serve_route-one_device sample plain_group counting (b'h' ∷ []) delivers ((1 ∷ []) ∷ [])
      showing_host
