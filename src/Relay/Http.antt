-- ===== src/Relay/Http.antt =====
-- apps/relay/src/lib.rs: the handlers that register, revoke and attach. A header is what
-- `HeaderValue::to_str` yields; `none` is a header that is absent or no visible ASCII.
pub mod Laws
mod Tests
use leave_cli.Prelude.{
  ℕ, Bool, true, false, not, ◌&&◌, ◌||◌, Option, none, some, List, [], ◌∷◌, ltb, if◌then◌else◌,
  length, find_map, is_some,
}
use leave_cli.Prelude.Text.{Text, codes, is_empty, split, strip_prefix, trim_ascii, text_eq}
use leave_cli.Crypto.Error.{Bytes}
use leave_cli.Crypto.Primitives.{Primitives}
use leave_cli.Crypto.Vault.{subtle_eq}
use leave_cli.Relay.Routes.{RouteTable, RegisteredRoute, Route, register, authorize, revoke}

pub record Headers : Type 0 where
  pub route_token : Option Text
  pub registration : Option Text
  pub subprotocols : Option Text
  -- `Origin`, as raw bytes.
  pub origin : Option Bytes

unfoldable pub token_prefix : Text
unfolding codes
token_prefix = codes "leave-token."

abbrev or_empty : Option Text → Text
or_empty none = []
or_empty (some t) = t

abbrev offered_token : Text → Option Text
offered_token entry = strip_prefix (trim_ascii entry) token_prefix

-- `presented_token`: the header wins over the subprotocol.
unfoldable pub presented_token : Headers → Text
presented_token h = elim h.route_token [
  | some token ↦ token
  | none ↦ elim h.subprotocols [
    | none ↦ []
    | some value ↦ or_empty (find_map offered_token (split b',' value))
  ]
]

pub data Reply : Type 0 where
  registered : RegisteredRoute → Reply
  no_content bad_request unauthorized origin_denied not_upgradable upgrade : Reply

-- `register_route`, at the identifier and the key that registering would draw.
unfoldable pub register_route :
    Primitives → Option Text → Headers → Text → Bytes → RouteTable → Reply × RouteTable
register_route p none h route_id key table = (unauthorized, table)
register_route p (some expected) h route_id key table =
    if not (subtle_eq p expected (or_empty h.registration))
    then (unauthorized, table)
    else (registered (register p route_id key table).0, (register p route_id key table).1)

-- `revoke_route`. It locks the table twice; `between` is what other requests did to it meanwhile.
unfoldable pub revoke_route :
    Primitives → Text → Headers → (RouteTable → RouteTable) → RouteTable → Reply × RouteTable
revoke_route p route_id h between table =
    if not (is_some (authorize p table route_id (presented_token h)))
    then (unauthorized, table)
    else (no_content, (revoke route_id (between table)).1)

-- `headers.contains_key(ORIGIN) && headers.get(ORIGIN) != Some(&public_origin)`.
abbrev foreign_origin : Bytes → Option Bytes → Bool
foreign_origin own none = false
foreign_origin own (some o) = not (text_eq o own)

-- `websocket`, up to the upgrade; `upgradable` says whether the `WebSocketUpgrade` extractor, which
-- runs in front of the body, takes the request.
unfoldable pub websocket : Primitives → Bytes → RouteTable → Bool → Text → Headers → Reply
websocket p public_origin table upgradable route_id h =
    if not upgradable
    then not_upgradable
    else if is_empty route_id || ltb 128 (length route_id)
    then bad_request
    else if not (is_some (authorize p table route_id (presented_token h)))
    then unauthorized
    else if foreign_origin public_origin h.origin
    then origin_denied
    else upgrade
