-- ===== src/Host/Handle.antt =====
-- apps/leave/src/relay_tunnel.rs: `handle` and `dispatch`, from a decrypted request to the answer.
-- The workspace behind the router is any type `W`, and `Service W` is what the source leaves to
-- serde_json and axum.
pub mod Laws
use leave_cli.Prelude.{
  ℕ, zero, suc, ◌+◌, ◌/◌, ◌%◌, Bool, true, false, Option, none, some, List, [], ◌∷◌, ◌++◌, Result,
  ok, err, ltb, leb, if◌then◌else◌, length, map, any, ◌&&◌,
}
use leave_cli.Prelude.Text.{Text, codes, text_eq}
use leave_cli.Prelude.Maps.{Assoc, insert}
use leave_cli.Crypto.Error.{Bytes}
use leave_cli.Crypto.Session.{OpenedMessage}
use leave_cli.Tunnel.{
  TunnelRequest, TunnelResponse, TunnelError, unsupported_version, unsupported_method, invalid_path,
  body_too_large, malformed, validate, tunnel_version, max_tunnel_body_bytes,
}
use leave_cli.Host.Registry.{DeviceRegistry, permitted}

pub record HttpRequest : Type 0 where
  pub method : Text
  pub uri : Text
  pub headers : List (Text × Text)
  pub body : Bytes

-- A header value is `none` when `HeaderValue::to_str` fails.
pub record HttpResponse : Type 0 where
  pub status : ℕ
  pub headers : List (Text × Option Text)
  pub body : Bytes

pub record Service (W : Type 0) : Type 0 where
  -- `serde_json::from_slice` and `to_vec`, at the two message types.
  pub decode : Bytes → Option TunnelRequest
  pub encode : TunnelResponse → Option Bytes
  -- Whether `Request::builder()` takes these parts.
  pub is_buildable : HttpRequest → Bool
  -- `router.oneshot(..)`.
  pub oneshot : HttpRequest → W → Option HttpResponse × W

unfoldable pub decimal_digits : ℕ → ℕ → Text → Text
decimal_digits zero n later = later
decimal_digits (suc fuel) n later =
    let shown = (n % 10 + b'0') ∷ later in
    let higher = decimal_digits fuel (n / 10) shown in if ltb n 10 then shown else higher

-- A `u32` in decimal, which has at most ten digits.
abbrev decimal : ℕ → Text
decimal n = decimal_digits 10 n []

-- `Display` of `TunnelError`.
unfoldable pub error_text : TunnelError → Text
error_text (unsupported_version n) = codes "unsupported tunnel version " ++ decimal n
error_text unsupported_method = codes "unsupported method"
error_text invalid_path = codes "invalid request path"
error_text body_too_large =
    codes "request body exceeds " ++ decimal max_tunnel_body_bytes ++ codes " bytes"
error_text malformed = codes "malformed tunnel message"

-- `refusal`; `{message:?}` of these texts, which need no escape, is the text in quotes.
unfoldable pub refusal : Text → ℕ → Text → TunnelResponse
refusal exchange_id status message = record {
  version = tunnel_version;
  exchange_id = exchange_id;
  status = status;
  headers = (codes "content-type", codes "application/json") ∷ [];
  body = codes "{\"error\":{\"message\":\"" ++ message ++ codes "\"}}";
}

abbrev lower : ℕ → ℕ
lower b = if leb b'A' b && leb b b'Z' then b + 32 else b

unfoldable pub to_ascii_lowercase : Text → Text
to_ascii_lowercase s = map lower s

-- The headers that belong to the loopback listener.
unfoldable pub is_transport_header : Text → Bool
is_transport_header name = any (text_eq (to_ascii_lowercase name)) (
    codes "host"
    ∷ codes "connection"
    ∷ codes "upgrade"
    ∷ codes "transfer-encoding"
    ∷ codes "content-length"
    ∷ [])

unfoldable pub carried_headers : Assoc Text → List (Text × Text)
carried_headers [] = []
carried_headers ((name, value) ∷ rest) =
    let further = carried_headers rest in
    if is_transport_header name then further else (name, value) ∷ further

-- `filter_map` into a `BTreeMap`: a later value replaces an earlier one.
unfoldable pub readable_headers : List (Text × Option Text) → Assoc Text → Assoc Text
readable_headers [] found = found
readable_headers ((name, none) ∷ rest) found = readable_headers rest found
readable_headers ((name, some value) ∷ rest) found = readable_headers rest (insert name value found)

abbrev pub http_request : TunnelRequest → HttpRequest
http_request request = record {
  method = request.method;
  uri = request.path;
  headers = carried_headers request.headers;
  body = request.body;
}

abbrev respond : TunnelRequest → Option HttpResponse → Option TunnelResponse
respond request none = none
respond request (some response) =
    if ltb max_tunnel_body_bytes (length response.body)
    then none
    else some (record {
      version = tunnel_version;
      exchange_id = request.exchange_id;
      status = response.status;
      headers = readable_headers response.headers [];
      body = response.body;
    })

module _ {W : Type 0} (service : Service W) where
  unfoldable pub dispatch : TunnelRequest → W → Option TunnelResponse × W
  dispatch request w =
      if service.is_buildable (http_request request)
      then (let (response, after) = service.oneshot (http_request request) w in
          (respond request response, after))
      else (none, w)

  -- The last `match` of `handle`.
  abbrev pub completed : TunnelRequest → Option TunnelResponse × W → TunnelResponse × W
  completed request (some response, w) = (response, w)
  completed request (none, w) =
      (refusal request.exchange_id 500 (codes "the host could not complete that request"), w)

  -- `handle` behind `decode` and `validate`.
  abbrev answer_validated :
      DeviceRegistry → Text → TunnelRequest → Result TunnelError (Unit {0}) → W → TunnelResponse × W
  answer_validated registry sender request (err e) w =
      (refusal request.exchange_id 400 (error_text e), w)
  answer_validated registry sender request (ok _) w =
      if permitted registry sender request.method request.path
      then completed request (dispatch request w)
      else (refusal request.exchange_id 403 (codes "this device is not allowed to do that"), w)

  unfoldable pub handle : DeviceRegistry → OpenedMessage → W → TunnelResponse × W
  handle registry opened w = elim (service.decode opened.plaintext) [
    | none ↦ (refusal (codes "unknown") 400 (codes "malformed request"), w)
    | some request ↦ answer_validated registry opened.sender_device_id request (validate request) w
  ]
