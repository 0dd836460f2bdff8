-- ===== src/LocalServer/Access.antt =====
-- apps/leave/src/local_server.rs: who may call the API. A header is what `to_str` yields of it.
use leave_cli.Prelude.{
  ◌+◌, Bool, true, false, not, ◌&&◌, ◌||◌, Option, none, some, ◌++◌, Result, ok, err, ok_or,
  refuse_if, ◌>>=◌, leb, map, if◌then◌else◌,
}
use leave_cli.Prelude.Text.{Text, codes, text_eq, starts_with}
use leave_cli.LocalServer.Errors.{ApiError, forbidden}

pub data HostAccess : Type 0 where
  local_access : HostAccess
  tailnet : (owner_login url : Text) → HostAccess

-- `to_ascii_lowercase`.
abbrev pub lowercase : Text → Text
lowercase = map (λ b. if leb b'A' b && leb b b'Z' then b + 32 else b)

abbrev pub names_local : Text → Bool
names_local host =
    text_eq host (codes "localhost")
    || starts_with host (codes "localhost:")
    || text_eq host (codes "127.0.0.1")
    || starts_with host (codes "127.0.0.1:")
    || text_eq host (codes "[::1]")
    || starts_with host (codes "[::1]:")

unfoldable pub is_local_host : Text → Bool
is_local_host host = names_local (lowercase host)

abbrev pub is_owner : Text → Option Text → Bool
is_owner owner_login none = false
is_owner owner_login (some login) = text_eq login owner_login

unfoldable pub access_allowed : HostAccess → Text → Option Text → Bool
access_allowed local_access host login = true
access_allowed (tailnet owner_login url) host login =
    is_local_host host || is_owner owner_login login

-- The headers that are read of a request.
pub record AccessHeaders : Type 0 where
  pub host : Option Text
  pub origin : Option Text
  pub tailscale_user_login : Option Text

abbrev pub host_or_empty : Option Text → Text
host_or_empty none = codes ""
host_or_empty (some host) = host

abbrev pub lowered : Option Text → Option Text
lowered none = none
lowered (some login) = some (lowercase login)

-- `authorize_access`: what the rest of the stack answers, or the refusal.
unfoldable pub authorize_access : {R : Type 0} → HostAccess → AccessHeaders → R → Result ApiError R
authorize_access access headers next =
    if not
      (access_allowed access (host_or_empty headers.host) (lowered headers.tailscale_user_login))
    then err (forbidden (codes "this Leave host only accepts its owner's Tailscale identity"))
    else ok next

unfoldable pub require_same_origin : AccessHeaders → Result ApiError (Unit {0})
require_same_origin headers = do
  host ← ok_or headers.host (forbidden (codes "WebSocket Host header is missing"))
  origin ← ok_or headers.origin (forbidden (codes "WebSocket Origin header is missing"))
  refuse_if
      (not (text_eq origin (codes "http://" ++ host) || text_eq origin (codes "https://" ++ host)))
      (forbidden (codes "cross-origin WebSocket denied"))
