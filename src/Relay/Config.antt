-- ===== src/Relay/Config.antt =====
-- apps/relay/src/lib.rs: `config_from_environment`, what a relay needs in order to start. The
-- address type `A` and the connections are of other crates.
pub mod Laws
mod Tests
use leave_cli.Prelude.{
  Bool, true, false, not, ◌&&◌, ◌||◌, Option, none, some, List, [], ◌∷◌, Result, ok, err, ok_or,
  map_err, refuse_if, ◌>>=◌, ◌>>◌, if◌then◌else◌,
}
use leave_cli.Prelude.Text.{Text, codes, text_eq, is_empty}
use leave_cli.Gate.{CryptoReleaseStatus, CryptoGateError, require_remote_release}

-- The variables of the environment; `none` is one that is not set.
pub record Environment : Type 0 where
  pub demo_mode : Option Text
  pub relay_bind : Option Text
  pub public_origin : Option Text
  pub registration_secret : Option Text

pub record Network (A : Type 0) : Type 0 where
  -- `str::parse` to a socket address.
  pub parse_address : Text → Option A
  pub is_loopback : A → Bool
  -- `HeaderValue::from_str(..).is_ok()`.
  pub is_header_value : Text → Bool
  -- Whether the databases that are configured answer.
  pub postgres_connects : Bool
  pub redis_connects : Bool

pub data StartError : Type 0 where
  release_gate : CryptoGateError → StartError
  bad_address demo_not_loopback bad_origin no_postgres no_redis : StartError

pub record RelayConfig (A : Type 0) : Type 0 where
  pub demo_mode : Bool
  pub public_origin : Text
  pub registration_secret : Option Text
  pub bind : A

abbrev is_set_to : Text → Option Text → Bool
is_set_to v none = false
is_set_to v (some t) = text_eq t v

-- `env_bool`.
unfoldable pub env_bool : Option Text → Bool
env_bool v =
    is_set_to (codes "1") v
    || is_set_to (codes "true") v
    || is_set_to (codes "TRUE") v
    || is_set_to (codes "yes") v

abbrev or_default : Text → Option Text → Text
or_default d none = d
or_default d (some t) = t

-- `filter(|secret| !secret.is_empty())`.
abbrev pub usable_secret : Option Text → Option Text
usable_secret none = none
usable_secret (some secret) = if is_empty secret then none else some secret

unfoldable pub config_from_environment :
    {A : Type 0} → Network A → Environment → Result StartError (RelayConfig A)
config_from_environment network e = do
  (if env_bool e.demo_mode then ok tt else map_err release_gate require_remote_release)
  bind ←
      ok_or (network.parse_address (or_default (codes "127.0.0.1:8787") e.relay_bind)) bad_address
  refuse_if (env_bool e.demo_mode && not (network.is_loopback bind)) demo_not_loopback
  refuse_if
      (not (network.is_header_value (or_default (codes "http://localhost:5173") e.public_origin)))
      bad_origin
  refuse_if (not network.postgres_connects) no_postgres
  refuse_if (not network.redis_connects) no_redis
  ok (record {
    demo_mode = env_bool e.demo_mode;
    public_origin = or_default (codes "http://localhost:5173") e.public_origin;
    registration_secret = usable_secret e.registration_secret;
    bind = bind;
  })
