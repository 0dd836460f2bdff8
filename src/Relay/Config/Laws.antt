-- ===== src/Relay/Config/Laws.antt =====
-- When a relay starts.
use leave_cli.Prelude.{
  ◌≡◌, ◌≢◌, refl, sym, ap, ◌∙◌, Bool, true, false, not, ◌&&◌, Option, none, some, Result, ok, err,
  ok_or, map_err, refuse_if, >>=-eq-ok, if◌then◌else◌, [], ◌∷◌,
}
use leave_cli.Prelude.Text.{Text, codes}
use leave_cli.Gate.{require_remote_release, require_remote_release_of, allows_remote_release}
use leave_cli.Relay.Config.{
  Environment, Network, StartError, RelayConfig, release_gate, bad_address, demo_not_loopback,
  bad_origin, no_postgres, no_redis, or_default, env_bool, usable_secret, config_from_environment,
}

-- The gate refuses today's status.
gate_closed :
    (b : Bool)
    → (if b then ok tt else map_err release_gate require_remote_release) ≡ ok tt
    → b ≡ true
unfolding require_remote_release require_remote_release_of allows_remote_release
gate_closed true h = refl
gate_closed false h = cc

loopback_only :
    (demo loopback : Bool) (e : StartError)
    → demo ≡ true
    → refuse_if (demo && not loopback) e ≡ ok tt
    → loopback ≡ true
loopback_only true true e d h = refl
loopback_only true false e d h = cc
loopback_only false loopback e d h = cc

usable_secret-ne-empty : (s : Option Text) → usable_secret s ≢ some []
usable_secret-ne-empty none h = cc
usable_secret-ne-empty (some []) h = cc
usable_secret-ne-empty (some (b ∷ s)) h = cc

-- As the release status stands, a relay starts only in demo mode and bound to a loopback address,
-- and it never accepts the empty text for its registration secret.
pub config_from_environment_lem :
    {A : Type 0} (network : Network A) (e : Environment) (config : RelayConfig A)
    → config_from_environment network e ≡ ok config
    → (config.demo_mode ≡ true)
      × (network.is_loopback config.bind ≡ true)
      × (config.registration_secret ≢ some [])
unfolding config_from_environment
config_from_environment_lem {A = A} network e config h =
    let (_, gate, h1) =
      >>=-eq-ok
        (if env_bool e.demo_mode then ok tt else map_err release_gate require_remote_release) _ h in
    let (bind, parsed, h2) =
      >>=-eq-ok
        (ok_or (network.parse_address (or_default (codes "127.0.0.1:8787") e.relay_bind))
          bad_address)
        _ h1 in
    let (_, local, h3) =
      >>=-eq-ok
        (refuse_if (env_bool e.demo_mode && not (network.is_loopback bind)) demo_not_loopback) _
        h2 in
    let (_, origin, h4) =
      >>=-eq-ok
        (refuse_if
          (not
            (network.is_header_value (or_default (codes "http://localhost:5173") e.public_origin)))
          bad_origin)
        _ h3 in
    let (_, postgres, h5) =
      >>=-eq-ok (refuse_if (not network.postgres_connects) no_postgres) _ h4 in
    let (_, redis, h6) = >>=-eq-ok (refuse_if (not network.redis_connects) no_redis) _ h5 in
    let demo = gate_closed (env_bool e.demo_mode) gate in
    (
      ap demo_of (sym h6) ∙ demo,
      ap local_of (sym h6)
          ∙ loopback_only (env_bool e.demo_mode) (network.is_loopback bind) _ demo local,
      λ empty. usable_secret-ne-empty e.registration_secret (ap secret_of h6 ∙ empty),
    )
  where
    demo_of : Result StartError (RelayConfig A) → Bool
    demo_of (ok c) = c.demo_mode
    demo_of (err f) = false

    local_of : Result StartError (RelayConfig A) → Bool
    local_of (ok c) = network.is_loopback c.bind
    local_of (err f) = false

    secret_of : Result StartError (RelayConfig A) → Option Text
    secret_of (ok c) = c.registration_secret
    secret_of (err f) = none
