-- ===== src/Relay/Config/Tests.antt =====
-- The theorem at a concrete input.
use leave_cli.Prelude.{ℕ, ◌≡◌, ◌≢◌, refl, true, none, some, []}
use leave_cli.Prelude.Text.{codes, text_eq}
use leave_cli.Relay.Config.{Environment, Network, RelayConfig, env_bool, config_from_environment}
use leave_cli.Relay.Config.Laws.{config_from_environment_lem}

abbrev laptop : Network ℕ
laptop = record {
  parse_address = λ t. some 7;
  is_loopback = λ a. true;
  is_header_value = λ t. true;
  postgres_connects = true;
  redis_connects = true;
}

abbrev demo : Environment
demo = record {
  demo_mode = some (codes "yes");
  relay_bind = none;
  public_origin = some (codes "o");
  registration_secret = some [];
}

abbrev started : RelayConfig ℕ
started = record {
  demo_mode = true;
  public_origin = codes "o";
  registration_secret = none;
  bind = 7;
}

config_from_environment_lem_example :
    (started.demo_mode ≡ true)
    × (laptop.is_loopback started.bind ≡ true)
    × (started.registration_secret ≢ some [])
unfolding config_from_environment env_bool codes text_eq
config_from_environment_lem_example = config_from_environment_lem laptop demo started refl
