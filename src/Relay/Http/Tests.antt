-- ===== src/Relay/Http/Tests.antt =====
-- The theorems at concrete inputs.
use leave_cli.Prelude.{◌≡◌, ◌↔◌, ◌⊎◌, ◌≤◌, refl, Bool, true, none, some, [], ◌∷◌, length}
use leave_cli.Prelude.Text.{codes, split, strip_prefix, trim_ascii}
use leave_cli.Crypto.Sample.{sample}
use leave_cli.Relay.Routes.{Route, RouteTable, hash_token, register}
use leave_cli.Prelude.Maps.{lookup}
use leave_cli.Relay.Http.{Headers, token_prefix, presented_token, upgrade, websocket}
use leave_cli.Relay.Http.Laws.{websocket-upgrade_iff}

abbrev one_route : RouteTable
one_route = (register sample (codes "r1") (1 ∷ []) []).1

-- A browser, which passes its token as the second subprotocol.
abbrev browser : Headers
browser = record {
  route_token = none;
  registration = some (codes "secret");
  subprotocols = some (codes "leave.v1, leave-token.01");
  origin = some (codes "https://leave");
}

run : Unit {0}
unfolding codes token_prefix presented_token split strip_prefix trim_ascii
run = tt

subprotocol_token : presented_token browser ≡ codes "01"
unfolding run
subprotocol_token = refl

websocket-upgrade_iff_example :
    (websocket sample (codes "https://leave") one_route true (codes "r1") browser ≡ upgrade) ↔ (
      (◌≡◌ {A = Bool} true true)
      × (1 ≤ length (codes "r1"))
      × (length (codes "r1") ≤ 128)
      × ((route : Route) × (lookup (codes "r1") one_route ≡ some route)
          × (route.token_hash ≡ hash_token sample (presented_token browser)))
      × ((browser.origin ≡ none) ⊎ (browser.origin ≡ some (codes "https://leave"))))
websocket-upgrade_iff_example =
    websocket-upgrade_iff sample (codes "https://leave") one_route true (codes "r1") browser
