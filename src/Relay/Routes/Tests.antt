-- ===== src/Relay/Routes/Tests.antt =====
-- The theorems at concrete inputs.
use leave_cli.Prelude.{◌≡◌, ◌≢◌, refl, true, none, [], ◌∷◌, is_some}
use leave_cli.Prelude.Text.{Text, codes, text_eq}
use leave_cli.Prelude.Maps.{lookup, insert, remove}
use leave_cli.Crypto.Vault.{subtle_eq}
use leave_cli.Crypto.Sample.{sample}
use leave_cli.Relay.Routes.{RouteTable, hex, hash_token, register, authorize}
use leave_cli.Relay.Routes.Laws.{authorize-register}

abbrev two_routes : RouteTable
two_routes = (register sample (codes "r1") (1 ∷ []) (register sample (codes "r2") (20 ∷ []) []).1).1

run : Unit {0}
unfolding codes hex register authorize lookup insert remove text_eq subtle_eq
run = tt

token_accepted : is_some (authorize sample two_routes (codes "r2") (codes "14")) ≡ true
unfolding run
token_accepted = refl

token_refused : authorize sample two_routes (codes "r1") (codes "14") ≡ none
unfolding run
token_refused = refl

authorize-register_example :
    let (made, after) = register sample (codes "r3") (7 ∷ []) two_routes in
    (is_some (authorize sample after made.route_id made.token) ≡ true)
    × ((token : Text)
        → hash_token sample token ≢ hash_token sample made.token
        → authorize sample after made.route_id token ≡ none)
    × ((other token : Text)
        → other ≢ made.route_id
        → authorize sample after other token ≡ authorize sample two_routes other token)
authorize-register_example = authorize-register sample two_routes (codes "r3") (7 ∷ [])
