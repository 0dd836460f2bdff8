-- ===== src/Tunnel/Tests.antt =====
-- The crate's own cases, and the theorems at concrete inputs.
use leave_cli.Prelude.{◌≡◌, ◌↔◌, ◌⊎◌, refl, List, [], ◌∷◌, ◌++◌, some, ok, err}
use leave_cli.Prelude.Maps.{lookup}
use leave_cli.Prelude.Text.{
  Text, codes, text_eq, starts_with, contains, ends_with, split_once, split, before,
}
use leave_cli.Policy.{Action, view, low_risk_approval, edit_files, git_write, project_customization}
use leave_cli.Tunnel.{
  TunnelRequest, validate, known_method, bad_path, invalid_path, unsupported_method, action_for,
  query_value, is_reading, write_action, git_reads, customization_action, customization,
}
use leave_cli.Tunnel.Validation.{IsServable, validate_iff}
use leave_cli.Tunnel.Classes.{IsOrdinary, IsRead, IsGitRead, route_of, action_for-view_iff}
use leave_cli.Tunnel.Queries.{customization_scope, query_text}

-- What a test computes with.
run : Unit {0}
unfolding validate known_method bad_path action_for query_value is_reading write_action git_reads
    lookup customization_action codes text_eq starts_with contains ends_with split_once split before
run = tt

abbrev request : Text → Text → TunnelRequest
request method path = record {
  version = 1;
  exchange_id = [];
  method = method;
  path = path;
  headers = [];
  body = [];
}

validation :
    (validate (request (codes "GET") (codes "/api/v1/local/status")) ≡ ok tt)
    × (validate (request (codes "GET") (codes "/api/v1/local/../../etc/passwd")) ≡ err invalid_path)
    × (validate (request (codes "GET") (codes "/index.html")) ≡ err invalid_path)
    × (validate (request (codes "TRACE") (codes "/api/v1/local/status")) ≡ err unsupported_method)
unfolding run
validation = (refl, refl, refl, refl)

classification :
    (action_for (codes "GET") (codes "/api/v1/local/terminals/abc") ≡ Action.raw_pty)
    × (action_for (codes "POST") (codes "/api/v1/local/git/commit") ≡ git_write)
    × (action_for (codes "POST") (codes "/api/v1/local/sessions/abc/permissions")
        ≡ low_risk_approval)
    × (action_for (codes "POST") (codes "/api/v1/local/something-new") ≡ edit_files)
    × (action_for (codes "GET") (codes "/api/v1/local/customization?category=rules")
        ≡ project_customization)
    × (action_for (codes "POST") (codes "/api/v1/local/customization")
        ≡ Action.global_customization)
unfolding run
classification = (refl, refl, refl, refl, refl, refl)

-- The route by which the local API takes an approval is classified as an edit.
approval_route : action_for (codes "POST") (codes "/api/v1/local/permissions/0190") ≡ edit_files
unfolding run
approval_route = refl

validate_iff_example :
    (validate (request (codes "GET") (codes "/api/v1/local/status")) ≡ ok tt)
    ↔ IsServable (request (codes "GET") (codes "/api/v1/local/status"))
validate_iff_example = validate_iff (request (codes "GET") (codes "/api/v1/local/status"))

action_for-view_iff_example :
    (action_for (codes "POST") (codes "/api/v1/local/git/diff") ≡ view) ↔ (
      IsOrdinary (route_of (codes "/api/v1/local/git/diff"))
      × (IsRead (codes "POST") ⊎ IsGitRead (route_of (codes "/api/v1/local/git/diff"))))
action_for-view_iff_example = action_for-view_iff (codes "POST") (codes "/api/v1/local/git/diff")

abbrev by_category : List (Text × Text)
by_category =
    (codes "x", codes "rules")
    ∷ (codes "category", codes "mcp")
    ∷ (codes "category", codes "rules")
    ∷ []

customization_scope_example :
    let asked = lookup (codes "category") by_category in
    let action = action_for (codes "PUT") (customization ++ b'?' ∷ query_text by_category) in
    ((action ≡ project_customization)
      ↔ ((asked ≡ some (codes "rules")) ⊎ (asked ≡ some (codes "skills"))))
    × (¬ ((asked ≡ some (codes "rules")) ⊎ (asked ≡ some (codes "skills")))
        → action ≡ Action.global_customization)
    × (action_for (codes "PUT") customization ≡ Action.global_customization)
unfolding run
customization_scope_example =
    customization_scope (codes "PUT") customization by_category refl refl
      ((refl, refl), ((refl, refl), ((refl, refl), tt)))
