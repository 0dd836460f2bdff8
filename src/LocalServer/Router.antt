-- ===== src/LocalServer/Router.antt =====
-- apps/leave/src/local_server.rs: `build_router`, with the middleware around it.
use leave_cli.Prelude.{Option, none, some, List, [], ◌∷◌, ◌&&◌, ◌||◌, if◌then◌else◌}
use leave_cli.Prelude.Text.{Text, codes, text_eq, split, strip_prefix}
use leave_cli.Prelude.Maps.{Assoc, insert, lookup}

pub data Endpoint : Type 0 where
  status local_openapi workspaces sessions create_session : Endpoint
  session session_events resume_session prompt cancel : Text → Endpoint
  decide_permission : Text → Endpoint
  workspace_events websocket list_files read_file write_file : Endpoint
  git_status git_diff git_branches git_switch git_worktrees : Endpoint
  git_stage git_unstage git_commit git_push : Endpoint
  customization_read customization_mutate create_terminal create_preview : Endpoint
  terminal_websocket preview_control preview_websocket : Text → Endpoint

-- The methods that one path has. `get` answers HEAD as well.
pub record Methods : Type 0 where
  pub get : Option Endpoint
  pub post : Option Endpoint
  pub put : Option Endpoint

abbrev pub only_get : Endpoint → Methods
only_get e = record { get = some e; post = none; put = none }

abbrev pub only_post : Endpoint → Methods
only_post e = record { get = none; post = some e; put = none }

abbrev pub only_put : Endpoint → Methods
only_put e = record { get = none; post = none; put = some e }

abbrev pub get_post : Endpoint → Endpoint → Methods
get_post e f = record { get = some e; post = some f; put = none }

-- The paths of one segment behind the prefix of the API.
abbrev pub flat_routes : Assoc Methods
flat_routes =
    (codes "status", only_get status)
    ∷ (codes "openapi.json", only_get local_openapi)
    ∷ (codes "workspaces", only_get workspaces)
    ∷ (codes "sessions", get_post sessions create_session)
    ∷ (codes "events", only_get workspace_events)
    ∷ (codes "ws", only_get websocket)
    ∷ (codes "files", only_get list_files)
    ∷ (codes "file", record { get = some read_file; post = none; put = some write_file })
    ∷ (codes "customization", get_post customization_read customization_mutate)
    ∷ (codes "terminals", only_post create_terminal)
    ∷ (codes "previews", only_post create_preview)
    ∷ []

abbrev pub git_routes : Assoc Methods
git_routes =
    (codes "status", only_get git_status)
    ∷ (codes "diff", only_get git_diff)
    ∷ (codes "branches", get_post git_branches git_switch)
    ∷ (codes "worktrees", only_get git_worktrees)
    ∷ (codes "stage", only_post git_stage)
    ∷ (codes "unstage", only_post git_unstage)
    ∷ (codes "commit", only_post git_commit)
    ∷ (codes "push", only_post git_push)
    ∷ []

abbrev pub session_routes : Text → Assoc Methods
session_routes id =
    (codes "events", only_get (session_events id))
    ∷ (codes "resume", only_post (resume_session id))
    ∷ (codes "prompts", only_post (prompt id))
    ∷ (codes "cancel", only_post (cancel id))
    ∷ []

abbrev pub permission_routes : Text → Methods
permission_routes id = only_post (decide_permission id)

-- A captured segment is not empty.
abbrev pub captured : Text → (Text → Option Methods) → Option Methods
captured [] make = none
captured (b ∷ s) make = make (b ∷ s)

abbrev pub two_segments : Text → Text → Option Methods
two_segments a b =
    if text_eq a (codes "git")
    then lookup b git_routes
    else if text_eq a (codes "sessions")
    then captured b (λ id. some (only_get (session id)))
    else if text_eq a (codes "permissions")
    then captured b (λ id. some (permission_routes id))
    else none

abbrev pub three_segments : Text → Text → Text → Option Methods
three_segments a id c =
    if text_eq a (codes "sessions")
    then captured id (λ id. lookup c (session_routes id))
    else if text_eq a (codes "terminals") && text_eq c (codes "ws")
    then captured id (λ id. some (only_get (terminal_websocket id)))
    else if text_eq a (codes "previews") && text_eq c (codes "control")
    then captured id (λ id. some (only_put (preview_control id)))
    else if text_eq a (codes "previews") && text_eq c (codes "ws")
    then captured id (λ id. some (only_get (preview_websocket id)))
    else none

-- The table of routes, by the segments behind `/api/v1/local/`.
unfoldable pub methods_at : List Text → Option Methods
methods_at (a ∷ []) = lookup a flat_routes
methods_at (a ∷ b ∷ []) = two_segments a b
methods_at (a ∷ b ∷ c ∷ []) = three_segments a b c
methods_at _ = none

pub data Routed : Type 0 where
  static_files method_not_allowed : Routed
  endpoint : Endpoint → Routed

abbrev pub allowed : Option Endpoint → Routed
allowed none = method_not_allowed
allowed (some e) = endpoint e

abbrev pub by_method : Text → Methods → Routed
by_method method m =
    if text_eq method (codes "GET") || text_eq method (codes "HEAD")
    then allowed m.get
    else if text_eq method (codes "POST")
    then allowed m.post
    else if text_eq method (codes "PUT")
    then allowed m.put
    else method_not_allowed

abbrev pub dispatched : Text → Option Methods → Routed
dispatched method none = static_files
dispatched method (some m) = by_method method m

-- `build_router`: the endpoint of a request, its path without the query; anything else is a file of
-- the web application.
unfoldable pub route_request : Text → Text → Routed
route_request method path = elim (strip_prefix path (codes "/api/v1/local/")) [
  | none ↦ static_files
  | some rest ↦ dispatched method (methods_at (split b'/' rest))
]

-- `security_headers`: what the middleware sets on every response, over what was there.
unfoldable pub security_headers : Assoc Text → Assoc Text
security_headers headers = insert (codes "cache-control") (codes "no-store") (
    insert (codes "referrer-policy") (codes "no-referrer") (
      insert (codes "x-content-type-options") (codes "nosniff") (
        insert (codes "content-security-policy")
          (codes
            "default-src 'self'; script-src 'self'; style-src 'self'; font-src 'self'; img-src 'self' data:; connect-src 'self' ws: wss:; object-src 'none'; base-uri 'none'; frame-ancestors 'none'; form-action 'self'")
          headers)))
