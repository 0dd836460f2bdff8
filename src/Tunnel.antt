-- ===== src/Tunnel.antt =====
-- crates/leave-protocol/src/tunnel.rs: the tunnelled request, its validation, and the action that
-- it performs. A text is its UTF-8 bytes.
pub mod Validation
pub mod Classes
pub mod Queries
mod Tests
use leave_cli.Prelude.{
  ℕ, ◌*◌, Bool, true, false, not, ◌&&◌, ◌||◌, Option, none, some, List, [], ◌∷◌, Result, ok, err,
  refuse_if, ◌>>◌, ◌>>=◌, ltb, ◌==◌, length, find_map, if◌then◌else◌,
}
use leave_cli.Prelude.Text.{
  Text, codes, text_eq, starts_with, contains, ends_with, split_once, split, before,
}
use leave_cli.Prelude.Maps.{Assoc}
use leave_cli.Policy.{
  Action, view, prompt, low_risk_approval, edit_files, git_write, project_customization,
}

abbrev pub tunnel_version : ℕ
tunnel_version = 1

abbrev pub max_tunnel_body_bytes : ℕ
max_tunnel_body_bytes = 4 * 1024 * 1024

pub record TunnelRequest : Type 0 where
  pub version : ℕ
  pub exchange_id : Text
  pub method : Text
  pub path : Text
  pub headers : Assoc Text
  pub body : List ℕ

pub record TunnelResponse : Type 0 where
  pub version : ℕ
  pub exchange_id : Text
  pub status : ℕ
  pub headers : Assoc Text
  pub body : List ℕ

pub data TunnelError : Type 0 where
  unsupported_version : ℕ → TunnelError
  unsupported_method invalid_path body_too_large malformed : TunnelError

abbrev pub local_api : Text
local_api = codes "/api/v1/local/"

unfoldable pub known_method : Text → Bool
known_method m =
    text_eq m (codes "GET")
    || text_eq m (codes "POST")
    || text_eq m (codes "PUT")
    || text_eq m (codes "PATCH")
    || text_eq m (codes "DELETE")
    || text_eq m (codes "HEAD")

unfoldable pub bad_path : Text → Bool
bad_path p = not (starts_with p local_api) || contains p (codes "..") || contains p (codes "://")

-- `TunnelRequest::validate`.
unfoldable pub validate : TunnelRequest → Result TunnelError (Unit {0})
validate r = do
  refuse_if (not (r.version == tunnel_version)) (unsupported_version r.version)
  refuse_if (not (known_method r.method)) unsupported_method
  refuse_if (bad_path r.path) invalid_path
  refuse_if (ltb max_tunnel_body_bytes (length r.body)) body_too_large
  ok tt

abbrev pair_value : Text → Text → Option Text
pair_value key pair = elim (split_once b'=' pair) [
  | none ↦ none
  | some (name, value) ↦ if text_eq name key then some value else none
]

unfoldable pub query_value : Text → Text → Option Text
query_value path key = elim (split_once b'?' path) [
  | none ↦ none
  | some (route, query) ↦ find_map (pair_value key) (split b'&' query)
]

unfoldable pub is_reading : Text → Bool
is_reading m = text_eq m (codes "GET") || text_eq m (codes "HEAD")

abbrev pub terminals : Text
terminals = codes "/api/v1/local/terminals"

abbrev pub previews : Text
previews = codes "/api/v1/local/previews"

abbrev pub customization : Text
customization = codes "/api/v1/local/customization"

abbrev pub git_prefix : Text
git_prefix = codes "/api/v1/local/git/"

abbrev pub sessions_prefix : Text
sessions_prefix = codes "/api/v1/local/sessions/"

-- The three git routes that only read.
unfoldable pub git_reads : Text → Bool
git_reads route =
    text_eq route (codes "/api/v1/local/git/status")
    || text_eq route (codes "/api/v1/local/git/diff")
    || text_eq route (codes "/api/v1/local/git/worktrees")

-- The category of a customization request decides its scope.
unfoldable pub customization_action : Option Text → Action
customization_action none = Action.global_customization
customization_action (some category) =
    if text_eq category (codes "rules") || text_eq category (codes "skills")
    then project_customization
    else Action.global_customization

-- The last `match` of `action_for`, for a request that is no read.
unfoldable pub write_action : Text → Action
write_action route =
    if text_eq route (codes "/api/v1/local/file")
    then edit_files
    else if starts_with route git_prefix
    then (if git_reads route then view else git_write)
    else if text_eq route (codes "/api/v1/local/sessions")
    then prompt
    else if starts_with route sessions_prefix
    then (if ends_with route (codes "/permissions") || contains route (codes "/permissions/")
        then low_risk_approval
        else prompt)
    else edit_files

unfoldable pub action_for : Text → Text → Action
action_for method path =
    let route = before b'?' path in
    if starts_with route terminals
    then Action.raw_pty
    else if starts_with route previews
    then Action.persistent_browser_profile
    else if starts_with route customization
    then customization_action (query_value path (codes "category"))
    else if is_reading method
    then view
    else write_action route
