-- ===== src/Customization.antt =====
-- apps/leave/src/customization.rs: the Devin configuration commands that the API offers. The
-- `devin` program, the URL parser and the file system are parameters.
pub mod Skills
pub mod Grants
pub mod Runs
mod Tests
use leave_cli.Prelude.{
  ℕ, ◌+◌, ◌-◌, ◌*◌, Bool, true, false, not, ◌&&◌, ◌||◌, Option, none, some, List, [], ◌∷◌, ◌++◌,
  Result, ok, err, ok_or, refuse_if, ◌>>=◌, ◌>>◌, ltb, leb, ◌==◌, any, all, map, length,
  if◌then◌else◌,
}
use leave_cli.Prelude.Text.{Text, codes, text_eq, is_empty, split, before, starts_with, has_byte}
use leave_cli.Prelude.Chars.{trim}
use leave_cli.Crypto.Error.{Bytes}
use leave_cli.Git.{is_alphanumeric}
use leave_cli.Process.{Output, Program}
use Skills.{
  SkillFiles, CustomizationError, bad_name, bad_source, bad_confirmation, global_inventory,
  global_detail, global_plugins, global_scope, bad_scope, unknown_category, unsupported, bad_url,
  bad_command, bad_transport, not_started, too_much_output, failed, list_project_skills,
  show_project_skill, max_output,
}

pub record CustomizationMutation : Type 0 where
  pub kind : Text
  pub action : Text
  pub name : Text
  pub scope : Text
  pub url : Text
  pub transport : Text
  pub command : Text
  pub arguments : List Text
  pub confirmation : Text

-- What is read of `url::Url`.
pub record Url : Type 0 where
  pub scheme : Text
  pub has_host : Bool
  pub username : Text

unfoldable pub validate_name : Text → Result CustomizationError (Unit {0})
validate_name value =
    refuse_if
      (is_empty (trim value)
        || ltb 500 (length value)
        || has_byte 0 value
        || starts_with value (codes "-")
        || has_byte 13 value
        || has_byte 10 value)
      bad_name

-- One part of an `owner/repo` label.
abbrev is_label_part : Text → Bool
is_label_part part =
    not (is_empty part) && all (λ b. is_alphanumeric b || has_byte b (codes "-_.")) part

abbrev is_label : List Text → Bool
is_label (owner ∷ repository ∷ []) = is_label_part owner && is_label_part repository
is_label _ = false

abbrev is_https : Option Url → Bool
is_https none = false
is_https (some url) = text_eq url.scheme (codes "https") && url.has_host && is_empty url.username

unfoldable pub validate_plugin_source :
    (Text → Option Url) → Text → Result CustomizationError (Unit {0})
validate_plugin_source parse value =
    refuse_if (not (is_label (split b'/' (before b'#' value))) && not (is_https (parse value)))
      bad_source

unfoldable pub require_confirmation : Text → Text → Result CustomizationError (Unit {0})
require_confirmation actual expected = refuse_if (not (text_eq actual expected)) bad_confirmation

abbrev pub scope_or_local : Text → Text
scope_or_local scope = if is_empty scope then codes "local" else scope

unfoldable pub checked_scope : Text → Bool → Result CustomizationError Text
checked_scope given allow_global = do
  let scope = scope_or_local given
  refuse_if
      (not (
        text_eq scope (codes "local")
        || text_eq scope (codes "project")
        || text_eq scope (codes "user")))
      bad_scope
  refuse_if (text_eq scope (codes "user") && not allow_global) global_scope
  ok scope

-- `to_ascii_uppercase`.
abbrev pub uppercase : Text → Text
uppercase = map (λ b. if leb b'a' b && leb b b'z' then b - 32 else b)

-- The part of an `mcp add` that says how the server is reached.
abbrev http_arguments :
    (Text → Option Url) → CustomizationMutation → Result CustomizationError (List Text)
http_arguments parse m = do
  url ← ok_or (parse m.url) bad_url
  refuse_if (not (text_eq url.scheme (codes "http") || text_eq url.scheme (codes "https"))) bad_url
  ok (codes "--transport" ∷ m.transport ∷ codes "--url" ∷ m.url ∷ [])

abbrev stdio_arguments : CustomizationMutation → Result CustomizationError (List Text)
stdio_arguments m = do
  refuse_if (is_empty (trim m.command) || has_byte 0 m.command) bad_command
  refuse_if
      (ltb 100 (length m.arguments)
        || any (λ argument. has_byte 0 argument || ltb 8192 (length argument)) m.arguments)
      bad_command
  ok (
      (codes "--transport" ∷ codes "stdio" ∷ codes "--command" ∷ m.command ∷ [])
      ++ (if is_empty m.arguments then [] else codes "--" ∷ m.arguments))

abbrev pub transport_arguments :
    (Text → Option Url) → CustomizationMutation → Result CustomizationError (List Text)
transport_arguments parse m =
    if text_eq m.transport (codes "http") || text_eq m.transport (codes "sse")
    then http_arguments parse m
    else if text_eq m.transport (codes "stdio")
    then stdio_arguments m
    else err bad_transport

-- `add_mcp`, up to the run of the program.
unfoldable pub add_mcp_arguments :
    (Text → Option Url) → CustomizationMutation → Bool → Result CustomizationError (List Text)
add_mcp_arguments parse m allow_global = do
  scope ← checked_scope m.scope allow_global
  require_confirmation m.confirmation (codes "ADD MCP " ++ m.name)
  more ← transport_arguments parse m
  ok ((codes "mcp" ∷ codes "add" ∷ codes "--scope" ∷ scope ∷ m.name ∷ []) ++ more)

abbrev pub is_switching : Text → Bool
is_switching action =
    text_eq action (codes "enable")
    || text_eq action (codes "disable")
    || text_eq action (codes "remove")

abbrev pub plugin_arguments :
    (Text → Option Url) → CustomizationMutation → Result CustomizationError (List Text)
plugin_arguments parse m =
    if text_eq m.action (codes "install")
    then validate_plugin_source parse m.name
      >> (require_confirmation m.confirmation (codes "INSTALL PLUGIN " ++ m.name)
          >> ok (codes "plugins" ∷ codes "install" ∷ codes "--yes" ∷ codes "--local" ∷ m.name ∷ []))
    else if text_eq m.action (codes "remove")
    then require_confirmation m.confirmation (codes "REMOVE PLUGIN " ++ m.name)
      >> ok (codes "plugins" ∷ codes "remove" ∷ codes "--yes" ∷ codes "--local" ∷ m.name ∷ [])
    else if text_eq m.action (codes "update")
    then require_confirmation m.confirmation (codes "UPDATE PLUGIN " ++ m.name)
      >> ok (codes "plugins" ∷ codes "update" ∷ m.name ∷ [])
    else err unsupported

abbrev pub mcp_arguments :
    (Text → Option Url) → CustomizationMutation → Bool → Result CustomizationError (List Text)
mcp_arguments parse m allow_global =
    if is_switching m.action
    then checked_scope m.scope allow_global >>= (λ scope.
      require_confirmation m.confirmation (uppercase m.action ++ codes " MCP " ++ m.name)
      >> ok (codes "mcp" ∷ m.action ∷ codes "--scope" ∷ scope ∷ m.name ∷ []))
    else if text_eq m.action (codes "add")
    then add_mcp_arguments parse m allow_global
    else err unsupported

-- `mutate`, up to the run of the program.
unfoldable pub mutation_arguments :
    (Text → Option Url) → CustomizationMutation → Bool → Result CustomizationError (List Text)
mutation_arguments parse m allow_global = do
  validate_name m.name
  refuse_if (text_eq m.kind (codes "plugin") && not allow_global) global_plugins
  if text_eq m.kind (codes "plugin")
      then plugin_arguments parse m
      else if text_eq m.kind (codes "mcp")
      then mcp_arguments parse m allow_global
      else err unsupported

module _ {W : Type 0} (devin : Program W) where
  -- `stdout` if it says anything, else `stderr`.
  abbrev detail_of : Output → Text
  detail_of output =
      let shown = trim (devin.lossy output.stdout) in
      if is_empty shown then trim (devin.lossy output.stderr) else shown

  abbrev checked : Output → Result CustomizationError Text
  checked output = do
    refuse_if (ltb max_output (length output.stdout + length output.stderr)) too_much_output
    let detail = detail_of output
    refuse_if (not output.success)
        (failed (if is_empty detail then codes "Devin exited with " ++ output.status else detail))
    ok detail

  abbrev executed : Option Output × W → Result CustomizationError Text × W
  executed (none, w) = (err not_started, w)
  executed (some output, w) = (checked output, w)

  -- `run`.
  unfoldable pub run : List Text → W → Result CustomizationError Text × W
  run arguments w = executed (devin.execute arguments w)

  abbrev pub run_if : Result CustomizationError (List Text) → W → Result CustomizationError Text × W
  run_if (err e) w = (err e, w)
  run_if (ok arguments) w = run arguments w

  abbrev pub listing_arguments : Text → Result CustomizationError (List Text)
  listing_arguments category =
      if text_eq category (codes "rules")
        || text_eq category (codes "skills")
        || text_eq category (codes "plugins")
        || text_eq category (codes "mcp")
      then ok (category ∷ codes "list" ∷ [])
      else err unknown_category

  -- The note that stands for the list of MCP servers while it is hidden.
  abbrev hidden_note : Text
  hidden_note =
      codes
        "Project/local MCP mutations are enabled. Devin's aggregate list also includes user-global servers, so Leave hides it until global customization is granted."

  unfoldable pub list : SkillFiles → Text → Bool → W → Result CustomizationError Text × W
  list files category allow_global w =
      if text_eq category (codes "skills") && not allow_global
      then (list_project_skills files, w)
      else if text_eq category (codes "plugins") && not allow_global
      then (err global_inventory, w)
      else if text_eq category (codes "mcp") && not allow_global
      then (ok hidden_note, w)
      else run_if (listing_arguments category) w

  abbrev pub detail_arguments : Text → Text → Result CustomizationError (List Text)
  detail_arguments category name =
      if text_eq category (codes "rules") || text_eq category (codes "skills")
      then ok (category ∷ codes "show" ∷ name ∷ [])
      else if text_eq category (codes "plugins")
      then ok (codes "plugins" ∷ codes "info" ∷ name ∷ [])
      else if text_eq category (codes "mcp")
      then ok (codes "mcp" ∷ codes "get" ∷ name ∷ [])
      else err unknown_category

  abbrev pub show_named : SkillFiles → Text → Text → Bool → W → Result CustomizationError Text × W
  show_named files category name allow_global w =
      if text_eq category (codes "skills") && not allow_global
      then (show_project_skill files name, w)
      else if (text_eq category (codes "plugins") || text_eq category (codes "mcp"))
          && not allow_global
      then (err global_detail, w)
      else run_if (detail_arguments category name) w

  abbrev pub after_name :
      Result CustomizationError (Unit {0})
      → (W → Result CustomizationError Text × W)
      → W
      → Result CustomizationError Text × W
  after_name (err e) next w = (err e, w)
  after_name (ok _) next w = next w

  unfoldable pub show : SkillFiles → Text → Text → Bool → W → Result CustomizationError Text × W
  show files category name allow_global w =
      after_name (validate_name name) (show_named files category name allow_global) w

  -- `mutate`, `add_mcp` included.
  unfoldable pub mutate :
      (Text → Option Url) → CustomizationMutation → Bool → W → Result CustomizationError Text × W
  mutate parse m allow_global w = run_if (mutation_arguments parse m allow_global) w
