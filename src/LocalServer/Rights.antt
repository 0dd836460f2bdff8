-- ===== src/LocalServer/Rights.antt =====
-- The router of apps/leave/src/local_server.rs against the policy of the tunnel: what a device that
-- may only view can reach.
use leave_cli.Prelude.{
  ◌≡◌, ◌≢◌, refl, inl, inr, Bool, true, false, not, ◌&&◌, ◌||◌, Option, none, some, List, [], ◌∷◌,
  arith, All, Bool-cases, Option-cases, some-injective, if◌then◌else◌,
}
use mathlib.Core.Path.{subst}
use leave_cli.Prelude.Text.{Text, codes, text_eq, text_eq_iff, strip_prefix, split}
use leave_cli.Prelude.Maps.{Assoc, lookup}
use leave_cli.Policy.{view}
use leave_cli.Tunnel.{action_for}
use leave_cli.Tunnel.Classes.{route_of, IsRead, IsGitRead, action_for-view_iff}
use leave_cli.LocalServer.Router.{
  Endpoint, status, local_openapi, workspaces, sessions, create_session, session, session_events,
  resume_session, prompt, cancel, decide_permission, workspace_events, websocket, list_files,
  read_file, write_file, git_status, git_diff, git_branches, git_switch, git_worktrees, git_stage,
  git_unstage, git_commit, git_push, customization_read, customization_mutate, create_terminal,
  create_preview, terminal_websocket, preview_control, preview_websocket, Methods, endpoint,
  flat_routes, git_routes, session_routes, captured, methods_at, by_method, allowed, dispatched,
  route_request,
}

-- The endpoints that change the workspace or the computer. The WebSockets are not reached through the
-- tunnel, which upgrades no connection.
abbrev pub changes : Endpoint → Bool
changes create_session = true
changes (resume_session id) = true
changes (prompt id) = true
changes (cancel id) = true
changes (decide_permission id) = true
changes write_file = true
changes git_switch = true
changes git_stage = true
changes git_unstage = true
changes git_commit = true
changes git_push = true
changes customization_mutate = true
changes create_terminal = true
changes create_preview = true
changes (preview_control id) = true
changes status = false
changes local_openapi = false
changes workspaces = false
changes sessions = false
changes (session id) = false
changes (session_events id) = false
changes workspace_events = false
changes websocket = false
changes list_files = false
changes read_file = false
changes git_status = false
changes git_diff = false
changes git_branches = false
changes git_worktrees = false
changes customization_read = false
changes (terminal_websocket id) = false
changes (preview_websocket id) = false

abbrev only_reads : Option Endpoint → Bool
only_reads none = true
only_reads (some e) = not (changes e)

lookup-All :
    (P : Methods → Type 0) (k : Text) (table : Assoc Methods) (m : Methods)
    → All (λ row. P row.1) table
    → lookup k table ≡ some m
    → P m
unfolding lookup
lookup-All P k [] m h e = cc
lookup-All P k ((j, v) ∷ table) m (p, h) e = elim (Bool-cases (text_eq j k)) [
  | inl same ↦ subst P (some-injective (rw same at e)) p
  | inr other ↦ lookup-All P k table m h (rw other at e)
]

abbrev Reads : Methods → Type 0
Reads m = only_reads m.get ≡ true

-- What a table or a captured segment gives reads.
AllRead : Option Methods → Type 0
AllRead o = (m : Methods) → o ≡ some m → Reads m

either : (b : Bool) (x y : Option Methods) → AllRead x → AllRead y → AllRead (if b then x else y)
unfolding AllRead
either true x y h k = h
either false x y h k = k

capture :
    (s : Text) (make : Text → Option Methods)
    → ((id : Text) → AllRead (make id))
    → AllRead (captured s make)
unfolding AllRead
capture [] make h m e = cc
capture (b ∷ s) make h m e = h (b ∷ s) m e

one : (n : Methods) → Reads n → AllRead (some n)
unfolding AllRead
one n r m e = subst Reads (some-injective e) r

nothing : AllRead none
unfolding AllRead
nothing m e = cc

flat-AllRead : (a : Text) → AllRead (lookup a flat_routes)
unfolding AllRead
flat-AllRead a m e =
    lookup-All Reads a flat_routes m
      (refl, (refl, (refl, (refl, (refl, (refl, (refl, (refl, (refl, (refl, (refl, tt))))))))))) e

git-AllRead : (a : Text) → AllRead (lookup a git_routes)
unfolding AllRead
git-AllRead a m e =
    lookup-All Reads a git_routes m
      (refl, (refl, (refl, (refl, (refl, (refl, (refl, (refl, tt)))))))) e

session-AllRead : (id a : Text) → AllRead (lookup a (session_routes id))
unfolding AllRead
session-AllRead id a m e =
    lookup-All Reads a (session_routes id) m (refl, (refl, (refl, (refl, tt)))) e

-- Whatever the path, a GET only reads.
methods_at-AllRead : (segments : List Text) → AllRead (methods_at segments)
unfolding methods_at
methods_at-AllRead [] = nothing
methods_at-AllRead (a ∷ []) = flat-AllRead a
methods_at-AllRead (a ∷ b ∷ []) = either (text_eq a (codes "git")) _ _ (git-AllRead b) (
    either (text_eq a (codes "sessions")) _ _ (capture b _ (λ id. one _ refl))
      (either (text_eq a (codes "permissions")) _ _ (capture b _ (λ id. one _ refl)) nothing))
methods_at-AllRead (a ∷ b ∷ c ∷ []) =
    either (text_eq a (codes "sessions")) _ _ (capture b _ (λ id. session-AllRead id c)) (
      either (text_eq a (codes "terminals") && text_eq c (codes "ws")) _ _
        (capture b _ (λ id. one _ refl))
        (either (text_eq a (codes "previews") && text_eq c (codes "control")) _ _
          (capture b _ (λ id. one _ refl))
          (either (text_eq a (codes "previews") && text_eq c (codes "ws")) _ _
            (capture b _ (λ id. one _ refl)) nothing)))
methods_at-AllRead (a ∷ b ∷ c ∷ d ∷ more) = nothing

allowed-reads :
    (o : Option Endpoint) (e : Endpoint)
    → only_reads o ≡ true
    → allowed o ≡ endpoint e
    → changes e ≡ false
allowed-reads none e h k = cc
allowed-reads (some f) e h k = ground arith

-- A GET or a HEAD ends at an endpoint that changes nothing.
reading_changes :
    (method : Text) (o : Option Methods) (e : Endpoint)
    → (text_eq method (codes "GET") || text_eq method (codes "HEAD")) ≡ true
    → AllRead o
    → dispatched method o ≡ endpoint e
    → changes e ≡ false
unfolding AllRead
reading_changes method none e reads h k = cc
reading_changes method (some m) e reads h k = allowed-reads m.get e (h m refl) (rw reads at k)

read_request-changes :
    (method path : Text) (e : Endpoint)
    → IsRead method
    → route_request method path ≡ endpoint e
    → changes e ≡ false
unfolding route_request
read_request-changes method path e reads routed =
    elim (Option-cases (strip_prefix path (codes "/api/v1/local/"))) [
      | inl foreign ↦ cc (rw (foreign, route_request) at routed)
      | inr (rest, below) ↦
          reading_changes method (methods_at (split b'/' rest)) e is_read
            (methods_at-AllRead (split b'/' rest)) (rw (below, route_request) at routed)
    ]
  where
    is_read : (text_eq method (codes "GET") || text_eq method (codes "HEAD")) ≡ true
    is_read = ground (arith, text_eq_iff method (codes "GET"), text_eq_iff method (codes "HEAD"))

-- The three git routes that read have no other method.
get_only :
    (method : Text) (f e : Endpoint)
    → changes f ≡ false
    → by_method method (record { get = some f; post = none; put = none }) ≡ endpoint e
    → changes e ≡ false
get_only method f e h k = ground arith

git_read-changes :
    (method route : Text) (e : Endpoint)
    → IsGitRead route
    → route_request method route ≡ endpoint e
    → changes e ≡ false
unfolding route_request methods_at lookup text_eq codes strip_prefix split
git_read-changes method route e (inl same) routed =
    get_only method git_status e refl (subst (λ r. route_request method r ≡ endpoint e) same routed)
git_read-changes method route e (inr (inl same)) routed =
    get_only method git_diff e refl (subst (λ r. route_request method r ≡ endpoint e) same routed)
git_read-changes method route e (inr (inr same)) routed =
    get_only method git_worktrees e refl
      (subst (λ r. route_request method r ≡ endpoint e) same routed)

-- A request whose route ends at an endpoint that changes something always needs more than the right
-- to view: no session, prompt, approval, file, Git, customization, terminal or preview change is open
-- to a device that may only look.
pub changes-ne-view :
    (method path : Text) (e : Endpoint)
    → route_request method (route_of path) ≡ endpoint e
    → changes e ≡ true
    → action_for method path ≢ view
changes-ne-view method path e routed change viewed =
    elim ((action_for-view_iff method path).0 viewed).1 [
      | inl reads ↦ cc (read_request-changes method (route_of path) e reads routed, change)
      | inr git ↦ cc (git_read-changes method (route_of path) e git routed, change)
    ]
