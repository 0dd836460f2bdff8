-- ===== src/LocalServer/Tests.antt =====
-- Runs of the local server on small inputs.
use leave_cli.Prelude.{
  ℕ, ◌≡◌, ◌≢◌, ◌↔◌, ◌⊎◌, ◌≤◌, refl, true, false, none, some, List, [], ◌∷◌, ◌++◌, take, map, arith,
  Result, ok, err, map_err,
}
use leave_cli.Prelude.Text.{Text, codes, text_eq, is_empty, strip_prefix, split, before}
use leave_cli.Prelude.Chars.{trim, count_chars}
use leave_cli.Prelude.Maps.{lookup}
use leave_cli.Policy.{view}
use leave_cli.Store.{SessionRecord, EventRecord, Tables, get_session}
use leave_cli.Store.Replay.{IsAscending, outstanding}
use leave_cli.Acp.Events.{AgentStatus, Worker, ready, from_record}
use leave_cli.Acp.Samples.{plain_serde, w_id, s_id, one_session, stamp_of}
use leave_cli.Acp.Laws.Requests.{fresh_worker}
use leave_cli.Acp.Sessions.{PromptAccepted, accept_prompt}
use leave_cli.Tunnel.{action_for}
use leave_cli.LocalServer.Errors.{ApiError, unavailable}
use leave_cli.LocalServer.Access.{
  tailnet, AccessHeaders, authorize_access, host_or_empty, lowercase,
}
use leave_cli.LocalServer.Handlers.{is_ready, prompt_handler, workspace_events}
use leave_cli.LocalServer.Paging.{workspace_events-resume}
use leave_cli.LocalServer.Router.{prompt, route_request, methods_at}
use leave_cli.LocalServer.Laws.{authorize_access_iff, prompt_handler_lem}
use leave_cli.LocalServer.Hosts.{IsHere}
use leave_cli.LocalServer.Rights.{changes-ne-view}

abbrev stranger : AccessHeaders
stranger = record {
  host = some (codes "pc.example.ts.net");
  origin = some (codes "https://pc.example.ts.net");
  tailscale_user_login = some (codes "eve@example.com");
}

authorize_access_iff_example :
    (authorize_access {R = ℕ} (tailnet (codes "bo@example.com") []) stranger 7 ≡ ok 7) ↔ (
      IsHere (lowercase (host_or_empty stranger.host))
      ⊎ ((login : Text) × (stranger.tailscale_user_login ≡ some login)
          × (lowercase login ≡ codes "bo@example.com")))
authorize_access_iff_example = authorize_access_iff (codes "bo@example.com") [] stranger 7

abbrev event_of : ℕ → EventRecord
event_of n = record {
  sequence = n;
  event_id = n ∷ [];
  workspace_id = w_id;
  session_id = none;
  kind = b'k' ∷ [];
  occurred_at = 0;
  payload = n ∷ [];
}

abbrev three_events : Tables
three_events = record one_session { events = event_of 1 ∷ event_of 2 ∷ event_of 3 ∷ [] }

workspace_events-resume_example :
    let page = workspace_events plain_serde w_id 0 2 three_events in
    let next = workspace_events plain_serde w_id page.next_cursor 5 three_events in
    let all = take 7 (outstanding w_id 0 three_events) in
    (page.next_cursor ≡ 2)
    × (page.events ++ next.events ≡ map (from_record plain_serde) all)
    × IsAscending all
    × (next.events ≡ [] → next.next_cursor ≡ 0)
unfolding text_eq
workspace_events-resume_example =
    workspace_events-resume plain_serde w_id 0 1 5 three_events (event_of 2)
      ((omega arith, (omega arith, tt)), ((omega arith, tt), (tt, tt))) (omega arith) refl

abbrev at_work : AgentStatus (List ℕ)
at_work = record { state = ready; detail = []; agent_info = none; capabilities = none }

abbrev server_worker : Worker
server_worker = fresh_worker one_session

prompt_handler_lem_example :
    let (answer, after) =
      prompt_handler plain_serde w_id at_work
        (λ e. [])
        (stamp_of 1)
        2
        true
        s_id
        (codes " hi ")
        (3 ∷ [])
        server_worker in
    let (taken, worker) =
      accept_prompt plain_serde
        (stamp_of 1)
        2
        true
        w_id
        s_id
        (trim (codes " hi "))
        (3 ∷ [])
        server_worker in
    ((e : ApiError) × ◌≡◌ {A = Result ApiError PromptAccepted × Worker}
        (answer, after)
        (err e, server_worker))
    ⊎ ((is_ready at_work.state ≡ true)
        × ((s : SessionRecord) × (get_session w_id s_id one_session ≡ some s))
        × (is_empty (trim (codes " hi ")) ≡ false)
        × (count_chars (trim (codes " hi ")) ≤ 100000)
        × (after ≡ worker)
        × (answer ≡ map_err (λ e. unavailable []) taken))
prompt_handler_lem_example =
    prompt_handler_lem plain_serde w_id at_work (λ e. []) (stamp_of 1) 2 true s_id (codes " hi ")
      (3 ∷ []) server_worker

changes-ne-view_example :
    action_for (codes "POST") (codes "/api/v1/local/sessions/s1/prompts") ≢ view
unfolding route_request methods_at before codes text_eq strip_prefix split lookup
changes-ne-view_example =
    changes-ne-view (codes "POST") (codes "/api/v1/local/sessions/s1/prompts") (prompt (codes "s1"))
      refl refl
