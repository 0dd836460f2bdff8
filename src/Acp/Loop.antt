-- ===== src/Acp/Loop.antt =====
-- apps/leave/src/acp.rs: the worker from its start to its end. Commands, notifications, requests and
-- the ends of tasks come in any order; each handler runs as one step.
use leave_cli.Prelude.{
  ℕ, zero, suc, Bool, true, false, Option, none, some, List, [], ◌∷◌, ◌++◌, get_elem?, ok, err,
  Result,
}
use leave_cli.Prelude.Text.{Text, codes}
use leave_cli.Store.{SessionRecord, mark_workspace_sessions_offline}
use leave_cli.Acp.Events.{
  Serde, Worker, Stamp, Turn, AcpError, AgentStatus, ready, error, stopped, publish_event,
  starting_status,
}
use leave_cli.Acp.Sessions.{
  PromptAccepted, create_session, resume_session, accept_prompt, finish_turn,
}
use leave_cli.Acp.Permissions.{
  decide_permission, time_out, request_permission, resolve_permission, cancel_session,
}

-- What reaches the worker, with what the agent and the clock contribute.
pub data Input (V : Type 0) : Type 0 where
  create_input : Stamp → ℕ → Option (Text × V) → Text → Input V
  resume_input : Stamp → ℕ → Bool → Text → Input V
  prompt_input : Stamp → ℕ → Bool → Text → Text → Text → Input V
  cancel_input : Stamp → ℕ → Bool → Text → Input V
  turn_end_input : Stamp → ℕ → ℕ → Result Text V → Input V
  update_input : Stamp → Text → Option V → Input V
  ask_input : Stamp → Bool → Text → Text → List Text → Option V → Input V
  decide_input : Text → Option Text → Input V
  time_out_input : Text → Input V
  resolve_input : Stamp → Text → Input V

-- What the agent says of itself in its answer to `initialize`.
pub record Hello (V : Type 0) : Type 0 where
  pub agent_info : Option V
  pub capabilities : Option V
  pub value : V

-- What the `oneshot` response of a command, or `decide_permission`, returns.
pub data Reply : Type 0 where
  no_reply : Reply
  created_reply : Result AcpError SessionRecord → Reply
  unit_reply : Result AcpError (Unit {0}) → Reply
  prompt_reply : Result AcpError PromptAccepted → Reply

abbrev pub without : {A : Type 0} → ℕ → List A → List A
without n [] = []
without zero (x ∷ xs) = xs
without (suc n) (x ∷ xs) = x ∷ without n xs

abbrev pub drop_turn : ℕ → Worker → Worker
drop_turn i w = record w { turns = without i w.turns }

module _ {V : Type 0} (serde : Serde V) (workspace_id : Text) where
  -- The end of the turn at a place, if there is one.
  abbrev pub end_turn : Stamp → ℕ → ℕ → Result Text V → Option Turn → Worker → Worker
  end_turn stamp now i result none w = w
  end_turn stamp now i result (some turn) w =
      (finish_turn serde stamp now workspace_id turn result (drop_turn i w)).1

  -- `on_receive_notification`; one that cannot be encoded is only logged.
  unfoldable pub session_update : Stamp → Text → Option V → Worker → Worker
  session_update stamp session_id none w = w
  session_update stamp session_id (some payload) w =
      (publish_event serde stamp workspace_id (some session_id) (codes "session_update") payload
        w).1

  -- `command_loop` for the commands, and the other handlers.
  unfoldable pub step : Input V → Worker → Reply × Worker
  step (create_input stamp now answer title) w =
      let r = create_session serde stamp now workspace_id answer title w in (created_reply r.0, r.1)
  step (resume_input stamp now resumed session_id) w =
      let r = resume_session serde stamp now workspace_id resumed session_id w in
      (unit_reply r.0, r.1)
  step (prompt_input stamp now spawns session_id text command_id) w =
      let r = accept_prompt serde stamp now spawns workspace_id session_id text command_id w in
      (prompt_reply r.0, r.1)
  step (cancel_input stamp now notified session_id) w =
      let r = cancel_session serde stamp now workspace_id notified session_id w in
      (unit_reply r.0, r.1)
  step (turn_end_input stamp now i result) w =
      (no_reply, end_turn stamp now i result (get_elem? w.turns i) w)
  step (update_input stamp session_id payload) w =
      (no_reply, session_update stamp session_id payload w)
  step (ask_input stamp spawned id session_id offered request) w = (
    no_reply,
    request_permission serde stamp spawned workspace_id id session_id offered request w,
  )
  step (decide_input id option_id) w =
      let r = decide_permission id option_id w in (unit_reply r.0, r.1)
  step (time_out_input id) w = (no_reply, time_out id w)
  step (resolve_input stamp id) w = (no_reply, resolve_permission serde stamp workspace_id id w)

  -- The replies, in order, and the worker behind the last input.
  unfoldable pub run : List (Input V) → Worker → List Reply × Worker
  run [] w = ([], w)
  run (input ∷ inputs) w =
      let (reply, after) = step input w in
      let (replies, last) = run inputs after in (reply ∷ replies, last)

  abbrev stopped_status : AgentStatus V
  stopped_status = record {
    state = stopped;
    detail = codes "ACP worker stopped";
    agent_info = none;
    capabilities = none;
  }

  abbrev error_status : Text → AgentStatus V
  error_status message = record {
    state = error;
    detail = message;
    agent_info = none;
    capabilities = none;
  }

  abbrev ready_status : Hello V → AgentStatus V
  ready_status hello = record {
    state = ready;
    detail = codes "Connected to Devin over ACP v1";
    agent_info = hello.agent_info;
    capabilities = hello.capabilities;
  }

  -- What `start` leaves of the result of `run_worker`: the last status, and an event of a failure.
  abbrev pub ended :
      Stamp → Result Text (Unit {0}) → List (AgentStatus V) → Worker → List (AgentStatus V) × Worker
  ended stamp (ok _) before w = (before ++ stopped_status ∷ [], w)
  ended stamp (err message) before w = (
    before ++ error_status message ∷ [],
    (publish_event serde stamp workspace_id none (codes "host_error")
        (serde.object ((codes "message", serde.text message) ∷ [])) w).1,
  )

  -- The connection is up, and the event that says so is stored if it can be.
  abbrev pub greeted : Stamp → Hello V → Worker → Worker
  greeted stamp hello w =
      (publish_event serde stamp workspace_id none (codes "acp_ready") hello.value w).1

  -- `run_worker` and what follows it, from the answer of the agent to `initialize`.
  abbrev pub connected :
      Stamp
      → Stamp
      → Result Text (Hello V)
      → List (Input V)
      → Result Text (Unit {0})
      → List (AgentStatus V)
      → Worker
      → List (AgentStatus V) × Worker
  connected ready_stamp end_stamp (err message) inputs ending before w =
      ended end_stamp (err message) before w
  connected ready_stamp end_stamp (ok hello) inputs ending before w =
      ended end_stamp ending (before ++ ready_status hello ∷ [])
        (run inputs (greeted ready_stamp hello w)).1

  -- The first statement of the worker; its failure is only logged.
  abbrev pub offline : Bool → Worker → Worker
  offline false w = w
  offline true w = record w { tables = (mark_workspace_sessions_offline workspace_id w.tables).1 }

  -- `AcpHandle::start`: the statuses that are shown in turn, and the worker at the end.
  unfoldable pub start :
      Stamp
      → Stamp
      → Text
      → Result Text (Hello V)
      → List (Input V)
      → Result Text (Unit {0})
      → Worker
      → List (AgentStatus V) × Worker
  start ready_stamp end_stamp command hello inputs ending w =
      connected ready_stamp end_stamp hello inputs ending (starting_status serde command ∷ [])
        (offline ready_stamp.updates w)
