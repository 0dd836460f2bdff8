-- ===== src/Acp/Laws/Run.antt =====
-- What holds over every step, every run and the whole life of the worker.
use leave_cli.Prelude.{
  ℕ, Bool, true, false, Option, none, some, List, [], ◌∷◌, Result, ok, err, get_elem?,
}
use leave_cli.Prelude.Text.{Text}
use leave_cli.Acp.Events.{Serde, Worker, Stamp, Turn, AgentStatus, starting_status}
use leave_cli.Acp.Loop.{
  Input, create_input, resume_input, prompt_input, cancel_input, turn_end_input, update_input,
  ask_input, decide_input, time_out_input, resolve_input, step, run, start, Hello, end_turn,
  session_update, drop_turn, ended, offline,
}
use leave_cli.Acp.Laws.Kept.{
  IsKept, IsCalm, stays, create_session-Kept, resume_session-Kept, accept_prompt-Kept,
  finish_turn-Kept,
}
use leave_cli.Acp.Laws.Asks.{
  request_permission-Kept, resolve_permission-Kept, cancel_session-Kept, decide_permission-same,
  time_out-same,
}

module _ {V : Type 0} (serde : Serde V) (R : Worker → Worker → Type 0) (calm : IsCalm serde R) where
  pub session_update-Kept :
      (workspace_id : Text) (stamp : Stamp) (session_id : Text) (payload : Option V) (w : Worker)
      → R w (session_update serde workspace_id stamp session_id payload w)
  unfolding session_update
  session_update-Kept workspace_id stamp session_id none w = stays serde R calm w
  session_update-Kept workspace_id stamp session_id (some payload) w =
      calm.publishing stamp workspace_id _ _ _ w

  pub end_turn-Kept :
      (workspace_id : Text) (stamp : Stamp) (now i : ℕ) (result : Result Text V)
      (turn : Option Turn) (w : Worker)
      → R w (end_turn serde workspace_id stamp now i result turn w)
  end_turn-Kept workspace_id stamp now i result none w = stays serde R calm w
  end_turn-Kept workspace_id stamp now i result (some turn) w =
      calm.trans w (drop_turn i w) _ (calm.turning _ w)
        (finish_turn-Kept serde R calm stamp now workspace_id turn result (drop_turn i w))

module _ {V : Type 0} (serde : Serde V) (R : Worker → Worker → Type 0) (kept : IsKept serde R) where
  pub step-Kept :
      (workspace_id : Text) (input : Input V) (w : Worker) → R w (step serde workspace_id input w).1
  unfolding step
  step-Kept workspace_id (create_input stamp now answer title) w =
      create_session-Kept serde R kept.calm stamp now workspace_id answer title w
  step-Kept workspace_id (resume_input stamp now resumed session_id) w =
      resume_session-Kept serde R kept.calm stamp now workspace_id resumed session_id w
  step-Kept workspace_id (prompt_input stamp now spawns session_id text command_id) w =
      accept_prompt-Kept serde R kept.calm stamp now spawns workspace_id session_id text command_id
        w
  step-Kept workspace_id (cancel_input stamp now notified session_id) w =
      cancel_session-Kept serde R kept stamp now workspace_id notified session_id w
  step-Kept workspace_id (turn_end_input stamp now i result) w =
      end_turn-Kept serde R kept.calm workspace_id stamp now i result (get_elem? w.turns i) w
  step-Kept workspace_id (update_input stamp session_id payload) w =
      session_update-Kept serde R kept.calm workspace_id stamp session_id payload w
  step-Kept workspace_id (ask_input stamp spawned id session_id offered request) w =
      request_permission-Kept serde R kept stamp spawned workspace_id id session_id offered request
        w
  step-Kept workspace_id (decide_input id option_id) w =
      let (tables, published) = decide_permission-same serde R kept id option_id w in
      kept.same w _ tables published
  step-Kept workspace_id (time_out_input id) w =
      let (tables, published) = time_out-same serde R kept id w in kept.same w _ tables published
  step-Kept workspace_id (resolve_input stamp id) w =
      resolve_permission-Kept serde R kept stamp workspace_id id w

  pub run-Kept :
      (workspace_id : Text) (inputs : List (Input V)) (w : Worker)
      → R w (run serde workspace_id inputs w).1
  unfolding run
  run-Kept workspace_id [] w = stays serde R kept.calm w
  run-Kept workspace_id (input ∷ inputs) w =
      kept.calm.trans w _ _ (step-Kept workspace_id input w)
        (run-Kept workspace_id inputs (step serde workspace_id input w).1)

  ended-Kept :
      (workspace_id : Text) (stamp : Stamp) (ending : Result Text (Unit {0}))
      (before : List (AgentStatus V)) (v w : Worker)
      → R v w
      → R v (ended serde workspace_id stamp ending before w).1
  ended-Kept workspace_id stamp (ok _) before v w h = h
  ended-Kept workspace_id stamp (err message) before v w h =
      kept.calm.trans v w _ h (kept.calm.publishing stamp workspace_id _ _ _ w)

  offline-Kept :
      (workspace_id : Text) (updates : Bool) (w : Worker)
      → R w (offline serde workspace_id updates w)
  offline-Kept workspace_id false w = stays serde R kept.calm w
  offline-Kept workspace_id true w = kept.calm.closing workspace_id w

  pub start-Kept :
      (workspace_id : Text) (ready_stamp end_stamp : Stamp) (command : Text)
      (hello : Result Text (Hello V)) (inputs : List (Input V)) (ending : Result Text (Unit {0}))
      (w : Worker)
      → R w (start serde workspace_id ready_stamp end_stamp command hello inputs ending w).1
  unfolding start
  start-Kept workspace_id ready_stamp end_stamp command (err message) inputs ending w =
      ended-Kept workspace_id end_stamp (err message) (starting_status serde command ∷ []) w _
        (offline-Kept workspace_id ready_stamp.updates w)
  start-Kept workspace_id ready_stamp end_stamp command (ok hello) inputs ending w =
      ended-Kept workspace_id end_stamp ending _ w _ (
        kept.calm.trans w _ _ (offline-Kept workspace_id ready_stamp.updates w) (
          kept.calm.trans _ _ _ (kept.calm.publishing ready_stamp workspace_id _ _ _ _)
            (run-Kept workspace_id inputs _)))
