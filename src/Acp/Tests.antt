-- ===== src/Acp/Tests.antt =====
-- A worker with one registered workspace and session, on concrete inputs.
use leave_cli.Prelude.{
  ℕ, ◌≡◌, ◌≤◌, refl, true, none, some, List, [], ◌∷◌, ◌++◌, ok, err, arith, All,
}
use leave_cli.Prelude.Text.{codes, text_eq}
use leave_cli.Prelude.Chars.{trim}
use leave_cli.Prelude.Maps.{lookup, insert, remove}
use leave_cli.Store.{upsert_session, update_session_state, append_event, get_session, claim_command}
use leave_cli.Store.Invariant.{IsConsistent}
use leave_cli.Acp.Events.{
  Worker, WaitingTask, open_channel, selected, publish_event, ◌>>=◌, fail_if, require, done, ignore,
}
use leave_cli.Acp.Sessions.{accept_prompt, start_turn, set_state, claim, find_session, spawn_turn}
use leave_cli.Acp.Permissions.{decide_permission, request_permission, resolve_permission}
use leave_cli.Acp.Loop.{
  Input, prompt_input, ask_input, decide_input, resolve_input, time_out_input, run, step, start,
}
use leave_cli.Acp.Laws.Stored.{Announced}
use leave_cli.Acp.Laws.Consistent.{start-Announced}
use leave_cli.Acp.Laws.Once.{accepted, run-accepted}
use leave_cli.Acp.Laws.Decisions.{is_told}
use leave_cli.Acp.Laws.Answered.{answers_to}
use leave_cli.Acp.Laws.Requests.{fresh_worker, run-offered, run-answered_once}
use leave_cli.Acp.Laws.Told.{decided-told}
use leave_cli.Acp.Samples.{plain_serde, w_id, s_id, one_session, stamp_of}

abbrev prompt_of : ℕ → ℕ → Input (List ℕ)
prompt_of stamp id = prompt_input (stamp_of stamp) 0 true s_id (b'h' ∷ []) (id ∷ [])

abbrev ask : ℕ → Input (List ℕ)
ask id = ask_input (stamp_of id) true (id ∷ []) s_id ((b'y' ∷ []) ∷ (b'n' ∷ []) ∷ []) (some [])

abbrev asked : Worker
asked = (run plain_serde w_id (ask 7 ∷ []) (fresh_worker one_session)).1

test_run : Unit {0}
unfolding run step accept_prompt start_turn set_state claim find_session spawn_turn publish_event
    ◌>>=◌ fail_if require done ignore upsert_session update_session_state append_event get_session
    claim_command text_eq codes trim request_permission decide_permission resolve_permission lookup
    insert remove
test_run = tt

-- The first prompt starts a turn, the second finds the session at work, and both are two events at
-- most.
busy_session :
    accepted
      (1 ∷ [])
      (run plain_serde w_id (prompt_of 1 1 ∷ prompt_of 2 2 ∷ []) (fresh_worker one_session)).0
    ≡ 1
unfolding test_run
busy_session = refl

one_session-IsConsistent : IsConsistent one_session
unfolding text_eq
one_session-IsConsistent = record {
  ascending = tt;
  given = tt;
  fits = omega arith;
  event_owners = tt;
  session_owners = (refl, tt);
}

start-Announced_example :
    let last =
      (start plain_serde w_id
        (stamp_of 1)
        (stamp_of 2)
        []
        (ok (record { agent_info = none; capabilities = none; value = [] }))
        (prompt_of 3 1 ∷ [])
        (err [])
        (fresh_worker one_session)).1 in
    Announced (fresh_worker one_session) last × IsConsistent last.tables
start-Announced_example =
    start-Announced plain_serde w_id (stamp_of 1) (stamp_of 2) []
      (ok (record { agent_info = none; capabilities = none; value = [] })) (prompt_of 3 1 ∷ [])
      (err []) (fresh_worker one_session) one_session-IsConsistent

run-accepted_example :
    accepted
      (1 ∷ [])
      (run plain_serde w_id (prompt_of 1 1 ∷ prompt_of 2 1 ∷ []) (fresh_worker one_session)).0
    ≤ 1
run-accepted_example =
    run-accepted plain_serde w_id (1 ∷ []) (prompt_of 1 1 ∷ prompt_of 2 1 ∷ [])
      (fresh_worker one_session)

abbrev decided_inputs : List (Input (List ℕ))
decided_inputs =
    ask 7 ∷ decide_input (7 ∷ []) (some (b'y' ∷ [])) ∷ resolve_input (stamp_of 8) (7 ∷ []) ∷ []

run-offered_example :
    All
      (λ a. is_told a ≡ true)
      (run plain_serde w_id decided_inputs (fresh_worker one_session)).1.answers
run-offered_example = run-offered plain_serde w_id one_session decided_inputs

abbrev waiting : WaitingTask
waiting = record {
  session_id = s_id;
  option_ids = (b'y' ∷ []) ∷ (b'n' ∷ []) ∷ [];
  decision = open_channel;
}

run-answered_once_example :
    answers_to
      (7 ∷ [])
      (run plain_serde w_id
        (ask 8
          ∷ time_out_input (7 ∷ [])
          ∷ resolve_input (stamp_of 9) (7 ∷ [])
          ∷ decide_input (7 ∷ []) none
          ∷ [])
        asked).1.answers
    ≡ 1
unfolding test_run
run-answered_once_example =
    run-answered_once plain_serde w_id (7 ∷ []) (stamp_of 9) (ask 8 ∷ [])
      (decide_input (7 ∷ []) none ∷ []) waiting asked refl refl (refl, tt) (refl, tt)

decided-told_example :
    let last =
      (run plain_serde w_id
        (time_out_input (7 ∷ []) ∷ [])
        (decide_permission (7 ∷ []) (some (b'y' ∷ [])) asked).1).1 in
    (step plain_serde w_id (resolve_input (stamp_of 9) (7 ∷ [])) last).1.answers
    ≡ last.answers
      ++ record {
        request_id = 7 ∷ [];
        option_ids = waiting.option_ids;
        outcome = selected (b'y' ∷ []);
      }
        ∷ []
unfolding test_run
decided-told_example =
    decided-told plain_serde w_id (7 ∷ []) (some (b'y' ∷ [])) waiting (stamp_of 9)
      (time_out_input (7 ∷ []) ∷ []) asked refl refl (refl, tt)
