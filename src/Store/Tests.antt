-- ===== src/Store/Tests.antt =====
-- The theorems at concrete inputs.
use leave_cli.Prelude.{ℕ, ◌≡◌, refl, true, false, none, [], ◌∷◌}
use leave_cli.Prelude.Text.{text_eq}
use leave_cli.Store.{
  WorkspaceRecord, EventRecord, Tables, events_after, append_event, upsert_workspace,
  remove_workspace,
}
use leave_cli.Store.Invariant.{IsConsistent}
use leave_cli.Store.Reachable.{
  Operation, upsert_workspace_op, append_event_op, remove_workspace_op, apply_all, empty_tables,
  apply_all-IsConsistent,
}

abbrev a_workspace : WorkspaceRecord
a_workspace = record {
  id = b'w' ∷ [];
  name = b'n' ∷ [];
  canonical_path = b'/' ∷ [];
  expose_history = true;
  expose_project_customization = true;
  expose_global_customization = false;
}

abbrev event_op : ℕ → Operation
event_op n = append_event_op (b'w' ∷ []) none (b'k' ∷ []) (n ∷ []) (n ∷ []) 0

abbrev three_events : Tables
three_events =
    apply_all (upsert_workspace_op a_workspace ∷ event_op 1 ∷ event_op 2 ∷ event_op 3 ∷ [])
      empty_tables

abbrev second : EventRecord
second = record {
  sequence = 2;
  event_id = 2 ∷ [];
  workspace_id = b'w' ∷ [];
  session_id = none;
  kind = b'k' ∷ [];
  occurred_at = 0;
  payload = 2 ∷ [];
}

run : Unit {0}
unfolding upsert_workspace append_event remove_workspace events_after text_eq
run = tt

-- A sequence is not given out again after its workspace and events are gone.
sequence_not_reused :
    (apply_all
      (remove_workspace_op (b'w' ∷ []) ∷ upsert_workspace_op a_workspace ∷ event_op 4 ∷ [])
      three_events).last_sequence
    ≡ 4
unfolding run
sequence_not_reused = refl

apply_all-IsConsistent_example :
    IsConsistent (apply_all (upsert_workspace_op a_workspace ∷ event_op 1 ∷ []) empty_tables)
apply_all-IsConsistent_example =
    apply_all-IsConsistent (upsert_workspace_op a_workspace ∷ event_op 1 ∷ [])
