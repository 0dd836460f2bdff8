-- ===== src/Acp/Laws/Requests.antt =====
-- The life of a permission request over the worker's runs.
use leave_cli.Prelude.{
  ◌≡◌, refl, ap, sym, ◌∙◌, inl, inr, Bool, true, false, Option, none, some, List, [], ◌∷◌, ◌++◌,
  arith, All,
}
use mathlib.Core.Path.{subst}
use leave_cli.Prelude.Text.{Text, text_eq_refl}
use leave_cli.Prelude.Maps.{lookup, insert, lookup-insert_self, lookup-remove}
use leave_cli.Store.{Tables}
use leave_cli.Acp.Events.{Serde, Worker, Stamp, WaitingTask, Channel, open_channel, closed, sent}
use leave_cli.Acp.Permissions.{expired_task, taken, published_if, resolve_permission, time_out}
use leave_cli.Acp.Loop.{
  Input, create_input, resume_input, prompt_input, cancel_input, turn_end_input, update_input,
  ask_input, decide_input, time_out_input, resolve_input, run, step,
}
use leave_cli.Acp.Laws.Parts.{
  parts, respects, any_id, answered_by, run-Holds, step-Holds, parts-publish_event,
}
use leave_cli.Acp.Laws.Decisions.{IsOffered-law, is_told}
use leave_cli.Acp.Laws.Answered.{
  answers_to, answers_to-append, other_than, Done, Open, Done-law, Open-law,
}

-- A worker that has just started.
abbrev pub fresh_worker : Tables → Worker
fresh_worker t = record {
  tables = t;
  published = [];
  turns = [];
  pending = [];
  tasks = [];
  answers = [];
}

module _ {V : Type 0} where
  all_respect : (inputs : List (Input V)) → All (λ i. respects any_id any_id i ≡ true) inputs
  all_respect [] = tt
  all_respect (i ∷ inputs) = (one i, all_respect inputs)
    where
      one : (i : Input V) → respects any_id any_id i ≡ true
      one (create_input stamp now answer title) = refl
      one (resume_input stamp now resumed session_id) = refl
      one (prompt_input stamp now spawns session_id text id) = refl
      one (cancel_input stamp now notified session_id) = refl
      one (turn_end_input stamp now i result) = refl
      one (update_input stamp session_id payload) = refl
      one (ask_input stamp spawned id session_id offered request) = refl
      one (decide_input id option_id) = refl
      one (time_out_input id) = refl
      one (resolve_input stamp id) = refl

module _ {V : Type 0} (serde : Serde V) (workspace_id : Text) where
  -- Whatever reaches a worker that has just started, an option that the agent is told was selected is
  -- one of those that it offered with that request.
  pub run-offered :
      (t : Tables) (inputs : List (Input V))
      → All (λ a. is_told a ≡ true) (run serde workspace_id inputs (fresh_worker t)).1.answers
  unfolding lookup
  run-offered t inputs =
      (run-Holds serde workspace_id any_id any_id _ IsOffered-law inputs (fresh_worker t)
        (all_respect inputs)
        (record { choices = λ j t h. cc; matching = λ j q t h k. cc; told = tt })).told

  run-append :
      (before after : List (Input V)) (w : Worker)
      → (run serde workspace_id (before ++ after) w).1
        ≡ (run serde workspace_id after (run serde workspace_id before w).1).1
  unfolding run
  run-append [] after w = refl
  run-append (i ∷ before) after w = run-append before after (step serde workspace_id i w).1

  parts-published_if :
      (responds : Bool) (stamp : Stamp) (id : Text) (task : WaitingTask) (value : Option Text)
      (w : Worker)
      → parts (published_if serde responds stamp workspace_id id task value w) ≡ parts w
  parts-published_if true stamp id task value w =
      parts-publish_event serde stamp workspace_id _ _ _ w
  parts-published_if false stamp id task value w = refl

  pub resolve-parts :
      (stamp : Stamp) (c : Text) (task : WaitingTask) (value : Option Text) (w : Worker)
      → lookup c w.tasks ≡ some task
      → taken task.decision ≡ some value
      → parts (resolve_permission serde stamp workspace_id c w) ≡ parts (answered_by c task value w)
  unfolding resolve_permission
  resolve-parts stamp c task value w present over =
      rw (present, over, resolve_permission)
        (parts-published_if stamp.responds stamp c task value _)

  taken-expired :
      (task : WaitingTask)
      → (value : Option Text) × (taken (expired_task task).decision ≡ some value)
  taken-expired task = go task.decision refl
    where
      go :
          (channel : Channel)
          → task.decision ≡ channel
          → (value : Option Text) × (taken (expired_task task).decision ≡ some value)
      go open_channel e = (none, rw e refl)
      go closed e = (none, ground arith)
      go (sent value) e = (value, ground arith)

  module _ (c : Text) (stamp : Stamp) where
    answered-Done :
        (task : WaitingTask) (value : Option Text) (w : Worker)
        → answers_to c w.answers ≡ 0
        → Done c (parts (answered_by c task value w))
    answered-Done task value w none_yet = (
      lookup-remove c c w.tasks ∙ rw (text_eq_refl c) refl,
      answers_to-append c w.answers _ ∙ rw (text_eq_refl c, none_yet) refl,
    )

    -- The five minutes pass, and the task answers.
    over-Done :
        (w : Worker)
        → Open c (parts w)
        → Done c (parts (resolve_permission serde stamp workspace_id c (time_out c w)))
    unfolding time_out step
    over-Done w (inl ((t, there), none_yet)) =
        let (value, over) = taken-expired t in
        let late : Worker = record w { tasks = insert c (expired_task t) w.tasks } in
        rw (there, time_out)
          (subst (Done c)
            (sym (
              resolve-parts stamp c (expired_task t) value late
                (lookup-insert_self c (expired_task t) w.tasks) over))
            (answered-Done (expired_task t) value late none_yet))
    over-Done w (inr d) =
        step-Holds serde workspace_id (other_than c) any_id (Done c) (Done-law c)
          (resolve_input stamp c) (step serde workspace_id (time_out_input c) w).1 refl
          (step-Holds serde workspace_id (other_than c) any_id (Done c) (Done-law c)
            (time_out_input c) w refl d)

    -- A request that waits is answered exactly once by the time that its five minutes have passed and
    -- its task has run, whatever else happens before and afterwards, as long as its fresh identifier
    -- is not asked under again. An answer is a response that the worker gives to the connection, which
    -- may still fail to deliver it.
    pub run-answered_once :
        (meanwhile later : List (Input V)) (task : WaitingTask) (w : Worker)
        → lookup c w.tasks ≡ some task
        → answers_to c w.answers ≡ 0
        → All (λ i. respects (other_than c) any_id i ≡ true) meanwhile
        → All (λ i. respects (other_than c) any_id i ≡ true) later
        → answers_to c
            (run serde workspace_id
              (meanwhile ++ (time_out_input c ∷ resolve_input stamp c ∷ later))
              w).1.answers
          ≡ 1
    unfolding run step
    run-answered_once meanwhile later task w there none_yet h k =
        let before : Worker = (run serde workspace_id meanwhile w).1 in
        let waited =
          run-Holds serde workspace_id (other_than c) any_id (Open c) (Open-law c) meanwhile w h
            (inl ((task, there), none_yet)) in
        ap (λ x. answers_to c x.answers) (run-append meanwhile _ w)
        ∙ (run-Holds serde workspace_id (other_than c) any_id (Done c) (Done-law c) later
            (resolve_permission serde stamp workspace_id c (time_out c before)) k
            (over-Done before waited)).1
