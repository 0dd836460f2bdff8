-- ===== src/Acp/Laws/Parts.antt =====
-- The permission requests of the worker: what no handler breaks once its own steps keep it.
use leave_cli.Prelude.{
  ℕ, ◌≡◌, refl, ap, sym, inl, inr, Bool, true, false, Option, none, some, List, [], ◌∷◌, Result, ok,
  err, All, Option-cases, Bool-cases, get_elem?,
}
use mathlib.Core.Path.{subst}
use leave_cli.Prelude.Text.{Text}
use leave_cli.Prelude.Maps.{Assoc, lookup, insert, remove}
use leave_cli.Store.{Tables, upsert_session}
use leave_cli.Acp.Events.{
  Serde, Worker, Stamp, AcpError, PendingPermission, WaitingTask, Answer, cancelled, publish_event,
}
use leave_cli.Acp.Permissions.{
  decide_permission, time_out, request_permission, resolve_permission, cancel_session,
  settle_session, settle_pending, settle_all, requests_of, registered, registered_if, respond,
  is_offered, published_if, expired_task, outcome_of, taken, sent_or_expired,
}
use leave_cli.Acp.Loop.{
  Input, create_input, resume_input, prompt_input, cancel_input, turn_end_input, update_input,
  ask_input, decide_input, time_out_input, resolve_input, step, run,
}
use leave_cli.Acp.Laws.Kept.{
  IsCalm, saved, setting, finishing, chained, failing, Keeps, create_session-Kept,
  resume_session-Kept, accept_prompt-Kept,
}
use leave_cli.Acp.Laws.Run.{end_turn-Kept, session_update-Kept}
use leave_cli.Acp.Laws.Stored.{publish_event_cases}

pub record Parts : Type 0 where
  pub pending : Assoc PendingPermission
  pub tasks : Assoc WaitingTask
  pub answers : List Answer

abbrev pub parts : Worker → Parts
parts w = record { pending = w.pending; tasks = w.tasks; answers = w.answers }

-- The worker once a task has left the maps and answered.
abbrev pub answered_by : Text → WaitingTask → Option Text → Worker → Worker
answered_by id task value w =
    respond id task.option_ids (outcome_of value)
      (record w { pending = remove id w.pending; tasks = remove id w.tasks })

-- `P` holds over every step of a request whose identifier may be asked, or resolved.
pub record IsPermissionLaw (asks resolves : Text → Bool) (P : Parts → Type 0) : Type 0 where
  pub refusing :
      (id : Text) (offered : List Text) (w : Worker)
      → asks id ≡ true
      → P (parts w)
      → P (parts (respond id offered cancelled w))
  pub asking :
      (spawned : Bool) (id session_id : Text) (offered : List Text) (w : Worker)
      → asks id ≡ true
      → P (parts w)
      → P (parts (registered spawned id session_id offered w))
  pub deciding :
      (id : Text) (permission : PendingPermission) (value : Option Text) (w : Worker)
      → lookup id w.pending ≡ some permission
      → is_offered permission.option_ids value ≡ true
      → P (parts w)
      → P (parts (settle_pending id value w).1)
  pub expiring :
      (id : Text) (task : WaitingTask) (w : Worker)
      → lookup id w.tasks ≡ some task
      → P (parts w)
      → P (parts (record w { tasks = insert id (expired_task task) w.tasks }))
  pub resolving :
      (id : Text) (task : WaitingTask) (value : Option Text) (w : Worker)
      → resolves id ≡ true
      → lookup id w.tasks ≡ some task
      → taken task.decision ≡ some value
      → P (parts w)
      → P (parts (answered_by id task value w))

-- Whether an input asks and resolves only what it may.
abbrev pub respects : {V : Type 0} → (Text → Bool) → (Text → Bool) → Input V → Bool
respects asks resolves (ask_input stamp spawned id session_id offered request) = asks id
respects asks resolves (resolve_input stamp id) = resolves id
respects asks resolves (create_input stamp now answer title) = true
respects asks resolves (resume_input stamp now resumed session_id) = true
respects asks resolves (prompt_input stamp now spawns session_id text id) = true
respects asks resolves (cancel_input stamp now notified session_id) = true
respects asks resolves (turn_end_input stamp now i result) = true
respects asks resolves (update_input stamp session_id payload) = true
respects asks resolves (decide_input id option_id) = true
respects asks resolves (time_out_input id) = true

abbrev pub any_id : Text → Bool
any_id id = true

parts-saved : (w : Worker) (o : Option Tables) → parts (saved w o) ≡ parts w
parts-saved w none = refl
parts-saved w (some t) = refl

module _ {V : Type 0} (serde : Serde V) where
  pub parts-publish_event :
      (stamp : Stamp) (workspace_id : Text) (session_id : Option Text) (kind : Text) (payload : V)
      (w : Worker)
      → parts (publish_event serde stamp workspace_id session_id kind payload w).1 ≡ parts w
  parts-publish_event stamp workspace_id session_id kind payload w =
      elim (publish_event_cases serde stamp workspace_id session_id kind payload w) [
        | inl unchanged ↦ ap parts unchanged
        | inr (made, after) ↦ ap parts after
      ]

  parts-IsCalm : (P : Parts → Type 0) → IsCalm serde (λ v w. P (parts v) → P (parts w))
  parts-IsCalm P = record {
    trans = λ u v w h k p. k (h p);
    stay = λ w p. p;
    turning = λ turns w p. p;
    saving = λ s w p. subst P (sym (parts-saved w (upsert_session s w.tables))) p;
    setting = λ session_id state now w p. p;
    claiming = λ id w p. p;
    closing = λ id w p. p;
    publishing = λ stamp workspace_id session_id kind payload w p.
        subst P (sym (parts-publish_event stamp workspace_id session_id kind payload w)) p;
  }

module _ {V : Type 0} (serde : Serde V) (workspace_id : Text) (asks resolves : Text → Bool)
    (P : Parts → Type 0) (law : IsPermissionLaw asks resolves P) where
  abbrev Holds : Worker → Worker → Type 0
  Holds v w = P (parts v) → P (parts w)

  calm : IsCalm serde Holds
  calm = parts-IsCalm serde P

  asked :
      (spawned : Bool) (id session_id : Text) (offered : List Text) {A : Type 0}
      (r : Result AcpError A × Worker)
      → asks id ≡ true
      → P (parts r.1)
      → P (parts (registered_if spawned id session_id offered r))
  asked spawned id session_id offered (ok event, v) may p =
      law.asking spawned id session_id offered v may p
  asked spawned id session_id offered (err e, v) may p = law.refusing id offered v may p

  requested :
      (stamp : Stamp) (spawned : Bool) (id session_id : Text) (offered : List Text)
      (request : Option V) (w : Worker)
      → asks id ≡ true
      → Holds w
          (request_permission serde stamp spawned workspace_id id session_id offered request w)
  unfolding request_permission
  requested stamp spawned id session_id offered none w may p = law.refusing id offered w may p
  requested stamp spawned id session_id offered (some request) w may p =
      asked spawned id session_id offered _ may (calm.publishing stamp workspace_id _ _ _ w p)

  published :
      (responds : Bool) (stamp : Stamp) (id : Text) (task : WaitingTask) (value : Option Text)
      (w : Worker)
      → Holds w (published_if serde responds stamp workspace_id id task value w)
  published true stamp id task value w p = calm.publishing stamp workspace_id _ _ _ w p
  published false stamp id task value w p = p

  resolved_one :
      (stamp : Stamp) (id : Text) (w : Worker)
      → resolves id ≡ true
      → Holds w (resolve_permission serde stamp workspace_id id w)
  unfolding resolve_permission
  resolved_one stamp id w may p = elim (Option-cases (lookup id w.tasks)) [
    | inl absent ↦ rw (absent, resolve_permission) p
    | inr (task, present) ↦ elim (Option-cases (taken task.decision)) [
      | inl waiting ↦ rw (present, waiting, resolve_permission) p
      | inr (value, over) ↦
          rw (present, over, resolve_permission)
            (published stamp.responds stamp id task value _
              (law.resolving id task value w may present over p))
    ]
  ]

  settled_all : (ids : List Text) (w : Worker) → Holds w (settle_all ids w)
  settled_all [] w p = p
  settled_all (id ∷ ids) w p = elim (Option-cases (lookup id w.pending)) [
    | inl absent ↦ rw (absent, settle_all) (settled_all ids w p)
    | inr (permission, present) ↦
        rw (present, settle_all)
          (settled_all ids (settle_pending id none w).1
            (law.deciding id permission none w present refl p))
  ]

  cancelled_session :
      (stamp : Stamp) (now : ℕ) (notified : Bool) (session_id : Text)
      → Keeps serde Holds calm (cancel_session serde stamp now workspace_id notified session_id)
  unfolding cancel_session settle_session
  cancelled_session stamp now notified session_id =
      chained serde Holds calm _ _ (failing serde Holds calm _ _) λ _.
        chained serde Holds calm _ _ (λ w. settled_all (requests_of session_id w.pending) w)
          λ _. chained serde Holds calm _ _ (setting serde Holds calm _ _ _ now) λ changed.
            chained serde Holds calm _ _ (calm.publishing stamp workspace_id _ _ _)
              λ event. finishing serde Holds calm _

  sent_either : (r : Bool × Worker) → P (parts r.1) → P (parts (sent_or_expired r).1)
  sent_either (true, w) p = p
  sent_either (false, w) p = p

  decided_one :
      (id : Text) (value : Option Text) (w : Worker) → Holds w (decide_permission id value w).1
  unfolding decide_permission
  decided_one id value w p = elim (Option-cases (lookup id w.pending)) [
    | inl absent ↦ rw (absent, decide_permission) p
    | inr (permission, present) ↦ elim (Bool-cases (is_offered permission.option_ids value)) [
      | inl offered ↦
          rw (present, offered, decide_permission)
            (sent_either (settle_pending id value w)
              (law.deciding id permission value w present offered p))
      | inr foreign ↦ rw (present, foreign, decide_permission) p
    ]
  ]

  timed_out : (id : Text) (w : Worker) → Holds w (time_out id w)
  unfolding time_out
  timed_out id w p = elim (Option-cases (lookup id w.tasks)) [
    | inl absent ↦ rw (absent, time_out) p
    | inr (task, present) ↦ rw (present, time_out) (law.expiring id task w present p)
  ]

  pub step-Holds :
      (input : Input V) (w : Worker)
      → respects asks resolves input ≡ true
      → P (parts w)
      → P (parts (step serde workspace_id input w).1)
  unfolding step
  step-Holds (create_input stamp now answer title) w may =
      create_session-Kept serde Holds calm stamp now workspace_id answer title w
  step-Holds (resume_input stamp now resumed session_id) w may =
      resume_session-Kept serde Holds calm stamp now workspace_id resumed session_id w
  step-Holds (prompt_input stamp now spawns session_id text command_id) w may =
      accept_prompt-Kept serde Holds calm stamp now spawns workspace_id session_id text command_id w
  step-Holds (cancel_input stamp now notified session_id) w may =
      cancelled_session stamp now notified session_id w
  step-Holds (turn_end_input stamp now i result) w may =
      end_turn-Kept serde Holds calm workspace_id stamp now i result (get_elem? w.turns i) w
  step-Holds (update_input stamp session_id payload) w may =
      session_update-Kept serde Holds calm workspace_id stamp session_id payload w
  step-Holds (ask_input stamp spawned id session_id offered request) w may =
      requested stamp spawned id session_id offered request w may
  step-Holds (decide_input id option_id) w may = decided_one id option_id w
  step-Holds (time_out_input id) w may = timed_out id w
  step-Holds (resolve_input stamp id) w may = resolved_one stamp id w may

  pub run-Holds :
      (inputs : List (Input V)) (w : Worker)
      → All (λ input. respects asks resolves input ≡ true) inputs
      → P (parts w)
      → P (parts (run serde workspace_id inputs w).1)
  unfolding run
  run-Holds [] w may p = p
  run-Holds (input ∷ inputs) w (may, later) p =
      run-Holds inputs (step serde workspace_id input w).1 later (step-Holds input w may p)
