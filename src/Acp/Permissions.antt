-- ===== src/Acp/Permissions.antt =====
-- apps/leave/src/acp.rs: permission requests. A request is published, waits in the map and in a
-- task of its own, and is answered once its channel holds a decision or is closed.
use leave_cli.Prelude.{
  ℕ, if◌then◌else◌, Bool, true, false, not, Option, none, some, List, [], ◌∷◌, ◌++◌, any, ok, err,
  Result,
}
use leave_cli.Prelude.Text.{Text, codes, text_eq}
use leave_cli.Prelude.Maps.{Assoc, lookup, insert, remove}
use leave_cli.Acp.Events.{
  Serde, Worker, Stamp, PendingPermission, WaitingTask, Channel, open_channel, closed, sent,
  Outcome, cancelled, selected, AcpError, not_cancelled, not_pending, not_an_option, expired,
  Action, ◌>>=◌, ◌>>◌, done, fail_if, publish_event,
}
use leave_cli.Acp.Sessions.{set_state, session_id_value}

-- `oneshot::Sender::send`: what the channel holds then, and whether the receiver was still there.
abbrev pub send : Option Text → Channel → Bool × Channel
send value open_channel = (true, sent value)
send value closed = (false, closed)
send value (sent before) = (false, sent before)

abbrev pub with_decision : Channel → WaitingTask → WaitingTask
with_decision channel task = record task { decision = channel }

-- The channel of a request's task; a task that has ended dropped its receiver.
abbrev pub channel_of : Option WaitingTask → Channel
channel_of none = closed
channel_of (some task) = task.decision

abbrev pub update_task : Text → Channel → Option WaitingTask → Assoc WaitingTask → Assoc WaitingTask
update_task id channel none tasks = tasks
update_task id channel (some task) tasks = insert id (with_decision channel task) tasks

-- The sender of a pending request is taken out of the map and used.
abbrev pub settle_pending : Text → Option Text → Worker → Bool × Worker
settle_pending id value w =
    let task = lookup id w.tasks in
    let (heard, channel) = send value (channel_of task) in
    (heard, record w { pending = remove id w.pending; tasks = update_task id channel task w.tasks })

-- An option that is chosen must be one of those offered.
abbrev pub is_offered : List Text → Option Text → Bool
is_offered offered none = true
is_offered offered (some option_id) = any (λ o. text_eq o option_id) offered

abbrev pub sent_or_expired : Bool × Worker → Result AcpError (Unit {0}) × Worker
sent_or_expired (true, w) = (ok tt, w)
sent_or_expired (false, w) = (err expired, w)

-- `AcpHandle::decide_permission`.
unfoldable pub decide_permission : Text → Option Text → Action (Unit {0})
decide_permission id option_id w = elim (lookup id w.pending) [
  | none ↦ (err not_pending, w)
  | some permission ↦
      if not (is_offered permission.option_ids option_id)
      then (err not_an_option, w)
      else sent_or_expired (settle_pending id option_id w)
]

-- The outcome that the agent is told.
abbrev pub outcome_of : Option Text → Outcome
outcome_of none = cancelled
outcome_of (some option_id) = selected option_id

abbrev status_text : Option Text → Text
status_text none = codes "cancelled"
status_text (some option_id) = codes "selected"

abbrev pub respond : Text → List Text → Outcome → Worker → Worker
respond id offered outcome w = record w {
  answers = w.answers ++ record { request_id = id; option_ids = offered; outcome = outcome } ∷ [];
}

-- What the task selected, once its channel is no longer open.
abbrev pub taken : Channel → Option (Option Text)
taken open_channel = none
taken closed = some none
taken (sent value) = some value

-- Five minutes have passed with no decision: the receiver is dropped.
abbrev pub expired_task : WaitingTask → WaitingTask
expired_task task = elim task.decision [
  | open_channel ↦ with_decision closed task
  | closed ↦ task
  | sent value ↦ task
]

unfoldable pub time_out : Text → Worker → Worker
time_out id w = elim (lookup id w.tasks) [
  | none ↦ w
  | some task ↦ record w { tasks = insert id (expired_task task) w.tasks }
]

abbrev pub requests_of : Text → Assoc PendingPermission → List Text
requests_of session_id [] = []
requests_of session_id ((id, permission) ∷ pending) =
    let rest = requests_of session_id pending in
    if text_eq permission.session_id session_id then id ∷ rest else rest

abbrev pub settle_all : List Text → Worker → Worker
settle_all [] w = w
settle_all (id ∷ ids) w = elim (lookup id w.pending) [
  | none ↦ settle_all ids w
  | some permission ↦ settle_all ids (settle_pending id none w).1
]

unfoldable pub settle_session : Text → Action (Unit {0})
settle_session session_id w = (ok tt, settle_all (requests_of session_id w.pending) w)

-- `spawned` says whether the connection took the task; one that it did not is dropped.
abbrev pub registered : Bool → Text → Text → List Text → Worker → Worker
registered spawned id session_id offered w = record w {
  pending = insert id (record { session_id = session_id; option_ids = offered }) w.pending;
  tasks =
      if spawned
      then insert id
          (record { session_id = session_id; option_ids = offered; decision = open_channel })
          w.tasks
      else remove id w.tasks;
}

abbrev pub registered_if :
    {A : Type 0} → Bool → Text → Text → List Text → Result AcpError A × Worker → Worker
registered_if spawned id session_id offered (ok event, w) =
    registered spawned id session_id offered w
registered_if spawned id session_id offered (err e, w) = respond id offered cancelled w

module _ {V : Type 0} (serde : Serde V) where
  abbrev optional : Option Text → V
  optional none = serde.null
  optional (some option_id) = serde.text option_id

  abbrev request_value : Text → V → V
  request_value id request =
      serde.object ((codes "requestId", serde.text id) ∷ (codes "request", request) ∷ [])

  abbrev pub resolved_value : Text → Option Text → V
  resolved_value id value = serde.object (
      (codes "requestId", serde.text id)
      ∷ (codes "optionId", optional value)
      ∷ (codes "status", serde.text (status_text value))
      ∷ [])

  -- `on_receive_request`: `request` is the request as a value, `none` if it cannot be encoded.
  unfoldable pub request_permission :
      Stamp → Bool → Text → Text → Text → List Text → Option V → Worker → Worker
  request_permission stamp spawned workspace_id id session_id offered none w =
      respond id offered cancelled w
  request_permission stamp spawned workspace_id id session_id offered (some request) w =
      registered_if spawned id session_id offered (
        publish_event serde stamp workspace_id (some session_id) (codes "permission_requested")
          (request_value id request) w)

  -- The event behind the response; without it if the connection does not take the response.
  abbrev pub published_if : Bool → Stamp → Text → Text → WaitingTask → Option Text → Worker → Worker
  published_if false stamp workspace_id id task value w = w
  published_if true stamp workspace_id id task value w =
      (publish_event serde stamp workspace_id (some task.session_id) (codes "permission_resolved")
        (resolved_value id value) w).1

  -- The end of the task: the map, the response to the agent, then the event.
  abbrev pub resolved : Stamp → Text → Text → WaitingTask → Option Text → Worker → Worker
  resolved stamp workspace_id id task value w =
      published_if stamp.responds stamp workspace_id id task value (
        respond id task.option_ids (outcome_of value)
          (record w { pending = remove id w.pending; tasks = remove id w.tasks }))

  unfoldable pub resolve_permission : Stamp → Text → Text → Worker → Worker
  resolve_permission stamp workspace_id id w = elim (lookup id w.tasks) [
    | none ↦ w
    | some task ↦ elim (taken task.decision) [
      | none ↦ w
      | some value ↦ resolved stamp workspace_id id task value w
    ]
  ]

  -- `cancel_session`; `notified` says whether the agent could be told.
  unfoldable pub cancel_session : Stamp → ℕ → Text → Bool → Text → Action (Unit {0})
  cancel_session stamp now workspace_id notified session_id = do
    fail_if (not notified) not_cancelled
    settle_session session_id
    changed ← set_state stamp.updates session_id (codes "idle") now
    event ←
        publish_event serde stamp workspace_id (some session_id) (codes "session_cancelled")
          (session_id_value serde session_id)
    done tt
