-- ===== src/Acp/Laws/Asks.antt =====
-- What the handlers of permission requests keep.
use leave_cli.Prelude.{
  ℕ, ◌≡◌, refl, Bool, true, false, Option, none, some, List, [], ◌∷◌, Result, ok, err, arith,
  Option-cases, inl, inr,
}
use leave_cli.Prelude.Text.{Text}
use leave_cli.Prelude.Maps.{lookup, remove}
use leave_cli.Acp.Events.{Serde, Worker, Stamp, WaitingTask, AcpError}
use leave_cli.Acp.Permissions.{
  decide_permission, time_out, request_permission, resolve_permission, cancel_session,
  settle_session, settle_pending, settle_all, requests_of, outcome_of, taken, registered_if,
  resolved, respond, published_if,
}
use leave_cli.Acp.Laws.Kept.{IsKept, Keeps, stays, chained, failing, setting, finishing}

module _ {V : Type 0} (serde : Serde V) (R : Worker → Worker → Type 0) (kept : IsKept serde R) where
  settle_pending-Kept :
      (id : Text) (value : Option Text) (w : Worker) → R w (settle_pending id value w).1
  settle_pending-Kept id value w = kept.same w _ refl refl

  settle_all-Kept : (ids : List Text) (w : Worker) → R w (settle_all ids w)
  settle_all-Kept [] w = stays serde R kept.calm w
  settle_all-Kept (id ∷ ids) w = elim (Option-cases (lookup id w.pending)) [
    | inl absent ↦ rw (absent, settle_all) (settle_all-Kept ids w)
    | inr (permission, present) ↦
        rw (present, settle_all)
          (kept.calm.trans w _ _ (settle_pending-Kept id none w)
            (settle_all-Kept ids (settle_pending id none w).1))
  ]

  pub cancel_session-Kept :
      (stamp : Stamp) (now : ℕ) (workspace_id : Text) (notified : Bool) (session_id : Text)
      → Keeps serde R kept.calm (cancel_session serde stamp now workspace_id notified session_id)
  unfolding cancel_session settle_session
  cancel_session-Kept stamp now workspace_id notified session_id =
      chained serde R kept.calm _ _ (failing serde R kept.calm _ _) λ _.
        chained serde R kept.calm _ _ (λ w. settle_all-Kept (requests_of session_id w.pending) w)
          λ _. chained serde R kept.calm _ _ (setting serde R kept.calm _ _ _ now) λ changed.
            chained serde R kept.calm _ _ (kept.calm.publishing stamp workspace_id _ _ _)
              λ event. finishing serde R kept.calm _

  -- A decision changes no table and publishes nothing.
  pub decide_permission-same :
      (id : Text) (option_id : Option Text) (w : Worker)
      → ((decide_permission id option_id w).1.tables ≡ w.tables)
        × ((decide_permission id option_id w).1.published ≡ w.published)
  unfolding decide_permission
  decide_permission-same id option_id w = (ground arith, ground arith)

  pub time_out-same :
      (id : Text) (w : Worker)
      → ((time_out id w).tables ≡ w.tables) × ((time_out id w).published ≡ w.published)
  unfolding time_out
  time_out-same id w = (ground arith, ground arith)

  asked-Kept :
      (spawned : Bool) (id session_id : Text) (offered : List Text) {A : Type 0} (w : Worker)
      (r : Result AcpError A × Worker)
      → R w r.1
      → R w (registered_if spawned id session_id offered r)
  asked-Kept spawned id session_id offered w (ok event, v) h =
      kept.calm.trans w v _ h (kept.same v _ refl refl)
  asked-Kept spawned id session_id offered w (err e, v) h =
      kept.calm.trans w v _ h (kept.same v _ refl refl)

  pub request_permission-Kept :
      (stamp : Stamp) (spawned : Bool) (workspace_id id session_id : Text) (offered : List Text)
      (request : Option V) (w : Worker)
      → R w (request_permission serde stamp spawned workspace_id id session_id offered request w)
  unfolding request_permission
  request_permission-Kept stamp spawned workspace_id id session_id offered none w =
      kept.same w _ refl refl
  request_permission-Kept stamp spawned workspace_id id session_id offered (some request) w =
      asked-Kept spawned id session_id offered w _ (kept.calm.publishing stamp workspace_id _ _ _ w)

  published_if-Kept :
      (responds : Bool) (stamp : Stamp) (workspace_id id : Text) (task : WaitingTask)
      (value : Option Text) (w : Worker)
      → R w (published_if serde responds stamp workspace_id id task value w)
  published_if-Kept true stamp workspace_id id task value w =
      kept.calm.publishing stamp workspace_id _ _ _ w
  published_if-Kept false stamp workspace_id id task value w = stays serde R kept.calm w

  resolved-Kept :
      (stamp : Stamp) (workspace_id id : Text) (task : WaitingTask) (value : Option Text)
      (w : Worker)
      → R w (resolved serde stamp workspace_id id task value w)
  resolved-Kept stamp workspace_id id task value w =
      kept.calm.trans w _ _
        (kept.same w
          (respond id task.option_ids (outcome_of value)
            (record w { pending = remove id w.pending; tasks = remove id w.tasks }))
          refl refl)
        (published_if-Kept stamp.responds stamp workspace_id id task value _)

  pub resolve_permission-Kept :
      (stamp : Stamp) (workspace_id id : Text) (w : Worker)
      → R w (resolve_permission serde stamp workspace_id id w)
  unfolding resolve_permission
  resolve_permission-Kept stamp workspace_id id w = elim (Option-cases (lookup id w.tasks)) [
    | inl absent ↦ rw (absent, resolve_permission) (stays serde R kept.calm w)
    | inr (task, present) ↦ elim (Option-cases (taken task.decision)) [
      | inl waiting ↦ rw (present, waiting, resolve_permission) (stays serde R kept.calm w)
      | inr (value, over) ↦
          rw (present, over, resolve_permission) (resolved-Kept stamp workspace_id id task value w)
    ]
  ]
