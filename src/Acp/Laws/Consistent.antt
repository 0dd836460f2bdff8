-- ===== src/Acp/Laws/Consistent.antt =====
-- The worker composed with the store: every table invariant holds over the worker's whole life.
use leave_cli.Prelude.{
  ◌≡◌, refl, ap, sym, ◌⊎◌, inl, inr, Option, none, some, List, Result, Option-cases, Bool-cases,
}
use mathlib.Core.Path.{subst}
use leave_cli.Prelude.Text.{Text}
use leave_cli.Crypto.Error.{Bytes}
use leave_cli.Store.{Tables, EventRecord, upsert_session}
use leave_cli.Store.Invariant.{IsConsistent}
use leave_cli.Store.Reachable.{
  apply, apply-IsConsistent, upsert_session_op, update_session_state_op, mark_offline_op,
  claim_command_op, append_event_op, or_same,
}
use leave_cli.Acp.Events.{Serde, Worker, Stamp, publish_event}
use leave_cli.Acp.Loop.{Input, Hello, start}
use leave_cli.Acp.Laws.Kept.{IsKept, saved}
use leave_cli.Acp.Laws.Stored.{append_event_cases, Announced, Announced-IsKept}
use leave_cli.Acp.Laws.Run.{start-Kept}

abbrev Consistently : Worker → Worker → Type 0
Consistently v w = IsConsistent v.tables → IsConsistent w.tables

tables-saved : (w : Worker) (o : Option Tables) → (saved w o).tables ≡ or_same w.tables o
tables-saved w none = refl
tables-saved w (some t) = refl

module _ {V : Type 0} (serde : Serde V) where
  publish_event-apply :
      (stamp : Stamp) (workspace_id : Text) (session_id : Option Text) (kind : Text) (payload : V)
      (w : Worker)
      → ((publish_event serde stamp workspace_id session_id kind payload w).1.tables ≡ w.tables)
        ⊎ ((bytes : Bytes) × ((publish_event serde stamp workspace_id session_id kind payload
                w).1.tables
              ≡ apply
                  (append_event_op workspace_id session_id kind bytes stamp.event_id stamp.now)
                  w.tables))
  unfolding publish_event
  publish_event-apply stamp workspace_id session_id kind payload w =
      elim (Option-cases (serde.to_vec payload)) [
        | inl unwritten ↦ inl (rw (unwritten, publish_event) refl)
        | inr (bytes, written) ↦ elim (Bool-cases stamp.appends) [
          | inr lost ↦ inl (rw (written, lost, publish_event) refl)
          | inl carried ↦
              elim (append_event_cases workspace_id session_id kind bytes stamp.event_id stamp.now
                w.tables) [
                  | inl refused ↦ inl (rw (written, carried, publish_event, refused) refl)
                  | inr stored ↦ inr (
                    bytes,
                    rw (written, carried, publish_event, stored)
                        (sym (
                          ap
                            (λ (o : Option (EventRecord × Tables)).
                              let r : Tables = elim o [
                                | none ↦ w.tables
                                | some (made, after) ↦ after
                              ] in
                              r)
                            stored)),
                  )
                ]
        ]
      ]

  Consistently-IsKept : IsKept serde Consistently
  Consistently-IsKept = record {
    calm = record {
      stay = λ w c. c;
      turning = λ turns w c. c;
      trans = λ u v w h k c. k (h c);
      saving = λ s w c.
          subst IsConsistent (sym (tables-saved w (upsert_session s w.tables)))
            (apply-IsConsistent (upsert_session_op s) w.tables c);
      setting = λ session_id state now w c.
          apply-IsConsistent (update_session_state_op session_id state now) w.tables c;
      claiming = λ id w c. apply-IsConsistent (claim_command_op id) w.tables c;
      closing = λ id w c. apply-IsConsistent (mark_offline_op id) w.tables c;
      publishing = λ stamp workspace_id session_id kind payload w c.
          elim (publish_event-apply stamp workspace_id session_id kind payload w) [
            | inl unchanged ↦ subst IsConsistent (sym unchanged) c
            | inr (bytes, applied) ↦ subst IsConsistent (sym applied) (
                apply-IsConsistent
                  (append_event_op workspace_id session_id kind bytes stamp.event_id stamp.now)
                  w.tables c)
          ];
    };
    same = λ v w t p c. subst IsConsistent (sym t) c;
  }

  -- Over the whole life of the worker, whatever the agent answers and in whatever order inputs come,
  -- the events that the store gains are exactly those that subscribers are sent, in the same order,
  -- and the tables are consistent at the end if they were at the start.
  pub start-Announced :
      (workspace_id : Text) (ready_stamp end_stamp : Stamp) (command : Text)
      (hello : Result Text (Hello V)) (inputs : List (Input V)) (ending : Result Text (Unit {0}))
      (w : Worker)
      → IsConsistent w.tables
      → let last =
          (start serde workspace_id ready_stamp end_stamp command hello inputs ending w).1 in
        Announced w last × IsConsistent last.tables
  start-Announced workspace_id ready_stamp end_stamp command hello inputs ending w c = (
    start-Kept serde Announced (Announced-IsKept serde) workspace_id ready_stamp end_stamp command
        hello inputs ending w,
    start-Kept serde Consistently Consistently-IsKept workspace_id ready_stamp end_stamp command
        hello inputs ending w c,
  )
