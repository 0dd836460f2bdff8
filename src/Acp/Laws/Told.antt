-- ===== src/Acp/Laws/Told.antt =====
-- A decision that was accepted is what the agent is told.
use leave_cli.Prelude.{
  ◌≡◌, refl, ap, sym, ◌∙◌, inl, inr, Bool, true, false, Option, none, some, List, [], ◌∷◌, ◌++◌, ok,
  arith, All, Option-cases, Bool-cases, some-injective,
}
use mathlib.Core.Path.{subst}
use leave_cli.Prelude.Text.{Text, text_eq, text_eq_iff, text_eq_refl}
use leave_cli.Prelude.Maps.{lookup, lookup-insert, lookup-remove}
use leave_cli.Acp.Events.{
  Serde, Worker, Stamp, PendingPermission, WaitingTask, Channel, open_channel, closed, sent,
}
use leave_cli.Acp.Permissions.{
  decide_permission, settle_pending, is_offered, send, with_decision, sent_or_expired, expired_task,
  taken, outcome_of, registered,
}
use leave_cli.Acp.Loop.{Input, run, step, resolve_input}
use leave_cli.Acp.Laws.Parts.{Parts, parts, IsPermissionLaw, respects, run-Holds}
use leave_cli.Acp.Laws.Decisions.{lookup-settle_pending}
use leave_cli.Acp.Laws.Answered.{other_than}
use leave_cli.Acp.Laws.Requests.{resolve-parts}

-- The request is settled: out of the map, and its task has heard the value.
module _ (c : Text) (value : Option Text) (offered : List Text) where
  abbrev pub Settled : Parts → Type 0
  Settled p =
      (t : WaitingTask) × (lookup c p.pending ≡ none)
      × (lookup c p.tasks ≡ some t)
      × (t.decision ≡ sent value)
      × (t.option_ids ≡ offered)

  others : (id : Text) → other_than c id ≡ true → text_eq id c ≡ false
  others id h = ground arith

  -- A pending request is another one.
  pending_other :
      (id : Text) (permission : PendingPermission) (w : Worker)
      → lookup id w.pending ≡ some permission
      → lookup c w.pending ≡ none
      → text_eq id c ≡ false
  pending_other id permission w present absent = ground (arith, text_eq_iff id c)

  expired-sent :
      (t : WaitingTask) → t.decision ≡ sent value → (expired_task t).decision ≡ sent value
  expired-sent t e = ground arith

  expired-options : (t : WaitingTask) → (expired_task t).option_ids ≡ t.option_ids
  expired-options t = ground arith

  Settled-law : IsPermissionLaw (other_than c) (other_than c) Settled
  Settled-law = record {
    refusing = λ id options w may s. s;
    asking = λ spawned id session_id options w may s.
        let (t, absent, there, has, same) = s in
        (
          t,
          lookup-insert id c _ w.pending ∙ rw (others id may) absent,
          registered-others spawned id session_id options w may ∙ there,
          has,
          same,
        );
    deciding = λ id permission v w present fits s.
        let (t, absent, there, has, same) = s in
        let other = pending_other id permission w present absent in
        (
          t,
          lookup-remove id c w.pending ∙ rw other absent,
          lookup-settle_pending id c v w ∙ rw other there,
          has,
          same,
        );
    expiring = λ id task w present s.
        let (t, absent, there, has, same) = s in
        elim (Bool-cases (text_eq id c)) [
          | inl same_id ↦ (
            expired_task t,
            absent,
            lookup-insert id c _ w.tasks
                ∙ rw same_id (
                    ap (λ x. some (expired_task x))
                      (some-injective (
                        sym present
                        ∙ ap (λ k. lookup k w.tasks) ((text_eq_iff id c).0 same_id)
                        ∙ there))),
            expired-sent t has,
            expired-options t ∙ same,
          )
          | inr other ↦ (t, absent, lookup-insert id c _ w.tasks ∙ rw other there, has, same)
        ];
    resolving = λ id task v w may present over s.
        let (t, absent, there, has, same) = s in
        (
          t,
          lookup-remove id c w.pending ∙ rw (others id may) absent,
          lookup-remove id c w.tasks ∙ rw (others id may) there,
          has,
          same,
        );
  }
    where
      registered-others :
          (spawned : Bool) (id session_id : Text) (options : List Text) (w : Worker)
          → other_than c id ≡ true
          → lookup c (registered spawned id session_id options w).tasks ≡ lookup c w.tasks
      registered-others true id session_id options w may =
          lookup-insert id c _ w.tasks ∙ rw (others id may) refl
      registered-others false id session_id options w may =
          lookup-remove id c w.tasks ∙ rw (others id may) refl

sent_or_expired-ok :
    (r : Bool × Worker)
    → (sent_or_expired r).0 ≡ ok tt
    → (r.0 ≡ true) × ((sent_or_expired r).1 ≡ r.1)
sent_or_expired-ok (true, w) h = (refl, refl)
sent_or_expired-ok (false, w) h = cc

send-true :
    (value : Option Text) (channel : Channel)
    → (send value channel).0 ≡ true
    → (send value channel).1 ≡ sent value
send-true value open_channel h = refl
send-true value closed h = cc
send-true value (sent before) h = cc

-- What an accepted decision leaves.
decided-Settled :
    (c : Text) (value : Option Text) (task : WaitingTask) (w : Worker)
    → lookup c w.tasks ≡ some task
    → (decide_permission c value w).0 ≡ ok tt
    → Settled c value task.option_ids (parts (decide_permission c value w).1)
unfolding decide_permission
decided-Settled c value task w there accepted = elim (Option-cases (lookup c w.pending)) [
  | inl absent ↦ cc (rw (absent, decide_permission) at accepted)
  | inr (permission, present) ↦ elim (Bool-cases (is_offered permission.option_ids value)) [
    | inr foreign ↦ cc (rw (present, foreign, decide_permission) at accepted)
    | inl fits ↦
        let (sent_now, same) =
          sent_or_expired-ok (settle_pending c value w)
            (rw (present, fits, decide_permission) at accepted) in
        rw (present, fits, decide_permission)
          (subst (λ x. Settled c value task.option_ids (parts x)) (sym same)
            (
              with_decision (send value task.decision).1 task,
              lookup-remove c c w.pending ∙ rw (text_eq_refl c) refl,
              lookup-settle_pending c c value w ∙ rw (text_eq_refl c, there) refl,
              send-true value task.decision (rw there at sent_now),
              refl,
            ))
  ]
]

module _ {V : Type 0} (serde : Serde V) (workspace_id : Text) where
  -- A decision that was accepted for a waiting request is what its task responds to the agent when it
  -- runs, with the options that were offered, whatever else happens in between, time passing included,
  -- as long as the request's identifier is not asked under again and its task has not run before. The
  -- connection may still fail to deliver the response.
  pub decided-told :
      (c : Text) (value : Option Text) (task : WaitingTask) (stamp : Stamp)
      (inputs : List (Input V)) (w : Worker)
      → lookup c w.tasks ≡ some task
      → (decide_permission c value w).0 ≡ ok tt
      → All (λ i. respects (other_than c) (other_than c) i ≡ true) inputs
      → let last = (run serde workspace_id inputs (decide_permission c value w).1).1 in
        (step serde workspace_id (resolve_input stamp c) last).1.answers
        ≡ last.answers
          ++ record { request_id = c; option_ids = task.option_ids; outcome = outcome_of value }
            ∷ []
  unfolding step
  decided-told c value task stamp inputs w there accepted calm =
      let last : Worker = (run serde workspace_id inputs (decide_permission c value w).1).1 in
      let (t, absent, held, has, same) =
        run-Holds serde workspace_id (other_than c) (other_than c) (Settled c value task.option_ids)
          (Settled-law c value task.option_ids) inputs (decide_permission c value w).1 calm
          (decided-Settled c value task w there accepted) in
      ap (λ x. x.answers)
        (resolve-parts serde workspace_id stamp c t value last held (ap taken has))
      ∙ ap
          (λ o.
            last.answers
            ++ record { request_id = c; option_ids = o; outcome = outcome_of value } ∷ [])
          same
