-- ===== src/Acp/Laws/Answered.antt =====
-- Every permission request that waits is answered, and answered once.
use leave_cli.Prelude.{
  ℕ, suc, ◌≡◌, refl, ◌∙◌, ◌⊎◌, inl, inr, Bool, true, false, not, Option, none, some, List, [], ◌∷◌,
  ◌++◌, arith, Bool-cases, if◌then◌else◌,
}
use leave_cli.Prelude.Text.{Text, text_eq, text_eq_iff}
use leave_cli.Prelude.Maps.{lookup, insert, lookup-insert, lookup-remove}
use leave_cli.Acp.Events.{Worker, WaitingTask, Answer, cancelled}
use leave_cli.Acp.Permissions.{
  settle_pending, with_decision, send, expired_task, respond, registered,
}
use leave_cli.Acp.Laws.Parts.{Parts, parts, IsPermissionLaw, any_id, answered_by}
use leave_cli.Acp.Laws.Decisions.{lookup-settle_pending}

-- How many answers the agent was given to a request.
abbrev pub answers_to : Text → List Answer → ℕ
answers_to id [] = 0
answers_to id (a ∷ answers) =
    if text_eq a.request_id id then suc (answers_to id answers) else answers_to id answers

pub answers_to-append :
    (id : Text) (answers : List Answer) (a : Answer)
    → answers_to id (answers ++ a ∷ [])
      ≡ (if text_eq a.request_id id then suc (answers_to id answers) else answers_to id answers)
answers_to-append id [] a = ground arith
answers_to-append id (b ∷ answers) a = ground (arith, answers_to-append id answers a)

-- An input that does not ask for the identifier again.
abbrev pub other_than : Text → Text → Bool
other_than c id = not (text_eq id c)

module _ (c : Text) where
  -- The request has been answered once and waits no more.
  abbrev pub Done : Parts → Type 0
  Done p = (lookup c p.tasks ≡ none) × (answers_to c p.answers ≡ 1)

  abbrev pub Waits : Parts → Type 0
  Waits p = ((t : WaitingTask) × (lookup c p.tasks ≡ some t)) × (answers_to c p.answers ≡ 0)

  not_asked : (id : Text) → other_than c id ≡ true → text_eq id c ≡ false
  not_asked id h = ground arith

  refusing_count :
      (id : Text) (offered : List Text) (w : Worker)
      → other_than c id ≡ true
      → answers_to c (respond id offered cancelled w).answers ≡ answers_to c w.answers
  refusing_count id offered w may = answers_to-append c w.answers _ ∙ rw (not_asked id may) refl

  asking_lookup :
      (spawned : Bool) (id session_id : Text) (offered : List Text) (w : Worker)
      → other_than c id ≡ true
      → lookup c (registered spawned id session_id offered w).tasks ≡ lookup c w.tasks
  asking_lookup true id session_id offered w may =
      lookup-insert id c _ w.tasks ∙ rw (not_asked id may) refl
  asking_lookup false id session_id offered w may =
      lookup-remove id c w.tasks ∙ rw (not_asked id may) refl

  pub Done-law : IsPermissionLaw (other_than c) any_id Done
  Done-law = record {
    refusing = λ id offered w may d. (d.0, refusing_count id offered w may ∙ d.1);
    asking = λ spawned id session_id offered w may d.
        (asking_lookup spawned id session_id offered w may ∙ d.0, d.1);
    deciding = λ id permission value w present offered d.
        (lookup-settle_pending id c value w ∙ rw d.0 (ground arith), d.1);
    expiring = λ id task w present d. (
      lookup-insert id c (expired_task task) w.tasks
          ∙ ground (arith, text_eq_iff id c, present, d.0),
      d.1,
    );
    resolving = λ id task value w may present over d. (
      lookup-remove id c w.tasks ∙ ground (arith, d.0),
      answers_to-append c w.answers _ ∙ ground (arith, text_eq_iff id c, present, d.0, d.1),
    );
  }

  -- One step of a waiting request's own task, or of another.
  Waits-deciding :
      (id : Text) (value : Option Text) (w : Worker)
      → Waits (parts w)
      → Waits (parts (settle_pending id value w).1)
  Waits-deciding id value w ((t, there), count) = elim (Bool-cases (text_eq id c)) [
    | inl same ↦ (
      (
        with_decision (send value t.decision).1 t,
        lookup-settle_pending id c value w ∙ rw (same, there) refl,
      ),
      count,
    )
    | inr other ↦ ((t, lookup-settle_pending id c value w ∙ rw other there), count)
  ]

  Waits-expiring :
      (id : Text) (task : WaitingTask) (w : Worker)
      → Waits (parts w)
      → Waits (parts (record w { tasks = insert id (expired_task task) w.tasks }))
  Waits-expiring id task w ((t, there), count) = elim (Bool-cases (text_eq id c)) [
    | inl same ↦
        ((expired_task task, lookup-insert id c (expired_task task) w.tasks ∙ rw same refl), count)
    | inr other ↦ ((t, lookup-insert id c (expired_task task) w.tasks ∙ rw other there), count)
  ]

  -- A request's own task answers it; any other leaves it waiting.
  Waits-resolving :
      (id : Text) (task : WaitingTask) (value : Option Text) (w : Worker)
      → Waits (parts w)
      → Waits (parts (answered_by id task value w)) ⊎ Done (parts (answered_by id task value w))
  Waits-resolving id task value w ((t, there), count) = elim (Bool-cases (text_eq id c)) [
    | inl same ↦ inr (
      lookup-remove id c w.tasks ∙ rw same refl,
      answers_to-append c w.answers _ ∙ rw (same, count) refl,
    )
    | inr other ↦ inl (
      (t, lookup-remove id c w.tasks ∙ rw other there),
      answers_to-append c w.answers _ ∙ rw (other, count) refl,
    )
  ]

  abbrev pub Open : Parts → Type 0
  Open p = Waits p ⊎ Done p

  pub Open-law : IsPermissionLaw (other_than c) any_id Open
  Open-law = record {
    refusing = λ id offered w may d. elim d [
      | inl waits ↦ inl (waits.0, refusing_count id offered w may ∙ waits.1)
      | inr over ↦ inr (Done-law.refusing id offered w may over)
    ];
    asking = λ spawned id session_id offered w may d. elim d [
      | inl waits ↦
          inl ((waits.0.0, asking_lookup spawned id session_id offered w may ∙ waits.0.1), waits.1)
      | inr over ↦ inr (Done-law.asking spawned id session_id offered w may over)
    ];
    deciding = λ id permission value w present offered d. elim d [
      | inl waits ↦ inl (Waits-deciding id value w waits)
      | inr over ↦ inr (Done-law.deciding id permission value w present offered over)
    ];
    expiring = λ id task w present d. elim d [
      | inl waits ↦ inl (Waits-expiring id task w waits)
      | inr over ↦ inr (Done-law.expiring id task w present over)
    ];
    resolving = λ id task value w may present over d. elim d [
      | inl waits ↦ Waits-resolving id task value w waits
      | inr before ↦ inr (Done-law.resolving id task value w may present over before)
    ];
  }
