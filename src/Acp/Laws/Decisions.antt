-- ===== src/Acp/Laws/Decisions.antt =====
-- Which option the agent is told: one that it offered, and the one that a person chose.
use leave_cli.Prelude.{
  ◌≡◌, refl, ap, sym, ◌∙◌, inl, inr, Bool, true, false, Option, none, some, List, arith, All,
  All-append, Option-cases, Bool-cases, if◌then◌else◌, some-injective,
}
use mathlib.Core.Path.{subst}
use leave_cli.Prelude.Text.{Text, text_eq, text_eq_iff}
use leave_cli.Prelude.Maps.{lookup, insert, lookup-insert, lookup-remove}
use leave_cli.Acp.Events.{
  Worker, PendingPermission, WaitingTask, Channel, open_channel, closed, sent, Answer, cancelled,
  selected,
}
use leave_cli.Acp.Permissions.{
  settle_pending, send, with_decision, is_offered, expired_task, taken, outcome_of, respond,
  registered,
}
use leave_cli.Acp.Laws.Parts.{Parts, parts, IsPermissionLaw, any_id, answered_by}

-- A task that hears a value, if the task is there and its channel still open.
abbrev pub heard : Option Text → Option WaitingTask → Option WaitingTask
heard value none = none
heard value (some task) = some (with_decision (send value task.decision).1 task)

-- Only the task of the request hears of it.
pub lookup-settle_pending :
    (id j : Text) (value : Option Text) (w : Worker)
    → lookup j (settle_pending id value w).1.tasks
      ≡ (if text_eq id j then heard value (lookup j w.tasks) else lookup j w.tasks)
lookup-settle_pending id j value w = elim (Option-cases (lookup id w.tasks)) [
  | inl absent ↦ rw absent (ground (arith, text_eq_iff id j))
  | inr (task, present) ↦
      rw (present, lookup-insert id j (with_decision (send value task.decision).1 task) w.tasks)
        (ground (arith, text_eq_iff id j))
]

heard-eq-some :
    (value : Option Text) (o : Option WaitingTask) (t : WaitingTask)
    → heard value o ≡ some t
    → (task : WaitingTask) × (o ≡ some task) × (t ≡ with_decision (send value task.decision).1 task)
heard-eq-some value none t h = cc
heard-eq-some value (some task) t h = (task, refl, sym (some-injective h))

-- What a channel holds is an option that was offered, or none.
abbrev pub Fits : List Text → Channel → Type 0
Fits offered open_channel = Unit {0}
Fits offered closed = Unit {0}
Fits offered (sent value) = is_offered offered value ≡ true

Fits-send :
    (offered : List Text) (value : Option Text) (channel : Channel)
    → is_offered offered value ≡ true
    → Fits offered channel
    → Fits offered (send value channel).1
Fits-send offered value open_channel h f = h
Fits-send offered value closed h f = tt
Fits-send offered value (sent before) h f = f

Fits-closed :
    (offered : List Text) (channel : Channel)
    → Fits offered channel
    → Fits offered (elim channel [ open_channel ↦ closed | closed ↦ closed | sent v ↦ sent v ])
Fits-closed offered open_channel f = tt
Fits-closed offered closed f = tt
Fits-closed offered (sent v) f = f

abbrev pub is_told : Answer → Bool
is_told answer = elim answer.outcome [
  | cancelled ↦ true
  | selected option_id ↦ is_offered answer.option_ids (some option_id)
]

pub record IsOffered (p : Parts) : Type 0 where
  pub choices :
      (j : Text) (t : WaitingTask) → lookup j p.tasks ≡ some t → Fits t.option_ids t.decision
  pub matching :
      (j : Text) (q : PendingPermission) (t : WaitingTask)
      → lookup j p.pending ≡ some q
      → lookup j p.tasks ≡ some t
      → q.option_ids ≡ t.option_ids
  pub told : All (λ a. is_told a ≡ true) p.answers

respond-IsOffered :
    (id : Text) (offered : List Text) (w : Worker)
    → IsOffered (parts w)
    → IsOffered (parts (respond id offered cancelled w))
respond-IsOffered id offered w f = record {
  choices = f.choices;
  matching = f.matching;
  told = All-append _ w.answers _ f.told (refl, tt);
}

asking-IsOffered :
    (spawned : Bool) (id session_id : Text) (offered : List Text) (w : Worker)
    → IsOffered (parts w)
    → IsOffered (parts (registered spawned id session_id offered w))
asking-IsOffered true id session_id offered w f = record {
  choices = λ j t h. elim (Bool-cases (text_eq id j)) [
    | inl same ↦
        subst (λ x. Fits x.option_ids x.decision)
          (some-injective (rw same at (sym (lookup-insert id j _ w.tasks) ∙ h))) tt
    | inr other ↦ f.choices j t (rw other at (sym (lookup-insert id j _ w.tasks) ∙ h))
  ];
  matching = λ j q t hq ht. elim (Bool-cases (text_eq id j)) [
    | inl same ↦
        ap (λ x. x.option_ids)
          (sym (some-injective (rw same at (sym (lookup-insert id j _ w.pending) ∙ hq))))
        ∙ ap (λ x. x.option_ids)
            (some-injective (rw same at (sym (lookup-insert id j _ w.tasks) ∙ ht)))
    | inr other ↦
        f.matching j q t (rw other at (sym (lookup-insert id j _ w.pending) ∙ hq))
          (rw other at (sym (lookup-insert id j _ w.tasks) ∙ ht))
  ];
  told = f.told;
}
asking-IsOffered false id session_id offered w f = record {
  choices = λ j t h. elim (Bool-cases (text_eq id j)) [
    | inl same ↦ cc (rw same at (sym (lookup-remove id j w.tasks) ∙ h))
    | inr other ↦ f.choices j t (rw other at (sym (lookup-remove id j w.tasks) ∙ h))
  ];
  matching = λ j q t hq ht. elim (Bool-cases (text_eq id j)) [
    | inl same ↦ cc (rw same at (sym (lookup-remove id j w.tasks) ∙ ht))
    | inr other ↦
        f.matching j q t (rw other at (sym (lookup-insert id j _ w.pending) ∙ hq))
          (rw other at (sym (lookup-remove id j w.tasks) ∙ ht))
  ];
  told = f.told;
}

deciding-IsOffered :
    (id : Text) (permission : PendingPermission) (value : Option Text) (w : Worker)
    → lookup id w.pending ≡ some permission
    → is_offered permission.option_ids value ≡ true
    → IsOffered (parts w)
    → IsOffered (parts (settle_pending id value w).1)
deciding-IsOffered id permission value w present offered f = record {
  choices = λ j t h. elim (Bool-cases (text_eq id j)) [
    | inl same ↦
        let e : id ≡ j = (text_eq_iff id j).0 same in
        let (task, there, now) =
          heard-eq-some value (lookup j w.tasks) t
            (rw same at (sym (lookup-settle_pending id j value w) ∙ h)) in
        let known : lookup id w.tasks ≡ some task = ap (λ k. lookup k w.tasks) e ∙ there in
        let fits =
          subst (λ o. is_offered o value ≡ true) (f.matching id permission task present known)
            offered in
        subst (λ x. Fits x.option_ids x.decision) (sym now)
          (Fits-send task.option_ids value task.decision fits (f.choices j task there))
    | inr other ↦ f.choices j t (rw other at (sym (lookup-settle_pending id j value w) ∙ h))
  ];
  matching = λ j q t hq ht. elim (Bool-cases (text_eq id j)) [
    | inl same ↦ cc (rw same at (sym (lookup-remove id j w.pending) ∙ hq))
    | inr other ↦
        f.matching j q t (rw other at (sym (lookup-remove id j w.pending) ∙ hq))
          (rw other at (sym (lookup-settle_pending id j value w) ∙ ht))
  ];
  told = f.told;
}

expired-Fits :
    (t : WaitingTask)
    → Fits t.option_ids t.decision
    → Fits (expired_task t).option_ids (expired_task t).decision
expired-Fits t f = ground arith

expiring-IsOffered :
    (id : Text) (task : WaitingTask) (w : Worker)
    → lookup id w.tasks ≡ some task
    → IsOffered (parts w)
    → IsOffered (parts (record w { tasks = insert id (expired_task task) w.tasks }))
expiring-IsOffered id task w present f = record {
  choices = λ j t h. elim (Bool-cases (text_eq id j)) [
    | inl same ↦
        subst (λ x. Fits x.option_ids x.decision)
          (some-injective (rw same at (sym (lookup-insert id j _ w.tasks) ∙ h)))
          (expired-Fits task (f.choices id task present))
    | inr other ↦ f.choices j t (rw other at (sym (lookup-insert id j _ w.tasks) ∙ h))
  ];
  matching = λ j q t hq ht. elim (Bool-cases (text_eq id j)) [
    | inl same ↦
        f.matching id q task (ap (λ k. lookup k w.pending) ((text_eq_iff id j).0 same) ∙ hq) present
        ∙ sym (options_kept task)
        ∙ ap (λ x. x.option_ids)
            (some-injective (rw same at (sym (lookup-insert id j _ w.tasks) ∙ ht)))
    | inr other ↦ f.matching j q t hq (rw other at (sym (lookup-insert id j _ w.tasks) ∙ ht))
  ];
  told = f.told;
}
  where
    options_kept : (t : WaitingTask) → (expired_task t).option_ids ≡ t.option_ids
    options_kept t = ground arith

told-taken :
    (id : Text) (task : WaitingTask) (value : Option Text)
    → taken task.decision ≡ some value
    → Fits task.option_ids task.decision
    → is_told (record { request_id = id; option_ids = task.option_ids; outcome = outcome_of value })
      ≡ true
told-taken id task none over f = refl
told-taken id task (some option_id) over f = ground arith

resolving-IsOffered :
    (id : Text) (task : WaitingTask) (value : Option Text) (w : Worker)
    → lookup id w.tasks ≡ some task
    → taken task.decision ≡ some value
    → IsOffered (parts w)
    → IsOffered (parts (answered_by id task value w))
resolving-IsOffered id task value w present over f = record {
  choices = λ j t h. elim (Bool-cases (text_eq id j)) [
    | inl same ↦ cc (rw same at (sym (lookup-remove id j w.tasks) ∙ h))
    | inr other ↦ f.choices j t (rw other at (sym (lookup-remove id j w.tasks) ∙ h))
  ];
  matching = λ j q t hq ht. elim (Bool-cases (text_eq id j)) [
    | inl same ↦ cc (rw same at (sym (lookup-remove id j w.tasks) ∙ ht))
    | inr other ↦
        f.matching j q t (rw other at (sym (lookup-remove id j w.pending) ∙ hq))
          (rw other at (sym (lookup-remove id j w.tasks) ∙ ht))
  ];
  told =
      All-append _ w.answers _ f.told
        (told-taken id task value over (f.choices id task present), tt);
}

pub IsOffered-law : IsPermissionLaw any_id any_id IsOffered
IsOffered-law = record {
  refusing = λ id offered w may f. respond-IsOffered id offered w f;
  asking =
      λ spawned id session_id offered w may f. asking-IsOffered spawned id session_id offered w f;
  deciding = deciding-IsOffered;
  expiring = expiring-IsOffered;
  resolving =
      λ id task value w may present over f. resolving-IsOffered id task value w present over f;
}
