-- ===== src/Acp/Laws/Once.antt =====
-- A command that was accepted is never accepted again.
use leave_cli.Prelude.{
  ℕ, suc, ◌≤◌, ◌≡◌, refl, ap, sym, ◌∙◌, inl, inr, Bool, true, false, not, ◌&&◌, List, [], ◌∷◌,
  Result, ok, err, arith, Bool-cases, if◌then◌else◌,
}
use leave_cli.Prelude.Text.{Text, text_eq, text_eq_iff, text_eq_refl}
use leave_cli.Store.{update_session_state}
use leave_cli.Store.Claims.{is_claimed, claimed_by}
use leave_cli.Acp.Events.{Serde, Worker, Stamp, Turn, AcpError, LocalEvent}
use leave_cli.Acp.Sessions.{PromptAccepted, accept_prompt, prompt_value}
use leave_cli.Acp.Loop.{
  Input, create_input, resume_input, prompt_input, cancel_input, turn_end_input, update_input,
  ask_input, decide_input, time_out_input, resolve_input, Reply, no_reply, created_reply,
  unit_reply, prompt_reply, step, run,
}
use leave_cli.Acp.Laws.Stored.{Claimed-IsKept, Claimed-step}
use leave_cli.Acp.Laws.Prompts.{accept_prompt_cases, launched, launch, launch_if, claimed_working}

-- The reply says that a turn of the command was started.
abbrev pub was_accepted : Text → Result AcpError PromptAccepted → Bool
was_accepted id (err e) = false
was_accepted id (ok p) = not p.duplicate && text_eq p.command_id id

abbrev pub is_accepted : Text → Reply → Bool
is_accepted id no_reply = false
is_accepted id (created_reply r) = false
is_accepted id (unit_reply r) = false
is_accepted id (prompt_reply r) = was_accepted id r

abbrev pub accepted : Text → List Reply → ℕ
accepted id [] = 0
accepted id (reply ∷ replies) =
    if is_accepted id reply then suc (accepted id replies) else accepted id replies

module _ {V : Type 0} where
  tables-launched :
      (spawns : Bool) (turn : Turn) (id : Text) (r : Result AcpError (LocalEvent V) × Worker)
      → (launched spawns turn id r).1.tables ≡ r.1.tables
  tables-launched spawns turn id (err e, v) = refl
  tables-launched true turn id (ok event, v) = refl
  tables-launched false turn id (ok event, v) = refl

  accepted-launched :
      (c : Text) (spawns : Bool) (turn : Turn) (id : Text)
      (r : Result AcpError (LocalEvent V) × Worker)
      → was_accepted c (launched spawns turn id r).0 ≡ true
      → id ≡ c
  accepted-launched c spawns turn id (err e, v) h = cc
  accepted-launched c true turn id (ok event, v) h = ground (arith, text_eq_iff id c)
  accepted-launched c false turn id (ok event, v) h = cc

accepted-launch_if :
    (c : Text) (updates : Bool) (claimed : Worker) (r : Result AcpError PromptAccepted × Worker)
    → was_accepted c (launch_if updates claimed r).0 ≡ true
    → was_accepted c r.0 ≡ true
accepted-launch_if c true claimed r h = h
accepted-launch_if c false claimed r h = cc

claimed-launch_if :
    (id : Text) (updates : Bool) (claimed : Worker) (r : Result AcpError PromptAccepted × Worker)
    → is_claimed id claimed.tables ≡ true
    → is_claimed id r.1.tables ≡ true
    → is_claimed id (launch_if updates claimed r).1.tables ≡ true
claimed-launch_if id true claimed r before h = h
claimed-launch_if id false claimed r before h = before

module _ {V : Type 0} (serde : Serde V) (workspace_id : Text) where
  claimed-launch :
      (stamp : Stamp) (now : ℕ) (spawns : Bool) (session_id text id : Text) (w : Worker)
      → is_claimed id (launch serde stamp now spawns workspace_id session_id text id w).1.tables
        ≡ true
  unfolding update_session_state
  claimed-launch stamp now spawns session_id text id w =
      claimed-launch_if id stamp.updates (record w { tables = claimed_by id w.tables }) _
        (rw (text_eq_refl id) refl)
        (ap (is_claimed id) (tables-launched spawns _ id _)
          ∙ (Claimed-IsKept serde id).calm.publishing stamp workspace_id _ _
              (prompt_value serde id text) (claimed_working session_id id now w)
              (rw (text_eq_refl id) refl))

  -- A reply that accepts comes of a command that was not claimed, and leaves it claimed.
  prompt-claims :
      (c : Text) (stamp : Stamp) (now : ℕ) (spawns : Bool) (session_id text id : Text) (w : Worker)
      → let answer = accept_prompt serde stamp now spawns workspace_id session_id text id w in
        was_accepted c answer.0 ≡ true
        → (is_claimed c w.tables ≡ false) × (is_claimed c answer.1.tables ≡ true)
  prompt-claims c stamp now spawns session_id text id w h =
      elim (accept_prompt_cases serde stamp now spawns workspace_id session_id text id w) [
        | inl (e, refused) ↦ cc (ap (λ r. was_accepted c r.0) refused)
        | inr (inl (before, repeated)) ↦ cc (ap (λ r. was_accepted c r.0) repeated)
        | inr (inr (fresh, s, known, idle, started)) ↦
            let same : id ≡ c =
              accepted-launched c spawns (record { session_id = session_id; text = text }) id _
                (accepted-launch_if c stamp.updates _ _
                  (sym (ap (λ r. was_accepted c r.0) started) ∙ h)) in
            (
              ap (λ x. is_claimed x w.tables) (sym same) ∙ fresh,
              ap (λ x. is_claimed c x.1.tables) started
                  ∙ ap
                      (λ x.
                        is_claimed x
                          (launch serde stamp now spawns workspace_id session_id text id
                            w).1.tables)
                      (sym same)
                  ∙ claimed-launch stamp now spawns session_id text id w,
            )
      ]

  step-claims :
      (c : Text) (input : Input V) (w : Worker)
      → is_accepted c (step serde workspace_id input w).0 ≡ true
      → (is_claimed c w.tables ≡ false)
        × (is_claimed c (step serde workspace_id input w).1.tables ≡ true)
  unfolding step
  step-claims c (prompt_input stamp now spawns session_id text id) w h =
      prompt-claims c stamp now spawns session_id text id w h
  step-claims c (create_input stamp now answer title) w h = cc
  step-claims c (resume_input stamp now resumed session_id) w h = cc
  step-claims c (cancel_input stamp now notified session_id) w h = cc
  step-claims c (turn_end_input stamp now i result) w h = cc
  step-claims c (update_input stamp session_id payload) w h = cc
  step-claims c (ask_input stamp spawned id session_id offered request) w h = cc
  step-claims c (decide_input id option_id) w h = cc
  step-claims c (time_out_input id) w h = cc
  step-claims c (resolve_input stamp id) w h = cc

  -- Whatever reaches the worker and in whatever order, at most one prompt with a given command
  -- identifier is answered as newly accepted, and none is if the command was claimed before.
  pub run-accepted :
      (c : Text) (inputs : List (Input V)) (w : Worker)
      → accepted c (run serde workspace_id inputs w).0 ≤ (if is_claimed c w.tables then 0 else 1)
  unfolding run
  run-accepted c [] w = ground arith
  run-accepted c (input ∷ inputs) w =
      let after : Worker = (step serde workspace_id input w).1 in
      let later = run-accepted c inputs after in
      elim (Bool-cases (is_accepted c (step serde workspace_id input w).0)) [
        | inl now ↦ let (fresh, claims) = step-claims c input w now in ground (arith, later)
        | inr other ↦ ground (arith, later, Claimed-step serde c workspace_id input w)
      ]
