-- ===== src/Acp/Laws/Prompts.antt =====
-- Prompts: what becomes of each, and that no command is run twice.
use leave_cli.Prelude.{
  ℕ, ◌≡◌, refl, ◌⊎◌, inl, inr, Bool, true, false, ◌&&◌, some, List, [], ◌∷◌, ◌++◌, Result, ok, err,
  arith, Option-cases, Bool-cases, any, find,
}
use leave_cli.Prelude.Text.{Text, codes, text_eq, is_empty}
use leave_cli.Prelude.Chars.{trim}
use leave_cli.Store.{SessionRecord, new, update_session_state, get_session}
use leave_cli.Store.Claims.{is_claimed, claim_command_lem, claimed_by}
use leave_cli.Acp.Events.{
  Serde, Worker, Stamp, Turn, AcpError, LocalEvent, not_spawned, not_stored, empty_prompt,
  unknown_session, active_turn, ◌>>=◌, ◌>>◌, continue, fail_if, require, done, publish_event,
}
use leave_cli.Acp.Sessions.{
  PromptAccepted, accept_prompt, start_turn, set_state, claim, find_session, spawn_turn,
  prompt_value,
}

abbrev pub working : Text
working = codes "working"

-- The command is claimed and the session's row says that it works.
abbrev pub claimed_working : Text → Text → ℕ → Worker → Worker
claimed_working session_id command_id now w = record w {
  tables = (update_session_state session_id working now (claimed_by command_id w.tables)).1;
}

-- What follows the event of a prompt: the turn is spawned, unless the event or the task failed.
abbrev pub launched :
    {V : Type 0}
    → Bool
    → Turn
    → Text
    → Result AcpError (LocalEvent V) × Worker
    → Result AcpError PromptAccepted × Worker
launched spawns turn command_id (err e, v) = (err e, v)
launched true turn command_id (ok event, v) = (
  ok (record { command_id = command_id; duplicate = false }),
  record v { turns = v.turns ++ turn ∷ [] },
)
launched false turn command_id (ok event, v) = (err not_spawned, v)

-- A failed update of the session's state leaves the command claimed.
abbrev pub launch_if :
    {A : Type 0} → Bool → Worker → Result AcpError A × Worker → Result AcpError A × Worker
launch_if true claimed r = r
launch_if false claimed r = (err not_stored, claimed)

-- A row that `get_session` finds is one that an update by its identifier changes.
get_session-any :
    (workspace_id session_id : Text) (rows : List SessionRecord) (s : SessionRecord)
    → find (λ s. text_eq s.workspace_id workspace_id && text_eq s.session_id session_id) rows
      ≡ some s
    → any (λ s. text_eq s.session_id session_id) rows ≡ true
get_session-any workspace_id session_id [] s h = cc
get_session-any workspace_id session_id (r ∷ rows) s h =
    ground (arith, get_session-any workspace_id session_id rows s)

module _ {V : Type 0} (serde : Serde V) where
  after_event :
      (spawns : Bool) (turn : Turn) (command_id : Text)
      (r : Result AcpError (LocalEvent V) × Worker)
      → continue
          (λ event.
            spawn_turn spawns turn >> done (record { command_id = command_id; duplicate = false }))
          r
        ≡ launched spawns turn command_id r
  unfolding ◌>>=◌ spawn_turn done
  after_event spawns turn command_id (err e, v) = refl
  after_event true turn command_id (ok event, v) = refl
  after_event false turn command_id (ok event, v) = refl

  -- A new command of a session that is not working.
  start_turn-launched :
      (stamp : Stamp) (now : ℕ) (spawns : Bool) (workspace_id session_id text command_id : Text)
      (w : Worker)
      → any (λ s. text_eq s.session_id session_id) w.tables.sessions ≡ true
      → start_turn serde stamp now spawns workspace_id session_id text command_id new w
        ≡ launch_if stamp.updates w (
            launched spawns
              (record { session_id = session_id; text = text })
              command_id
              (publish_event serde stamp workspace_id
                (some session_id)
                (codes "user_prompt")
                (prompt_value serde command_id text)
                (record w { tables = (update_session_state session_id working now w.tables).1 })))
  unfolding start_turn ◌>>=◌ set_state fail_if update_session_state
  start_turn-launched stamp now spawns workspace_id session_id text command_id w known =
      elim (Bool-cases stamp.updates) [
        | inr lost ↦ rw lost refl
        | inl stored ↦
            rw (stored, known)
              (after_event spawns (record { session_id = session_id; text = text }) command_id
                (publish_event serde (record stamp { updates = true }) workspace_id
                  (some session_id) (codes "user_prompt") (prompt_value serde command_id text)
                  (record w { tables = (update_session_state session_id working now w.tables).1 })))
      ]

module _ {V : Type 0} (serde : Serde V) (stamp : Stamp) (now : ℕ) (spawns : Bool)
    (workspace_id session_id text command_id : Text) (w : Worker) where
  -- The worker and the reply once the event of the prompt is stored, or could not be.
  abbrev pub launch : Result AcpError PromptAccepted × Worker
  launch =
      launch_if stamp.updates (record w { tables = claimed_by command_id w.tables })
        (launched spawns (record { session_id = session_id; text = text }) command_id
          (publish_event serde stamp workspace_id (some session_id) (codes "user_prompt")
            (prompt_value serde command_id text) (claimed_working session_id command_id now w)))

  -- A refusal and a repeated command change nothing; any other prompt is launched.
  pub accept_prompt_cases :
      let answer = accept_prompt serde stamp now spawns workspace_id session_id text command_id w in
      ((e : AcpError) × (answer ≡ (err e, w)))
      ⊎ ((is_claimed command_id w.tables ≡ true)
          × (answer ≡ (ok (record { command_id = command_id; duplicate = true }), w)))
      ⊎ ((is_claimed command_id w.tables ≡ false)
          × (s : SessionRecord) × (get_session workspace_id session_id w.tables ≡ some s)
          × (text_eq s.state working ≡ false)
          × (answer ≡ launch))
  unfolding accept_prompt ◌>>=◌ fail_if find_session require claim done start_turn get_session
  accept_prompt_cases = elim (Bool-cases (is_empty (trim text))) [
    | inl blank ↦ inl (empty_prompt, rw blank refl)
    | inr given ↦ elim (Bool-cases stamp.finds) [
      | inr lost ↦ inl (not_stored, rw (given, lost) refl)
      | inl sought ↦ elim (Option-cases (get_session workspace_id session_id w.tables)) [
        | inl unknown ↦ inl (unknown_session, rw (given, sought, unknown) refl)
        | inr (s, known) ↦ elim (Bool-cases (text_eq s.state working)) [
          | inl busy ↦ inl (active_turn, rw (given, sought, known, busy) refl)
          | inr idle ↦ elim (Bool-cases stamp.claims) [
            | inr lost ↦ inl (not_stored, rw (given, sought, known, idle, lost) refl)
            | inl stored ↦ elim (claim_command_lem command_id w.tables) [
              | inl (before, repeated) ↦
                  inr (inl (before, rw (given, sought, known, idle, stored, repeated) refl))
              | inr (fresh, first) ↦ inr (
                  inr (
                    fresh,
                    s,
                    known,
                    idle,
                    rw (given, sought, known, idle, stored, first)
                        (start_turn-launched serde (record stamp { claims = true; finds = true })
                          now spawns workspace_id session_id text command_id
                          (record w { tables = claimed_by command_id w.tables })
                          (get_session-any workspace_id session_id w.tables.sessions s known)),
                  ))
            ]
          ]
        ]
      ]
    ]
  ]
