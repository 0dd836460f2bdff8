-- ===== src/Acp/Sessions.antt =====
-- apps/leave/src/acp.rs: sessions and prompts. What the agent answers to a request is an argument:
-- `none` where it refuses or the connection fails.
use leave_cli.Prelude.{
  ℕ, if◌then◌else◌, Bool, true, false, not, Option, none, some, [], ◌∷◌, ◌++◌, ok, err, Result,
}
use leave_cli.Prelude.Text.{Text, codes, text_eq, is_empty}
use leave_cli.Prelude.Chars.{trim, take_chars}
use leave_cli.Store.{
  SessionRecord, CommandClaim, new, duplicate, Tables, upsert_session, get_session,
  update_session_state, claim_command,
}
use leave_cli.Acp.Events.{
  Serde, Stamp, Turn, rejected_session, not_resumed, empty_prompt, unknown_session, active_turn,
  vanished, not_stored, not_spawned, Action, ◌>>=◌, ◌>>◌, done, fail_if, require, ignore,
  publish_event,
}

unfoldable pub normalize_title : Text → Text
normalize_title title =
    if is_empty (trim title) then codes "New Devin session" else take_chars 120 (trim title)

pub record PromptAccepted : Type 0 where
  pub command_id : Text
  pub duplicate : Bool

-- A statement of the store that may fail, and one that counts the rows it changed.
unfoldable pub store_result : Option Tables → Action (Unit {0})
store_result none w = (err not_stored, w)
store_result (some after) w = (ok tt, record w { tables = after })

unfoldable pub save_session : Bool → SessionRecord → Action (Unit {0})
save_session false s w = (err not_stored, w)
save_session true s w = store_result (upsert_session s w.tables) w

-- `update_session_state`; the first argument says whether SQLite carries it out.
unfoldable pub set_state : Bool → Text → Text → ℕ → Action Bool
set_state false session_id state now w = (err not_stored, w)
set_state true session_id state now w =
    let (changed, after) = update_session_state session_id state now w.tables in
    (ok changed, record w { tables = after })

-- `claim_command`, likewise.
unfoldable pub claim : Bool → Text → Action CommandClaim
claim false command_id w = (err not_stored, w)
claim true command_id w =
    let (answer, after) = claim_command command_id w.tables in
    (ok answer, record w { tables = after })

unfoldable pub find_session : Bool → Text → Text → Action SessionRecord
find_session false workspace_id session_id w = (err not_stored, w)
find_session true workspace_id session_id w =
    require (get_session workspace_id session_id w.tables) unknown_session w

-- `connection.spawn` of the task that runs the turn.
unfoldable pub spawn_turn : Bool → Turn → Action (Unit {0})
spawn_turn false turn w = (err not_spawned, w)
spawn_turn true turn w = (ok tt, record w { turns = w.turns ++ turn ∷ [] })

abbrev pub is_duplicate : CommandClaim → Bool
is_duplicate new = false
is_duplicate duplicate = true

module _ {V : Type 0} (serde : Serde V) where
  abbrev session_value : SessionRecord → V
  session_value s = serde.object (
      (codes "sessionId", serde.text s.session_id)
      ∷ (codes "workspaceId", serde.text s.workspace_id)
      ∷ (codes "title", serde.text s.title)
      ∷ (codes "state", serde.text s.state)
      ∷ (codes "createdAtUnixMs", serde.number s.created_at)
      ∷ (codes "updatedAtUnixMs", serde.number s.updated_at)
      ∷ [])

  abbrev pub session_id_value : Text → V
  session_id_value session_id = serde.object ((codes "sessionId", serde.text session_id) ∷ [])

  -- `create_session`: the agent gives the identifier, and its answer as a value.
  unfoldable pub create_session : Stamp → ℕ → Text → Option (Text × V) → Text → Action SessionRecord
  create_session stamp now workspace_id answer title = do
    given ← require answer rejected_session
    let session : SessionRecord = record {
      session_id = given.0;
      workspace_id = workspace_id;
      title = normalize_title title;
      state = codes "idle";
      created_at = now;
      updated_at = now;
    }
    save_session stamp.saves session
    event ←
        publish_event serde stamp workspace_id (some given.0) (codes "session_created")
          (serde.object ((codes "session", session_value session) ∷ (codes "acp", given.1) ∷ []))
    done session

  -- `resume_session`; a missing row is not noticed.
  unfoldable pub resume_session : Stamp → ℕ → Text → Bool → Text → Action (Unit {0})
  resume_session stamp now workspace_id resumed session_id = do
    fail_if (not resumed) not_resumed
    changed ← set_state stamp.updates session_id (codes "idle") now
    event ←
        publish_event serde stamp workspace_id (some session_id) (codes "session_resumed")
          (session_id_value session_id)
    done tt

  abbrev pub prompt_value : Text → Text → V
  prompt_value command_id text =
      serde.object
        ((codes "commandId", serde.text command_id) ∷ (codes "text", serde.text text) ∷ [])

  -- What `accept_prompt` does once the command is claimed.
  unfoldable pub start_turn :
      Stamp → ℕ → Bool → Text → Text → Text → Text → CommandClaim → Action PromptAccepted
  start_turn stamp now spawns workspace_id session_id text command_id duplicate =
      done (record { command_id = command_id; duplicate = true })
  start_turn stamp now spawns workspace_id session_id text command_id new = do
    changed ← set_state stamp.updates session_id (codes "working") now
    fail_if (not changed) vanished
    event ←
        publish_event serde stamp workspace_id (some session_id) (codes "user_prompt")
          (prompt_value command_id text)
    spawn_turn spawns (record { session_id = session_id; text = text })
    done (record { command_id = command_id; duplicate = false })

  -- `accept_prompt`; `spawns` says whether the connection takes the task.
  unfoldable pub accept_prompt :
      Stamp → ℕ → Bool → Text → Text → Text → Text → Action PromptAccepted
  accept_prompt stamp now spawns workspace_id session_id text command_id = do
    fail_if (is_empty (trim text)) empty_prompt
    session ← find_session stamp.finds workspace_id session_id
    fail_if (text_eq session.state (codes "working")) active_turn
    answer ← claim stamp.claims command_id
    start_turn stamp now spawns workspace_id session_id text command_id answer

  -- The kind of the event that ends a turn, and its payload.
  abbrev completion : Result Text V → Text × V
  completion (ok response) = (codes "prompt_completed", response)
  completion (err message) =
      (codes "prompt_failed", serde.object ((codes "message", serde.text message) ∷ []))

  -- The end of the task of one turn: the row first, then the event; neither failure stops it.
  unfoldable pub finish_turn : Stamp → ℕ → Text → Turn → Result Text V → Action (Unit {0})
  finish_turn stamp now workspace_id turn result = do
    ignore (set_state stamp.updates turn.session_id (codes "idle") now)
    ignore (
        publish_event serde stamp workspace_id (some turn.session_id) (completion result).0
          (completion result).1)
