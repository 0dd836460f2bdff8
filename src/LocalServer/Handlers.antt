-- ===== src/LocalServer/Handlers.antt =====
-- apps/leave/src/local_server.rs: the handlers of sessions, prompts, permissions, events and files.
-- The agent's answers and the clock are arguments, as in the worker.
use leave_cli.Prelude.{
  ℕ, ◌*◌, Bool, true, false, not, Option, List, [], ◌∷◌, Result, ok, err, ok_or, refuse_if, ◌>>=◌,
  ◌>>◌, map_err, ltb, map, length, if◌then◌else◌,
}
use leave_cli.Prelude.Text.{Text, codes, is_empty}
use leave_cli.Prelude.Chars.{trim, count_chars}
use leave_cli.Crypto.Primitives.{Primitives}
use leave_cli.Store.{
  SessionRecord, EventRecord, Tables, get_session, events_after, session_events_after,
}
use leave_cli.Files.{Disk, Others, FilePath, FileSnapshot, read_text, write_text}
use leave_cli.Acp.Events.{
  Serde, Worker, Stamp, LocalEvent, AgentStatus, AgentState, starting, ready, error, stopped,
  AcpError, from_record,
}
use leave_cli.Acp.Sessions.{PromptAccepted, create_session, resume_session, accept_prompt}
use leave_cli.Acp.Permissions.{cancel_session, decide_permission}
use leave_cli.LocalServer.Errors.{
  ApiError, bad_request, not_found, conflict_error, unavailable, payload_too_large, from_guarded_fs,
}

unfoldable pub require_session : Text → Text → Tables → Result ApiError SessionRecord
require_session workspace_id session_id t =
    ok_or (get_session workspace_id session_id t)
      (not_found (codes "session was not found in this workspace"))

abbrev pub is_ready : AgentState → Bool
is_ready ready = true
is_ready starting = false
is_ready error = false
is_ready stopped = false

unfoldable pub require_ready : {V : Type 0} → AgentStatus V → Result ApiError (Unit {0})
require_ready status = refuse_if (not (is_ready status.state)) (unavailable status.detail)

pub record EventPage (V : Type 0) : Type 0 where
  pub events : List (LocalEvent V)
  pub next_cursor : ℕ

abbrev pub last_sequence : {V : Type 0} → List (LocalEvent V) → ℕ
last_sequence [] = 0
last_sequence (e ∷ []) = e.sequence
last_sequence (e ∷ f ∷ es) = last_sequence (f ∷ es)

module _ {V : Type 0} (serde : Serde V) where
  unfoldable pub event_page : List EventRecord → EventPage V
  event_page records =
      let events = map (from_record serde) records in
      record { events = events; next_cursor = last_sequence events }

  unfoldable pub workspace_events : Text → ℕ → ℕ → Tables → EventPage V
  workspace_events workspace_id after limit t = event_page (events_after workspace_id after limit t)

  unfoldable pub session_events : Text → Text → ℕ → ℕ → Tables → Result ApiError (EventPage V)
  session_events workspace_id session_id after limit t = do
    session ← require_session workspace_id session_id t
    ok (event_page (session_events_after workspace_id session_id after limit t))

  -- The checks in front of the worker, then what the worker answers; `message` is how an error of it
  -- is displayed.
  abbrev pub behind :
      {A : Type 0}
      → Result ApiError (Unit {0})
      → (AcpError → ApiError)
      → (Worker → Result AcpError A × Worker)
      → Worker
      → Result ApiError A × Worker
  behind (err e) failure action w = (err e, w)
  behind (ok _) failure action w = let r = action w in (map_err failure r.0, r.1)

  module _ (workspace_id : Text) (status : AgentStatus V) (message : AcpError → Text) where
    abbrev failure : AcpError → ApiError
    failure e = unavailable (message e)

    abbrev pub known_session : Text → Worker → Result ApiError (Unit {0})
    known_session session_id w = do
      require_ready status
      session ← require_session workspace_id session_id w.tables
      ok tt

    unfoldable pub create_session_handler :
        Stamp → ℕ → Option (Text × V) → Text → Worker → Result ApiError SessionRecord × Worker
    create_session_handler stamp now answer title w =
        behind (require_ready status) failure
          (create_session serde stamp now workspace_id answer title) w

    unfoldable pub resume_session_handler :
        Stamp → ℕ → Bool → Text → Worker → Result ApiError (Unit {0}) × Worker
    resume_session_handler stamp now resumed session_id w =
        behind (known_session session_id w) failure
          (resume_session serde stamp now workspace_id resumed session_id) w

    -- What a prompt must be: it says something, and at most 100,000 characters.
    abbrev pub check_prompt : Text → Result ApiError (Unit {0})
    check_prompt text = do
      refuse_if (is_empty text) (bad_request (codes "prompt cannot be empty"))
      refuse_if (ltb 100000 (count_chars text)) (bad_request (codes "prompt is too large"))

    unfoldable pub prompt_handler :
        Stamp → ℕ → Bool → Text → Text → Text → Worker → Result ApiError PromptAccepted × Worker
    prompt_handler stamp now spawns session_id text command_id w =
        behind (known_session session_id w >> check_prompt (trim text)) failure
          (accept_prompt serde stamp now spawns workspace_id session_id (trim text) command_id) w

    unfoldable pub cancel_handler :
        Stamp → ℕ → Bool → Text → Worker → Result ApiError (Unit {0}) × Worker
    cancel_handler stamp now notified session_id w =
        behind (known_session session_id w) failure
          (cancel_session serde stamp now workspace_id notified session_id) w

    unfoldable pub decide_permission_handler :
        Text → Option Text → Worker → Result ApiError (Unit {0}) × Worker
    decide_permission_handler request_id option_id w =
        behind (ok tt) (λ e. conflict_error (message e)) (decide_permission request_id option_id) w

module _ {D : Type 0} (p : Primitives) (disk : Disk D) (root : FilePath) where
  -- `missing` says of an I/O error that its kind is `NotFound`.
  unfoldable pub read_file : Bool → Text → D → Result ApiError FileSnapshot
  read_file missing path d = map_err (from_guarded_fs missing) (read_text p disk d root path)

  unfoldable pub write_file :
      Bool → Text → Text → Text → Others D → D → Result ApiError FileSnapshot × D
  write_file missing path base_hash content others d =
      if ltb (2 * 1024 * 1024) (length content)
      then (err (payload_too_large (codes "file exceeds the 2 MiB direct-editing limit")), d)
      else (let r = write_text p disk d root path base_hash content others in
          (map_err (from_guarded_fs missing) r.0, r.1))
