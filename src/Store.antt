-- ===== src/Store.antt =====
-- crates/leave-core/src/event_store.rs, with the tables of migrations/host.sql: each SQL statement
-- as what it does to the rows. An identifier or a path is its text; `none` is an error of SQLite,
-- which leaves the tables as they were. Times are what the clock says, in milliseconds.
pub mod Claims
pub mod Invariant
pub mod Replay
pub mod Reachable
mod Tests
use leave_cli.Prelude.{
  ℕ, ◌+◌, ◌-◌, ◌^◌, min, Bool, true, false, not, ◌&&◌, ◌||◌, Option, none, some, List, [], ◌∷◌,
  ◌++◌, ltb, leb, map, keep, any, find, take, if◌then◌else◌, length, is_some,
}
use leave_cli.Prelude.Text.{Text, codes, text_eq}
use leave_cli.Crypto.Error.{Bytes}

pub record WorkspaceRecord : Type 0 where
  pub id : Text
  pub name : Text
  pub canonical_path : Text
  pub expose_history : Bool
  pub expose_project_customization : Bool
  pub expose_global_customization : Bool

pub record SessionRecord : Type 0 where
  pub session_id : Text
  pub workspace_id : Text
  pub title : Text
  pub state : Text
  pub created_at : ℕ
  pub updated_at : ℕ

pub record EventRecord : Type 0 where
  pub sequence : ℕ
  pub event_id : Text
  pub workspace_id : Text
  pub session_id : Option Text
  pub kind : Text
  pub occurred_at : ℕ
  pub payload : Bytes

pub data CommandClaim : Type 0 where
  new duplicate : CommandClaim

-- The tables. `last_sequence` is what AUTOINCREMENT remembers: the largest sequence ever given.
pub record Tables : Type 0 where
  pub workspaces : List WorkspaceRecord
  pub claims : List Text
  pub last_sequence : ℕ
  pub events : List EventRecord
  pub sessions : List SessionRecord

abbrev pub has_workspace : Text → Tables → Bool
has_workspace id t = any (λ w. text_eq w.id id) t.workspaces

abbrev replace_workspace : WorkspaceRecord → WorkspaceRecord → WorkspaceRecord
replace_workspace new_row row = if text_eq row.id new_row.id then new_row else row

-- `ON CONFLICT(id) DO UPDATE`; the path is UNIQUE among the other rows.
unfoldable pub upsert_workspace : WorkspaceRecord → Tables → Option Tables
upsert_workspace w t =
    if any (λ row. text_eq row.canonical_path w.canonical_path && not (text_eq row.id w.id))
      t.workspaces
    then none
    else some (record {
      workspaces =
          if has_workspace w.id t
          then map (replace_workspace w) t.workspaces
          else t.workspaces ++ w ∷ [];
      claims = t.claims;
      last_sequence = t.last_sequence;
      events = t.events;
      sessions = t.sessions;
    })

-- Both foreign keys say ON DELETE CASCADE.
unfoldable pub remove_workspace : Text → Tables → Bool × Tables
remove_workspace id t = (
  has_workspace id t,
  record {
    workspaces = keep (λ w. not (text_eq w.id id)) t.workspaces;
    claims = t.claims;
    last_sequence = t.last_sequence;
    events = keep (λ e. not (text_eq e.workspace_id id)) t.events;
    sessions = keep (λ s. not (text_eq s.workspace_id id)) t.sessions;
  },
)

abbrev with_sessions : List SessionRecord → Tables → Tables
with_sessions sessions t = record {
  workspaces = t.workspaces;
  claims = t.claims;
  last_sequence = t.last_sequence;
  events = t.events;
  sessions = sessions;
}

-- A conflicting row keeps the time at which it was created.
abbrev replace_session : SessionRecord → SessionRecord → SessionRecord
replace_session s row =
    if text_eq row.session_id s.session_id
    then record {
      session_id = row.session_id;
      workspace_id = s.workspace_id;
      title = s.title;
      state = s.state;
      created_at = row.created_at;
      updated_at = s.updated_at;
    }
    else row

unfoldable pub upsert_session : SessionRecord → Tables → Option Tables
upsert_session s t =
    if not (has_workspace s.workspace_id t)
    then none
    else some (
        with_sessions
          (if any (λ row. text_eq row.session_id s.session_id) t.sessions
            then map (replace_session s) t.sessions
            else t.sessions ++ s ∷ [])
          t)

abbrev with_state : Text → ℕ → SessionRecord → SessionRecord
with_state state now s = record {
  session_id = s.session_id;
  workspace_id = s.workspace_id;
  title = s.title;
  state = state;
  created_at = s.created_at;
  updated_at = now;
}

unfoldable pub update_session_state : Text → Text → ℕ → Tables → Bool × Tables
update_session_state session_id state now t = (
  any (λ s. text_eq s.session_id session_id) t.sessions,
  with_sessions
      (map (λ s. if text_eq s.session_id session_id then with_state state now s else s) t.sessions)
      t,
)

unfoldable pub mark_workspace_sessions_offline : Text → Tables → ℕ × Tables
mark_workspace_sessions_offline id t = (
  length (keep (λ s. text_eq s.workspace_id id) t.sessions),
  with_sessions
      (map
        (λ s. if text_eq s.workspace_id id then with_state (codes "offline") s.updated_at s else s)
        t.sessions)
      t,
)

unfoldable pub get_session : Text → Text → Tables → Option SessionRecord
get_session id session_id t =
    find (λ s. text_eq s.workspace_id id && text_eq s.session_id session_id) t.sessions

-- `INSERT OR IGNORE`; the time of a claim is never read.
unfoldable pub claim_command : Text → Tables → CommandClaim × Tables
claim_command id t = if any (λ c. text_eq c id) t.claims then (duplicate, t) else (
  new,
  record {
    workspaces = t.workspaces;
    claims = id ∷ t.claims;
    last_sequence = t.last_sequence;
    events = t.events;
    sessions = t.sessions;
  },
)

abbrev pub max_sequence : ℕ
max_sequence = 2 ^ 63 - 1

abbrev pub made_event : Text → Option Text → Text → Bytes → Text → ℕ → Tables → EventRecord
made_event workspace_id session_id kind payload event_id now t = record {
  sequence = t.last_sequence + 1;
  event_id = event_id;
  workspace_id = workspace_id;
  session_id = session_id;
  kind = kind;
  occurred_at = now;
  payload = payload;
}

-- `event_id` and `now` are the fresh identifier and the time.
unfoldable pub append_event :
    Text → Option Text → Text → Bytes → Text → ℕ → Tables → Option (EventRecord × Tables)
append_event workspace_id session_id kind payload event_id now t =
    let made = made_event workspace_id session_id kind payload event_id now t in
    if not (has_workspace workspace_id t)
      || any (λ e. text_eq e.event_id event_id) t.events
      || leb max_sequence t.last_sequence
    then none
    else some (
      made,
      record {
        workspaces = t.workspaces;
        claims = t.claims;
        last_sequence = t.last_sequence + 1;
        events = t.events ++ made ∷ [];
        sessions = t.sessions;
      },
    )

abbrev pub is_after : Text → ℕ → EventRecord → Bool
is_after id cursor e = text_eq e.workspace_id id && ltb cursor e.sequence

-- The rows are kept in the order of their sequence. A negative cursor acts as 0.
unfoldable pub events_after : Text → ℕ → ℕ → Tables → List EventRecord
events_after id cursor limit t = take (min limit 1000) (keep (is_after id cursor) t.events)

abbrev pub of_session : Text → Option Text → Bool
of_session session_id none = false
of_session session_id (some s) = text_eq s session_id

unfoldable pub session_events_after : Text → Text → ℕ → ℕ → Tables → List EventRecord
session_events_after id session_id cursor limit t =
    take (min limit 1000)
      (keep (λ e. is_after id cursor e && of_session session_id e.session_id) t.events)
