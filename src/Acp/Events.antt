-- ===== src/Acp/Events.antt =====
-- apps/leave/src/acp.rs: the worker's state, and how an event is appended and then fanned out.
-- What serde_json does is a parameter.
use leave_cli.Prelude.{
  ℕ, ◌+◌, ◌*◌, ◌/◌, ◌%◌, Bool, true, false, Option, none, some, List, [], ◌∷◌, ◌++◌, length, Result,
  err, ok,
}
use leave_cli.Prelude.Text.{Text, codes}
use leave_cli.Prelude.Maps.{Assoc}
use leave_cli.Crypto.Error.{Bytes}
use leave_cli.Store.{EventRecord, Tables, append_event}

-- `serde_json`: its values, how they are built, written and read.
pub record Serde (V : Type 0) : Type 0 where
  pub text : Text → V
  pub number : ℕ → V
  pub boolean : Bool → V
  pub null : V
  pub object : List (Text × V) → V
  pub to_vec : V → Option Bytes
  pub from_slice : Bytes → Option V

pub record LocalEvent (V : Type 0) : Type 0 where
  pub sequence : ℕ
  pub event_id : Text
  pub workspace_id : Text
  pub session_id : Option Text
  pub kind : Text
  pub occurred_at_unix_ms : ℕ
  pub payload : V

pub data AcpError : Type 0 where
  rejected_session not_resumed empty_prompt unknown_session active_turn vanished : AcpError
  not_cancelled not_encoded not_stored not_spawned : AcpError
  not_pending not_an_option expired : AcpError

pub data AgentState : Type 0 where
  starting ready error stopped : AgentState

pub record AgentStatus (V : Type 0) : Type 0 where
  pub state : AgentState
  pub detail : Text
  pub agent_info : Option V
  pub capabilities : Option V

-- What a `oneshot` channel holds while its receiver waits: `closed` once the receiver is dropped.
pub data Channel : Type 0 where
  open_channel closed : Channel
  sent : Option Text → Channel

pub record PendingPermission : Type 0 where
  pub session_id : Text
  pub option_ids : List Text

-- The spawned task that waits for the decision on one request.
pub record WaitingTask : Type 0 where
  pub session_id : Text
  pub option_ids : List Text
  pub decision : Channel

pub data Outcome : Type 0 where
  cancelled : Outcome
  selected : Text → Outcome

-- What the worker responds to a request, whether or not the connection takes it.
pub record Answer : Type 0 where
  pub request_id : Text
  pub option_ids : List Text
  pub outcome : Outcome

-- A spawned turn: the prompt that the agent works on.
pub record Turn : Type 0 where
  pub session_id : Text
  pub text : Text

-- `published` is what the subscribers were sent, as records, oldest first.
pub record Worker : Type 0 where
  pub tables : Tables
  pub published : List EventRecord
  pub turns : List Turn
  pub pending : Assoc PendingPermission
  pub tasks : Assoc WaitingTask
  pub answers : List Answer

-- What one handler gets from outside: the fresh identifier and the time of its event, whether SQLite
-- carries out its statements (an update of sessions, the claim of a command, the append of an event,
-- the upsert and the search of a session), and whether the connection takes a response.
pub record Stamp : Type 0 where
  pub event_id : Text
  pub now : ℕ
  pub updates : Bool
  pub claims : Bool
  pub appends : Bool
  pub saves : Bool
  pub finds : Bool
  pub responds : Bool

-- A fallible operation on the worker; what was changed before a failure stays.
abbrev pub Action : Type 0 → Type 0
Action A = Worker → Result AcpError A × Worker

module _ {A B : Type 0} where
  abbrev pub continue : (A → Action B) → Result AcpError A × Worker → Result AcpError B × Worker
  continue next (err e, w) = (err e, w)
  continue next (ok a, w) = next a w

  infixl 5 ◌>>=◌
  unfoldable pub ◌>>=◌ : Action A → (A → Action B) → Action B
  ◌>>=◌ m next w = continue next (m w)

module _ {B : Type 0} where
  infixl 5 ◌>>◌
  abbrev pub ◌>>◌ : Action (Unit {0}) → Action B → Action B
  m >> next = m >>= λ _. next

unfoldable pub done : {A : Type 0} → A → Action A
done a w = (ok a, w)

unfoldable pub fail_if : Bool → AcpError → Action (Unit {0})
fail_if true e w = (err e, w)
fail_if false e w = (ok tt, w)

unfoldable pub require : {A : Type 0} → Option A → AcpError → Action A
require none e w = (err e, w)
require (some a) e w = (ok a, w)

-- A failure that is only logged.
unfoldable pub ignore : {A : Type 0} → Action A → Action (Unit {0})
ignore m w = (ok tt, (m w).1)

module _ {V : Type 0} (serde : Serde V) where
  abbrev pub starting_status : Text → AgentStatus V
  starting_status command = record {
    state = starting;
    detail = codes "Starting ACP agent with `" ++ command ++ codes "`";
    agent_info = none;
    capabilities = none;
  }

  -- The payload, or a note that it could not be parsed.
  abbrev pub readable : Bytes → Option V → V
  readable bytes (some value) = value
  readable bytes none = serde.object (
      (codes "unparseablePayload", serde.boolean true)
      ∷ (codes "size", serde.number (length bytes))
      ∷ [])

  -- `LocalEvent::from_record`: whole seconds and the milliseconds of the rest.
  unfoldable pub from_record : EventRecord → LocalEvent V
  from_record e = record {
    sequence = e.sequence;
    event_id = e.event_id;
    workspace_id = e.workspace_id;
    session_id = e.session_id;
    kind = e.kind;
    occurred_at_unix_ms = e.occurred_at / 1000 * 1000 + e.occurred_at % 1000;
    payload = readable e.payload (serde.from_slice e.payload);
  }

  -- What the store made of an append, if SQLite carried it out, and the fan-out of the record.
  abbrev announced :
      Bool → Worker → Option (EventRecord × Tables) → Result AcpError (LocalEvent V) × Worker
  announced false w appended = (err not_stored, w)
  announced true w none = (err not_stored, w)
  announced true w (some (made, after)) =
      (ok (from_record made), record w { tables = after; published = w.published ++ made ∷ [] })

  -- `publish_event`.
  unfoldable pub publish_event : Stamp → Text → Option Text → Text → V → Action (LocalEvent V)
  publish_event stamp workspace_id session_id kind payload w = elim (serde.to_vec payload) [
    | none ↦ (err not_encoded, w)
    | some bytes ↦
        announced stamp.appends w
          (append_event workspace_id session_id kind bytes stamp.event_id stamp.now w.tables)
  ]
