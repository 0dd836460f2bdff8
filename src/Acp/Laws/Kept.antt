-- ===== src/Acp/Laws/Kept.antt =====
-- A relation between the worker before and after holds over every run once it holds of the
-- statements of the store and of publishing.
use leave_cli.Prelude.{ℕ, ◌≡◌, Bool, true, false, Option, none, some, List, Result, ok, err}
use leave_cli.Prelude.Text.{Text}
use leave_cli.Store.{
  SessionRecord, Tables, CommandClaim, new, duplicate, upsert_session, update_session_state,
  claim_command, mark_workspace_sessions_offline, get_session,
}
use leave_cli.Acp.Events.{
  Serde, Worker, Stamp, Turn, AcpError, Action, ◌>>=◌, continue, publish_event, fail_if, require,
  done, ignore,
}
use leave_cli.Acp.Sessions.{
  create_session, resume_session, accept_prompt, finish_turn, store_result, save_session, set_state,
  claim, find_session, spawn_turn, start_turn,
}

-- A worker with other tables.
abbrev pub with_tables : Tables → Worker → Worker
with_tables t w = record w { tables = t }

abbrev pub saved : Worker → Option Tables → Worker
saved w none = w
saved w (some t) = with_tables t w

-- The relation `R` is transitive, and holds over each change of tables, over each event that is
-- published, and where only turns change.
pub record IsCalm {V : Type 0} (serde : Serde V) (R : Worker → Worker → Type 0) : Type 0 where
  pub trans : (u v w : Worker) → R u v → R v w → R u w
  pub stay : (w : Worker) → R w w
  pub turning : (turns : List Turn) (w : Worker) → R w (record w { turns = turns })
  pub saving : (s : SessionRecord) (w : Worker) → R w (saved w (upsert_session s w.tables))
  pub setting :
      (session_id state : Text) (now : ℕ) (w : Worker)
      → R w (with_tables (update_session_state session_id state now w.tables).1 w)
  pub claiming : (id : Text) (w : Worker) → R w (with_tables (claim_command id w.tables).1 w)
  pub closing :
      (id : Text) (w : Worker) → R w (with_tables (mark_workspace_sessions_offline id w.tables).1 w)
  pub publishing :
      (stamp : Stamp) (workspace_id : Text) (session_id : Option Text) (kind : Text) (payload : V)
      (w : Worker)
      → R w (publish_event serde stamp workspace_id session_id kind payload w).1

-- It holds besides wherever neither tables nor events change.
pub record IsKept {V : Type 0} (serde : Serde V) (R : Worker → Worker → Type 0) : Type 0 where
  pub calm : IsCalm serde R
  pub same : (v w : Worker) → w.tables ≡ v.tables → w.published ≡ v.published → R v w

module _ {V : Type 0} (serde : Serde V) (R : Worker → Worker → Type 0) (kept : IsCalm serde R) where
  abbrev pub Keeps : {A : Type 0} → Action A → Type 0
  Keeps m = (w : Worker) → R w (m w).1

  pub stays : (w : Worker) → R w w
  stays w = kept.stay w

  continued :
      {A B : Type 0} (next : A → Action B) (r : Result AcpError A × Worker) (w : Worker)
      → R w r.1
      → ((a : A) → Keeps (next a))
      → R w (continue next r).1
  continued next (err e, v) w h k = h
  continued next (ok a, v) w h k = kept.trans w v _ h (k a v)

  pub chained :
      {A B : Type 0} (m : Action A) (next : A → Action B)
      → Keeps m
      → ((a : A) → Keeps (next a))
      → Keeps (m >>= next)
  unfolding ◌>>=◌
  chained m next h k w = continued next (m w) w (h w) k

  pub failing : (b : Bool) (e : AcpError) → Keeps (fail_if b e)
  unfolding fail_if
  failing true e w = stays w
  failing false e w = stays w

  requiring : {A : Type 0} (o : Option A) (e : AcpError) → Keeps (require o e)
  unfolding require
  requiring none e w = stays w
  requiring (some a) e w = stays w

  pub finishing : {A : Type 0} (a : A) → Keeps (done a)
  unfolding done
  finishing a w = stays w

  ignoring : {A : Type 0} (m : Action A) → Keeps m → Keeps (ignore m)
  unfolding ignore
  ignoring m h w = h w

  storing : (o : Option Tables) (w : Worker) → R w (saved w o) → R w (store_result o w).1
  unfolding store_result
  storing none w h = h
  storing (some t) w h = h

  saving : (saves : Bool) (s : SessionRecord) → Keeps (save_session saves s)
  unfolding save_session
  saving false s w = stays w
  saving true s w = storing (upsert_session s w.tables) w (kept.saving s w)

  pub setting :
      (updates : Bool) (session_id state : Text) (now : ℕ)
      → Keeps (set_state updates session_id state now)
  unfolding set_state
  setting true session_id state now w = kept.setting session_id state now w
  setting false session_id state now w = stays w

  claiming : (claims : Bool) (id : Text) → Keeps (claim claims id)
  unfolding claim
  claiming true id w = kept.claiming id w
  claiming false id w = stays w

  finding :
      (finds : Bool) (workspace_id session_id : Text)
      → Keeps (find_session finds workspace_id session_id)
  unfolding find_session
  finding false workspace_id session_id w = stays w
  finding true workspace_id session_id w =
      requiring (get_session workspace_id session_id w.tables) _ w

  spawning : (spawns : Bool) (turn : Turn) → Keeps (spawn_turn spawns turn)
  unfolding spawn_turn
  spawning true turn w = kept.turning _ w
  spawning false turn w = stays w

  pub create_session-Kept :
      (stamp : Stamp) (now : ℕ) (workspace_id : Text) (answer : Option (Text × V)) (title : Text)
      → Keeps (create_session serde stamp now workspace_id answer title)
  unfolding create_session
  create_session-Kept stamp now workspace_id answer title =
      chained _ _ (requiring answer _) λ given.
        chained _ _ (saving _ _)
          λ _. chained _ _ (kept.publishing stamp workspace_id _ _ _) λ event. finishing _

  pub resume_session-Kept :
      (stamp : Stamp) (now : ℕ) (workspace_id : Text) (resumed : Bool) (session_id : Text)
      → Keeps (resume_session serde stamp now workspace_id resumed session_id)
  unfolding resume_session
  resume_session-Kept stamp now workspace_id resumed session_id = chained _ _ (failing _ _) λ _.
      chained _ _ (setting _ _ _ now)
        λ changed. chained _ _ (kept.publishing stamp workspace_id _ _ _) λ event. finishing _

  start_turn-Kept :
      (stamp : Stamp) (now : ℕ) (spawns : Bool) (workspace_id session_id text command_id : Text)
      (answer : CommandClaim)
      → Keeps (start_turn serde stamp now spawns workspace_id session_id text command_id answer)
  unfolding start_turn
  start_turn-Kept stamp now spawns workspace_id session_id text command_id duplicate = finishing _
  start_turn-Kept stamp now spawns workspace_id session_id text command_id new =
      chained _ _ (setting _ _ _ now) λ changed. chained _ _ (failing _ _) λ _.
        chained _ _ (kept.publishing stamp workspace_id _ _ _)
          λ event. chained _ _ (spawning spawns _) λ _. finishing _

  pub accept_prompt-Kept :
      (stamp : Stamp) (now : ℕ) (spawns : Bool) (workspace_id session_id text command_id : Text)
      → Keeps (accept_prompt serde stamp now spawns workspace_id session_id text command_id)
  unfolding accept_prompt
  accept_prompt-Kept stamp now spawns workspace_id session_id text command_id =
      chained _ _ (failing _ _) λ _. chained _ _ (finding _ workspace_id session_id) λ session.
        chained _ _ (failing _ _) λ _.
          chained _ _ (claiming _ command_id) λ answer.
            start_turn-Kept stamp now spawns workspace_id session_id text command_id answer

  pub finish_turn-Kept :
      (stamp : Stamp) (now : ℕ) (workspace_id : Text) (turn : Turn) (result : Result Text V)
      → Keeps (finish_turn serde stamp now workspace_id turn result)
  unfolding finish_turn
  finish_turn-Kept stamp now workspace_id turn result =
      chained _ _ (ignoring _ (setting _ _ _ now))
        λ _. ignoring _ (kept.publishing stamp workspace_id _ _ _)
