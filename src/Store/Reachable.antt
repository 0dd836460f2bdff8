-- ===== src/Store/Reachable.antt =====
-- The tables that the operations can reach.
use leave_cli.Prelude.{
  inl, inr, ℕ, ◌+◌, ◌≤◌, sym, not, ◌&&◌, Option, none, some, List, [], ◌∷◌, ◌++◌, arith, All,
  All-append, All-keep, any, map, Bool-cases, if◌then◌else◌, leb,
}
use mathlib.Core.Path.{subst}
use leave_cli.Prelude.Text.{Text, text_eq, codes}
use leave_cli.Crypto.Error.{Bytes}
use leave_cli.Store.{
  WorkspaceRecord, SessionRecord, Tables, max_sequence, has_workspace, upsert_workspace,
  remove_workspace, upsert_session, update_session_state, mark_workspace_sessions_offline,
  claim_command, append_event, made_event, replace_workspace, replace_session, with_state,
  with_sessions,
}
use leave_cli.Store.Claims.{claim_command_lem}
use leave_cli.Store.Invariant.{
  IsConsistent, IsOwned, All-weaken, All-map, All-keep_where, IsAscending-keep, IsAscending-append,
  IsOwned-append, IsOwned-replace, IsOwned-keep, with_workspaces,
}

-- A failed operation leaves the tables.
abbrev pub or_same : Tables → Option Tables → Tables
or_same t none = t
or_same t (some after) = after

module _ (t : Tables) (c : IsConsistent t) where
  upsert_workspace-IsConsistent :
      (w : WorkspaceRecord) → IsConsistent (or_same t (upsert_workspace w t))
  unfolding upsert_workspace
  upsert_workspace-IsConsistent w =
      elim (Bool-cases (
        any (λ row. text_eq row.canonical_path w.canonical_path && not (text_eq row.id w.id))
          t.workspaces)) [
            | inl taken ↦ rw taken c
            | inr free ↦ elim (Bool-cases (has_workspace w.id t)) [
              | inl known ↦
                  rw (free, known)
                    (with_workspaces t.workspaces (map (replace_workspace w) t.workspaces)
                      (λ id h. IsOwned-replace t.workspaces w id h) t.claims t.last_sequence
                      t.events t.sessions c)
              | inr fresh ↦
                  rw (free, fresh)
                    (with_workspaces t.workspaces (t.workspaces ++ w ∷ [])
                      (λ id h. IsOwned-append t.workspaces w id h) t.claims t.last_sequence t.events
                      t.sessions c)
            ]
          ]

  remove_workspace-IsConsistent : (id : Text) → IsConsistent (remove_workspace id t).1
  unfolding remove_workspace
  remove_workspace-IsConsistent id = record {
    ascending = IsAscending-keep _ t.events c.ascending;
    given = All-keep _ _ t.events c.given;
    fits = c.fits;
    event_owners =
        All-keep_where _ _ _
          (λ e other h. IsOwned-keep t.workspaces id e.workspace_id (ground arith) h) t.events
          c.event_owners;
    session_owners =
        All-keep_where _ _ _
          (λ s other h. IsOwned-keep t.workspaces id s.workspace_id (ground arith) h) t.sessions
          c.session_owners;
  }

  with_sessions-IsConsistent :
      (ss : List SessionRecord)
      → All (λ s. IsOwned t.workspaces s.workspace_id) ss
      → IsConsistent (with_sessions ss t)
  with_sessions-IsConsistent ss owned = record {
    ascending = c.ascending;
    given = c.given;
    fits = c.fits;
    event_owners = c.event_owners;
    session_owners = owned;
  }

  replaced-IsOwned :
      (s row : SessionRecord)
      → IsOwned t.workspaces s.workspace_id
      → IsOwned t.workspaces row.workspace_id
      → IsOwned t.workspaces (replace_session s row).workspace_id
  replaced-IsOwned s row hs hr = elim (Bool-cases (text_eq row.session_id s.session_id)) [
    | inl same ↦ rw same hs
    | inr other ↦ rw other hr
  ]

  upsert_session-IsConsistent : (s : SessionRecord) → IsConsistent (or_same t (upsert_session s t))
  unfolding upsert_session
  upsert_session-IsConsistent s = elim (Bool-cases (has_workspace s.workspace_id t)) [
    | inr unknown ↦ rw unknown c
    | inl owned ↦ elim (Bool-cases (any (λ row. text_eq row.session_id s.session_id) t.sessions)) [
      | inl known ↦
          rw (owned, known)
            (with_sessions-IsConsistent _ (
              All-map _ (replace_session s) (λ row h. replaced-IsOwned s row owned h) t.sessions
                c.session_owners))
      | inr fresh ↦
          rw (owned, fresh)
            (with_sessions-IsConsistent _
              (All-append _ t.sessions (s ∷ []) c.session_owners (owned, tt)))
    ]
  ]

  update_session_state-IsConsistent :
      (session_id state : Text) (now : ℕ)
      → IsConsistent (update_session_state session_id state now t).1
  unfolding update_session_state
  update_session_state-IsConsistent session_id state now =
      with_sessions-IsConsistent _ (All-map _ _ (λ s h. kept s h) t.sessions c.session_owners)
    where
      kept :
          (s : SessionRecord)
          → IsOwned t.workspaces s.workspace_id
          → IsOwned t.workspaces
              (if text_eq s.session_id session_id then with_state state now s else s).workspace_id
      kept s h = elim (Bool-cases (text_eq s.session_id session_id)) [
        | inl same ↦ rw same h
        | inr other ↦ rw other h
      ]

  offline-IsConsistent : (id : Text) → IsConsistent (mark_workspace_sessions_offline id t).1
  unfolding mark_workspace_sessions_offline
  offline-IsConsistent id =
      with_sessions-IsConsistent _ (All-map _ _ (λ s h. kept s h) t.sessions c.session_owners)
    where
      kept :
          (s : SessionRecord)
          → IsOwned t.workspaces s.workspace_id
          → IsOwned t.workspaces
              (if text_eq s.workspace_id id
                then with_state (codes "offline") s.updated_at s
                else s).workspace_id
      kept s h = elim (Bool-cases (text_eq s.workspace_id id)) [
        | inl same ↦ rw same h
        | inr other ↦ rw other h
      ]

  claim_command-IsConsistent : (id : Text) → IsConsistent (claim_command id t).1
  claim_command-IsConsistent id = elim (claim_command_lem id t) [
    | inl (before, same) ↦ subst (λ r. IsConsistent r.1) (sym same) c
    | inr (fresh, first) ↦
        subst (λ r. IsConsistent r.1) (sym first)
          (record {
            ascending = c.ascending;
            given = c.given;
            fits = c.fits;
            event_owners = c.event_owners;
            session_owners = c.session_owners;
          })
  ]

  append_event-IsConsistent :
      (workspace_id : Text) (session_id : Option Text) (kind : Text) (payload : Bytes)
      (event_id : Text) (now : ℕ)
      → IsConsistent (elim (append_event workspace_id session_id kind payload event_id now t) [
        | none ↦ t
        | some (made, after) ↦ after
      ])
  unfolding append_event
  append_event-IsConsistent workspace_id session_id kind payload event_id now =
      elim (Bool-cases (has_workspace workspace_id t)) [
        | inr unknown ↦ rw unknown c
        | inl owned ↦ elim (Bool-cases (any (λ e. text_eq e.event_id event_id) t.events)) [
          | inl taken ↦ rw (owned, taken) c
          | inr free ↦ elim (Bool-cases (leb max_sequence t.last_sequence)) [
            | inl full ↦ rw (owned, free, full) c
            | inr space ↦ rw (owned, free, space) (appended owned (ground arith))
          ]
        ]
      ]
    where
      appended :
          IsOwned t.workspaces workspace_id
          → t.last_sequence + 1 ≤ max_sequence
          → IsConsistent (record {
            workspaces = t.workspaces;
            claims = t.claims;
            last_sequence = t.last_sequence + 1;
            events =
                t.events ++ made_event workspace_id session_id kind payload event_id now t ∷ [];
            sessions = t.sessions;
          })
      appended owned space = record {
        ascending = IsAscending-append t.events t.last_sequence _ (omega arith) c.given c.ascending;
        given =
            All-append _ t.events _ (All-weaken _ _ (λ e h. omega (arith, h)) t.events c.given)
              (omega arith, tt);
        fits = space;
        event_owners = All-append _ t.events _ c.event_owners (owned, tt);
        session_owners = c.session_owners;
      }

-- The operations that change the tables, with what the source binds to each statement.
pub data Operation : Type 0 where
  upsert_workspace_op : WorkspaceRecord → Operation
  remove_workspace_op : Text → Operation
  upsert_session_op : SessionRecord → Operation
  update_session_state_op : Text → Text → ℕ → Operation
  mark_offline_op : Text → Operation
  claim_command_op : Text → Operation
  append_event_op : Text → Option Text → Text → Bytes → Text → ℕ → Operation

abbrev pub apply : Operation → Tables → Tables
apply (upsert_workspace_op w) t = or_same t (upsert_workspace w t)
apply (remove_workspace_op id) t = (remove_workspace id t).1
apply (upsert_session_op s) t = or_same t (upsert_session s t)
apply (update_session_state_op session_id state now) t =
    (update_session_state session_id state now t).1
apply (mark_offline_op id) t = (mark_workspace_sessions_offline id t).1
apply (claim_command_op id) t = (claim_command id t).1
apply (append_event_op w s kind payload event_id now) t =
    elim (append_event w s kind payload event_id now t) [ none ↦ t | some (made, after) ↦ after ]

abbrev pub apply_all : List Operation → Tables → Tables
apply_all [] t = t
apply_all (op ∷ ops) t = apply_all ops (apply op t)

abbrev pub empty_tables : Tables
empty_tables = record {
  workspaces = [];
  claims = [];
  last_sequence = 0;
  events = [];
  sessions = [];
}

pub apply-IsConsistent : (op : Operation) (t : Tables) → IsConsistent t → IsConsistent (apply op t)
apply-IsConsistent (upsert_workspace_op w) t c = upsert_workspace-IsConsistent t c w
apply-IsConsistent (remove_workspace_op id) t c = remove_workspace-IsConsistent t c id
apply-IsConsistent (upsert_session_op s) t c = upsert_session-IsConsistent t c s
apply-IsConsistent (update_session_state_op session_id state now) t c =
    update_session_state-IsConsistent t c session_id state now
apply-IsConsistent (mark_offline_op id) t c = offline-IsConsistent t c id
apply-IsConsistent (claim_command_op id) t c = claim_command-IsConsistent t c id
apply-IsConsistent (append_event_op w s kind payload event_id now) t c =
    append_event-IsConsistent t c w s kind payload event_id now

-- Whatever operations run on a fresh database, in whatever order and with whatever failures: event
-- sequences strictly ascend, none exceeds the last one given out, which fits 63 bits, and every
-- event and every session belongs to a registered workspace.
pub apply_all-IsConsistent : (ops : List Operation) → IsConsistent (apply_all ops empty_tables)
apply_all-IsConsistent ops = go ops empty_tables (record {
  ascending = tt;
  given = tt;
  fits = omega arith;
  event_owners = tt;
  session_owners = tt;
})
  where
    go : (ops : List Operation) (t : Tables) → IsConsistent t → IsConsistent (apply_all ops t)
    go [] t c = c
    go (op ∷ ops) t c = go ops (apply op t) (apply-IsConsistent op t c)
