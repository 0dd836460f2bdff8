-- ===== src/Acp/Laws/Stored.antt =====
-- The event store and the subscribers: what is published has been appended, in the same order, and
-- the store stays consistent.
use leave_cli.Prelude.{
  ℕ, ◌+◌, ◌≡◌, refl, ap, sym, ◌∙◌, ◌⊎◌, inl, inr, true, not, ◌||◌, Option, none, some, List, [],
  ◌∷◌, ◌++◌, arith, Option-cases, Bool-cases, any, leb,
}
use mathlib.Core.List.{append_assoc, append-nil}
use leave_cli.Prelude.Text.{Text, text_eq}
use leave_cli.Crypto.Error.{Bytes}
use leave_cli.Store.{
  EventRecord, SessionRecord, Tables, upsert_session, update_session_state, claim_command,
  mark_workspace_sessions_offline, append_event, made_event, has_workspace, max_sequence,
}
use leave_cli.Store.Claims.{is_claimed, claim_command_lem}
use leave_cli.Store.Invariant.{IsConsistent}
use leave_cli.Acp.Events.{Serde, Worker, Stamp, publish_event}
use leave_cli.Acp.Loop.{Input, step}
use leave_cli.Acp.Laws.Kept.{IsKept, saved}
use leave_cli.Acp.Laws.Run.{step-Kept}

-- The tables with one event more.
abbrev pub with_event : EventRecord → Tables → Tables
with_event made t = record t { last_sequence = t.last_sequence + 1; events = t.events ++ made ∷ [] }

pub append_event_cases :
    (workspace_id : Text) (session_id : Option Text) (kind : Text) (payload : Bytes)
    (event_id : Text) (now : ℕ) (t : Tables)
    → let made = made_event workspace_id session_id kind payload event_id now t in
      (append_event workspace_id session_id kind payload event_id now t ≡ none)
      ⊎ (append_event workspace_id session_id kind payload event_id now t
          ≡ some (made, with_event made t))
unfolding append_event
append_event_cases workspace_id session_id kind payload event_id now t =
    elim (Bool-cases (
      not (has_workspace workspace_id t)
      || any (λ e. text_eq e.event_id event_id) t.events
      || leb max_sequence t.last_sequence)) [
        | inl refused ↦ inl (rw refused refl)
        | inr fits ↦ inr (rw fits refl)
      ]

module _ {V : Type 0} (serde : Serde V) where
  -- An event that is published has been appended; where that fails, nothing changes.
  pub publish_event_cases :
      (stamp : Stamp) (workspace_id : Text) (session_id : Option Text) (kind : Text) (payload : V)
      (w : Worker)
      → ((publish_event serde stamp workspace_id session_id kind payload w).1 ≡ w)
        ⊎ ((made : EventRecord) × ((publish_event serde stamp workspace_id session_id kind payload
                w).1
              ≡ record w {
                tables = with_event made w.tables;
                published = w.published ++ made ∷ [];
              }))
  unfolding publish_event
  publish_event_cases stamp workspace_id session_id kind payload w =
      elim (Option-cases (serde.to_vec payload)) [
        | inl unwritten ↦ inl (rw (unwritten, publish_event) refl)
        | inr (bytes, written) ↦ elim (Bool-cases stamp.appends) [
          | inr lost ↦ inl (rw (written, lost, publish_event) refl)
          | inl carried ↦
              elim (append_event_cases workspace_id session_id kind bytes stamp.event_id stamp.now
                w.tables) [
                  | inl refused ↦ inl (rw (written, carried, publish_event, refused) refl)
                  | inr stored ↦ inr (
                    made_event workspace_id session_id kind bytes stamp.event_id stamp.now w.tables,
                    rw (written, carried, publish_event, stored) refl,
                  )
                ]
        ]
      ]

-- The events that the store gained are those that the subscribers were sent, in the same order.
abbrev pub Announced : Worker → Worker → Type 0
Announced v w =
    (news : List EventRecord) × (w.tables.events ≡ v.tables.events ++ news)
    × (w.published ≡ v.published ++ news)

-- The store stays consistent, if it was.
abbrev pub Consistently : Worker → Worker → Type 0
Consistently v w = IsConsistent v.tables → IsConsistent w.tables

-- A claim stays.
abbrev pub Claimed : Text → Worker → Worker → Type 0
Claimed id v w = is_claimed id v.tables ≡ true → is_claimed id w.tables ≡ true

events-upsert_session :
    (s : SessionRecord) (w : Worker)
    → ((saved w (upsert_session s w.tables)).tables.events ≡ w.tables.events)
      × ((saved w (upsert_session s w.tables)).published ≡ w.published)
      × ((saved w (upsert_session s w.tables)).tables.claims ≡ w.tables.claims)
unfolding upsert_session
events-upsert_session s w = (ground arith, ground arith, ground arith)

events-claim_command : (id : Text) (t : Tables) → (claim_command id t).1.events ≡ t.events
unfolding claim_command
events-claim_command id t = ground arith

nothing_more : (v w : List EventRecord) → w ≡ v → w ≡ v ++ []
nothing_more v w e = e ∙ sym (append-nil v)

module _ {V : Type 0} (serde : Serde V) where
  pub Announced-IsKept : IsKept serde Announced
  unfolding update_session_state mark_workspace_sessions_offline
  Announced-IsKept = record {
    calm = record {
      stay = λ w. ([], nothing_more w.tables.events _ refl, nothing_more w.published _ refl);
      turning =
          λ turns w. ([], nothing_more w.tables.events _ refl, nothing_more w.published _ refl);
      trans = λ u v w h k.
          let (first, e1, p1) = h in
          let (later, e2, p2) = k in
          (
            first ++ later,
            e2 ∙ ap (λ es. es ++ later) e1 ∙ append_assoc u.tables.events first later,
            p2 ∙ ap (λ es. es ++ later) p1 ∙ append_assoc u.published first later,
          );
      saving = λ s w. (
        [],
        nothing_more _ _ (events-upsert_session s w).0,
        nothing_more _ _ (events-upsert_session s w).1,
      );
      setting = λ session_id state now w.
          ([], nothing_more w.tables.events _ refl, nothing_more w.published _ refl);
      claiming = λ id w. (
        [],
        nothing_more w.tables.events _ (events-claim_command id w.tables),
        nothing_more w.published _ refl,
      );
      closing = λ id w. ([], nothing_more w.tables.events _ refl, nothing_more w.published _ refl);
      publishing = λ stamp workspace_id session_id kind payload w.
          elim (publish_event_cases serde stamp workspace_id session_id kind payload w) [
            | inl unchanged ↦ (
              [],
              nothing_more w.tables.events _ (ap (λ x. x.tables.events) unchanged),
              nothing_more w.published _ (ap (λ x. x.published) unchanged),
            )
            | inr (made, after) ↦
                (made ∷ [], ap (λ x. x.tables.events) after, ap (λ x. x.published) after)
          ];
    };
    same = λ v w t p. ([], nothing_more _ _ (ap (λ x. x.events) t), nothing_more _ _ p);
  }

  pub Claimed-IsKept : (id : Text) → IsKept serde (Claimed id)
  unfolding update_session_state mark_workspace_sessions_offline
  Claimed-IsKept id = record {
    calm = record {
      stay = λ w c. c;
      turning = λ turns w c. c;
      trans = λ u v w h k c. k (h c);
      saving = λ s w c. ap (any (λ x. text_eq x id)) (events-upsert_session s w).2 ∙ c;
      setting = λ session_id state now w c. c;
      claiming = λ other w c. elim (claim_command_lem other w.tables) [
        | inl (before, repeated) ↦ ap (λ r. is_claimed id r.1) repeated ∙ c
        | inr (fresh, first) ↦ ap (λ r. is_claimed id r.1) first ∙ ground arith
      ];
      closing = λ other w c. c;
      publishing = λ stamp workspace_id session_id kind payload w c.
          elim (publish_event_cases serde stamp workspace_id session_id kind payload w) [
            | inl unchanged ↦ ap (λ x. is_claimed id x.tables) unchanged ∙ c
            | inr (made, after) ↦ ap (λ x. is_claimed id x.tables) after ∙ c
          ];
    };
    same = λ v w t p c. ap (is_claimed id) t ∙ c;
  }

  pub Claimed-step :
      (id workspace_id : Text) (input : Input V) (w : Worker)
      → is_claimed id w.tables ≡ true
      → is_claimed id (step serde workspace_id input w).1.tables ≡ true
  Claimed-step id workspace_id input w =
      step-Kept serde (Claimed id) (Claimed-IsKept id) workspace_id input w
