-- ===== src/Store/Invariant.antt =====
-- What every sequence of operations keeps true of the tables.
use leave_cli.Prelude.{
  inl, inr, ℕ, ◌≤◌, ◌<◌, ◌≡◌, Bool, true, false, not, List, [], ◌∷◌, ◌++◌, arith, All, All-append,
  All-keep, keep, any, map, Bool-cases,
}
use leave_cli.Prelude.Text.{Text, text_eq, text_eq_iff}
use leave_cli.Store.{
  WorkspaceRecord, SessionRecord, EventRecord, Tables, max_sequence, replace_workspace,
}
use leave_cli.Store.Replay.{Above, IsAscending}

-- The workspace is registered.
abbrev pub IsOwned : List WorkspaceRecord → Text → Type 0
IsOwned ws id = any (λ w. text_eq w.id id) ws ≡ true

-- Sequences ascend and were all given out; every event and session has its workspace.
pub record IsConsistent (t : Tables) : Type 0 where
  pub ascending : IsAscending t.events
  pub given : All (λ e. e.sequence ≤ t.last_sequence) t.events
  pub fits : t.last_sequence ≤ max_sequence
  pub event_owners : All (λ e. IsOwned t.workspaces e.workspace_id) t.events
  pub session_owners : All (λ s. IsOwned t.workspaces s.workspace_id) t.sessions

module _ {A : Type 0} where
  pub All-weaken : (P Q : A → Type 0) → ((a : A) → P a → Q a) → (xs : List A) → All P xs → All Q xs
  All-weaken P Q f [] h = tt
  All-weaken P Q f (x ∷ xs) (hx, hs) = (f x hx, All-weaken P Q f xs hs)

  pub All-map :
      (P : A → Type 0) (f : A → A)
      → ((a : A) → P a → P (f a))
      → (xs : List A) → All P xs
      → All P (map f xs)
  All-map P f keeps [] h = tt
  All-map P f keeps (x ∷ xs) (hx, hs) = (keeps x hx, All-map P f keeps xs hs)

  -- What the kept items share beyond what all of them do.
  pub All-keep_where :
      (P Q : A → Type 0) (p : A → Bool)
      → ((a : A) → p a ≡ true → P a → Q a)
      → (xs : List A) → All P xs
      → All Q (keep p xs)
  All-keep_where P Q p f [] h = tt
  All-keep_where P Q p f (x ∷ xs) (hx, hs) =
      let rest = All-keep_where P Q p f xs hs in
      elim (Bool-cases (p x)) [
        | inl kept ↦ rw kept (f x kept hx, rest)
        | inr dropped ↦ rw dropped rest
      ]

pub IsAscending-keep :
    (p : EventRecord → Bool) (es : List EventRecord) → IsAscending es → IsAscending (keep p es)
IsAscending-keep p [] h = tt
IsAscending-keep p (e ∷ es) (above, asc) =
    let rest = IsAscending-keep p es asc in
    elim (Bool-cases (p e)) [
      | inl kept ↦ rw kept (All-keep (Above e.sequence) p es above, rest)
      | inr dropped ↦ rw dropped rest
    ]

pub IsAscending-append :
    (es : List EventRecord) (n : ℕ) (e : EventRecord)
    → n < e.sequence
    → All (λ d. d.sequence ≤ n) es
    → IsAscending es
    → IsAscending (es ++ e ∷ [])
IsAscending-append [] n e h hs asc = (tt, tt)
IsAscending-append (d ∷ es) n e h (hd, hs) (above, asc) = (
  All-append (Above d.sequence) es (e ∷ []) above (omega arith, tt),
  IsAscending-append es n e h hs asc,
)

pub IsOwned-append :
    (ws : List WorkspaceRecord) (w : WorkspaceRecord) (id : Text)
    → IsOwned ws id
    → IsOwned (ws ++ w ∷ []) id
IsOwned-append [] w id h = cc
IsOwned-append (v ∷ ws) w id h = ground (arith, IsOwned-append ws w id)

pub IsOwned-replace :
    (ws : List WorkspaceRecord) (w : WorkspaceRecord) (id : Text)
    → IsOwned ws id
    → IsOwned (map (replace_workspace w) ws) id
IsOwned-replace [] w id h = cc
IsOwned-replace (v ∷ ws) w id h = ground (arith, IsOwned-replace ws w id, text_eq_iff v.id w.id)

pub IsOwned-keep :
    (ws : List WorkspaceRecord) (gone id : Text)
    → text_eq id gone ≡ false
    → IsOwned ws id
    → IsOwned (keep (λ w. not (text_eq w.id gone)) ws) id
IsOwned-keep [] gone id other h = cc
IsOwned-keep (v ∷ ws) gone id other h = ground (
  arith,
  IsOwned-keep ws gone id other,
  text_eq_iff v.id gone,
  text_eq_iff v.id id,
  text_eq_iff id gone,
)

-- Whoever owns rows before still does under more workspaces.
module _ (ws vs : List WorkspaceRecord) (more : (id : Text) → IsOwned ws id → IsOwned vs id) where
  events-IsOwned :
      (es : List EventRecord)
      → All (λ e. IsOwned ws e.workspace_id) es
      → All (λ e. IsOwned vs e.workspace_id) es
  events-IsOwned = All-weaken _ _ (λ e h. more e.workspace_id h)

  sessions-IsOwned :
      (ss : List SessionRecord)
      → All (λ s. IsOwned ws s.workspace_id) ss
      → All (λ s. IsOwned vs s.workspace_id) ss
  sessions-IsOwned = All-weaken _ _ (λ s h. more s.workspace_id h)

  pub with_workspaces :
      (claims : List Text) (last : ℕ) (es : List EventRecord) (ss : List SessionRecord)
      → IsConsistent (record {
        workspaces = ws;
        claims = claims;
        last_sequence = last;
        events = es;
        sessions = ss;
      })
      → IsConsistent (record {
        workspaces = vs;
        claims = claims;
        last_sequence = last;
        events = es;
        sessions = ss;
      })
  with_workspaces claims last es ss c = record {
    ascending = c.ascending;
    given = c.given;
    fits = c.fits;
    event_owners = events-IsOwned es c.event_owners;
    session_owners = sessions-IsOwned ss c.session_owners;
  }
