-- ===== src/Tunnel/Classes.antt =====
-- Which action a tunnelled request performs.
use leave_cli.Prelude.{
  ◌≡◌, ◌↔◌, ◌⊎◌, inl, inr, refl, sym, ◌∙◌, true, false, arith, Option, if◌then◌else◌, Bool-cases,
}
use leave_cli.Prelude.Text.{
  Text, codes, text_eq, text_eq_iff, starts_with, before, starts_with-eq-append,
}
use leave_cli.Policy.{Action, view}
use leave_cli.Tunnel.{
  action_for, terminals, previews, customization, is_reading, write_action, git_reads, query_value,
  customization_action,
}

abbrev pub route_of : Text → Text
route_of path = before b'?' path

-- The route is none of the three surfaces that need a capability or a scope of their own.
pub record IsOrdinary (route : Text) : Type 0 where
  pub no_terminal : starts_with route terminals ≡ false
  pub no_preview : starts_with route previews ≡ false
  pub no_customization : starts_with route customization ≡ false

abbrev pub IsRead : Text → Type 0
IsRead m = (m ≡ codes "GET") ⊎ (m ≡ codes "HEAD")

abbrev pub IsGitRead : Text → Type 0
IsGitRead route =
    (route ≡ codes "/api/v1/local/git/status")
    ⊎ (route ≡ codes "/api/v1/local/git/diff")
    ⊎ (route ≡ codes "/api/v1/local/git/worktrees")

is_reading_iff : (m : Text) → (is_reading m ≡ true) ↔ IsRead m
unfolding is_reading
is_reading_iff m = ground (arith, text_eq_iff m (codes "GET"), text_eq_iff m (codes "HEAD"))

git_reads_iff : (r : Text) → (git_reads r ≡ true) ↔ IsGitRead r
unfolding git_reads
git_reads_iff r = ground (
  arith,
  text_eq_iff r (codes "/api/v1/local/git/status"),
  text_eq_iff r (codes "/api/v1/local/git/diff"),
  text_eq_iff r (codes "/api/v1/local/git/worktrees"),
)

write_action-view : (r : Text) → write_action r ≡ view → git_reads r ≡ true
unfolding write_action
write_action-view r h = ground arith

git_read_is_view : (r : Text) → IsGitRead r → (write_action r ≡ view) × IsOrdinary r
unfolding write_action starts_with git_reads text_eq codes
git_read_is_view r (inl e) =
    rw e (refl, record { no_terminal = refl; no_preview = refl; no_customization = refl })
git_read_is_view r (inr (inl e)) =
    rw e (refl, record { no_terminal = refl; no_preview = refl; no_customization = refl })
git_read_is_view r (inr (inr e)) =
    rw e (refl, record { no_terminal = refl; no_preview = refl; no_customization = refl })

customization_action-ne-view : (o : Option Text) → customization_action o ≡ view → ⊥
unfolding customization_action
customization_action-ne-view o h = ground arith

action_for_ordinary :
    (m p : Text)
    → IsOrdinary (route_of p)
    → action_for m p ≡ (if is_reading m then view else write_action (route_of p))
unfolding action_for
action_for_ordinary m p o = rw (o.no_terminal, o.no_preview, o.no_customization)

IsOrdinary-of_view : (m p : Text) → action_for m p ≡ view → IsOrdinary (route_of p)
unfolding action_for
IsOrdinary-of_view m p h =
    ground (arith, customization_action-ne-view (query_value p (codes "category")))

-- A request only needs the right to view exactly when its route is none of the three guarded
-- surfaces, and it is a GET or a HEAD or one of the three git routes that read.
pub action_for-view_iff :
    (m p : Text)
    → (action_for m p ≡ view) ↔ (IsOrdinary (route_of p) × (IsRead m ⊎ IsGitRead (route_of p)))
action_for-view_iff m p = (to, from)
  where
    reads :
        (if is_reading m then view else write_action (route_of p)) ≡ view
        → IsRead m ⊎ IsGitRead (route_of p)
    reads h = elim (Bool-cases (is_reading m)) [
      | inl yes_read ↦ inl ((is_reading_iff m).0 yes_read)
      | inr no_read ↦
          inr ((git_reads_iff (route_of p)).0 (write_action-view (route_of p) (rw no_read at h)))
    ]

    to : action_for m p ≡ view → IsOrdinary (route_of p) × (IsRead m ⊎ IsGitRead (route_of p))
    to h = let o = IsOrdinary-of_view m p h in (o, reads (sym (action_for_ordinary m p o) ∙ h))

    from : IsOrdinary (route_of p) × (IsRead m ⊎ IsGitRead (route_of p)) → action_for m p ≡ view
    from (o, inl r) = rw (action_for_ordinary m p o, (is_reading_iff m).1 r)
    from (o, inr g) =
        rw (action_for_ordinary m p o) (let w = (git_read_is_view (route_of p) g).0 in ground arith)

-- The three guarded surfaces keep their action whatever the method, so even reading them needs it.
pub action_for-terminals :
    (m p : Text) → starts_with (route_of p) terminals ≡ true → action_for m p ≡ Action.raw_pty
unfolding action_for
action_for-terminals m p h = rw h

pub action_for-previews :
    (m p : Text)
    → starts_with (route_of p) previews ≡ true
    → action_for m p ≡ Action.persistent_browser_profile
unfolding action_for starts_with codes
action_for-previews m p h = let (r, e) = starts_with-eq-append (route_of p) previews h in rw e

pub action_for-customization :
    (m p : Text)
    → starts_with (route_of p) customization ≡ true
    → action_for m p ≡ customization_action (query_value p (codes "category"))
unfolding action_for starts_with codes
action_for-customization m p h =
    let (r, e) = starts_with-eq-append (route_of p) customization h in rw e
