-- ===== src/Policy/Tests.antt =====
-- The crate's own cases, and the theorems at concrete inputs.
use leave_cli.Prelude.{◌≡◌, ◌↔◌, ◌≤◌, refl, true, false, [], ◌∷◌}
use leave_cli.Policy.{
  owner, viewer, operator, Capability, Action, contains, authorize, role_allows, grant_allows,
}
use leave_cli.Policy.Laws.{authorize_iff, rank, needed_rank, Holds, needed_grant}

raw_terminal_needs_role_and_grant :
    (authorize owner [] Action.raw_pty ≡ false)
    × (authorize owner (Capability.raw_pty ∷ []) Action.raw_pty ≡ true)
    × (authorize viewer (Capability.raw_pty ∷ []) Action.raw_pty ≡ false)
unfolding authorize role_allows grant_allows contains
raw_terminal_needs_role_and_grant = (refl, refl, refl)

authorize_iff_example : (authorize operator (Capability.raw_pty ∷ []) Action.raw_pty ≡ true) ↔ (
    (needed_rank Action.raw_pty ≤ rank operator)
    × Holds (Capability.raw_pty ∷ []) (needed_grant Action.raw_pty))
authorize_iff_example = authorize_iff operator (Capability.raw_pty ∷ []) Action.raw_pty
