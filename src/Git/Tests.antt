-- ===== src/Git/Tests.antt =====
-- Runs of the Git module on small inputs.
use leave_cli.Prelude.{◌≡◌, refl, true, Option, some, List, [], ◌∷◌, err}
use leave_cli.Prelude.Text.{Text, codes, split, text_eq}
use leave_cli.Process.{Output}
use leave_cli.Git.{bad_path, validate_relative_path}
use leave_cli.Git.Status.Laws.{Change, ordinary, renamed, untracked}

abbrev meta : Text × Text × Text × Text × Text
meta = (b'N' ∷ [], b'1' ∷ [], b'1' ∷ [], b'1' ∷ [], b'a' ∷ [])

abbrev three_changes : List Change
three_changes =
    ordinary b'M' b'.' meta (b'c' ∷ []) (b'f' ∷ b' ' ∷ b'g' ∷ [])
    ∷ renamed b'R' b'.' meta (b'c' ∷ []) (b'R' ∷ b'9' ∷ []) (b'n' ∷ []) (b'o' ∷ [])
    ∷ untracked (b'u' ∷ [])
    ∷ []

climbing : validate_relative_path (codes "a/../../b") ≡ err bad_path
unfolding validate_relative_path codes split text_eq
climbing = refl

abbrev quiet : List Text → Option Output
quiet arguments = some (record { success = true; status = []; stdout = []; stderr = [] })
