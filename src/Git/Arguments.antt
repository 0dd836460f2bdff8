-- ===== src/Git/Arguments.antt =====
-- What Git is run with, whatever a client asks for.
use leave_cli.Prelude.{
  ◌≡◌, Bool, true, false, not, ◌&&◌, ◌||◌, Option, List, [], ◌∷◌, All, all, any, if◌then◌else◌,
}
use leave_cli.Prelude.Text.{Text, codes, text_eq, is_empty, starts_with, has_byte}
use leave_cli.Files.{components, is_absolute}
use leave_cli.Process.{Output, Program}
use leave_cli.Crypto.Error.{Bytes}
use leave_cli.Git.{diff, stage, unstage, commit, push, branches, switch_branch, worktrees}
use leave_cli.Git.Status.{status}

-- The operations that the workspace's API offers.
pub data GitRequest : Type 0 where
  status_request push_request branches_request worktrees_request : GitRequest
  diff_request : Option Text → Bool → GitRequest
  stage_request unstage_request : List Text → GitRequest
  commit_request : Text → GitRequest
  switch_request : Text → Bool → GitRequest

module _ {W : Type 0} (git : Program W) where
  -- What a request does to the computer.
  abbrev pub perform : GitRequest → W → W
  perform status_request w = (status git w).1
  perform push_request w = (push git w).1
  perform branches_request w = (branches git w).1
  perform worktrees_request w = (worktrees git w).1
  perform (diff_request path staged) w = (diff git path staged w).1
  perform (stage_request paths) w = (stage git paths w).1
  perform (unstage_request paths) w = (unstage git paths w).1
  perform (commit_request message) w = (commit git message w).1
  perform (switch_request name create) w = (switch_branch git name create w).1

-- A program that answers as given and keeps the arguments of each run.
abbrev pub recorder :
    (List Text → Option Output)
    → (Bytes → Text)
    → (Bytes → Option Text)
    → Program (List (List Text))
recorder answer lossy from_utf8 = record {
  execute = λ arguments runs. (answer arguments, arguments ∷ runs);
  lossy = lossy;
  from_utf8 = from_utf8;
}

-- A text that is neither empty nor absolute, has no zero byte and no component `..`.
abbrev pub stays_inside : Text → Bool
stays_inside path =
    not (is_empty path)
    && not (has_byte 0 path)
    && not (is_absolute path)
    && not (any (text_eq (codes "..")) (components path))

-- The options that the program itself gives.
abbrev own_options : List Text
own_options =
    codes "--no-ext-diff"
    ∷ codes "--no-color"
    ∷ codes "--cached"
    ∷ codes "--literal-pathspecs"
    ∷ codes "--staged"
    ∷ codes "--porcelain=v2"
    ∷ codes "--branch"
    ∷ codes "-z"
    ∷ codes "--porcelain"
    ∷ codes "--format=%(HEAD)%00%(refname:short)%00%(upstream:short)"
    ∷ codes "-c"
    ∷ []

-- No argument is an option of anyone but the program, up to `--`; the message behind `-m` is none;
-- and everything behind `--` passes `stays_inside`. The flag says that `-m` stands in front.
abbrev pub is_safe : Bool → List Text → Bool
is_safe behind_m [] = true
is_safe true (message ∷ rest) = is_safe false rest
is_safe false (a ∷ rest) =
    let behind = is_safe true rest in
    let next = is_safe false rest in
    if text_eq a (codes "--")
    then all stays_inside rest
    else if text_eq a (codes "-m")
    then behind
    else (not (starts_with a (codes "-")) || any (text_eq a) own_options) && next

-- A request runs Git once, or is refused before.
abbrev FitRuns : (List Text → Bool) → List (List Text) → Type 0
FitRuns fits runs = All (λ arguments. fits arguments ≡ true) runs

-- Git is told to take every path as it is written.
abbrev pub is_literal : List Text → Bool
is_literal [] = false
is_literal (a ∷ rest) = text_eq a (codes "--literal-pathspecs")

-- The requests that change what is staged.
abbrev pub is_staging : GitRequest → Bool
is_staging (stage_request paths) = true
is_staging (unstage_request paths) = true
is_staging status_request = false
is_staging push_request = false
is_staging branches_request = false
is_staging worktrees_request = false
is_staging (diff_request path staged) = false
is_staging (commit_request message) = false
is_staging (switch_request name create) = false

module _ (answer : List Text → Option Output) (lossy : Bytes → Text)
    (from_utf8 : Bytes → Option Text) where
  abbrev pub recorded : GitRequest → List (List Text)
  recorded request = perform (recorder answer lossy from_utf8) request []

  abbrev git : Program (List (List Text))
  git = recorder answer lossy from_utf8
