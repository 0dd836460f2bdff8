-- ===== src/Git.antt =====
-- apps/leave/src/git.rs: the Git operations of one workspace. What `git -C root` does with the
-- arguments is a parameter.

pub mod Status
pub mod Arguments
mod Tests
use leave_cli.Prelude.{
  ℕ, ◌+◌, ◌*◌, Bool, true, false, not, ◌&&◌, ◌||◌, Option, none, some, List, [], ◌∷◌, ◌++◌, Result,
  ok, err, ok_or, refuse_if, ◌>>=◌, ◌>>◌, ltb, leb, ◌==◌, any, keep, map, length, if◌then◌else◌,
}
use leave_cli.Prelude.Text.{
  Text, codes, text_eq, is_empty, split, contains, starts_with, ends_with, has_byte,
}
use leave_cli.Prelude.Chars.{trim, count_chars}
use leave_cli.Files.{components, is_absolute}
use leave_cli.Process.{Output, Program}

pub data GitError : Type 0 where
  not_started too_much_output not_text bad_message bad_record no_rename_source : GitError
  bad_selection bad_path bad_branch : GitError
  failed : Text → GitError

abbrev pub max_git_output : ℕ
max_git_output = 2 * 1024 * 1024

unfoldable pub validate_relative_path : Text → Result GitError (Unit {0})
validate_relative_path value =
    refuse_if
      (is_empty value
        || has_byte 0 value
        || is_absolute value
        || any (text_eq (codes "..")) (components value))
      bad_path

abbrev pub validate_all : List Text → Result GitError (Unit {0})
validate_all [] = ok tt
validate_all (path ∷ paths) = validate_relative_path path >> validate_all paths

unfoldable pub require_paths : List Text → Result GitError (Unit {0})
require_paths paths = do
  refuse_if (is_empty paths || ltb 500 (length paths)) bad_selection
  validate_all paths

-- `is_ascii_alphanumeric`.
abbrev pub is_alphanumeric : ℕ → Bool
is_alphanumeric b =
    (leb b'0' b && leb b b'9') || (leb b'a' b && leb b b'z') || (leb b'A' b && leb b b'Z')

-- The test of one character; those beyond ASCII fail at each of their bytes.
abbrev pub is_foreign : ℕ → Bool
is_foreign b = not (is_alphanumeric b || has_byte b (codes "-_/ .")) || b == b' '

unfoldable pub validate_branch : Text → Result GitError (Unit {0})
validate_branch value =
    refuse_if
      (is_empty value
        || ltb 255 (length value)
        || starts_with value (codes "-")
        || any is_foreign value
        || contains value (codes "..")
        || contains value (codes "//")
        || ends_with value (codes "/"))
      bad_branch

pub record GitBranch : Type 0 where
  pub name : Text
  pub current : Bool
  pub upstream : Option Text

-- `.next().filter(|value| !value.is_empty())` of the third field.
abbrev present : List Text → Option Text
present [] = none
present (value ∷ rest) = if is_empty value then none else some value

abbrev branch_of : List Text → Result GitError GitBranch
branch_of (head ∷ name ∷ rest) =
    ok (record { name = name; current = text_eq head (codes "*"); upstream = present rest })
branch_of (head ∷ []) = err bad_record
branch_of [] = err bad_record

abbrev pub parse_branches : List Text → Result GitError (List GitBranch)
parse_branches [] = ok []
parse_branches (line ∷ lines) = do
  branch ← branch_of (split 0 line)
  branches ← parse_branches lines
  ok (branch ∷ branches)

-- The lines of a text that are not empty; `lines` also drops a carriage return before a line's end.
abbrev without_return : Text → Text
without_return [] = []
without_return (b ∷ []) = if b == 13 then [] else b ∷ []
without_return (b ∷ c ∷ s) = b ∷ without_return (c ∷ s)

abbrev full_lines : Text → List Text
full_lines text = keep (λ line. not (is_empty line)) (map without_return (split b'\n' text))

module _ {W : Type 0} (git : Program W) where
  -- The check of what a program printed, on success and on failure.
  abbrev checked : Output → Result GitError Output
  checked output = do
    refuse_if (ltb max_git_output (length output.stdout + length output.stderr)) too_much_output
    let message = trim (git.lossy output.stderr)
    refuse_if (not output.success)
        (failed (if is_empty message then codes "Git exited with " ++ output.status else message))
    ok output

  abbrev executed : Option Output × W → Result GitError Output × W
  executed (none, w) = (err not_started, w)
  executed (some output, w) = (checked output, w)

  -- `run`.
  unfoldable pub run : List Text → W → Result GitError Output × W
  run arguments w = executed (git.execute arguments w)

  -- `output_text`.
  unfoldable pub output_text : Output → Result GitError Text
  output_text output = do
    text ← ok_or (git.from_utf8 output.stdout) not_text
    let quiet = is_empty (trim text) && not (is_empty output.stderr)
    shown ← if quiet then ok_or (git.from_utf8 output.stderr) not_text else ok text
    ok (trim shown)

  -- The operations refuse before Git is run, or answer with what its one run gave.
  abbrev pub after_check :
      {A : Type 0}
      → Result GitError (Unit {0})
      → (W → Result GitError A × W)
      → W
      → Result GitError A × W
  after_check (err e) next w = (err e, w)
  after_check (ok _) next w = next w

  abbrev pub with_output :
      {A : Type 0}
      → (Output → Result GitError A)
      → Result GitError Output × W
      → Result GitError A × W
  with_output f (r, w) = (r >>= f, w)

  abbrev pub nothing : Output → Result GitError (Unit {0})
  nothing output = ok tt

  abbrev pub diff_arguments : Bool → List Text
  diff_arguments staged =
      (codes "diff" ∷ codes "--no-ext-diff" ∷ codes "--no-color" ∷ [])
      ++ (if staged then codes "--cached" ∷ [] else [])

  unfoldable pub diff : Option Text → Bool → W → Result GitError Text × W
  diff none staged w = with_output output_text (run (diff_arguments staged) w)
  diff (some path) staged w =
      after_check (validate_relative_path path)
        (λ v. with_output output_text (run (diff_arguments staged ++ (codes "--" ∷ path ∷ [])) v)) w

  abbrev pub stage_arguments : List Text
  stage_arguments = codes "--literal-pathspecs" ∷ codes "add" ∷ codes "--" ∷ []

  abbrev pub unstage_arguments : List Text
  unstage_arguments =
      codes "--literal-pathspecs" ∷ codes "restore" ∷ codes "--staged" ∷ codes "--" ∷ []

  unfoldable pub stage : List Text → W → Result GitError (Unit {0}) × W
  stage paths w =
      after_check (require_paths paths)
        (λ v. with_output nothing (run (stage_arguments ++ paths) v)) w

  unfoldable pub unstage : List Text → W → Result GitError (Unit {0}) × W
  unstage paths w =
      after_check (require_paths paths)
        (λ v. with_output nothing (run (unstage_arguments ++ paths) v)) w

  unfoldable pub commit : Text → W → Result GitError Text × W
  commit message w =
      after_check
        (refuse_if (is_empty (trim message) || ltb 10000 (count_chars (trim message))) bad_message)
        (λ v. with_output output_text (run (codes "commit" ∷ codes "-m" ∷ trim message ∷ []) v)) w

  unfoldable pub push : W → Result GitError Text × W
  push w = with_output output_text (run (codes "push" ∷ []) w)

  abbrev pub listed : Output → Result GitError (List GitBranch)
  listed output = do text ← output_text output; parse_branches (full_lines text)

  unfoldable pub branches : W → Result GitError (List GitBranch) × W
  branches w = with_output listed (
      run
        (codes "for-each-ref"
          ∷ codes "--format=%(HEAD)%00%(refname:short)%00%(upstream:short)"
          ∷ codes "refs/heads/"
          ∷ [])
        w)

  unfoldable pub switch_branch : Text → Bool → W → Result GitError (Unit {0}) × W
  switch_branch name create w =
      after_check (validate_branch name)
        (λ v. with_output nothing (
          run
            (if create then codes "switch" ∷ codes "-c" ∷ name ∷ [] else codes "switch" ∷ name ∷ [])
            v))
        w

  unfoldable pub worktrees : W → Result GitError Text × W
  worktrees w =
      with_output output_text (run (codes "worktree" ∷ codes "list" ∷ codes "--porcelain" ∷ []) w)
