-- ===== src/Git/Status.antt =====
-- apps/leave/src/git.rs: `status`, and how the records of `git status --porcelain=v2 -z` are read.
pub mod Laws
use leave_cli.Prelude.{
  ℕ, zero, suc, ◌+◌, ◌-◌, ◌*◌, ◌/◌, ◌%◌, ◌^◌, Bool, true, false, not, ◌&&◌, ◌||◌, Option, none,
  some, List, [], ◌∷◌, ◌++◌, Result, ok, err, ◌>>=◌, ltb, leb, ◌==◌, keep, map, if◌then◌else◌,
}
use leave_cli.Prelude.Text.{Text, codes, is_empty, split, split_once, starts_with, strip_prefix}
use leave_cli.Crypto.Error.{Bytes}
use leave_cli.Process.{Output, Program}
use leave_cli.Git.{GitError, bad_record, no_rename_source, run, with_output}

pub record GitStatusEntry : Type 0 where
  pub path : Text
  pub original_path : Option Text
  pub index : Text
  pub worktree : Text

pub record GitStatus : Type 0 where
  pub branch : Text
  pub ahead : ℕ
  pub behind : ℕ
  pub entries : List GitStatusEntry

-- `str::splitn` at one byte.
unfoldable pub splitn : ℕ → ℕ → Text → List Text
splitn zero c s = []
splitn (suc zero) c s = s ∷ []
splitn (suc (suc n)) c s = elim (split_once c s) [
  | none ↦ s ∷ []
  | some (l, r) ↦ l ∷ splitn (suc n) c r
]

-- `str::split_whitespace` of ASCII.
abbrev split_whitespace : Text → List Text
split_whitespace s =
    keep (λ field. not (is_empty field))
      (split b' ' (map (λ b. if leb 9 b && leb b 13 then b' ' else b) s))

-- `str::parse::<u32>`: an optional plus, then digits, and no overflow.
abbrev digits_from : ℕ → Text → Option ℕ
digits_from n [] = some n
digits_from n (b ∷ s) =
    let m = n * 10 + (b - b'0') in
    if leb b'0' b && leb b b'9' && ltb m (2 ^ 32) then digits_from m s else none

abbrev digits : Text → Option ℕ
digits [] = none
digits (b ∷ s) = digits_from 0 (b ∷ s)

abbrev parse_u32 : Text → Option ℕ
parse_u32 [] = none
parse_u32 (b ∷ s) = if b == b'+' then digits s else digits (b ∷ s)

abbrev or_zero : Option ℕ → ℕ
or_zero none = 0
or_zero (some n) = n

-- What one field of `# branch.ab` does to the two counts.
abbrev counted : Text → GitStatus → GitStatus
counted [] st = st
counted (b ∷ value) st =
    if b == b'+'
    then record st { ahead = or_zero (parse_u32 value) }
    else if b == b'-'
    then record st { behind = or_zero (parse_u32 value) }
    else st

abbrev count_all : List Text → GitStatus → GitStatus
count_all [] st = st
count_all (field ∷ fields) st = count_all fields (counted field st)

-- One record, as the tests of the loop sort it.
pub data StatusLine : Type 0 where
  other_line broken_line : StatusLine
  branch_line count_line untracked_line : Text → StatusLine
  changed_line renamed_line : Text → Text → StatusLine

-- Exactly nine fields are there, or the record is refused.
abbrev pub fields_of : (Text → Text → StatusLine) → List Text → StatusLine
fields_of make (a ∷ xy ∷ c ∷ d ∷ e ∷ f ∷ g ∷ h ∷ path ∷ rest) = make xy path
fields_of make _ = broken_line

abbrev untracked_of : Option Text → StatusLine
untracked_of none = other_line
untracked_of (some path) = untracked_line path

unfoldable pub classify : Text → StatusLine
classify record_text = elim (strip_prefix record_text (codes "# branch.head ")) [
  | some value ↦ branch_line value
  | none ↦ elim (strip_prefix record_text (codes "# branch.ab ")) [
    | some value ↦ count_line value
    | none ↦
        if starts_with record_text (codes "1 ")
        then fields_of changed_line (splitn 9 b' ' record_text)
        else if starts_with record_text (codes "2 ")
        then fields_of renamed_line (splitn 9 b' ' record_text)
        else untracked_of (strip_prefix record_text (codes "? "))
  ]
]

-- `char::from(byte).to_string()`, in UTF-8.
abbrev pub char_text : ℕ → Text
char_text b = if ltb b 128 then b ∷ [] else (192 + b / 64) ∷ (128 + b % 64) ∷ []

abbrev pub first_char : Text → Text
first_char [] = codes " "
first_char (b ∷ s) = char_text b

abbrev pub second_char : Text → Text
second_char [] = codes " "
second_char (b ∷ s) = first_char s

abbrev pub with_entry : GitStatusEntry → GitStatus → GitStatus
with_entry entry st = record st { entries = st.entries ++ entry ∷ [] }

abbrev pub entry_of : Text → Text → Option Text → GitStatusEntry
entry_of xy path original = record {
  path = path;
  original_path = original;
  index = first_char xy;
  worktree = second_char xy;
}

-- A record that stands alone.
abbrev pub absorb : StatusLine → GitStatus → GitStatus
absorb other_line st = st
absorb broken_line st = st
absorb (branch_line value) st = record st { branch = value }
absorb (count_line value) st = count_all (split_whitespace value) st
absorb (changed_line xy path) st = with_entry (entry_of xy path none) st
absorb (renamed_line xy path) st = st
absorb (untracked_line path) st =
    with_entry
      (record { path = path; original_path = none; index = codes "?"; worktree = codes "?" }) st

-- The loop over the records; a rename takes the next one with it.
unfoldable pub parse_records : (Bytes → Text) → List Bytes → GitStatus → Result GitError GitStatus
parse_records lossy [] st = ok st
parse_records lossy (r ∷ []) st = elim (classify (lossy r)) [
  | broken_line ↦ err bad_record
  | renamed_line xy path ↦ err no_rename_source
  | line ↦ ok (absorb line st)
]
parse_records lossy (r ∷ source ∷ rs) st = elim (classify (lossy r)) [
  | broken_line ↦ err bad_record
  | renamed_line xy path ↦
      parse_records lossy rs (with_entry (entry_of xy path (some (lossy source))) st)
  | line ↦ parse_records lossy (source ∷ rs) (absorb line st)
]

abbrev pub no_status : GitStatus
no_status = record { branch = codes "HEAD"; ahead = 0; behind = 0; entries = [] }

-- `parse_status`.
unfoldable pub parse_status : (Bytes → Text) → Bytes → Result GitError GitStatus
parse_status lossy bytes = parse_records lossy (split 0 bytes) no_status

-- `status`.
unfoldable pub status : {W : Type 0} → Program W → W → Result GitError GitStatus × W
status git w =
    with_output git (λ output. parse_status git.lossy output.stdout)
      (run git (codes "status" ∷ codes "--porcelain=v2" ∷ codes "--branch" ∷ codes "-z" ∷ []) w)
