-- ===== src/Git/Status/Laws.antt =====
-- `parse_status` reads back what `git status --porcelain=v2 -z` prints.
use leave_cli.Prelude.{ℕ, ◌≡◌, false, none, some, List, [], ◌∷◌, ◌++◌, All}
use leave_cli.Prelude.Text.{Text, codes, has_byte}
use leave_cli.Crypto.Error.{Bytes}
use leave_cli.Git.Status.{GitStatus, GitStatusEntry, entry_of}

-- What Git says of one path. `meta` of a change are its five fields `sub mH mI mW hH`, and `last` the
-- sixth, `hI`.
pub data Change : Type 0 where
  ordinary : (x y : ℕ) (meta : Text × Text × Text × Text × Text) (last path : Text) → Change
  renamed :
      (x y : ℕ) (meta : Text × Text × Text × Text × Text) (last score path source : Text) → Change
  untracked : (path : Text) → Change

-- The fields with a space behind each.
abbrev spaced : Text × Text × Text × Text × Text → Text → Text
spaced (a, b, c, d, e) rest =
    a ++ b' ' ∷ (b ++ b' ' ∷ (c ++ b' ' ∷ (d ++ b' ' ∷ (e ++ b' ' ∷ rest))))

-- The records of a change; a renamed path is two.
abbrev pub records : Change → List Bytes
records (ordinary x y meta last path) =
    (b'1' ∷ b' ' ∷ x ∷ y ∷ b' ' ∷ spaced meta (last ++ b' ' ∷ path)) ∷ []
records (renamed x y meta last score path source) =
    (b'2' ∷ b' ' ∷ x ∷ y ∷ b' ' ∷ spaced meta (last ++ b' ' ∷ (score ++ b' ' ∷ path))) ∷ source ∷ []
records (untracked path) = (b'?' ∷ b' ' ∷ path) ∷ []

-- What the program shows of it: for a renamed path, the score stands in front of the path.
abbrev pub shown : Change → GitStatusEntry
shown (ordinary x y meta last path) = entry_of (x ∷ y ∷ []) path none
shown (renamed x y meta last score path source) =
    entry_of (x ∷ y ∷ []) (score ++ b' ' ∷ path) (some source)
shown (untracked path) = record {
  path = path;
  original_path = none;
  index = codes "?";
  worktree = codes "?";
}

abbrev Spaceless : Text × Text × Text × Text × Text → Type 0
Spaceless (a, b, c, d, e) =
    (has_byte b' ' a ≡ false)
    × (has_byte b' ' b ≡ false)
    × (has_byte b' ' c ≡ false)
    × (has_byte b' ' d ≡ false)
    × (has_byte b' ' e ≡ false)

-- The fields of a change hold no space, and its two status letters are none.
abbrev pub IsPrinted : Change → Type 0
IsPrinted (ordinary x y meta last path) =
    (has_byte b' ' (x ∷ y ∷ []) ≡ false) × Spaceless meta × (has_byte b' ' last ≡ false)
IsPrinted (renamed x y meta last score path source) =
    (has_byte b' ' (x ∷ y ∷ []) ≡ false) × Spaceless meta × (has_byte b' ' last ≡ false)
IsPrinted (untracked path) = Unit {0}

module _ (lossy : Bytes → Text) where
  -- The records are valid UTF-8, which the decoder leaves as they are.
  abbrev pub Decoded : List Bytes → Type 0
  Decoded rs = All (λ r. lossy r ≡ r) rs

-- Records as Git prints them with `-z`: a zero byte ends each.
abbrev terminated : List Bytes → Bytes → Bytes
terminated [] rest = rest
terminated (r ∷ rs) rest = r ++ 0 ∷ terminated rs rest

abbrev print_changes : List Change → Bytes
print_changes [] = []
print_changes (ch ∷ chs) = terminated (records ch) (print_changes chs)

-- The output of `git status --porcelain=v2 --branch -z` at a commit, on a branch with no upstream, with
-- these changes.
abbrev pub printed : Text → Text → List Change → Bytes
printed oid name chs =
    (codes "# branch.oid " ++ oid)
    ++ 0 ∷ ((codes "# branch.head " ++ name) ++ 0 ∷ print_changes chs)

abbrev all_records : List Change → List Bytes
all_records [] = [] ∷ []
all_records (ch ∷ chs) = records ch ++ all_records chs

abbrev pub Unbroken : List Bytes → Type 0
Unbroken rs = All (λ r. has_byte 0 r ≡ false) rs

abbrev with_entries : List GitStatusEntry → GitStatus → GitStatus
with_entries entries st = record st { entries = st.entries ++ entries }
