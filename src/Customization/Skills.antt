-- ===== src/Customization/Skills.antt =====
-- apps/leave/src/customization.rs: the skills of a project, read from its own directories only.
use leave_cli.Prelude.{
  ℕ, ◌*◌, Bool, false, not, ◌&&◌, Option, none, some, List, [], ◌∷◌, ◌++◌, Result, ok, err, ok_or,
  refuse_if, ◌>>=◌, ◌>>◌, ltb, if◌then◌else◌,
}
use leave_cli.Prelude.Text.{Text, codes, text_eq, before}
use leave_cli.Crypto.Storage.{bytes_le}
use leave_cli.Files.{FilePath, components, is_absolute}

pub data CustomizationError : Type 0 where
  bad_name bad_source bad_confirmation bad_scope bad_url bad_command bad_transport :
      CustomizationError
  global_inventory global_detail global_plugins global_scope : CustomizationError
  unknown_category unsupported not_started too_much_output : CustomizationError
  bad_skill_name no_skill skill_not_text io_failed : CustomizationError
  failed : Text → CustomizationError

abbrev pub max_output : ℕ
max_output = 2 * 1024 * 1024

pub record Metadata : Type 0 where
  pub is_symlink : Bool
  pub is_dir : Bool
  pub is_file : Bool
  pub len : ℕ

-- What `read_dir` and its entries give: the directory is missing, cannot be read, or has these names.
pub data Listing : Type 0 where
  missing unreadable : Listing
  names : List Text → Listing

-- The file system below a workspace, by paths from it. `metadata` does not follow symbolic links.
pub record SkillFiles : Type 0 where
  pub read_dir : FilePath → Listing
  pub metadata : FilePath → Option Metadata
  pub read_to_string : FilePath → Option Text

abbrev pub project_skill_paths : List Text
project_skill_paths =
    codes ".devin/skills" ∷ codes ".cognition/skills" ∷ codes ".agents/skills" ∷ []

abbrev skill_path : Text → Text → FilePath
skill_path relative name = components relative ++ components name

abbrev manifest_path : Text → Text → FilePath
manifest_path relative name = skill_path relative name ++ codes "SKILL.md" ∷ []

abbrev is_plain_dir : Metadata → Bool
is_plain_dir m = not m.is_symlink && m.is_dir

abbrev is_plain_file : Option Metadata → Bool
is_plain_file none = false
is_plain_file (some m) = not m.is_symlink && m.is_file

abbrev skill_line : Text → Text → Text
skill_line relative name = name ++ codes "  " ++ relative ++ codes "/" ++ name ++ codes "/SKILL.md"

-- The skills among the entries of one directory.
abbrev skills_among : SkillFiles → Text → List Text → Result CustomizationError (List Text)
skills_among files relative [] = ok []
skills_among files relative (name ∷ rest) = do
  m ← ok_or (files.metadata (skill_path relative name)) io_failed
  more ← skills_among files relative rest
  ok (
      if is_plain_dir m && is_plain_file (files.metadata (manifest_path relative name))
      then skill_line relative name ∷ more
      else more)

abbrev skills_in : SkillFiles → Text → Result CustomizationError (List Text)
skills_in files relative = elim (files.read_dir (components relative)) [
  | missing ↦ ok []
  | unreadable ↦ err io_failed
  | names found ↦ skills_among files relative found
]

abbrev all_skills : SkillFiles → List Text → Result CustomizationError (List Text)
all_skills files [] = ok []
all_skills files (relative ∷ rest) = do
  here ← skills_in files relative
  more ← all_skills files rest
  ok (here ++ more)

abbrev insert_text : Text → List Text → List Text
insert_text t [] = t ∷ []
insert_text t (u ∷ us) = if bytes_le t u then t ∷ u ∷ us else u ∷ insert_text t us

abbrev sort_texts : List Text → List Text
sort_texts [] = []
sort_texts (t ∷ ts) = insert_text t (sort_texts ts)

abbrev joined : List Text → Text
joined [] = []
joined (t ∷ []) = t
joined (t ∷ u ∷ us) = t ++ b'\n' ∷ joined (u ∷ us)

unfoldable pub list_project_skills : SkillFiles → Result CustomizationError Text
list_project_skills files = do
  skills ← all_skills files project_skill_paths
  ok (joined (sort_texts skills))

-- A name of one normal component.
abbrev is_one_component : Text → List Text → Bool
is_one_component name (c ∷ []) =
    not (is_absolute name)
    && not (text_eq (before b'/' name) (codes "."))
    && not (text_eq c (codes ".."))
is_one_component name _ = false

abbrev is_short : Option Metadata → Bool
is_short none = false
is_short (some m) = not (ltb max_output m.len)

abbrev has_skill : SkillFiles → Text → Text → Bool
has_skill files relative name = elim (files.metadata (skill_path relative name)) [
  | none ↦ false
  | some m ↦
      is_plain_dir m
      && is_plain_file (files.metadata (manifest_path relative name))
      && is_short (files.metadata (manifest_path relative name))
]

abbrev first_skill : SkillFiles → Text → List Text → Result CustomizationError Text
first_skill files name [] = err no_skill
first_skill files name (relative ∷ rest) =
    if has_skill files relative name
    then ok_or (files.read_to_string (manifest_path relative name)) skill_not_text
    else first_skill files name rest

unfoldable pub show_project_skill : SkillFiles → Text → Result CustomizationError Text
show_project_skill files name = do
  refuse_if (not (is_one_component name (components name))) bad_skill_name
  first_skill files name project_skill_paths
