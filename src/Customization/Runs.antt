-- ===== src/Customization/Runs.antt =====
-- The runs of `devin` that a request can cause.
use leave_cli.Prelude.{◌≡◌, Bool, true, false, ◌||◌, Option, List, [], ◌∷◌}
use leave_cli.Prelude.Text.{Text, codes, text_eq}
use leave_cli.Crypto.Error.{Bytes}
use leave_cli.Process.{Output, Program}
use leave_cli.Git.Arguments.{recorder}
use leave_cli.Customization.{CustomizationMutation, Url, list, show, mutate}
use leave_cli.Customization.Skills.{SkillFiles}
use leave_cli.Customization.Grants.{IsGranted}

pub data CustomizationRequest : Type 0 where
  list_request : Text → CustomizationRequest
  show_request : Text → Text → CustomizationRequest
  mutate_request : CustomizationMutation → CustomizationRequest

module _ {W : Type 0} (devin : Program W) (files : SkillFiles) (parse : Text → Option Url)
    (allow_global : Bool) where
  -- What a request does to the computer.
  abbrev pub perform : CustomizationRequest → W → W
  perform (list_request category) w = (list devin files category allow_global w).1
  perform (show_request category name) w = (show devin files category name allow_global w).1
  perform (mutate_request m) w = (mutate devin parse m allow_global w).1

-- Arguments that read the rules, which are the project's.
abbrev reads_rules : List Text → Bool
reads_rules [] = false
reads_rules (a ∷ rest) = text_eq a (codes "rules")

-- What must hold of each run that a request causes.
abbrev pub Permits : Bool → (Text → Option Url) → CustomizationRequest → List Text → Type 0
Permits allow_global parse (list_request category) arguments =
    (allow_global || reads_rules arguments) ≡ true
Permits allow_global parse (show_request category name) arguments =
    (allow_global || reads_rules arguments) ≡ true
Permits allow_global parse (mutate_request m) arguments = IsGranted parse m allow_global arguments

module _ (answer : List Text → Option Output) (lossy : Bytes → Text)
    (from_utf8 : Bytes → Option Text) (files : SkillFiles) (parse : Text → Option Url)
    (allow_global : Bool) where
  abbrev devin : Program (List (List Text))
  devin = recorder answer lossy from_utf8

  abbrev pub recorded : CustomizationRequest → List (List Text)
  recorded request = perform devin files parse allow_global request []

  abbrev Reads : Bool → List Text → Type 0
  Reads granted arguments = (granted || reads_rules arguments) ≡ true
