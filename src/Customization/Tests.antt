-- ===== src/Customization/Tests.antt =====
-- Runs of the customization module on small inputs.
use leave_cli.Prelude.{true, Option, none, some, List, [], ◌∷◌}
use leave_cli.Prelude.Text.{Text, codes}
use leave_cli.Process.{Output}
use leave_cli.Customization.{CustomizationMutation}
use leave_cli.Customization.Skills.{SkillFiles, missing}

abbrev removal : CustomizationMutation
removal = record {
  kind = codes "mcp";
  action = codes "remove";
  name = b'x' ∷ [];
  scope = codes "project";
  url = [];
  transport = [];
  command = [];
  arguments = [];
  confirmation = codes "REMOVE MCP x";
}

abbrev no_files : SkillFiles
no_files = record { read_dir = λ p. missing; metadata = λ p. none; read_to_string = λ p. none }

abbrev quiet : List Text → Option Output
quiet arguments = some (record { success = true; status = []; stdout = []; stderr = [] })
