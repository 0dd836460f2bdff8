-- ===== src/Process.antt =====
-- Child processes (`tokio::process::Command`), as apps/leave/src/git.rs and customization.rs use
-- them: one program, run with arguments that no shell reads, in the workspace.
use leave_cli.Prelude.{Bool, Option, List}
use leave_cli.Prelude.Text.{Text}
use leave_cli.Crypto.Error.{Bytes}

pub record Output : Type 0 where
  pub success : Bool
  -- How the exit status is displayed.
  pub status : Text
  pub stdout : Bytes
  pub stderr : Bytes

-- A program over the states `W` of the computer; `none` if it could not be started. The two decoders
-- are `String::from_utf8_lossy` and `String::from_utf8`.
pub record Program (W : Type 0) : Type 0 where
  pub execute : List Text → W → Option Output × W
  pub lossy : Bytes → Text
  pub from_utf8 : Bytes → Option Text
