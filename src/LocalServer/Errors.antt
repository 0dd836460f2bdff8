-- ===== src/LocalServer/Errors.antt =====
-- apps/leave/src/local_server.rs: `ApiError`, with the messages of
-- crates/leave-core/src/guarded_fs.rs.
use leave_cli.Prelude.{ℕ, Bool, true, false, ◌++◌, if◌then◌else◌}
use leave_cli.Prelude.Text.{Text, codes, contains}
use leave_cli.Files.{
  GuardedFsError, invalid_path, not_directory, outside_workspace, symlink_write_denied, not_utf8,
  too_large, io, conflict,
}

pub record ApiError : Type 0 where
  pub status : ℕ
  pub message : Text

abbrev with_status : ℕ → Text → ApiError
with_status status message = record { status = status; message = message }

abbrev pub bad_request : Text → ApiError
bad_request = with_status 400

abbrev pub forbidden : Text → ApiError
forbidden = with_status 403

abbrev pub not_found : Text → ApiError
not_found = with_status 404

abbrev pub conflict_error : Text → ApiError
conflict_error = with_status 409

abbrev pub unavailable : Text → ApiError
unavailable = with_status 503

abbrev pub payload_too_large : Text → ApiError
payload_too_large = with_status 413

-- `From<anyhow::Error>`, for the errors of the store.
abbrev pub internal : ApiError
internal = with_status 500 (codes "the local host could not complete this request")

-- `ApiError::from_guarded_fs`; the flag says that the kind of an I/O error is `NotFound`.
unfoldable pub from_guarded_fs : Bool → GuardedFsError → ApiError
from_guarded_fs missing (conflict hash) =
    conflict_error (codes "file changed since it was read; current hash is " ++ hash)
from_guarded_fs missing invalid_path = forbidden (codes "path is invalid")
from_guarded_fs missing outside_workspace =
    forbidden (codes "path escapes the registered workspace")
from_guarded_fs missing symlink_write_denied =
    forbidden (codes "writes through symlinks are denied")
from_guarded_fs missing not_utf8 = with_status 422 (codes "file is not valid UTF-8")
from_guarded_fs missing too_large =
    payload_too_large (codes "file exceeds the 2 MiB direct-editing limit")
from_guarded_fs missing not_directory = bad_request (codes "workspace path is not a directory")
from_guarded_fs true io = not_found (codes "file or directory was not found")
from_guarded_fs false io = unavailable (codes "the host could not access that path")

-- `ApiError::forbidden_error`, by the words of the message.
unfoldable pub forbidden_error : Text → ApiError
forbidden_error message =
    if contains message (codes " is off")
    then forbidden message
    else if contains message (codes "preview URL")
    then bad_request message
    else unavailable message
