-- ===== src/Gate/Tests.antt =====
-- This build's own status, and the theorem at it.
use leave_cli.Prelude.{◌≡◌, refl, err}
use leave_cli.Gate.{current, blocked_by, require_remote_release}

-- This build's own status is refused.
build_is_refused : require_remote_release ≡ err (blocked_by current)
unfolding require_remote_release
build_is_refused = refl
