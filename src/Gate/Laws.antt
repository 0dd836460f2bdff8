-- ===== src/Gate/Laws.antt =====
-- The gate fails closed.
use leave_cli.Prelude.{◌≡◌, ◌↔◌, ◌⊎◌, arith, ok, err}
use leave_cli.Gate.{passed, CryptoReleaseStatus, blocked_by, require_remote_release_of}

pub record AllPassed (s : CryptoReleaseStatus) : Type 0 where
  pub openmls : s.openmls_compiled ≡ passed
  pub advisories : s.advisory_graph_clean ≡ passed
  pub vectors : s.native_wasm_vectors_pass ≡ passed
  pub persistence : s.browser_persistence_pass ≡ passed
  pub review : s.external_review_recorded ≡ passed

-- A release status opens the gate exactly when all five checks have passed, whatever mix of them
-- has; otherwise the refusal names that status.
pub require_remote_release_iff :
    (s : CryptoReleaseStatus)
    → ((require_remote_release_of s ≡ ok tt) ↔ AllPassed s)
      × ((require_remote_release_of s ≡ err (blocked_by s)) ⊎ (require_remote_release_of s ≡ ok tt))
unfolding require_remote_release_of
require_remote_release_iff s = (ground arith, ground arith)
