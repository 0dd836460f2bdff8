-- ===== src/Gate.antt =====
-- crates/leave-crypto/src/lib.rs: the release gate that keeps remote operation off.
pub mod Laws
mod Tests
use leave_cli.Prelude.{Bool, true, false, ◌&&◌, Result, ok, err, if◌then◌else◌}

pub data GateCheck : Type 0 where
  passed blocked : GateCheck

pub record CryptoReleaseStatus : Type 0 where
  pub openmls_compiled : GateCheck
  pub advisory_graph_clean : GateCheck
  pub native_wasm_vectors_pass : GateCheck
  pub browser_persistence_pass : GateCheck
  pub external_review_recorded : GateCheck

-- `CryptoReleaseStatus::current`.
abbrev pub current : CryptoReleaseStatus
current = record {
  openmls_compiled = blocked;
  advisory_graph_clean = blocked;
  native_wasm_vectors_pass = blocked;
  browser_persistence_pass = blocked;
  external_review_recorded = blocked;
}

abbrev is_passed : GateCheck → Bool
is_passed passed = true
is_passed blocked = false

unfoldable pub allows_remote_release : CryptoReleaseStatus → Bool
allows_remote_release s =
    is_passed s.openmls_compiled
    && is_passed s.advisory_graph_clean
    && is_passed s.native_wasm_vectors_pass
    && is_passed s.browser_persistence_pass
    && is_passed s.external_review_recorded

pub data CryptoGateError : Type 0 where
  blocked_by : CryptoReleaseStatus → CryptoGateError

-- `require_remote_release`, of the status that it reads.
unfoldable pub require_remote_release_of : CryptoReleaseStatus → Result CryptoGateError (Unit {0})
unfolding allows_remote_release
require_remote_release_of status =
    if allows_remote_release status then ok tt else err (blocked_by status)

unfoldable pub require_remote_release : Result CryptoGateError (Unit {0})
unfolding require_remote_release_of
require_remote_release = require_remote_release_of current
