-- ===== src/M1/Runs.antt =====
-- `assert_run_owner` and `observe_run` of `M1Service`
-- (apps/m1_rtl_to_gds/src/openroad_app_m1/service.py).
use agentic_rtlto_gds_design.Prelude.{
  String, Bool, false, ◌&&◌, ◌||◌, Option, none, some, List, [], ◌∷◌, if◌then◌else◌, ◌==◌,
}
use agentic_rtlto_gds_design.Prelude.Text.{◌<>◌}
use agentic_rtlto_gds_design.Prelude.Lists.{elem}
use agentic_rtlto_gds_design.Prelude.Dict.{values}
use agentic_rtlto_gds_design.Prelude.Result.{
  Error, key_error, permission_error, Result, ok, err, Check, require,
}
use agentic_rtlto_gds_design.Prelude.Result
use agentic_rtlto_gds_design.Prelude.Action.{Action, pure, ◌>>◌}
use agentic_rtlto_gds_design.Contracts.Evidence.{EvidenceRef}
use agentic_rtlto_gds_design.M1.Models.{CheckStatus, passed, failed, is_running, RtlVersion}
use agentic_rtlto_gds_design.M1.Store.{run_owner}
use agentic_rtlto_gds_design.M1.State.{Service, find_session}
use agentic_rtlto_gds_design.M1.Versions.{record_verification, record_simulation}

-- `value == run_id`
abbrev pub is_run : String → Option String → Bool
is_run run_id none = false
is_run run_id (some r) = r == run_id

abbrev pub not_yours : Error
not_yours = permission_error "run belongs to another v2 identity"

-- An owner is the caller, or the call is refused.
unfoldable pub check_owner : String → String → Check
check_owner owner_id owner = require (owner == owner_id) not_yours

-- `run_id in {version.verification_run_id, version.simulation_run_id}`
abbrev pub has_run : String → RtlVersion → Bool
has_run run_id v = is_run run_id v.verification_run_id || is_run run_id v.simulation_run_id

-- The last loop of `assert_run_owner`, over the evidence.
unfoldable pub owner_by_evidence : String → String → List EvidenceRef → Check
owner_by_evidence run_id owner_id [] = err (key_error ("unknown M1 run: " <> run_id))
owner_by_evidence run_id owner_id (e ∷ rest) =
    if e.run_id == run_id
    then check_owner owner_id e.owner_id
    else owner_by_evidence run_id owner_id rest

-- The loop over the versions, and what follows it.
unfoldable pub owner_by_version : String → String → Service → List RtlVersion → Check
owner_by_version run_id owner_id s [] = owner_by_evidence run_id owner_id (values s.evidence)
owner_by_version run_id owner_id s (v ∷ rest) =
    if has_run run_id v
    then Result.◌>>=◌ (find_session v.spec_id s) (λ session. check_owner owner_id session.owner_id)
    else owner_by_version run_id owner_id s rest

unfoldable pub assert_run_owner : String → String → Service → Check
assert_run_owner run_id owner_id s = elim (run_owner run_id s.store) [
  | some stored_owner ↦ check_owner owner_id stored_owner
  | none ↦ owner_by_version run_id owner_id s (values s.versions)
]

abbrev pub terminal_statuses : List String
terminal_statuses = "succeeded" ∷ "failed" ∷ "cancelled" ∷ "timed_out" ∷ []

-- `PASSED if status == "succeeded" else FAILED`
abbrev pub result_of : String → CheckStatus
result_of status = if status == "succeeded" then passed else failed

-- The first test of the loop body of `observe_run`.
unfoldable pub observe_verification :
    String → CheckStatus → String × RtlVersion → Action Service (Unit {0})
observe_verification run_id result entry =
    if is_run run_id entry.1.verification_run_id && is_running entry.1.verification_status
    then (do record_verification entry.0 result run_id; pure tt)
    else pure tt

-- The second test. It reads the version as it was before the loop.
unfoldable pub observe_simulation :
    String → CheckStatus → String × RtlVersion → Action Service (Unit {0})
observe_simulation run_id result entry =
    if is_run run_id entry.1.simulation_run_id && is_running entry.1.simulation_status
    then (do record_simulation entry.0 result run_id; pure tt)
    else pure tt

-- The loop of `observe_run`, over the versions as they were before it.
unfoldable pub observe_versions :
    String → CheckStatus → List (String × RtlVersion) → Action Service (Unit {0})
observe_versions run_id result [] = pure tt
observe_versions run_id result (entry ∷ rest) = do
  observe_verification run_id result entry
  observe_simulation run_id result entry
  observe_versions run_id result rest

unfoldable pub observe_run : String → String → Action Service (Unit {0})
observe_run run_id status s =
    if elem status terminal_statuses
    then observe_versions run_id (result_of status) s.versions s
    else (ok tt, s)
