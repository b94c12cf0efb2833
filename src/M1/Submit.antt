-- ===== src/M1/Submit.antt =====
-- The operations of `M1Service` that talk to v2
-- (apps/m1_rtl_to_gds/src/openroad_app_m1/service.py): `create_rtl_version_from_v2`,
-- `register_verification_package` and the three `submit_…` methods.
use agentic_rtlto_gds_design.Prelude.{String, Option, none, some, if◌then◌else◌, ◌==◌}
use agentic_rtlto_gds_design.Prelude.Text.{is_empty, ◌<>◌}
use agentic_rtlto_gds_design.Prelude.Dict.{insert, contains}
use agentic_rtlto_gds_design.Prelude.Result.{value_error, Result, ok, err}
use agentic_rtlto_gds_design.Prelude.Action.{
  Action, pure, lift, gets, modify, raise_when, raise_unless, ◌>>=◌, ◌>>◌,
}
use agentic_rtlto_gds_design.Contracts.RtlFrontend.{VerificationPackage, validate_package}
use agentic_rtlto_gds_design.M1.Models.{running, is_frozen, RtlVersion}
use agentic_rtlto_gds_design.M1.Store.{put_verification_package, put_run_owner}
use agentic_rtlto_gds_design.M1.State.{
  Service, Stdlib, on_store, query, find_session, get_rtl_version, save_version,
}
use agentic_rtlto_gds_design.M1.V2.{V2Client, submit_task}
use agentic_rtlto_gds_design.M1.Requests.{build_verification_request, build_simulation_request}
use agentic_rtlto_gds_design.M1.Requests.Gds.{build_rtl_to_gds_request}
use agentic_rtlto_gds_design.M1.Versions.{create_rtl_version}

-- The test on the reply of `upload_rtl`.
unfoldable pub uploaded_id : Option String → Result String
uploaded_id none = err (value_error "v2 input upload did not return input_id")
uploaded_id (some given) =
    if is_empty given then err (value_error "v2 input upload did not return input_id") else ok given

unfoldable pub create_rtl_version_from_v2 :
    Stdlib
    → String
    → String
    → String
    → String
    → V2Client
    → Option String
    → Action Service RtlVersion
create_rtl_version_from_v2 lib uuid spec_id rtl_source generator v2 parent_version_id = do
  reply ← lift (v2.upload_rtl rtl_source)
  given ← lift (uploaded_id reply)
  create_rtl_version lib uuid spec_id rtl_source generator parent_version_id
      (some ("input:" <> given))

unfoldable pub register_verification_package :
    String → VerificationPackage → Action Service VerificationPackage
unfolding put_verification_package
register_verification_package spec_id pack = do
  session ← query (find_session spec_id)
  raise_unless (is_frozen session.state) (value_error "VerificationPackage requires a frozen spec")
  raise_unless (pack.spec_id == spec_id) (value_error "VerificationPackage belongs to another spec")
  lift (validate_package pack)
  known ← gets (λ s. contains spec_id s.verification_packages)
  raise_when known (value_error "VerificationPackage is already frozen for this spec")
  modify λ s. record s { verification_packages = insert spec_id pack s.verification_packages }
  on_store (put_verification_package pack)
  pure pack

-- A verification run is saved before the service remembers it.
unfoldable pub submit_verification : String → V2Client → Action Service String
submit_verification version_id v2 = do
  task ← query (build_verification_request version_id v2)
  run_id ← lift (submit_task task v2)
  version ← query (get_rtl_version version_id)
  let updated : RtlVersion = record version {
    verification_status = running;
    verification_run_id = some run_id;
  }
  save_version updated
  modify (λ s. record s { versions = insert version_id updated s.versions })
  pure run_id

-- A simulation run is remembered before it is saved.
unfoldable pub submit_simulation : String → V2Client → Action Service String
submit_simulation version_id v2 = do
  task ← query (build_simulation_request version_id v2)
  run_id ← lift (submit_task task v2)
  version ← query (get_rtl_version version_id)
  let updated : RtlVersion = record version {
    simulation_status = running;
    simulation_run_id = some run_id;
  }
  modify (λ s. record s { versions = insert version_id updated s.versions })
  save_version updated
  pure run_id

unfoldable pub submit_rtl_to_gds : Stdlib → String → String → V2Client → Action Service String
unfolding put_run_owner
submit_rtl_to_gds lib version_id pdk v2 = do
  task ← query (build_rtl_to_gds_request lib version_id pdk v2)
  run_id ← lift (submit_task task v2)
  version ← query (get_rtl_version version_id)
  session ← query (find_session version.spec_id)
  on_store (put_run_owner run_id session.owner_id)
  pure run_id
