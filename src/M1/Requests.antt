-- ===== src/M1/Requests.antt =====
-- `build_verification_request`, `build_simulation_request` and `build_rtl_to_gds_request` of
-- `M1Service` (apps/m1_rtl_to_gds/src/openroad_app_m1/service.py). None of them writes.
pub mod Gds
use agentic_rtlto_gds_design.Prelude.{
  String, true, Option, none, some, List, [], ◌∷◌, if◌then◌else◌, starts_with,
}
use agentic_rtlto_gds_design.Prelude.Text.{is_empty, remove_prefix, ◌<>◌}
use agentic_rtlto_gds_design.Prelude.Json.{str, texts}
use agentic_rtlto_gds_design.Prelude.Dict.{lookup}
use agentic_rtlto_gds_design.Prelude.Result.{value_error, Result, ok, err, ◌>>=◌, ◌>>◌, require}
use agentic_rtlto_gds_design.Contracts.RtlFrontend.{SpecIr, VerificationPackage}
use agentic_rtlto_gds_design.M1.Models.{M1State, frozen, passed, is_passed, RtlVersion}
use agentic_rtlto_gds_design.M1.State.{Service, find_session, get_rtl_version}
use agentic_rtlto_gds_design.M1.V2.{
  StagedRef, input_id, artifact_id, StagedInput, TaskRequest, V2Client, require_admitted,
}

-- `session.state is FROZEN and session.spec is not None`, and the specification
unfoldable pub frozen_spec : M1State → Option SpecIr → String → Result SpecIr
frozen_spec frozen (some spec) message = ok spec
frozen_spec _ _ message = err (value_error message)

-- `if not value: raise`, and the value
unfoldable pub given_text : Option String → String → Result String
given_text none message = err (value_error message)
given_text (some source) message = if is_empty source then err (value_error message) else ok source

unfoldable pub find_package : String → Service → String → Result VerificationPackage
find_package spec_id s message = elim (lookup spec_id s.verification_packages) [
  | none ↦ err (value_error message)
  | some pack ↦ ok pack
]

-- The staged RTL of a specification.
abbrev pub rtl_path : SpecIr → String
rtl_path spec = "inputs/" <> spec.top <> ".sv"

abbrev pub stage_rtl : SpecIr → String → StagedInput
stage_rtl spec source = record {
  destination = rtl_path spec;
  reference = input_id (remove_prefix source "input:");
  required = true;
}

abbrev pub verification_task : RtlVersion → SpecIr → VerificationPackage → String → TaskRequest
verification_task version spec pack source = record {
  schema_version = 3;
  task_id = "m1-verify-" <> version.version_id;
  project_id = "teaching-m1";
  design_id = "m1-" <> version.version_id;
  plugin_id = "rtl-verify";
  inputs =
      ("rtl_path", str (rtl_path spec))
      ∷ ("top", str spec.top)
      ∷ ("spec_id", str version.spec_id)
      ∷ ("verification_id", str pack.verification_id)
      ∷ ("compile_checks", texts pack.compile_checks)
      ∷ [];
  staged_inputs = stage_rtl spec source ∷ [];
  parameters = [];
  resources = [];
  expected_artifacts = "rtl" ∷ "verification_report" ∷ "log" ∷ [];
  timeout_seconds = 600;
  max_attempts = 1;
}

unfoldable pub build_verification_request : String → V2Client → Service → Result TaskRequest
build_verification_request version_id v2 s = do
  version ← get_rtl_version version_id s
  session ← find_session version.spec_id s
  spec ← frozen_spec session.state session.spec "verification requires a frozen spec"
  source ← given_text version.source_ref "RTL source must be staged in v2 before verification"
  pack ← find_package version.spec_id s "verification requires a frozen VerificationPackage"
  require_admitted v2 "rtl-verify" "eda.rtl.verify"
  ok (verification_task version spec pack source)

-- `len(simulation_oracle_refs) != 1`, and the reference
unfoldable pub single_oracle : List String → Result String
single_oracle (r ∷ []) = ok r
single_oracle _ = err (value_error "simulation requires exactly one frozen oracle artifact")

-- The staging of the oracle: an artifact or a source, with a name that is not empty.
unfoldable pub stage_oracle : String → Result StagedRef
stage_oracle oracle_ref =
    let artifact = remove_prefix oracle_ref "artifact:" in
    let source = remove_prefix oracle_ref "source:" in
    if starts_with oracle_ref "artifact:"
    then (if is_empty artifact
        then err (value_error "simulation oracle reference is empty")
        else ok (artifact_id artifact))
    else if starts_with oracle_ref "source:"
    then (if is_empty source
        then err (value_error "simulation oracle reference is empty")
        else ok (input_id source))
    else err (value_error "simulation oracle reference must be an artifact or source")

abbrev pub simulation_task :
    RtlVersion → SpecIr → VerificationPackage → String → String → StagedRef → TaskRequest
simulation_task version spec pack source simulation_top oracle = record {
  schema_version = 3;
  task_id = "m1-sim-" <> version.version_id;
  project_id = "teaching-m1";
  design_id = "m1-" <> version.version_id;
  plugin_id = "rtl-sim";
  inputs =
      ("rtl_path", str (rtl_path spec))
      ∷ ("testbench_path", str "verification/oracle.sv")
      ∷ ("top", str spec.top)
      ∷ ("simulation_top", str simulation_top)
      ∷ ("spec_id", str version.spec_id)
      ∷ ("verification_id", str pack.verification_id)
      ∷ [];
  staged_inputs =
      stage_rtl spec source
      ∷ record { destination = "verification/oracle.sv"; reference = oracle; required = true }
      ∷ [];
  parameters = [];
  resources = [];
  expected_artifacts = "simulation_report" ∷ "log" ∷ [];
  timeout_seconds = 600;
  max_attempts = 1;
}

unfoldable pub build_simulation_request : String → V2Client → Service → Result TaskRequest
build_simulation_request version_id v2 s = do
  version ← get_rtl_version version_id s
  session ← find_session version.spec_id s
  spec ← frozen_spec session.state session.spec "simulation requires a frozen spec"
  require (is_passed version.verification_status)
      (value_error "simulation requires passed compile/lint verification")
  source ← given_text version.source_ref "RTL source must be staged in v2 before simulation"
  pack ← find_package version.spec_id s "simulation requires a frozen VerificationPackage"
  oracle_ref ← single_oracle pack.simulation_oracle_refs
  simulation_top ← given_text pack.simulation_top "simulation requires a frozen simulation_top"
  oracle ← stage_oracle oracle_ref
  require_admitted v2 "rtl-sim" "eda.rtl.simulate"
  ok (simulation_task version spec pack source simulation_top oracle)
