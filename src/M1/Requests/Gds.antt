-- ===== src/M1/Requests/Gds.antt =====
-- `build_rtl_to_gds_request` of `M1Service` and the tool paths of
-- apps/m1_rtl_to_gds/src/openroad_app_m1/service.py.
use agentic_rtlto_gds_design.Prelude.{String, none, some, [], ◌∷◌, ◌==◌}
use agentic_rtlto_gds_design.Prelude.Text.{◌<>◌}
use agentic_rtlto_gds_design.Prelude.Json.{pos, Json, int, str, optional_text}
use agentic_rtlto_gds_design.Prelude.Dict.{lookup}
use agentic_rtlto_gds_design.Prelude.Result.{
  value_error, key_error, Result, ok, err, ◌>>=◌, ◌>>◌, require,
}
use agentic_rtlto_gds_design.Contracts.RtlFrontend.{SpecIr, VerificationPackage}
use agentic_rtlto_gds_design.M1.Models.{is_passed, RtlVersion}
use agentic_rtlto_gds_design.M1.State.{Service, Stdlib, find_session, get_rtl_version, fingerprint}
use agentic_rtlto_gds_design.M1.V2.{TaskRequest, V2Client, require_admitted}
use agentic_rtlto_gds_design.M1.Requests.{
  frozen_spec, given_text, find_package, rtl_path, stage_rtl,
}

abbrev pub m1_orfs_root : String
m1_orfs_root = "/share/home/yuanwenjie/OpenROAD-flow-scripts"

abbrev pub m1_openroad_bin : String
m1_openroad_bin = "/share/home/yuanwenjie/bin/openroad"

abbrev pub m1_yosys_bin : String
m1_yosys_bin = "/share/home/yuanwenjie/bin/yosys"

abbrev pub m1_klayout_bin : String
m1_klayout_bin = "/share/home/yuanwenjie/bin/klayout"

-- `constraints["clock_period_ns"] if clock is not None else None`
unfoldable pub clock_period : SpecIr → Result Json
clock_period spec = elim spec.clock [
  | none ↦ ok Json.null
  | some clock ↦ elim (lookup "clock_period_ns" spec.constraints) [
    | none ↦ err (key_error "clock_period_ns")
    | some period ↦ ok period
  ]
]

abbrev pub gds_task :
    RtlVersion → SpecIr → VerificationPackage → String → String → String → Json → TaskRequest
gds_task version spec pack pdk source digest period = record {
  schema_version = 3;
  task_id = "m1-gds-" <> version.version_id <> "-" <> pdk;
  project_id = "teaching-m1";
  design_id = "m1-" <> version.version_id <> "-" <> pdk;
  plugin_id = "orfs";
  inputs =
      ("spec_fingerprint", str digest)
      ∷ ("rtl_sha256", str version.rtl_sha256)
      ∷ ("verification_run_id", optional_text version.verification_run_id)
      ∷ ("verification_id", str pack.verification_id)
      ∷ ("rtl_path", str (rtl_path spec))
      ∷ ("platform", str pdk)
      ∷ ("design", str spec.design_id)
      ∷ ("top", str spec.top)
      ∷ ("clock", optional_text spec.clock)
      ∷ ("clock_period_ns", period)
      ∷ ("target_stage", str "finish")
      ∷ ("orfs_root", str m1_orfs_root)
      ∷ ("openroad_bin", str m1_openroad_bin)
      ∷ ("yosys_bin", str m1_yosys_bin)
      ∷ ("klayout_bin", str m1_klayout_bin)
      ∷ ("stage_timeout_seconds", int (pos 7200))
      ∷ [];
  staged_inputs = stage_rtl spec source ∷ [];
  parameters =
      ("pdk", str pdk) ∷ ("rtl_version_id", str version.version_id) ∷ ("top", str spec.top) ∷ [];
  resources =
      ("cpu_cores", int (pos 4))
      ∷ ("memory_bytes", int (pos 8589934592))
      ∷ ("processes", int (pos 256))
      ∷ [];
  expected_artifacts = "gds" ∷ "odb" ∷ "def" ∷ "netlist" ∷ "report" ∷ [];
  timeout_seconds = 7200;
  max_attempts = 1;
}

unfoldable pub build_rtl_to_gds_request :
    Stdlib → String → String → V2Client → Service → Result TaskRequest
build_rtl_to_gds_request lib version_id pdk v2 s = do
  version ← get_rtl_version version_id s
  require (is_passed version.verification_status)
      (value_error "RTL-to-GDS requires passed verification")
  source ← given_text version.source_ref "RTL source must be staged in v2 before submission"
  require (pdk == "nangate45") (value_error ("PDK is not available in M1: " <> pdk))
  session ← find_session version.spec_id s
  spec ← frozen_spec session.state session.spec "RTL-to-GDS requires a frozen spec"
  pack ← find_package version.spec_id s "RTL-to-GDS requires a frozen VerificationPackage"
  require (is_passed version.simulation_status)
      (value_error "RTL-to-GDS requires passed simulation")
  require_admitted v2 "orfs" "eda.rtl_to_gds"
  digest ← fingerprint lib spec
  period ← clock_period spec
  ok (gds_task version spec pack pdk source digest period)
