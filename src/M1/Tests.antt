-- ===== src/M1/Tests.antt =====
-- A counter specification and the records of its flow, at which the theorems on M1 apply.
mod Ready
mod Recorded
mod Histories
mod Documents
mod Observed
mod Web
use agentic_rtlto_gds_design.Prelude.{String, true, none, some, List, [], ◌∷◌, arith, eq_iff}
use agentic_rtlto_gds_design.Prelude.Dict.{lookup}
use agentic_rtlto_gds_design.Prelude.Json.{pos, int, str}
use agentic_rtlto_gds_design.Prelude.Result.{ok}
use agentic_rtlto_gds_design.Contracts.RtlFrontend.{SpecIr, VerificationPackage}
use agentic_rtlto_gds_design.M1.Evidence.{Artifact}
use agentic_rtlto_gds_design.M1.History.{IsKeyed}
use agentic_rtlto_gds_design.M1.Models.{frozen, passed, M1Session, RtlVersion}
use agentic_rtlto_gds_design.M1.State.{Stdlib, Service}
use agentic_rtlto_gds_design.M1.Store.{empty_store}
use agentic_rtlto_gds_design.M1.V2.{Plugin, V2Client}

abbrev pub digest : String
digest = "0123456789abcdef0123456789abcdef0123456789abcdef0123456789abcdef"

abbrev pub constant_lib : Stdlib
constant_lib = record {
  sha256 = λ text. digest;
  dumps = λ json. "{}";
  parse_iso = λ text. some true;
  format = λ json. "None";
}

abbrev pub counter_spec : SpecIr
counter_spec = record {
  spec_id = "counter-spec";
  design_id = "counter";
  top = "counter";
  functionality = "counts clock edges";
  objective = "teaching";
  ports =
      record { name = "clk"; direction = "input"; width = some (pos 1); schema_version = pos 1 }
      ∷ record { name = "q"; direction = "output"; width = some (pos 8); schema_version = pos 1 }
      ∷ [];
  clock = some "clk";
  reset = none;
  constraints = ("clock_period_ns", int (pos 10)) ∷ [];
  assumptions = [];
  acceptance_criteria = "q increments" ∷ [];
  schema_version = pos 1;
}

abbrev pub frozen_session : M1Session
frozen_session = record {
  spec_id = "spec-1";
  owner_id = "alice";
  state = frozen;
  spec = some counter_spec;
  clarification_questions = [];
  unsupported_reason = none;
  frozen_fingerprint = some digest;
}

abbrev pub passed_version : RtlVersion
passed_version = record {
  version_id = "rtl-1";
  spec_id = "spec-1";
  rtl_sha256 = digest;
  generator = "llm";
  verification_status = passed;
  verification_run_id = some "run-1";
  simulation_status = passed;
  simulation_run_id = some "run-2";
  parent_version_id = none;
  source_ref = some "input:1";
}

abbrev pub counter_package : VerificationPackage
counter_package = record {
  verification_id = "verification-1";
  spec_id = "spec-1";
  compile_checks = "lint" ∷ [];
  simulation_oracle_refs = "source:oracle" ∷ [];
  simulation_top = some "counter_tb";
  formal_property_refs = [];
  coverage_targets = [];
  schema_version = pos 1;
}

-- A service with one version of the specification.
abbrev pub service_with : RtlVersion → Service
service_with v = record {
  sessions = ("spec-1", frozen_session) ∷ [];
  versions = ("rtl-1", v) ∷ [];
  verification_packages = ("spec-1", counter_package) ∷ [];
  evidence = [];
  run_outcomes = [];
  store = empty_store;
}

abbrev pub plugin : String → String → Plugin
plugin name capability = record {
  plugin_id = some name;
  admission = some "admitted";
  executable = some true;
  capabilities = capability ∷ [];
}

-- A client that admits the three plugins and names every run by one identifier.
abbrev pub client : String → V2Client
client run_id = record {
  plugins = ok (
      plugin "rtl-verify" "eda.rtl.verify"
      ∷ plugin "rtl-sim" "eda.rtl.simulate"
      ∷ plugin "orfs" "eda.rtl_to_gds"
      ∷ []);
  submit = λ task key. ok (some run_id);
  upload_rtl = λ source. ok (some "1");
}

abbrev pub artifact : String → Artifact
artifact kind = record {
  kind = some kind;
  artifact_id = some (str "1");
  format = some "toolchain-snapshot";
  store_key = some "plan.json";
  sha256 = some digest;
}

abbrev pub all_artifacts : List Artifact
all_artifacts =
    artifact "gds" ∷ artifact "def" ∷ artifact "odb" ∷ artifact "netlist" ∷ artifact "report" ∷ []

abbrev pub ready : Service
ready = service_with passed_version

pub ready-IsKeyed : IsKeyed ready
unfolding lookup
ready-IsKeyed = record {
  sessions = λ k x h. ground (arith, eq_iff "spec-1" k);
  versions = λ k v h. ground (arith, eq_iff "rtl-1" k);
}
