-- ===== src/Contracts/Tests.antt =====
-- Concrete records of the contracts, at which the theorems of the contracts apply.
use agentic_rtlto_gds_design.Prelude.{
  String, ◌≡◌, refl, ◌↔◌, inl, inr, true, none, some, [], ◌∷◌, ◌≤◌, starts_with, ◌≢◌,
}
use agentic_rtlto_gds_design.Prelude.Text.{
  text_length, all_chars, is_blank, is_identifier, is_sha256, is_id_char, is_alnum,
}
use agentic_rtlto_gds_design.Prelude.Lists.{for_each, Occurs}
use agentic_rtlto_gds_design.Prelude.Lines.{
  split, take_until, drop_chars, lines_after, splitlines, has_char,
}
use agentic_rtlto_gds_design.Prelude.Dict.{lookup}
use agentic_rtlto_gds_design.Prelude.Json.{pos, int}
use agentic_rtlto_gds_design.Prelude.Result.{ok}
use agentic_rtlto_gds_design.Contracts.RtlFrontend.{
  SpecIr, validate_port, collect_names, validate_signal, validate_ports, validate_spec,
}
use agentic_rtlto_gds_design.Contracts.RtlFrontend.Laws.{HasPorts, validate_spec-HasPorts}
use agentic_rtlto_gds_design.Contracts.Evidence.{
  EvidenceRef, IsoParser, validate_created_at, validate_evidence, HasArtifacts,
  validate_evidence-HasArtifacts,
}
use agentic_rtlto_gds_design.Contracts.Catalog.{
  available, PdkCapability, validate_status, validate_capability, is_smoke_status, is_available,
  is_available-evidence,
}
use agentic_rtlto_gds_design.Contracts.Platform.{
  TaskSpec, validate_task, IsRunnable, validate_task_iff, succeeded, PluginResult, is_result_status,
  validate_result, IsFinal, validate_result-IsFinal,
}
use agentic_rtlto_gds_design.Contracts.Planning.Repairs.{FitsPolicy, validate_repair-FitsPolicy}
use agentic_rtlto_gds_design.Contracts.Planning.{
  validate_experiment_candidate, ExperimentPlan, validate_plan, IsBounded, validate_plan-IsBounded,
  RepairAction, template_of, same_keys, int_within, validate_bounds, validate_template,
  validate_repair,
}
use agentic_rtlto_gds_design.Contracts.Script.{
  ScriptProposal, is_path_part, relative_allowed_path, raw_path, strip_side, collect_paths,
  patch_paths, validate_patch, validate_proposal,
}
use agentic_rtlto_gds_design.Contracts.Script.Confined.{IsConfined, validate_proposal-IsConfined}

abbrev digest : String
digest = "0123456789abcdef0123456789abcdef0123456789abcdef0123456789abcdef"

abbrev counter_spec : SpecIr
counter_spec = record {
  spec_id = "spec-1";
  design_id = "counter";
  top = "counter";
  functionality = "counts clock edges";
  objective = "teaching";
  ports =
      record { name = "clk"; direction = "input"; width = some (pos 1); schema_version = pos 1 }
      ∷ record { name = "q"; direction = "output"; width = some (pos 8); schema_version = pos 1 }
      ∷ [];
  clock = some "clk";
  reset = none;
  constraints = ("clock_period_ns", int (pos 10)) ∷ [];
  assumptions = [];
  acceptance_criteria = "q increments" ∷ [];
  schema_version = pos 1;
}

validate_spec-HasPorts_example : HasPorts counter_spec
unfolding validate_spec validate_ports collect_names validate_port validate_signal is_identifier
    is_id_char is_alnum is_blank text_length all_chars for_each
validate_spec-HasPorts_example = validate_spec-HasPorts counter_spec refl

abbrev iso_any : IsoParser
iso_any text = some true

abbrev gds_record : EvidenceRef
gds_record = record {
  evidence_id = "evidence-1";
  owner_id = "alice";
  spec_id = "spec-1";
  candidate_id = "rtl-1";
  run_id = "run-1";
  artifact_ids = "artifact:gds:1" ∷ "artifact:log:2" ∷ [];
  evidence_kind = "rtl_to_gds";
  status = "succeeded";
  sha256 = digest;
  toolchain_digest = digest;
  protocol_digest = digest;
  claim_boundary = "one run";
  created_at = "2026-01-01T00:00:00+00:00";
  schema_version = pos 1;
}

validate_evidence-HasArtifacts_example : HasArtifacts gds_record
unfolding validate_evidence validate_created_at is_identifier is_id_char is_alnum is_blank is_sha256
    text_length all_chars for_each
validate_evidence-HasArtifacts_example = validate_evidence-HasArtifacts iso_any gds_record refl

abbrev counter_capability : PdkCapability
counter_capability = record {
  exercise_id = "counter";
  pdk_id = "nangate45";
  status = available;
  recipe_id = "course-counter-nangate45-v1";
  reason = none;
  smoke_evidence_id = some "evidence:smoke-1";
  schema_version = pos 1;
}

is_available-evidence_example :
    (e : String) × (counter_capability.smoke_evidence_id ≡ some e)
    × (starts_with e "evidence:" ≡ true)
    × (text_length e ≤ 256)
    × (validate_capability counter_capability ≡ ok tt)
unfolding is_available validate_capability validate_status is_smoke_status is_identifier is_id_char
    is_alnum is_blank text_length all_chars
is_available-evidence_example = is_available-evidence counter_capability refl

abbrev verify_task : TaskSpec
verify_task = record {
  task_id = "task-1";
  project_id = "teaching";
  design_id = "counter";
  plugin_id = some "rtl-verify";
  workflow_id = none;
  inputs = [];
  parameters = [];
  resources = [];
  timeout_seconds = pos 600;
  max_attempts = pos 1;
  expected_artifacts = "log" ∷ [];
  labels = [];
  schema_version = pos 1;
}

validate_task_iff_example : (validate_task verify_task ≡ ok tt) ↔ IsRunnable verify_task
validate_task_iff_example = validate_task_iff verify_task

abbrev clean_result : PluginResult
clean_result = record {
  status = succeeded;
  exit_code = pos 0;
  started_at = "2026-01-01T00:00:00Z";
  ended_at = "2026-01-01T00:01:00Z";
  metrics = [];
  artifacts = record { kind = some "log"; path = some "run.log" } ∷ [];
  failure = none;
  provenance = [];
  schema_version = pos 1;
}

validate_result-IsFinal_example : IsFinal clean_result
unfolding validate_result is_result_status for_each
validate_result-IsFinal_example = validate_result-IsFinal clean_result refl

abbrev one_candidate_plan : ExperimentPlan
one_candidate_plan = record {
  plan_id = "plan-1";
  producer = "planner";
  design_id = "counter";
  platform = "nangate45";
  baseline_parameters = [];
  candidates =
      record {
        candidate_id = "candidate-1";
        parameters = [];
        source_trial_id = "trial-1";
        evidence_refs = [];
        unsupported_parameters = [];
        schema_version = pos 1;
      }
      ∷ [];
  max_child_runs = pos 2;
  provenance = [];
  schema_version = pos 1;
}

validate_plan-IsBounded_example : IsBounded one_candidate_plan
unfolding validate_plan validate_experiment_candidate is_identifier is_id_char is_alnum text_length
    all_chars for_each
validate_plan-IsBounded_example = validate_plan-IsBounded one_candidate_plan refl

abbrev longer_timeout : RepairAction
longer_timeout = record {
  action_id = "repair-1";
  action_type = "increase_timeout";
  reason_code = "timed_out";
  parameters = ("timeout_seconds", int (pos 1200)) ∷ [];
  evidence_refs = "evidence:1" ∷ [];
  requires_approval = true;
  schema_version = pos 1;
}

validate_repair-FitsPolicy_example :
    (longer_timeout.evidence_refs ≢ []) × FitsPolicy longer_timeout.parameters "increase_timeout"
unfolding validate_repair lookup validate_template template_of same_keys validate_bounds int_within
    is_identifier is_id_char is_alnum text_length all_chars for_each
validate_repair-FitsPolicy_example = validate_repair-FitsPolicy longer_timeout refl

abbrev flow_patch : ScriptProposal
flow_patch = record {
  proposal_id = "proposal-1";
  owner_id = "alice";
  entrypoint_id = "counter";
  base_recipe_digest = digest;
  patch = "--- a/flow.tcl\n+++ b/flow.tcl\n";
  allowed_paths = "flow.tcl" ∷ [];
  requires_confirmation = true;
  schema_version = pos 1;
}

validate_proposal-IsConfined_example :
    Occurs (strip_side (raw_path "+++ b/flow.tcl")) flow_patch.allowed_paths
    × IsConfined (strip_side (raw_path "+++ b/flow.tcl"))
unfolding validate_proposal validate_patch patch_paths collect_paths relative_allowed_path
    is_path_part is_identifier is_id_char is_alnum is_blank is_sha256 text_length all_chars
    splitlines lines_after split take_until drop_chars has_char for_each
validate_proposal-IsConfined_example =
    validate_proposal-IsConfined flow_patch "+++ b/flow.tcl" refl (inr (inl refl)) refl refl
