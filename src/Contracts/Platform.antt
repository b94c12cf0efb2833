-- ===== src/Contracts/Platform.antt =====
-- The contracts of the workflow control plane in
-- packages/contracts/src/openroad_platform_contracts/platform.py: tasks, plugins and their results.
use agentic_rtlto_gds_design.Prelude.{
  String, ◌≡◌, ◌≢◌, ◌↔◌, ◌⊎◌, inl, inr, Bool, true, false, not, ◌&&◌, ◌||◌, Option, none, some,
  List, arith, is_none, Option-cases,
}
use agentic_rtlto_gds_design.Prelude.Text.{is_identifier, is_empty}
use agentic_rtlto_gds_design.Prelude.Lists.{all, null, for_each}
use agentic_rtlto_gds_design.Prelude.Json.{ℤ, pos, negsuc, is_int, is_positive, Json}
use agentic_rtlto_gds_design.Prelude.Dict.{Dict}
use agentic_rtlto_gds_design.Prelude.Result.{value_error, ok, Check, ◌>>◌, raise_if, require}
use agentic_rtlto_gds_design.Contracts.Versioned.{
  validate_version, validate_identifier, validate_optional,
}

pub data RuntimeStatus : Type 0 where
  queued preparing running retry_wait cancel_requested : RuntimeStatus
  succeeded failed cancelled timed_out lost : RuntimeStatus

-- `TERMINAL_RUNTIME_STATUSES`
unfoldable pub is_terminal : RuntimeStatus → Bool
is_terminal succeeded = true
is_terminal failed = true
is_terminal cancelled = true
is_terminal timed_out = true
is_terminal lost = true
is_terminal _ = false

pub record TaskSpec : Type 0 where
  pub task_id : String
  pub project_id : String
  pub design_id : String
  pub plugin_id : Option String
  pub workflow_id : Option String
  pub inputs : Dict Json
  pub parameters : Dict Json
  pub resources : Dict Json
  pub timeout_seconds : ℤ
  pub max_attempts : ℤ
  pub expected_artifacts : List String
  pub labels : Dict String
  pub schema_version : ℤ

-- `(plugin_id is None) == (workflow_id is None)`
abbrev pub same_absence : Option String → Option String → Bool
same_absence none none = true
same_absence (some p) (some w) = true
same_absence _ _ = false

unfoldable pub validate_task : TaskSpec → Check
validate_task t = do
  validate_version t.schema_version
  validate_identifier "task_id" t.task_id
  validate_identifier "project_id" t.project_id
  validate_identifier "design_id" t.design_id
  raise_if (same_absence t.plugin_id t.workflow_id)
      (value_error "TaskSpec must define exactly one of plugin_id or workflow_id")
  validate_optional "plugin_id" t.plugin_id
  validate_optional "workflow_id" t.workflow_id
  require (is_positive t.timeout_seconds) (value_error "timeout_seconds must be a positive integer")
  require (is_positive t.max_attempts) (value_error "max_attempts must be a positive integer")
  require (all is_identifier t.expected_artifacts)
      (value_error "expected_artifacts contains an invalid kind")

-- What runs a task: one plugin or one workflow, by an identifier.
pub data Runner (t : TaskSpec) : Type 0 where
  plugin :
      (p : String) → t.plugin_id ≡ some p → t.workflow_id ≡ none → is_identifier p ≡ true → Runner t
  workflow :
      (w : String) → t.workflow_id ≡ some w → t.plugin_id ≡ none → is_identifier w ≡ true → Runner t

pub record IsRunnable (t : TaskSpec) : Type 0 where
  pub runner : Runner t
  pub named :
      (is_identifier t.task_id ≡ true)
      × (is_identifier t.project_id ≡ true)
      × (is_identifier t.design_id ≡ true)
  pub bounded : (is_positive t.timeout_seconds ≡ true) × (is_positive t.max_attempts ≡ true)
  pub version : is_int 1 t.schema_version ≡ true
  pub artifacts : all is_identifier t.expected_artifacts ≡ true

validate_task-Runner : (t : TaskSpec) → validate_task t ≡ ok tt → Runner t
unfolding validate_task
validate_task-Runner t h = elim (Option-cases t.plugin_id) [
  | inl p ↦ elim (Option-cases t.workflow_id) [
    | inl w ↦ absurd (ground arith)
    | inr (w, e) ↦ workflow w e p (ground arith)
  ]
  | inr (p, e) ↦ elim (Option-cases t.workflow_id) [
    | inl w ↦ plugin p e w (ground arith)
    | inr (w, f) ↦ absurd (ground arith)
  ]
]

IsRunnable-validate_task : (t : TaskSpec) → IsRunnable t → Runner t → validate_task t ≡ ok tt
unfolding validate_task
IsRunnable-validate_task t r (plugin p e w i) = ground arith
IsRunnable-validate_task t r (workflow w e p i) = ground arith

-- A task is accepted exactly when it names its task, project and design by identifiers, is run by
-- exactly one plugin or workflow that an identifier names, has a positive timeout and a positive
-- number of attempts, expects artifacts of valid kinds, and has schema version 1.
pub validate_task_iff : (t : TaskSpec) → (validate_task t ≡ ok tt) ↔ IsRunnable t
unfolding validate_task
validate_task_iff t = (
  (λ h. record {
    runner = validate_task-Runner t h;
    named = (ground arith, ground arith, ground arith);
    bounded = (ground arith, ground arith);
    version = ground arith;
    artifacts = ground arith;
  }),
  λ r. IsRunnable-validate_task t r r.runner,
)

pub record PluginManifest : Type 0 where
  pub plugin_id : String
  pub plugin_version : String
  pub adapter_entry : List String
  pub capabilities : List String
  pub supported_arch : List String
  pub input_schema : Dict Json
  pub output_schema : Dict Json
  pub required_tools : List String
  pub default_timeout_seconds : ℤ
  pub artifact_rules : List Json
  pub environment : Dict String
  pub schema_version : ℤ

-- A list with an element, and none of them empty
abbrev pub is_string_list : List String → Bool
is_string_list xs = not (null xs) && all (λ x. not (is_empty x)) xs

unfoldable pub validate_manifest : PluginManifest → Check
validate_manifest m = do
  validate_version m.schema_version
  validate_identifier "plugin_id" m.plugin_id
  validate_identifier "plugin_version" m.plugin_version
  require (is_string_list m.adapter_entry)
      (value_error "adapter_entry must be a non-empty string list")
  require (is_string_list m.capabilities)
      (value_error "capabilities must be a non-empty string list")
  require (is_string_list m.supported_arch)
      (value_error "supported_arch must be a non-empty string list")
  require (is_positive m.default_timeout_seconds)
      (value_error "default_timeout_seconds must be positive")

-- An artifact of a result, by the keys that are checked; `none` if absent or no string.
pub record ResultArtifact : Type 0 where
  pub kind : Option String
  pub path : Option String

pub record PluginResult : Type 0 where
  pub status : RuntimeStatus
  pub exit_code : ℤ
  pub started_at : String
  pub ended_at : String
  pub metrics : List Json
  pub artifacts : List ResultArtifact
  pub failure : Option (Dict Json)
  pub provenance : Dict Json
  pub schema_version : ℤ

abbrev pub is_succeeded : RuntimeStatus → Bool
is_succeeded succeeded = true
is_succeeded _ = false

-- The four statuses that a result may have.
unfoldable pub is_result_status : RuntimeStatus → Bool
is_result_status succeeded = true
is_result_status failed = true
is_result_status cancelled = true
is_result_status timed_out = true
is_result_status _ = false

unfoldable pub validate_result : PluginResult → Check
validate_result r = do
  validate_version r.schema_version
  require (is_result_status r.status) (value_error "PluginResult status must be terminal")
  raise_if (is_succeeded r.status && not (is_int 0 r.exit_code))
      (value_error "A succeeded PluginResult must have exit_code 0")
  raise_if (is_empty r.started_at || is_empty r.ended_at)
      (value_error "PluginResult timestamps are required")
  for_each r.artifacts λ a.
      raise_if (is_none a.kind || is_none a.path)
        (value_error "Each artifact requires string kind and path")

-- What an accepted result says: its status is terminal and not `lost`, and a success has exit code 0.
pub record IsFinal (r : PluginResult) : Type 0 where
  pub terminal : is_terminal r.status ≡ true
  pub not_lost : r.status ≢ lost
  pub clean_exit : (r.status ≢ succeeded) ⊎ (r.exit_code ≡ pos 0)

result_status_terminal : (s : RuntimeStatus) → is_result_status s ≡ true → is_terminal s ≡ true
unfolding is_result_status is_terminal
result_status_terminal lost h = cc
result_status_terminal _ h = ground arith

result_status_not_lost : (s : RuntimeStatus) → is_result_status s ≡ true → s ≢ lost
unfolding is_result_status
result_status_not_lost s h e = ground arith

exit_zero :
    (s : RuntimeStatus) (n : ℤ)
    → (is_succeeded s && not (is_int 0 n)) ≡ false
    → (s ≢ succeeded) ⊎ (n ≡ pos 0)
exit_zero succeeded (pos n) h = inr (ground arith)
exit_zero succeeded (negsuc n) h = absurd (ground arith)
exit_zero _ n h = inl cc

-- A `PluginResult` that passes `validate` has a terminal status other than `lost`, and exit code 0
-- if it succeeded.
pub validate_result-IsFinal : (r : PluginResult) → validate_result r ≡ ok tt → IsFinal r
unfolding validate_result
validate_result-IsFinal r h = record {
  terminal = result_status_terminal r.status (ground arith);
  not_lost = result_status_not_lost r.status (ground arith);
  clean_exit = exit_zero r.status r.exit_code (ground arith);
}
