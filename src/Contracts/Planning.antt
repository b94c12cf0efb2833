-- ===== src/Contracts/Planning.antt =====
-- The contracts of planners in packages/contracts/src/openroad_platform_contracts/platform.py:
-- action proposals, experiment plans, repair actions and events.
pub mod Repairs
use agentic_rtlto_gds_design.Prelude.{
  ℕ, ◌≤◌, String, ◌≡◌, refl, Bool, true, false, not, ◌&&◌, ◌||◌, Option, none, some, List, [], ◌∷◌,
  map, arith, ltb, leb, if◌then◌else◌, ◌==◌,
}
use agentic_rtlto_gds_design.Prelude.Text.{is_empty}
use agentic_rtlto_gds_design.Prelude.Lists.{
  length, all, any, null, for_each, elem, All, for_each-All,
}
use agentic_rtlto_gds_design.Prelude.Json.{
  ℤ, pos, negsuc, int_in_range, is_positive, le_float, float_le, Json, bool, int, float,
}
use agentic_rtlto_gds_design.Prelude.Dict.{Dict, lookup}
use agentic_rtlto_gds_design.Prelude.Result.{value_error, ok, err, Check, ◌>>◌, raise_if, require}
use agentic_rtlto_gds_design.Contracts.Versioned.{
  validate_version, validate_identifier, validate_optional,
}

pub record ActionProposal : Type 0 where
  pub proposal_id : String
  pub producer : String
  pub target_run_id : String
  pub action_type : String
  pub parameters : Dict Json
  pub target_stage_key : Option String
  pub evidence_refs : List String
  pub risk : String
  pub budget : Dict Json
  pub schema_version : ℤ

unfoldable pub validate_action : ActionProposal → Check
validate_action a = do
  validate_version a.schema_version
  validate_identifier "proposal_id" a.proposal_id
  validate_identifier "producer" a.producer
  validate_identifier "target_run_id" a.target_run_id
  validate_identifier "action_type" a.action_type
  validate_optional "target_stage_key" a.target_stage_key
  require (elem a.risk ("low" ∷ "medium" ∷ "high" ∷ []))
      (value_error "risk must be low, medium, or high")

pub record ExperimentCandidate : Type 0 where
  pub candidate_id : String
  pub parameters : Dict Json
  pub source_trial_id : String
  pub evidence_refs : List String
  pub unsupported_parameters : Dict Json
  pub schema_version : ℤ

unfoldable pub validate_experiment_candidate : ExperimentCandidate → Check
validate_experiment_candidate c = do
  validate_version c.schema_version
  validate_identifier "candidate_id" c.candidate_id
  validate_identifier "source_trial_id" c.source_trial_id
  raise_if (any is_empty c.evidence_refs)
      (value_error "evidence_refs must contain non-empty strings")

pub record ExperimentPlan : Type 0 where
  pub plan_id : String
  pub producer : String
  pub design_id : String
  pub platform : String
  pub baseline_parameters : Dict Json
  pub candidates : List ExperimentCandidate
  pub max_child_runs : ℤ
  pub provenance : Dict Json
  pub schema_version : ℤ

-- `n > max_child_runs`
abbrev pub exceeds : ℕ → ℤ → Bool
exceeds n (pos m) = ltb m n
exceeds n (negsuc m) = true

unfoldable pub validate_plan : ExperimentPlan → Check
validate_plan p = do
  validate_version p.schema_version
  validate_identifier "plan_id" p.plan_id
  validate_identifier "producer" p.producer
  validate_identifier "design_id" p.design_id
  validate_identifier "platform" p.platform
  require (is_positive p.max_child_runs) (value_error "max_child_runs must be a positive integer")
  raise_if (null p.candidates || exceeds (length p.candidates) p.max_child_runs)
      (value_error "candidates must be non-empty and within max_child_runs")
  for_each p.candidates validate_experiment_candidate

-- A plan of at least one candidate, and of at most the child runs that it asks for.
pub record IsBounded (p : ExperimentPlan) : Type 0 where
  pub budget : ℕ
  pub budget_given : p.max_child_runs ≡ pos budget
  pub some_candidate : 1 ≤ length p.candidates
  pub within : length p.candidates ≤ budget
  pub valid : All (λ c. validate_experiment_candidate c ≡ ok tt) p.candidates

some_budget : (n : ℤ) → is_positive n ≡ true → (b : ℕ) × (n ≡ pos b)
some_budget (pos b) h = (b, refl)
some_budget (negsuc b) h = cc

some_element : (xs : List ExperimentCandidate) → null xs ≡ false → 1 ≤ length xs
some_element [] h = cc
some_element (x ∷ xs) h = omega arith

within_budget : (n b : ℕ) (m : ℤ) → m ≡ pos b → exceeds n m ≡ false → n ≤ b
within_budget n b (pos m) e h = ground arith
within_budget n b (negsuc m) e h = cc

-- An experiment plan that passes `validate` has between one candidate and `max_child_runs` of them,
-- and each candidate passes its own check.
pub validate_plan-IsBounded : (p : ExperimentPlan) → validate_plan p ≡ ok tt → IsBounded p
unfolding validate_plan
validate_plan-IsBounded p h =
    let (b, e) = some_budget p.max_child_runs (ground arith) in
    record {
      budget = b;
      budget_given = e;
      some_candidate = some_element p.candidates (ground arith);
      within = within_budget (length p.candidates) b p.max_child_runs e (ground arith);
      valid = for_each-All validate_experiment_candidate p.candidates (ground arith);
    }

pub record RepairAction : Type 0 where
  pub action_id : String
  pub action_type : String
  pub reason_code : String
  pub parameters : Dict Json
  pub evidence_refs : List String
  pub requires_approval : Bool
  pub schema_version : ℤ

-- The keys of a template; `none` for an action that is not allowlisted.
unfoldable pub template_of : String → Option (List String)
template_of action =
    if action == "retry"
    then some []
    else if action == "increase_timeout"
    then some ("timeout_seconds" ∷ [])
    else if action == "lower_core_utilization"
    then some ("core_utilization_pct" ∷ [])
    else if action == "increase_floorplan_area"
    then some ("minimum_die_size_um" ∷ [])
    else if action == "stop"
    then some ("terminal_reason" ∷ [])
    else none

abbrev pub keys : Dict Json → List String
keys d = map (λ e. e.0) d

-- `set(parameters) == allowed`
unfoldable pub same_keys : Dict Json → List String → Bool
same_keys d allowed = all (λ k. elem k allowed) (keys d) && all (λ k. elem k (keys d)) allowed

-- `isinstance(value, int) and lo <= value <= hi`; a `bool` is an `int`.
unfoldable pub int_within : ℕ → ℕ → Json → Bool
int_within lo hi (int n) = int_in_range lo hi n
int_within lo hi (bool true) = leb lo 1 && leb 1 hi
int_within lo hi (bool false) = leb lo 0
int_within lo hi _ = false

-- `isinstance(value, (int, float)) and lo <= value <= hi`
unfoldable pub number_within : ℕ → ℕ → Json → Bool
unfolding int_within
number_within lo hi (float x) = le_float lo x && float_le x hi
number_within lo hi j = int_within lo hi j

-- A test on `parameters[key]`, which the template requires.
abbrev pub parameter_within : (Json → Bool) → String → Dict Json → Bool
parameter_within test key d = elim (lookup key d) [ none ↦ false | some value ↦ test value ]

-- The policy on the value of the parameter.
unfoldable pub validate_bounds : String → Dict Json → Check
validate_bounds action d = do
  raise_if
      (action == "increase_timeout"
        && not (parameter_within (int_within 1 86400) "timeout_seconds" d))
      (value_error "timeout_seconds is outside the repair policy")
  raise_if
      (action == "lower_core_utilization"
        && not (parameter_within (number_within 1 99) "core_utilization_pct" d))
      (value_error "core_utilization_pct is outside the repair policy")
  raise_if
      (action == "increase_floorplan_area"
        && not (parameter_within (number_within 5 200) "minimum_die_size_um" d))
      (value_error "minimum_die_size_um is outside the repair policy")

unfoldable pub validate_template : String → Dict Json → List String → Check
unfolding template_of same_keys
validate_template action d evidence_refs = elim (template_of action) [
  | none ↦ err (value_error "RepairAction action_type is not allowlisted")
  | some allowed ↦ (do
    raise_if (null evidence_refs || any is_empty evidence_refs)
        (value_error "RepairAction requires evidence_refs")
    require (same_keys d allowed) (value_error "RepairAction parameters do not match its template")
    validate_bounds action d)
]

unfoldable pub validate_repair : RepairAction → Check
validate_repair a = do
  validate_version a.schema_version
  validate_identifier "action_id" a.action_id
  validate_identifier "reason_code" a.reason_code
  validate_template a.action_type a.parameters a.evidence_refs

pub record Event : Type 0 where
  pub event_id : String
  pub run_id : String
  pub event_type : String
  pub occurred_at : String
  pub producer : String
  pub payload : Dict Json
  pub stage_run_id : Option String
  pub attempt_id : Option String
  pub schema_version : ℤ

unfoldable pub validate_event : Event → Check
validate_event e = do
  validate_version e.schema_version
  validate_identifier "event_id" e.event_id
  validate_identifier "run_id" e.run_id
  validate_identifier "event_type" e.event_type
  validate_identifier "producer" e.producer
  validate_optional "stage_run_id" e.stage_run_id
  validate_optional "attempt_id" e.attempt_id
  raise_if (is_empty e.occurred_at) (value_error "occurred_at is required")
