-- ===== src/Contracts/RtlFrontend.antt =====
-- `PortSpec`, `SpecIR`, `VerificationPackage` and `RTLCandidate` of
-- packages/contracts/src/openroad_platform_contracts/rtl_frontend.py.
pub mod Laws
pub mod Documents
pub mod Roundtrip
pub mod Reading
use agentic_rtlto_gds_design.Prelude.{
  String, Bool, false, ◌&&◌, ◌||◌, Option, List, [], ◌∷◌, ◌++◌, ◌==◌, starts_with,
}
use agentic_rtlto_gds_design.Prelude.Text.{is_empty, ◌<>◌}
use agentic_rtlto_gds_design.Prelude.Lists.{all, any, null, for_each, elem}
use agentic_rtlto_gds_design.Prelude.Json.{ℤ, int_in_range, le_float, float_le, Json, int, float}
use agentic_rtlto_gds_design.Prelude.Dict.{Dict}
use agentic_rtlto_gds_design.Prelude.Result.{
  value_error, Result, ok, Check, ◌>>=◌, ◌>>◌, raise_if, require, if_given,
}
use agentic_rtlto_gds_design.Contracts.Versioned.{
  validate_version, validate_identifier, validate_text,
}

pub record PortSpec : Type 0 where
  pub name : String
  pub direction : String
  pub width : Option ℤ
  pub schema_version : ℤ

unfoldable pub validate_port : PortSpec → Check
validate_port p = do
  validate_version p.schema_version
  validate_identifier "port name" p.name
  require (elem p.direction ("input" ∷ "output" ∷ "inout" ∷ []))
      (value_error "PortSpec direction must be input, output, or inout")
  if_given p.width λ w.
      require (int_in_range 1 65536 w)
        (value_error "PortSpec width must be None or an integer in [1, 65536]")

pub record SpecIr : Type 0 where
  pub spec_id : String
  pub design_id : String
  pub top : String
  pub functionality : String
  pub objective : String
  pub ports : List PortSpec
  pub clock : Option String
  pub reset : Option String
  pub constraints : Dict Json
  pub assumptions : List String
  pub acceptance_criteria : List String
  pub schema_version : ℤ

-- The loop of `SpecIR.validate` over the ports; `names` holds the names that were seen.
unfoldable pub collect_names : List PortSpec → List String → Result (List String)
collect_names [] names = ok names
collect_names (p ∷ ports) names = do
  validate_port p
  raise_if (elem p.name names) (value_error "SpecIR port names must be unique")
  collect_names ports (p.name ∷ names)

-- A clock or reset names a declared port.
unfoldable pub validate_signal : String → List String → Option String → Check
validate_signal name names value = if_given value λ v.
    validate_identifier name v
    >> require (elem v names) (value_error ("SpecIR " <> name <> " must name a declared port"))

-- The part of `SpecIR.validate` on the ports, the clock and the reset.
unfoldable pub validate_ports : SpecIr → Check
validate_ports s = do
  raise_if (null s.ports) (value_error "SpecIR requires at least one port")
  names ← collect_names s.ports []
  validate_signal "clock" names s.clock
  validate_signal "reset" names s.reset

unfoldable pub validate_spec : SpecIr → Check
validate_spec s = do
  validate_version s.schema_version
  validate_identifier "spec_id" s.spec_id
  validate_identifier "design_id" s.design_id
  validate_identifier "top" s.top
  validate_text "functionality" s.functionality 8000
  validate_text "objective" s.objective 2000
  validate_ports s
  raise_if (null s.acceptance_criteria) (value_error "SpecIR requires acceptance_criteria")
  for_each (s.assumptions ++ s.acceptance_criteria)
      λ item. validate_text "SpecIR list item" item 2000

pub record VerificationPackage : Type 0 where
  pub verification_id : String
  pub spec_id : String
  pub compile_checks : List String
  pub simulation_oracle_refs : List String
  pub simulation_top : Option String
  pub formal_property_refs : List String
  pub coverage_targets : Dict Json
  pub schema_version : ℤ

-- `item.startswith(("artifact:", "source:"))`
unfoldable pub is_durable_ref : String → Bool
is_durable_ref item = starts_with item "artifact:" || starts_with item "source:"

-- A number between 0 and 1 that is no `bool`.
unfoldable pub is_fraction : Json → Bool
is_fraction (int n) = int_in_range 0 1 n
is_fraction (float x) = le_float 0 x && float_le x 1
is_fraction _ = false

unfoldable pub validate_package : VerificationPackage → Check
validate_package p = do
  validate_version p.schema_version
  validate_identifier "verification_id" p.verification_id
  validate_identifier "spec_id" p.spec_id
  raise_if (null p.compile_checks || any is_empty p.compile_checks)
      (value_error "VerificationPackage requires compile_checks")
  for_each (p.simulation_oracle_refs ∷ p.formal_property_refs ∷ []) λ group.
      require (all is_durable_ref group)
        (value_error "Verification oracle references must be durable artifact/source refs")
  if_given p.simulation_top (validate_identifier "simulation_top")
  for_each p.coverage_targets λ e.
      require (is_fraction e.1) (value_error "coverage_targets must be named fractions in [0, 1]")

pub record RtlCandidate : Type 0 where
  pub candidate_id : String
  pub spec_id : String
  pub verification_id : String
  pub rtl_artifact_ref : String
  pub generator : String
  pub parent_candidate_ids : List String
  pub provenance : Dict Json
  pub schema_version : ℤ

unfoldable pub validate_candidate : RtlCandidate → Check
validate_candidate c = do
  validate_version c.schema_version
  validate_identifier "candidate_id" c.candidate_id
  validate_identifier "spec_id" c.spec_id
  validate_identifier "verification_id" c.verification_id
  validate_identifier "generator" c.generator
  require (starts_with c.rtl_artifact_ref "artifact:")
      (value_error "RTLCandidate requires a durable RTL artifact reference")
  for_each c.parent_candidate_ids λ parent.
      validate_identifier "parent_candidate_id" parent
      >> raise_if (parent == c.candidate_id) (value_error "RTLCandidate cannot be its own parent")
