-- ===== src/M1/Models.antt =====
-- The records of apps/m1_rtl_to_gds/src/openroad_app_m1/models.py.
use agentic_rtlto_gds_design.Prelude.{
  String, Bool, true, false, not, ◌&&◌, ◌||◌, Option, none, some, List, leb, is_none, ◌==◌,
  starts_with,
}
use agentic_rtlto_gds_design.Prelude.Text.{
  text_length, all_chars, is_blank, is_id_char, is_empty, ◌<>◌,
}
use agentic_rtlto_gds_design.Prelude.Lists.{any, null, for_each}
use agentic_rtlto_gds_design.Prelude.Result.{
  value_error, ok, Check, ◌>>◌, raise_if, require, if_given,
}
use agentic_rtlto_gds_design.Contracts.Versioned.{validate_digest}
use agentic_rtlto_gds_design.Contracts.RtlFrontend.{SpecIr, validate_spec}

pub data M1State : Type 0 where
  needs_clarification unsupported_scope specified frozen rtl_versioned : M1State
  verified submitted measured failed incomplete : M1State

-- `VerificationStatus` and `SimulationStatus`, which have the same members.
pub data CheckStatus : Type 0 where
  not_run running passed failed invalidated : CheckStatus

abbrev pub is_frozen : M1State → Bool
is_frozen frozen = true
is_frozen _ = false

abbrev pub is_passed : CheckStatus → Bool
is_passed passed = true
is_passed _ = false

abbrev pub is_running : CheckStatus → Bool
is_running running = true
is_running _ = false

abbrev pub is_invalidated : CheckStatus → Bool
is_invalidated invalidated = true
is_invalidated _ = false

-- `status in {PASSED, FAILED}`
abbrev pub is_result : CheckStatus → Bool
is_result passed = true
is_result failed = true
is_result _ = false

-- `_id`: at most 160 of the characters of an identifier
unfoldable pub validate_id : String → String → Check
validate_id name value =
    require (not (is_empty value) && leb (text_length value) 160 && all_chars is_id_char value)
      (value_error (name <> " must be a bounded identifier"))

pub record M1RunOutcome : Type 0 where
  pub run_id : String
  pub candidate_id : String
  pub pdk : String
  pub status : String
  pub reason : String
  pub artifact_ids : List String

unfoldable pub validate_outcome : M1RunOutcome → Check
validate_outcome o = do
  validate_id "run_id" o.run_id
  validate_id "candidate_id" o.candidate_id
  validate_id "pdk" o.pdk
  require (o.status == "gds_incomplete") (value_error "M1RunOutcome status must be gds_incomplete")
  raise_if (is_blank o.reason) (value_error "M1RunOutcome reason must be non-empty")
  for_each o.artifact_ids (validate_id "artifact_id")

pub record M1Session : Type 0 where
  pub spec_id : String
  pub owner_id : String
  pub state : M1State
  pub spec : Option SpecIr
  pub clarification_questions : List String
  pub unsupported_reason : Option String
  pub frozen_fingerprint : Option String

-- `not value` of an optional string
abbrev pub is_missing : Option String → Bool
is_missing none = true
is_missing (some s) = is_empty s

-- The last three tests of `M1Session.validate`, by the state.
unfoldable pub validate_state : M1Session → M1State → Check
validate_state s needs_clarification =
    raise_if (null s.clarification_questions) (value_error "needs_clarification requires questions")
validate_state s unsupported_scope =
    raise_if (is_missing s.unsupported_reason) (value_error "unsupported_scope requires a reason")
validate_state s frozen =
    raise_if (is_none s.spec || is_missing s.frozen_fingerprint)
      (value_error "frozen session requires a spec and fingerprint")
    >> if_given s.frozen_fingerprint (validate_digest "frozen_fingerprint")
validate_state s _ = ok tt

unfoldable pub validate_session : M1Session → Check
validate_session s = do
  validate_id "spec_id" s.spec_id
  validate_id "owner_id" s.owner_id
  if_given s.spec validate_spec
  raise_if (any is_blank s.clarification_questions)
      (value_error "clarification_questions must contain non-empty text")
  validate_state s s.state

pub record RtlVersion : Type 0 where
  pub version_id : String
  pub spec_id : String
  pub rtl_sha256 : String
  pub generator : String
  pub verification_status : CheckStatus
  pub verification_run_id : Option String
  pub simulation_status : CheckStatus
  pub simulation_run_id : Option String
  pub parent_version_id : Option String
  pub source_ref : Option String

unfoldable pub validate_version_record : RtlVersion → Check
validate_version_record v = do
  validate_id "version_id" v.version_id
  validate_id "spec_id" v.spec_id
  validate_id "generator" v.generator
  validate_digest "rtl_sha256" v.rtl_sha256
  if_given v.verification_run_id (validate_id "verification_run_id")
  if_given v.simulation_run_id (validate_id "simulation_run_id")
  if_given v.parent_version_id λ parent.
      validate_id "parent_version_id" parent
      >> raise_if (parent == v.version_id) (value_error "RTLVersion cannot be its own parent")
  if_given v.source_ref λ source.
      require (starts_with source "input:") (value_error "source_ref must be a v2 input reference")
