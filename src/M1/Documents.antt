-- ===== src/M1/Documents.antt =====
-- The `to_dict` methods of apps/m1_rtl_to_gds/src/openroad_app_m1/models.py: the JSON documents that
-- the service stores.
use agentic_rtlto_gds_design.Prelude.{
  String, Option, none, some, ◌≡◌, refl, sym, ap, ◌∙◌, ◌==◌, if◌then◌else◌, arith,
}
use agentic_rtlto_gds_design.Prelude.Json.{Json, str, obj, end, field, texts, optional_text}
use agentic_rtlto_gds_design.Prelude.Result.{Result, ok, ◌>>◌, ◌>>=◌}
use agentic_rtlto_gds_design.Contracts.RtlFrontend.{SpecIr, validate_spec}
use agentic_rtlto_gds_design.M1.Models.{
  M1State, needs_clarification, unsupported_scope, specified, frozen, rtl_versioned, verified,
  submitted, measured, incomplete, CheckStatus, not_run, running, passed, invalidated, M1RunOutcome,
  validate_outcome, M1Session, validate_session, RtlVersion, validate_version_record,
}
use agentic_rtlto_gds_design.Contracts.RtlFrontend.Documents.{spec_to_json}

-- `state.value`
unfoldable pub state_value : M1State → String
state_value needs_clarification = "needs_clarification"
state_value unsupported_scope = "unsupported_scope"
state_value specified = "specified"
state_value frozen = "frozen"
state_value rtl_versioned = "rtl_versioned"
state_value verified = "verified"
state_value submitted = "submitted"
state_value measured = "measured"
state_value M1State.failed = "failed"
state_value incomplete = "incomplete"

-- `status.value`
unfoldable pub status_value : CheckStatus → String
status_value not_run = "not_run"
status_value running = "running"
status_value passed = "passed"
status_value CheckStatus.failed = "failed"
status_value invalidated = "invalidated"

-- `M1RunOutcome.to_dict`
unfoldable pub outcome_to_dict : M1RunOutcome → Result Json
outcome_to_dict o = do
  validate_outcome o
  ok (
      obj (
        field "run_id" (str o.run_id) (
          field "candidate_id" (str o.candidate_id) (
            field "pdk" (str o.pdk) (
              field "status" (str o.status) (
                field "reason" (str o.reason)
                  (field "artifact_ids" (texts o.artifact_ids) end)))))))

-- `self.spec.to_dict() if self.spec is not None else None`
unfoldable pub optional_spec : Option SpecIr → Result Json
optional_spec none = ok Json.null
optional_spec (some spec) = do validate_spec spec; ok (spec_to_json spec)

-- `M1Session.to_dict`
unfoldable pub session_to_dict : M1Session → Result Json
unfolding state_value
session_to_dict s = do
  validate_session s
  spec ← optional_spec s.spec
  ok (
      obj (
        field "spec_id" (str s.spec_id) (
          field "owner_id" (str s.owner_id) (
            field "state" (str (state_value s.state)) (
              field "spec" spec (
                field "clarification_questions" (texts s.clarification_questions) (
                  field "unsupported_reason" (optional_text s.unsupported_reason)
                    (field "frozen_fingerprint" (optional_text s.frozen_fingerprint) end))))))))

-- `RTLVersion.to_dict`
unfoldable pub version_to_dict : RtlVersion → Result Json
unfolding status_value
version_to_dict v = do
  validate_version_record v
  ok (
      obj (
        field "version_id" (str v.version_id) (
          field "spec_id" (str v.spec_id) (
            field "rtl_sha256" (str v.rtl_sha256) (
              field "generator" (str v.generator) (
                field "verification_status" (str (status_value v.verification_status)) (
                  field "verification_run_id" (optional_text v.verification_run_id) (
                    field "simulation_status" (str (status_value v.simulation_status)) (
                      field "simulation_run_id" (optional_text v.simulation_run_id) (
                        field "parent_version_id" (optional_text v.parent_version_id)
                          (field "source_ref" (optional_text v.source_ref) end)))))))))))

-- A status by its value.
status_at : String → CheckStatus
status_at s =
    if s == "not_run"
    then not_run
    else if s == "running"
    then running
    else if s == "passed"
    then passed
    else if s == "failed"
    then CheckStatus.failed
    else invalidated

status_at-status_value : (a : CheckStatus) → status_at (status_value a) ≡ a
unfolding status_at status_value
status_at-status_value not_run = refl
status_at-status_value running = refl
status_at-status_value passed = refl
status_at-status_value CheckStatus.failed = refl
status_at-status_value invalidated = refl

status_value-inj : (a b : CheckStatus) → status_value a ≡ status_value b → a ≡ b
status_value-inj a b h = sym (status_at-status_value a) ∙ ap status_at h ∙ status_at-status_value b

optional_text-inj : (a b : Option String) → optional_text a ≡ optional_text b → a ≡ b
optional_text-inj none none h = refl
optional_text-inj none (some b) h = cc
optional_text-inj (some a) none h = cc
optional_text-inj (some a) (some b) h = cc

-- Two versions with the same document, which both pass `validate`, are equal: the stored document of
-- a version loses nothing of it.
pub version_to_dict-inj :
    (v w : RtlVersion) (j : Json) → version_to_dict v ≡ ok j → version_to_dict w ≡ ok j → v ≡ w
unfolding version_to_dict
version_to_dict-inj v w j h k = ground (
  arith,
  status_value-inj v.verification_status w.verification_status,
  status_value-inj v.simulation_status w.simulation_status,
  optional_text-inj v.verification_run_id w.verification_run_id,
  optional_text-inj v.simulation_run_id w.simulation_run_id,
  optional_text-inj v.parent_version_id w.parent_version_id,
  optional_text-inj v.source_ref w.source_ref,
)
