-- ===== src/M1/Server/Specs.antt =====
-- The helpers of `do_POST` that work on specifications, in
-- apps/m1_rtl_to_gds/src/openroad_app_m1/server.py, and `DirectLLMGenerator.generate` of
-- generator.py. A fresh `uuid4` is an argument.
use agentic_rtlto_gds_design.Prelude.{
  String, not, ◌&&◌, Option, none, some, List, [], ◌∷◌, if◌then◌else◌, ◌==◌,
}
use agentic_rtlto_gds_design.Prelude.Action.{Action, pure, raise, lift, raise_when, ◌>>=◌, ◌>>◌}
use agentic_rtlto_gds_design.Prelude.Document.{
  field_or_null, has_field, tuple_of, tuple_at, object_of, is_null, is_truthy, nonblank_of,
  nonblank_texts, optional_of,
}
use agentic_rtlto_gds_design.Prelude.Json.{pos, Json, str, obj, Fields, end, field}
use agentic_rtlto_gds_design.Prelude.Result
use agentic_rtlto_gds_design.Prelude.Result.{Error, value_error, key_error, Result, ok, err}
use agentic_rtlto_gds_design.Prelude.Text.{◌<>◌}
use agentic_rtlto_gds_design.Contracts.RtlFrontend.{SpecIr, VerificationPackage, validate_spec}
use agentic_rtlto_gds_design.Contracts.RtlFrontend.Documents.{spec_from_dict, spec_to_json}
use agentic_rtlto_gds_design.M1.Documents.{session_to_dict, version_to_dict}
use agentic_rtlto_gds_design.M1.Models.{is_frozen, M1Session, RtlVersion}
use agentic_rtlto_gds_design.M1.Oracles.{Oracle, oracle_for_top}
use agentic_rtlto_gds_design.M1.Sessions.{assess_spec}
use agentic_rtlto_gds_design.M1.State.{Service, query, find_session}
use agentic_rtlto_gds_design.M1.Submit.{create_rtl_version_from_v2, register_verification_package}
use agentic_rtlto_gds_design.M1.Server.{App, WebClient, Reply, one_field, owner_id, ℕ}

abbrev pub names_owner : Error
names_owner = value_error "owner_id is derived from the v2 identity"

abbrev pub two_sources : Error
two_sources = value_error "spec and description are exclusive"

abbrev pub bad_questions : Error
bad_questions = value_error "clarification_questions must contain non-empty text"

abbrev pub bad_reason : Error
bad_reason = value_error "unsupported_reason must be text"

abbrev pub no_reason : Error
no_reason = value_error "unsupported_scope requires a reason"

abbrev pub no_description : Error
no_description = value_error "description must be non-empty text"

abbrev pub no_source : Error
no_source = value_error "rtl_source must be non-empty text"

abbrev pub no_generator : Error
no_generator = value_error "generator must be non-empty text"

abbrev pub bad_parent : Error
bad_parent = value_error "parent_version_id must be text"

abbrev pub no_rtl : Error
no_rtl = value_error "Direct LLM provider did not return RTL"

-- `_json(status, {"session": session.to_dict()})`
abbrev pub session_reply : ℕ → M1Session → Action Service Reply
session_reply status session = do
  document ← lift (session_to_dict session)
  pure (one_field status "session" document)

abbrev pub version_reply : RtlVersion → Action Service Reply
version_reply version = do
  document ← lift (version_to_dict version)
  pure (one_field 201 "rtl_version" document)

-- The end of `_create_spec`: `raw_spec` is a document, or is not an object and is left out.
unfoldable pub given_spec : Json → Result (Option SpecIr)
given_spec (obj fields) = Result.◌>>=◌ (spec_from_dict (obj fields)) (λ spec. ok (some spec))
given_spec _ = ok none

unfoldable pub assess_document : String → String → Json → Fields → Action Service Reply
assess_document uuid owner raw_spec payload = do
  spec ← lift (given_spec raw_spec)
  items ← lift (tuple_at "clarification_questions" payload)
  questions ← lift (nonblank_texts bad_questions items)
  reason ← lift (optional_of bad_reason (field_or_null "unsupported_reason" payload))
  session ← assess_spec uuid owner spec questions reason
  session_reply 201 session

-- `tuple(assessment.get("questions") or ())`
unfoldable pub asked : Json → Result (List Json)
asked questions = if is_truthy questions then tuple_of questions else ok []

abbrev pub no_spec : Error
no_spec = value_error "Codex assessment did not return a SpecIR"

-- `_create_spec` for an assessment with a specification
unfoldable pub specified_document : String → String → Json → Fields → Action Service Reply
specified_document uuid owner (obj fields) payload = assess_document uuid owner (obj fields) payload
specified_document uuid owner _ payload = raise no_spec

-- `_create_spec` for the status of an assessment. A question that is no text raises here, and in
-- the check of the new session otherwise.
unfoldable pub assess_status : String → String → Json → Fields → Fields → Action Service Reply
assess_status uuid owner (str state) assessment payload =
    if state == "needs_clarification"
    then (do
      items ← lift (asked (field_or_null "questions" assessment))
      questions ← lift (nonblank_texts bad_questions items)
      session ← assess_spec uuid owner none questions none
      session_reply 201 session)
    else if state == "unsupported_scope"
    then (do
      reason ← lift (nonblank_of no_reason (field_or_null "reason" assessment))
      session ← assess_spec uuid owner none [] (some reason)
      session_reply 201 session)
    else if state == "specified"
    then specified_document uuid owner (field_or_null "spec" assessment) payload
    else raise no_spec
assess_status uuid owner _ assessment payload = raise no_spec

-- `_create_spec` for a description
unfoldable pub assess_description : App → String → String → Json → Fields → Action Service Reply
assess_description app uuid owner description payload = do
  text ← lift (nonblank_of no_description description)
  reply ← lift (app.assess text)
  assessment ← lift (object_of reply)
  assess_status uuid owner (field_or_null "status" assessment) assessment payload

-- `_create_spec`
unfoldable pub create_spec : App → String → Fields → WebClient → Action Service Reply
create_spec app uuid payload client = do
  owner ← lift (owner_id client)
  raise_when (has_field "owner_id" payload) names_owner
  let raw_spec = field_or_null "spec" payload
  let description = field_or_null "description" payload
  raise_when (not (is_null raw_spec) && not (is_null description)) two_sources
  if is_null description
      then assess_document uuid owner raw_spec payload
      else assess_description app uuid owner description payload

-- `_upload_oracle`
unfoldable pub upload_oracle : String → WebClient → Result String
upload_oracle source client =
    Result.◌>>=◌ (client.v2.upload_rtl source)
      λ reply. elim reply [ none ↦ err (key_error "input_id") | some given ↦ ok given ]

abbrev pub teaching_package : Oracle → String → String → VerificationPackage
teaching_package oracle spec_id oracle_ref = record {
  verification_id = oracle.verification_id;
  spec_id = spec_id;
  compile_checks = "verilator-lint" ∷ "yosys-check" ∷ [];
  simulation_oracle_refs = ("source:" <> oracle_ref) ∷ [];
  simulation_top = some oracle.simulation_top;
  formal_property_refs = [];
  coverage_targets = [];
  schema_version = pos 1;
}

unfoldable pub register_oracle : Option Oracle → String → WebClient → Action Service (Unit {0})
register_oracle none spec_id client = pure tt
register_oracle (some oracle) spec_id client = do
  oracle_ref ← lift (upload_oracle oracle.source client)
  register_verification_package spec_id (teaching_package oracle spec_id oracle_ref)
  pure tt

-- `_register_teaching_package`
unfoldable pub register_teaching_package : M1Session → WebClient → Action Service (Unit {0})
register_teaching_package session client = elim session.spec [
  | none ↦ pure tt
  | some spec ↦
      if is_frozen session.state
      then register_oracle (oracle_for_top spec.top) session.spec_id client
      else pure tt
]

-- `_create_rtl`
unfoldable pub create_rtl : App → String → String → Fields → WebClient → Action Service Reply
create_rtl app uuid spec_id payload client = do
  source ← lift (nonblank_of no_source (field_or_null "rtl_source" payload))
  generator ← lift (nonblank_of no_generator (field_or_null "generator" payload))
  parent ← lift (optional_of bad_parent (field_or_null "parent_version_id" payload))
  version ← create_rtl_version_from_v2 app.lib uuid spec_id source generator client.v2 parent
  version_reply version

-- The specification of a frozen session
unfoldable pub frozen_given : M1Session → Result SpecIr
frozen_given session = elim session.spec [
  | none ↦ err (value_error "Direct LLM generation requires a frozen spec")
  | some spec ↦
      Result.◌>>◌
        (Result.require (is_frozen session.state)
          (value_error "Direct LLM generation requires a frozen spec"))
        (ok spec)
]

abbrev pub generation_payload : String → SpecIr → Json
generation_payload spec_id spec =
    obj (field "spec_id" (str spec_id) (field "spec" (spec_to_json spec) end))

-- `DirectLLMGenerator.generate`
unfoldable pub generate : App → String → String → WebClient → Action Service RtlVersion
generate app uuid spec_id client = do
  session ← query (find_session spec_id)
  spec ← lift (frozen_given session)
  lift (validate_spec spec)
  output ← lift (app.generate (generation_payload spec_id spec))
  source ← lift (nonblank_of no_rtl output)
  create_rtl_version_from_v2 app.lib uuid spec_id source "direct_llm" client.v2 none
