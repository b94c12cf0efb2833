-- ===== src/M1/Tests/Recorded.antt =====
-- Evidence of a complete GDS run of the counter, and the owner of a run.
use agentic_rtlto_gds_design.Prelude.{◌≡◌, refl, ◌⊎◌, true, none, some, [], ◌∷◌}
use agentic_rtlto_gds_design.Prelude.Dict.{lookup, insert, values}
use agentic_rtlto_gds_design.Prelude.Json.{Json, obj, field, str, end}
use agentic_rtlto_gds_design.Prelude.Lists.{for_each}
use agentic_rtlto_gds_design.Prelude.Result.{ok}
use agentic_rtlto_gds_design.Prelude.Text.{
  text_length, all_chars, is_blank, is_identifier, is_sha256, is_id_char, is_alnum,
}
use agentic_rtlto_gds_design.Contracts.Evidence.{
  EvidenceRef, validate_created_at, validate_evidence,
}
use agentic_rtlto_gds_design.M1.Access.{OwnsVersion, OwnsEvidence, assert_run_owner-Owns}
use agentic_rtlto_gds_design.M1.Documents.{status_value, version_to_dict, version_to_dict-inj}
use agentic_rtlto_gds_design.M1.Evidence.{
  artifact_refs, check_gds_success, record_evidence, find_first, by_kind, missing_parts,
  gds_evidence, record_new_run, record_gds_evidence, record_incomplete, incomplete_outcome,
  join_names, GdsResult, incomplete,
}
use agentic_rtlto_gds_design.M1.History.Calls.{add_evidence, perform_all}
use agentic_rtlto_gds_design.M1.Models.{
  validate_outcome, validate_id, validate_version_record, M1RunOutcome,
}
use agentic_rtlto_gds_design.M1.Results.{EvidenceBasis, record_evidence-EvidenceBasis}
use agentic_rtlto_gds_design.M1.Results.Final.{Repeats, record_gds_evidence-settled}
use agentic_rtlto_gds_design.M1.Runs.{
  check_owner, owner_by_evidence, owner_by_version, assert_run_owner,
}
use agentic_rtlto_gds_design.M1.State.{find_session, get_rtl_version, Service}
use agentic_rtlto_gds_design.M1.Store.{run_owner, put_evidence}
use agentic_rtlto_gds_design.M1.Tests.{
  digest, constant_lib, passed_version, all_artifacts, ready, ready-IsKeyed,
}

abbrev passed_document : Json
passed_document = obj (
    field "version_id" (str "rtl-1") (
      field "spec_id" (str "spec-1") (
        field "rtl_sha256" (str digest) (
          field "generator" (str "llm") (
            field "verification_status" (str "passed") (
              field "verification_run_id" (str "run-1") (
                field "simulation_status" (str "passed") (
                  field "simulation_run_id" (str "run-2") (
                    field "parent_version_id" Json.null
                      (field "source_ref" (str "input:1") end))))))))))

abbrev counter_evidence : EvidenceRef
counter_evidence =
    gds_evidence constant_lib "2026-01-01T00:00:00Z" "rtl-1" "run-3" "nangate45" "alice" "spec-1"
      ("artifact:gds:1" ∷ "artifact:def:1" ∷ "artifact:odb:1" ∷ "artifact:netlist:1"
        ∷ "artifact:report:1" ∷ [])
      digest digest

record_evidence-EvidenceBasis_example :
    EvidenceBasis counter_evidence ready
    × (counter_evidence ≡ counter_evidence)
    × (lookup "evidence:run-3" (record_evidence constant_lib counter_evidence ready).1.evidence
        ≡ some counter_evidence)
unfolding record_evidence check_gds_success put_evidence validate_evidence validate_created_at
    find_session get_rtl_version is_identifier is_id_char is_alnum is_blank is_sha256 text_length
    all_chars for_each lookup insert
record_evidence-EvidenceBasis_example =
    record_evidence-EvidenceBasis constant_lib counter_evidence counter_evidence ready refl

-- The result of a run without artifacts, evidence that the owner adds under the id of that run, and a
-- later call.
abbrev early : Service
early =
    (record_gds_evidence constant_lib "2026-01-01T00:00:00Z" "rtl-1" "run-3" [] "nangate45" []
      ready).1

abbrev missing_all : M1RunOutcome
missing_all = incomplete_outcome "rtl-1" "run-3" "nangate45" [] (
    "def" ∷ "gds" ∷ "netlist" ∷ "odb" ∷ "report" ∷ "metrics" ∷ "toolchain_snapshot"
    ∷ "protocol_digest" ∷ [])

abbrev late : Service
late = perform_all constant_lib (add_evidence counter_evidence ∷ []) early

record_gds_evidence-settled_example :
    (again : GdsResult) × (record_gds_evidence constant_lib "2026-02-02T00:00:00Z" "rtl-2" "run-3"
        all_artifacts "sky130"
        (some true ∷ [])
        late
      ≡ (ok again, late))
    × Repeats "run-3" (incomplete missing_all) late again
unfolding record_gds_evidence record_new_run record_incomplete missing_parts by_kind find_first
    join_names lookup validate_outcome validate_id text_length all_chars is_id_char is_blank
    for_each artifact_refs
record_gds_evidence-settled_example =
    record_gds_evidence-settled constant_lib "2026-01-01T00:00:00Z" "rtl-1" "run-3" [] "nangate45"
      [] ready (incomplete missing_all) (add_evidence counter_evidence ∷ []) "2026-02-02T00:00:00Z"
      "rtl-2" all_artifacts "sky130" (some true ∷ []) ready-IsKeyed refl (tt, tt)

assert_run_owner-Owns_example :
    (run_owner "run-2" ready.store ≡ some "alice")
    ⊎ ((run_owner "run-2" ready.store ≡ none)
        × (OwnsVersion "run-2" "alice" ready (values ready.versions)
            ⊎ OwnsEvidence "run-2" "alice" (values ready.evidence)))
unfolding assert_run_owner check_owner owner_by_version owner_by_evidence run_owner lookup
    find_session
assert_run_owner-Owns_example = assert_run_owner-Owns "run-2" "alice" ready refl

version_to_dict-inj_example : record passed_version { parent_version_id = none } ≡ passed_version
unfolding version_to_dict status_value validate_version_record validate_id is_id_char is_alnum
    is_sha256 text_length all_chars
version_to_dict-inj_example =
    version_to_dict-inj (record passed_version { parent_version_id = none }) passed_version
      passed_document refl refl
