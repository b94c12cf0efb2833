-- ===== src/M1/Tests/Ready.antt =====
-- A counter that is ready for the GDS flow, and submissions that v2 answers with a bad run id.
use agentic_rtlto_gds_design.Prelude.{◌≡◌, refl, ◌↔◌, none, some}
use agentic_rtlto_gds_design.Prelude.Dict.{lookup, insert}
use agentic_rtlto_gds_design.Prelude.Json.{int, pos}
use agentic_rtlto_gds_design.Prelude.Lists.{for_each}
use agentic_rtlto_gds_design.Prelude.Result.{Error, value_error, ok, err}
use agentic_rtlto_gds_design.Prelude.Text.{
  text_length, all_chars, is_blank, is_identifier, is_sha256, is_id_char, is_alnum, remove_prefix,
}
use agentic_rtlto_gds_design.Contracts.RtlFrontend.{
  validate_port, collect_names, validate_signal, validate_ports, validate_spec,
}
use agentic_rtlto_gds_design.M1.Edges.{
  submit_verification-revives, submit_simulation-unsaved, submit_verification-unsaved,
  create_rtl_version-loses_parent,
}
use agentic_rtlto_gds_design.M1.Ends.{verified, simulated}
use agentic_rtlto_gds_design.M1.Gates.{
  GdsReady, ready_task, build_rtl_to_gds_request_iff, submit_rtl_to_gds-ready,
}
use agentic_rtlto_gds_design.M1.Models.{
  running, passed, invalidated, validate_id, RtlVersion, validate_version_record,
}
use agentic_rtlto_gds_design.M1.Requests.{
  frozen_spec, given_text, find_package, verification_task, build_verification_request,
  single_oracle, stage_oracle, simulation_task, build_simulation_request,
}
use agentic_rtlto_gds_design.M1.Requests.Gds.{clock_period, gds_task, build_rtl_to_gds_request}
use agentic_rtlto_gds_design.M1.State.{find_session, get_rtl_version, fingerprint, Service}
use agentic_rtlto_gds_design.M1.Store.{run_owner, put_run_owner}
use agentic_rtlto_gds_design.M1.Submit.{submit_verification, submit_simulation, submit_rtl_to_gds}
use agentic_rtlto_gds_design.M1.Tests.{
  digest, constant_lib, counter_spec, frozen_session, passed_version, counter_package, service_with,
  client,
}
use agentic_rtlto_gds_design.M1.V2.{
  TaskRequest, input_id, is_admitted, require_admitted, reply_run_id, submit_task,
}
use agentic_rtlto_gds_design.M1.Versions.{invalidate, create_rtl_version, record_verification}

abbrev ready : Service
ready = service_with passed_version

abbrev counter_gds_task : TaskRequest
counter_gds_task =
    gds_task passed_version counter_spec counter_package "nangate45" "input:1" digest (int (pos 10))

build_rtl_to_gds_request_iff_example :
    (build_rtl_to_gds_request constant_lib "rtl-1" "nangate45" (client "run-3") ready
      ≡ ok counter_gds_task)
    ↔ ((r : GdsReady constant_lib "rtl-1" "nangate45" (client "run-3") ready) × (counter_gds_task
          ≡ ready_task constant_lib "rtl-1" "nangate45" (client "run-3") ready r))
build_rtl_to_gds_request_iff_example =
    build_rtl_to_gds_request_iff constant_lib "rtl-1" "nangate45" (client "run-3") ready
      counter_gds_task

submit_rtl_to_gds-ready_example :
    (r : GdsReady constant_lib "rtl-1" "nangate45" (client "run-3") ready) × (run_owner "run-3"
        (submit_rtl_to_gds constant_lib "rtl-1" "nangate45" (client "run-3") ready).1.store
      ≡ some r.session.owner_id)
unfolding submit_rtl_to_gds build_rtl_to_gds_request get_rtl_version find_session frozen_spec
    given_text find_package is_admitted require_admitted reply_run_id submit_task fingerprint
    clock_period put_run_owner validate_spec validate_ports collect_names validate_port
    validate_signal is_identifier is_id_char is_alnum is_blank text_length all_chars for_each lookup
    insert remove_prefix
submit_rtl_to_gds-ready_example =
    submit_rtl_to_gds-ready constant_lib "rtl-1" "nangate45" (client "run-3") ready "run-3" refl

abbrev old_version : RtlVersion
old_version = record passed_version { verification_status = invalidated }

abbrev old : Service
old = service_with old_version

submit_verification-revives_example :
    ((submit_verification "rtl-1" (client "run-4") old).0 ≡ ok "run-4")
    × ((record_verification "rtl-1" passed "run-4"
          (submit_verification "rtl-1" (client "run-4") old).1).0
        ≡ ok (verified passed "run-4" old_version))
unfolding build_verification_request get_rtl_version find_session frozen_spec given_text
    find_package is_admitted require_admitted reply_run_id submit_task validate_version_record
    validate_id is_sha256 is_id_char is_alnum text_length all_chars lookup remove_prefix
submit_verification-revives_example =
    submit_verification-revives "rtl-1" "run-4" (client "run-4") old
      (verification_task old_version counter_spec counter_package "input:1") old_version refl refl
      refl refl refl

-- `not bounded` holds a space.
abbrev bad_verification_id : Error
bad_verification_id = value_error "verification_run_id must be a bounded identifier"

abbrev bad_simulation_id : Error
bad_simulation_id = value_error "simulation_run_id must be a bounded identifier"

submit_verification-unsaved_example :
    submit_verification "rtl-1" (client "not bounded") ready ≡ (err bad_verification_id, ready)
unfolding build_verification_request get_rtl_version find_session frozen_spec given_text
    find_package is_admitted require_admitted reply_run_id submit_task validate_version_record
    validate_id is_sha256 is_id_char is_alnum text_length all_chars lookup remove_prefix
submit_verification-unsaved_example =
    submit_verification-unsaved "rtl-1" "not bounded" (client "not bounded") ready
      (verification_task passed_version counter_spec counter_package "input:1") passed_version
      bad_verification_id refl refl refl refl

submit_simulation-unsaved_example :
    ((submit_simulation "rtl-1" (client "not bounded") ready).0 ≡ err bad_simulation_id)
    × (lookup "rtl-1" (submit_simulation "rtl-1" (client "not bounded") ready).1.versions
        ≡ some (simulated running "not bounded" passed_version))
    × ((submit_simulation "rtl-1" (client "not bounded") ready).1.store ≡ ready.store)
unfolding build_simulation_request single_oracle stage_oracle get_rtl_version find_session
    frozen_spec given_text find_package is_admitted require_admitted reply_run_id submit_task
    validate_version_record validate_id is_sha256 is_id_char is_alnum text_length all_chars lookup
    remove_prefix
submit_simulation-unsaved_example =
    submit_simulation-unsaved "rtl-1" "not bounded" (client "not bounded") ready
      (simulation_task passed_version counter_spec counter_package "input:1" "counter_tb"
        (input_id "oracle"))
      passed_version bad_simulation_id refl refl refl refl

create_rtl_version-loses_parent_example :
    ((create_rtl_version constant_lib "2" "spec-1" "module" "bad generator"
        (some "rtl-1")
        none
        ready).0
      ≡ err (value_error "generator must be a bounded identifier"))
    × (lookup "rtl-1"
          (create_rtl_version constant_lib "2" "spec-1" "module" "bad generator"
            (some "rtl-1")
            none
            ready).1.versions
        ≡ some (invalidate passed_version))
unfolding validate_version_record validate_id is_sha256 is_id_char is_alnum is_blank text_length
    all_chars lookup
create_rtl_version-loses_parent_example =
    create_rtl_version-loses_parent constant_lib "2" "spec-1" "module" "bad generator" "rtl-1" none
      ready frozen_session passed_version (value_error "generator must be a bounded identifier")
      refl refl refl refl refl refl refl
