-- ===== src/M1/Tests/Documents.antt =====
-- The document of the counter specification, and a request body.
use agentic_rtlto_gds_design.Prelude.{◌≡◌, refl, some}
use agentic_rtlto_gds_design.Prelude.Json.{pos, str, obj, field, end}
use agentic_rtlto_gds_design.Prelude.Lists.{for_each}
use agentic_rtlto_gds_design.Prelude.Result.{ok}
use agentic_rtlto_gds_design.Prelude.Text.{
  text_length, all_chars, is_blank, is_identifier, is_id_char, is_alnum,
}
use agentic_rtlto_gds_design.Contracts.RtlFrontend.{
  validate_port, collect_names, validate_signal, validate_ports, validate_spec,
}
use agentic_rtlto_gds_design.Contracts.RtlFrontend.Documents.{spec_to_json, spec_from_dict}
use agentic_rtlto_gds_design.Contracts.RtlFrontend.Reading.{spec_from_dict-valid}
use agentic_rtlto_gds_design.Contracts.RtlFrontend.Roundtrip.{spec_from_dict-spec_to_json}
use agentic_rtlto_gds_design.M1.Tests.{counter_spec}
use agentic_rtlto_gds_design.M1.Server.{Request, request_body}
use agentic_rtlto_gds_design.M1.Server.Body.{Accepted, request_body-Accepted}

counter_valid : validate_spec counter_spec ≡ ok tt
unfolding validate_spec validate_ports collect_names validate_port validate_signal is_identifier
    is_id_char is_alnum is_blank text_length all_chars for_each
counter_valid = refl

spec_from_dict-spec_to_json_example : spec_from_dict (spec_to_json counter_spec) ≡ ok counter_spec
spec_from_dict-spec_to_json_example = spec_from_dict-spec_to_json counter_spec counter_valid

spec_from_dict-valid_example : validate_spec counter_spec ≡ ok tt
spec_from_dict-valid_example =
    spec_from_dict-valid (spec_to_json counter_spec) counter_spec
      (spec_from_dict-spec_to_json counter_spec counter_valid)

abbrev login_request : Request
login_request = record {
  content_length = some (some (pos 20));
  body = λ length. some (obj (field "username" (str "alice") end));
}

request_body-Accepted_example : Accepted login_request (field "username" (str "alice") end)
unfolding request_body
request_body-Accepted_example =
    request_body-Accepted login_request (field "username" (str "alice") end) refl
