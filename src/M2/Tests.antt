-- ===== src/M2/Tests.antt =====
-- A comparison that is created and run.
use agentic_rtlto_gds_design.Prelude.{◌≡◌, refl, some, []}
use agentic_rtlto_gds_design.Prelude.Text.{is_blank, all_chars}
use agentic_rtlto_gds_design.Prelude.Json.{pos, Float, finite}
use agentic_rtlto_gds_design.Prelude.Result.{ok}
use agentic_rtlto_gds_design.M2.{Comparison, Payload, M2Client, created, required_text, create, run}
use agentic_rtlto_gds_design.M2.Created.{NothingSubmitted, run-create}

abbrev answering : M2Client
answering = record { upload_rtl = λ source. ok "input-1"; submit = λ task key. ok "run-1" }

abbrev counter_payload : Payload
counter_payload = record {
  spec_id = some "spec-1";
  verification_id = some "verification-1";
  pdk = some "nangate45";
}

abbrev second : Float
second = finite (pos 1) (pos 0)

run-create_example :
    (done : Comparison) × ((run answering second second "m2-1" "alice"
        (create "1" "alice" counter_payload []).1).0
      ≡ ok done)
    × NothingSubmitted done
unfolding create required_text is_blank all_chars
run-create_example =
    run-create answering second second "1" "alice" counter_payload []
      (created "1" "alice" "spec-1" "verification-1" "nangate45") refl
