-- ===== src/M1/Tests/Observed.antt =====
-- A version that is simulated, and the end of its run.
use mathlib.Core.Path.{subst}
use agentic_rtlto_gds_design.Prelude.{String, ◌≡◌, refl, arith, some, eq_iff}
use agentic_rtlto_gds_design.Prelude.Dict.{lookup}
use agentic_rtlto_gds_design.Prelude.Result.{ok}
use agentic_rtlto_gds_design.Prelude.Text.{text_length, all_chars, is_id_char, is_alnum, is_sha256}
use agentic_rtlto_gds_design.M1.Models.{running, RtlVersion, validate_id, validate_version_record}
use agentic_rtlto_gds_design.M1.Runs.{observe_run}
use agentic_rtlto_gds_design.M1.Settled.{Settled}
use agentic_rtlto_gds_design.M1.Settled.Returns.{IsReady, AllReady, observe_run-settles}
use agentic_rtlto_gds_design.M1.State.{Service}
use agentic_rtlto_gds_design.M1.Tests.{passed_version, service_with}

abbrev simulated_version : RtlVersion
simulated_version = record passed_version { simulation_status = running }

abbrev simulating : Service
simulating = service_with simulated_version

simulated-IsReady : IsReady "run-2" simulated_version
unfolding validate_version_record validate_id is_sha256 is_id_char is_alnum text_length all_chars
simulated-IsReady = record { valid = refl; simulable = λ runs. refl }

simulating-AllReady : AllReady "run-2" simulating.versions
unfolding lookup
simulating-AllReady k v h =
    subst (IsReady "run-2") (ground (arith, eq_iff "rtl-1" k)) simulated-IsReady

observe_run-settles_example :
    ((observe_run "run-2" "succeeded" simulating).0 ≡ ok tt)
    × ((id : String) (v : RtlVersion)
        → lookup id (observe_run "run-2" "succeeded" simulating).1.versions ≡ some v
        → Settled "run-2" v)
unfolding lookup
observe_run-settles_example =
    observe_run-settles "run-2" "succeeded" simulating (refl, tt) simulating-AllReady refl
