-- ===== src/M1/Tests/Histories.antt =====
-- The flow of the counter from its assessment to a GDS submission, as a sequence of calls.
use mathlib.Core.Path.{subst}
use native.Mathlib.Omega.{arith}
use agentic_rtlto_gds_design.Prelude.{◌≡◌, refl, ap, true, none, some, List, [], ◌∷◌}
use agentic_rtlto_gds_design.Prelude.Dict.{lookup}
use agentic_rtlto_gds_design.Prelude.Result.{ok}
use agentic_rtlto_gds_design.Prelude.Text.{text_length, all_chars, is_id_char, is_alnum}
use agentic_rtlto_gds_design.M1.Durable.{IsDurable}
use agentic_rtlto_gds_design.M1.Durable.Calls.{BoundedRuns, AllBounded, perform_all-IsDurable}
use agentic_rtlto_gds_design.M1.Ends.Records.{assess_spec_ends, freeze_spec_ends}
use agentic_rtlto_gds_design.M1.History.{Extends, IsKeyed}
use agentic_rtlto_gds_design.M1.History.Calls.{
  Call, assess, freeze, create, verification_result, simulation_result, register, verify, simulate,
  make_gds, add_gds_evidence, observe, perform, perform_all, AllFresh, perform_all-Extends,
}
use agentic_rtlto_gds_design.M1.Models.{passed, validate_id}
use agentic_rtlto_gds_design.M1.Provenance.{HasProvenance, perform_all-HasProvenance}
use agentic_rtlto_gds_design.M1.Reload.{IsSaved, open_store, AnswersAlike}
use agentic_rtlto_gds_design.M1.Reload.Calls.{perform_all-open_store}
use agentic_rtlto_gds_design.M1.State.{Service, in_memory}
use agentic_rtlto_gds_design.M1.Tests.{
  constant_lib, counter_spec, counter_package, client, all_artifacts,
}

abbrev flow : List Call
flow =
    assess "1" "alice" (some counter_spec) [] none
    ∷ freeze "spec-1"
    ∷ create "1" "spec-1" "module counter" "llm" none (some "input:1")
    ∷ register "spec-1" counter_package
    ∷ verify "rtl-1" (client "run-1")
    ∷ verification_result "rtl-1" passed "run-1"
    ∷ simulate "rtl-1" (client "run-2")
    ∷ simulation_result "rtl-1" passed "run-2"
    ∷ make_gds "rtl-1" "nangate45" (client "run-3")
    ∷ add_gds_evidence "2026-01-01T00:00:00Z" "rtl-1" "run-3" all_artifacts "nangate45"
        (some true ∷ [])
    ∷ observe "run-3" "succeeded"
    ∷ []

in_memory-IsKeyed : IsKeyed in_memory
unfolding lookup
in_memory-IsKeyed = record { sessions = λ k x h. cc; versions = λ k v h. cc }

in_memory-IsDurable : IsDurable in_memory
unfolding lookup
in_memory-IsDurable = record {
  sessions = λ k. refl;
  versions = λ k. refl;
  verification_packages = λ k. refl;
  evidence = λ k. refl;
  run_outcomes = λ k. refl;
  valid_versions = λ k v h. cc;
}

in_memory-HasProvenance : HasProvenance in_memory
unfolding lookup
in_memory-HasProvenance = record { owner = λ k e h. cc; candidate = λ k e h. cc }

run_bounded : validate_id "simulation_run_id" "run-2" ≡ ok tt
unfolding validate_id is_id_char is_alnum text_length all_chars
run_bounded = refl

client-BoundedRuns : BoundedRuns (client "run-2")
unfolding BoundedRuns
client-BoundedRuns task key run_id h =
    subst (λ r. validate_id "simulation_run_id" r ≡ ok tt) (ground arith) run_bounded

-- No version comes with a session.
abbrev assessed : Service
assessed = perform constant_lib (assess "1" "alice" (some counter_spec) [] none) in_memory

assessed_versions : assessed.versions ≡ []
unfolding perform
assessed_versions =
    assess_spec_ends (λ t. t.versions ≡ []) "1" "alice" (some counter_spec) [] none in_memory refl
      (λ x _ _ _ _ _ _. refl)

frozen_versions : (perform constant_lib (freeze "spec-1") assessed).versions ≡ []
unfolding perform
frozen_versions =
    freeze_spec_ends (λ t. t.versions ≡ []) constant_lib "spec-1" assessed assessed_versions
      (λ x spec d _ _ _ _ _. assessed_versions)

flow-AllFresh : AllFresh constant_lib flow in_memory
unfolding lookup perform
flow-AllFresh = (
  refl,
  (
    tt,
    (
      ap (λ d. lookup "rtl-1" d) frozen_versions,
      (tt, (tt, (tt, (tt, (tt, (tt, (tt, (tt, tt)))))))),
    ),
  ),
)

flow-AllBounded : AllBounded flow
flow-AllBounded =
    (tt, (tt, (tt, (tt, (tt, (tt, (client-BoundedRuns, (tt, (tt, (tt, (tt, tt)))))))))))

perform_all-Extends_example :
    Extends in_memory (perform_all constant_lib flow in_memory)
    × IsKeyed (perform_all constant_lib flow in_memory)
perform_all-Extends_example =
    perform_all-Extends constant_lib flow in_memory in_memory-IsKeyed flow-AllFresh

perform_all-IsDurable_example : IsDurable (perform_all constant_lib flow in_memory)
perform_all-IsDurable_example =
    perform_all-IsDurable constant_lib flow in_memory in_memory-IsKeyed flow-AllFresh
      flow-AllBounded in_memory-IsDurable

perform_all-HasProvenance_example : HasProvenance (perform_all constant_lib flow in_memory)
perform_all-HasProvenance_example =
    perform_all-HasProvenance constant_lib flow in_memory in_memory-IsKeyed flow-AllFresh
      in_memory-HasProvenance

in_memory-IsSaved : IsSaved constant_lib in_memory.store
in_memory-IsSaved = record {
  session_keys = tt;
  session_rows = tt;
  version_keys = tt;
  version_rows = tt;
  package_keys = tt;
  package_rows = tt;
  evidence_keys = tt;
  evidence_rows = tt;
  outcome_keys = tt;
  outcome_rows = tt;
}

perform_all-open_store_example :
    (t : Service) × (open_store constant_lib (perform_all constant_lib flow in_memory).store ≡ ok t)
    × AnswersAlike (perform_all constant_lib flow in_memory) t
perform_all-open_store_example =
    perform_all-open_store constant_lib flow in_memory in_memory-IsKeyed flow-AllFresh
      flow-AllBounded in_memory-IsDurable in_memory-IsSaved
