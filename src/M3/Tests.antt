-- ===== src/M3/Tests.antt =====
-- A comparison with a task for the baseline alone.
use agentic_rtlto_gds_design.Prelude.{◌≡◌, refl, some, [], ◌∷◌}
use agentic_rtlto_gds_design.Prelude.Json.{pos, Float, finite, str}
use agentic_rtlto_gds_design.Prelude.Dict.{lookup, insert}
use agentic_rtlto_gds_design.Prelude.Result.{ok}
use agentic_rtlto_gds_design.M3.{
  Comparison, M3Store, M3Client, new_strategy, submitted, blocked, is_falsy, task_of, run_strategy,
  get, run,
}
use agentic_rtlto_gds_design.M3.Attempts.{OneRound, run-OneRound}

abbrev answering : M3Client
answering = record { submit = λ task key. ok "run-1" }

abbrev second : Float
second = finite (pos 1) (pos 0)

abbrev half_registered : Comparison
half_registered = record {
  comparison_id = "m3-1";
  owner_id = "alice";
  protocol = [];
  state = "created";
  baseline = new_strategy "baseline";
  orfs_agent = new_strategy "orfs_agent";
  tasks = ("baseline", str "task") ∷ [];
}

abbrev one_comparison : M3Store
one_comparison = ("m3-1", half_registered) ∷ []

abbrev half_run : Comparison
half_run = record half_registered {
  state = "completed";
  baseline = submitted second "run-1" (new_strategy "baseline");
  orfs_agent = blocked second (new_strategy "orfs_agent");
}

run-OneRound_example :
    (r : Comparison) × (lookup "m3-1" one_comparison ≡ some r)
    × (r.owner_id ≡ "alice")
    × OneRound r.baseline half_run.baseline
    × OneRound r.orfs_agent half_run.orfs_agent
    × (lookup "m3-1" (run answering second second "m3-1" "alice" one_comparison).1 ≡ some half_run)
unfolding run get run_strategy task_of is_falsy lookup insert
run-OneRound_example =
    run-OneRound answering second second "m3-1" "alice" one_comparison half_run refl
