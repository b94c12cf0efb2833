-- ===== src/M3/Attempts.antt =====
-- The attempts that `run` of `M3Service` adds to a comparison.
use agentic_rtlto_gds_design.Prelude.{
  ℕ, ◌+◌, String, ◌≡◌, refl, sym, ap, ◌∙◌, inl, inr, some, List, [], ◌∷◌, ◌++◌, arith, eq_iff,
  Option-cases,
}
use agentic_rtlto_gds_design.Prelude.Text.{◌<>◌}
use agentic_rtlto_gds_design.Prelude.Lists.{length}
use agentic_rtlto_gds_design.Prelude.Json.{Float, Json}
use agentic_rtlto_gds_design.Prelude.Dict.{lookup, lookup-insert_self}
use agentic_rtlto_gds_design.Prelude.Result.{ok, Result-cases}
use mathlib.Core.Path.{subst}
use agentic_rtlto_gds_design.M3.{
  Strategy, Comparison, M3Store, M3Client, get, task_of, blocked, submitted, run_strategy, run,
}

-- The runs and the failures of a strategy.
abbrev pub attempts : Strategy → ℕ
attempts s = length s.run_ids + length s.failures

-- One observation and one point for each run.
pub record IsRecorded (s : Strategy) : Type 0 where
  pub observed : length s.observations ≡ length s.run_ids
  pub traced : length s.trajectory ≡ length s.run_ids

length-append_one {ℓ} : {A : Type ℓ} (xs : List A) (x : A) → length (xs ++ x ∷ []) ≡ length xs + 1
length-append_one [] x = omega arith
length-append_one (y ∷ xs) x = omega (arith, length-append_one xs x)

-- What one round does to a strategy.
pub record OneRound (s t : Strategy) : Type 0 where
  pub one_more : attempts t ≡ attempts s + 1
  pub name : t.strategy ≡ s.strategy
  pub recorded : IsRecorded s → IsRecorded t

blocked-OneRound : (elapsed : Float) (s : Strategy) → OneRound s (blocked elapsed s)
blocked-OneRound elapsed s = record {
  one_more = omega (
    arith,
    length-append_one s.failures
        (record { stage = "admission"; reason = s.strategy <> " task protocol is not registered" }),
  );
  name = refl;
  recorded = λ h. record { observed = h.observed; traced = h.traced };
}

submitted-OneRound :
    (elapsed : Float) (run_id : String) (s : Strategy) → OneRound s (submitted elapsed run_id s)
submitted-OneRound elapsed run_id s =
    let runs = length-append_one s.run_ids run_id in
    record {
      one_more = omega arith;
      name = refl;
      recorded = λ h. record {
        observed =
            length-append_one s.observations
              (record { status = "submitted"; strategy = s.strategy })
            ∙ ap (λ n. n + 1) h.observed
            ∙ sym runs;
        traced =
            length-append_one s.trajectory
              (record { step = 0; qor = Json.null; status = "submitted" })
            ∙ ap (λ n. n + 1) h.traced
            ∙ sym runs;
      };
    }

run_strategy-OneRound :
    (v2 : M3Client) (elapsed : Float) (r : Comparison) (s t : Strategy)
    → run_strategy v2 elapsed r s ≡ ok t
    → OneRound s t
unfolding run_strategy
run_strategy-OneRound v2 elapsed r s t h = elim (Option-cases (task_of s.strategy r.tasks)) [
  | inl e ↦ subst (OneRound s) (ground arith) (blocked-OneRound elapsed s)
  | inr (task, e) ↦
      elim (Result-cases (v2.submit task ("m3-" <> s.strategy <> "-" <> r.comparison_id))) [
        | inr (x, f) ↦ absurd (ground arith)
        | inl (run_id, f) ↦ subst (OneRound s) (ground arith) (submitted-OneRound elapsed run_id s)
      ]
]

-- A run that returns adds exactly one attempt, a run id or a failure, to each strategy of the stored
-- comparison, keeps one observation and one trajectory point for each run id, and stores the result.
pub run-OneRound :
    (v2 : M3Client) (elapsed elapsed' : Float) (id owner_id : String) (s : M3Store) (t : Comparison)
    → (run v2 elapsed elapsed' id owner_id s).0 ≡ ok t
    → (r : Comparison) × (lookup id s ≡ some r)
      × (r.owner_id ≡ owner_id)
      × OneRound r.baseline t.baseline
      × OneRound r.orfs_agent t.orfs_agent
      × (lookup id (run v2 elapsed elapsed' id owner_id s).1 ≡ some t)
unfolding run get
run-OneRound v2 elapsed elapsed' id owner_id s t h = elim (Option-cases (lookup id s)) [
  | inl e ↦ absurd (ground arith)
  | inr (r, e) ↦ elim (Result-cases (run_strategy v2 elapsed r r.baseline)) [
    | inr (x, a) ↦ absurd (ground arith)
    | inl (baseline, a) ↦ elim (Result-cases (run_strategy v2 elapsed' r r.orfs_agent)) [
      | inr (x, b) ↦ absurd (ground arith)
      | inl (agent, b) ↦
          let done : Comparison = record r {
            state = "completed";
            baseline = baseline;
            orfs_agent = agent;
          } in
          let same : done ≡ t = ground arith in
          (
            r,
            e,
            ground (arith, eq_iff r.owner_id owner_id),
            subst (OneRound r.baseline) (ap (λ (q : Comparison). q.baseline) same)
                (run_strategy-OneRound v2 elapsed r r.baseline baseline a),
            subst (OneRound r.orfs_agent) (ap (λ (q : Comparison). q.orfs_agent) same)
                (run_strategy-OneRound v2 elapsed' r r.orfs_agent agent b),
            ground (arith, lookup-insert_self id done s),
          )
    ]
  ]
]
