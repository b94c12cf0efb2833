-- ===== src/M2/Created.antt =====
-- `run` of `M2Service` on a comparison that `create` has stored.
use agentic_rtlto_gds_design.Prelude.{String, ◌≡◌, refl, inl, inr, some, [], arith, eq_refl}
use agentic_rtlto_gds_design.Prelude.Json.{Float}
use agentic_rtlto_gds_design.Prelude.Dict.{lookup, lookup-insert_self}
use agentic_rtlto_gds_design.Prelude.Result.{ok, Result-cases}
use mathlib.Core.Path.{subst}
use agentic_rtlto_gds_design.M2.{
  created, Comparison, M2Store, Payload, M2Client, required_text, create, get, unavailable,
  run_candidate, run,
}

-- No candidate was submitted.
pub record NothingSubmitted (r : Comparison) : Type 0 where
  pub completed : r.state ≡ "completed"
  pub direct_status : r.direct_llm.status ≡ "toolchain_unavailable"
  pub scout_status : r.rtlscout.status ≡ "toolchain_unavailable"
  pub direct_runs : r.direct_llm.run_ids ≡ []
  pub scout_runs : r.rtlscout.run_ids ≡ []

abbrev outcome : Float → Float → Comparison → Comparison
outcome elapsed elapsed' r = record r {
  state = "completed";
  direct_llm = unavailable elapsed "direct_llm" r.direct_llm;
  rtlscout = unavailable elapsed' "rtlscout" r.rtlscout;
}

-- A stored comparison without sources is run without a call of v2.
run-sourceless :
    (v2 : M2Client) (elapsed elapsed' : Float) (r : Comparison) (s : M2Store)
    → lookup r.comparison_id s ≡ some r
    → r.candidate_sources ≡ []
    → (run v2 elapsed elapsed' r.comparison_id r.owner_id s).0 ≡ ok (outcome elapsed elapsed' r)
unfolding run get run_candidate lookup
run-sourceless v2 elapsed elapsed' r s e none_given =
    let own = eq_refl r.owner_id in
    let a : run_candidate v2 elapsed r.comparison_id r "direct_llm" r.direct_llm
        ≡ ok (unavailable elapsed "direct_llm" r.direct_llm) =
      ground arith in
    let b : run_candidate v2 elapsed' r.comparison_id r "rtlscout" r.rtlscout
        ≡ ok (unavailable elapsed' "rtlscout" r.rtlscout) =
      ground arith in
    ground arith

-- A comparison that `create` has stored and nobody has changed is run by its owner without a call of
-- v2, whatever the client: the run returns and both candidates end as `toolchain_unavailable`.
pub run-create :
    (v2 : M2Client) (elapsed elapsed' : Float) (uuid owner_id : String) (payload : Payload)
    (s : M2Store) (r : Comparison)
    → (create uuid owner_id payload s).0 ≡ ok r
    → (done : Comparison) × ((run v2 elapsed elapsed' r.comparison_id owner_id
          (create uuid owner_id payload s).1).0
        ≡ ok done)
      × NothingSubmitted done
unfolding create
run-create v2 elapsed elapsed' uuid owner_id payload s r h =
    elim (Result-cases (required_text payload.spec_id)) [
      | inr (x, a) ↦ absurd (ground arith)
      | inl (spec_id, a) ↦ elim (Result-cases (required_text payload.verification_id)) [
        | inr (x, b) ↦ absurd (ground arith)
        | inl (verification_id, b) ↦ elim (Result-cases (required_text payload.pdk)) [
          | inr (x, c) ↦ absurd (ground arith)
          | inl (pdk, c) ↦
              let k = created uuid owner_id spec_id verification_id pdk in
              let same : k ≡ r = ground arith in
              subst
                (λ q.
                  (done : Comparison) × ((run v2 elapsed elapsed' q.comparison_id owner_id
                      (create uuid owner_id payload s).1).0
                    ≡ ok done)
                  × NothingSubmitted done)
                same
                (
                  outcome elapsed elapsed' k,
                  run-sourceless v2 elapsed elapsed' k (create uuid owner_id payload s).1
                      (ground (arith, lookup-insert_self k.comparison_id k s)) refl,
                  record {
                    completed = refl;
                    direct_status = refl;
                    scout_status = refl;
                    direct_runs = refl;
                    scout_runs = refl;
                  },
                )
        ]
      ]
    ]
