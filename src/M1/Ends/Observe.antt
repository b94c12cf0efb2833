-- ===== src/M1/Ends/Observe.antt =====
-- `observe_run` of `M1Service`, for predicates that the recording of a result keeps.
use agentic_rtlto_gds_design.Prelude.{String, inl, inr, List, [], ◌∷◌, arith}
use agentic_rtlto_gds_design.Prelude.Result.{Result-cases}
use agentic_rtlto_gds_design.Prelude.Action.{◌>>◌, bind_state}
use agentic_rtlto_gds_design.M1.Models.{CheckStatus, RtlVersion}
use agentic_rtlto_gds_design.M1.State.{Service}
use agentic_rtlto_gds_design.M1.Versions.{record_verification, record_simulation}
use agentic_rtlto_gds_design.M1.Runs.{observe_verification, observe_simulation, observe_versions}

module _ (P : Service → Type 0) (run_id : String) (result : CheckStatus)
    (verification : (id : String) (t : Service)
      → P t
      → P (record_verification id result run_id t).1)
    (simulation : (id : String) (t : Service)
      → P t
      → P (record_simulation id result run_id t).1) where
  verification_ends :
      (e : String × RtlVersion) (t : Service) → P t → P (observe_verification run_id result e t).1
  unfolding observe_verification
  verification_ends e t h =
      let done = verification e.0 t h in
      elim (Result-cases (record_verification e.0 result run_id t).0) [
        | inl (v, ok_v) ↦ ground arith
        | inr (x, bad) ↦ ground arith
      ]

  simulation_ends :
      (e : String × RtlVersion) (t : Service) → P t → P (observe_simulation run_id result e t).1
  unfolding observe_simulation
  simulation_ends e t h =
      let done = simulation e.0 t h in
      elim (Result-cases (record_simulation e.0 result run_id t).0) [
        | inl (v, ok_v) ↦ ground arith
        | inr (x, bad) ↦ ground arith
      ]

  pub observe_versions_ends :
      (entries : List (String × RtlVersion)) (t : Service)
      → P t
      → P (observe_versions run_id result entries t).1
  unfolding observe_versions
  observe_versions_ends [] t h = h
  observe_versions_ends (e ∷ rest) t h =
      bind_state P (observe_verification run_id result e)
        (λ _. observe_simulation run_id result e >> observe_versions run_id result rest) t
        (verification_ends e t h)
        λ _ _.
          let u = (observe_verification run_id result e t).1 in
          bind_state P (observe_simulation run_id result e)
            (λ _. observe_versions run_id result rest) u
            (simulation_ends e u (verification_ends e t h))
            λ _ _.
              observe_versions_ends rest (observe_simulation run_id result e u).1
                (simulation_ends e u (verification_ends e t h))
