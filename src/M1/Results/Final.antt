-- ===== src/M1/Results/Final.antt =====
-- Repeated calls of `record_gds_evidence` of `M1Service` for one run, with other calls between them.
use agentic_rtlto_gds_design.Prelude.{
  String, ◌≡◌, refl, sym, ◌⊎◌, inl, inr, Bool, Option, none, some, List, [], ◌∷◌, arith, Bool-cases,
  Option-cases,
}
use agentic_rtlto_gds_design.Prelude.Text.{◌<>◌}
use agentic_rtlto_gds_design.Prelude.Lists.{null}
use agentic_rtlto_gds_design.Prelude.Dict.{lookup}
use agentic_rtlto_gds_design.Prelude.Result.{ok}
use agentic_rtlto_gds_design.Contracts.Evidence.{EvidenceRef}
use agentic_rtlto_gds_design.M1.Models.{M1RunOutcome}
use agentic_rtlto_gds_design.M1.State.{Service, Stdlib}
use agentic_rtlto_gds_design.M1.Evidence.{
  Artifact, missing_parts, GdsResult, measured, incomplete, record_new_run, record_gds_evidence,
  incomplete_outcome,
}
use agentic_rtlto_gds_design.M1.History.{IsKeyed}
use agentic_rtlto_gds_design.M1.History.Calls.{
  Call, add_gds_evidence, perform, perform_all, AllFresh, perform_all-Extends,
}
use agentic_rtlto_gds_design.M1.Results.{complete-found, incomplete-found}

-- What a service holds after a call for a run that returned.
abbrev IsHeld : String → GdsResult → Service → Type 0
IsHeld run_id r t =
    ((e : EvidenceRef) × (r ≡ measured e) × (lookup ("evidence:" <> run_id) t.evidence ≡ some e))
    ⊎ ((o : M1RunOutcome) × (r ≡ incomplete o)
        × (lookup run_id t.run_outcomes ≡ some o)
        × (lookup ("evidence:" <> run_id) t.evidence ≡ none))

record_gds_evidence-IsHeld :
    (lib : Stdlib) (now version_id run_id : String) (artifacts : List Artifact) (pdk : String)
    (metrics : List (Option Bool)) (s : Service) (r : GdsResult)
    → (record_gds_evidence lib now version_id run_id artifacts pdk metrics s).0 ≡ ok r
    → IsHeld run_id r (record_gds_evidence lib now version_id run_id artifacts pdk metrics s).1
unfolding record_gds_evidence record_new_run
record_gds_evidence-IsHeld lib now version_id run_id artifacts pdk metrics s r h =
    elim (Option-cases (lookup ("evidence:" <> run_id) s.evidence)) [
      | inr (e, p) ↦ inl (e, ground arith, ground arith)
      | inl p ↦ elim (Option-cases (lookup run_id s.run_outcomes)) [
        | inr (o, q) ↦ inr (o, ground arith, ground arith, ground arith)
        | inl q ↦ elim (Bool-cases (null (missing_parts artifacts metrics))) [
          | inl whole ↦
              let (e, made, found) =
                complete-found lib now version_id run_id pdk artifacts r s (ground arith) in
              inl (e, ground arith, ground arith)
          | inr part ↦
              let (made, found, kept) =
                incomplete-found version_id run_id pdk artifacts (missing_parts artifacts metrics) r
                  s (ground arith) in
              let o =
                incomplete_outcome version_id run_id pdk artifacts
                  (missing_parts artifacts metrics) in
              inr (o, made, ground arith, ground arith)
        ]
      ]
    ]

module _ (lib : Stdlib) (now version_id run_id : String) (artifacts : List Artifact) (pdk : String)
    (metrics : List (Option Bool)) (u : Service) where
  again_measured :
      (e : EvidenceRef)
      → lookup ("evidence:" <> run_id) u.evidence ≡ some e
      → record_gds_evidence lib now version_id run_id artifacts pdk metrics u ≡ (ok (measured e), u)
  unfolding record_gds_evidence
  again_measured e h = ground arith

  again_incomplete :
      (o : M1RunOutcome)
      → lookup ("evidence:" <> run_id) u.evidence ≡ none
      → lookup run_id u.run_outcomes ≡ some o
      → record_gds_evidence lib now version_id run_id artifacts pdk metrics u
        ≡ (ok (incomplete o), u)
  unfolding record_gds_evidence
  again_incomplete o g h = ground arith

-- What a repeated call for a run returns in `u`: the earlier result, unless that was incomplete and
-- evidence under the id of the run has been added since, which is then returned.
abbrev pub Repeats : String → GdsResult → Service → GdsResult → Type 0
Repeats run_id r u again =
    (again ≡ r)
    ⊎ ((o : M1RunOutcome) × (e : EvidenceRef) × (r ≡ incomplete o)
        × (lookup ("evidence:" <> run_id) u.evidence ≡ some e)
        × (again ≡ measured e))

-- The result of a run is settled by the first call that returned one: after it and any further calls
-- of the service, failed ones included, a later call for that run, with whatever version, artifacts,
-- metrics and PDK, changes nothing and returns the same result, or, where that was an incomplete
-- outcome and evidence has been recorded under the id of the run since, that evidence. The service
-- begins with keyed dictionaries, and uuids are fresh.
pub record_gds_evidence-settled :
    (lib : Stdlib) (now version_id run_id : String) (artifacts : List Artifact) (pdk : String)
    (metrics : List (Option Bool)) (s : Service) (r : GdsResult) (calls : List Call)
    (now' version_id' : String) (artifacts' : List Artifact) (pdk' : String)
    (metrics' : List (Option Bool))
    → IsKeyed s
    → (record_gds_evidence lib now version_id run_id artifacts pdk metrics s).0 ≡ ok r
    → let t = (record_gds_evidence lib now version_id run_id artifacts pdk metrics s).1 in
      AllFresh lib calls t
      → let t = (record_gds_evidence lib now version_id run_id artifacts pdk metrics s).1 in
        let u = perform_all lib calls t in
        (again : GdsResult) × (record_gds_evidence lib now' version_id' run_id artifacts' pdk'
            metrics' u
          ≡ (ok again, u))
        × Repeats run_id r u again
record_gds_evidence-settled lib now version_id run_id artifacts pdk metrics s r calls now'
      version_id' artifacts' pdk' metrics' keyed h fresh =
    let t = (record_gds_evidence lib now version_id run_id artifacts pdk metrics s).1 in
    let u = perform_all lib calls t in
    let (extends, _) = perform_all-Extends lib calls t keyed_after fresh in
    elim (record_gds_evidence-IsHeld lib now version_id run_id artifacts pdk metrics s r h) [
      | inl (e, made, found) ↦ (
        measured e,
        again_measured lib now' version_id' run_id artifacts' pdk' metrics' u e
            (extends.evidence _ e found),
        inl (sym made),
      )
      | inr (o, made, found, missing) ↦
          elim (Option-cases (lookup ("evidence:" <> run_id) u.evidence)) [
            | inr (e, added) ↦ (
              measured e,
              again_measured lib now' version_id' run_id artifacts' pdk' metrics' u e added,
              inr (o, e, made, added, refl),
            )
            | inl still ↦ (
              incomplete o,
              again_incomplete lib now' version_id' run_id artifacts' pdk' metrics' u o still
                  (extends.run_outcomes run_id o found),
              inl (sym made),
            )
          ]
    ]
  where
    keyed_after : IsKeyed (record_gds_evidence lib now version_id run_id artifacts pdk metrics s).1
    keyed_after =
        unfold perform_all perform in
        (perform_all-Extends lib (add_gds_evidence now version_id run_id artifacts pdk metrics ∷ [])
          s keyed (tt, tt)).1
