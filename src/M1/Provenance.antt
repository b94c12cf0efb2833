-- ===== src/M1/Provenance.antt =====
-- The owner and the candidate of the evidence that `M1Service` has recorded.
use agentic_rtlto_gds_design.Prelude.{
  String, ◌≡◌, refl, ap, ◌∙◌, inl, inr, Option, none, some, List, [], ◌∷◌, arith, Option-cases,
}
use agentic_rtlto_gds_design.Prelude.Text.{◌<>◌}
use agentic_rtlto_gds_design.Prelude.Dict.{Dict, lookup, lookup-insert}
use agentic_rtlto_gds_design.Prelude.Action.{lift_state}
use agentic_rtlto_gds_design.Contracts.Evidence.{EvidenceRef}
use agentic_rtlto_gds_design.M1.Models.{RtlVersion}
use agentic_rtlto_gds_design.M1.State.{Service, Stdlib}
use agentic_rtlto_gds_design.M1.V2.{V2Client}
use agentic_rtlto_gds_design.M1.Versions.{create_rtl_version}
use agentic_rtlto_gds_design.M1.Submit.{uploaded_id, create_rtl_version_from_v2}
use agentic_rtlto_gds_design.M1.Evidence.{record_evidence}
use agentic_rtlto_gds_design.M1.Runs.{observe_run, result_of}
use agentic_rtlto_gds_design.M1.Ends.{
  record_verification_ends, record_simulation_ends, submit_verification_ends,
  submit_simulation_ends, invalidate_parent_ends, create_rtl_version_ends,
}
use agentic_rtlto_gds_design.M1.Ends.Records.{
  assess_spec_ends, freeze_spec_ends, register_verification_package_ends, submit_rtl_to_gds_ends,
  record_evidence_ends, record_incomplete_ends, record_gds_evidence_ends,
}
use agentic_rtlto_gds_design.M1.Ends.Observe.{observe_versions_ends}
use agentic_rtlto_gds_design.M1.History.{origin_at, owner_at, Extends, Extends-refl, IsKeyed}
use agentic_rtlto_gds_design.M1.History.Calls.{
  Call, assess, freeze, create, create_from_v2, verification_result, simulation_result, register,
  verify, simulate, make_gds, add_evidence, add_gds_evidence, observe, perform, perform_all,
  AllFresh, perform-Advances,
}

abbrev pub spec_of : String → Dict RtlVersion → Option String
spec_of k d = elim (origin_at k d) [ none ↦ none | some o ↦ some o.spec_id ]

-- Each piece of evidence belongs to the owner of its specification, and its candidate is a version
-- of that specification.
pub record HasProvenance (s : Service) : Type 0 where
  pub owner :
      (k : String) (e : EvidenceRef)
      → lookup k s.evidence ≡ some e
      → owner_at e.spec_id s.sessions ≡ some e.owner_id
  pub candidate :
      (k : String) (e : EvidenceRef)
      → lookup k s.evidence ≡ some e
      → spec_of e.candidate_id s.versions ≡ some e.spec_id

-- Where no evidence is added, it stays as the history goes on.
same_evidence-HasProvenance :
    (s t : Service) → Extends s t → t.evidence ≡ s.evidence → HasProvenance s → HasProvenance t
same_evidence-HasProvenance s t ext same h = record {
  owner = λ k e p. ext.owners e.spec_id e.owner_id (h.owner k e (rw same at p));
  candidate = λ k e p. elim (Option-cases (origin_at e.candidate_id s.versions)) [
    | inl q ↦ absurd (ground (arith, h.candidate k e (rw same at p)))
    | inr (o, q) ↦ ground (arith, ext.origins e.candidate_id o q, h.candidate k e (rw same at p))
  ];
}

record_evidence-HasProvenance :
    (lib : Stdlib) (e : EvidenceRef) (s : Service)
    → HasProvenance s
    → HasProvenance (record_evidence lib e s).1
record_evidence-HasProvenance lib e s h =
    record_evidence_ends HasProvenance lib e s h λ x v p q owns of _ _ _. record {
      owner = λ k e' r. ground (arith, lookup-insert e.evidence_id k e s.evidence, h.owner k e');
      candidate =
          λ k e' r. ground (arith, lookup-insert e.evidence_id k e s.evidence, h.candidate k e');
    }

-- `evidence` as it was.
abbrev SameEvidence : Service → Service → Type 0
SameEvidence s t = t.evidence ≡ s.evidence

create-SameEvidence :
    (lib : Stdlib) (uuid spec_id source generator : String) (parent ref : Option String)
    (s : Service)
    → SameEvidence s (create_rtl_version lib uuid spec_id source generator parent ref s).1
create-SameEvidence lib uuid spec_id source generator parent ref s =
    let before =
      invalidate_parent_ends (SameEvidence s) spec_id parent s refl
        (λ id v e. ((λ _ _. refl), λ _. refl)) in
    create_rtl_version_ends (SameEvidence s) lib uuid spec_id source generator parent ref s refl
      before (λ t w at_t _ _. ap (λ (u : Service). u.evidence) at_t ∙ before)

create_from_v2-SameEvidence :
    (lib : Stdlib) (uuid spec_id source generator : String) (v2 : V2Client) (parent : Option String)
    (s : Service)
    → SameEvidence s (create_rtl_version_from_v2 lib uuid spec_id source generator v2 parent s).1
unfolding create_rtl_version_from_v2
create_from_v2-SameEvidence lib uuid spec_id source generator v2 parent s =
    lift_state (SameEvidence s) (v2.upload_rtl source) _ s refl λ reply _.
      lift_state (SameEvidence s) (uploaded_id reply) _ s refl λ given _.
        create-SameEvidence lib uuid spec_id source generator parent (some ("input:" <> given)) s

observe_run-SameEvidence :
    (run_id status : String) (s : Service) → SameEvidence s (observe_run run_id status s).1
unfolding observe_run
observe_run-SameEvidence run_id status s =
    let done =
      observe_versions_ends (SameEvidence s) run_id (result_of status)
        (λ id t h.
          record_verification_ends (SameEvidence s) id run_id (result_of status) t h
            (λ v _ _ _ _. h))
        (λ id t h.
          record_simulation_ends (SameEvidence s) id run_id (result_of status) t h (λ v _ _ _ _. h))
        s.versions s refl in
    ground arith

perform-HasProvenance :
    (lib : Stdlib) (c : Call) (s : Service)
    → Extends s (perform lib c s)
    → HasProvenance s
    → HasProvenance (perform lib c s)
unfolding perform
perform-HasProvenance lib (assess uuid owner spec questions reason) s x h =
    same_evidence-HasProvenance s _ x
      (assess_spec_ends (SameEvidence s) uuid owner spec questions reason s refl
        (λ _ _ _ _ _ _ _. refl))
      h
perform-HasProvenance lib (freeze id) s x h =
    same_evidence-HasProvenance s _ x
      (freeze_spec_ends (SameEvidence s) lib id s refl (λ _ _ _ _ _ _ _ _. refl)) h
perform-HasProvenance lib (create uuid spec_id source generator parent ref) s x h =
    same_evidence-HasProvenance s _ x
      (create-SameEvidence lib uuid spec_id source generator parent ref s) h
perform-HasProvenance lib (create_from_v2 uuid spec_id source generator v2 parent) s x h =
    same_evidence-HasProvenance s _ x
      (create_from_v2-SameEvidence lib uuid spec_id source generator v2 parent s) h
perform-HasProvenance lib (verification_result id status run_id) s x h =
    same_evidence-HasProvenance s _ x
      (record_verification_ends (SameEvidence s) id run_id status s refl (λ _ _ _ _ _. refl)) h
perform-HasProvenance lib (simulation_result id status run_id) s x h =
    same_evidence-HasProvenance s _ x
      (record_simulation_ends (SameEvidence s) id run_id status s refl (λ _ _ _ _ _. refl)) h
perform-HasProvenance lib (register id pack) s x h =
    same_evidence-HasProvenance s _ x
      (register_verification_package_ends (SameEvidence s) id pack s refl (λ _ _ _. refl)) h
perform-HasProvenance lib (verify id v2) s x h =
    same_evidence-HasProvenance s _ x
      (submit_verification_ends (SameEvidence s) id v2 s refl (λ _ _ _ _. refl)) h
perform-HasProvenance lib (simulate id v2) s x h =
    same_evidence-HasProvenance s _ x
      (submit_simulation_ends (SameEvidence s) id v2 s refl (λ _ _ _ _ _ _ _. refl)
        (λ _ _ _ _. refl))
      h
perform-HasProvenance lib (make_gds id pdk v2) s x h =
    same_evidence-HasProvenance s _ x
      (submit_rtl_to_gds_ends (SameEvidence s) lib id pdk v2 s refl (λ _ _. refl)) h
perform-HasProvenance lib (add_evidence e) s x h = record_evidence-HasProvenance lib e s h
perform-HasProvenance lib (add_gds_evidence now id run_id artifacts pdk metrics) s x h =
    record_gds_evidence_ends HasProvenance lib now id run_id artifacts pdk metrics s h
      (λ e. record_evidence-HasProvenance lib e s h)
      λ missing _.
        record_incomplete_ends HasProvenance id run_id pdk artifacts missing s h
          λ o _ _. record { owner = h.owner; candidate = h.candidate }
perform-HasProvenance lib (observe run_id status) s x h =
    same_evidence-HasProvenance s _ x (observe_run-SameEvidence run_id status s) h

-- After any sequence of calls from a service with keyed dictionaries, failed calls included, each
-- piece of evidence belongs to the owner of its specification, and its candidate is an RTL version
-- of that specification, provided that this held before and the uuids are fresh.
pub perform_all-HasProvenance :
    (lib : Stdlib) (calls : List Call) (s : Service)
    → IsKeyed s
    → AllFresh lib calls s
    → HasProvenance s
    → HasProvenance (perform_all lib calls s)
unfolding perform_all
perform_all-HasProvenance lib [] s keyed fresh h = h
perform_all-HasProvenance lib (c ∷ calls) s keyed fresh h =
    let a =
      perform-Advances lib c s s fresh.0 (record { extends = Extends-refl s; keyed = keyed }) in
    perform_all-HasProvenance lib calls (perform lib c s) a.keyed fresh.1
      (perform-HasProvenance lib c s a.extends h)
