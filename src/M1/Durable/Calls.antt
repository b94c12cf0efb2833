-- ===== src/M1/Durable/Calls.antt =====
-- The calls of `M1Service`, for the agreement of its dictionaries with its store.
use agentic_rtlto_gds_design.Prelude.{
  String, ◌≡◌, refl, inl, inr, Option, none, some, List, [], ◌∷◌, arith, Bool-cases,
}
use agentic_rtlto_gds_design.Prelude.Text.{◌<>◌}
use agentic_rtlto_gds_design.Prelude.Lists.{elem}
use agentic_rtlto_gds_design.Prelude.Result.{ok, Result-cases}
use agentic_rtlto_gds_design.Prelude.Action.{lift_state}
use agentic_rtlto_gds_design.Contracts.RtlFrontend.{VerificationPackage}
use agentic_rtlto_gds_design.Contracts.Evidence.{EvidenceRef}
use agentic_rtlto_gds_design.M1.Models.{CheckStatus, running, validate_id, M1RunOutcome, M1Session}
use agentic_rtlto_gds_design.M1.State.{Service, Stdlib}
use agentic_rtlto_gds_design.M1.V2.{TaskRequest, V2Client, submit_task}
use agentic_rtlto_gds_design.M1.Versions.{
  invalidate, invalidate_parent, create_rtl_version, record_verification, record_simulation,
}
use agentic_rtlto_gds_design.M1.Submit.{
  uploaded_id, create_rtl_version_from_v2, submit_verification, submit_simulation,
}
use agentic_rtlto_gds_design.M1.Evidence.{record_evidence}
use agentic_rtlto_gds_design.M1.Runs.{observe_run, terminal_statuses, result_of}
use agentic_rtlto_gds_design.M1.Ends.{
  record_verification_ends, record_simulation_ends, submit_verification_ends,
  submit_simulation_ends, invalidate_parent_ends, create_rtl_version_ends,
}
use agentic_rtlto_gds_design.M1.Ends.Records.{
  with_session, with_package, with_outcome, assess_spec_ends, freeze_spec_ends,
  register_verification_package_ends, submit_rtl_to_gds_ends, record_evidence_ends,
  record_incomplete_ends, record_gds_evidence_ends,
}
use agentic_rtlto_gds_design.M1.Ends.Observe.{observe_versions_ends}
use agentic_rtlto_gds_design.M1.History.{Extends-refl, IsKeyed}
use agentic_rtlto_gds_design.M1.History.Steps.{
  Advances, record_verification-Advances, record_simulation-Advances,
}
use agentic_rtlto_gds_design.M1.History.Calls.{
  Call, assess, freeze, create, create_from_v2, verification_result, simulation_result, register,
  verify, simulate, make_gds, add_evidence, add_gds_evidence, observe, perform, perform_all,
  AllFresh, perform-Advances,
}
use agentic_rtlto_gds_design.M1.Durable.{
  IsDurable, version-IsDurable, insert-SameLookups, invalidate_valid, simulated_valid,
}

-- The client names runs by bounded identifiers.
unfoldable pub BoundedRuns : V2Client → Type 0
BoundedRuns v2 =
    (task : TaskRequest) (key run_id : String)
    → v2.submit task key ≡ ok (some run_id)
    → validate_id "simulation_run_id" run_id ≡ ok tt

-- The clients of the simulation submissions among the calls name runs by bounded identifiers.
abbrev pub BoundedCall : Call → Type 0
BoundedCall (simulate id v2) = BoundedRuns v2
BoundedCall _ = Unit

abbrev pub AllBounded : List Call → Type 0
AllBounded [] = Unit
AllBounded (c ∷ calls) = BoundedCall c × AllBounded calls

submitted_bounded :
    (v2 : V2Client) (task : TaskRequest) (run_id : String)
    → BoundedRuns v2
    → submit_task task v2 ≡ ok run_id
    → validate_id "simulation_run_id" run_id ≡ ok tt
unfolding submit_task BoundedRuns
submitted_bounded v2 task run_id bounded h = elim (Result-cases (v2.submit task task.task_id)) [
  | inr (x, e) ↦ absurd (ground arith)
  | inl (none, e) ↦ absurd (ground arith)
  | inl (some run, e) ↦ ground (arith, bounded task task.task_id run)
]

record_verification-IsDurable :
    (id run_id : String) (status : CheckStatus) (s : Service)
    → IsKeyed s
    → IsDurable s
    → IsDurable (record_verification id status run_id s).1
record_verification-IsDurable id run_id status s keyed h =
    record_verification_ends IsDurable id run_id status s h
      λ v e _ _ valid. version-IsDurable s id _ h (keyed.versions id v e) valid

record_simulation-IsDurable :
    (id run_id : String) (status : CheckStatus) (s : Service)
    → IsKeyed s
    → IsDurable s
    → IsDurable (record_simulation id status run_id s).1
record_simulation-IsDurable id run_id status s keyed h =
    record_simulation_ends IsDurable id run_id status s h
      λ v e _ _ valid. version-IsDurable s id _ h (keyed.versions id v e) valid

submit_verification-IsDurable :
    (id : String) (v2 : V2Client) (s : Service)
    → IsKeyed s
    → IsDurable s
    → IsDurable (submit_verification id v2 s).1
submit_verification-IsDurable id v2 s keyed h =
    submit_verification_ends IsDurable id v2 s h
      λ v run_id e valid. version-IsDurable s id _ h (keyed.versions id v e) valid

submit_simulation-IsDurable :
    (id : String) (v2 : V2Client) (s : Service)
    → BoundedRuns v2
    → IsKeyed s
    → IsDurable s
    → IsDurable (submit_simulation id v2 s).1
submit_simulation-IsDurable id v2 s bounded keyed h =
    submit_simulation_ends IsDurable id v2 s h
      (λ v run_id task x e r bad. absurd (
        ground (
          arith,
          simulated_valid v running run_id (h.valid_versions id v e)
              (submitted_bounded v2 task run_id bounded r),
        )))
      (λ v run_id e valid. version-IsDurable s id _ h (keyed.versions id v e) valid)

invalidate_parent-IsDurable :
    (spec_id : String) (parent : Option String) (s : Service)
    → IsKeyed s
    → IsDurable s
    → IsDurable (invalidate_parent spec_id parent s).1
invalidate_parent-IsDurable spec_id parent s keyed h =
    invalidate_parent_ends IsDurable spec_id parent s h λ id v e.
      let valid = invalidate_valid v (h.valid_versions id v e) in
      (
        (λ x bad. absurd (ground arith)),
        λ _. version-IsDurable s v.version_id (invalidate v) h refl valid,
      )

create-IsDurable :
    (lib : Stdlib) (uuid spec_id source generator : String) (parent ref : Option String)
    (s : Service)
    → IsKeyed s
    → IsDurable s
    → IsDurable (create_rtl_version lib uuid spec_id source generator parent ref s).1
create-IsDurable lib uuid spec_id source generator parent ref s keyed h =
    let before = invalidate_parent-IsDurable spec_id parent s keyed h in
    create_rtl_version_ends IsDurable lib uuid spec_id source generator parent ref s h before
      λ t w at_t _ valid. version-IsDurable t w.version_id w (rw at_t before) refl valid

create_from_v2-IsDurable :
    (lib : Stdlib) (uuid spec_id source generator : String) (v2 : V2Client) (parent : Option String)
    (s : Service)
    → IsKeyed s
    → IsDurable s
    → IsDurable (create_rtl_version_from_v2 lib uuid spec_id source generator v2 parent s).1
unfolding create_rtl_version_from_v2
create_from_v2-IsDurable lib uuid spec_id source generator v2 parent s keyed h =
    lift_state IsDurable (v2.upload_rtl source) _ s h λ reply _.
      lift_state IsDurable (uploaded_id reply) _ s h λ given _.
        create-IsDurable lib uuid spec_id source generator parent (some ("input:" <> given)) s keyed
          h

session-IsDurable :
    (s : Service) (id : String) (x : M1Session)
    → IsDurable s
    → x.spec_id ≡ id
    → IsDurable (with_session id x s)
session-IsDurable s id x h own = record {
  sessions = insert-SameLookups id x.spec_id x s.sessions s.store.sessions own h.sessions;
  versions = h.versions;
  verification_packages = h.verification_packages;
  evidence = h.evidence;
  run_outcomes = h.run_outcomes;
  valid_versions = h.valid_versions;
}

record_evidence-IsDurable :
    (lib : Stdlib) (e : EvidenceRef) (s : Service)
    → IsDurable s
    → IsDurable (record_evidence lib e s).1
record_evidence-IsDurable lib e s h = record_evidence_ends IsDurable lib e s h λ _ _ _ _ _ _ _ _ _.
    record {
      sessions = h.sessions;
      versions = h.versions;
      verification_packages = h.verification_packages;
      evidence =
          insert-SameLookups e.evidence_id e.evidence_id e s.evidence s.store.evidence refl
            h.evidence;
      run_outcomes = h.run_outcomes;
      valid_versions = h.valid_versions;
    }

outcome-IsDurable : (s : Service) (o : M1RunOutcome) → IsDurable s → IsDurable (with_outcome o s)
outcome-IsDurable s o h = record {
  sessions = h.sessions;
  versions = h.versions;
  verification_packages = h.verification_packages;
  evidence = h.evidence;
  run_outcomes =
      insert-SameLookups o.run_id o.run_id o s.run_outcomes s.store.run_outcomes refl
        h.run_outcomes;
  valid_versions = h.valid_versions;
}

package-IsDurable :
    (s : Service) (id : String) (p : VerificationPackage)
    → IsDurable s
    → p.spec_id ≡ id
    → IsDurable (with_package id p s)
package-IsDurable s id p h own = record {
  sessions = h.sessions;
  versions = h.versions;
  verification_packages =
      insert-SameLookups id p.spec_id p s.verification_packages s.store.verification_packages own
        h.verification_packages;
  evidence = h.evidence;
  run_outcomes = h.run_outcomes;
  valid_versions = h.valid_versions;
}

-- The recording of a result keeps both invariants.
record Sound (s : Service) : Type 0 where
  keyed : IsKeyed s
  durable : IsDurable s

keyed_self : (s : Service) → IsKeyed s → Advances s s
keyed_self s keyed = record { extends = Extends-refl s; keyed = keyed }

observe_run-IsDurable :
    (run_id status : String) (s : Service)
    → IsKeyed s
    → IsDurable s
    → IsDurable (observe_run run_id status s).1
unfolding observe_run
observe_run-IsDurable run_id status s keyed h =
    let done =
      observe_versions_ends Sound run_id (result_of status)
        (λ id t p. record {
          keyed =
              (record_verification-Advances id run_id (result_of status) t t
                (keyed_self t p.keyed)).keyed;
          durable = record_verification-IsDurable id run_id (result_of status) t p.keyed p.durable;
        })
        (λ id t p. record {
          keyed =
              (record_simulation-Advances id run_id (result_of status) t t
                (keyed_self t p.keyed)).keyed;
          durable = record_simulation-IsDurable id run_id (result_of status) t p.keyed p.durable;
        })
        s.versions s (record { keyed = keyed; durable = h }) in
    elim (Bool-cases (elem status terminal_statuses)) [
      | inl e ↦ rw (e, observe_run) done.durable
      | inr e ↦ rw (e, observe_run) h
    ]

perform-IsDurable :
    (lib : Stdlib) (c : Call) (s : Service)
    → BoundedCall c
    → IsKeyed s
    → IsDurable s
    → IsDurable (perform lib c s)
unfolding perform
perform-IsDurable lib (assess uuid owner spec questions reason) s b k h =
    assess_spec_ends IsDurable uuid owner spec questions reason s h
      λ x _ _ _ _ _ _. session-IsDurable s x.spec_id x h refl
perform-IsDurable lib (freeze id) s b k h =
    freeze_spec_ends IsDurable lib id s h
      λ x spec digest e _ _ _ _. session-IsDurable s id _ h (k.sessions id x e)
perform-IsDurable lib (create uuid spec_id source generator parent ref) s b k h =
    create-IsDurable lib uuid spec_id source generator parent ref s k h
perform-IsDurable lib (create_from_v2 uuid spec_id source generator v2 parent) s b k h =
    create_from_v2-IsDurable lib uuid spec_id source generator v2 parent s k h
perform-IsDurable lib (verification_result id status run_id) s b k h =
    record_verification-IsDurable id run_id status s k h
perform-IsDurable lib (simulation_result id status run_id) s b k h =
    record_simulation-IsDurable id run_id status s k h
perform-IsDurable lib (register id pack) s b k h =
    register_verification_package_ends IsDurable id pack s h
      λ own _ _. package-IsDurable s id pack h own
perform-IsDurable lib (verify id v2) s b k h = submit_verification-IsDurable id v2 s k h
perform-IsDurable lib (simulate id v2) s b k h = submit_simulation-IsDurable id v2 s b k h
perform-IsDurable lib (make_gds id pdk v2) s b k h =
    submit_rtl_to_gds_ends IsDurable lib id pdk v2 s h λ run_id o. record {
      sessions = h.sessions;
      versions = h.versions;
      verification_packages = h.verification_packages;
      evidence = h.evidence;
      run_outcomes = h.run_outcomes;
      valid_versions = h.valid_versions;
    }
perform-IsDurable lib (add_evidence e) s b k h = record_evidence-IsDurable lib e s h
perform-IsDurable lib (add_gds_evidence now id run_id artifacts pdk metrics) s b k h =
    record_gds_evidence_ends IsDurable lib now id run_id artifacts pdk metrics s h
      (λ e. record_evidence-IsDurable lib e s h)
      λ missing _.
        record_incomplete_ends IsDurable id run_id pdk artifacts missing s h
          λ o _ _. outcome-IsDurable s o h
perform-IsDurable lib (observe run_id status) s b k h = observe_run-IsDurable run_id status s k h

-- After any sequence of calls from a service with keyed dictionaries that agree with its store,
-- failed calls included, the dictionaries still agree with the store and every version in them
-- passes `validate`, provided that uuids are fresh and that v2 names the runs of simulation
-- submissions by bounded identifiers.
pub perform_all-IsDurable :
    (lib : Stdlib) (calls : List Call) (s : Service)
    → IsKeyed s
    → AllFresh lib calls s
    → AllBounded calls
    → IsDurable s
    → IsDurable (perform_all lib calls s)
unfolding perform_all
perform_all-IsDurable lib [] s keyed fresh bounded h = h
perform_all-IsDurable lib (c ∷ calls) s keyed fresh bounded h =
    perform_all-IsDurable lib calls (perform lib c s)
      (perform-Advances lib c s s fresh.0 (keyed_self s keyed)).keyed fresh.1 bounded.1
      (perform-IsDurable lib c s bounded.0 keyed h)
