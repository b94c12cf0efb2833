-- ===== src/M1/Reload/Calls.antt =====
-- The calls of `M1Service`, for what they leave in its store.
use mathlib.Core.Path.{subst}
use agentic_rtlto_gds_design.Prelude.{
  String, ◌≡◌, refl, inl, inr, Option, some, List, [], ◌∷◌, Bool-cases,
}
use agentic_rtlto_gds_design.Prelude.Action.{lift_state}
use agentic_rtlto_gds_design.Prelude.Lists.{elem}
use agentic_rtlto_gds_design.Prelude.Result.{ok}
use agentic_rtlto_gds_design.Prelude.Table.{insert-HasPrimaryKey, insert-HasRows}
use agentic_rtlto_gds_design.Prelude.Text.{◌<>◌}
use agentic_rtlto_gds_design.Contracts.Evidence.{EvidenceRef, validate_evidence}
use agentic_rtlto_gds_design.Contracts.RtlFrontend.{VerificationPackage, validate_package}
use agentic_rtlto_gds_design.M1.Durable.{IsDurable}
use agentic_rtlto_gds_design.M1.Durable.Calls.{AllBounded, perform_all-IsDurable}
use agentic_rtlto_gds_design.M1.Ends.{
  record_verification_ends, record_simulation_ends, submit_verification_ends,
  submit_simulation_ends, invalidate_parent_ends, create_rtl_version_ends, with_version, verified,
  simulated, with_version_row,
}
use agentic_rtlto_gds_design.M1.Ends.Observe.{observe_versions_ends}
use agentic_rtlto_gds_design.M1.Ends.Records.{
  with_session, with_package, with_outcome, assess_spec_ends, freeze_spec_ends,
  register_verification_package_ends, submit_rtl_to_gds_ends, record_evidence_ends,
  record_incomplete_ends, record_gds_evidence_ends, with_evidence,
}
use agentic_rtlto_gds_design.M1.Evidence.{record_evidence}
use agentic_rtlto_gds_design.M1.History.{IsKeyed}
use agentic_rtlto_gds_design.M1.History.Calls.{
  Call, assess, freeze, create, create_from_v2, verification_result, simulation_result, register,
  verify, simulate, make_gds, add_evidence, add_gds_evidence, observe, perform, perform_all,
  AllFresh,
}
use agentic_rtlto_gds_design.M1.Models.{
  CheckStatus, running, M1RunOutcome, M1Session, validate_session, RtlVersion, validate_outcome,
  frozen, validate_version_record,
}
use agentic_rtlto_gds_design.M1.Reload.{
  IsSaved, open_store, open_store-AnswersAlike, AnswersAlike, sym,
}
use agentic_rtlto_gds_design.M1.Runs.{observe_run, terminal_statuses, result_of}
use agentic_rtlto_gds_design.M1.State.{Service, Stdlib}
use agentic_rtlto_gds_design.M1.Submit.{uploaded_id, create_rtl_version_from_v2}
use agentic_rtlto_gds_design.M1.Versions.{
  invalidate, invalidate_parent, create_rtl_version, record_verification, record_simulation,
}

module _ (lib : Stdlib) where
  abbrev Saved : Service → Type 0
  Saved s = IsSaved lib s.store

  session_row :
      (id : String) (x : M1Session) (s : Service)
      → Saved s
      → validate_session x ≡ ok tt
      → Saved (with_session id x s)
  session_row id x s h valid = record {
    session_keys = insert-HasPrimaryKey x.spec_id x s.store.sessions h.session_keys;
    session_rows =
        insert-HasRows validate_session (λ y. y.spec_id) x s.store.sessions valid h.session_rows;
    version_keys = h.version_keys;
    version_rows = h.version_rows;
    package_keys = h.package_keys;
    package_rows = h.package_rows;
    evidence_keys = h.evidence_keys;
    evidence_rows = h.evidence_rows;
    outcome_keys = h.outcome_keys;
    outcome_rows = h.outcome_rows;
  }

  version_row :
      (w : RtlVersion) (s : Service)
      → Saved s
      → validate_version_record w ≡ ok tt
      → Saved (with_version_row w s)
  version_row w s h valid = record {
    session_keys = h.session_keys;
    session_rows = h.session_rows;
    version_keys = insert-HasPrimaryKey w.version_id w s.store.rtl_versions h.version_keys;
    version_rows =
        insert-HasRows validate_version_record (λ v. v.version_id) w s.store.rtl_versions valid
          h.version_rows;
    package_keys = h.package_keys;
    package_rows = h.package_rows;
    evidence_keys = h.evidence_keys;
    evidence_rows = h.evidence_rows;
    outcome_keys = h.outcome_keys;
    outcome_rows = h.outcome_rows;
  }

  package_row :
      (id : String) (p : VerificationPackage) (s : Service)
      → Saved s
      → validate_package p ≡ ok tt
      → Saved (with_package id p s)
  package_row id p s h valid = record {
    session_keys = h.session_keys;
    session_rows = h.session_rows;
    version_keys = h.version_keys;
    version_rows = h.version_rows;
    package_keys = insert-HasPrimaryKey p.spec_id p s.store.verification_packages h.package_keys;
    package_rows =
        insert-HasRows validate_package (λ q. q.spec_id) p s.store.verification_packages valid
          h.package_rows;
    evidence_keys = h.evidence_keys;
    evidence_rows = h.evidence_rows;
    outcome_keys = h.outcome_keys;
    outcome_rows = h.outcome_rows;
  }

  evidence_row :
      (e : EvidenceRef) (s : Service)
      → Saved s
      → validate_evidence lib.parse_iso e ≡ ok tt
      → Saved (with_evidence e s)
  evidence_row e s h valid = record {
    session_keys = h.session_keys;
    session_rows = h.session_rows;
    version_keys = h.version_keys;
    version_rows = h.version_rows;
    package_keys = h.package_keys;
    package_rows = h.package_rows;
    evidence_keys = insert-HasPrimaryKey e.evidence_id e s.store.evidence h.evidence_keys;
    evidence_rows =
        insert-HasRows (validate_evidence lib.parse_iso) (λ f. f.evidence_id) e s.store.evidence
          valid h.evidence_rows;
    outcome_keys = h.outcome_keys;
    outcome_rows = h.outcome_rows;
  }

  outcome_row :
      (o : M1RunOutcome) (s : Service)
      → Saved s
      → validate_outcome o ≡ ok tt
      → Saved (with_outcome o s)
  outcome_row o s h valid = record {
    session_keys = h.session_keys;
    session_rows = h.session_rows;
    version_keys = h.version_keys;
    version_rows = h.version_rows;
    package_keys = h.package_keys;
    package_rows = h.package_rows;
    evidence_keys = h.evidence_keys;
    evidence_rows = h.evidence_rows;
    outcome_keys = insert-HasPrimaryKey o.run_id o s.store.run_outcomes h.outcome_keys;
    outcome_rows =
        insert-HasRows validate_outcome (λ p. p.run_id) o s.store.run_outcomes valid h.outcome_rows;
  }

  same_store : (s t : Service) → t.store ≡ s.store → Saved s → Saved t
  same_store s t e h = subst (IsSaved lib) (sym e) h

  invalidate_parent-Saved :
      (spec_id : String) (parent : Option String) (s : Service)
      → Saved s
      → Saved (invalidate_parent spec_id parent s).1
  invalidate_parent-Saved spec_id parent s h =
      invalidate_parent_ends Saved spec_id parent s h λ id v e. (
        (λ x bad. same_store s (with_version v.version_id (invalidate v) s) refl h),
        λ valid.
            version_row (invalidate v) (with_version v.version_id (invalidate v) s)
              (same_store s (with_version v.version_id (invalidate v) s) refl h) valid,
      )

  create-Saved :
      (uuid spec_id source generator : String) (parent ref : Option String) (s : Service)
      → Saved s
      → Saved (create_rtl_version lib uuid spec_id source generator parent ref s).1
  create-Saved uuid spec_id source generator parent ref s h =
      let before = invalidate_parent-Saved spec_id parent s h in
      create_rtl_version_ends Saved lib uuid spec_id source generator parent ref s h before
        λ t w at_t _ valid.
          version_row w (with_version w.version_id w t) (subst Saved (sym at_t) before) valid

  verification-Saved :
      (id run_id : String) (status : CheckStatus) (s : Service)
      → Saved s
      → Saved (record_verification id status run_id s).1
  verification-Saved id run_id status s h =
      record_verification_ends Saved id run_id status s h λ v e _ _ valid.
        version_row (verified status run_id v) (with_version id (verified status run_id v) s) h
          valid

  simulation-Saved :
      (id run_id : String) (status : CheckStatus) (s : Service)
      → Saved s
      → Saved (record_simulation id status run_id s).1
  simulation-Saved id run_id status s h =
      record_simulation_ends Saved id run_id status s h λ v e _ _ valid.
        version_row (simulated status run_id v) (with_version id (simulated status run_id v) s) h
          valid

  evidence-Saved : (e : EvidenceRef) (s : Service) → Saved s → Saved (record_evidence lib e s).1
  evidence-Saved e s h =
      record_evidence_ends Saved lib e s h λ x v _ _ _ _ _ _ valid. evidence_row e s h valid

  observe-Saved :
      (run_id status : String) (s : Service) → Saved s → Saved (observe_run run_id status s).1
  unfolding observe_run
  observe-Saved run_id status s h =
      let done =
        observe_versions_ends Saved run_id (result_of status)
          (λ id t p. verification-Saved id run_id (result_of status) t p)
          (λ id t p. simulation-Saved id run_id (result_of status) t p) s.versions s h in
      elim (Bool-cases (elem status terminal_statuses)) [
        | inl e ↦ rw (e, observe_run) done
        | inr e ↦ rw (e, observe_run) h
      ]

  perform-Saved : (c : Call) (s : Service) → Saved s → Saved (perform lib c s)
  unfolding perform create_rtl_version_from_v2
  perform-Saved (assess uuid owner spec questions reason) s h =
      assess_spec_ends Saved uuid owner spec questions reason s h
        λ x _ _ _ _ _ valid. session_row x.spec_id x s h valid
  perform-Saved (freeze id) s h = freeze_spec_ends Saved lib id s h λ x spec digest _ _ _ _ valid.
      session_row id (record x { state = frozen; frozen_fingerprint = some digest }) s h valid
  perform-Saved (create uuid spec_id source generator parent ref) s h =
      create-Saved uuid spec_id source generator parent ref s h
  perform-Saved (create_from_v2 uuid spec_id source generator v2 parent) s h =
      lift_state Saved (v2.upload_rtl source) _ s h λ reply _.
        lift_state Saved (uploaded_id reply) _ s h λ given _.
          create-Saved uuid spec_id source generator parent (some ("input:" <> given)) s h
  perform-Saved (verification_result id status run_id) s h = verification-Saved id run_id status s h
  perform-Saved (simulation_result id status run_id) s h = simulation-Saved id run_id status s h
  perform-Saved (register id pack) s h =
      register_verification_package_ends Saved id pack s h
        λ _ valid _. package_row id pack s h valid
  perform-Saved (verify id v2) s h =
      submit_verification_ends Saved id v2 s h
        λ v run_id _ valid. version_row (verified running run_id v) s h valid
  perform-Saved (simulate id v2) s h =
      submit_simulation_ends Saved id v2 s h (λ v run_id task x _ _ _. h)
        λ v run_id _ valid.
          version_row (simulated running run_id v) (with_version id (simulated running run_id v) s)
            h valid
  perform-Saved (make_gds id pdk v2) s h =
      submit_rtl_to_gds_ends Saved lib id pdk v2 s h λ run_id o. record {
        session_keys = h.session_keys;
        session_rows = h.session_rows;
        version_keys = h.version_keys;
        version_rows = h.version_rows;
        package_keys = h.package_keys;
        package_rows = h.package_rows;
        evidence_keys = h.evidence_keys;
        evidence_rows = h.evidence_rows;
        outcome_keys = h.outcome_keys;
        outcome_rows = h.outcome_rows;
      }
  perform-Saved (add_evidence e) s h = evidence-Saved e s h
  perform-Saved (add_gds_evidence now id run_id artifacts pdk metrics) s h =
      record_gds_evidence_ends Saved lib now id run_id artifacts pdk metrics s h
        (λ e. evidence-Saved e s h)
        λ missing _.
          record_incomplete_ends Saved id run_id pdk artifacts missing s h
            λ o _ valid. outcome_row o s h valid
  perform-Saved (observe run_id status) s h = observe-Saved run_id status s h

  pub perform_all-IsSaved :
      (calls : List Call) (s : Service)
      → IsSaved lib s.store
      → IsSaved lib (perform_all lib calls s).store
  unfolding perform_all
  perform_all-IsSaved [] s h = h
  perform_all-IsSaved (c ∷ calls) s h =
      perform_all-IsSaved calls (perform lib c s) (perform-Saved c s h)

-- After any sequence of calls, failed ones included, from a service whose dictionaries are keyed and
-- agree with a store of valid rows, a service can be opened on the store, and it answers every
-- lookup as the old one; provided that uuids are fresh and that v2 names the runs of simulation
-- submissions by bounded identifiers.
pub perform_all-open_store :
    (lib : Stdlib) (calls : List Call) (s : Service)
    → IsKeyed s
    → AllFresh lib calls s
    → AllBounded calls
    → IsDurable s
    → IsSaved lib s.store
    → (t : Service) × (open_store lib (perform_all lib calls s).store ≡ ok t)
      × AnswersAlike (perform_all lib calls s) t
perform_all-open_store lib calls s keyed fresh bounded h saved =
    open_store-AnswersAlike lib (perform_all lib calls s) (perform_all-IsSaved lib calls s saved)
      (perform_all-IsDurable lib calls s keyed fresh bounded h)
