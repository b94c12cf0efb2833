-- ===== src/M1/Reload.antt =====
-- `M1Service.__init__` and `open` of apps/m1_rtl_to_gds/src/openroad_app_m1/service.py: a service
-- that begins with what its store holds, and the readers `all_…_payloads` of store.py.
pub mod Calls
use agentic_rtlto_gds_design.Prelude.{
  String, ◌≡◌, refl, ◌∙◌, sym, ◌||◌, List, [], if◌then◌else◌, ◌==◌,
}
use agentic_rtlto_gds_design.Prelude.Dict.{values}
use agentic_rtlto_gds_design.Prelude.Result.{value_error, Result, ok, err, ◌>>=◌}
use agentic_rtlto_gds_design.Prelude.Table.{order_by_key, load, HasPrimaryKey, HasRows, load_lem}
use agentic_rtlto_gds_design.Prelude.Text.{is_empty}
use agentic_rtlto_gds_design.Contracts.Evidence.{EvidenceRef, validate_evidence}
use agentic_rtlto_gds_design.Contracts.RtlFrontend.{VerificationPackage, validate_package}
use agentic_rtlto_gds_design.M1.Durable.{SameLookups, IsDurable}
use agentic_rtlto_gds_design.M1.Models.{
  M1RunOutcome, validate_outcome, M1Session, validate_session, RtlVersion, validate_version_record,
}
use agentic_rtlto_gds_design.M1.State.{Stdlib, Service}
use agentic_rtlto_gds_design.M1.Store.{Store}

abbrev pub all_session_payloads : Store → List M1Session
all_session_payloads s = values (order_by_key s.sessions)

abbrev pub all_version_payloads : Store → List RtlVersion
all_version_payloads s = values (order_by_key s.rtl_versions)

abbrev pub all_verification_package_payloads : Store → List VerificationPackage
all_verification_package_payloads s = values (order_by_key s.verification_packages)

abbrev pub all_evidence_payloads : Store → List EvidenceRef
all_evidence_payloads s = values (order_by_key s.evidence)

abbrev pub all_run_outcome_payloads : Store → List M1RunOutcome
all_run_outcome_payloads s = values (order_by_key s.run_outcomes)

-- The dictionaries of `__init__`, in its order. `from_dict` validates each record.
unfoldable pub open_store : Stdlib → Store → Result Service
open_store lib s = do
  sessions ← load validate_session (λ x. x.spec_id) (all_session_payloads s) []
  versions ← load validate_version_record (λ v. v.version_id) (all_version_payloads s) []
  packages ← load validate_package (λ p. p.spec_id) (all_verification_package_payloads s) []
  evidence ←
      load (validate_evidence lib.parse_iso) (λ e. e.evidence_id) (all_evidence_payloads s) []
  outcomes ← load validate_outcome (λ o. o.run_id) (all_run_outcome_payloads s) []
  ok record {
    sessions = sessions;
    versions = versions;
    verification_packages = packages;
    evidence = evidence;
    run_outcomes = outcomes;
    store = s;
  }

-- `open`, with the store that the path leads to.
unfoldable pub open_service : Stdlib → String → Store → Result Service
unfolding open_store
open_service lib database s =
    if is_empty database || database == ":memory:"
    then err (value_error "a persistent M1 database path is required")
    else open_store lib s

-- A table of the store has a primary key, and each of its rows is a valid record under its own key.
pub record IsSaved (lib : Stdlib) (s : Store) : Type 0 where
  pub session_keys : HasPrimaryKey s.sessions
  pub session_rows : HasRows validate_session (λ x. x.spec_id) s.sessions
  pub version_keys : HasPrimaryKey s.rtl_versions
  pub version_rows : HasRows validate_version_record (λ v. v.version_id) s.rtl_versions
  pub package_keys : HasPrimaryKey s.verification_packages
  pub package_rows : HasRows validate_package (λ p. p.spec_id) s.verification_packages
  pub evidence_keys : HasPrimaryKey s.evidence
  pub evidence_rows : HasRows (validate_evidence lib.parse_iso) (λ e. e.evidence_id) s.evidence
  pub outcome_keys : HasPrimaryKey s.run_outcomes
  pub outcome_rows : HasRows validate_outcome (λ o. o.run_id) s.run_outcomes

-- Two services that answer every lookup alike.
pub record AnswersAlike (s t : Service) : Type 0 where
  pub sessions : SameLookups t.sessions s.sessions
  pub versions : SameLookups t.versions s.versions
  pub verification_packages : SameLookups t.verification_packages s.verification_packages
  pub evidence : SameLookups t.evidence s.evidence
  pub run_outcomes : SameLookups t.run_outcomes s.run_outcomes
  pub store : t.store ≡ s.store

-- A service that agrees with a saved store can be opened on that store, and the opened service
-- answers every lookup as the old one.
pub open_store-AnswersAlike :
    (lib : Stdlib) (s : Service)
    → IsSaved lib s.store
    → IsDurable s
    → (t : Service) × (open_store lib s.store ≡ ok t) × AnswersAlike s t
unfolding open_store
open_store-AnswersAlike lib s saved h =
    let (sessions, e₀, same₀) =
      load_lem validate_session (λ x. x.spec_id) s.store.sessions saved.session_keys
        saved.session_rows in
    let (versions, e₁, same₁) =
      load_lem validate_version_record (λ v. v.version_id) s.store.rtl_versions saved.version_keys
        saved.version_rows in
    let (packages, e₂, same₂) =
      load_lem validate_package (λ p. p.spec_id) s.store.verification_packages saved.package_keys
        saved.package_rows in
    let (evidence, e₃, same₃) =
      load_lem (validate_evidence lib.parse_iso) (λ e. e.evidence_id) s.store.evidence
        saved.evidence_keys saved.evidence_rows in
    let (outcomes, e₄, same₄) =
      load_lem validate_outcome (λ o. o.run_id) s.store.run_outcomes saved.outcome_keys
        saved.outcome_rows in
    (
      record {
        sessions = sessions;
        versions = versions;
        verification_packages = packages;
        evidence = evidence;
        run_outcomes = outcomes;
        store = s.store;
      },
      rw (e₀, e₁, e₂, e₃, e₄) refl,
      record {
        sessions = λ k. same₀ k ∙ sym (h.sessions k);
        versions = λ k. same₁ k ∙ sym (h.versions k);
        verification_packages = λ k. same₂ k ∙ sym (h.verification_packages k);
        evidence = λ k. same₃ k ∙ sym (h.evidence k);
        run_outcomes = λ k. same₄ k ∙ sym (h.run_outcomes k);
        store = refl;
      },
    )
