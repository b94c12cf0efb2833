-- ===== src/M1/Store.antt =====
-- `M1Store` of apps/m1_rtl_to_gds/src/openroad_app_m1/store.py. A table is a dictionary by its
-- primary key; the payload of a row, the JSON text of a record, is represented by that record.
use agentic_rtlto_gds_design.Prelude.{String, Option, none, some, []}
use agentic_rtlto_gds_design.Prelude.Dict.{Dict, lookup, insert}
use agentic_rtlto_gds_design.Prelude.Result.{key_error, Result, ok, err}
use agentic_rtlto_gds_design.Prelude.Action.{Action, lift, modify, ◌>>◌}
use agentic_rtlto_gds_design.Contracts.RtlFrontend.{VerificationPackage, validate_package}
use agentic_rtlto_gds_design.Contracts.Evidence.{EvidenceRef, IsoParser, validate_evidence}
use agentic_rtlto_gds_design.M1.Models.{
  M1RunOutcome, validate_outcome, M1Session, validate_session, RtlVersion, validate_version_record,
}

pub record Store : Type 0 where
  pub sessions : Dict M1Session
  pub rtl_versions : Dict RtlVersion
  pub verification_packages : Dict VerificationPackage
  pub evidence : Dict EvidenceRef
  pub run_owners : Dict String
  pub run_outcomes : Dict M1RunOutcome

abbrev pub empty_store : Store
empty_store = record {
  sessions = [];
  rtl_versions = [];
  verification_packages = [];
  evidence = [];
  run_owners = [];
  run_outcomes = [];
}

unfoldable pub put_session : M1Session → Action Store (Unit {0})
put_session session = do
  lift (validate_session session)
  modify (λ s. record s { sessions = insert session.spec_id session s.sessions })

unfoldable pub put_version : RtlVersion → Action Store (Unit {0})
put_version version = do
  lift (validate_version_record version)
  modify (λ s. record s { rtl_versions = insert version.version_id version s.rtl_versions })

unfoldable pub put_verification_package : VerificationPackage → Action Store (Unit {0})
put_verification_package pack = do
  lift (validate_package pack)
  modify λ s. record s { verification_packages = insert pack.spec_id pack s.verification_packages }

unfoldable pub put_evidence : IsoParser → EvidenceRef → Action Store (Unit {0})
put_evidence parse evidence = do
  lift (validate_evidence parse evidence)
  modify (λ s. record s { evidence = insert evidence.evidence_id evidence s.evidence })

unfoldable pub put_run_owner : String → String → Action Store (Unit {0})
put_run_owner run_id owner_id =
    modify (λ s. record s { run_owners = insert run_id owner_id s.run_owners })

unfoldable pub run_owner : String → Store → Option String
run_owner run_id s = lookup run_id s.run_owners

unfoldable pub put_run_outcome : M1RunOutcome → Action Store (Unit {0})
put_run_outcome outcome = do
  lift (validate_outcome outcome)
  modify (λ s. record s { run_outcomes = insert outcome.run_id outcome s.run_outcomes })

-- `run_outcome_payload`, `session_payload` and `version_payload`
unfoldable pub run_outcome_payload : String → Store → Result M1RunOutcome
run_outcome_payload run_id s = elim (lookup run_id s.run_outcomes) [
  | none ↦ err (key_error run_id)
  | some outcome ↦ ok outcome
]

unfoldable pub session_payload : String → Store → Result M1Session
session_payload spec_id s = elim (lookup spec_id s.sessions) [
  | none ↦ err (key_error spec_id)
  | some session ↦ ok session
]

unfoldable pub version_payload : String → Store → Result RtlVersion
version_payload version_id s = elim (lookup version_id s.rtl_versions) [
  | none ↦ err (key_error version_id)
  | some version ↦ ok version
]
