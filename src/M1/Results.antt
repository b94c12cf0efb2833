-- ===== src/M1/Results.antt =====
-- `record_evidence` of `M1Service`, the basis of evidence, and what a new result of
-- `record_gds_evidence` stores.
pub mod Final
use agentic_rtlto_gds_design.Prelude.{
  String, ◌≡◌, ◌⊎◌, inl, inr, Bool, true, false, Option, none, some, List, arith, ◌==◌, starts_with,
  eq_iff, Bool-cases, Option-cases,
}
use agentic_rtlto_gds_design.Prelude.Text.{◌<>◌}
use agentic_rtlto_gds_design.Prelude.Lists.{any, null}
use agentic_rtlto_gds_design.Prelude.Dict.{lookup, lookup-insert_self}
use agentic_rtlto_gds_design.Prelude.Result.{ok, Result-cases}
use agentic_rtlto_gds_design.Contracts.Evidence.{EvidenceRef}
use agentic_rtlto_gds_design.M1.Models.{passed, M1Session, RtlVersion}
use agentic_rtlto_gds_design.M1.Store.{put_evidence, put_run_outcome}
use agentic_rtlto_gds_design.M1.State.{
  Service, Stdlib, find_session, get_rtl_version, get_rtl_version-found, find_session-found,
}
use agentic_rtlto_gds_design.M1.Evidence.{
  is_gds_success, check_gds_success, record_evidence, Artifact, missing_parts, kind_refs, GdsResult,
  measured, incomplete, record_incomplete, record_complete, record_new_run, record_gds_evidence,
  incomplete_outcome, gds_evidence, gds_kinds, optional_key, snapshot_of, protocol_of,
}

-- What evidence of a successful GDS run rests on.
pub record GdsBasis (e : EvidenceRef) (version : RtlVersion) : Type 0 where
  pub verification_passed : version.verification_status ≡ passed
  pub simulation_passed : version.simulation_status ≡ passed
  pub gds_artifact : any (λ item. starts_with item "artifact:gds") e.artifact_ids ≡ true

-- What was true when evidence was recorded.
pub record EvidenceBasis (e : EvidenceRef) (s : Service) : Type 0 where
  pub session : M1Session
  pub version : RtlVersion
  pub session_found : lookup e.spec_id s.sessions ≡ some session
  pub version_found : lookup e.candidate_id s.versions ≡ some version
  pub owned : session.owner_id ≡ e.owner_id
  pub of_spec : version.spec_id ≡ e.spec_id
  pub new : lookup e.evidence_id s.evidence ≡ none
  pub measured_gds : (is_gds_success e ≡ false) ⊎ GdsBasis e version

gds_success_checked :
    (e : EvidenceRef) (v : RtlVersion)
    → check_gds_success e v ≡ ok tt
    → (is_gds_success e ≡ false) ⊎ GdsBasis e v
unfolding check_gds_success
gds_success_checked e v h = elim (Bool-cases (is_gds_success e)) [
  | inr other ↦ inl other
  | inl success ↦ inr record {
    verification_passed = ground arith;
    simulation_passed = ground arith;
    gds_artifact = ground arith;
  }
]

-- The tests that a returning call has passed, on the records that it found.
module _ (lib : Stdlib) (e e' : EvidenceRef) (s : Service) (x : M1Session) (v : RtlVersion)
    (p : find_session e.spec_id s ≡ ok x) (q : get_rtl_version e.candidate_id s ≡ ok v)
    (h : (record_evidence lib e s).0 ≡ ok e') where
  passed_owner : (x.owner_id == e.owner_id) ≡ true
  unfolding record_evidence
  passed_owner = ground arith

  passed_spec : (v.spec_id == e.spec_id) ≡ true
  unfolding record_evidence
  passed_spec = ground arith

  passed_gds : check_gds_success e v ≡ ok tt
  unfolding record_evidence
  passed_gds = ground arith

  passed_new : lookup e.evidence_id s.evidence ≡ none
  unfolding record_evidence
  passed_new = ground arith

  passed_result : e' ≡ e
  unfolding record_evidence put_evidence
  passed_result = ground arith

  passed_write : lookup e.evidence_id (record_evidence lib e s).1.evidence ≡ some e
  unfolding record_evidence put_evidence
  passed_write = ground (arith, lookup-insert_self e.evidence_id e s.evidence)

-- Evidence is recorded only by the owner of its specification, for a version of that specification
-- and under a new id; evidence of a successful GDS run names a GDS artifact, and its version had
-- passed verification and simulation. The evidence is returned, and is then found under its id.
pub record_evidence-EvidenceBasis :
    (lib : Stdlib) (e e' : EvidenceRef) (s : Service)
    → (record_evidence lib e s).0 ≡ ok e'
    → EvidenceBasis e s
      × (e' ≡ e)
      × (lookup e.evidence_id (record_evidence lib e s).1.evidence ≡ some e)
unfolding record_evidence
record_evidence-EvidenceBasis lib e e' s h = elim (Result-cases (find_session e.spec_id s)) [
  | inr (y, p) ↦ absurd (ground arith)
  | inl (x, p) ↦ elim (Result-cases (get_rtl_version e.candidate_id s)) [
    | inr (y, q) ↦ absurd (ground arith)
    | inl (v, q) ↦
        let checked = gds_success_checked e v (passed_gds lib e e' s x v p q h) in
        (
          record {
            session = x;
            version = v;
            session_found = find_session-found e.spec_id s x p;
            version_found = get_rtl_version-found e.candidate_id s v q;
            owned = (eq_iff x.owner_id e.owner_id).0 (passed_owner lib e e' s x v p q h);
            of_spec = (eq_iff v.spec_id e.spec_id).0 (passed_spec lib e e' s x v p q h);
            new = passed_new lib e e' s x v p q h;
            measured_gds = checked;
          },
          passed_result lib e e' s x v p q h,
          passed_write lib e e' s x v p q h,
        )
  ]
]

pub incomplete-found :
    (version_id run_id pdk : String) (artifacts : List Artifact) (missing : List String)
    (r : GdsResult) (s : Service)
    → (record_incomplete version_id run_id pdk artifacts missing s).0 ≡ ok r
    → let t = (record_incomplete version_id run_id pdk artifacts missing s).1 in
      let o = incomplete_outcome version_id run_id pdk artifacts missing in
      (r ≡ incomplete o) × (lookup run_id t.run_outcomes ≡ some o) × (t.evidence ≡ s.evidence)
unfolding record_incomplete put_run_outcome
incomplete-found version_id run_id pdk artifacts missing r s h = (
  ground arith,
  ground (
    arith,
    lookup-insert_self run_id (incomplete_outcome version_id run_id pdk artifacts missing)
        s.run_outcomes,
  ),
  ground arith,
)

pub complete-found :
    (lib : Stdlib) (now version_id run_id pdk : String) (artifacts : List Artifact) (r : GdsResult)
    (s : Service)
    → (record_complete lib now version_id run_id pdk artifacts s).0 ≡ ok r
    → let t = (record_complete lib now version_id run_id pdk artifacts s).1 in
      (e : EvidenceRef) × (r ≡ measured e) × (lookup ("evidence:" <> run_id) t.evidence ≡ some e)
unfolding record_complete
complete-found lib now version_id run_id pdk artifacts r s h =
    elim (Result-cases (kind_refs lib artifacts gds_kinds)) [
      | inr (y, a) ↦ absurd (ground arith)
      | inl (refs, a) ↦ elim (Result-cases (get_rtl_version version_id s)) [
        | inr (y, b) ↦ absurd (ground arith)
        | inl (v, b) ↦ elim (Result-cases (find_session v.spec_id s)) [
          | inr (y, c) ↦ absurd (ground arith)
          | inl (x, c) ↦ elim (Result-cases (optional_key (snapshot_of artifacts))) [
            | inr (y, d) ↦ absurd (ground arith)
            | inl (toolchain, d) ↦ elim (Result-cases (optional_key (protocol_of artifacts))) [
              | inr (y, g) ↦ absurd (ground arith)
              | inl (protocol, g) ↦
                  let e =
                    gds_evidence lib now version_id run_id pdk x.owner_id v.spec_id refs toolchain
                      protocol in
                  elim (Result-cases (record_evidence lib e s).0) [
                    | inr (y, i) ↦ absurd (ground arith)
                    | inl (e', i) ↦
                        let (basis, same, found) = record_evidence-EvidenceBasis lib e e' s i in
                        (e, ground arith, ground arith)
                  ]
            ]
          ]
        ]
      ]
    ]
