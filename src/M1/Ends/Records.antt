-- ===== src/M1/Ends/Records.antt =====
-- Where the operations on sessions, packages, evidence and outcomes can end.
use agentic_rtlto_gds_design.Prelude.{
  String, ◌≡◌, refl, inl, inr, Bool, Option, none, some, List, arith, eq_iff, Option-cases,
}
use agentic_rtlto_gds_design.Prelude.Text.{◌<>◌}
use agentic_rtlto_gds_design.Prelude.Dict.{lookup, insert}
use agentic_rtlto_gds_design.Prelude.Result.{ok, Result-cases}
use agentic_rtlto_gds_design.Contracts.RtlFrontend.{SpecIr, VerificationPackage, validate_package}
use agentic_rtlto_gds_design.Contracts.Evidence.{EvidenceRef, validate_evidence}
use agentic_rtlto_gds_design.M1.Models.{
  specified, frozen, M1RunOutcome, validate_outcome, M1Session, validate_session, RtlVersion,
}
use agentic_rtlto_gds_design.M1.Store.{
  put_session, put_verification_package, put_evidence, put_run_owner, put_run_outcome,
}
use agentic_rtlto_gds_design.M1.State.{
  Service, Stdlib, find_session, get_rtl_version, save_session, fingerprint,
}
use agentic_rtlto_gds_design.M1.V2.{V2Client, submit_task}
use agentic_rtlto_gds_design.M1.Requests.Gds.{build_rtl_to_gds_request}
use agentic_rtlto_gds_design.M1.Sessions.{assess_state, assess_spec, ready_spec, freeze_spec}
use agentic_rtlto_gds_design.M1.Submit.{register_verification_package, submit_rtl_to_gds}
use agentic_rtlto_gds_design.M1.Evidence.{
  check_gds_success, record_evidence, Artifact, missing_parts, kind_refs, record_incomplete,
  record_complete, record_new_run, record_gds_evidence, incomplete_outcome, gds_evidence, gds_kinds,
  optional_key, snapshot_of, protocol_of,
}

-- `self._sessions[id] = x`, and its row
abbrev pub with_session : String → M1Session → Service → Service
with_session id x s = record s {
  sessions = insert id x s.sessions;
  store = record s.store { sessions = insert x.spec_id x s.store.sessions };
}

abbrev pub with_package : String → VerificationPackage → Service → Service
with_package id p s = record s {
  verification_packages = insert id p s.verification_packages;
  store = record s.store {
    verification_packages = insert p.spec_id p s.store.verification_packages;
  };
}

abbrev pub with_evidence : EvidenceRef → Service → Service
with_evidence e s = record s {
  evidence = insert e.evidence_id e s.evidence;
  store = record s.store { evidence = insert e.evidence_id e s.store.evidence };
}

abbrev pub with_outcome : M1RunOutcome → Service → Service
with_outcome o s = record s {
  run_outcomes = insert o.run_id o s.run_outcomes;
  store = record s.store { run_outcomes = insert o.run_id o s.store.run_outcomes };
}

abbrev pub with_run_owner : String → String → Service → Service
with_run_owner run_id owner_id s = record s {
  store = record s.store { run_owners = insert run_id owner_id s.store.run_owners };
}

module _ (P : Service → Type 0) where
  pub assess_spec_ends :
      (uuid owner_id : String) (spec : Option SpecIr) (questions : List String)
      (reason : Option String) (s : Service)
      → P s
      → ((x : M1Session)
          → x.spec_id ≡ "spec-" <> uuid
          → x.owner_id ≡ owner_id
          → x.frozen_fingerprint ≡ none
          → assess_state spec questions reason ≡ ok (x.state, x.clarification_questions)
          → x.spec ≡ spec
          → validate_session x ≡ ok tt
          → P (with_session x.spec_id x s))
      → P (assess_spec uuid owner_id spec questions reason s).1
  unfolding assess_spec save_session put_session
  assess_spec_ends uuid owner_id spec questions reason s h k =
      elim (Result-cases (assess_state spec questions reason)) [
        | inl ((state, asked), e) ↦
            let x : M1Session = record {
              spec_id = "spec-" <> uuid;
              owner_id = owner_id;
              state = state;
              spec = spec;
              clarification_questions = asked;
              unsupported_reason = reason;
              frozen_fingerprint = none;
            } in
            let done = k x refl refl refl e refl in ground arith
        | inr (x, e) ↦ ground arith
      ]

  pub freeze_spec_ends :
      (lib : Stdlib) (id : String) (s : Service)
      → P s
      → ((x : M1Session) (spec : SpecIr) (digest : String)
          → lookup id s.sessions ≡ some x
          → x.state ≡ specified
          → x.spec ≡ some spec
          → fingerprint lib spec ≡ ok digest
          → validate_session (record x { state = frozen; frozen_fingerprint = some digest }) ≡ ok tt
          → P (with_session id (record x { state = frozen; frozen_fingerprint = some digest }) s))
      → P (freeze_spec lib id s).1
  unfolding freeze_spec save_session put_session find_session ready_spec
  freeze_spec_ends lib id s h k = elim (Option-cases (lookup id s.sessions)) [
    | inl e ↦ ground arith
    | inr (x, e) ↦ elim (Option-cases x.spec) [
      | inl e' ↦ ground arith
      | inr (spec, e') ↦ elim (Result-cases (fingerprint lib spec)) [
        | inl (digest, f) ↦
            let done =
              λ (p : x.state ≡ specified)
                  (valid : validate_session
                      (record x { state = frozen; frozen_fingerprint = some digest })
                    ≡ ok tt).
                k x spec digest e p e' f valid in
            ground arith
        | inr (y, f) ↦ ground arith
      ]
    ]
  ]

  pub register_verification_package_ends :
      (id : String) (p : VerificationPackage) (s : Service)
      → P s
      → (p.spec_id ≡ id
          → validate_package p ≡ ok tt
          → lookup id s.verification_packages ≡ none
          → P (with_package id p s))
      → P (register_verification_package id p s).1
  unfolding register_verification_package put_verification_package find_session
  register_verification_package_ends id p s h k = ground (arith, eq_iff p.spec_id id)

  pub submit_rtl_to_gds_ends :
      (lib : Stdlib) (id pdk : String) (v2 : V2Client) (s : Service)
      → P s
      → ((run_id owner_id : String) → P (with_run_owner run_id owner_id s))
      → P (submit_rtl_to_gds lib id pdk v2 s).1
  unfolding submit_rtl_to_gds put_run_owner
  submit_rtl_to_gds_ends lib id pdk v2 s h k =
      elim (Result-cases (build_rtl_to_gds_request lib id pdk v2 s)) [
        | inl (task, b) ↦ elim (Result-cases (submit_task task v2)) [
          | inl (run_id, r) ↦ elim (Result-cases (get_rtl_version id s)) [
            | inl (v, e) ↦ elim (Result-cases (find_session v.spec_id s)) [
              | inl (x, f) ↦ let done = k run_id x.owner_id in ground arith
              | inr (y, f) ↦ ground arith
            ]
            | inr (y, e) ↦ ground arith
          ]
          | inr (y, r) ↦ ground arith
        ]
        | inr (y, b) ↦ ground arith
      ]

  pub record_evidence_ends :
      (lib : Stdlib) (e : EvidenceRef) (s : Service)
      → P s
      → ((x : M1Session) (v : RtlVersion)
          → lookup e.spec_id s.sessions ≡ some x
          → lookup e.candidate_id s.versions ≡ some v
          → x.owner_id ≡ e.owner_id
          → v.spec_id ≡ e.spec_id
          → check_gds_success e v ≡ ok tt
          → lookup e.evidence_id s.evidence ≡ none
          → validate_evidence lib.parse_iso e ≡ ok tt
          → P (with_evidence e s))
      → P (record_evidence lib e s).1
  unfolding record_evidence put_evidence find_session get_rtl_version
  record_evidence_ends lib e s h k = elim (Option-cases (lookup e.spec_id s.sessions)) [
    | inl p ↦ ground arith
    | inr (x, p) ↦ elim (Option-cases (lookup e.candidate_id s.versions)) [
      | inl q ↦ ground arith
      | inr (v, q) ↦
          let done = k x v p q in
          ground (arith, eq_iff x.owner_id e.owner_id, eq_iff v.spec_id e.spec_id)
    ]
  ]

  pub record_incomplete_ends :
      (version_id run_id pdk : String) (artifacts : List Artifact) (missing : List String)
      (s : Service)
      → P s
      → ((o : M1RunOutcome) → o.run_id ≡ run_id → validate_outcome o ≡ ok tt → P (with_outcome o s))
      → P (record_incomplete version_id run_id pdk artifacts missing s).1
  unfolding record_incomplete put_run_outcome
  record_incomplete_ends version_id run_id pdk artifacts missing s h k =
      let done = k (incomplete_outcome version_id run_id pdk artifacts missing) refl in ground arith

  pub record_complete_ends :
      (lib : Stdlib) (now version_id run_id pdk : String) (artifacts : List Artifact) (s : Service)
      → P s
      → ((e : EvidenceRef) → P (record_evidence lib e s).1)
      → P (record_complete lib now version_id run_id pdk artifacts s).1
  unfolding record_complete
  record_complete_ends lib now version_id run_id pdk artifacts s h k =
      elim (Result-cases (kind_refs lib artifacts gds_kinds)) [
        | inl (refs, a) ↦ elim (Result-cases (get_rtl_version version_id s)) [
          | inl (v, b) ↦ elim (Result-cases (find_session v.spec_id s)) [
            | inl (x, c) ↦ elim (Result-cases (optional_key (snapshot_of artifacts))) [
              | inl (toolchain, d) ↦ elim (Result-cases (optional_key (protocol_of artifacts))) [
                | inl (protocol, e) ↦
                    let done = k (
                      gds_evidence lib now version_id run_id pdk x.owner_id v.spec_id refs toolchain
                        protocol) in
                    ground arith
                | inr (y, e) ↦ ground arith
              ]
              | inr (y, d) ↦ ground arith
            ]
            | inr (y, c) ↦ ground arith
          ]
          | inr (y, b) ↦ ground arith
        ]
        | inr (y, a) ↦ ground arith
      ]

  pub record_gds_evidence_ends :
      (lib : Stdlib) (now version_id run_id : String) (artifacts : List Artifact) (pdk : String)
      (metrics : List (Option Bool)) (s : Service)
      → P s
      → ((e : EvidenceRef) → P (record_evidence lib e s).1)
      → ((missing : List String)
          → lookup run_id s.run_outcomes ≡ none
          → P (record_incomplete version_id run_id pdk artifacts missing s).1)
      → P (record_gds_evidence lib now version_id run_id artifacts pdk metrics s).1
  unfolding record_gds_evidence record_new_run
  record_gds_evidence_ends lib now version_id run_id artifacts pdk metrics s h k l =
      let whole = record_complete_ends lib now version_id run_id pdk artifacts s h k in
      let part = l (missing_parts artifacts metrics) in ground arith
