-- ===== src/M1/Durable.antt =====
-- The agreement of the dictionaries of `M1Service` with its store.
pub mod Calls
use agentic_rtlto_gds_design.Prelude.{
  String, ◌≡◌, refl, sym, ap, ◌∙◌, inl, inr, true, some, arith, if◌then◌else◌, ◌==◌, Bool-cases,
}
use agentic_rtlto_gds_design.Prelude.Dict.{Dict, lookup, insert, lookup-insert}
use agentic_rtlto_gds_design.Prelude.Result.{Result, ok}
use agentic_rtlto_gds_design.Prelude.Result
use agentic_rtlto_gds_design.M1.Models.{
  CheckStatus, validate_id, RtlVersion, validate_version_record,
}
use agentic_rtlto_gds_design.M1.State.{Service}
use agentic_rtlto_gds_design.M1.Versions.{invalidate}
use agentic_rtlto_gds_design.M1.Ends.{with_version, with_version_row, simulated}

-- Two dictionaries give the same answers.
abbrev pub SameLookups {ℓ} : {V : Type ℓ} → Dict V → Dict V → Type ℓ
SameLookups d e = (k : String) → lookup k d ≡ lookup k e

pub record IsDurable (s : Service) : Type 0 where
  pub sessions : SameLookups s.sessions s.store.sessions
  pub versions : SameLookups s.versions s.store.rtl_versions
  pub verification_packages : SameLookups s.verification_packages s.store.verification_packages
  pub evidence : SameLookups s.evidence s.store.evidence
  pub run_outcomes : SameLookups s.run_outcomes s.store.run_outcomes
  pub valid_versions :
      (k : String) (v : RtlVersion)
      → lookup k s.versions ≡ some v
      → validate_version_record v ≡ ok tt

pub insert-SameLookups {ℓ} :
    {V : Type ℓ} (id key : String) (w : V) (d e : Dict V)
    → key ≡ id
    → SameLookups d e
    → SameLookups (insert id w d) (insert key w e)
insert-SameLookups id key w d e own same k =
    lookup-insert id k w d
    ∙ ap (λ o. if id == k then some w else o) (same k)
    ∙ sym (lookup-insert id k w e)
    ∙ ap (λ (i : String). lookup k (insert i w e)) (sym own)

-- A version that passed its check is remembered and saved.
pub version-IsDurable :
    (t : Service) (id : String) (w : RtlVersion)
    → IsDurable t
    → w.version_id ≡ id
    → validate_version_record w ≡ ok tt
    → IsDurable (with_version_row w (with_version id w t))
version-IsDurable t id w h own valid = record {
  sessions = h.sessions;
  versions = insert-SameLookups id w.version_id w t.versions t.store.rtl_versions own h.versions;
  verification_packages = h.verification_packages;
  evidence = h.evidence;
  run_outcomes = h.run_outcomes;
  valid_versions = λ k v e. elim (Bool-cases (id == k)) [
    | inl same ↦ rw (← found_new k v same e) valid
    | inr other ↦ h.valid_versions k v (sym (lookup-insert id k w t.versions ∙ rw other refl) ∙ e)
  ];
}
  where
    found_new :
        (k : String) (v : RtlVersion)
        → (id == k) ≡ true
        → lookup k (insert id w t.versions) ≡ some v
        → w ≡ v
    found_new k v same e = ground (arith, lookup-insert id k w t.versions)

-- The invalidated parent of a valid version is valid.
pub invalidate_valid :
    (v : RtlVersion)
    → validate_version_record v ≡ ok tt
    → validate_version_record (invalidate v) ≡ ok tt
unfolding validate_version_record
invalidate_valid v h = ground arith

-- A valid version stays valid with a simulation run of a bounded identifier.
pub simulated_valid :
    (v : RtlVersion) (status : CheckStatus) (run_id : String)
    → validate_version_record v ≡ ok tt
    → validate_id "simulation_run_id" run_id ≡ ok tt
    → validate_version_record (simulated status run_id v) ≡ ok tt
unfolding validate_version_record
simulated_valid v status run_id h bounded = ground arith
