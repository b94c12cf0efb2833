-- ===== src/M1/State.antt =====
-- The attributes of `M1Service` in apps/m1_rtl_to_gds/src/openroad_app_m1/service.py, and its
-- private helpers `_session`, `_save_session` and `_save_version`.
-- `Stdlib` holds what the service takes from Python: SHA-256, `json.dumps` and
-- `datetime.fromisoformat`.
use agentic_rtlto_gds_design.Prelude.{String, ◌≡◌, Option, none, some, [], arith}
use agentic_rtlto_gds_design.Prelude.Text.{◌<>◌}
use agentic_rtlto_gds_design.Prelude.Json.{Json}
use agentic_rtlto_gds_design.Prelude.Dict.{Dict, lookup, insert}
use agentic_rtlto_gds_design.Prelude.Result.{key_error, Result, ok, err}
use agentic_rtlto_gds_design.Prelude.Result
use agentic_rtlto_gds_design.Prelude.Action.{Action, lift, modify, ◌>>◌}
use agentic_rtlto_gds_design.Contracts.RtlFrontend.{SpecIr, VerificationPackage, validate_spec}
use agentic_rtlto_gds_design.Contracts.Evidence.{EvidenceRef, IsoParser}
use agentic_rtlto_gds_design.Contracts.RtlFrontend.Documents.{spec_to_json}
use agentic_rtlto_gds_design.M1.Models.{
  M1RunOutcome, M1Session, validate_session, RtlVersion, validate_version_record,
}
use agentic_rtlto_gds_design.M1.Store.{Store, empty_store, put_session, put_version}

-- What the service takes from the standard library of Python: a digest, `json.dumps`, the parser of
-- ISO dates and `str` of a JSON value that is no text.
pub record Stdlib : Type 0 where
  pub sha256 : String → String
  pub dumps : Json → String
  pub parse_iso : IsoParser
  pub format : Json → String

pub record Service : Type 0 where
  pub sessions : Dict M1Session
  pub versions : Dict RtlVersion
  pub verification_packages : Dict VerificationPackage
  pub evidence : Dict EvidenceRef
  pub run_outcomes : Dict M1RunOutcome
  pub store : Store

-- `M1Service.in_memory()`
abbrev pub in_memory : Service
in_memory = record {
  sessions = [];
  versions = [];
  verification_packages = [];
  evidence = [];
  run_outcomes = [];
  store = empty_store;
}

-- A call of a method of `self.store`.
abbrev pub on_store : {A : Type 0} → Action Store A → Action Service A
on_store m s = let (r, t) = m s.store in (r, record s { store = t })

-- A method that only reads.
abbrev pub query : {A : Type 0} → (Service → Result A) → Action Service A
query f s = (f s, s)

unfoldable pub find_session : String → Service → Result M1Session
find_session spec_id s = elim (lookup spec_id s.sessions) [
  | none ↦ err (key_error ("unknown spec: " <> spec_id))
  | some session ↦ ok session
]

abbrev pub get_session : String → Service → Result M1Session
get_session spec_id s = find_session spec_id s

unfoldable pub get_verification_package : String → Service → Result VerificationPackage
get_verification_package spec_id s = elim (lookup spec_id s.verification_packages) [
  | none ↦ err (key_error ("unknown VerificationPackage for spec: " <> spec_id))
  | some pack ↦ ok pack
]

abbrev pub run_outcome : String → Service → Option M1RunOutcome
run_outcome run_id s = lookup run_id s.run_outcomes

unfoldable pub get_rtl_version : String → Service → Result RtlVersion
get_rtl_version version_id s = elim (lookup version_id s.versions) [
  | none ↦ err (key_error ("unknown RTL version: " <> version_id))
  | some version ↦ ok version
]

-- `_save_session`: `to_dict` validates, and `put_session` does so again.
unfoldable pub save_session : M1Session → Action Service (Unit {0})
unfolding put_session
save_session session = do lift (validate_session session); on_store (put_session session)

unfoldable pub save_version : RtlVersion → Action Service (Unit {0})
unfolding put_version
save_version version = do lift (validate_version_record version); on_store (put_version version)

-- `self._sessions[session.spec_id] = session`
abbrev pub remember_session : M1Session → Action Service (Unit {0})
remember_session session =
    modify (λ s. record s { sessions = insert session.spec_id session s.sessions })

-- `self._versions[version.version_id] = version`
abbrev pub remember_version : RtlVersion → Action Service (Unit {0})
remember_version version =
    modify (λ s. record s { versions = insert version.version_id version s.versions })

-- `SpecIR.fingerprint`
unfoldable pub fingerprint : Stdlib → SpecIr → Result String
fingerprint lib s = Result.◌>>◌ (validate_spec s) (ok (lib.sha256 (lib.dumps (spec_to_json s))))

pub get_rtl_version-found :
    (id : String) (s : Service) (v : RtlVersion)
    → get_rtl_version id s ≡ ok v
    → lookup id s.versions ≡ some v
unfolding get_rtl_version
get_rtl_version-found id s v h = ground arith

pub find_session-found :
    (id : String) (s : Service) (x : M1Session)
    → find_session id s ≡ ok x
    → lookup id s.sessions ≡ some x
unfolding find_session
find_session-found id s x h = ground arith
