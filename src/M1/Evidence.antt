-- ===== src/M1/Evidence.antt =====
-- `record_evidence`, `record_gds_evidence` and the readers of evidence and run outcomes of
-- `M1Service` (apps/m1_rtl_to_gds/src/openroad_app_m1/service.py).
use agentic_rtlto_gds_design.Prelude.{
  String, Bool, true, false, not, ◌&&◌, ◌||◌, Option, none, some, List, [], ◌∷◌, if◌then◌else◌,
  is_none, ◌==◌, starts_with,
}
use agentic_rtlto_gds_design.Prelude.Text.{◌<>◌}
use agentic_rtlto_gds_design.Prelude.Lists.{any, null}
use agentic_rtlto_gds_design.Prelude.Json.{pos, Json, str, obj, end, field, texts}
use agentic_rtlto_gds_design.Prelude.Dict.{Dict, lookup, insert, contains}
use agentic_rtlto_gds_design.Prelude.Result.{
  value_error, key_error, type_error, Result, ok, err, Check, require,
}
use agentic_rtlto_gds_design.Prelude.Result
use agentic_rtlto_gds_design.Prelude.Action.{
  Action, pure, lift, gets, modify, raise_when, raise_unless, ◌>>=◌, ◌>>◌,
}
use agentic_rtlto_gds_design.Contracts.Evidence.{EvidenceRef, validate_evidence}
use agentic_rtlto_gds_design.M1.Models.{is_passed, M1RunOutcome, validate_outcome, RtlVersion}
use agentic_rtlto_gds_design.M1.Store.{put_evidence, put_run_outcome}
use agentic_rtlto_gds_design.M1.State.{
  Service, Stdlib, on_store, query, find_session, get_rtl_version,
}

-- `evidence_kind == "rtl_to_gds" and status == "succeeded"`
abbrev pub is_gds_success : EvidenceRef → Bool
is_gds_success e = e.evidence_kind == "rtl_to_gds" && e.status == "succeeded"

-- The nested tests of `record_evidence` on successful GDS evidence.
unfoldable pub check_gds_success : EvidenceRef → RtlVersion → Check
check_gds_success e version =
    if is_gds_success e
    then Result.◌>>◌
        (require (any (λ item. starts_with item "artifact:gds") e.artifact_ids)
          (value_error "successful rtl_to_gds evidence requires artifact:gds"))
        (Result.◌>>◌
          (require (is_passed version.verification_status)
            (value_error "successful GDS evidence requires passed RTL verification"))
          (require (is_passed version.simulation_status)
            (value_error "successful GDS evidence requires passed simulation")))
    else ok tt

unfoldable pub record_evidence : Stdlib → EvidenceRef → Action Service EvidenceRef
unfolding put_evidence
record_evidence lib evidence = do
  lift (validate_evidence lib.parse_iso evidence)
  session ← query (find_session evidence.spec_id)
  version ← query (get_rtl_version evidence.candidate_id)
  raise_unless (session.owner_id == evidence.owner_id)
      (value_error "evidence owner does not own the spec")
  raise_unless (version.spec_id == evidence.spec_id)
      (value_error "evidence candidate belongs to another spec")
  lift (check_gds_success evidence version)
  known ← gets (λ s. contains evidence.evidence_id s.evidence)
  raise_when known (value_error "evidence_id is already registered")
  modify (λ s. record s { evidence = insert evidence.evidence_id evidence s.evidence })
  on_store (put_evidence lib.parse_iso evidence)
  pure evidence

-- The keys of an artifact of v2 that the service reads; `format` is that of its `metadata`. But for
-- `artifact_id`, a value that is no text counts as an absent key.
pub record Artifact : Type 0 where
  pub kind : Option String
  pub artifact_id : Option Json
  pub format : Option String
  pub store_key : Option String
  pub sha256 : Option String

-- Whether an optional text is the given one.
abbrev pub is_value : String → Option String → Bool
is_value value none = false
is_value value (some s) = s == value

-- `next((item for item in items if test(item)), None)`
unfoldable pub find_first : (Artifact → Bool) → List Artifact → Option Artifact
find_first test [] = none
find_first test (a ∷ items) = if test a then some a else find_first test items

-- `by_kind.get(kind)`: the last artifact of a kind
unfoldable pub by_kind : String → List Artifact → Option Artifact
by_kind kind [] = none
by_kind kind (a ∷ items) =
    let rest = by_kind kind items in
    elim rest [ some found ↦ some found | none ↦ if is_value kind a.kind then some a else none ]

abbrev pub snapshot_of : List Artifact → Option Artifact
snapshot_of artifacts = find_first (λ a. is_value "toolchain-snapshot" a.format) artifacts

abbrev pub protocol_of : List Artifact → Option Artifact
protocol_of artifacts = find_first (λ a. is_value "plan.json" a.store_key) artifacts

-- A name if a test holds, before the others.
abbrev pub note_if : Bool → String → List String → List String
note_if b name names = if b then name ∷ names else names

-- The required kinds in sorted order, the metrics, the snapshot and the protocol that are missing.
-- A metric is its key `complete`.
unfoldable pub missing_parts : List Artifact → List (Option Bool) → List String
unfolding by_kind find_first
missing_parts artifacts metrics = note_if (is_none (by_kind "def" artifacts)) "def" (
    note_if (is_none (by_kind "gds" artifacts)) "gds" (
      note_if (is_none (by_kind "netlist" artifacts)) "netlist" (
        note_if (is_none (by_kind "odb" artifacts)) "odb" (
          note_if (is_none (by_kind "report" artifacts)) "report" (
            note_if (null metrics || any is_incomplete metrics) "metrics" (
              note_if (is_none (snapshot_of artifacts)) "toolchain_snapshot"
                (note_if (is_none (protocol_of artifacts)) "protocol_digest" [])))))))
  where
    is_incomplete : Option Bool → Bool
    is_incomplete none = true
    is_incomplete (some b) = not b

-- `", ".join(names)`
unfoldable pub join_names : List String → String
join_names [] = ""
join_names (x ∷ []) = x
join_names (x ∷ y ∷ names) = x <> ", " <> join_names (y ∷ names)

-- `artifact:kind:artifact_id` of each artifact that has both as texts.
unfoldable pub artifact_refs : List Artifact → List String
artifact_refs [] = []
artifact_refs (a ∷ items) =
    let rest = artifact_refs items in
    elim a.kind [
      | none ↦ rest
      | some kind ↦ elim a.artifact_id [
        | some (str given) ↦ ("artifact:" <> kind <> ":" <> given) ∷ rest
        | _ ↦ rest
      ]
    ]

-- `item[key]`
abbrev pub required_key {ℓ} : {A : Type ℓ} → Option A → String → Result A
required_key none key = err (key_error key)
required_key (some value) key = ok value

-- `{value}` in an f-string
abbrev pub formatted : Stdlib → Json → String
formatted lib (str text) = text
formatted lib value = lib.format value

-- `artifact:kind:artifact_id` of the last artifact of each kind
unfoldable pub kind_refs : Stdlib → List Artifact → List String → Result (List String)
unfolding by_kind
kind_refs lib artifacts [] = ok []
kind_refs lib artifacts (kind ∷ kinds) = elim (by_kind kind artifacts) [
  | none ↦ err (key_error kind)
  | some a ↦ Result.◌>>=◌ (required_key a.artifact_id "artifact_id") (λ given.
      Result.◌>>=◌ (kind_refs lib artifacts kinds)
        (λ refs. ok (("artifact:" <> kind <> ":" <> formatted lib given) ∷ refs)))
]

abbrev pub optional_key : Option Artifact → Result String
optional_key none = err (type_error "'NoneType' object is not subscriptable")
optional_key (some a) = required_key a.sha256 "sha256"

abbrev pub gds_kinds : List String
gds_kinds = "gds" ∷ "def" ∷ "odb" ∷ "netlist" ∷ "report" ∷ []

pub data GdsResult : Type 0 where
  measured : EvidenceRef → GdsResult
  incomplete : M1RunOutcome → GdsResult

abbrev pub incomplete_outcome :
    String → String → String → List Artifact → List String → M1RunOutcome
incomplete_outcome version_id run_id pdk artifacts missing = record {
  run_id = run_id;
  candidate_id = version_id;
  pdk = pdk;
  status = "gds_incomplete";
  reason = "missing " <> join_names missing;
  artifact_ids = artifact_refs artifacts;
}

-- The branch of `record_gds_evidence` on a run that lacks something.
unfoldable pub record_incomplete :
    String → String → String → List Artifact → List String → Action Service GdsResult
unfolding put_run_outcome
record_incomplete version_id run_id pdk artifacts missing = do
  let outcome = incomplete_outcome version_id run_id pdk artifacts missing
  lift (validate_outcome outcome)
  modify (λ s. record s { run_outcomes = insert run_id outcome s.run_outcomes })
  on_store (put_run_outcome outcome)
  pure (incomplete outcome)

-- The document whose digest is the evidence's `sha256`.
unfoldable pub evidence_payload : String → String → String → List String → Json
evidence_payload version_id run_id pdk refs = obj (
    field "artifact_ids" (texts refs) (
      field "candidate_id" (str version_id)
        (field "pdk" (str pdk) (field "run_id" (str run_id) end))))

-- The `EvidenceRef` of a complete run.
abbrev pub gds_evidence :
    Stdlib
    → String
    → String
    → String
    → String
    → String
    → String
    → List String
    → String
    → String
    → EvidenceRef
gds_evidence lib now version_id run_id pdk owner_id spec_id refs toolchain protocol = record {
  evidence_id = "evidence:" <> run_id;
  owner_id = owner_id;
  spec_id = spec_id;
  candidate_id = version_id;
  run_id = run_id;
  artifact_ids = refs;
  evidence_kind = "rtl_to_gds";
  status = "succeeded";
  sha256 = lib.sha256 (lib.dumps (evidence_payload version_id run_id pdk refs));
  toolchain_digest = toolchain;
  protocol_digest = protocol;
  claim_boundary = "Verified " <> pdk <> " RTL-to-GDS teaching run.";
  created_at = now;
  schema_version = pos 1;
}

-- The branch of `record_gds_evidence` on a complete run. `now` is the current time in ISO format.
unfoldable pub record_complete :
    Stdlib → String → String → String → String → List Artifact → Action Service GdsResult
record_complete lib now version_id run_id pdk artifacts = do
  refs ← lift (kind_refs lib artifacts gds_kinds)
  version ← query (get_rtl_version version_id)
  session ← query (find_session version.spec_id)
  toolchain ← lift (optional_key (snapshot_of artifacts))
  protocol ← lift (optional_key (protocol_of artifacts))
  evidence ← record_evidence lib (
      gds_evidence lib now version_id run_id pdk session.owner_id version.spec_id refs toolchain
        protocol)
  pure (measured evidence)

-- Without a result yet: complete or not, by what is missing.
unfoldable pub record_new_run :
    Stdlib
    → String
    → String
    → String
    → List Artifact
    → String
    → List String
    → Action Service GdsResult
record_new_run lib now version_id run_id artifacts pdk missing =
    if null missing
    then record_complete lib now version_id run_id pdk artifacts
    else record_incomplete version_id run_id pdk artifacts missing

unfoldable pub record_gds_evidence :
    Stdlib
    → String
    → String
    → String
    → List Artifact
    → String
    → List (Option Bool)
    → Action Service GdsResult
record_gds_evidence lib now version_id run_id artifacts pdk metrics s =
    elim (lookup ("evidence:" <> run_id) s.evidence) [
      | some evidence ↦ (ok (measured evidence), s)
      | none ↦ elim (lookup run_id s.run_outcomes) [
        | some outcome ↦ (ok (incomplete outcome), s)
        | none ↦
            record_new_run lib now version_id run_id artifacts pdk (missing_parts artifacts metrics)
              s
      ]
    ]

unfoldable pub get_evidence : String → Service → Result EvidenceRef
get_evidence evidence_id s = elim (lookup evidence_id s.evidence) [
  | none ↦ err (key_error ("unknown evidence: " <> evidence_id))
  | some evidence ↦ ok evidence
]

unfoldable pub get_run_outcome : String → Service → Result M1RunOutcome
get_run_outcome run_id s = elim (lookup run_id s.run_outcomes) [
  | none ↦ err (key_error ("unknown M1 run outcome: " <> run_id))
  | some outcome ↦ ok outcome
]

-- `list_evidence`
unfoldable pub evidence_of : String → Dict EvidenceRef → List EvidenceRef
evidence_of owner_id [] = []
evidence_of owner_id ((k, e) ∷ d) =
    let rest = evidence_of owner_id d in if e.owner_id == owner_id then e ∷ rest else rest

unfoldable pub list_evidence : String → Service → List EvidenceRef
unfolding evidence_of
list_evidence owner_id s = evidence_of owner_id s.evidence
