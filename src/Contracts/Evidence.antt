-- ===== src/Contracts/Evidence.antt =====
-- `EvidenceRef` of packages/contracts/src/openroad_platform_contracts/evidence_exchange.py.
use agentic_rtlto_gds_design.Prelude.{
  ◌≤◌, String, ◌≡◌, Bool, true, false, ◌&&◌, Option, none, some, List, [], ◌∷◌, arith, leb, ◌==◌,
  starts_with,
}
use agentic_rtlto_gds_design.Prelude.Text.{text_length}
use agentic_rtlto_gds_design.Prelude.Lists.{
  null, for_each, elem, distinct, All, for_each-All, IsDistinct, distinct→IsDistinct,
}
use agentic_rtlto_gds_design.Prelude.Json.{ℤ, Json, obj, field, str, texts, int, end}
use agentic_rtlto_gds_design.Prelude.Result.{
  value_error, Result, ok, err, Check, ◌>>◌, raise_if, require,
}
use agentic_rtlto_gds_design.Contracts.Versioned.{
  validate_version, validate_identifier, validate_text, validate_digest,
}

pub record EvidenceRef : Type 0 where
  pub evidence_id : String
  pub owner_id : String
  pub spec_id : String
  pub candidate_id : String
  pub run_id : String
  pub artifact_ids : List String
  pub evidence_kind : String
  pub status : String
  pub sha256 : String
  pub toolchain_digest : String
  pub protocol_digest : String
  pub claim_boundary : String
  pub created_at : String
  pub schema_version : ℤ

-- `_ref`
abbrev pub evidence_artifact : String → Check
evidence_artifact value =
    require (starts_with value "artifact:" && leb (text_length value) 256)
      (value_error "artifact_id must be a artifact: reference")

abbrev pub evidence_statuses : List String
evidence_statuses = "pending" ∷ "succeeded" ∷ "failed" ∷ "incomplete" ∷ "rejected" ∷ []

-- `datetime.fromisoformat(created_at.replace("Z", "+00:00"))`: `none` is a raise, and the Boolean
-- tells whether the date has a timezone.
abbrev pub IsoParser : Type 0
IsoParser = String → Option Bool

unfoldable pub validate_created_at : IsoParser → String → Check
validate_created_at parse created_at = elim (parse created_at) [
  | none ↦ err (value_error "created_at must be ISO-8601")
  | some zoned ↦ require zoned (value_error "created_at must include a timezone")
]

unfoldable pub validate_evidence : IsoParser → EvidenceRef → Check
validate_evidence parse e = do
  validate_version e.schema_version
  validate_identifier "evidence_id" e.evidence_id
  validate_identifier "owner_id" e.owner_id
  validate_identifier "spec_id" e.spec_id
  validate_identifier "candidate_id" e.candidate_id
  validate_identifier "run_id" e.run_id
  validate_identifier "evidence_kind" e.evidence_kind
  raise_if (null e.artifact_ids) (value_error "artifact_ids must be a non-empty tuple")
  for_each e.artifact_ids evidence_artifact
  require (distinct e.artifact_ids) (value_error "artifact_ids must be unique")
  require (elem e.status evidence_statuses) (value_error "unsupported evidence status")
  validate_digest "sha256" e.sha256
  validate_digest "toolchain_digest" e.toolchain_digest
  validate_digest "protocol_digest" e.protocol_digest
  validate_text "claim_boundary" e.claim_boundary 4000
  validate_created_at parse e.created_at
  raise_if (e.status == "succeeded" && null e.artifact_ids)
      (value_error "succeeded evidence requires artifacts")

-- The property `complete`
unfoldable pub complete : IsoParser → EvidenceRef → Result Bool
complete parse e = do validate_evidence parse e; ok (e.status == "succeeded")

-- The artifacts of accepted evidence: there is one, no two are the same, and each is a reference
-- `artifact:...` of at most 256 characters.
pub record HasArtifacts (e : EvidenceRef) : Type 0 where
  pub some_artifact : null e.artifact_ids ≡ false
  pub different : IsDistinct e.artifact_ids
  pub references :
      All (λ a. (starts_with a "artifact:" ≡ true) × (text_length a ≤ 256)) e.artifact_ids

artifacts-All :
    (xs : List String)
    → All (λ x. evidence_artifact x ≡ ok tt) xs
    → All (λ a. (starts_with a "artifact:" ≡ true) × (text_length a ≤ 256)) xs
artifacts-All [] h = tt
artifacts-All (x ∷ xs) h = (ground arith, artifacts-All xs h.1)

-- Evidence that `validate` accepts has an artifact, its artifacts differ, and each is a reference
-- of bounded length.
pub validate_evidence-HasArtifacts :
    (parse : IsoParser) (e : EvidenceRef) → validate_evidence parse e ≡ ok tt → HasArtifacts e
unfolding validate_evidence
validate_evidence-HasArtifacts parse e h = record {
  some_artifact = ground arith;
  different = distinct→IsDistinct e.artifact_ids (ground arith);
  references =
      artifacts-All e.artifact_ids (for_each-All evidence_artifact e.artifact_ids (ground arith));
}

-- `EvidenceRef.to_dict`
unfoldable pub evidence_to_dict : IsoParser → EvidenceRef → Result Json
unfolding validate_evidence
evidence_to_dict parse e = do
  validate_evidence parse e
  ok (
      obj (
        field "evidence_id" (str e.evidence_id) (
          field "owner_id" (str e.owner_id) (
            field "spec_id" (str e.spec_id) (
              field "candidate_id" (str e.candidate_id) (
                field "run_id" (str e.run_id) (
                  field "artifact_ids" (texts e.artifact_ids) (
                    field "evidence_kind" (str e.evidence_kind) (
                      field "status" (str e.status) (
                        field "sha256" (str e.sha256) (
                          field "toolchain_digest" (str e.toolchain_digest) (
                            field "protocol_digest" (str e.protocol_digest) (
                              field "claim_boundary" (str e.claim_boundary) (
                                field "created_at" (str e.created_at)
                                  (field "schema_version" (int e.schema_version) end)))))))))))))))
