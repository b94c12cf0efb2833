-- ===== src/Contracts/Catalog.antt =====
-- `CourseExercise`, `CourseLabRecord` and `PdkCapability` of
-- packages/contracts/src/openroad_platform_contracts/teaching_catalog.py.
use agentic_rtlto_gds_design.Prelude.{
  ◌≤◌, String, ◌≡◌, inl, inr, Bool, true, false, Option, none, some, List, arith, starts_with,
  Option-cases,
}
use agentic_rtlto_gds_design.Prelude.Text.{text_length, is_empty}
use agentic_rtlto_gds_design.Prelude.Lists.{null, for_each, distinct}
use agentic_rtlto_gds_design.Prelude.Json.{ℤ}
use agentic_rtlto_gds_design.Prelude.Result.{
  value_error, Result, ok, Check, ◌>>◌, raise_if, require, if_given,
}
use agentic_rtlto_gds_design.Contracts.Versioned.{
  validate_version, validate_identifier, validate_text, validate_ref,
}

pub data CapabilityStatus : Type 0 where
  registered toolchain_ready recipe_ready rtl_smoke_passed : CapabilityStatus
  gds_smoke_passed available blocked : CapabilityStatus

pub record CourseExercise : Type 0 where
  pub exercise_id : String
  pub title : String
  pub category : String
  pub level : String
  pub description : String
  pub supported_pdks : List String
  pub verification_id : String
  pub schema_version : ℤ

unfoldable pub validate_exercise : CourseExercise → Check
validate_exercise e = do
  validate_version e.schema_version
  validate_identifier "exercise_id" e.exercise_id
  validate_identifier "verification_id" e.verification_id
  validate_text "title" e.title 4000
  validate_text "category" e.category 4000
  validate_text "level" e.level 4000
  validate_text "description" e.description 4000
  raise_if (null e.supported_pdks) (value_error "supported_pdks must be a non-empty tuple")
  for_each e.supported_pdks (validate_identifier "supported_pdk")
  require (distinct e.supported_pdks) (value_error "supported_pdks must be unique")

pub record CourseLabRecord : Type 0 where
  pub exercise : CourseExercise
  pub spec_ref : String
  pub reference_rtl_ref : String
  pub oracle_ref : String
  pub recipe_id : String
  pub teaching_notes : String
  pub schema_version : ℤ

unfoldable pub validate_lab_record : CourseLabRecord → Check
validate_lab_record r = do
  validate_version r.schema_version
  validate_exercise r.exercise
  validate_ref "spec_ref" r.spec_ref "spec:"
  validate_ref "reference_rtl_ref" r.reference_rtl_ref "source:"
  validate_ref "oracle_ref" r.oracle_ref "source:"
  validate_identifier "recipe_id" r.recipe_id
  validate_text "teaching_notes" r.teaching_notes 4000

pub record PdkCapability : Type 0 where
  pub exercise_id : String
  pub pdk_id : String
  pub status : CapabilityStatus
  pub recipe_id : String
  pub reason : Option String
  pub smoke_evidence_id : Option String
  pub schema_version : ℤ

abbrev pub is_missing_text : Option String → Bool
is_missing_text none = true
is_missing_text (some s) = is_empty s

-- The last three tests of `PdkCapability.validate`, by the status.
unfoldable pub validate_status : CapabilityStatus → Option String → Option String → Check
validate_status blocked reason evidence =
    raise_if (is_missing_text reason) (value_error "blocked capability requires a reason")
validate_status gds_smoke_passed reason evidence =
    raise_if (is_missing_text evidence)
      (value_error "gds_smoke_passed capability requires smoke evidence")
validate_status available reason evidence =
    raise_if (is_missing_text evidence) (value_error "available capability requires smoke evidence")
validate_status _ reason evidence = ok tt

unfoldable pub validate_capability : PdkCapability → Check
validate_capability c = do
  validate_version c.schema_version
  validate_identifier "exercise_id" c.exercise_id
  validate_identifier "pdk_id" c.pdk_id
  validate_identifier "recipe_id" c.recipe_id
  if_given c.reason (λ r. validate_text "reason" r 2000)
  if_given c.smoke_evidence_id (λ e. validate_ref "smoke_evidence_id" e "evidence:")
  validate_status c.status c.reason c.smoke_evidence_id

-- `self.status in {GDS_SMOKE_PASSED, AVAILABLE}`
unfoldable pub is_smoke_status : CapabilityStatus → Bool
is_smoke_status gds_smoke_passed = true
is_smoke_status available = true
is_smoke_status _ = false

-- The property `available`
unfoldable pub is_available : PdkCapability → Result Bool
is_available c = do validate_capability c; ok (is_smoke_status c.status)

smoke_evidence_given :
    (status : CapabilityStatus) (reason evidence : Option String)
    → validate_status status reason evidence ≡ ok tt
    → is_smoke_status status ≡ true
    → is_missing_text evidence ≡ false
unfolding validate_status is_smoke_status
smoke_evidence_given available reason evidence h a = ground arith
smoke_evidence_given _ reason evidence h a = ground arith

-- A capability that counts as available passed its check and carries a reference `evidence:...` to a
-- smoke run, of at most 256 characters.
pub is_available-evidence :
    (c : PdkCapability)
    → is_available c ≡ ok true
    → (e : String) × (c.smoke_evidence_id ≡ some e)
      × (starts_with e "evidence:" ≡ true)
      × (text_length e ≤ 256)
      × (validate_capability c ≡ ok tt)
unfolding is_available
is_available-evidence c h =
    let valid : validate_capability c ≡ ok tt = ground arith in
    let (e, given) =
      evidence_of (
        smoke_evidence_given c.status c.reason c.smoke_evidence_id (checked valid)
          (ground arith)) in
    (e, given, (bounded e given valid).0, (bounded e given valid).1, valid)
  where
    checked :
        validate_capability c ≡ ok tt
        → validate_status c.status c.reason c.smoke_evidence_id ≡ ok tt
    checked v = unfold validate_capability in ground arith

    evidence_of :
        is_missing_text c.smoke_evidence_id ≡ false → (e : String) × (c.smoke_evidence_id ≡ some e)
    evidence_of p = elim (Option-cases c.smoke_evidence_id) [
      | inl q ↦ absurd (ground arith)
      | inr found ↦ found
    ]

    bounded :
        (e : String)
        → c.smoke_evidence_id ≡ some e
        → validate_capability c ≡ ok tt
        → (starts_with e "evidence:" ≡ true) × (text_length e ≤ 256)
    bounded e given v = unfold validate_capability in ground arith
