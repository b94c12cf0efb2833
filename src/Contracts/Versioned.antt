-- ===== src/Contracts/Versioned.antt =====
-- `_validate_version` and `_validate_identifier` of
-- packages/contracts/src/openroad_platform_contracts/platform.py, the helpers `_id` and `_text`
-- of rtl_frontend.py, and `_text`, `_ref` and `_digest` of teaching_catalog.py and
-- evidence_exchange.py. Each field has the type of its annotation, so that the `isinstance`
-- tests of annotated fields always pass and are left out.
use agentic_rtlto_gds_design.Prelude.{ℕ, String, ◌||◌, Option, ltb, starts_with}
use agentic_rtlto_gds_design.Prelude.Result.{Check, value_error, require, raise_if, if_given, ◌>>◌}
use agentic_rtlto_gds_design.Prelude.Text.{text_length, is_blank, is_identifier, is_sha256, ◌<>◌}
use agentic_rtlto_gds_design.Prelude.Json.{ℤ, is_int}

abbrev pub schema_version_number : ℕ
schema_version_number = 1

abbrev pub validate_version : ℤ → Check
validate_version value =
    require (is_int schema_version_number value) (value_error "Unsupported schema_version")

-- `_validate_identifier` and the `_id` of rtl_frontend.py
abbrev pub validate_identifier : String → String → Check
validate_identifier name value = require (is_identifier value) (value_error ("Invalid " <> name))

-- `_validate_identifier(name, value, required=False)`
abbrev pub validate_optional : String → Option String → Check
validate_optional name value = if_given value (validate_identifier name)

-- `_text`
abbrev pub validate_text : String → String → ℕ → Check
validate_text name value maximum =
    raise_if (is_blank value || ltb maximum (text_length value))
      (value_error (name <> " must be non-empty text"))

-- `_ref` of teaching_catalog.py
abbrev pub validate_ref : String → String → String → Check
validate_ref name value prefix =
    validate_text name value 256
    >> require (starts_with value prefix)
        (value_error (name <> " must be a " <> prefix <> " reference"))

-- `_digest`
abbrev pub validate_digest : String → String → Check
validate_digest name value =
    require (is_sha256 value) (value_error (name <> " must be a lowercase SHA-256 digest"))
