-- ===== src/Contracts/RtlFrontend/Documents.antt =====
-- `to_dict` and `from_dict` of `PortSpec` and `SpecIR` of
-- packages/contracts/src/openroad_platform_contracts/rtl_frontend.py. A `True` or a `1.0` that stands
-- for a number is the integer that it equals.
use agentic_rtlto_gds_design.Prelude.{
  ℕ, String, Bool, true, false, ◌&&◌, Option, none, some, List, [], ◌∷◌,
}
use agentic_rtlto_gds_design.Prelude.Dict.{Dict}
use agentic_rtlto_gds_design.Prelude.Document.{
  get_field, field_or_null, fields_to_dict, tuple_at, traverse, known_payload, require_fields,
}
use agentic_rtlto_gds_design.Prelude.Json.{
  ℤ, pos, is_int, int_in_range, le_float, float_le, Json, bool, int, float, str, arr, obj, Items,
  nil, cons, Fields, end, field, texts, optional_text,
}
use agentic_rtlto_gds_design.Prelude.Lists.{null, elem}
use agentic_rtlto_gds_design.Prelude.Result.{
  Error, value_error, type_error, Result, ok, err, ◌>>=◌, ◌>>◌, require, raise_if,
}
use agentic_rtlto_gds_design.Prelude.Text.{◌<>◌}
use agentic_rtlto_gds_design.Contracts.RtlFrontend.{PortSpec, SpecIr, collect_names}
use agentic_rtlto_gds_design.Contracts.Versioned.{validate_identifier, validate_text}

abbrev pub optional_int : Option ℤ → Json
optional_int none = Json.null
optional_int (some n) = int n

-- `PortSpec.to_dict`, after its `validate`
abbrev pub port_to_json : PortSpec → Json
port_to_json p = obj (
    field "name" (str p.name) (
      field "direction" (str p.direction)
        (field "width" (optional_int p.width) (field "schema_version" (int p.schema_version) end))))

unfoldable pub ports_to_items : List PortSpec → Items
ports_to_items [] = nil
ports_to_items (p ∷ ports) = cons (port_to_json p) (ports_to_items ports)

unfoldable pub dict_to_fields : Dict Json → Fields
dict_to_fields [] = end
dict_to_fields ((k, v) ∷ d) = field k v (dict_to_fields d)

-- `SpecIR.to_dict`, after its `validate`
unfoldable pub spec_to_json : SpecIr → Json
spec_to_json s = obj (
    field "spec_id" (str s.spec_id) (
      field "design_id" (str s.design_id) (
        field "top" (str s.top) (
          field "functionality" (str s.functionality) (
            field "objective" (str s.objective) (
              field "ports" (arr (ports_to_items s.ports)) (
                field "clock" (optional_text s.clock) (
                  field "reset" (optional_text s.reset) (
                    field "constraints" (obj (dict_to_fields s.constraints)) (
                      field "assumptions" (texts s.assumptions) (
                        field "acceptance_criteria" (texts s.acceptance_criteria)
                          (field "schema_version" (int s.schema_version) end))))))))))))

-- `value != SCHEMA_VERSION`
unfoldable pub equals_one : Json → Bool
equals_one (int n) = is_int 1 n
equals_one (bool b) = b
equals_one (float x) = le_float 1 x && float_le x 1
equals_one _ = false

-- `_validate_version` of a value
unfoldable pub version_of : Json → Result ℤ
unfolding equals_one
version_of j = do require (equals_one j) (value_error "Unsupported schema_version"); ok (pos 1)

-- `_id` of a value
unfoldable pub identifier_of : String → Json → Result String
identifier_of name (str s) = validate_identifier name s >> ok s
identifier_of name _ = err (value_error ("Invalid " <> name))

-- `_text` of a value
unfoldable pub text_of : String → ℕ → Json → Result String
text_of name maximum (str s) = validate_text name s maximum >> ok s
text_of name maximum _ = err (value_error (name <> " must be non-empty text"))

-- `self.direction not in {…}`; a list or an object has no hash.
unfoldable pub direction_of : Json → Result String
direction_of (str s) = do
  require (elem s ("input" ∷ "output" ∷ "inout" ∷ []))
      (value_error "PortSpec direction must be input, output, or inout")
  ok s
direction_of (arr items) = err (type_error "unhashable type")
direction_of (obj fields) = err (type_error "unhashable type")
direction_of _ = err (value_error "PortSpec direction must be input, output, or inout")

abbrev pub bad_width : Error
bad_width = value_error "PortSpec width must be None or an integer in [1, 65536]"

-- The test on `self.width`; a `bool` is an `int`.
unfoldable pub width_of : Json → Result (Option ℤ)
width_of Json.null = ok none
width_of (int n) = require (int_in_range 1 65536 n) bad_width >> ok (some n)
width_of (bool true) = ok (some (pos 1))
width_of _ = err bad_width

-- `PortSpec.from_dict`
unfoldable pub port_from_dict : Json → Result PortSpec
unfolding known_payload require_fields version_of identifier_of direction_of width_of
port_from_dict j = do
  fields ← known_payload "PortSpec" ("name" ∷ "direction" ∷ "width" ∷ "schema_version" ∷ []) j
  require_fields ("name" ∷ "direction" ∷ []) fields
  version ← version_of (field_or_null "schema_version" fields)
  name ← identifier_of "port name" (field_or_null "name" fields)
  direction ← direction_of (field_or_null "direction" fields)
  width ← width_of (field_or_null "width" fields)
  ok record { name = name; direction = direction; width = width; schema_version = version }

-- A clock or a reset
unfoldable pub signal_of : String → List String → Json → Result (Option String)
signal_of name names Json.null = ok none
signal_of name names j = do
  v ← identifier_of name j
  require (elem v names) (value_error ("SpecIR " <> name <> " must name a declared port"))
  ok (some v)

-- `_validate_mapping` of `constraints`, whose default is an empty object
unfoldable pub constraints_of : Option Json → Result (Dict Json)
constraints_of none = ok []
constraints_of (some (obj fields)) = ok (fields_to_dict fields)
constraints_of (some _) = err (value_error "constraints must be a string-keyed object")

abbrev pub spec_keys : List String
spec_keys =
    "spec_id" ∷ "design_id" ∷ "top" ∷ "functionality" ∷ "objective" ∷ "ports" ∷ "clock" ∷ "reset"
    ∷ "constraints" ∷ "assumptions" ∷ "acceptance_criteria" ∷ "schema_version" ∷ []

-- `SpecIR.from_dict` after the conversion of its lists: the constructor, and `validate` on its values.
unfoldable pub spec_from_fields : Fields → List PortSpec → List Json → List Json → Result SpecIr
unfolding require_fields version_of identifier_of text_of signal_of constraints_of
spec_from_fields fields ports assumptions criteria = do
  require_fields ("spec_id" ∷ "design_id" ∷ "top" ∷ "functionality" ∷ "objective" ∷ []) fields
  version ← version_of (field_or_null "schema_version" fields)
  spec_id ← identifier_of "spec_id" (field_or_null "spec_id" fields)
  design_id ← identifier_of "design_id" (field_or_null "design_id" fields)
  top ← identifier_of "top" (field_or_null "top" fields)
  functionality ← text_of "functionality" 8000 (field_or_null "functionality" fields)
  objective ← text_of "objective" 2000 (field_or_null "objective" fields)
  raise_if (null ports) (value_error "SpecIR requires at least one port")
  names ← collect_names ports []
  clock ← signal_of "clock" names (field_or_null "clock" fields)
  reset ← signal_of "reset" names (field_or_null "reset" fields)
  constraints ← constraints_of (get_field "constraints" fields)
  raise_if (null criteria) (value_error "SpecIR requires acceptance_criteria")
  assumed ← traverse (text_of "SpecIR list item" 2000) assumptions
  accepted ← traverse (text_of "SpecIR list item" 2000) criteria
  ok record {
    spec_id = spec_id;
    design_id = design_id;
    top = top;
    functionality = functionality;
    objective = objective;
    ports = ports;
    clock = clock;
    reset = reset;
    constraints = constraints;
    assumptions = assumed;
    acceptance_criteria = accepted;
    schema_version = version;
  }

-- `SpecIR.from_dict`
unfoldable pub spec_from_dict : Json → Result SpecIr
unfolding spec_from_fields
spec_from_dict j = do
  fields ← known_payload "SpecIR" spec_keys j
  items ← tuple_at "ports" fields
  ports ← traverse port_from_dict items
  assumptions ← tuple_at "assumptions" fields
  criteria ← tuple_at "acceptance_criteria" fields
  spec_from_fields fields ports assumptions criteria
