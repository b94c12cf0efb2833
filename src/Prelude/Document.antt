-- ===== src/Prelude/Document.antt =====
-- Reading a JSON document that `json.loads` made: the keys of an object differ.
use Prim.Native.String.{String}
use mathlib.Core.Bool.{Bool, true, false, not, ◌&&◌}
use mathlib.Core.Option.{Option, none, some}
use mathlib.Core.List.{List, [], ◌∷◌}
use text.Mathlib.Text.{◌==◌}
use agentic_rtlto_gds_design.Prelude.Tests.{if◌then◌else◌}
use agentic_rtlto_gds_design.Prelude.Lists.{all, elem}
use agentic_rtlto_gds_design.Prelude.Text.{is_blank, ◌<>◌}
use agentic_rtlto_gds_design.Prelude.Dict.{Dict}
use agentic_rtlto_gds_design.Prelude.Json.{
  is_int, le_float, float_le, Json, bool, int, float, str, arr, obj, Items, nil, cons, Fields, end,
  field,
}
use agentic_rtlto_gds_design.Prelude.Result.{
  Error, value_error, type_error, attribute_error, Result, ok, err, Check, ◌>>=◌, ◌>>◌, require,
}

-- `payload.get(key)`, where an absent key is told from `None`.
abbrev pub get_field : String → Fields → Option Json
get_field k end = none
get_field k (field j v fs) = if j == k then some v else get_field k fs

-- `payload.get(key)`
abbrev pub field_or_null : String → Fields → Json
field_or_null k fs = elim (get_field k fs) [ none ↦ Json.null | some v ↦ v ]

abbrev pub field_names : Fields → List String
field_names end = []
field_names (field k v fs) = k ∷ field_names fs

abbrev pub fields_to_dict : Fields → Dict Json
fields_to_dict end = []
fields_to_dict (field k v fs) = (k, v) ∷ fields_to_dict fs

abbrev pub items_to_list : Items → List Json
items_to_list nil = []
items_to_list (cons v items) = v ∷ items_to_list items

-- The characters of a text, as texts.
abbrev pub characters : String → List Json
characters String.[] = []
characters (String.◌∷◌ c s) = str (String.◌∷◌ c String.[]) ∷ characters s

abbrev pub names_to_list : List String → List Json
names_to_list [] = []
names_to_list (k ∷ ks) = str k ∷ names_to_list ks

-- `tuple(value)`
unfoldable pub tuple_of : Json → Result (List Json)
tuple_of (arr items) = ok (items_to_list items)
tuple_of (str s) = ok (characters s)
tuple_of (obj fields) = ok (names_to_list (field_names fields))
tuple_of _ = err (type_error "object is not iterable")

-- `tuple(payload.get(key, ()))`
unfoldable pub tuple_at : String → Fields → Result (List Json)
unfolding tuple_of
tuple_at key fields = elim (get_field key fields) [ none ↦ ok [] | some v ↦ tuple_of v ]

-- `tuple(f(item) for item in items)`
unfoldable pub traverse {ℓ κ} :
    {A : Type ℓ} {B : Type κ} → (A → Result B) → List A → Result (List B)
traverse f [] = ok []
traverse f (x ∷ xs) = f x >>= λ y. traverse f xs >>= λ ys. ok (y ∷ ys)

abbrev pub has_field : String → Fields → Bool
has_field k fs = elim (get_field k fs) [ none ↦ false | some _ ↦ true ]

-- `_known_payload`, for a class with these fields; the message on unknown fields goes on with them.
unfoldable pub known_payload : String → List String → Json → Result Fields
known_payload name allowed (obj fields) = do
  require (has_field "schema_version" fields) (value_error (name <> " requires schema_version"))
  require (all (λ k. elem k allowed) (field_names fields))
      (value_error ("Unknown " <> name <> " fields: "))
  ok fields
known_payload name allowed _ = err (value_error (name <> " payload must be an object"))

-- The call of a constructor whose fields without a default are `keys`.
unfoldable pub require_fields : List String → Fields → Check
require_fields keys fields =
    require (all (λ k. has_field k fields) keys) (type_error "missing required arguments")

-- `value.get(key) if isinstance(value, dict) else None`
abbrev pub member : String → Json → Json
member k (obj fields) = field_or_null k fields
member k _ = Json.null

-- The object whose method `get` a caller uses.
unfoldable pub object_of : Json → Result Fields
object_of (obj fields) = ok fields
object_of _ = err (attribute_error "object has no attribute 'get'")

-- `value is None`
abbrev pub is_null : Json → Bool
is_null Json.null = true
is_null _ = false

-- `bool(value)`
unfoldable pub is_truthy : Json → Bool
is_truthy Json.null = false
is_truthy (bool b) = b
is_truthy (int n) = not (is_int 0 n)
is_truthy (float x) = not (le_float 0 x && float_le x 0)
is_truthy (str s) = not (s == "")
is_truthy (arr nil) = false
is_truthy (arr (cons v items)) = true
is_truthy (obj end) = false
is_truthy (obj (field k v fs)) = true

-- A value that is a text with more than spaces.
unfoldable pub nonblank_of : Error → Json → Result String
unfolding is_blank
nonblank_of e (str s) = require (not (is_blank s)) e >> ok s
nonblank_of e _ = err e

-- Items that are each a text with more than spaces.
abbrev pub nonblank_texts : Error → List Json → Result (List String)
nonblank_texts e items = traverse (nonblank_of e) items

-- A text or `None`
unfoldable pub optional_of : Error → Json → Result (Option String)
optional_of e Json.null = ok none
optional_of e (str s) = ok (some s)
optional_of e _ = err e

unfoldable pub string_of : Error → Json → Result String
string_of e (str s) = ok s
string_of e _ = err e
