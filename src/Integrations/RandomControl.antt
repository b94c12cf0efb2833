-- ===== src/Integrations/RandomControl.antt =====
-- integrations/seeded_random_control/seeded_random_control_adapter.py: a proposal of parameter
-- vectors that are drawn from a finite domain without replacement. SHA-256, `json.dumps`, `str` of a
-- value, Python's `==`, `random.Random(seed).shuffle` and the format of a candidate id are parameters.
-- The domain is bounded by the request, and each loop runs over a list.
pub mod Draws
mod Tests
use agentic_rtlto_gds_design.Prelude.{
  ℕ, zero, suc, ◌+◌, String, Bool, true, false, not, ◌&&◌, ◌||◌, Option, none, some, List, [], ◌∷◌,
  ◌++◌, map, ltb, leb, if◌then◌else◌, ◌==◌,
}
use agentic_rtlto_gds_design.Prelude.Lists.{length, null, all, elem, distinct}
use agentic_rtlto_gds_design.Prelude.Dict.{Dict, insert}
use agentic_rtlto_gds_design.Prelude.Json.{
  ℤ, pos, int_in_range, Json, bool, int, str, arr, obj, Items, nil, cons, Fields, end, field,
}
use agentic_rtlto_gds_design.Prelude.Document.{
  field_or_null, field_names, fields_to_dict, items_to_list, traverse,
}
use agentic_rtlto_gds_design.Prelude.Result.{
  Error, value_error, type_error, Result, ok, err, ◌>>=◌, ◌>>◌, require,
}

abbrev pub Vector : Type 0
Vector = Dict Json

pub record Python : Type 0 where
  pub sha256 : String → String
  pub dumps : Json → String
  pub str_of : Json → String
  pub equal : Json → Json → Bool
  pub shuffle : ℕ → List Vector → List Vector
  pub candidate_id : ℕ → ℕ → String

-- `_json_digest`
abbrev pub json_digest : Python → Json → String
json_digest py value = py.sha256 (py.dumps value)

abbrev pub vector_to_fields : Vector → Fields
vector_to_fields [] = end
vector_to_fields ((k, v) ∷ d) = field k v (vector_to_fields d)

-- The digest of a vector; `dumps` sorts the keys.
abbrev pub vector_digest : Python → Vector → String
vector_digest py vector = json_digest py (obj (vector_to_fields vector))

abbrev pub invalid_request : Error
invalid_request = value_error "invalid Random-control proposal request"

unfoldable pub is_hashable : Json → Bool
is_hashable (arr items) = false
is_hashable (obj fields) = false
is_hashable _ = true

-- The names, which must be the keys of an object, and so texts.
unfoldable pub name_of : Json → Result String
name_of (str name) = ok name
name_of _ = err invalid_request

-- The tests on `names` alone
unfoldable pub names_of : Json → Result (List String)
names_of (arr items) = do
  require (not (null (items_to_list items))) invalid_request
  require (all is_hashable (items_to_list items)) (type_error "unhashable type")
  names ← traverse name_of (items_to_list items)
  require (distinct names) invalid_request
  ok names
names_of _ = err invalid_request

unfoldable pub mapping_of : Json → Result Fields
mapping_of (obj fields) = ok fields
mapping_of _ = err invalid_request

unfoldable pub list_of : Json → Result (List Json)
list_of (arr items) = ok (items_to_list items)
list_of _ = err invalid_request

-- A non-negative integer in a range; a `bool` is an `int`.
unfoldable pub natural_of : Json → Result ℕ
natural_of (int (pos n)) = ok n
natural_of (bool true) = ok 1
natural_of (bool false) = ok 0
natural_of _ = err invalid_request

-- `list(dict.fromkeys(raw))`
unfoldable pub contains_equal : Python → Json → List Json → Bool
contains_equal py v [] = false
contains_equal py v (w ∷ vs) = py.equal w v || contains_equal py v vs

unfoldable pub dedupe : Python → List Json → List Json → List Json
dedupe py seen [] = []
dedupe py seen (v ∷ vs) =
    let old = contains_equal py v seen in
    let rest = dedupe py (if old then seen else v ∷ seen) vs in if old then rest else v ∷ rest

-- The values of one name
unfoldable pub value_list : Python → Json → Result (List Json)
value_list py (arr items) = do
  require (leb 2 (length (items_to_list items))) (value_error "invalid admissible values")
  require (all is_hashable (items_to_list items)) (type_error "unhashable type")
  ok (dedupe py [] (items_to_list items))
value_list py _ = err (value_error "invalid admissible values")

-- `{str(item) for item in excluded}`
unfoldable pub distinct_texts : List String → List String
distinct_texts [] = []
distinct_texts (s ∷ ss) = let rest = distinct_texts ss in if elem s ss then rest else s ∷ rest

abbrev pub excluded_texts : Python → List Json → List String
excluded_texts py excluded = distinct_texts (map py.str_of excluded)

unfoldable pub prefix_each : Json → List (List Json) → List (List Json)
prefix_each v [] = []
prefix_each v (c ∷ combinations) = (v ∷ c) ∷ prefix_each v combinations

unfoldable pub prefix_all : List Json → List (List Json) → List (List Json)
prefix_all [] combinations = []
prefix_all (v ∷ vs) combinations = prefix_each v combinations ++ prefix_all vs combinations

-- `itertools.product(*value_lists)`
unfoldable pub product : List (List Json) → List (List Json)
product [] = [] ∷ []
product (vs ∷ value_lists) = prefix_all vs (product value_lists)

-- `{**fixed, **dict(zip(names, combination))}`
unfoldable pub assign : Vector → List String → List Json → Vector
assign vector (name ∷ names) (v ∷ vs) = assign (insert name v vector) names vs
assign vector _ _ = vector

-- The vectors whose fingerprint is not excluded
unfoldable pub legal_vectors :
    Python → Vector → List String → List String → List (List Json) → List Vector
legal_vectors py fixed names excluded [] = []
legal_vectors py fixed names excluded (c ∷ combinations) =
    let rest = legal_vectors py fixed names excluded combinations in
    if elem (vector_digest py (assign fixed names c)) excluded
    then rest
    else assign fixed names c ∷ rest

unfoldable pub take {ℓ} : {A : Type ℓ} → ℕ → List A → List A
take zero xs = []
take (suc n) [] = []
take (suc n) (x ∷ xs) = x ∷ take n xs

-- A candidate, and below the trace, without their constant entries.
pub record Candidate : Type 0 where
  pub candidate_id : String
  pub platform_parameters : Vector
  pub seed : ℕ
  pub domain_digest : String
  pub excluded_coordinate_count : ℕ

-- The candidates, numbered from `index`
unfoldable pub number : Python → ℕ → String → ℕ → ℕ → List Vector → List Candidate
number py seed digest excluded index [] = []
number py seed digest excluded index (vector ∷ vectors) =
    record {
      candidate_id = py.candidate_id seed index;
      platform_parameters = vector;
      seed = seed;
      domain_digest = digest;
      excluded_coordinate_count = excluded;
    }
    ∷ number py seed digest excluded (suc index) vectors

pub record Trace : Type 0 where
  pub seed : ℕ
  pub domain_digest : String
  pub domain_cardinality : ℕ
  pub available_unseen_cardinality : ℕ
  pub proposal_count : ℕ

-- A request whose shape is right
pub record Domain : Type 0 where
  pub names : List String
  pub fixed : Fields
  pub values : Fields
  pub excluded : List Json
  pub count : ℕ
  pub seed : ℕ

-- The first tests of `_propose`
unfoldable pub read_domain : Fields → Result Domain
read_domain inputs = do
  names ← names_of (field_or_null "search_parameter_names" inputs)
  fixed ← mapping_of (field_or_null "fixed_parameters" inputs)
  values ← mapping_of (field_or_null "admissible_values" inputs)
  require (all (λ k. elem k names) (field_names values)) invalid_request
  require (all (λ name. elem name (field_names values)) names) invalid_request
  excluded ← list_of (field_or_null "excluded_parameter_fingerprints" inputs)
  count ← natural_of (field_or_null "n_suggestions" inputs)
  require (leb 1 count && leb count 64) invalid_request
  seed ← natural_of (field_or_null "seed" inputs)
  ok record {
    names = names;
    fixed = fixed;
    values = values;
    excluded = excluded;
    count = count;
    seed = seed;
  }

abbrev pub domain_document : Domain → Json
domain_document d = obj (
    field "names" (arr (names_items d.names))
      (field "fixed" (obj d.fixed) (field "values" (obj d.values) end)))
  where
    names_items : List String → Items
    names_items [] = nil
    names_items (name ∷ names) = cons (str name) (names_items names)

-- The candidates and the trace for the legal vectors of a domain
unfoldable pub draw : Python → Domain → List Vector → Result (List Candidate × Trace)
draw py d legal = do
  require (leb d.count (length legal)) (value_error "no replacement is permitted")
  let digest = json_digest py (domain_document d)
  let excluded = length (excluded_texts py d.excluded)
  let candidates = number py d.seed digest excluded 0 (take d.count (py.shuffle d.seed legal))
  ok (
    candidates,
    record {
      seed = d.seed;
      domain_digest = digest;
      domain_cardinality = length legal + excluded;
      available_unseen_cardinality = length legal;
      proposal_count = length candidates;
    },
  )

-- `legal`, before it is shuffled
abbrev pub legal_of : Python → Domain → List (List Json) → List Vector
legal_of py d value_lists =
    legal_vectors py (fields_to_dict d.fixed) d.names (excluded_texts py d.excluded)
      (product value_lists)

unfoldable pub is_propose : Json → Bool
is_propose (str mode) = mode == "propose"
is_propose _ = false

-- `_propose`
unfoldable pub propose : Python → Fields → Result (List Candidate × Trace)
propose py inputs = do
  require (is_propose (field_or_null "mode" inputs))
      (value_error "seeded Random control only supports propose mode")
  d ← read_domain inputs
  value_lists ← traverse (λ name. value_list py (field_or_null name d.values)) d.names
  draw py d (legal_of py d value_lists)
