-- ===== src/Integrations/RandomControl/Tests.antt =====
-- A domain of one flag and one fixed parameter.
use mathlib.Core.List.Permᴰ
use agentic_rtlto_gds_design.Prelude.{◌≡◌, refl, List, [], ◌∷◌, false}
use agentic_rtlto_gds_design.Prelude.Dict.{insert}
use agentic_rtlto_gds_design.Prelude.Json.{
  pos, Json, int, str, arr, nil, cons, obj, Fields, end, field,
}
use agentic_rtlto_gds_design.Prelude.Document.{field_or_null, traverse}
use agentic_rtlto_gds_design.Prelude.Result.{ok}
use agentic_rtlto_gds_design.Integrations.RandomControl.{
  is_propose, names_of, is_hashable, name_of, mapping_of, list_of, natural_of, draw, legal_vectors,
  product, prefix_all, prefix_each, dedupe, contains_equal, distinct_texts, assign, take, number,
  Python, Candidate, Trace, Domain, value_list, read_domain, propose,
}
use agentic_rtlto_gds_design.Integrations.RandomControl.Draws.{Shuffles, Drawn, propose-Drawn}

abbrev python : Python
python = record {
  sha256 = λ text. text;
  dumps = λ value. "{}";
  str_of = λ value. "text";
  equal = λ a b. false;
  shuffle = λ seed vectors. vectors;
  candidate_id = λ seed index. "seeded-random-0-0000";
}

python-Shuffles : Shuffles python
python-Shuffles seed vectors = Permᴰ.refl vectors

abbrev inputs : Fields
inputs = field "mode" (str "propose") (
    field "search_parameter_names" (arr (cons (str "abc_area") nil)) (
      field "fixed_parameters" (obj (field "core" (str "4") end)) (
        field "admissible_values"
          (obj (field "abc_area" (arr (cons (str "0") (cons (str "1") nil))) end))
          (field "excluded_parameter_fingerprints" (arr nil)
            (field "n_suggestions" (int (pos 1)) (field "seed" (int (pos 0)) end))))))

abbrev candidate : Candidate
candidate = record {
  candidate_id = "seeded-random-0-0000";
  platform_parameters = ("core", str "4") ∷ ("abc_area", str "0") ∷ [];
  seed = 0;
  domain_digest = "{}";
  excluded_coordinate_count = 0;
}

abbrev trace : Trace
trace = record {
  seed = 0;
  domain_digest = "{}";
  domain_cardinality = 2;
  available_unseen_cardinality = 2;
  proposal_count = 1;
}

proposed : propose python inputs ≡ ok (candidate ∷ [], trace)
unfolding propose is_propose read_domain names_of is_hashable traverse name_of mapping_of list_of
    natural_of value_list draw legal_vectors product prefix_all prefix_each dedupe contains_equal
    distinct_texts assign take number insert
proposed = refl

propose-Drawn_example :
    (d : Domain) × (value_lists : List (List Json)) × (read_domain inputs ≡ ok d)
    × (traverse (λ name. value_list python (field_or_null name d.values)) d.names ≡ ok value_lists)
    × Drawn python d value_lists (candidate ∷ []) trace
propose-Drawn_example = propose-Drawn python python-Shuffles inputs (candidate ∷ []) trace proposed
