-- ===== src/Contracts/RtlFrontend/Roundtrip.antt =====
-- What `SpecIR.from_dict` of
-- packages/contracts/src/openroad_platform_contracts/rtl_frontend.py returns.
use agentic_rtlto_gds_design.Prelude.{
  ℕ, String, ◌≡◌, refl, false, Option, none, some, List, [], ◌∷◌, ◌++◌, arith,
}
use agentic_rtlto_gds_design.Prelude.Dict.{Dict}
use agentic_rtlto_gds_design.Prelude.Document.{
  traverse, tuple_at, tuple_of, known_payload, require_fields, fields_to_dict, items_to_list,
}
use agentic_rtlto_gds_design.Prelude.Json.{ℤ, pos, negsuc, Json, int, text_items, optional_text}
use agentic_rtlto_gds_design.Prelude.Lists.{null, elem, for_each, All, for_each-All}
use agentic_rtlto_gds_design.Prelude.Result.{
  ok, Check, raise_if, >>-eq-ok, >>=-eq-ok, raise_if-eq-ok,
}
use agentic_rtlto_gds_design.Contracts.RtlFrontend.{
  PortSpec, SpecIr, validate_port, collect_names, validate_spec, validate_ports, validate_signal,
}
use agentic_rtlto_gds_design.Contracts.RtlFrontend.Documents.{
  port_to_json, ports_to_items, dict_to_fields, spec_to_json, equals_one, version_of, identifier_of,
  text_of, direction_of, width_of, port_from_dict, signal_of, constraints_of, spec_from_fields,
  spec_from_dict,
}
use agentic_rtlto_gds_design.Contracts.Versioned.{
  validate_version, validate_identifier, validate_text,
}

-- A port that passes `validate` is read back from its document.
port_roundtrip : (p : PortSpec) → validate_port p ≡ ok tt → port_from_dict (port_to_json p) ≡ ok p
unfolding port_from_dict validate_port known_payload require_fields version_of identifier_of
    direction_of width_of equals_one
port_roundtrip p h = ground arith

-- A list of texts that pass `_text` is read back.
texts_back :
    (name : String) (maximum : ℕ) (ts : List String)
    → All (λ t. validate_text name t maximum ≡ ok tt) ts
    → traverse (text_of name maximum) (items_to_list (text_items ts)) ≡ ok ts
unfolding traverse text_of
texts_back name maximum [] h = refl
texts_back name maximum (t ∷ ts) (h, hs) = rw (h, texts_back name maximum ts hs) refl

null_back : (ts : List String) → null (items_to_list (text_items ts)) ≡ null ts
null_back [] = refl
null_back (t ∷ ts) = refl

collect_names-All :
    (ports : List PortSpec) (seen : List String) {out : List String}
    → collect_names ports seen ≡ ok out
    → All (λ p. validate_port p ≡ ok tt) ports
unfolding collect_names
collect_names-All [] seen h = tt
collect_names-All (p ∷ ports) seen h =
    let (hv, h') = >>-eq-ok (validate_port p) _ h in
    let (hn, hr) = >>-eq-ok (raise_if (elem p.name seen) _) _ h' in
    (hv, collect_names-All ports (p.name ∷ seen) hr)

ports_back :
    (ports : List PortSpec)
    → All (λ p. validate_port p ≡ ok tt) ports
    → traverse port_from_dict (items_to_list (ports_to_items ports)) ≡ ok ports
unfolding traverse ports_to_items
ports_back [] h = refl
ports_back (p ∷ ports) (h, hs) = rw (port_roundtrip p h, ports_back ports hs) refl

signal_back :
    (name : String) (names : List String) (value : Option String)
    → validate_signal name names value ≡ ok tt
    → signal_of name names (optional_text value) ≡ ok value
unfolding signal_of validate_signal identifier_of
signal_back name names none h = refl
signal_back name names (some v) h = ground arith

fields_back : (d : Dict Json) → fields_to_dict (dict_to_fields d) ≡ d
unfolding dict_to_fields
fields_back [] = refl
fields_back ((k, v) ∷ d) = rw (fields_back d) refl

version_back : (v : ℤ) → validate_version v ≡ ok tt → version_of (int v) ≡ ok v
unfolding version_of equals_one
version_back (pos n) h = ground arith
version_back (negsuc n) h = cc

-- The two halves of a loop over an appended list.
for_each-halves {ℓ} :
    {A : Type ℓ} (f : A → Check) (xs ys : List A)
    → for_each (xs ++ ys) f ≡ ok tt
    → All (λ x. f x ≡ ok tt) xs × All (λ x. f x ≡ ok tt) ys
unfolding for_each
for_each-halves f [] ys h = (tt, for_each-All f ys h)
for_each-halves f (x ∷ xs) ys h =
    let (hx, h') = >>-eq-ok (f x) _ h in
    let (hxs, hys) = for_each-halves f xs ys h' in ((hx, hxs), hys)

-- The tests that a `SpecIR` has passed, with the names that its loop collects.
record Passed (s : SpecIr) : Type 0 where
  version : validate_version s.schema_version ≡ ok tt
  spec_id : validate_identifier "spec_id" s.spec_id ≡ ok tt
  design_id : validate_identifier "design_id" s.design_id ≡ ok tt
  top : validate_identifier "top" s.top ≡ ok tt
  functionality : validate_text "functionality" s.functionality 8000 ≡ ok tt
  objective : validate_text "objective" s.objective 2000 ≡ ok tt
  some_port : null s.ports ≡ false
  names : List String
  collected : collect_names s.ports [] ≡ ok names
  clock : validate_signal "clock" names s.clock ≡ ok tt
  reset : validate_signal "reset" names s.reset ≡ ok tt
  some_criterion : null s.acceptance_criteria ≡ false
  assumptions : All (λ t. validate_text "SpecIR list item" t 2000 ≡ ok tt) s.assumptions
  criteria : All (λ t. validate_text "SpecIR list item" t 2000 ≡ ok tt) s.acceptance_criteria

validate_spec-Passed : (s : SpecIr) → validate_spec s ≡ ok tt → Passed s
unfolding validate_spec validate_ports
validate_spec-Passed s h =
    let (version, h) = >>-eq-ok (validate_version s.schema_version) _ h in
    let (spec_id, h) = >>-eq-ok (validate_identifier "spec_id" s.spec_id) _ h in
    let (design_id, h) = >>-eq-ok (validate_identifier "design_id" s.design_id) _ h in
    let (top, h) = >>-eq-ok (validate_identifier "top" s.top) _ h in
    let (functionality, h) = >>-eq-ok (validate_text "functionality" s.functionality 8000) _ h in
    let (objective, h) = >>-eq-ok (validate_text "objective" s.objective 2000) _ h in
    let (ports, h) = >>-eq-ok (validate_ports s) _ h in
    let (some_criterion, h) = >>-eq-ok (raise_if (null s.acceptance_criteria) _) _ h in
    let (assumptions, criteria) = for_each-halves _ s.assumptions s.acceptance_criteria h in
    let (some_port, ports) = >>-eq-ok (raise_if (null s.ports) _) _ ports in
    let (names, collected, signals) = >>=-eq-ok (collect_names s.ports []) _ ports in
    let (clock, reset) = >>-eq-ok (validate_signal "clock" names s.clock) _ signals in
    record {
      version = version;
      spec_id = spec_id;
      design_id = design_id;
      top = top;
      functionality = functionality;
      objective = objective;
      some_port = raise_if-eq-ok _ _ some_port;
      names = names;
      collected = collected;
      clock = clock;
      reset = reset;
      some_criterion = raise_if-eq-ok _ _ some_criterion;
      assumptions = assumptions;
      criteria = criteria;
    }

-- A specification that passes `validate` is read back from the document that `to_dict` makes of it.
pub spec_from_dict-spec_to_json :
    (s : SpecIr) → validate_spec s ≡ ok tt → spec_from_dict (spec_to_json s) ≡ ok s
unfolding spec_from_dict spec_from_fields spec_to_json tuple_at tuple_of known_payload
    require_fields identifier_of text_of constraints_of
spec_from_dict-spec_to_json s h =
    let p = validate_spec-Passed s h in
    rw
      (
        ports_back s.ports (collect_names-All s.ports [] p.collected),
        version_back s.schema_version p.version,
        p.spec_id,
        p.design_id,
        p.top,
        p.functionality,
        p.objective,
        p.some_port,
        p.collected,
        signal_back "clock" p.names s.clock p.clock,
        signal_back "reset" p.names s.reset p.reset,
        null_back s.acceptance_criteria,
        p.some_criterion,
        texts_back "SpecIR list item" 2000 s.assumptions p.assumptions,
        texts_back "SpecIR list item" 2000 s.acceptance_criteria p.criteria,
        fields_back s.constraints,
      )
      refl
