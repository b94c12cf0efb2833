-- ===== src/Contracts/RtlFrontend/Reading.antt =====
-- The documents that `SpecIR.from_dict` of
-- packages/contracts/src/openroad_platform_contracts/rtl_frontend.py accepts.
use agentic_rtlto_gds_design.Prelude.{
  ℕ, String, ◌≡◌, refl, Option, none, some, List, [], ◌∷◌, ◌++◌, arith,
}
use agentic_rtlto_gds_design.Prelude.Document.{
  get_field, field_or_null, traverse, tuple_at, known_payload, require_fields,
}
use agentic_rtlto_gds_design.Prelude.Json.{ℤ, Json, bool, int, float, str, arr, obj, Fields}
use agentic_rtlto_gds_design.Prelude.Lists.{null, elem, for_each, All}
use agentic_rtlto_gds_design.Prelude.Result.{
  Result, ok, err, ok_inj, require, value_error, Check, ◌>>=◌, ◌>>◌, raise_if, >>-eq-ok, >>=-eq-ok,
}
use agentic_rtlto_gds_design.Prelude.Text.{◌<>◌}
use agentic_rtlto_gds_design.Contracts.RtlFrontend.{
  PortSpec, SpecIr, collect_names, validate_spec, validate_ports, validate_signal,
}
use agentic_rtlto_gds_design.Contracts.RtlFrontend.Documents.{
  version_of, identifier_of, text_of, port_from_dict, signal_of, constraints_of, spec_keys,
  spec_from_fields, spec_from_dict,
}
use agentic_rtlto_gds_design.Contracts.Versioned.{
  validate_version, validate_identifier, validate_text,
}

version_of-valid : (j : Json) (v : ℤ) → version_of j ≡ ok v → validate_version v ≡ ok tt
unfolding version_of
version_of-valid j v h = ground arith

identifier_of-valid :
    (name : String) (j : Json) (v : String)
    → identifier_of name j ≡ ok v
    → validate_identifier name v ≡ ok tt
unfolding identifier_of
identifier_of-valid name (str s) v h = ground arith
identifier_of-valid name Json.null v h = cc
identifier_of-valid name (bool b) v h = cc
identifier_of-valid name (int n) v h = cc
identifier_of-valid name (float x) v h = cc
identifier_of-valid name (arr items) v h = cc
identifier_of-valid name (obj fields) v h = cc

text_of-valid :
    (name : String) (maximum : ℕ) (j : Json) (t : String)
    → text_of name maximum j ≡ ok t
    → validate_text name t maximum ≡ ok tt
unfolding text_of
text_of-valid name maximum (str s) t h = ground arith
text_of-valid name maximum Json.null t h = cc
text_of-valid name maximum (bool b) t h = cc
text_of-valid name maximum (int n) t h = cc
text_of-valid name maximum (float x) t h = cc
text_of-valid name maximum (arr items) t h = cc
text_of-valid name maximum (obj fields) t h = cc

-- Any value but `null` names a declared port.
named_signal :
    (name : String) (names : List String) (j : Json) (o : Option String)
    → (identifier_of name j >>= λ v.
        require (elem v names) (value_error ("SpecIR " <> name <> " must name a declared port"))
        >> ok (some v))
      ≡ ok o
    → validate_signal name names o ≡ ok tt
unfolding validate_signal
named_signal name names j o h =
    let (v, found, h) = >>=-eq-ok (identifier_of name j) _ h in
    let (declared, same) =
      >>-eq-ok
        (require (elem v names) (value_error ("SpecIR " <> name <> " must name a declared port")))
        (ok (some v)) h in
    rw (← ok_inj (some v) o same, identifier_of-valid name j v found, declared) refl

signal_of-valid :
    (name : String) (names : List String) (j : Json) (o : Option String)
    → signal_of name names j ≡ ok o
    → validate_signal name names o ≡ ok tt
unfolding signal_of validate_signal
signal_of-valid name names Json.null o h = no_signal o h
  where
    no_signal :
        (o : Option String)
        → signal_of name names Json.null ≡ ok o
        → validate_signal name names o ≡ ok tt
    no_signal none h = refl
    no_signal (some v) h = cc
signal_of-valid name names (str s) o h = named_signal name names (str s) o h
signal_of-valid name names (bool b) o h = named_signal name names (bool b) o h
signal_of-valid name names (int n) o h = named_signal name names (int n) o h
signal_of-valid name names (float x) o h = named_signal name names (float x) o h
signal_of-valid name names (arr items) o h = named_signal name names (arr items) o h
signal_of-valid name names (obj fields) o h = named_signal name names (obj fields) o h

-- The texts of a list that is read, and that one is there if the list has an item.
texts_of-valid :
    (name : String) (maximum : ℕ) (items : List Json) (ts : List String)
    → traverse (text_of name maximum) items ≡ ok ts
    → All (λ t. validate_text name t maximum ≡ ok tt) ts × (null ts ≡ null items)
unfolding traverse
texts_of-valid name maximum [] [] h = (tt, refl)
texts_of-valid name maximum [] (t ∷ ts) h = cc
texts_of-valid name maximum (j ∷ items) ts h =
    let (t, first, h) = >>=-eq-ok (text_of name maximum j) _ h in
    let (us, rest, h) = >>=-eq-ok (traverse (text_of name maximum) items) _ h in
    rw (← ok_inj (t ∷ us) ts h)
      ((text_of-valid name maximum j t first, (texts_of-valid name maximum items us rest).0), refl)

for_each-append {ℓ} :
    {A : Type ℓ} (f : A → Check) (xs ys : List A)
    → All (λ x. f x ≡ ok tt) xs
    → All (λ x. f x ≡ ok tt) ys
    → for_each (xs ++ ys) f ≡ ok tt
unfolding for_each
for_each-append f [] [] h g = refl
for_each-append f [] (y ∷ ys) h (g, gs) = rw (g, for_each-append f [] ys tt gs) refl
for_each-append f (x ∷ xs) ys (h, hs) g = rw (h, for_each-append f xs ys hs g) refl

-- A first part that returns a value, or passes.
taken {ℓ κ} :
    {A : Type ℓ} {B : Type κ} {G : Type 0} (m : Result A) (f : A → Result B) {b : B}
    → (m >>= f) ≡ ok b
    → ((a : A) → m ≡ ok a → f a ≡ ok b → G)
    → G
taken (ok a) f h k = k a refl h
taken (err e) f h k = absurd (ground arith)

checked {κ} :
    {B : Type κ} {G : Type 0} (m : Check) (k : Result B) {b : B}
    → (m >> k) ≡ ok b
    → (m ≡ ok tt → k ≡ ok b → G)
    → G
checked (ok u) k h g = g refl h
checked (err e) k h g = absurd (ground arith)

spec_from_fields-valid :
    (fields : Fields) (ports : List PortSpec) (assumptions criteria : List Json) (s : SpecIr)
    → spec_from_fields fields ports assumptions criteria ≡ ok s
    → validate_spec s ≡ ok tt
unfolding spec_from_fields validate_spec validate_ports
spec_from_fields-valid fields ports assumptions criteria s h =
    checked
      (require_fields ("spec_id" ∷ "design_id" ∷ "top" ∷ "functionality" ∷ "objective" ∷ []) fields)
      _ h
      λ _ h. taken (version_of (field_or_null "schema_version" fields)) _ h λ v version h.
        taken (identifier_of "spec_id" (field_or_null "spec_id" fields)) _ h λ a spec_id h.
          taken (identifier_of "design_id" (field_or_null "design_id" fields)) _ h λ b design_id h.
            taken (identifier_of "top" (field_or_null "top" fields)) _ h λ c top h.
              taken (text_of "functionality" 8000 (field_or_null "functionality" fields)) _ h
                λ d functionality h.
                  taken (text_of "objective" 2000 (field_or_null "objective" fields)) _ h
                    λ e objective h.
                      checked
                        (raise_if (null ports) (value_error "SpecIR requires at least one port")) _
                        h
                        λ some_port h. taken (collect_names ports []) _ h λ names collected h.
                          taken (signal_of "clock" names (field_or_null "clock" fields)) _ h
                            λ f clock h.
                              taken (signal_of "reset" names (field_or_null "reset" fields)) _ h
                                λ g reset h.
                                  taken (constraints_of (get_field "constraints" fields)) _ h
                                    λ k constraints h.
                                      checked
                                        (raise_if (null criteria)
                                          (value_error "SpecIR requires acceptance_criteria"))
                                        _ h
                                        λ some_criterion h.
                                          taken
                                            (traverse (text_of "SpecIR list item" 2000) assumptions)
                                            _ h
                                            λ us assumed h.
                                              taken
                                                (traverse (text_of "SpecIR list item" 2000)
                                                  criteria)
                                                _ h
                                                λ ws accepted h.
                                                  rw
                                                    (
                                                      ← ok_inj
                                                          record {
                                                            spec_id = a;
                                                            design_id = b;
                                                            top = c;
                                                            functionality = d;
                                                            objective = e;
                                                            ports = ports;
                                                            clock = f;
                                                            reset = g;
                                                            constraints = k;
                                                            assumptions = us;
                                                            acceptance_criteria = ws;
                                                            schema_version = v;
                                                          }
                                                          s h,
                                                      version_of-valid
                                                          (field_or_null "schema_version" fields) v
                                                          version,
                                                      identifier_of-valid "spec_id"
                                                          (field_or_null "spec_id" fields) a
                                                          spec_id,
                                                      identifier_of-valid "design_id"
                                                          (field_or_null "design_id" fields) b
                                                          design_id,
                                                      identifier_of-valid "top"
                                                          (field_or_null "top" fields) c top,
                                                      text_of-valid "functionality" 8000
                                                          (field_or_null "functionality" fields) d
                                                          functionality,
                                                      text_of-valid "objective" 2000
                                                          (field_or_null "objective" fields) e
                                                          objective,
                                                      some_port,
                                                      collected,
                                                      signal_of-valid "clock" names
                                                          (field_or_null "clock" fields) f clock,
                                                      signal_of-valid "reset" names
                                                          (field_or_null "reset" fields) g reset,
                                                      (texts_of-valid "SpecIR list item" 2000
                                                          criteria ws accepted).1,
                                                      some_criterion,
                                                      for_each-append
                                                          (λ t.
                                                            validate_text "SpecIR list item" t 2000)
                                                          us ws
                                                          (texts_of-valid "SpecIR list item" 2000
                                                            assumptions us assumed).0
                                                          (texts_of-valid "SpecIR list item" 2000
                                                            criteria ws accepted).0,
                                                    )
                                                    refl

-- A specification that is read from a document passes `validate`.
pub spec_from_dict-valid :
    (j : Json) (s : SpecIr) → spec_from_dict j ≡ ok s → validate_spec s ≡ ok tt
unfolding spec_from_dict
spec_from_dict-valid j s h =
    let (fields, _, h) = >>=-eq-ok (known_payload "SpecIR" spec_keys j) _ h in
    let (items, _, h) = >>=-eq-ok (tuple_at "ports" fields) _ h in
    let (ports, _, h) = >>=-eq-ok (traverse port_from_dict items) _ h in
    let (assumptions, _, h) = >>=-eq-ok (tuple_at "assumptions" fields) _ h in
    let (criteria, _, h) = >>=-eq-ok (tuple_at "acceptance_criteria" fields) _ h in
    spec_from_fields-valid fields ports assumptions criteria s h
