-- ===== src/Contracts/RtlFrontend/Laws.antt =====
-- The ports of a `SpecIR` of rtl_frontend.py.
use agentic_rtlto_gds_design.Prelude.{
  String, ◌≡◌, refl, ◌⊎◌, inl, inr, false, Option, none, some, List, [], ◌∷◌, arith,
}
use agentic_rtlto_gds_design.Prelude.Lists.{
  null, elem, Occurs, IsDistinct, elem→Occurs, Occurs→elem,
}
use agentic_rtlto_gds_design.Prelude.Result.{Result-cases, ok, raise_if, >>-eq-ok}
use agentic_rtlto_gds_design.Contracts.RtlFrontend.{
  PortSpec, SpecIr, validate_port, collect_names, validate_signal, validate_spec, validate_ports,
}

abbrev pub port_names : List PortSpec → List String
port_names [] = []
port_names (p ∷ ports) = p.name ∷ port_names ports

-- What a returning loop over `ports` says of them, of the names seen before, and of the result.
record Collected (ports : List PortSpec) (seen out : List String) : Type 0 where
  new_names : IsDistinct (port_names ports)
  unseen : (x : String) → Occurs x (port_names ports) → ¬ Occurs x seen
  found : (x : String) → Occurs x out → Occurs x (port_names ports) ⊎ Occurs x seen

collect_names-Collected :
    (ports : List PortSpec) (seen : List String) {out : List String}
    → collect_names ports seen ≡ ok out
    → Collected ports seen out
unfolding collect_names
collect_names-Collected [] seen h = record {
  new_names = tt;
  unseen = λ x o. absurd o;
  found = λ x o. ground (arith);
}
collect_names-Collected (p ∷ ports) seen h =
    let (hv, h') = >>-eq-ok (validate_port p) _ h in
    let (hn, hr) = >>-eq-ok (raise_if (elem p.name seen) _) _ h' in
    let rest = collect_names-Collected ports (p.name ∷ seen) hr in
    record {
      new_names = ((λ o. rest.unseen p.name o (inl refl)), rest.new_names);
      unseen = λ x o os. elim o [
        | inl e ↦ ground (arith, Occurs→elem x seen os)
        | inr o' ↦ rest.unseen x o' (inr os)
      ];
      found = λ x o. ground (arith, rest.found x o);
    }

-- A validated signal is one of the names.
validate_signal-Occurs :
    (label : String) (names : List String) (value : Option String) (v : String)
    → validate_signal label names value ≡ ok tt
    → value ≡ some v
    → Occurs v names
unfolding validate_signal
validate_signal-Occurs label names none v h e = cc
validate_signal-Occurs label names (some w) v h e = ground (arith, elem→Occurs w names)

-- A signal, where it is given, is one of the names.
abbrev pub IsDeclared : Option String → List String → Type 0
IsDeclared none names = Unit
IsDeclared (some v) names = Occurs v names

declared :
    (value : Option String) (names : List String)
    → ((v : String) → value ≡ some v → Occurs v names)
    → IsDeclared value names
declared none names f = tt
declared (some v) names f = f v refl

-- The ports of an accepted specification: there is one, their names differ, and each passed its
-- own check.
pub record HasPorts (s : SpecIr) : Type 0 where
  pub some_port : null s.ports ≡ false
  pub names : IsDistinct (port_names s.ports)
  pub clock_declared : IsDeclared s.clock (port_names s.ports)
  pub reset_declared : IsDeclared s.reset (port_names s.ports)

HasPorts-ports :
    (s : SpecIr) (names : List String)
    → collect_names s.ports [] ≡ ok names
    → null s.ports ≡ false
    → validate_signal "clock" names s.clock ≡ ok tt
    → validate_signal "reset" names s.reset ≡ ok tt
    → HasPorts s
HasPorts-ports s names collected nonempty clock reset =
    let c = collect_names-Collected s.ports [] collected in
    record {
      some_port = nonempty;
      names = c.new_names;
      clock_declared =
          declared s.clock (port_names s.ports) λ v e.
            ground (arith, c.found v (validate_signal-Occurs "clock" names s.clock v clock e));
      reset_declared =
          declared s.reset (port_names s.ports) λ v e.
            ground (arith, c.found v (validate_signal-Occurs "reset" names s.reset v reset e));
    }

ports-HasPorts : (s : SpecIr) → validate_ports s ≡ ok tt → HasPorts s
unfolding validate_ports
ports-HasPorts s h = elim (Result-cases (collect_names s.ports [])) [
  | inl (names, e) ↦ HasPorts-ports s names e (ground arith) (ground arith) (ground arith)
  | inr (x, e) ↦ absurd (ground arith)
]

-- A `SpecIR` that passes `validate` has a port, no two ports of one name, and a clock and a reset
-- that, where they are given, name a declared port.
pub validate_spec-HasPorts : (s : SpecIr) → validate_spec s ≡ ok tt → HasPorts s
unfolding validate_spec
validate_spec-HasPorts s h = ports-HasPorts s (ground arith)
