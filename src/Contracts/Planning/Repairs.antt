-- ===== src/Contracts/Planning/Repairs.antt =====
-- `RepairAction.validate` of packages/contracts/src/openroad_platform_contracts/platform.py: what a
-- repair action that it accepts may ask for.
use mathlib.Core.Path.{subst, sym}
use agentic_rtlto_gds_design.Prelude.{
  ℕ, suc, ◌*◌, ◌^◌, ◌≤◌, String, ◌≡◌, ◌≢◌, refl, ◌⊎◌, inl, inr, Bool, true, false, some, List, [],
  ◌∷◌, arith, eq_iff, ◌==◌, Bool-cases, Option-cases, &&-eq-true,
}
use agentic_rtlto_gds_design.Prelude.Lists.{all, null, elem, All}
use agentic_rtlto_gds_design.Prelude.Json.{
  pos, negsuc, finite, infinity, minus_infinity, nan, Json, bool, int, float,
}
use agentic_rtlto_gds_design.Prelude.Dict.{Dict, lookup}
use agentic_rtlto_gds_design.Prelude.Result.{ok}
use agentic_rtlto_gds_design.Contracts.Planning.{
  RepairAction, template_of, keys, same_keys, int_within, number_within, parameter_within,
  validate_bounds, validate_template, validate_repair,
}

-- An integer of a range that begins above 0; `True` is the integer 1.
abbrev pub IsInt : ℕ → ℕ → Json → Type 0
IsInt lo hi value =
    (n : ℕ) × (lo ≤ n) × (n ≤ hi) × ((value ≡ int (pos n)) ⊎ ((value ≡ bool true) × (n ≡ 1)))

-- A float of a range that begins above 0, as `mantissa * 2 ^ exponent`.
abbrev pub IsFloat : ℕ → ℕ → Json → Type 0
IsFloat lo hi value =
    (m : ℕ) × (e : ℕ) × (((value ≡ float (finite (pos m) (pos e)))
        × (lo ≤ m * 2 ^ e)
        × (m * 2 ^ e ≤ hi))
      ⊎ ((value ≡ float (finite (pos m) (negsuc e))) × (lo * 2 ^ suc e ≤ m) × (m ≤ hi * 2 ^ suc e)))

-- The dictionary has the key and no other, and what it holds under the key satisfies `P`.
abbrev pub OnlyKey : String → (Json → Type 0) → Dict Json → Type 0
OnlyKey key P d =
    All (λ entry. entry.0 ≡ key) d × ((value : Json) × (lookup key d ≡ some value) × P value)

-- An action of the repair policy with its parameters.
pub data FitsPolicy (d : Dict Json) : String → Type 0 where
  retries : d ≡ [] → FitsPolicy d "retry"
  extends_time : OnlyKey "timeout_seconds" (IsInt 1 86400) d → FitsPolicy d "increase_timeout"
  lowers_utilization :
      OnlyKey "core_utilization_pct" (λ v. IsInt 1 99 v ⊎ IsFloat 1 99 v) d
      → FitsPolicy d "lower_core_utilization"
  enlarges_area :
      OnlyKey "minimum_die_size_um" (λ v. IsInt 5 200 v ⊎ IsFloat 5 200 v) d
      → FitsPolicy d "increase_floorplan_area"
  stops : OnlyKey "terminal_reason" (λ v. Unit) d → FitsPolicy d "stop"

int_within-IsInt : (lo hi : ℕ) (v : Json) → 1 ≤ lo → int_within lo hi v ≡ true → IsInt lo hi v
unfolding int_within
int_within-IsInt lo hi (int (pos n)) low h = (n, ground arith, ground arith, inl refl)
int_within-IsInt lo hi (int (negsuc n)) low h = cc
int_within-IsInt lo hi (bool true) low h = (1, ground arith, ground arith, inr (refl, refl))
int_within-IsInt lo hi (bool false) low h = absurd (ground arith)
int_within-IsInt lo hi Json.null low h = cc
int_within-IsInt lo hi (float x) low h = cc
int_within-IsInt lo hi (Json.str s) low h = cc
int_within-IsInt lo hi (Json.arr items) low h = cc
int_within-IsInt lo hi (Json.obj fields) low h = cc

number_within-IsNumber :
    (lo hi : ℕ) (v : Json) → 1 ≤ lo → number_within lo hi v ≡ true → IsInt lo hi v ⊎ IsFloat lo hi v
unfolding number_within
number_within-IsNumber lo hi (float (finite (pos m) (pos e))) low h =
    inr (m, e, inl (refl, ground arith, ground arith))
number_within-IsNumber lo hi (float (finite (pos m) (negsuc e))) low h =
    inr (m, e, inr (refl, ground arith, ground arith))
number_within-IsNumber lo hi (float (finite (negsuc m) e)) low h = cc
number_within-IsNumber lo hi (float infinity) low h = cc
number_within-IsNumber lo hi (float minus_infinity) low h = cc
number_within-IsNumber lo hi (float nan) low h = cc
number_within-IsNumber lo hi (int n) low h = inl (int_within-IsInt lo hi (int n) low h)
number_within-IsNumber lo hi (bool b) low h = inl (int_within-IsInt lo hi (bool b) low h)
number_within-IsNumber lo hi Json.null low h = inl (int_within-IsInt lo hi Json.null low h)
number_within-IsNumber lo hi (Json.str s) low h = inl (int_within-IsInt lo hi (Json.str s) low h)
number_within-IsNumber lo hi (Json.arr s) low h = inl (int_within-IsInt lo hi (Json.arr s) low h)
number_within-IsNumber lo hi (Json.obj s) low h = inl (int_within-IsInt lo hi (Json.obj s) low h)

no_keys : (d : Dict Json) → same_keys d [] ≡ true → d ≡ []
unfolding same_keys
no_keys [] h = refl
no_keys (entry ∷ d) h = cc

among-All :
    (k : String) (d : Dict Json)
    → all (λ j. elem j (k ∷ [])) (keys d) ≡ true
    → All (λ entry. entry.0 ≡ k) d
among-All k [] h = tt
among-All k ((j, v) ∷ d) h =
    let (a, b) = &&-eq-true (elem j (k ∷ [])) _ h in (ground (arith, eq_iff k j), among-All k d b)

elem-found :
    (k : String) (d : Dict Json) → elem k (keys d) ≡ true → (v : Json) × (lookup k d ≡ some v)
unfolding lookup
elem-found k [] h = cc
elem-found k ((j, v) ∷ d) h = elim (Bool-cases (j == k)) [
  | inl same ↦ (v, ground arith)
  | inr other ↦ let (w, e) = elem-found k d (ground arith) in (w, ground arith)
]

one_key :
    (k : String) (d : Dict Json)
    → same_keys d (k ∷ []) ≡ true
    → All (λ entry. entry.0 ≡ k) d × ((v : Json) × (lookup k d ≡ some v))
unfolding same_keys
one_key k d h =
    let (a, b) = &&-eq-true (all (λ j. elem j (k ∷ [])) (keys d)) _ h in
    (among-All k d a, elem-found k d (&&-eq-true (elem k (keys d)) _ b).0)

parameter_within-some :
    (test : Json → Bool) (k : String) (d : Dict Json)
    → parameter_within test k d ≡ true
    → (value : Json) × (lookup k d ≡ some value) × (test value ≡ true)
parameter_within-some test k d h = ground arith

-- A parameter of a template that passes its test
only_key :
    (test : Json → Bool) (P : Json → Type 0) (k : String) (d : Dict Json)
    → ((v : Json) → test v ≡ true → P v)
    → same_keys d (k ∷ []) ≡ true
    → parameter_within test k d ≡ true
    → OnlyKey k P d
only_key test P k d right same inside =
    let (value, found, good) = parameter_within-some test k d inside in
    ((one_key k d same).0, (value, found, right value good))

module _ (d : Dict Json) where
  timeout_bound :
      validate_bounds "increase_timeout" d ≡ ok tt
      → parameter_within (int_within 1 86400) "timeout_seconds" d ≡ true
  unfolding validate_bounds
  timeout_bound h = ground arith

  utilization_bound :
      validate_bounds "lower_core_utilization" d ≡ ok tt
      → parameter_within (number_within 1 99) "core_utilization_pct" d ≡ true
  unfolding validate_bounds
  utilization_bound h = ground arith

  area_bound :
      validate_bounds "increase_floorplan_area" d ≡ ok tt
      → parameter_within (number_within 5 200) "minimum_die_size_um" d ≡ true
  unfolding validate_bounds
  area_bound h = ground arith

-- The templates, each with what its keys and bounds amount to
template-FitsPolicy :
    (action : String) (d : Dict Json) (allowed : List String)
    → template_of action ≡ some allowed
    → same_keys d allowed ≡ true
    → validate_bounds action d ≡ ok tt
    → FitsPolicy d action
unfolding template_of
template-FitsPolicy action d allowed t same bounds = elim (Bool-cases (action == "retry")) [
  | inl a ↦ at_action "retry" a (λ _. retries (no_keys d (allow [] (ground arith))))
  | inr a ↦ elim (Bool-cases (action == "increase_timeout")) [
    | inl b ↦ at_action "increase_timeout" b λ inside. extends_time (
        only_key (int_within 1 86400) (IsInt 1 86400) "timeout_seconds" d
          (λ v. int_within-IsInt 1 86400 v (omega arith))
          (allow ("timeout_seconds" ∷ []) (ground arith)) (timeout_bound d inside))
    | inr b ↦ elim (Bool-cases (action == "lower_core_utilization")) [
      | inl c ↦ at_action "lower_core_utilization" c λ inside. lowers_utilization (
          only_key (number_within 1 99) _ "core_utilization_pct" d
            (λ v. number_within-IsNumber 1 99 v (omega arith))
            (allow ("core_utilization_pct" ∷ []) (ground arith)) (utilization_bound d inside))
      | inr c ↦ elim (Bool-cases (action == "increase_floorplan_area")) [
        | inl e ↦ at_action "increase_floorplan_area" e λ inside. enlarges_area (
            only_key (number_within 5 200) _ "minimum_die_size_um" d
              (λ v. number_within-IsNumber 5 200 v (omega arith))
              (allow ("minimum_die_size_um" ∷ []) (ground arith)) (area_bound d inside))
        | inr e ↦ elim (Bool-cases (action == "stop")) [
          | inl f ↦ at_action "stop" f λ _.
              let (only, (value, found)) =
                one_key "terminal_reason" d (allow ("terminal_reason" ∷ []) (ground arith)) in
              stops (only, (value, found, tt))
          | inr f ↦ absurd (ground arith)
        ]
      ]
    ]
  ]
]
  where
    at_action :
        (name : String)
        → (action == name) ≡ true
        → (validate_bounds name d ≡ ok tt → FitsPolicy d name)
        → FitsPolicy d action
    at_action name e k =
        let same_name = (eq_iff action name).0 e in
        subst (FitsPolicy d) (sym same_name)
          (k (subst (λ x. validate_bounds x d ≡ ok tt) same_name bounds))

    allow : (keys : List String) → allowed ≡ keys → same_keys d keys ≡ true
    allow keys e = subst (λ x. same_keys d x ≡ true) e same

validate_template-parts :
    (action : String) (d : Dict Json) (refs : List String)
    → validate_template action d refs ≡ ok tt
    → (null refs ≡ false)
      × ((allowed : List String) × (template_of action ≡ some allowed)
          × (same_keys d allowed ≡ true)
          × (validate_bounds action d ≡ ok tt))
unfolding validate_template
validate_template-parts action d refs h = elim (Option-cases (template_of action)) [
  | inl none_given ↦ absurd (ground arith)
  | inr (allowed, e) ↦ (ground arith, (allowed, e, ground arith, ground arith))
]

-- A repair action that is accepted gives evidence, is one of the five allowlisted actions and has
-- exactly the parameter of that action: a timeout is an integer from 1 to 86400, a core utilization
-- a number from 1 to 99, a die size a number from 5 to 200, and a retry has no parameter.
pub validate_repair-FitsPolicy :
    (a : RepairAction)
    → validate_repair a ≡ ok tt
    → (a.evidence_refs ≢ []) × FitsPolicy a.parameters a.action_type
unfolding validate_repair
validate_repair-FitsPolicy a h =
    let (given, (allowed, t, same, bounds)) =
      validate_template-parts a.action_type a.parameters a.evidence_refs (ground arith) in
    (λ e. ground arith, template-FitsPolicy a.action_type a.parameters allowed t same bounds)
