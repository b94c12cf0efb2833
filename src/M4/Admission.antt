-- ===== src/M4/Admission.antt =====
-- What `create` of `M4Service` tests before it admits a proposal.
use mathlib.Core.Path.{subst}
use agentic_rtlto_gds_design.Prelude.{
  String, ◌≡◌, refl, sym, ap, ◌∙◌, ◌⊎◌, inl, inr, true, false, arith,
}
use agentic_rtlto_gds_design.Prelude.Text.{is_blank}
use agentic_rtlto_gds_design.Prelude.Lists.{elem, elem→Occurs}
use agentic_rtlto_gds_design.Prelude.Json.{Json, bool, int, float, str, arr, obj, Items, nil, cons}
use agentic_rtlto_gds_design.Prelude.Result.{ok, Result-cases}
use agentic_rtlto_gds_design.M4.{
  Proposal, registered_recipes, allowlist, registered_recipe, is_foreign, any_foreign, is_allowed,
  required_diff,
}

-- The paths that a proposal declares: a list of names from the allowlist.
abbrev pub AreAllowed : Items → Type 0
AreAllowed nil = Unit
AreAllowed (cons path touched) =
    ((path ≡ str "flow.tcl") ⊎ (path ≡ str "config.py")) × AreAllowed touched

abbrev pub DeclaresAllowed : Json → Type 0
DeclaresAllowed j = (touched : Items) × (j ≡ arr touched) × AreAllowed touched

-- What a proposal that is not rejected declares and carries. Its diff is not compared with the paths
-- that it declares.
pub record IsAdmitted (p : Proposal) : Type 0 where
  pub declares : DeclaresAllowed p.touched_paths
  pub diff : String
  pub diff_given : p.diff ≡ str diff
  pub not_blank : is_blank diff ≡ false

allowed_path :
    (path : Json) → is_foreign path ≡ ok false → (path ≡ str "flow.tcl") ⊎ (path ≡ str "config.py")
unfolding is_foreign
allowed_path (str q) h = elim (elem→Occurs q allowlist (ground arith)) [
  | inl e ↦ inl (ap str (sym e))
  | inr (inl e) ↦ inr (ap str (sym e))
  | inr (inr f) ↦ absurd f
]
allowed_path Json.null h = absurd (ground arith)
allowed_path (bool b) h = absurd (ground arith)
allowed_path (int n) h = absurd (ground arith)
allowed_path (float x) h = absurd (ground arith)
allowed_path (arr items) h = cc
allowed_path (obj fields) h = cc

any_foreign-AreAllowed : (touched : Items) → any_foreign touched ≡ ok false → AreAllowed touched
unfolding any_foreign
any_foreign-AreAllowed nil h = tt
any_foreign-AreAllowed (cons path touched) h = elim (Result-cases (is_foreign path)) [
  | inr (e, raised) ↦ absurd (ground arith)
  | inl (true, foreign) ↦ absurd (ground arith)
  | inl (false, ours) ↦
      (allowed_path path ours, any_foreign-AreAllowed touched (sym (rw ours refl) ∙ h))
]

pub is_allowed-DeclaresAllowed : (j : Json) → is_allowed j ≡ ok true → DeclaresAllowed j
unfolding is_allowed
is_allowed-DeclaresAllowed (arr touched) h = elim (Result-cases (any_foreign touched)) [
  | inr (e, raised) ↦ absurd (ground arith)
  | inl (true, foreign) ↦ absurd (ground arith)
  | inl (false, ours) ↦ (touched, refl, any_foreign-AreAllowed touched ours)
]
is_allowed-DeclaresAllowed Json.null h = absurd (ground arith)
is_allowed-DeclaresAllowed (bool b) h = absurd (ground arith)
is_allowed-DeclaresAllowed (int n) h = absurd (ground arith)
is_allowed-DeclaresAllowed (float x) h = absurd (ground arith)
is_allowed-DeclaresAllowed (str s) h = absurd (ground arith)
is_allowed-DeclaresAllowed (obj fields) h = absurd (ground arith)

pub required_diff-not_blank : (j : Json) (d : String) → required_diff j ≡ ok d → is_blank d ≡ false
unfolding required_diff
required_diff-not_blank (str s) d h = ground arith
required_diff-not_blank Json.null d h = cc
required_diff-not_blank (bool b) d h = cc
required_diff-not_blank (int n) d h = cc
required_diff-not_blank (float x) d h = cc
required_diff-not_blank (arr items) d h = cc
required_diff-not_blank (obj fields) d h = cc

pub registered_recipe-known :
    (j : Json) (recipe : String)
    → registered_recipe j ≡ ok recipe
    → elem recipe registered_recipes ≡ true
unfolding registered_recipe
registered_recipe-known (str s) recipe h = ground arith
registered_recipe-known Json.null recipe h = cc
registered_recipe-known (bool b) recipe h = cc
registered_recipe-known (int n) recipe h = cc
registered_recipe-known (float x) recipe h = cc
registered_recipe-known (arr items) recipe h = cc
registered_recipe-known (obj fields) recipe h = cc

-- What is admitted stays so when another field of the proposal is written.
pub carried :
    {p q : Proposal}
    → IsAdmitted p
    → q.touched_paths ≡ p.touched_paths
    → q.diff ≡ p.diff
    → IsAdmitted q
carried a t d = record {
  declares = subst DeclaresAllowed (sym t) a.declares;
  diff = a.diff;
  diff_given = d ∙ a.diff_given;
  not_blank = a.not_blank;
}
