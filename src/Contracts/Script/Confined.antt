-- ===== src/Contracts/Script/Confined.antt =====
-- The files that a `ScriptProposal` touches.
use agentic_rtlto_gds_design.Prelude.{
  String, ◌≡◌, refl, ap, ◌⊎◌, inl, inr, true, false, List, [], ◌∷◌, arith, ◌==◌, starts_with,
  Bool-cases, &&-eq-true,
}
use agentic_rtlto_gds_design.Prelude.Text.{is_empty}
use agentic_rtlto_gds_design.Prelude.Lists.{
  all, elem, All, for_each-All, Occurs, elem→Occurs, Occurs→elem,
}
use agentic_rtlto_gds_design.Prelude.Result.{ok, ok_inj, Result-cases}
use mathlib.Core.Path.{subst}
use agentic_rtlto_gds_design.Prelude.Lines.{split, splitlines, has_char}
use agentic_rtlto_gds_design.Contracts.Script.{
  relative_allowed_path, is_header, raw_path, strip_side, collect_paths, patch_paths,
  ScriptProposal, validate_patch, validate_proposal,
}

-- A relative path with no step up and no backslash.
pub record IsConfined (path : String) : Type 0 where
  pub not_empty : is_empty path ≡ false
  pub not_rooted : starts_with path "/" ≡ false
  pub no_backslash : has_char b'\\' path ≡ false
  pub no_step_up : ¬ Occurs ".." (split b'/' path)

relative_allowed_path-IsConfined :
    (path : String) → relative_allowed_path path ≡ ok tt → IsConfined path
unfolding relative_allowed_path
relative_allowed_path-IsConfined path h = record {
  not_empty = ground arith;
  not_rooted = ground arith;
  no_backslash = ground arith;
  no_step_up = λ o. ground (arith, Occurs→elem ".." (split b'/' path) o);
}

-- What a returning loop over the lines of a diff has collected.
record Collected (lines found out : List String) : Type 0 where
  kept : (x : String) → Occurs x found → Occurs x out
  added :
      (line : String)
      → Occurs line lines
      → is_header line ≡ true
      → (raw_path line == "/dev/null") ≡ false
      → Occurs (strip_side (raw_path line)) out

skip_line :
    (line : String) (lines found out : List String)
    → (is_header line ≡ false) ⊎ ((raw_path line == "/dev/null") ≡ true)
    → Collected lines found out
    → Collected (line ∷ lines) found out
skip_line line lines found out skipped c = record {
  kept = c.kept;
  added = λ l o head named. elim o [
    | inl e ↦ absurd (clash l e head named skipped)
    | inr o' ↦ c.added l o' head named
  ];
}
  where
    clash :
        (l : String)
        → line ≡ l
        → is_header l ≡ true
        → (raw_path l == "/dev/null") ≡ false
        → (is_header line ≡ false) ⊎ ((raw_path line == "/dev/null") ≡ true)
        → ⊥
    clash l e head named (inl no_head) = cc (ap (λ (k : String). is_header k) e, head, no_head)
    clash l e head named (inr null_path) =
        cc (ap (λ (k : String). raw_path k == "/dev/null") e, named, null_path)

collect_paths-Collected :
    (lines found out : List String) → collect_paths lines found ≡ ok out → Collected lines found out
unfolding collect_paths
collect_paths-Collected [] found out h = record {
  kept = λ x o. subst (Occurs x) (ok_inj found out h) o;
  added = λ l o head named. absurd o;
}
collect_paths-Collected (line ∷ lines) found out h = elim (Bool-cases (is_header line)) [
  | inr no_head ↦
      skip_line line lines found out (inl no_head)
        (collect_paths-Collected lines found out (ground arith))
  | inl head ↦ elim (Bool-cases (raw_path line == "/dev/null")) [
    | inl null_path ↦
        skip_line line lines found out (inr null_path)
          (collect_paths-Collected lines found out (ground arith))
    | inr named ↦
        let c =
          collect_paths-Collected lines (strip_side (raw_path line) ∷ found) out (ground arith) in
        record {
          kept = λ x o. c.kept x (inr o);
          added = λ l o head' named'. elim o [
            | inl e ↦
                subst (λ (k : String). Occurs (strip_side (raw_path k)) out) e
                  (c.kept (strip_side (raw_path line)) (inl refl))
            | inr o' ↦ c.added l o' head' named'
          ];
        }
  ]
]

all-elem-Occurs :
    (xs allowed : List String) (x : String)
    → all (λ p. elem p allowed) xs ≡ true
    → Occurs x xs
    → Occurs x allowed
all-elem-Occurs [] allowed x h o = absurd o
all-elem-Occurs (y ∷ ys) allowed x h o =
    let (a, b) = &&-eq-true (elem y allowed) _ h in
    elim o [
      | inl e ↦ subst (λ k. Occurs k allowed) e (elem→Occurs y allowed a)
      | inr o' ↦ all-elem-Occurs ys allowed x b o'
    ]

validate_patch-Occurs :
    (patch line : String) (allowed : List String)
    → validate_patch patch allowed ≡ ok tt
    → Occurs line (splitlines patch)
    → is_header line ≡ true
    → (raw_path line == "/dev/null") ≡ false
    → Occurs (strip_side (raw_path line)) allowed
unfolding validate_patch patch_paths
validate_patch-Occurs patch line allowed h o head named =
    elim (Result-cases (collect_paths (splitlines patch) [])) [
      | inr (x, e) ↦ absurd (ground arith)
      | inl (found, e) ↦
          all-elem-Occurs found allowed (strip_side (raw_path line)) (ground arith)
            ((collect_paths-Collected (splitlines patch) [] found e).added line o head named)
    ]

All-Occurs {ℓ} :
    (P : String → Type ℓ) (xs : List String) (x : String) → All P xs → Occurs x xs → P x
All-Occurs P [] x h o = absurd o
All-Occurs P (y ∷ ys) x h o = elim o [ inl e ↦ subst P e h.0 | inr o' ↦ All-Occurs P ys x h.1 o' ]

-- The file that a header line of an accepted proposal's patch names, `/dev/null` apart, is one of
-- `allowed_paths`, and its path is not empty, not rooted, and has no backslash and no component
-- `..`.
pub validate_proposal-IsConfined :
    (p : ScriptProposal) (line : String)
    → validate_proposal p ≡ ok tt
    → Occurs line (splitlines p.patch)
    → is_header line ≡ true
    → (raw_path line == "/dev/null") ≡ false
    → Occurs (strip_side (raw_path line)) p.allowed_paths × IsConfined (strip_side (raw_path line))
unfolding validate_proposal
validate_proposal-IsConfined p line h o head named =
    let inside = validate_patch-Occurs p.patch line p.allowed_paths (ground arith) o head named in
    (
      inside,
      relative_allowed_path-IsConfined (strip_side (raw_path line)) (
          All-Occurs (λ q. relative_allowed_path q ≡ ok tt) p.allowed_paths
            (strip_side (raw_path line))
            (for_each-All relative_allowed_path p.allowed_paths (ground arith)) inside),
    )
