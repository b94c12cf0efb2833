-- ===== src/Integrations/RandomControl/Draws.antt =====
-- What `_propose` of integrations/seeded_random_control/seeded_random_control_adapter.py draws.
use mathlib.Core.List.{Permᴰ}
use agentic_rtlto_gds_design.Prelude.{
  ℕ, zero, suc, ◌≤◌, String, ◌≡◌, refl, sym, ap, ◌∙◌, ◌⊎◌, inl, inr, false, List, [], ◌∷◌, ◌++◌,
  map, arith, leb, leb→le, Bool-cases,
}
use agentic_rtlto_gds_design.Prelude.Lists.{length, elem, All}
use agentic_rtlto_gds_design.Prelude.Json.{Json, Fields}
use agentic_rtlto_gds_design.Prelude.Document.{field_or_null, fields_to_dict, traverse}
use agentic_rtlto_gds_design.Prelude.Result.{
  ok, require, ok_inj, >>-eq-ok, >>=-eq-ok, require-eq-ok,
}
use agentic_rtlto_gds_design.Integrations.RandomControl.{
  Vector, Python, vector_digest, excluded_texts, value_list, prefix_each, prefix_all, product,
  assign, legal_vectors, take, Candidate, number, Trace, Domain, read_domain, draw, legal_of,
  propose,
}
use mathlib.Core.Path.{subst}

module _ {ℓ κ} {A : Type ℓ} (P : A → Type κ) where
  All-append : (xs ys : List A) → All P xs → All P ys → All P (xs ++ ys)
  All-append [] ys h g = g
  All-append (x ∷ xs) ys (h, hs) g = (h, All-append xs ys hs g)

  All-take : (n : ℕ) (xs : List A) → All P xs → All P (take n xs)
  unfolding take
  All-take zero xs h = tt
  All-take (suc n) [] h = tt
  All-take (suc n) (x ∷ xs) (h, hs) = (h, All-take n xs hs)

  All-Perm : {xs ys : List A} → Permᴰ xs ys → All P ys → All P xs
  All-Perm Permᴰ.nil h = tt
  All-Perm (Permᴰ.cons e d) (h, hs) = (subst P (sym e) h, All-Perm d hs)
  All-Perm (Permᴰ.swap e f) (h, (g, hs)) = (subst P (sym e) g, (subst P (sym f) h, hs))
  All-Perm (Permᴰ.trans d e) h = All-Perm d (All-Perm e h)

module _ {ℓ} {A : Type ℓ} where
  length-Perm : {xs ys : List A} → Permᴰ xs ys → length xs ≡ length ys
  length-Perm Permᴰ.nil = refl
  length-Perm (Permᴰ.cons e d) = ap suc (length-Perm d)
  length-Perm (Permᴰ.swap e f) = refl
  length-Perm (Permᴰ.trans d e) = length-Perm d ∙ length-Perm e

  drop : ℕ → List A → List A
  drop zero xs = xs
  drop (suc n) [] = []
  drop (suc n) (x ∷ xs) = drop n xs

  take-drop : (n : ℕ) (xs : List A) → (take n xs ++ drop n xs) ≡ xs
  unfolding take drop
  take-drop zero xs = refl
  take-drop (suc n) [] = refl
  take-drop (suc n) (x ∷ xs) = ap (λ ys. x ∷ ys) (take-drop n xs)

  length-take : (n : ℕ) (xs : List A) → n ≤ length xs → length (take n xs) ≡ n
  unfolding take
  length-take zero xs h = refl
  length-take (suc n) [] h = absurd (ground arith)
  length-take (suc n) (x ∷ xs) h = ap suc (length-take n xs (ground arith))

-- A value of a list
abbrev pub OneOf : Json → List Json → Type 0
OneOf v [] = ⊥
OneOf v (w ∷ vs) = (w ≡ v) ⊎ OneOf v vs

-- One value of each list
abbrev pub Chosen : List Json → List (List Json) → Type 0
Chosen [] [] = Unit
Chosen (v ∷ c) (vs ∷ value_lists) = OneOf v vs × Chosen c value_lists
Chosen _ _ = ⊥

prefix_each-Chosen :
    (v : Json) (vs : List Json) (cs value_lists : List (List Json))
    → OneOf v vs
    → All (λ c. Chosen c value_lists) cs
    → All (λ c. Chosen c (vs ∷ value_lists)) (prefix_each v cs)
unfolding prefix_each
prefix_each-Chosen v vs [] value_lists one h = tt
prefix_each-Chosen v vs (c ∷ cs) value_lists one (h, hs) =
    ((one, h), prefix_each-Chosen v vs cs value_lists one hs)

-- The values of a list that stand in `vs`
prefix_all-Chosen :
    (ws vs : List Json) (cs value_lists : List (List Json))
    → ((v : Json) → OneOf v ws → OneOf v vs)
    → All (λ c. Chosen c value_lists) cs
    → All (λ c. Chosen c (vs ∷ value_lists)) (prefix_all ws cs)
unfolding prefix_all
prefix_all-Chosen [] vs cs value_lists sub h = tt
prefix_all-Chosen (w ∷ ws) vs cs value_lists sub h =
    All-append (λ c. Chosen c (vs ∷ value_lists)) (prefix_each w cs) (prefix_all ws cs)
      (prefix_each-Chosen w vs cs value_lists (sub w (inl refl)) h)
      (prefix_all-Chosen ws vs cs value_lists (λ v o. sub v (inr o)) h)

product-Chosen :
    (value_lists : List (List Json)) → All (λ c. Chosen c value_lists) (product value_lists)
unfolding product
product-Chosen [] = (tt, tt)
product-Chosen (vs ∷ value_lists) =
    prefix_all-Chosen vs vs (product value_lists) value_lists (λ v o. o)
      (product-Chosen value_lists)

-- A vector of the domain whose fingerprint is not excluded
pub record IsLegal (py : Python) (fixed : Vector) (names excluded : List String)
    (value_lists : List (List Json)) (vector : Vector) : Type 0 where
  pub combination : List Json
  pub chosen : Chosen combination value_lists
  pub assigned : vector ≡ assign fixed names combination
  pub unseen : elem (vector_digest py vector) excluded ≡ false

legal_vectors-IsLegal :
    (py : Python) (fixed : Vector) (names excluded : List String)
    (value_lists cs : List (List Json))
    → All (λ c. Chosen c value_lists) cs
    → All (IsLegal py fixed names excluded value_lists) (legal_vectors py fixed names excluded cs)
unfolding legal_vectors
legal_vectors-IsLegal py fixed names excluded value_lists [] h = tt
legal_vectors-IsLegal py fixed names excluded value_lists (c ∷ cs) (h, hs) =
    let rest = legal_vectors-IsLegal py fixed names excluded value_lists cs hs in
    elim (Bool-cases (elem (vector_digest py (assign fixed names c)) excluded)) [
      | inl seen ↦ rw seen rest
      | inr new ↦
          rw new (record { combination = c; chosen = h; assigned = refl; unseen = new }, rest)
    ]

abbrev pub vectors_of : List Candidate → List Vector
vectors_of candidates = map (λ c. c.platform_parameters) candidates

vectors_of-number :
    (py : Python) (seed : ℕ) (digest : String) (excluded index : ℕ) (vs : List Vector)
    → vectors_of (number py seed digest excluded index vs) ≡ vs
unfolding number
vectors_of-number py seed digest excluded index [] = refl
vectors_of-number py seed digest excluded index (v ∷ vs) =
    ap (λ ws. v ∷ ws) (vectors_of-number py seed digest excluded (suc index) vs)

length-number :
    (py : Python) (seed : ℕ) (digest : String) (excluded index : ℕ) (vs : List Vector)
    → length (number py seed digest excluded index vs) ≡ length vs
unfolding number
length-number py seed digest excluded index [] = refl
length-number py seed digest excluded index (v ∷ vs) =
    ap suc (length-number py seed digest excluded (suc index) vs)

-- `random.Random(seed).shuffle` only changes the order.
abbrev pub Shuffles : Python → Type 0
Shuffles py = (seed : ℕ) (vs : List Vector) → Permᴰ (py.shuffle seed vs) vs

-- As many candidates as the request asks for, drawn from the legal vectors without replacement.
pub record Drawn (py : Python) (d : Domain) (value_lists : List (List Json))
    (candidates : List Candidate) (trace : Trace) : Type 0 where
  pub count : length candidates ≡ d.count
  pub rest : List Vector
  pub without_replacement : Permᴰ (vectors_of candidates ++ rest) (legal_of py d value_lists)
  pub legal :
      All
        (IsLegal py (fields_to_dict d.fixed) d.names (excluded_texts py d.excluded) value_lists)
        (vectors_of candidates)
  pub counted : trace.proposal_count ≡ d.count

module _ (py : Python) (shuffles : Shuffles py) (d : Domain) (value_lists : List (List Json)) where
  legal : List Vector
  legal = legal_of py d value_lists

  -- The candidates that `draw` makes of the shuffled vectors
  numbered : String → ℕ → List Candidate
  numbered digest excluded =
      number py d.seed digest excluded 0 (take d.count (py.shuffle d.seed legal))

  numbered-count :
      (digest : String) (excluded : ℕ)
      → d.count ≤ length legal
      → length (numbered digest excluded) ≡ d.count
  unfolding numbered
  numbered-count digest excluded enough =
      length-number py d.seed digest excluded 0 (take d.count (py.shuffle d.seed legal))
      ∙ length-take d.count (py.shuffle d.seed legal)
          (rw (length-Perm (shuffles d.seed legal)) enough)

  numbered-Perm :
      (digest : String) (excluded : ℕ)
      → Permᴰ
          (vectors_of (numbered digest excluded) ++ drop d.count (py.shuffle d.seed legal))
          legal
  unfolding numbered
  numbered-Perm digest excluded =
      rw
        (
          vectors_of-number py d.seed digest excluded 0 (take d.count (py.shuffle d.seed legal)),
          take-drop d.count (py.shuffle d.seed legal),
        )
        (shuffles d.seed legal)

  numbered-legal :
      (digest : String) (excluded : ℕ)
      → All
          (IsLegal py (fields_to_dict d.fixed) d.names (excluded_texts py d.excluded) value_lists)
          (vectors_of (numbered digest excluded))
  unfolding numbered legal
  numbered-legal digest excluded =
      rw (vectors_of-number py d.seed digest excluded 0 (take d.count (py.shuffle d.seed legal))) (
        All-take _ d.count (py.shuffle d.seed legal) (
          All-Perm _ (shuffles d.seed legal) (
            legal_vectors-IsLegal py (fields_to_dict d.fixed) d.names (excluded_texts py d.excluded)
              value_lists (product value_lists) (product-Chosen value_lists))))

  draw-Drawn :
      (candidates : List Candidate) (trace : Trace)
      → draw py d (legal_of py d value_lists) ≡ ok (candidates, trace)
      → Drawn py d value_lists candidates trace
  unfolding draw numbered legal
  draw-Drawn candidates trace h =
      let (enough, made) = >>-eq-ok (require (leb d.count (length legal)) _) _ h in
      let same = ok_inj _ (candidates, trace) made in
      let le = leb→le d.count (length legal) (require-eq-ok _ _ enough) in
      subst (λ p. Drawn py d value_lists p.0 p.1) same
        record {
          count = numbered-count _ _ le;
          rest = drop d.count (py.shuffle d.seed legal);
          without_replacement = numbered-Perm _ _;
          legal = numbered-legal _ _;
          counted = numbered-count _ _ le;
        }

-- A proposal that is accepted has exactly the number of candidates that the request asks for. Their
-- parameter vectors are drawn without replacement from the vectors of the finite domain whose
-- fingerprints are not excluded: with the vectors that are left they are a permutation of those, and
-- each takes one admissible value for every name. The shuffle only has to keep its elements.
pub propose-Drawn :
    (py : Python) (shuffles : Shuffles py) (inputs : Fields) (candidates : List Candidate)
    (trace : Trace)
    → propose py inputs ≡ ok (candidates, trace)
    → (d : Domain) × (value_lists : List (List Json)) × (read_domain inputs ≡ ok d)
      × (traverse (λ name. value_list py (field_or_null name d.values)) d.names ≡ ok value_lists)
      × Drawn py d value_lists candidates trace
unfolding propose
propose-Drawn py shuffles inputs candidates trace h =
    let (_, h) = >>-eq-ok _ _ h in
    let (d, read, h) = >>=-eq-ok (read_domain inputs) _ h in
    let (value_lists, listed, h) =
      >>=-eq-ok (traverse (λ name. value_list py (field_or_null name d.values)) d.names) _ h in
    (d, value_lists, read, listed, draw-Drawn py shuffles d value_lists candidates trace h)
