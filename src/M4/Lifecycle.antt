-- ===== src/M4/Lifecycle.antt =====
-- The life of a proposal of `M4Service`.
use mathlib.Core.Path.{subst₂}
use agentic_rtlto_gds_design.Prelude.{
  String, ◌≡◌, ◌≢◌, refl, sym, ap, ◌∙◌, ◌⊎◌, inl, inr, Bool, true, false, some, List, [], ◌∷◌,
  arith, ◌==◌, eq_iff, Bool-cases, Option-cases,
}
use agentic_rtlto_gds_design.Prelude.Text.{is_blank, ◌<>◌}
use agentic_rtlto_gds_design.Prelude.Lists.{elem}
use agentic_rtlto_gds_design.Prelude.Document.{field_or_null}
use agentic_rtlto_gds_design.Prelude.Json.{Fields}
use agentic_rtlto_gds_design.Prelude.Dict.{lookup, insert, lookup-insert, lookup-insert_self}
use agentic_rtlto_gds_design.Prelude.Result.{ok, Result-cases}
use agentic_rtlto_gds_design.Prelude.Action.{lift_state}
use agentic_rtlto_gds_design.M4.Admission.{
  IsAdmitted, is_allowed-DeclaresAllowed, required_diff-not_blank, registered_recipe-known, carried,
}
use agentic_rtlto_gds_design.M4.{
  rejected, proposed, confirmed, submitted, Proposal, M4Store, M4Client, registered_recipes,
  registered_recipe, is_allowed, required_diff, touched_of, save, judge, get, create, confirm, run,
  accepted, refused, recipe_task,
}

-- A stored proposal names a registered recipe and stands under its own id, one that is not rejected
-- declares paths of the allowlist only, and one that was submitted has a run.
pub record IsContained (key : String) (p : Proposal) : Type 0 where
  pub own_key : p.proposal_id ≡ key
  pub registered : elem p.recipe_id registered_recipes ≡ true
  pub allowed : (p.state ≡ rejected) ⊎ IsAdmitted p
  pub has_run : (p.state ≢ submitted) ⊎ ((r : String) × (p.run_id ≡ some r))

abbrev pub AllContained : M4Store → Type 0
AllContained s = (k : String) (p : Proposal) → lookup k s ≡ some p → IsContained k p

-- The end states of an operation.
insert-AllContained :
    (k : String) (p : Proposal) (s : M4Store)
    → AllContained s
    → IsContained k p
    → AllContained (insert k p s)
insert-AllContained k p s h c j q e = elim (Bool-cases (k == j)) [
  | inl same ↦ subst₂ IsContained ((eq_iff k j).0 same) (ground (arith, lookup-insert k j p s)) c
  | inr other ↦ h j q (sym (lookup-insert k j p s ∙ rw other refl) ∙ e)
]

admitted : {k : String} (p : Proposal) → IsContained k p → p.state ≢ rejected → IsAdmitted p
admitted p c ne = elim c.allowed [ inl e ↦ absurd (ne e) | inr t ↦ t ]

module _ (P : M4Store → Type 0) where
  judge_ends :
      (uuid owner_id recipe : String) (payload : Fields) (allowed : Bool) (s : M4Store)
      → P s
      → (allowed ≡ true
          → (diff : String) → is_blank diff ≡ false
          → P (insert ("m4-" <> uuid) (accepted uuid owner_id recipe (touched_of payload) diff) s))
      → P (insert ("m4-" <> uuid) (refused uuid owner_id recipe payload) s)
      → P (judge uuid owner_id recipe payload allowed s).1
  unfolding judge save
  judge_ends uuid owner_id recipe payload false s h k l = l
  judge_ends uuid owner_id recipe payload true s h k l =
      lift_state P (required_diff (field_or_null "diff" payload)) _ s h
        λ diff given. k refl diff (required_diff-not_blank _ diff given)

  create_ends :
      (uuid owner_id : String) (payload : Fields) (s : M4Store)
      → P s
      → ((recipe diff : String)
          → elem recipe registered_recipes ≡ true
          → is_allowed (touched_of payload) ≡ ok true
          → is_blank diff ≡ false
          → P (insert ("m4-" <> uuid) (accepted uuid owner_id recipe (touched_of payload) diff) s))
      → ((recipe : String)
          → elem recipe registered_recipes ≡ true
          → P (insert ("m4-" <> uuid) (refused uuid owner_id recipe payload) s))
      → P (create uuid owner_id payload s).1
  unfolding create
  create_ends uuid owner_id payload s h k l =
      lift_state P (registered_recipe (field_or_null "recipe_id" payload)) _ s h λ recipe named.
        lift_state P (is_allowed (touched_of payload)) _ s h λ allowed fits.
          let known = registered_recipe-known (field_or_null "recipe_id" payload) recipe named in
          judge_ends uuid owner_id recipe payload allowed s h
            (λ yes diff full. k recipe diff known (fits ∙ ap ok yes) full) (l recipe known)

  confirm_ends :
      (id owner_id : String) (s : M4Store)
      → P s
      → ((p : Proposal)
          → lookup id s ≡ some p
          → p.state ≡ proposed
          → P (insert p.proposal_id (record p { state = confirmed }) s))
      → P (confirm id owner_id s).1
  unfolding confirm get
  confirm_ends id owner_id s h k = elim (Option-cases (lookup id s)) [
    | inl e ↦ ground arith
    | inr (p, e) ↦ let done = k p e in ground arith
  ]

  run_ends :
      (v2 : M4Client) (id owner_id : String) (s : M4Store)
      → P s
      → ((p : Proposal) (run_id : String)
          → lookup id s ≡ some p
          → p.state ≡ confirmed
          → P (insert p.proposal_id (record p { run_id = some run_id; state = submitted }) s))
      → P (run v2 id owner_id s).1
  unfolding run get
  run_ends v2 id owner_id s h k = elim (Option-cases (lookup id s)) [
    | inl e ↦ ground arith
    | inr (p, e) ↦ elim (Result-cases (v2.upload p.diff)) [
      | inr (x, u) ↦ ground arith
      | inl (input_id, u) ↦
          elim (Result-cases (v2.submit (recipe_task id p input_id) ("m4-" <> id))) [
            | inr (x, r) ↦ ground arith
            | inl (run_id, r) ↦ let done = k p run_id e in ground arith
          ]
    ]
  ]

-- A request to the service, with the fresh `uuid4` or the client that it uses.
pub data Request : Type 0 where
  propose : String → String → Fields → Request
  approve : String → String → Request
  execute : M4Client → String → String → Request

unfoldable pub serve : Request → M4Store → M4Store
serve (propose uuid owner_id payload) s = (create uuid owner_id payload s).1
serve (approve id owner_id) s = (confirm id owner_id s).1
serve (execute v2 id owner_id) s = (run v2 id owner_id s).1

unfoldable pub serve_all : List Request → M4Store → M4Store
unfolding serve
serve_all [] s = s
serve_all (r ∷ requests) s = serve_all requests (serve r s)

create-AllContained :
    (uuid owner_id : String) (payload : Fields) (s : M4Store)
    → AllContained s
    → AllContained (create uuid owner_id payload s).1
create-AllContained uuid owner_id payload s h =
    create_ends AllContained uuid owner_id payload s h
      (λ recipe diff known fits full. insert-AllContained _ _ s h record {
        own_key = refl;
        registered = known;
        allowed = inr record {
          declares = is_allowed-DeclaresAllowed (touched_of payload) fits;
          diff = diff;
          diff_given = refl;
          not_blank = full;
        };
        has_run = inl cc;
      })
      (λ recipe known.
        insert-AllContained _ _ s h
          record { own_key = refl; registered = known; allowed = inl refl; has_run = inl cc })

serve-AllContained : (r : Request) (s : M4Store) → AllContained s → AllContained (serve r s)
unfolding serve
serve-AllContained (propose uuid owner_id payload) s h =
    create-AllContained uuid owner_id payload s h
serve-AllContained (approve id owner_id) s h =
    confirm_ends AllContained id owner_id s h λ p e at_state.
      let c = h id p e in
      insert-AllContained p.proposal_id _ s h record {
        own_key = refl;
        registered = c.registered;
        allowed = inr (carried (admitted p c (λ x. ground arith)) refl refl);
        has_run = inl cc;
      }
serve-AllContained (execute v2 id owner_id) s h =
    run_ends AllContained v2 id owner_id s h λ p run_id e at_state.
      let c = h id p e in
      insert-AllContained p.proposal_id _ s h record {
        own_key = refl;
        registered = c.registered;
        allowed = inr (carried (admitted p c (λ x. ground arith)) refl refl);
        has_run = inr (run_id, refl);
      }

-- Whatever requests arrive, valid or not, every stored proposal names a registered recipe and stands
-- under its own id, one that is not rejected declares only `flow.tcl` and `config.py` as the paths
-- that it touches and carries a text that is not blank as its diff, and one that was submitted has a
-- run, provided that this held before.
pub serve_all-AllContained :
    (requests : List Request) (s : M4Store) → AllContained s → AllContained (serve_all requests s)
unfolding serve_all
serve_all-AllContained [] s h = h
serve_all-AllContained (r ∷ requests) s h =
    serve_all-AllContained requests (serve r s) (serve-AllContained r s h)

-- A proposal that `run` may submit, and what v2 answered to its upload and to its task.
pub record IsSubmitted (v2 : M4Client) (id owner_id : String) (p : Proposal) (run_id : String)
    : Type 0 where
  pub at_state : p.state ≡ confirmed
  pub owned : p.owner_id ≡ owner_id
  pub admission : IsAdmitted p
  pub input_id : String
  pub uploaded : v2.upload p.diff ≡ ok input_id
  pub submitted : v2.submit (recipe_task id p input_id) ("m4-" <> id) ≡ ok run_id

-- In a store whose proposals are contained, `run` returns only for a proposal of the caller that was
-- confirmed, that declares allowed paths only, and whose diff is a text that is not blank. That diff
-- is what v2 took as the upload, and its id is in the task that v2 took. The proposal that `run`
-- returns and stores is the same one, submitted, with the run that v2 named.
pub run-confirmed :
    (v2 : M4Client) (id owner_id : String) (s : M4Store) (q : Proposal)
    → AllContained s
    → (run v2 id owner_id s).0 ≡ ok q
    → (p : Proposal) × (run_id : String) × (lookup id s ≡ some p)
      × IsSubmitted v2 id owner_id p run_id
      × (q ≡ record p { run_id = some run_id; state = submitted })
      × (lookup id (run v2 id owner_id s).1 ≡ some q)
unfolding run get
run-confirmed v2 id owner_id s q contained h = elim (Option-cases (lookup id s)) [
  | inl e ↦ absurd (ground arith)
  | inr (p, e) ↦ elim (Result-cases (v2.upload p.diff)) [
    | inr (x, u) ↦ absurd (ground arith)
    | inl (input_id, u) ↦
        elim (Result-cases (v2.submit (recipe_task id p input_id) ("m4-" <> id))) [
          | inr (x, r) ↦ absurd (ground arith)
          | inl (run_id, r) ↦
              let c = contained id p e in
              let at_state : p.state ≡ confirmed = ground arith in
              (
                p,
                run_id,
                e,
                record {
                  at_state = at_state;
                  owned = ground (arith, eq_iff p.owner_id owner_id);
                  admission = admitted p c (λ x. ground arith);
                  input_id = input_id;
                  uploaded = u;
                  submitted = r;
                },
                ground arith,
                ground (
                  arith,
                  c.own_key,
                  lookup-insert_self id (record p { run_id = some run_id; state = submitted }) s,
                ),
              )
        ]
  ]
]
