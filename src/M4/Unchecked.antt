-- ===== src/M4/Unchecked.antt =====
-- The diff of a proposal of `M4Service`, which `create`, `confirm` and `run` do not read.
use agentic_rtlto_gds_design.Prelude.{String, ◌≡◌, refl, true, false, some, arith, eq_refl}
use agentic_rtlto_gds_design.Prelude.Text.{is_blank, ◌<>◌}
use agentic_rtlto_gds_design.Prelude.Lists.{elem}
use agentic_rtlto_gds_design.Prelude.Json.{str, arr, nil, Fields, end, field}
use agentic_rtlto_gds_design.Prelude.Dict.{lookup, insert, lookup-insert_self}
use agentic_rtlto_gds_design.Prelude.Result.{ok}
use agentic_rtlto_gds_design.M4.{
  proposed, confirmed, submitted, Proposal, M4Store, M4Client, registered_recipes,
  registered_recipe, any_foreign, is_allowed, required_diff, save, judge, get, create, confirm, run,
  accepted, recipe_task,
}

-- A request that declares no path.
abbrev pub undeclared : String → String → Fields
undeclared recipe diff = field "recipe_id" (str recipe) (field "diff" (str diff) end)

module _ (uuid owner_id recipe diff : String) (s : M4Store)
    (known : elem recipe registered_recipes ≡ true) (full : is_blank diff ≡ false) where
  abbrev pub stored : Proposal
  stored = accepted uuid owner_id recipe (arr nil) diff

  create-undeclared :
      create uuid owner_id (undeclared recipe diff) s ≡ (ok stored, insert ("m4-" <> uuid) stored s)
  unfolding create registered_recipe is_allowed any_foreign judge required_diff save
  create-undeclared = rw (known, full) refl

confirm-stored :
    (p : Proposal) (t : M4Store)
    → lookup p.proposal_id t ≡ some p
    → p.state ≡ proposed
    → (confirm p.proposal_id p.owner_id t).1
      ≡ insert p.proposal_id (record p { state = confirmed }) t
unfolding confirm get save
confirm-stored p t e at_state = ground (arith, eq_refl p.owner_id)

run-stored :
    (v2 : M4Client) (p : Proposal) (input_id run_id : String) (t : M4Store)
    → lookup p.proposal_id t ≡ some p
    → p.state ≡ confirmed
    → v2.upload p.diff ≡ ok input_id
    → v2.submit (recipe_task p.proposal_id p input_id) ("m4-" <> p.proposal_id) ≡ ok run_id
    → (run v2 p.proposal_id p.owner_id t).0
      ≡ ok (record p { run_id = some run_id; state = submitted })
unfolding run get save
run-stored v2 p input_id run_id t e at_state u r = ground (arith, eq_refl p.owner_id)

-- Any text that is not blank is run as the patch of a registered recipe: the owner proposes it
-- without declaring a path, confirms it, and `run` submits it, where v2 takes the upload of that text
-- and the task that names it.
pub run-unchecked :
    (v2 : M4Client) (uuid owner_id recipe diff input_id run_id : String) (s : M4Store)
    → elem recipe registered_recipes ≡ true
    → is_blank diff ≡ false
    → v2.upload (str diff) ≡ ok input_id
    → let id = "m4-" <> uuid in
      let p = accepted uuid owner_id recipe (arr nil) diff in
      v2.submit (recipe_task id p input_id) ("m4-" <> id) ≡ ok run_id
      → let id = "m4-" <> uuid in
        let p = accepted uuid owner_id recipe (arr nil) diff in
        let t = (create uuid owner_id (undeclared recipe diff) s).1 in
        let u = (confirm id owner_id t).1 in
        (run v2 id owner_id u).0 ≡ ok (record p { run_id = some run_id; state = submitted })
run-unchecked v2 uuid owner_id recipe diff input_id run_id s known full uploaded taken =
    let id = "m4-" <> uuid in
    let p : Proposal = accepted uuid owner_id recipe (arr nil) diff in
    let q : Proposal = record p { state = confirmed } in
    let made = create-undeclared uuid owner_id recipe diff s known full in
    let t = insert id p s in
    let agreed = confirm-stored p t (lookup-insert_self id p s) refl in
    let ran =
      run-stored v2 q input_id run_id (insert id q t) (lookup-insert_self id q t) refl uploaded
        taken in
    rw (made, agreed) ran
