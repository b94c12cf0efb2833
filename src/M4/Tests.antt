-- ===== src/M4/Tests.antt =====
-- A recipe patch that is proposed, confirmed and run.
use agentic_rtlto_gds_design.Prelude.{String, ◌≡◌, refl, none, some, List, [], ◌∷◌}
use agentic_rtlto_gds_design.Prelude.Text.{is_blank, all_chars}
use agentic_rtlto_gds_design.Prelude.Json.{str, arr, nil, cons, Fields, end, field}
use agentic_rtlto_gds_design.Prelude.Dict.{lookup, insert}
use agentic_rtlto_gds_design.Prelude.Result.{ok}
use agentic_rtlto_gds_design.M4.{
  confirmed, submitted, Proposal, M4Store, M4Client, registered_recipe, is_foreign, any_foreign,
  is_allowed, required_diff, save, judge, get, create, confirm, run, accepted,
}
use agentic_rtlto_gds_design.M4.Lifecycle.{
  AllContained, IsSubmitted, Request, propose, approve, serve, serve_all, serve_all-AllContained,
  run-confirmed,
}
use agentic_rtlto_gds_design.M4.Unchecked.{undeclared, run-unchecked}

abbrev answering : M4Client
answering = record { upload = λ diff. ok "input-1"; submit = λ task key. ok "run-1" }

abbrev flow_payload : Fields
flow_payload = field "recipe_id" (str "course-counter-nangate45-v1") (
    field "touched_paths" (arr (cons (str "flow.tcl") nil))
      (field "diff" (str "+++ b/flow.tcl") end))

abbrev proposal : Proposal
proposal = record {
  proposal_id = "m4-1";
  owner_id = "alice";
  recipe_id = "course-counter-nangate45-v1";
  state = confirmed;
  reason = none;
  touched_paths = arr (cons (str "flow.tcl") nil);
  diff = str "+++ b/flow.tcl";
  run_id = none;
}

no_proposal : AllContained []
unfolding lookup
no_proposal k p e = cc

abbrev two_requests : List Request
two_requests = propose "1" "alice" flow_payload ∷ approve "m4-1" "alice" ∷ []

abbrev confirmed_store : M4Store
confirmed_store = serve_all two_requests []

serve_all-AllContained_example : AllContained confirmed_store
serve_all-AllContained_example = serve_all-AllContained two_requests [] no_proposal

run-confirmed_example :
    (p : Proposal) × (run_id : String) × (lookup "m4-1" confirmed_store ≡ some p)
    × IsSubmitted answering "m4-1" "alice" p run_id
    × (record proposal { run_id = some "run-1"; state = submitted }
        ≡ record p { run_id = some run_id; state = submitted })
    × (lookup "m4-1" (run answering "m4-1" "alice" confirmed_store).1
        ≡ some (record proposal { run_id = some "run-1"; state = submitted }))
unfolding serve_all serve create judge registered_recipe is_foreign any_foreign is_allowed
    required_diff confirm run get save is_blank all_chars lookup insert
run-confirmed_example =
    run-confirmed answering "m4-1" "alice" confirmed_store
      (record proposal { run_id = some "run-1"; state = submitted })
      (serve_all-AllContained two_requests [] no_proposal) refl

abbrev other_files : String
other_files = "+++ b/scripts/install.sh"

run-unchecked_example :
    (run answering "m4-2" "alice"
      (confirm "m4-2" "alice"
        (create "2" "alice" (undeclared "course-counter-nangate45-v1" other_files) []).1).1).0
    ≡ ok (record (accepted "2" "alice" "course-counter-nangate45-v1" (arr nil) other_files) {
      run_id = some "run-1";
      state = submitted;
    })
unfolding is_blank all_chars
run-unchecked_example =
    run-unchecked answering "2" "alice" "course-counter-nangate45-v1" other_files "input-1" "run-1"
      [] refl refl refl refl
