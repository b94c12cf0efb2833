-- ===== src/M4.antt =====
-- `M4Service` and `M4Store` of apps/m4_script_lab/src/openroad_app_m4/service.py and store.py: a
-- recipe patch is proposed, confirmed and run. The client of openroad-platform-v2 is a parameter;
-- a fresh `uuid4` is an argument; a stored JSON document is represented by its record.
pub mod Admission
pub mod Lifecycle
pub mod Unchecked
mod Tests
use agentic_rtlto_gds_design.Prelude.{
  String, Bool, true, false, not, Option, none, some, List, [], ◌∷◌, if◌then◌else◌, ◌==◌,
}
use agentic_rtlto_gds_design.Prelude.Text.{is_blank, ◌<>◌}
use agentic_rtlto_gds_design.Prelude.Lists.{all, elem}
use agentic_rtlto_gds_design.Prelude.Document.{get_field, field_or_null}
use agentic_rtlto_gds_design.Prelude.Json.{Json, str, arr, obj, Items, nil, cons, Fields}
use agentic_rtlto_gds_design.Prelude.Dict.{Dict, lookup, insert}
use agentic_rtlto_gds_design.Prelude.Result.{
  value_error, type_error, key_error, permission_error, Result, ok, err,
}
use agentic_rtlto_gds_design.Prelude.Result
use agentic_rtlto_gds_design.Prelude.Action.{Action, lift, raise_when, raise_unless, ◌>>=◌, ◌>>◌}

pub data ProposalState : Type 0 where
  rejected proposed confirmed submitted : ProposalState

pub record Proposal : Type 0 where
  pub proposal_id : String
  pub owner_id : String
  pub recipe_id : String
  pub state : ProposalState
  pub reason : Option String
  pub touched_paths : Json
  pub diff : Json
  pub run_id : Option String

-- The table of `M4Store`
abbrev pub M4Store : Type 0
M4Store = Dict Proposal

-- The task that `run` submits. Its other fields are constants.
pub record RecipeTask : Type 0 where
  pub task_id : String
  pub design_id : String
  pub recipe_id : String
  pub patch_path : Json
  pub input_id : String

pub record M4Client : Type 0 where
  pub upload : Json → Result String
  pub submit : RecipeTask → String → Result String

abbrev pub registered_recipes : List String
registered_recipes = "course-counter-nangate45-v1" ∷ "course-sequence-fsm-nangate45-v1" ∷ []

-- `ALLOWLIST[recipe]` of a registered recipe
abbrev pub allowlist : List String
allowlist = "flow.tcl" ∷ "config.py" ∷ []

-- `payload.get(key, default)`
abbrev pub field_or : Json → String → Fields → Json
field_or default key payload = elim (get_field key payload) [ none ↦ default | some v ↦ v ]

abbrev pub touched_of : Fields → Json
touched_of payload = field_or (arr nil) "touched_paths" payload

-- The test of `recipe_id` in a set of texts, where an unhashable value raises.
unfoldable pub registered_recipe : Json → Result String
registered_recipe (str recipe) =
    if elem recipe registered_recipes
    then ok recipe
    else err (value_error "recipe_id is not registered")
registered_recipe (arr items) = err (type_error "unhashable type: 'list'")
registered_recipe (obj fields) = err (type_error "unhashable type: 'dict'")
registered_recipe _ = err (value_error "recipe_id is not registered")

-- `path not in ALLOWLIST[recipe_id]`
unfoldable pub is_foreign : Json → Result Bool
is_foreign (str path) = ok (not (elem path allowlist))
is_foreign (arr items) = err (type_error "unhashable type: 'list'")
is_foreign (obj fields) = err (type_error "unhashable type: 'dict'")
is_foreign _ = ok true

-- `any(path not in ALLOWLIST[recipe_id] for path in touched)`, which stops at the first such path.
unfoldable pub any_foreign : Items → Result Bool
unfolding is_foreign
any_foreign nil = ok false
any_foreign (cons path touched) =
    Result.◌>>=◌ (is_foreign path)
      λ foreign. elim foreign [ true ↦ ok true | false ↦ any_foreign touched ]

-- Whether `touched_paths` is a list without a foreign path.
unfoldable pub is_allowed : Json → Result Bool
unfolding any_foreign
is_allowed (arr touched) = Result.◌>>=◌ (any_foreign touched) λ foreign. ok (not foreign)
is_allowed _ = ok false

-- A `diff` that is a text and not blank
unfoldable pub required_diff : Json → Result String
required_diff (str diff) = if is_blank diff then err (value_error "diff is required") else ok diff
required_diff _ = err (value_error "diff is required")

-- `_save`, with `M4Store.put`
unfoldable pub save : Proposal → Action M4Store Proposal
save p s = (ok p, insert p.proposal_id p s)

-- `M4Service.get`, with `M4Store.get`
unfoldable pub get : String → String → M4Store → Result Proposal
get proposal_id owner_id s = elim (lookup proposal_id s) [
  | none ↦ err (key_error proposal_id)
  | some p ↦
      if p.owner_id == owner_id
      then ok p
      else err (permission_error "proposal belongs to another identity")
]

abbrev pub refused : String → String → String → Fields → Proposal
refused uuid owner_id recipe payload = record {
  proposal_id = "m4-" <> uuid;
  owner_id = owner_id;
  recipe_id = recipe;
  state = rejected;
  reason = some "patch touches a path outside the registered recipe allowlist";
  touched_paths = touched_of payload;
  diff = field_or (str "") "diff" payload;
  run_id = none;
}

abbrev pub accepted : String → String → String → Json → String → Proposal
accepted uuid owner_id recipe touched diff = record {
  proposal_id = "m4-" <> uuid;
  owner_id = owner_id;
  recipe_id = recipe;
  state = proposed;
  reason = none;
  touched_paths = touched;
  diff = str diff;
  run_id = none;
}

-- The branches of `create` on the allowlist
unfoldable pub judge : String → String → String → Fields → Bool → Action M4Store Proposal
unfolding save required_diff
judge uuid owner_id recipe payload false = save (refused uuid owner_id recipe payload)
judge uuid owner_id recipe payload true = do
  diff ← lift (required_diff (field_or_null "diff" payload))
  save (accepted uuid owner_id recipe (touched_of payload) diff)

-- `payload` is a JSON object.
unfoldable pub create : String → String → Fields → Action M4Store Proposal
unfolding registered_recipe is_allowed
create uuid owner_id payload = do
  recipe ← lift (registered_recipe (field_or_null "recipe_id" payload))
  allowed ← lift (is_allowed (touched_of payload))
  judge uuid owner_id recipe payload allowed

abbrev pub is_proposed : ProposalState → Bool
is_proposed proposed = true
is_proposed _ = false

abbrev pub is_confirmed : ProposalState → Bool
is_confirmed confirmed = true
is_confirmed _ = false

unfoldable pub confirm : String → String → Action M4Store Proposal
unfolding save
confirm proposal_id owner_id = do
  proposal ← (λ s. (get proposal_id owner_id s, s))
  raise_unless (is_proposed proposal.state)
      (value_error "only an allowlisted proposed patch can be confirmed")
  save (record proposal { state = confirmed })

abbrev pub recipe_task : String → Proposal → String → RecipeTask
recipe_task proposal_id p input_id = record {
  task_id = "m4-" <> proposal_id;
  design_id = p.recipe_id;
  recipe_id = p.recipe_id;
  patch_path = p.touched_paths;
  input_id = input_id;
}

unfoldable pub run : M4Client → String → String → Action M4Store Proposal
unfolding save
run v2 proposal_id owner_id = do
  proposal ← (λ s. (get proposal_id owner_id s, s))
  raise_unless (is_confirmed proposal.state)
      (value_error "proposal must be confirmed before execution")
  input_id ← lift (v2.upload proposal.diff)
  run_id ← lift (v2.submit (recipe_task proposal_id proposal input_id) ("m4-" <> proposal_id))
  save (record proposal { run_id = some run_id; state = submitted })
