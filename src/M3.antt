-- ===== src/M3.antt =====
-- `M3Service` and `M3Store` of apps/m3_orfs_comparison/src/openroad_app_m3/service.py and store.py:
-- a fixed baseline is compared with an agent on one observation protocol. The client of
-- openroad-platform-v2 is a parameter; a fresh `uuid4` and the measured durations are arguments; a
-- stored JSON document is represented by its record.
pub mod Attempts
mod Tests
use agentic_rtlto_gds_design.Prelude.{
  ℕ, ◌-◌, String, Bool, true, false, not, ◌&&◌, Option, none, some, List, [], ◌∷◌, ◌++◌,
  if◌then◌else◌, ◌==◌,
}
use agentic_rtlto_gds_design.Prelude.Text.{is_empty, ◌<>◌}
use agentic_rtlto_gds_design.Prelude.Lists.{null}
use agentic_rtlto_gds_design.Prelude.Json.{
  is_int, Float, le_float, float_le, Json, bool, int, float, str, arr, obj, nil, cons, end, field,
}
use agentic_rtlto_gds_design.Prelude.Dict.{Dict, lookup, insert}
use agentic_rtlto_gds_design.Prelude.Result.{
  value_error, key_error, permission_error, Result, ok, err,
}
use agentic_rtlto_gds_design.Prelude.Result
use agentic_rtlto_gds_design.Prelude.Action.{Action, pure, lift, modify, ◌>>=◌, ◌>>◌}

-- The constant entries that `run` appends: `{"status": "submitted", "strategy": name}`,
-- `{"step": 0, "qor": null, "status": "submitted"}` and `{"stage": "admission", "reason": …}`.
pub record Observation : Type 0 where
  pub status : String
  pub strategy : String

pub record Point : Type 0 where
  pub step : ℕ
  pub qor : Json
  pub status : String

pub record Failure : Type 0 where
  pub stage : String
  pub reason : String

pub record Strategy : Type 0 where
  pub strategy : String
  pub status : String
  pub observations : List Observation
  pub trajectory : List Point
  pub run_ids : List String
  pub failures : List Failure
  pub submission_seconds : Option Float

-- `tasks` is empty where the key is absent.
pub record Comparison : Type 0 where
  pub comparison_id : String
  pub owner_id : String
  pub protocol : Dict Json
  pub state : String
  pub baseline : Strategy
  pub orfs_agent : Strategy
  pub tasks : Dict Json

abbrev pub M3Store : Type 0
M3Store = Dict Comparison

pub record M3Client : Type 0 where
  pub submit : Json → String → Result String

abbrev pub required_keys : List String
required_keys =
    "rtl_input_id" ∷ "pdk" ∷ "sdc" ∷ "evaluator" ∷ "search_space" ∷ "budget" ∷ "stop_condition" ∷ []

-- `_strategy`
abbrev pub new_strategy : String → Strategy
new_strategy name = record {
  strategy = name;
  status = "not_started";
  observations = [];
  trajectory = [];
  run_ids = [];
  failures = [];
  submission_seconds = none;
}

-- `payload[key]` of each required key, in order; the first that is missing is refused.
unfoldable pub copy_keys : List String → Dict Json → Result (Dict Json)
copy_keys [] payload = ok []
copy_keys (key ∷ keys) payload = elim (lookup key payload) [
  | none ↦ err (value_error (key <> " is required"))
  | some value ↦ Result.◌>>=◌ (copy_keys keys payload) (λ rest. ok ((key, value) ∷ rest))
]

-- `payload.get("toolchain", {})`
abbrev pub toolchain_of : Dict Json → Json
toolchain_of payload = elim (lookup "toolchain" payload) [ none ↦ obj end | some value ↦ value ]

abbrev pub created : String → String → Dict Json → Dict Json → Comparison
created uuid owner_id payload copied = record {
  comparison_id = "m3-" <> uuid;
  owner_id = owner_id;
  protocol = ("toolchain", toolchain_of payload) ∷ copied;
  state = "created";
  baseline = new_strategy "baseline";
  orfs_agent = new_strategy "orfs_agent";
  tasks = [];
}

unfoldable pub create : String → String → Dict Json → Action M3Store Comparison
create uuid owner_id payload = do
  copied ← lift (copy_keys required_keys payload)
  let r = created uuid owner_id payload copied
  modify (insert r.comparison_id r)
  pure r

-- `get`, with `M3Store.get`
unfoldable pub get : String → String → M3Store → Result Comparison
get comparison_id owner_id s = elim (lookup comparison_id s) [
  | none ↦ err (key_error comparison_id)
  | some r ↦
      if r.owner_id == owner_id
      then ok r
      else err (permission_error "comparison belongs to another identity")
]

-- `not task`
unfoldable pub is_falsy : Json → Bool
is_falsy Json.null = true
is_falsy (bool b) = not b
is_falsy (int n) = is_int 0 n
is_falsy (float x) = le_float 0 x && float_le x 0
is_falsy (str s) = is_empty s
is_falsy (arr nil) = true
is_falsy (arr (cons j items)) = false
is_falsy (obj end) = true
is_falsy (obj (field k j fields)) = false

-- `record.get("tasks", {}).get(name)`, if it is truthy
unfoldable pub task_of : String → Dict Json → Option Json
unfolding is_falsy
task_of name tasks = elim (lookup name tasks) [
  | none ↦ none
  | some task ↦ if is_falsy task then none else some task
]

abbrev pub blocked : Float → Strategy → Strategy
blocked elapsed s = record s {
  status = "blocked";
  failures =
      s.failures
      ++ record { stage = "admission"; reason = s.strategy <> " task protocol is not registered" }
        ∷ [];
  submission_seconds = some elapsed;
}

abbrev pub submitted : Float → String → Strategy → Strategy
submitted elapsed run_id s = record s {
  status = "submitted";
  run_ids = s.run_ids ++ run_id ∷ [];
  observations = s.observations ++ record { status = "submitted"; strategy = s.strategy } ∷ [];
  trajectory = s.trajectory ++ record { step = 0; qor = Json.null; status = "submitted" } ∷ [];
  submission_seconds = some elapsed;
}

-- The body of the loop of `run`, on one strategy.
unfoldable pub run_strategy : M3Client → Float → Comparison → Strategy → Result Strategy
run_strategy v2 elapsed r s = elim (task_of s.strategy r.tasks) [
  | none ↦ ok (blocked elapsed s)
  | some task ↦
      Result.◌>>=◌ (v2.submit task ("m3-" <> s.strategy <> "-" <> r.comparison_id))
        (λ run_id. ok (submitted elapsed run_id s))
]

unfoldable pub run : M3Client → Float → Float → String → String → Action M3Store Comparison
run v2 elapsed elapsed' comparison_id owner_id = do
  r ← (λ s. (get comparison_id owner_id s, s))
  baseline ← lift (run_strategy v2 elapsed r r.baseline)
  agent ← lift (run_strategy v2 elapsed' r r.orfs_agent)
  let done : Comparison = record r { state = "completed"; baseline = baseline; orfs_agent = agent }
  modify (insert comparison_id done)
  pure done
