-- ===== src/M1/V2.antt =====
-- What M1 exchanges with openroad-platform-v2, which is not part of the repository: the client is
-- a parameter, the calls `plugins`, `submit` and `upload_rtl` of
-- apps/m1_rtl_to_gds/src/openroad_app_m1/v2_client.py, each of which may raise. A reply that lacks
-- a string `run_id` or `input_id` is `none`. The file also has `_submit_task` and the admission
-- test of service.py.
use agentic_rtlto_gds_design.Prelude.{
  ℕ, String, Bool, false, ◌&&◌, Option, none, some, List, if◌then◌else◌, ◌==◌,
}
use agentic_rtlto_gds_design.Prelude.Text.{is_empty, ◌<>◌}
use agentic_rtlto_gds_design.Prelude.Lists.{any, elem}
use agentic_rtlto_gds_design.Prelude.Json.{Json}
use agentic_rtlto_gds_design.Prelude.Dict.{Dict}
use agentic_rtlto_gds_design.Prelude.Result.{Result, ok, err, value_error, ◌>>=◌}

-- The keys of a plugin that the service reads.
pub record Plugin : Type 0 where
  pub plugin_id : Option String
  pub admission : Option String
  pub executable : Option Bool
  pub capabilities : List String

-- `{"destination": …, "input_id" or "artifact_id": …, "required": true}`
pub data StagedRef : Type 0 where
  input_id artifact_id : String → StagedRef

pub record StagedInput : Type 0 where
  pub destination : String
  pub reference : StagedRef
  pub required : Bool

-- A task of schema version 3. An object that a request leaves out is empty.
pub record TaskRequest : Type 0 where
  pub schema_version : ℕ
  pub task_id : String
  pub project_id : String
  pub design_id : String
  pub plugin_id : String
  pub inputs : Dict Json
  pub staged_inputs : List StagedInput
  pub parameters : Dict Json
  pub resources : Dict Json
  pub expected_artifacts : List String
  pub timeout_seconds : ℕ
  pub max_attempts : ℕ

pub record V2Client : Type 0 where
  pub plugins : Result (List Plugin)
  pub submit : TaskRequest → String → Result (Option String)
  pub upload_rtl : String → Result (Option String)

-- `item.get(key) == value`
abbrev pub is_text : Option String → String → Bool
is_text none value = false
is_text (some s) value = s == value

-- `item.get("executable") is True`
abbrev pub is_true : Option Bool → Bool
is_true none = false
is_true (some b) = b

-- One item of the `any(…)` that a request makes over `plugins()`.
unfoldable pub is_admitted : String → String → Plugin → Bool
is_admitted plugin capability item =
    is_text item.plugin_id plugin
    && is_text item.admission "admitted"
    && is_true item.executable
    && elem capability item.capabilities

unfoldable pub require_admitted : V2Client → String → String → Result (Unit {0})
require_admitted v2 plugin capability = do
  items ← v2.plugins
  if any (is_admitted plugin capability) items
      then ok tt
      else err (value_error (plugin <> " Toolkit is not admitted by v2"))

-- The tests that `_submit_task` makes of a reply.
unfoldable pub reply_run_id : Option String → Result String
reply_run_id none = err (value_error "v2 returned a submission without run_id")
reply_run_id (some run_id) =
    if is_empty run_id
    then err (value_error "v2 returned a submission without run_id")
    else ok run_id

-- `_submit_task`
unfoldable pub submit_task : TaskRequest → V2Client → Result String
unfolding reply_run_id
submit_task task v2 = do reply ← v2.submit task task.task_id; reply_run_id reply
