-- ===== src/M2.antt =====
-- `M2Service` and `M2Store` of apps/m2_rtl_comparison/src/openroad_app_m2/service.py and store.py:
-- two RTL generators are compared on one specification. The client of openroad-platform-v2 is a
-- parameter; a fresh `uuid4` and the measured durations are arguments; a stored JSON document is
-- represented by its record.
pub mod Created
mod Tests
use agentic_rtlto_gds_design.Prelude.{
  ◌-◌, String, not, Option, none, some, List, [], ◌∷◌, if◌then◌else◌, ◌==◌,
}
use agentic_rtlto_gds_design.Prelude.Text.{is_blank, is_empty, ◌<>◌}
use agentic_rtlto_gds_design.Prelude.Json.{Float, Json}
use agentic_rtlto_gds_design.Prelude.Dict.{Dict, lookup, insert}
use agentic_rtlto_gds_design.Prelude.Result.{
  value_error, key_error, permission_error, Result, ok, err,
}
use agentic_rtlto_gds_design.Prelude.Result
use agentic_rtlto_gds_design.Prelude.Action.{Action, pure, lift, modify, ◌>>=◌, ◌>>◌}

pub record Candidate : Type 0 where
  pub generator : String
  pub status : String
  pub run_ids : List String
  pub artifacts : List Json
  pub qor : List Json
  pub failure_stage : Option String
  pub failure_reason : Option String
  pub duration_seconds : Option Float

-- `candidate_sources` is empty where the key is absent.
pub record Comparison : Type 0 where
  pub comparison_id : String
  pub owner_id : String
  pub spec_id : String
  pub verification_id : String
  pub pdk : String
  pub state : String
  pub direct_llm : Candidate
  pub rtlscout : Candidate
  pub candidate_sources : Dict String

abbrev pub M2Store : Type 0
M2Store = Dict Comparison

-- The keys of a request that `create` reads; `none` if absent or no string.
pub record Payload : Type 0 where
  pub spec_id : Option String
  pub verification_id : Option String
  pub pdk : Option String

-- The fields of the submitted task that depend on the comparison; the others are constants.
pub record ComparisonTask : Type 0 where
  pub task_id : String
  pub design_id : String
  pub spec_id : String
  pub verification_id : String
  pub platform : String
  pub candidate_generator : String
  pub input_id : String

pub record M2Client : Type 0 where
  pub upload_rtl : String → Result String
  pub submit : ComparisonTask → String → Result String

-- `_candidate`
abbrev pub new_candidate : String → Candidate
new_candidate generator = record {
  generator = generator;
  status = "not_started";
  run_ids = [];
  artifacts = [];
  qor = [];
  failure_stage = none;
  failure_reason = none;
  duration_seconds = none;
}

abbrev pub created : String → String → String → String → String → Comparison
created uuid owner_id spec_id verification_id pdk = record {
  comparison_id = "m2-" <> uuid;
  owner_id = owner_id;
  spec_id = spec_id;
  verification_id = verification_id;
  pdk = pdk;
  state = "created";
  direct_llm = new_candidate "direct_llm";
  rtlscout = new_candidate "rtlscout";
  candidate_sources = [];
}

-- A string that is not blank.
unfoldable pub required_text : Option String → Result String
required_text none = err (value_error "spec_id, verification_id, and pdk are required")
required_text (some s) =
    if is_blank s then err (value_error "spec_id, verification_id, and pdk are required") else ok s

unfoldable pub create : String → String → Payload → Action M2Store Comparison
unfolding required_text
create uuid owner_id payload = do
  spec_id ← lift (required_text payload.spec_id)
  verification_id ← lift (required_text payload.verification_id)
  pdk ← lift (required_text payload.pdk)
  let result = created uuid owner_id spec_id verification_id pdk
  modify (insert result.comparison_id result)
  pure result

-- `get`, with `M2Store.get`
unfoldable pub get : String → String → M2Store → Result Comparison
get comparison_id owner_id s = elim (lookup comparison_id s) [
  | none ↦ err (key_error comparison_id)
  | some r ↦
      if r.owner_id == owner_id
      then ok r
      else err (permission_error "comparison belongs to another identity")
]

abbrev pub unavailable : Float → String → Candidate → Candidate
unavailable elapsed generator c = record c {
  status = "toolchain_unavailable";
  failure_stage = some "generation";
  failure_reason = some (generator <> " candidate source is not registered");
  duration_seconds = some elapsed;
}

abbrev pub comparison_task : String → Comparison → String → String → ComparisonTask
comparison_task comparison_id r generator input_id = record {
  task_id = "m2-" <> generator <> "-" <> comparison_id;
  design_id = comparison_id <> "-" <> generator;
  spec_id = r.spec_id;
  verification_id = r.verification_id;
  platform = r.pdk;
  candidate_generator = generator;
  input_id = input_id;
}

unfoldable pub submit_candidate :
    M2Client → Float → String → Comparison → String → Candidate → String → Result Candidate
submit_candidate v2 elapsed comparison_id r generator c source =
    Result.◌>>=◌ (v2.upload_rtl source) λ input_id.
      let task = comparison_task comparison_id r generator input_id in
      Result.◌>>=◌ (v2.submit task task.task_id) λ run_id.
        ok (record c {
          run_ids = run_id ∷ [];
          status = "submitted";
          duration_seconds = some elapsed;
        })

-- The body of the loop of `run` for one generator, on the candidate that is stored under its name.
unfoldable pub run_candidate :
    M2Client → Float → String → Comparison → String → Candidate → Result Candidate
unfolding submit_candidate
run_candidate v2 elapsed comparison_id r generator c = elim (lookup generator r.candidate_sources) [
  | none ↦ ok (unavailable elapsed generator c)
  | some source ↦
      if is_empty source
      then ok (unavailable elapsed generator c)
      else submit_candidate v2 elapsed comparison_id r generator c source
]

-- The loop runs over `direct_llm` and `rtlscout`, and the record is stored after it.
unfoldable pub run : M2Client → Float → Float → String → String → Action M2Store Comparison
run v2 elapsed elapsed' comparison_id owner_id = do
  r ← (λ s. (get comparison_id owner_id s, s))
  direct ← lift (run_candidate v2 elapsed comparison_id r "direct_llm" r.direct_llm)
  scout ← lift (run_candidate v2 elapsed' comparison_id r "rtlscout" r.rtlscout)
  let done : Comparison = record r { state = "completed"; direct_llm = direct; rtlscout = scout }
  modify (insert comparison_id done)
  pure done
