-- ===== src/M1/Server/GetRuns.antt =====
-- The requests about runs in `do_GET` of apps/m1_rtl_to_gds/src/openroad_app_m1/server.py. The
-- current time is an argument.
use agentic_rtlto_gds_design.Prelude.{
  String, Bool, true, false, ◌||◌, Option, none, some, List, [], if◌then◌else◌, ◌==◌, starts_with,
}
use agentic_rtlto_gds_design.Prelude.Action.{Action, pure, lift, ◌>>=◌, ◌>>◌}
use agentic_rtlto_gds_design.Prelude.Dict.{contains}
use agentic_rtlto_gds_design.Prelude.Document.{
  get_field, field_or_null, traverse, object_of, tuple_of,
}
use agentic_rtlto_gds_design.Prelude.Json.{
  Json, bool, str, arr, obj, Fields, end, field, optional_text,
}
use agentic_rtlto_gds_design.Prelude.Result
use agentic_rtlto_gds_design.Prelude.Result.{
  value_error, type_error, attribute_error, Result, ok, err,
}
use agentic_rtlto_gds_design.Prelude.Text.{is_empty, remove_prefix, rsplit_once, ◌<>◌}
use agentic_rtlto_gds_design.Contracts.Evidence.{evidence_to_dict}
use agentic_rtlto_gds_design.M1.Documents.{outcome_to_dict}
use agentic_rtlto_gds_design.M1.Evidence.{
  Artifact, GdsResult, measured, incomplete, record_gds_evidence,
}
use agentic_rtlto_gds_design.M1.Runs.{observe_run}
use agentic_rtlto_gds_design.M1.State.{Service, query}
use agentic_rtlto_gds_design.M1.Server.{App, WebClient, Reply, json, one_field, owned_run}
use agentic_rtlto_gds_design.M1.Server.Routes.{
  RunRoute, excerpt, preview, netlist, timeline, logs, artifacts, metrics, run, unsplit,
}

-- `item.get(key)`, where it is a text
abbrev pub text_at : String → Fields → Option String
text_at key fields = elim (field_or_null key fields) [ str s ↦ some s | _ ↦ none ]

-- `item.get("metadata", {})`
abbrev pub metadata_of : Fields → Result Fields
metadata_of fields = elim (get_field "metadata" fields) [
  | none ↦ ok end
  | some metadata ↦ object_of metadata
]

-- The keys that evidence reads of an artifact. An item or its metadata that is no object raises.
unfoldable pub artifact_of : Json → Result Artifact
artifact_of j = Result.◌>>=◌ (object_of j) λ fields. Result.◌>>=◌ (metadata_of fields) λ metadata.
    ok record {
      kind = text_at "kind" fields;
      artifact_id = get_field "artifact_id" fields;
      format = text_at "format" metadata;
      store_key = text_at "store_key" fields;
      sha256 = text_at "sha256" fields;
    }

-- The key `complete` of a metric; a value that is no `bool` counts as absent.
unfoldable pub metric_of : Json → Result (Option Bool)
metric_of j =
    Result.◌>>=◌ (object_of j)
      λ fields. ok (elim (field_or_null "complete" fields) [ bool b ↦ some b | _ ↦ none ])

-- The items of a list that v2 returns
unfoldable pub artifacts_of : Json → Result (List Artifact)
artifacts_of j = Result.◌>>=◌ (tuple_of j) (traverse artifact_of)

unfoldable pub metrics_of : Json → Result (List (Option Bool))
metrics_of j = Result.◌>>=◌ (tuple_of j) (traverse metric_of)

-- `service.observe_run(run_id, run.get("status"))`, where the status need not be a text
unfoldable pub observe_status : String → Json → Action Service (Unit {0})
observe_status run_id (str status) = observe_run run_id status
observe_status run_id (arr items) = lift (err (type_error "unhashable type: 'list'"))
observe_status run_id (obj fields) = lift (err (type_error "unhashable type: 'dict'"))
observe_status run_id _ = pure tt

-- `run["task_id"]` of a succeeded run, where it starts with `m1-gds-`
unfoldable pub gds_task_id : Fields → Result (Option String)
gds_task_id fields = elim (field_or_null "status" fields) [
  | str status ↦
      if status == "succeeded"
      then elim (get_field "task_id" fields) [
        | none ↦ ok none
        | some (str task_id) ↦ ok (if starts_with task_id "m1-gds-" then some task_id else none)
        | some _ ↦ err (attribute_error "object has no attribute 'startswith'")
      ]
      else ok none
  | _ ↦ ok none
]

-- The version and the PDK in `m1-gds-<version>-<pdk>`. Without a second dash, the version is what
-- follows the prefix, and the PDK what follows the last dash of the prefix.
unfoldable pub task_parts : String → String × String
task_parts task_id = elim (rsplit_once (remove_prefix task_id "m1-gds-") "-") [
  | some (version_id, pdk) ↦ (version_id, pdk)
  | none ↦ let rest = remove_prefix task_id "m1-gds-" in (rest, rest)
]

-- `evidence.to_dict()` of either result
unfoldable pub result_to_dict : App → GdsResult → Result Json
result_to_dict app (measured evidence) = evidence_to_dict app.lib.parse_iso evidence
result_to_dict app (incomplete outcome) = outcome_to_dict outcome

-- Whether the service holds a result of the run.
abbrev pub has_result : String → Service → Bool
has_result run_id s = contains ("evidence:" <> run_id) s.evidence || contains run_id s.run_outcomes

-- `record_gds_evidence` on the lists that v2 returned. Where the service holds a result, it reads
-- none of their items.
unfoldable pub record_listed :
    App → String → String → String → Json → String → Json → Action Service GdsResult
record_listed app now version_id run_id listed pdk measures s = elim (has_result run_id s) [
  | true ↦ record_gds_evidence app.lib now version_id run_id [] pdk [] s
  | false ↦ read_items s
]
  where
    read_items : Action Service GdsResult
    read_items = do
      items ← lift (artifacts_of listed)
      values ← lift (metrics_of measures)
      record_gds_evidence app.lib now version_id run_id items pdk values

unfoldable pub evidence_of_task :
    App → String → String → WebClient → Option String → Action Service Json
evidence_of_task app now run_id client none = pure Json.null
evidence_of_task app now run_id client (some task_id) = do
  listed ← lift (client.artifacts run_id)
  measures ← lift (client.metrics run_id)
  let (version_id, pdk) = task_parts task_id
  result ← record_listed app now version_id run_id listed pdk measures
  lift (result_to_dict app result)

-- The evidence of a run, or `null`
unfoldable pub run_evidence : App → String → String → Fields → WebClient → Action Service Json
run_evidence app now run_id fields client = do
  task ← lift (gds_task_id fields)
  evidence_of_task app now run_id client task

-- `observation.get("run", observation)`
abbrev pub run_document : Fields → Json
run_document observation = elim (get_field "run" observation) [
  | none ↦ obj observation
  | some inner ↦ inner
]

abbrev pub run_reply : Json → Json → Reply
run_reply document evidence = json 200 (obj (field "run" document (field "evidence" evidence end)))

-- The branch on a run id alone
unfoldable pub get_run : App → String → String → WebClient → Action Service Reply
get_run app now run_id client = do
  query (owned_run run_id client)
  document ← lift (client.run run_id)
  observation ← lift (object_of document)
  fields ← lift (object_of (run_document observation))
  observe_status run_id (field_or_null "status" fields)
  evidence ← run_evidence app now run_id fields client
  pure (run_reply (run_document observation) evidence)

-- The test on the two parts of a path
abbrev pub require_parts : String → String → Result (Unit {0})
require_parts before after =
    Result.raise_if (is_empty before || is_empty after)
      (value_error "run_id and artifact_id are required")

-- `excerpt.get("text", "")`
abbrev pub excerpt_text : Fields → Json
excerpt_text fields = elim (get_field "text" fields) [ none ↦ str "" | some text ↦ text ]

abbrev pub netlist_reply : String → Option String → Reply
netlist_reply artifact_id content = json 200 (
    obj (
      field "status"
        (str (elim content [
          | none ↦ "unavailable"
          | some c ↦ if is_empty c then "unavailable" else "ready"
        ]))
        (field "reason"
          (elim content [ none ↦ why | some c ↦ if is_empty c then why else Json.null ])
          (field "content" (optional_text content) (field "artifact_id" (str artifact_id) end)))))
  where
    why : Json
    why = str "netlist excerpt has no renderable cells"

unfoldable pub get_of_run : App → String → WebClient → RunRoute → Action Service Reply
get_of_run app now client (excerpt run_id artifact_id) = do
  lift (require_parts run_id artifact_id)
  query (owned_run run_id client)
  document ← lift (client.artifact_excerpt run_id artifact_id)
  pure (one_field 200 "excerpt" document)
get_of_run app now client (preview run_id artifact_id) = do
  lift (require_parts run_id artifact_id)
  query (owned_run run_id client)
  document ← lift (client.artifact_preview run_id artifact_id)
  pure (one_field 200 "preview" document)
get_of_run app now client (netlist run_id artifact_id) = do
  query (owned_run run_id client)
  document ← lift (client.artifact_excerpt run_id artifact_id)
  fields ← lift (object_of document)
  content ← lift (app.render_netlist (excerpt_text fields))
  pure (netlist_reply artifact_id content)
get_of_run app now client (timeline run_id) = do
  query (owned_run run_id client)
  document ← lift (client.timeline run_id)
  pure (one_field 200 "timeline" document)
get_of_run app now client (logs run_id) = do
  query (owned_run run_id client)
  document ← lift (client.logs run_id)
  pure (json 200 document)
get_of_run app now client (artifacts run_id) = do
  query (owned_run run_id client)
  document ← lift (client.artifacts run_id)
  pure (one_field 200 "artifacts" document)
get_of_run app now client (metrics run_id) = do
  query (owned_run run_id client)
  document ← lift (client.metrics run_id)
  pure (one_field 200 "metrics" document)
get_of_run app now client (run run_id) = get_run app now run_id client
get_of_run app now client unsplit =
    lift (err (value_error "not enough values to unpack (expected 2, got 1)"))
