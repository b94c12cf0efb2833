-- ===== src/M1/Server/Get.antt =====
-- `do_GET` of apps/m1_rtl_to_gds/src/openroad_app_m1/server.py. The current time is an argument.
use agentic_rtlto_gds_design.Prelude.{
  String, Bool, false, none, some, List, [], ◌∷◌, if◌then◌else◌, ◌==◌,
}
use agentic_rtlto_gds_design.Prelude.Action.{Action, pure, lift}
use agentic_rtlto_gds_design.Prelude.Document.{
  get_field, field_or_null, traverse, object_of, is_truthy,
}
use agentic_rtlto_gds_design.Prelude.Json.{
  Json, str, arr, obj, Items, nil, cons, Fields, end, field,
}
use agentic_rtlto_gds_design.Prelude.Result
use agentic_rtlto_gds_design.Prelude.Result.{
  key_error, type_error, attribute_error, authorization_error, v2_unauthorized, v2_unavailable,
  Result, ok, err, ◌>>=◌, ◌>>◌, require,
}
use agentic_rtlto_gds_design.Prelude.Text.{remove_prefix}
use agentic_rtlto_gds_design.Contracts.Evidence.{evidence_to_dict}
use agentic_rtlto_gds_design.M1.Documents.{session_to_dict, version_to_dict}
use agentic_rtlto_gds_design.M1.Evidence.{get_evidence}
use agentic_rtlto_gds_design.M1.Models.{RtlVersion}
use agentic_rtlto_gds_design.M1.Sessions.{list_sessions}
use agentic_rtlto_gds_design.M1.State.{query, Service, get_session, get_rtl_version}
use agentic_rtlto_gds_design.M1.Versions.{list_rtl_versions}
use agentic_rtlto_gds_design.M1.Server.{
  respond, App, WebClient, Reply, json, page, silence, one_field, not_found, owner_id, owned_spec,
  owned_version,
}
use agentic_rtlto_gds_design.M1.Server.GetRuns.{get_of_run}
use agentic_rtlto_gds_design.M1.Server.Routes.{
  GetRoute, health, session, specs, courses, pdks, silent, nothing, versions, spec, rtl, evidence,
  of_run, file, get_route,
}

-- `[item.to_dict() for item in items]`
abbrev pub array_of : List Json → Json
array_of items = arr (go items)
  where
    go : List Json → Items
    go [] = nil
    go (j ∷ js) = cons j (go js)

-- `client.session()`, where a 401 is no session
unfoldable pub session_or_null : WebClient → Result Json
session_or_null client = elim client.session [ err (v2_unauthorized m) ↦ ok Json.null | r ↦ r ]

-- `health.get("ok", health.get("status") == "ok")`
abbrev pub is_up : Fields → Bool
is_up reply = elim (get_field "ok" reply) [
  | some v ↦ is_truthy v
  | none ↦ elim (field_or_null "status" reply) [ str s ↦ s == "ok" | _ ↦ false ]
]

-- `(session.get("user") or {}).get("id") if isinstance(session, dict) else None`
abbrev pub identity : Json → Result Json
identity (obj given) =
    let user = field_or_null "user" given in
    if is_truthy user
    then object_of user >>= (λ fields. ok (field_or_null "id" fields))
    else ok Json.null
identity _ = ok Json.null

-- `_health`
unfoldable pub health_document : WebClient → Result Json
health_document client = elim client.health [
  | err (v2_unavailable reason) ↦ ok (
      obj (
        field "app" (str "m1_rtl_to_gds") (
          field "status" (str "unavailable")
            (field "identity" Json.null (field "reason" (str reason) end)))))
  | err e ↦ err e
  | ok document ↦ do
    signed_in ← session_or_null client
    fields ← object_of document
    who ← identity signed_in
    ok (
        obj (
          field "app" (str "m1_rtl_to_gds") (
            field "status" (str (if is_up fields then "ok" else "unavailable"))
              (field "identity" who (field "v2" document end)))))
]

-- `_file`
unfoldable pub file_reply : App → String → String → Reply
file_reply app name content_type = elim (app.read_file name) [
  | none ↦ not_found
  | some content ↦ page content_type content
]

-- `version.source_ref.removeprefix("input:")`, which needs a text
abbrev pub input_of : RtlVersion → Result String
input_of version = elim version.source_ref [
  | none ↦ err (attribute_error "'NoneType' object has no attribute 'removeprefix'")
  | some ref ↦ ok (remove_prefix ref "input:")
]

-- `source["content"]`
abbrev pub content_of : Json → Result Json
content_of (obj fields) = elim (get_field "content" fields) [
  | none ↦ err (key_error "content")
  | some content ↦ ok content
]
content_of _ = err (type_error "list indices must be integers or slices")

unfoldable pub get_sessions : WebClient → Service → Result Reply
get_sessions client s = do
  owner ← owner_id client
  documents ← traverse session_to_dict (list_sessions owner s)
  ok (one_field 200 "sessions" (array_of documents))

unfoldable pub get_versions : String → WebClient → Service → Result Reply
get_versions spec_id client s = do
  owned_spec spec_id client s
  listed ← list_rtl_versions spec_id s
  documents ← traverse version_to_dict listed
  ok (one_field 200 "versions" (array_of documents))

unfoldable pub get_spec : String → WebClient → Service → Result Reply
get_spec spec_id client s = do
  owned_spec spec_id client s
  found ← get_session spec_id s
  document ← session_to_dict found
  ok (one_field 200 "session" document)

unfoldable pub get_rtl : String → WebClient → Service → Result Reply
get_rtl version_id client s = do
  owned_version version_id client s
  version ← get_rtl_version version_id s
  input ← input_of version
  source ← client.input input
  document ← version_to_dict version
  content ← content_of source
  ok (json 200 (obj (field "rtl_version" document (field "source" content end))))

unfoldable pub get_evidence_reply : App → String → WebClient → Service → Result Reply
get_evidence_reply app evidence_id client s = do
  found ← get_evidence evidence_id s
  caller ← owner_id client
  require (found.owner_id == caller) (authorization_error "evidence belongs to another v2 identity")
  document ← evidence_to_dict app.lib.parse_iso found
  ok (one_field 200 "evidence" document)

-- The statements of `do_GET` under each test on the path.
unfoldable pub get : App → String → WebClient → GetRoute → Action Service Reply
get app now client health =
    lift (Result.◌>>=◌ (health_document client) λ document. ok (json 200 document))
get app now client session =
    lift (Result.◌>>=◌ (session_or_null client) λ document. ok (one_field 200 "session" document))
get app now client specs = query (get_sessions client)
get app now client courses = pure (one_field 200 "courses" app.courses)
get app now client pdks = pure (one_field 200 "capabilities" app.pdks)
get app now client (versions spec_id) = query (get_versions spec_id client)
get app now client (spec spec_id) = query (get_spec spec_id client)
get app now client silent = pure silence
get app now client (rtl version_id) = query (get_rtl version_id client)
get app now client (of_run route) = get_of_run app now client route
get app now client (evidence evidence_id) = query (get_evidence_reply app evidence_id client)
get app now client (file name content_type) = pure (file_reply app name content_type)
get app now client nothing = pure not_found

-- `do_GET`: the reply, and the service after it.
unfoldable pub do_get : App → String → String → WebClient → Service → Reply × Service
do_get app now path client s =
    let (r, t) = get app now client (get_route path) s in (respond app r, t)
