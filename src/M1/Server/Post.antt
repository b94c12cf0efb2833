-- ===== src/M1/Server/Post.antt =====
-- `do_POST` of apps/m1_rtl_to_gds/src/openroad_app_m1/server.py. A fresh `uuid4` is an argument.
use agentic_rtlto_gds_design.Prelude.{String}
use agentic_rtlto_gds_design.Prelude.Action.{Action, pure, lift, ◌>>=◌, ◌>>◌}
use agentic_rtlto_gds_design.Prelude.Document.{field_or_null, string_of}
use agentic_rtlto_gds_design.Prelude.Json.{str, obj, Fields, end, field}
use agentic_rtlto_gds_design.Prelude.Result
use agentic_rtlto_gds_design.Prelude.Result.{value_error, Result, ok}
use agentic_rtlto_gds_design.M1.Sessions.{freeze_spec}
use agentic_rtlto_gds_design.M1.State.{Service, query}
use agentic_rtlto_gds_design.M1.Submit.{submit_verification, submit_simulation, submit_rtl_to_gds}
use agentic_rtlto_gds_design.M1.Server.{
  App, WebClient, Request, request_body, Reply, json, respond, not_found, owned_spec, owned_version,
  Error,
}
use agentic_rtlto_gds_design.M1.Server.Routes.{
  PostRoute, login, logout, create_spec, unknown, freeze, generate, create_rtl, verify, simulate,
  gds, post_route,
}
use agentic_rtlto_gds_design.M1.Server.Specs
use agentic_rtlto_gds_design.M1.Server.Specs.{
  session_reply, version_reply, register_teaching_package,
}

abbrev pub submitted : String → Fields → Reply
submitted run_id more =
    json 202 (obj (field "run_id" (str run_id) (field "state" (str "submitted") more)))

abbrev pub no_pdk : Error
no_pdk = value_error "pdk is required"

-- The two texts of a login.
unfoldable pub login_reply : Fields → WebClient → Result Reply
login_reply payload client =
    Result.◌>>=◌ (string_of missing (field_or_null "username" payload)) λ username.
      Result.◌>>=◌ (string_of missing (field_or_null "password" payload))
        λ password. Result.◌>>=◌ (client.login username password) λ document. ok (json 200 document)
  where
    missing : Error
    missing = value_error "username and password are required"

-- The statements of `do_POST` under each test on the path.
unfoldable pub post : App → String → Fields → WebClient → PostRoute → Action Service Reply
post app uuid payload client login = lift (login_reply payload client)
post app uuid payload client logout = do document ← lift client.logout; pure (json 200 document)
post app uuid payload client create_spec = Specs.create_spec app uuid payload client
post app uuid payload client (freeze spec_id) = do
  query (owned_spec spec_id client)
  session ← freeze_spec app.lib spec_id
  register_teaching_package session client
  session_reply 200 session
post app uuid payload client (generate spec_id) = do
  query (owned_spec spec_id client)
  version ← Specs.generate app uuid spec_id client
  version_reply version
post app uuid payload client (create_rtl spec_id) = do
  query (owned_spec spec_id client)
  Specs.create_rtl app uuid spec_id payload client
post app uuid payload client (verify version_id) = do
  query (owned_version version_id client)
  run_id ← submit_verification version_id client.v2
  pure (submitted run_id end)
post app uuid payload client (simulate version_id) = do
  query (owned_version version_id client)
  run_id ← submit_simulation version_id client.v2
  pure (submitted run_id end)
post app uuid payload client (gds version_id) = do
  query (owned_version version_id client)
  pdk ← lift (string_of no_pdk (field_or_null "pdk" payload))
  run_id ← submit_rtl_to_gds app.lib version_id pdk client.v2
  pure (submitted run_id (field "pdk" (str pdk) end))
post app uuid payload client unknown = pure not_found

-- `do_POST`: the reply, and the service after it.
unfoldable pub do_post : App → String → String → Request → WebClient → Service → Reply × Service
do_post app uuid path request client s =
    let (r, t) =
      (do payload ← lift (request_body request); post app uuid payload client (post_route path))
        s in
    (respond app r, t)
