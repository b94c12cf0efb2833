-- ===== src/M1/Server.antt =====
-- What every handler of apps/m1_rtl_to_gds/src/openroad_app_m1/server.py shares: replies, the body of
-- a request, the identity of the caller, and who owns what. `App` holds what the handlers take
-- from other code, `WebClient` the v2 client with the caller's token. A handler that returns without
-- a response has the reply `silence`; an exception that it does not catch has the reply `crash`.
pub mod Routes
pub mod Specs
pub mod Post
pub mod Get
pub mod GetRuns
pub mod Ends
pub mod Histories
pub mod Access
pub mod Freeze
pub mod Body
pub mod Roundtrip
use agentic_rtlto_gds_design.Prelude.{ℕ, String, ◌||◌, Option, none, some, ◌==◌}
use agentic_rtlto_gds_design.Prelude.Document.{member}
use agentic_rtlto_gds_design.Prelude.Json.{ℤ, int_in_range, Json, str, obj, Fields, end, field}
use agentic_rtlto_gds_design.Prelude.Result.{
  Error, value_error, key_error, permission_error, type_error, v2_error, authorization_error,
  v2_unavailable, v2_unauthorized, attribute_error, os_error, Result, ok, err, Check, ◌>>=◌, ◌>>◌,
  require, raise_if,
}
use agentic_rtlto_gds_design.Prelude.Text.{is_empty, has_slash}
use agentic_rtlto_gds_design.M1.Runs.{assert_run_owner}
use agentic_rtlto_gds_design.M1.State.{Service, Stdlib, find_session, get_rtl_version}
use agentic_rtlto_gds_design.M1.V2.{V2Client}

-- `repr` of a text, the two calls of the LLM provider, the replies of the catalog and of the netlist
-- view, and the files under `web/`.
pub record App : Type 0 where
  pub lib : Stdlib
  pub repr : String → String
  pub assess : String → Result Json
  pub generate : Json → Result Json
  pub courses : Json
  pub pdks : Json
  pub render_netlist : Json → Result (Option String)
  pub read_file : String → Option String

-- The calls of the v2 client that the handlers make, each with the document that it returns.
pub record WebClient : Type 0 where
  pub v2 : V2Client
  pub session : Result Json
  pub health : Result Json
  pub login : String → String → Result Json
  pub logout : Result Json
  pub input : String → Result Json
  pub run : String → Result Json
  pub artifacts : String → Result Json
  pub metrics : String → Result Json
  pub timeline : String → Result Json
  pub logs : String → Result Json
  pub artifact_preview : String → String → Result Json
  pub artifact_excerpt : String → String → Result Json

pub data Reply : Type 0 where
  json : ℕ → Json → Reply
  page : String → String → Reply
  silence : Reply
  crash : Error → Reply

-- `_error`
abbrev pub error_reply : ℕ → String → String → Reply
error_reply status code message =
    json status
      (obj (field "error" (obj (field "code" (str code) (field "message" (str message) end))) end))

-- The `except` clauses and `_handle_error`; `str` of a `KeyError` is the `repr` of its argument.
unfoldable pub handle_error : App → Error → Reply
handle_error app (authorization_error m) = error_reply 403 "FORBIDDEN" m
handle_error app (permission_error m) = error_reply 401 "UNAUTHENTICATED" m
handle_error app (key_error m) = error_reply 404 "NOT_FOUND" (app.repr m)
handle_error app (value_error m) = error_reply 422 "VALIDATION_ERROR" m
handle_error app (v2_unavailable m) = error_reply 502 "V2_UNAVAILABLE" m
handle_error app (v2_error m) = error_reply 502 "V2_ERROR" m
handle_error app (v2_unauthorized m) = error_reply 502 "V2_ERROR" m
handle_error app (type_error m) = crash (type_error m)
handle_error app (attribute_error m) = crash (attribute_error m)
handle_error app (os_error m) = crash (os_error m)

-- The `try` statement of a handler.
unfoldable pub respond : App → Result Reply → Reply
respond app (ok reply) = reply
respond app (err e) = handle_error app e

abbrev pub not_found : Reply
not_found = error_reply 404 "NOT_FOUND" "resource not found"

-- `_json(status, {key: value})`
abbrev pub one_field : ℕ → String → Json → Reply
one_field status key value = json status (obj (field key value end))

-- `Content-Length`, where it is present and where `int` reads it, and what `json.loads` makes of the
-- bytes that are read.
pub record Request : Type 0 where
  pub content_length : Option (Option ℤ)
  pub body : ℤ → Option Json

abbrev pub max_body_bytes : ℕ
max_body_bytes = 2097152

abbrev pub parsed_body : Option Json → Result Fields
parsed_body none = err (value_error "request body must be JSON")
parsed_body (some (obj fields)) = ok fields
parsed_body (some _) = err (value_error "request body must be a JSON object")

-- `_body`
unfoldable pub request_body : Request → Result Fields
request_body r = elim r.content_length [
  | none ↦ err (value_error "Content-Length is required")
  | some none ↦ err (value_error "Content-Length must be an integer")
  | some (some length) ↦ do
    require (int_in_range 0 max_body_bytes length) (value_error "request body is too large")
    parsed_body (r.body length)
]

-- A non-empty text.
unfoldable pub identity_of : Json → Result String
identity_of (str s) = do raise_if (is_empty s) (permission_error "v2 identity is required"); ok s
identity_of _ = err (permission_error "v2 identity is required")

-- `_owner_id`
unfoldable pub owner_id : WebClient → Result String
unfolding identity_of
owner_id client = do session ← client.session; identity_of (member "id" (member "user" session))

-- `_owned_spec`
unfoldable pub owned_spec : String → WebClient → Service → Check
unfolding find_session owner_id
owned_spec spec_id client s = do
  session ← find_session spec_id s
  caller ← owner_id client
  require (session.owner_id == caller) (authorization_error "spec belongs to another v2 identity")

-- `_owned_version`
unfoldable pub owned_version : String → WebClient → Service → Check
unfolding get_rtl_version owned_spec
owned_version version_id client s = do
  version ← get_rtl_version version_id s
  owned_spec version.spec_id client s

-- `except PermissionError as exc: raise AuthorizationError(str(exc)) from exc`
unfoldable pub as_authorization : Check → Check
as_authorization (err (permission_error m)) = err (authorization_error m)
as_authorization r = r

-- `_owned_run`
unfoldable pub owned_run : String → WebClient → Service → Check
unfolding owner_id as_authorization assert_run_owner
owned_run run_id client s = do
  raise_if (is_empty run_id || has_slash run_id) (value_error "run_id is required")
  caller ← owner_id client
  as_authorization (assert_run_owner run_id caller s)
