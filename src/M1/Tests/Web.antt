-- ===== src/M1/Tests/Web.antt =====
-- Requests to the M1 server about the counter, and a v2 that does not take its oracle.
use agentic_rtlto_gds_design.Prelude.{String, ◌≡◌, refl, ◌⊎◌, none, some, List, [], ◌∷◌}
use agentic_rtlto_gds_design.Prelude.Dict.{lookup, insert}
use agentic_rtlto_gds_design.Prelude.Document.{tuple_at, traverse, nonblank_of, optional_of}
use agentic_rtlto_gds_design.Prelude.Json.{pos, Json, str, arr, nil, cons, obj, Fields, field, end}
use agentic_rtlto_gds_design.Prelude.Lists.{for_each}
use agentic_rtlto_gds_design.Prelude.Result.{Error, v2_unavailable, Result, ok, err}
use agentic_rtlto_gds_design.Prelude.Text.{
  text_length, all_chars, is_blank, is_identifier, is_id_char, is_alnum, is_sha256,
}
use agentic_rtlto_gds_design.Contracts.RtlFrontend.{
  validate_port, collect_names, validate_signal, validate_ports, validate_spec,
}
use agentic_rtlto_gds_design.M1.Documents.{session_to_dict, optional_spec}
use agentic_rtlto_gds_design.M1.History.{Extends, IsKeyed}
use agentic_rtlto_gds_design.M1.Models.{
  specified, M1Session, validate_id, validate_session, validate_state,
}
use agentic_rtlto_gds_design.M1.Oracles.{Oracle, oracle_for_top, counter_oracle}
use agentic_rtlto_gds_design.M1.Sessions.{freeze_spec, ready_spec, assess_spec}
use agentic_rtlto_gds_design.M1.State.{Service, in_memory, find_session, fingerprint, save_session}
use agentic_rtlto_gds_design.M1.Store.{put_session}
use agentic_rtlto_gds_design.M1.Tests.{
  constant_lib, counter_spec, frozen_session, client, ready, ready-IsKeyed,
}
use agentic_rtlto_gds_design.M1.V2.{V2Client}
use agentic_rtlto_gds_design.M1.Server.{
  App, WebClient, Request, handle_error, one_field, owner_id, identity_of, owned_spec,
}
use agentic_rtlto_gds_design.M1.Server.Access.{
  PostAllowed, GetAllowed, do_post-Guarded, do_get-Guarded,
}
use agentic_rtlto_gds_design.M1.Server.Freeze.{freeze-stranded}
use agentic_rtlto_gds_design.M1.Server.Get.{do_get, get_spec}
use agentic_rtlto_gds_design.M1.Server.Histories.{
  Exchange, get_request, post_request, serve_all, AllUnused, serve_all-Extends,
}
use agentic_rtlto_gds_design.M1.Server.Post.{post, do_post}
use agentic_rtlto_gds_design.M1.Server.Roundtrip.{create_spec-get_spec}
use agentic_rtlto_gds_design.M1.Server.Routes.{PostRoute, post_route, get_route}
use agentic_rtlto_gds_design.M1.Server.Specs.{given_spec, create_spec, assess_document}

abbrev app : App
app = record {
  lib = constant_lib;
  repr = λ text. text;
  assess = λ text. ok (obj end);
  generate = λ payload. ok (str "module counter");
  courses = arr nil;
  pdks = arr nil;
  render_netlist = λ text. ok none;
  read_file = λ name. none;
}

abbrev reply : Result Json
reply = ok (obj end)

-- Alice, with some client of v2
abbrev alice : V2Client → WebClient
alice v2 = record {
  v2 = v2;
  session = ok (obj (field "user" (obj (field "id" (str "alice") end)) end));
  health = reply;
  login = λ username password. reply;
  logout = reply;
  input = λ id. reply;
  run = λ id. reply;
  artifacts = λ id. reply;
  metrics = λ id. reply;
  timeline = λ id. reply;
  logs = λ id. reply;
  artifact_preview = λ id artifact_id. reply;
  artifact_excerpt = λ id artifact_id. reply;
}

abbrev web : WebClient
web = alice (client "run-3")

abbrev gds_request : Request
gds_request = record {
  content_length = some (some (pos 19));
  body = λ length. some (obj (field "pdk" (str "nangate45") end));
}

abbrev exchanges : List Exchange
exchanges =
    post_request "2" "/api/m1/rtl/rtl-1/gds" gds_request web
    ∷ get_request "2026-01-01T00:00:00Z" "/api/m1/runs/run-3" web
    ∷ []

exchanges-AllUnused : AllUnused app exchanges ready
unfolding lookup
exchanges-AllUnused = ((refl, refl), (tt, tt))

serve_all-Extends_example :
    Extends ready (serve_all app exchanges ready) × IsKeyed (serve_all app exchanges ready)
serve_all-Extends_example = serve_all-Extends app exchanges ready ready-IsKeyed exchanges-AllUnused

do_post-Guarded_example :
    PostAllowed (post_route "/api/m1/rtl/rtl-1/gds") web ready
    ⊎ ((e : Error) × (do_post app "2" "/api/m1/rtl/rtl-1/gds" gds_request web ready
          ≡ (handle_error app e, ready)))
do_post-Guarded_example = do_post-Guarded app "2" "/api/m1/rtl/rtl-1/gds" gds_request web ready

do_get-Guarded_example :
    GetAllowed (get_route "/api/m1/specs/spec-1") web ready
    ⊎ ((e : Error) × (do_get app "now" "/api/m1/specs/spec-1" web ready
          ≡ (handle_error app e, ready)))
do_get-Guarded_example = do_get-Guarded app "now" "/api/m1/specs/spec-1" web ready

abbrev specified_session : M1Session
specified_session = record frozen_session { state = specified; frozen_fingerprint = none }

abbrev assessed : Service
assessed = record in_memory { sessions = ("spec-1", specified_session) ∷ [] }

-- v2 is down when the oracle is uploaded.
abbrev down : WebClient
down = alice (record (client "run-1") { upload_rtl = λ source. err (v2_unavailable "down") })

alice_owns : owned_spec "spec-1" down assessed ≡ ok tt
unfolding owned_spec find_session owner_id identity_of lookup
alice_owns = refl

freezes : (freeze_spec constant_lib "spec-1" assessed).0 ≡ ok frozen_session
unfolding freeze_spec find_session ready_spec fingerprint save_session put_session validate_session
    validate_spec validate_ports collect_names validate_port validate_signal is_identifier
    is_id_char is_alnum is_blank text_length all_chars for_each lookup insert is_sha256 validate_id
    validate_state
freezes = refl

abbrev oracle : Oracle
oracle = record {
  verification_id = "counter-v2";
  source = counter_oracle;
  simulation_top = "counter_tb";
}

counter_course : oracle_for_top "counter" ≡ some oracle
unfolding oracle_for_top
counter_course = refl

freeze-stranded_example :
    let t = (post app "2" end down (PostRoute.freeze "spec-1") assessed).1 in
    ((post app "2" end down (PostRoute.freeze "spec-1") assessed).0 ≡ err (v2_unavailable "down"))
    × (t.verification_packages ≡ [])
    × (find_session "spec-1" t ≡ ok frozen_session)
    × ((uuid' : String) (payload' : Fields) (client' : WebClient)
        → (e' : Error) × (post app uuid' payload' client' (PostRoute.freeze "spec-1") t
            ≡ (err e', t)))
freeze-stranded_example =
    freeze-stranded app "2" end down "spec-1" assessed frozen_session counter_spec oracle
      (v2_unavailable "down") alice_owns freezes refl counter_course refl

-- A specification that is only questions yet
abbrev questions : Fields
questions = field "clarification_questions" (arr (cons (str "Which clock?") nil)) end

abbrev asked_document : Json
asked_document = obj (
    field "spec_id" (str "spec-9") (
      field "owner_id" (str "alice") (
        field "state" (str "needs_clarification") (
          field "spec" Json.null (
            field "clarification_questions" (arr (cons (str "Which clock?") nil))
              (field "unsupported_reason" Json.null (field "frozen_fingerprint" Json.null end)))))))

web_is_alice : owner_id web ≡ ok "alice"
unfolding owner_id identity_of
web_is_alice = refl

questions_made :
    (create_spec app "9" questions web in_memory).0 ≡ ok (one_field 201 "session" asked_document)
unfolding create_spec assess_document assess_spec owner_id identity_of save_session put_session
    validate_session validate_id validate_state is_blank is_identifier is_id_char is_alnum
    text_length all_chars lookup insert given_spec tuple_at traverse nonblank_of optional_of
    session_to_dict optional_spec
questions_made = refl

create_spec-get_spec_example :
    get_spec "spec-9" web (create_spec app "9" questions web in_memory).1
    ≡ ok (one_field 200 "session" asked_document)
create_spec-get_spec_example =
    create_spec-get_spec app "9" "alice" questions web in_memory asked_document web_is_alice
      questions_made
