-- ===== src/M1/Server/Ends/Post.antt =====
-- Where a POST request to the M1 server can end.
use agentic_rtlto_gds_design.Prelude.{
  Option-cases, String, not, ◌&&◌, Option, none, some, List, [], ◌==◌, inl, inr,
}
use agentic_rtlto_gds_design.Prelude.Action.{◌>>=◌, if_state, lift_state, bind_state, when_state}
use agentic_rtlto_gds_design.Prelude.Document.{
  nonblank_texts, nonblank_of, optional_of, object_of, string_of, has_field, is_null, field_or_null,
  tuple_at,
}
use agentic_rtlto_gds_design.Prelude.Json.{
  field, end, Json, bool, int, float, str, arr, obj, Fields,
}
use agentic_rtlto_gds_design.Contracts.RtlFrontend.{validate_spec, SpecIr}
use agentic_rtlto_gds_design.M1.Documents.{session_to_dict, version_to_dict}
use agentic_rtlto_gds_design.M1.History.Calls.{
  assess, freeze, create_from_v2, register, verify, simulate, make_gds, perform,
}
use agentic_rtlto_gds_design.M1.Models.{is_frozen, M1Session}
use agentic_rtlto_gds_design.M1.Oracles.{Oracle, oracle_for_top}
use agentic_rtlto_gds_design.M1.Sessions.{assess_spec, freeze_spec}
use agentic_rtlto_gds_design.M1.State.{find_session, Service}
use agentic_rtlto_gds_design.M1.Submit.{
  create_rtl_version_from_v2, register_verification_package, submit_verification, submit_simulation,
  submit_rtl_to_gds,
}
use agentic_rtlto_gds_design.M1.V2.{V2Client}
use agentic_rtlto_gds_design.M1.Server.{
  owner_id, owned_spec, owned_version, json, one_field, App, WebClient,
}
use agentic_rtlto_gds_design.M1.Server.Ends.{IsUnused, IsKept, reply_ends, call_ends}
use agentic_rtlto_gds_design.M1.Server.Post.{no_pdk, submitted, post}
use agentic_rtlto_gds_design.M1.Server.Routes.{PostRoute}
use agentic_rtlto_gds_design.M1.Server.Specs.{
  names_owner, two_sources, bad_questions, bad_reason, no_reason, no_description, no_source,
  no_generator, bad_parent, generation_payload, no_rtl, given_spec, asked, upload_oracle,
  frozen_given, specified_document, assess_status, session_reply, teaching_package, assess_document,
  assess_description, create_spec, register_teaching_package, register_oracle, create_rtl, generate,
}

module _ (app : App) (P : Service → Type 0) (kept : IsKept app.lib P) where
  -- A new session and the reply about it
  assessed_ends :
      (uuid owner : String) (spec : Option SpecIr) (questions : List String)
      (reason : Option String) (s : Service)
      → IsUnused uuid s
      → P s
      → P ((assess_spec uuid owner spec questions reason >>= session_reply 201) s).1
  unfolding perform
  assessed_ends uuid owner spec questions reason s free h =
      let done = kept (assess uuid owner spec questions reason) s free.0 h in
      bind_state P (assess_spec uuid owner spec questions reason) _ s done
        λ session _. reply_ends P (session_to_dict session) (one_field 201 "session") _ done

  assess_document_ends :
      (uuid owner : String) (raw_spec : Json) (payload : Fields) (s : Service)
      → IsUnused uuid s
      → P s
      → P (assess_document uuid owner raw_spec payload s).1
  unfolding assess_document
  assess_document_ends uuid owner raw_spec payload s free h =
      lift_state P (given_spec raw_spec) _ s h λ spec _.
        lift_state P (tuple_at "clarification_questions" payload) _ s h λ items _.
          lift_state P (nonblank_texts bad_questions items) _ s h λ questions _.
            lift_state P (optional_of bad_reason (field_or_null "unsupported_reason" payload)) _ s h
              λ reason _. assessed_ends uuid owner spec questions reason s free h

  specified_document_ends :
      (uuid owner : String) (raw_spec : Json) (payload : Fields) (s : Service)
      → IsUnused uuid s
      → P s
      → P (specified_document uuid owner raw_spec payload s).1
  unfolding specified_document
  specified_document_ends uuid owner (obj fields) payload s free h =
      assess_document_ends uuid owner (obj fields) payload s free h
  specified_document_ends uuid owner Json.null payload s free h = h
  specified_document_ends uuid owner (bool b) payload s free h = h
  specified_document_ends uuid owner (int n) payload s free h = h
  specified_document_ends uuid owner (float x) payload s free h = h
  specified_document_ends uuid owner (str t) payload s free h = h
  specified_document_ends uuid owner (arr items) payload s free h = h

  assess_status_ends :
      (uuid owner : String) (status : Json) (assessment payload : Fields) (s : Service)
      → IsUnused uuid s
      → P s
      → P (assess_status uuid owner status assessment payload s).1
  unfolding assess_status
  assess_status_ends uuid owner (str state) assessment payload s free h =
      if_state P (state == "needs_clarification") _ _ s
        (lift_state P (asked (field_or_null "questions" assessment)) _ s h λ items _.
          lift_state P (nonblank_texts bad_questions items) _ s h
            λ questions _. assessed_ends uuid owner none questions none s free h)
        (if_state P (state == "unsupported_scope") _ _ s
          (lift_state P (nonblank_of no_reason (field_or_null "reason" assessment)) _ s h
            λ reason _. assessed_ends uuid owner none [] (some reason) s free h)
          (if_state P (state == "specified") _ _ s
            (specified_document_ends uuid owner (field_or_null "spec" assessment) payload s free h)
            h))
  assess_status_ends uuid owner Json.null assessment payload s free h = h
  assess_status_ends uuid owner (bool b) assessment payload s free h = h
  assess_status_ends uuid owner (int n) assessment payload s free h = h
  assess_status_ends uuid owner (float x) assessment payload s free h = h
  assess_status_ends uuid owner (arr items) assessment payload s free h = h
  assess_status_ends uuid owner (obj fields) assessment payload s free h = h

  create_spec_ends :
      (uuid : String) (payload : Fields) (client : WebClient) (s : Service)
      → IsUnused uuid s
      → P s
      → P (create_spec app uuid payload client s).1
  unfolding create_spec assess_description
  create_spec_ends uuid payload client s free h = lift_state P (owner_id client) _ s h λ owner _.
      when_state P (has_field "owner_id" payload) names_owner _ s h λ _.
        when_state P
          (not (is_null (field_or_null "spec" payload))
            && not (is_null (field_or_null "description" payload)))
          two_sources _ s h
          λ _.
            if_state P (is_null (field_or_null "description" payload)) _ _ s
              (assess_document_ends uuid owner (field_or_null "spec" payload) payload s free h)
              (lift_state P (nonblank_of no_description (field_or_null "description" payload)) _ s h
                λ text _. lift_state P (app.assess text) _ s h λ reply _.
                  lift_state P (object_of reply) _ s h λ assessment _.
                    assess_status_ends uuid owner (field_or_null "status" assessment) assessment
                      payload s free h)

  register_oracle_ends :
      (oracle : Option Oracle) (spec_id : String) (client : WebClient) (s : Service)
      → P s
      → P (register_oracle oracle spec_id client s).1
  unfolding register_oracle perform
  register_oracle_ends none spec_id client s h = h
  register_oracle_ends (some oracle) spec_id client s h =
      lift_state P (upload_oracle oracle.source client) _ s h λ ref _.
        let pack = teaching_package oracle spec_id ref in
        bind_state P (register_verification_package spec_id pack) _ s
          (kept (register spec_id pack) s tt h) λ _ _. kept (register spec_id pack) s tt h

  register_teaching_package_ends :
      (x : M1Session) (client : WebClient) (s : Service)
      → P s
      → P (register_teaching_package x client s).1
  unfolding register_teaching_package
  register_teaching_package_ends x client s h = elim (Option-cases x.spec) [
    | inl e ↦ rw e h
    | inr (spec, e) ↦ rw e (
        if_state P (is_frozen x.state) _ _ s
          (register_oracle_ends (oracle_for_top spec.top) x.spec_id client s h) h)
  ]

  created_ends :
      (uuid spec_id source generator : String) (v2 : V2Client) (parent : Option String)
      (s : Service)
      → IsUnused uuid s
      → P s
      → P (create_rtl_version_from_v2 app.lib uuid spec_id source generator v2 parent s).1
  unfolding perform
  created_ends uuid spec_id source generator v2 parent s free h =
      kept (create_from_v2 uuid spec_id source generator v2 parent) s free.1 h

  create_rtl_ends :
      (uuid spec_id : String) (payload : Fields) (client : WebClient) (s : Service)
      → IsUnused uuid s
      → P s
      → P (create_rtl app uuid spec_id payload client s).1
  unfolding create_rtl
  create_rtl_ends uuid spec_id payload client s free h =
      lift_state P (nonblank_of no_source (field_or_null "rtl_source" payload)) _ s h λ source _.
        lift_state P (nonblank_of no_generator (field_or_null "generator" payload)) _ s h
          λ generator _.
            lift_state P (optional_of bad_parent (field_or_null "parent_version_id" payload)) _ s h
              λ parent _.
                let done = created_ends uuid spec_id source generator client.v2 parent s free h in
                bind_state P
                  (create_rtl_version_from_v2 app.lib uuid spec_id source generator client.v2
                    parent)
                  _ s done
                  λ v _. reply_ends P (version_to_dict v) (one_field 201 "rtl_version") _ done

  generate_ends :
      (uuid spec_id : String) (client : WebClient) (s : Service)
      → IsUnused uuid s
      → P s
      → P (generate app uuid spec_id client s).1
  unfolding generate
  generate_ends uuid spec_id client s free h = lift_state P (find_session spec_id s) _ s h λ x _.
      lift_state P (frozen_given x) _ s h λ spec _. lift_state P (validate_spec spec) _ s h λ _ _.
        lift_state P (app.generate (generation_payload spec_id spec)) _ s h λ output _.
          lift_state P (nonblank_of no_rtl output) _ s h
            λ source _. created_ends uuid spec_id source "direct_llm" client.v2 none s free h

  pub post_ends :
      (uuid : String) (payload : Fields) (client : WebClient) (route : PostRoute) (s : Service)
      → IsUnused uuid s
      → P s
      → P (post app uuid payload client route s).1
  unfolding post perform
  post_ends uuid payload client PostRoute.login s free h = h
  post_ends uuid payload client PostRoute.logout s free h =
      reply_ends P client.logout (json 200) s h
  post_ends uuid payload client PostRoute.create_spec s free h =
      create_spec_ends uuid payload client s free h
  post_ends uuid payload client (PostRoute.freeze id) s free h =
      lift_state P (owned_spec id client s) _ s h λ _ _.
        let frozen = kept (freeze id) s tt h in
        bind_state P (freeze_spec app.lib id) _ s frozen λ x _.
          let t = (freeze_spec app.lib id s).1 in
          let registered = register_teaching_package_ends x client t frozen in
          bind_state P (register_teaching_package x client) _ t registered λ _ _.
            reply_ends P (session_to_dict x) (one_field 200 "session")
              (register_teaching_package x client t).1 registered
  post_ends uuid payload client (PostRoute.generate id) s free h =
      lift_state P (owned_spec id client s) _ s h λ _ _.
        let done = generate_ends uuid id client s free h in
        bind_state P (generate app uuid id client) _ s done
          λ v _. reply_ends P (version_to_dict v) (one_field 201 "rtl_version") _ done
  post_ends uuid payload client (PostRoute.create_rtl id) s free h =
      lift_state P (owned_spec id client s) _ s h
        λ _ _. create_rtl_ends uuid id payload client s free h
  post_ends uuid payload client (PostRoute.verify id) s free h =
      lift_state P (owned_version id client s) _ s h λ _ _.
        call_ends P (submit_verification id client.v2) (λ run_id. submitted run_id end) s
          (kept (verify id client.v2) s tt h)
  post_ends uuid payload client (PostRoute.simulate id) s free h =
      lift_state P (owned_version id client s) _ s h λ _ _.
        call_ends P (submit_simulation id client.v2) (λ run_id. submitted run_id end) s
          (kept (simulate id client.v2) s tt h)
  post_ends uuid payload client (PostRoute.gds id) s free h =
      lift_state P (owned_version id client s) _ s h λ _ _.
        lift_state P (string_of no_pdk (field_or_null "pdk" payload)) _ s h λ pdk _.
          call_ends P (submit_rtl_to_gds app.lib id pdk client.v2)
            (λ run_id. submitted run_id (field "pdk" (str pdk) end)) s
            (kept (make_gds id pdk client.v2) s tt h)
  post_ends uuid payload client PostRoute.unknown s free h = h
