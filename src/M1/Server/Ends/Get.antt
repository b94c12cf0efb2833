-- ===== src/M1/Server/Ends/Get.antt =====
-- Where a GET request to the M1 server can end.
use agentic_rtlto_gds_design.Prelude.{String, Option, none, some, inl, inr, [], arith, Bool-cases}
use agentic_rtlto_gds_design.Prelude.Action.{lift, lift_state, bind_state, ◌>>=◌}
use agentic_rtlto_gds_design.Prelude.Document.{object_of, field_or_null}
use agentic_rtlto_gds_design.Prelude.Json.{Json, bool, int, float, str, arr, obj, Fields}
use agentic_rtlto_gds_design.M1.Evidence.{record_gds_evidence}
use agentic_rtlto_gds_design.M1.History.Calls.{add_gds_evidence, observe, perform}
use agentic_rtlto_gds_design.M1.State.{Service}
use agentic_rtlto_gds_design.M1.Server.{owned_run, json, one_field, App, WebClient}
use agentic_rtlto_gds_design.M1.Server.Ends.{IsKept, reply_ends, call_ends}
use agentic_rtlto_gds_design.M1.Server.Get.{get}
use agentic_rtlto_gds_design.M1.Server.GetRuns.{
  gds_task_id, evidence_of_task, record_listed, has_result, artifacts_of, metrics_of, task_parts,
  observe_status, run_document, run_reply, require_parts, excerpt_text, netlist_reply, get_of_run,
  get_run, run_evidence,
}
use agentic_rtlto_gds_design.M1.Server.Routes.{RunRoute, GetRoute}

module _ (app : App) (P : Service → Type 0) (kept : IsKept app.lib P) where
  record_listed_ends :
      (now version_id run_id : String) (listed : Json) (pdk : String) (measures : Json)
      (s : Service)
      → P s
      → P (record_listed app now version_id run_id listed pdk measures s).1
  unfolding record_listed perform
  record_listed_ends now version_id run_id listed pdk measures s h =
      elim (Bool-cases (has_result run_id s)) [
        | inl held ↦
            let done = kept (add_gds_evidence now version_id run_id [] pdk []) s tt h in
            ground arith
        | inr new ↦
            let done =
              lift_state P (artifacts_of listed)
                (λ items. lift (metrics_of measures) >>= λ values.
                  record_gds_evidence app.lib now version_id run_id items pdk values)
                s h
                λ items _.
                  lift_state P (metrics_of measures)
                    (record_gds_evidence app.lib now version_id run_id items pdk) s h
                    λ values _.
                      kept (add_gds_evidence now version_id run_id items pdk values) s tt h in
            ground arith
      ]

  evidence_of_task_ends :
      (now run_id : String) (client : WebClient) (task : Option String) (s : Service)
      → P s
      → P (evidence_of_task app now run_id client task s).1
  unfolding evidence_of_task perform
  evidence_of_task_ends now run_id client none s h = h
  evidence_of_task_ends now run_id client (some task_id) s h =
      lift_state P (client.artifacts run_id) _ s h λ listed _.
        lift_state P (client.metrics run_id) _ s h λ measures _.
          let (version_id, pdk) = task_parts task_id in
          let done = record_listed_ends now version_id run_id listed pdk measures s h in
          bind_state P (record_listed app now version_id run_id listed pdk measures) _ s done
            λ r _. done

  run_evidence_ends :
      (now run_id : String) (fields : Fields) (client : WebClient) (s : Service)
      → P s
      → P (run_evidence app now run_id fields client s).1
  unfolding run_evidence
  run_evidence_ends now run_id fields client s h =
      lift_state P (gds_task_id fields) _ s h
        λ task _. evidence_of_task_ends now run_id client task s h

  observe_status_ends :
      (run_id : String) (status : Json) (s : Service) → P s → P (observe_status run_id status s).1
  unfolding observe_status perform
  observe_status_ends run_id (str status) s h = kept (observe run_id status) s tt h
  observe_status_ends run_id Json.null s h = h
  observe_status_ends run_id (bool b) s h = h
  observe_status_ends run_id (int n) s h = h
  observe_status_ends run_id (float x) s h = h
  observe_status_ends run_id (arr items) s h = h
  observe_status_ends run_id (obj fields) s h = h

  get_run_ends :
      (now run_id : String) (client : WebClient) (s : Service)
      → P s
      → P (get_run app now run_id client s).1
  unfolding get_run
  get_run_ends now run_id client s h = lift_state P (owned_run run_id client s) _ s h λ _ _.
      lift_state P (client.run run_id) _ s h λ document _.
        lift_state P (object_of document) _ s h λ observation _.
          lift_state P (object_of (run_document observation)) _ s h λ fields _.
            let status = field_or_null "status" fields in
            let observed = observe_status_ends run_id status s h in
            bind_state P (observe_status run_id status) _ s observed λ _ _.
              call_ends P (run_evidence app now run_id fields client)
                (run_reply (run_document observation)) (observe_status run_id status s).1
                (run_evidence_ends now run_id fields client (observe_status run_id status s).1
                  observed)

  get_of_run_ends :
      (now : String) (client : WebClient) (route : RunRoute) (s : Service)
      → P s
      → P (get_of_run app now client route s).1
  unfolding get_of_run
  get_of_run_ends now client (RunRoute.excerpt run_id id) s h =
      lift_state P (require_parts run_id id) _ s h λ _ _.
        lift_state P (owned_run run_id client s) _ s h
          λ _ _. reply_ends P (client.artifact_excerpt run_id id) (one_field 200 "excerpt") s h
  get_of_run_ends now client (RunRoute.preview run_id id) s h =
      lift_state P (require_parts run_id id) _ s h λ _ _.
        lift_state P (owned_run run_id client s) _ s h
          λ _ _. reply_ends P (client.artifact_preview run_id id) (one_field 200 "preview") s h
  get_of_run_ends now client (RunRoute.netlist run_id id) s h =
      lift_state P (owned_run run_id client s) _ s h λ _ _.
        lift_state P (client.artifact_excerpt run_id id) _ s h λ document _.
          lift_state P (object_of document) _ s h λ fields _.
            call_ends P (lift (app.render_netlist (excerpt_text fields))) (netlist_reply id) s h
  get_of_run_ends now client (RunRoute.timeline run_id) s h =
      lift_state P (owned_run run_id client s) _ s h
        λ _ _. reply_ends P (client.timeline run_id) (one_field 200 "timeline") s h
  get_of_run_ends now client (RunRoute.logs run_id) s h =
      lift_state P (owned_run run_id client s) _ s h
        λ _ _. reply_ends P (client.logs run_id) (json 200) s h
  get_of_run_ends now client (RunRoute.artifacts run_id) s h =
      lift_state P (owned_run run_id client s) _ s h
        λ _ _. reply_ends P (client.artifacts run_id) (one_field 200 "artifacts") s h
  get_of_run_ends now client (RunRoute.metrics run_id) s h =
      lift_state P (owned_run run_id client s) _ s h
        λ _ _. reply_ends P (client.metrics run_id) (one_field 200 "metrics") s h
  get_of_run_ends now client (RunRoute.run run_id) s h = get_run_ends now run_id client s h
  get_of_run_ends now client RunRoute.unsplit s h = h

  pub get_ends :
      (now : String) (client : WebClient) (route : GetRoute) (s : Service)
      → P s
      → P (get app now client route s).1
  unfolding get
  get_ends now client GetRoute.health s h = h
  get_ends now client GetRoute.session s h = h
  get_ends now client GetRoute.specs s h = h
  get_ends now client GetRoute.courses s h = h
  get_ends now client GetRoute.pdks s h = h
  get_ends now client GetRoute.silent s h = h
  get_ends now client GetRoute.nothing s h = h
  get_ends now client (GetRoute.versions id) s h = h
  get_ends now client (GetRoute.spec id) s h = h
  get_ends now client (GetRoute.rtl id) s h = h
  get_ends now client (GetRoute.evidence id) s h = h
  get_ends now client (GetRoute.of_run route) s h = get_of_run_ends now client route s h
  get_ends now client (GetRoute.file name content_type) s h = h
