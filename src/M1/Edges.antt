-- ===== src/M1/Edges.antt =====
-- Paths of `M1Service` on which a check comes after a write, or is passed by.
use agentic_rtlto_gds_design.Prelude.{
  String, ◌≡◌, refl, true, false, Option, none, some, arith, ◌==◌,
}
use agentic_rtlto_gds_design.Prelude.Text.{is_blank, ◌<>◌}
use agentic_rtlto_gds_design.Prelude.Dict.{lookup, lookup-insert_self}
use agentic_rtlto_gds_design.Prelude.Result.{Error, ok, err}
use agentic_rtlto_gds_design.M1.Models.{
  frozen, CheckStatus, not_run, running, passed, invalidated, M1Session, RtlVersion,
  validate_version_record,
}
use agentic_rtlto_gds_design.M1.Store.{put_version}
use agentic_rtlto_gds_design.M1.State.{Service, Stdlib, find_session, get_rtl_version, save_version}
use agentic_rtlto_gds_design.M1.V2.{TaskRequest, V2Client, submit_task}
use agentic_rtlto_gds_design.M1.Requests.{build_verification_request, build_simulation_request}
use agentic_rtlto_gds_design.M1.Versions.{
  invalidate, invalidate_parent, create_rtl_version, record_verification,
}
use agentic_rtlto_gds_design.M1.Submit.{submit_verification, submit_simulation}
use agentic_rtlto_gds_design.M1.Ends.{verified, simulated}

-- When v2 answers a simulation submission with a run id that is no bounded identifier, the call
-- raises, the service remembers the version as running under that id, and the store is as before.
pub submit_simulation-unsaved :
    (id run_id : String) (v2 : V2Client) (s : Service) (task : TaskRequest) (v : RtlVersion)
    (x : Error)
    → build_simulation_request id v2 s ≡ ok task
    → submit_task task v2 ≡ ok run_id
    → lookup id s.versions ≡ some v
    → validate_version_record (simulated running run_id v) ≡ err x
    → ((submit_simulation id v2 s).0 ≡ err x)
      × (lookup id (submit_simulation id v2 s).1.versions ≡ some (simulated running run_id v))
      × ((submit_simulation id v2 s).1.store ≡ s.store)
unfolding submit_simulation save_version get_rtl_version
submit_simulation-unsaved id run_id v2 s task v x built sent found bad = (
  ground arith,
  ground (arith, lookup-insert_self id (simulated running run_id v) s.versions),
  ground arith,
)

-- When v2 answers a verification submission with a run id that is no bounded identifier, the call
-- raises and changes nothing.
pub submit_verification-unsaved :
    (id run_id : String) (v2 : V2Client) (s : Service) (task : TaskRequest) (v : RtlVersion)
    (x : Error)
    → build_verification_request id v2 s ≡ ok task
    → submit_task task v2 ≡ ok run_id
    → lookup id s.versions ≡ some v
    → validate_version_record (verified running run_id v) ≡ err x
    → submit_verification id v2 s ≡ (err x, s)
unfolding submit_verification save_version get_rtl_version
submit_verification-unsaved id run_id v2 s task v x built sent found bad = ground arith

-- The check of a version does not read its statuses.
status_free :
    (a b : CheckStatus) (run_id : String) (v : RtlVersion)
    → validate_version_record (verified a run_id v) ≡ validate_version_record (verified b run_id v)
unfolding validate_version_record
status_free a b run_id v = refl

-- A version that was invalidated can be submitted for verification again, whenever its request is
-- built and v2 answers with a bounded run id: the call returns the run, and a passed result for it
-- is then recorded as for any other version.
pub submit_verification-revives :
    (id run_id : String) (v2 : V2Client) (s : Service) (task : TaskRequest) (v : RtlVersion)
    → v.verification_status ≡ invalidated
    → build_verification_request id v2 s ≡ ok task
    → submit_task task v2 ≡ ok run_id
    → lookup id s.versions ≡ some v
    → validate_version_record (verified running run_id v) ≡ ok tt
    → ((submit_verification id v2 s).0 ≡ ok run_id)
      × ((record_verification id passed run_id (submit_verification id v2 s).1).0
          ≡ ok (verified passed run_id v))
unfolding submit_verification record_verification save_version put_version get_rtl_version
submit_verification-revives id run_id v2 s task v old built sent found valid = (
  ground arith,
  ground (
    arith,
    lookup-insert_self id (verified running run_id v) s.versions,
    status_free running passed run_id v,
  ),
)

abbrev new_version :
    Stdlib → String → String → String → String → String → Option String → RtlVersion
new_version lib uuid spec_id source generator parent ref = record {
  version_id = "rtl-" <> uuid;
  spec_id = spec_id;
  rtl_sha256 = lib.sha256 source;
  generator = generator;
  verification_status = not_run;
  verification_run_id = none;
  simulation_status = not_run;
  simulation_run_id = none;
  parent_version_id = some parent;
  source_ref = ref;
}

-- When a new version of a frozen specification fails its own check, the call raises, and the valid
-- parent that it named has already lost its verification and simulation results.
pub create_rtl_version-loses_parent :
    (lib : Stdlib) (uuid spec_id source generator parent : String) (ref : Option String)
    (s : Service) (session : M1Session) (v : RtlVersion) (x : Error)
    → lookup spec_id s.sessions ≡ some session
    → session.state ≡ frozen
    → is_blank source ≡ false
    → lookup parent s.versions ≡ some v
    → (v.spec_id == spec_id) ≡ true
    → validate_version_record (invalidate v) ≡ ok tt
    → validate_version_record (new_version lib uuid spec_id source generator parent ref) ≡ err x
    → ((create_rtl_version lib uuid spec_id source generator (some parent) ref s).0 ≡ err x)
      × (lookup v.version_id
            (create_rtl_version lib uuid spec_id source generator (some parent) ref s).1.versions
          ≡ some (invalidate v))
unfolding create_rtl_version invalidate_parent save_version put_version get_rtl_version find_session
create_rtl_version-loses_parent lib uuid spec_id source generator parent ref s session v x f fz nb g
      own valid bad =
    (ground arith, ground (arith, lookup-insert_self v.version_id (invalidate v) s.versions))
