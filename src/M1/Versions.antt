-- ===== src/M1/Versions.antt =====
-- The operations of `M1Service` on RTL versions
-- (apps/m1_rtl_to_gds/src/openroad_app_m1/service.py): creation, and the results of verification
-- and simulation. A fresh `uuid4` is an argument.
use agentic_rtlto_gds_design.Prelude.{
  String, Option, none, some, List, [], ◌∷◌, if◌then◌else◌, ◌==◌,
}
use agentic_rtlto_gds_design.Prelude.Text.{is_blank, ◌<>◌}
use agentic_rtlto_gds_design.Prelude.Dict.{Dict, insert}
use agentic_rtlto_gds_design.Prelude.Result.{value_error, Result, ok}
use agentic_rtlto_gds_design.Prelude.Result
use agentic_rtlto_gds_design.Prelude.Action.{
  Action, pure, lift, modify, raise_when, raise_unless, ◌>>=◌, ◌>>◌,
}
use agentic_rtlto_gds_design.M1.Models.{
  CheckStatus, not_run, invalidated, is_frozen, is_passed, is_invalidated, is_result, RtlVersion,
  validate_version_record,
}
use agentic_rtlto_gds_design.M1.State.{
  Service, Stdlib, query, find_session, get_rtl_version, save_version, remember_version,
}

-- The parent of a new version loses both of its results.
abbrev pub invalidate : RtlVersion → RtlVersion
invalidate parent = record parent {
  verification_status = invalidated;
  verification_run_id = none;
  simulation_status = invalidated;
  simulation_run_id = none;
}

unfoldable pub invalidate_parent : String → Option String → Action Service (Unit {0})
invalidate_parent spec_id none = pure tt
invalidate_parent spec_id (some parent_version_id) = do
  parent ← query (get_rtl_version parent_version_id)
  raise_unless (parent.spec_id == spec_id) (value_error "RTL parent belongs to another spec")
  remember_version (invalidate parent)
  save_version (invalidate parent)

unfoldable pub create_rtl_version :
    Stdlib
    → String
    → String
    → String
    → String
    → Option String
    → Option String
    → Action Service RtlVersion
create_rtl_version lib uuid spec_id rtl_source generator parent_version_id source_ref = do
  session ← query (find_session spec_id)
  raise_unless (is_frozen session.state) (value_error "RTL requires a frozen spec")
  raise_when (is_blank rtl_source) (value_error "RTL source must be non-empty")
  invalidate_parent spec_id parent_version_id
  let version : RtlVersion = record {
    version_id = "rtl-" <> uuid;
    spec_id = spec_id;
    rtl_sha256 = lib.sha256 rtl_source;
    generator = generator;
    verification_status = not_run;
    verification_run_id = none;
    simulation_status = not_run;
    simulation_run_id = none;
    parent_version_id = parent_version_id;
    source_ref = source_ref;
  }
  lift (validate_version_record version)
  remember_version version
  save_version version
  pure version

unfoldable pub record_verification : String → CheckStatus → String → Action Service RtlVersion
record_verification version_id status run_id = do
  version ← query (get_rtl_version version_id)
  raise_when (is_invalidated version.verification_status)
      (value_error "cannot record verification for an invalidated RTL version")
  raise_unless (is_result status) (value_error "verification result must be passed or failed")
  let updated : RtlVersion = record version {
    verification_status = status;
    verification_run_id = some run_id;
  }
  lift (validate_version_record updated)
  modify (λ s. record s { versions = insert version_id updated s.versions })
  save_version updated
  pure updated

unfoldable pub record_simulation : String → CheckStatus → String → Action Service RtlVersion
record_simulation version_id status run_id = do
  version ← query (get_rtl_version version_id)
  raise_unless (is_passed version.verification_status)
      (value_error "cannot record simulation before verification passes")
  raise_unless (is_result status) (value_error "simulation result must be passed or failed")
  let updated : RtlVersion = record version {
    simulation_status = status;
    simulation_run_id = some run_id;
  }
  lift (validate_version_record updated)
  modify (λ s. record s { versions = insert version_id updated s.versions })
  save_version updated
  pure updated

-- `list_rtl_versions`
unfoldable pub versions_of : String → Dict RtlVersion → List RtlVersion
versions_of spec_id [] = []
versions_of spec_id ((k, v) ∷ d) =
    let rest = versions_of spec_id d in if v.spec_id == spec_id then v ∷ rest else rest

unfoldable pub list_rtl_versions : String → Service → Result (List RtlVersion)
unfolding find_session versions_of
list_rtl_versions spec_id s =
    Result.◌>>=◌ (find_session spec_id s) (λ session. ok (versions_of spec_id s.versions))
