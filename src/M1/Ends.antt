-- ===== src/M1/Ends.antt =====
-- Where each operation of `M1Service` can end: a predicate holds of the attributes after it if it
-- holds of the attributes before it and of those that its writes make. The proofs of invariants
-- use these rules in place of the operations' code.
pub mod Records
pub mod Observe
use agentic_rtlto_gds_design.Prelude.{
  String, ◌≡◌, refl, inl, inr, true, false, Option, none, some, arith, Option-cases,
}
use agentic_rtlto_gds_design.Prelude.Text.{◌<>◌}
use agentic_rtlto_gds_design.Prelude.Dict.{lookup, insert}
use agentic_rtlto_gds_design.Prelude.Result.{Error, Result, ok, err, Result-cases}
use agentic_rtlto_gds_design.Prelude.Result
use agentic_rtlto_gds_design.M1.Models.{
  CheckStatus, not_run, running, is_passed, is_invalidated, is_result, RtlVersion,
  validate_version_record,
}
use agentic_rtlto_gds_design.M1.Store.{put_version}
use agentic_rtlto_gds_design.M1.State.{Service, Stdlib, get_rtl_version, save_version}
use agentic_rtlto_gds_design.M1.V2.{TaskRequest, V2Client, submit_task}
use agentic_rtlto_gds_design.M1.Requests.{build_verification_request, build_simulation_request}
use agentic_rtlto_gds_design.M1.Versions.{
  invalidate, invalidate_parent, create_rtl_version, record_verification, record_simulation,
}
use agentic_rtlto_gds_design.M1.Submit.{submit_verification, submit_simulation}

-- `self._versions[id] = w`
abbrev pub with_version : String → RtlVersion → Service → Service
with_version id w s = record s { versions = insert id w s.versions }

-- The row of `w` in the store.
abbrev pub with_version_row : RtlVersion → Service → Service
with_version_row w s = record s {
  store = record s.store { rtl_versions = insert w.version_id w s.store.rtl_versions };
}

abbrev pub verified : CheckStatus → String → RtlVersion → RtlVersion
verified status run_id v = record v {
  verification_status = status;
  verification_run_id = some run_id;
}

abbrev pub simulated : CheckStatus → String → RtlVersion → RtlVersion
simulated status run_id v = record v { simulation_status = status; simulation_run_id = some run_id }

module _ (P : Service → Type 0) where
  pub save_version_ends :
      (w : RtlVersion) (s : Service)
      → P s
      → (validate_version_record w ≡ ok tt → P (with_version_row w s))
      → P (save_version w s).1
  unfolding save_version put_version
  save_version_ends w s h k = elim (Result-cases (validate_version_record w)) [
    | inl (u, e) ↦ let done = k e in ground arith
    | inr (x, e) ↦ ground arith
  ]

  pub record_verification_ends :
      (id run_id : String) (status : CheckStatus) (s : Service)
      → P s
      → ((v : RtlVersion)
          → lookup id s.versions ≡ some v
          → is_invalidated v.verification_status ≡ false
          → is_result status ≡ true
          → validate_version_record (verified status run_id v) ≡ ok tt
          → P (
              with_version_row
                (verified status run_id v)
                (with_version id (verified status run_id v) s)))
      → P (record_verification id status run_id s).1
  unfolding record_verification save_version put_version get_rtl_version
  record_verification_ends id run_id status s h k = elim (Option-cases (lookup id s.versions)) [
    | inl e ↦ ground arith
    | inr (v, e) ↦ let done = k v e in ground arith
  ]

  pub record_simulation_ends :
      (id run_id : String) (status : CheckStatus) (s : Service)
      → P s
      → ((v : RtlVersion)
          → lookup id s.versions ≡ some v
          → is_passed v.verification_status ≡ true
          → is_result status ≡ true
          → validate_version_record (simulated status run_id v) ≡ ok tt
          → P (
              with_version_row
                (simulated status run_id v)
                (with_version id (simulated status run_id v) s)))
      → P (record_simulation id status run_id s).1
  unfolding record_simulation save_version put_version get_rtl_version
  record_simulation_ends id run_id status s h k = elim (Option-cases (lookup id s.versions)) [
    | inl e ↦ ground arith
    | inr (v, e) ↦ let done = k v e in ground arith
  ]

  -- The row is written first.
  pub submit_verification_ends :
      (id : String) (v2 : V2Client) (s : Service)
      → P s
      → ((v : RtlVersion) (run_id : String)
          → lookup id s.versions ≡ some v
          → validate_version_record (verified running run_id v) ≡ ok tt
          → P (
              with_version id
                (verified running run_id v)
                (with_version_row (verified running run_id v) s)))
      → P (submit_verification id v2 s).1
  unfolding submit_verification save_version put_version get_rtl_version
  submit_verification_ends id v2 s h k = elim (Result-cases (build_verification_request id v2 s)) [
    | inl (task, b) ↦ elim (Result-cases (submit_task task v2)) [
      | inl (run_id, r) ↦ elim (Option-cases (lookup id s.versions)) [
        | inl e ↦ ground arith
        | inr (v, e) ↦ let done = k v run_id e in ground arith
      ]
      | inr (x, r) ↦ ground arith
    ]
    | inr (x, b) ↦ ground arith
  ]

  -- The version is remembered first, and stays remembered if the row is refused.
  pub submit_simulation_ends :
      (id : String) (v2 : V2Client) (s : Service)
      → P s
      → ((v : RtlVersion) (run_id : String) (task : TaskRequest) (x : Error)
          → lookup id s.versions ≡ some v
          → submit_task task v2 ≡ ok run_id
          → validate_version_record (simulated running run_id v) ≡ err x
          → P (with_version id (simulated running run_id v) s))
      → ((v : RtlVersion) (run_id : String)
          → lookup id s.versions ≡ some v
          → validate_version_record (simulated running run_id v) ≡ ok tt
          → P (
              with_version_row
                (simulated running run_id v)
                (with_version id (simulated running run_id v) s)))
      → P (submit_simulation id v2 s).1
  unfolding submit_simulation save_version put_version get_rtl_version
  submit_simulation_ends id v2 s h k l = elim (Result-cases (build_simulation_request id v2 s)) [
    | inl (task, b) ↦ elim (Result-cases (submit_task task v2)) [
      | inl (run_id, r) ↦ elim (Option-cases (lookup id s.versions)) [
        | inl e ↦ ground arith
        | inr (v, e) ↦ elim (Result-cases (validate_version_record (simulated running run_id v))) [
          | inl (u, valid) ↦ let done = l v run_id e valid in ground arith
          | inr (x, bad) ↦ let unsaved = k v run_id task x e r bad in ground arith
        ]
      ]
      | inr (x, r) ↦ ground arith
    ]
    | inr (x, b) ↦ ground arith
  ]

  pub invalidate_parent_ends :
      (spec_id : String) (parent : Option String) (s : Service)
      → P s
      → ((id : String) (v : RtlVersion)
          → lookup id s.versions ≡ some v
          → ((x : Error)
              → validate_version_record (invalidate v) ≡ err x
              → P (with_version v.version_id (invalidate v) s))
            × (validate_version_record (invalidate v) ≡ ok tt
                → P (with_version_row (invalidate v) (with_version v.version_id (invalidate v) s))))
      → P (invalidate_parent spec_id parent s).1
  unfolding invalidate_parent save_version put_version get_rtl_version
  invalidate_parent_ends spec_id none s h k = h
  invalidate_parent_ends spec_id (some id) s h k = elim (Option-cases (lookup id s.versions)) [
    | inl e ↦ ground arith
    | inr (v, e) ↦
        let (unsaved, saved) = k id v e in
        elim (Result-cases (validate_version_record (invalidate v))) [
          | inl (u, valid) ↦ let done = saved valid in ground arith
          | inr (x, bad) ↦ let half = unsaved x bad in ground arith
        ]
  ]

  -- A new version is written in the state that the invalidation of its parent leaves.
  pub create_rtl_version_ends :
      (lib : Stdlib) (uuid spec_id rtl_source generator : String)
      (parent source_ref : Option String) (s : Service)
      → P s
      → P (invalidate_parent spec_id parent s).1
      → ((t : Service) (w : RtlVersion)
          → t ≡ (invalidate_parent spec_id parent s).1
          → w.version_id ≡ "rtl-" <> uuid
          → validate_version_record w ≡ ok tt
          → P (with_version_row w (with_version w.version_id w t)))
      → P (create_rtl_version lib uuid spec_id rtl_source generator parent source_ref s).1
  unfolding create_rtl_version save_version put_version
  create_rtl_version_ends lib uuid spec_id rtl_source generator parent source_ref s h k l =
      let w : RtlVersion = record {
        version_id = "rtl-" <> uuid;
        spec_id = spec_id;
        rtl_sha256 = lib.sha256 rtl_source;
        generator = generator;
        verification_status = not_run;
        verification_run_id = none;
        simulation_status = not_run;
        simulation_run_id = none;
        parent_version_id = parent;
        source_ref = source_ref;
      } in
      let done = l (invalidate_parent spec_id parent s).1 w refl refl in ground arith
