-- ===== src/M1/Gates.antt =====
-- `build_rtl_to_gds_request` and `submit_rtl_to_gds` of `M1Service`: what a version needs for them.
use agentic_rtlto_gds_design.Prelude.{
  String, ◌≡◌, sym, ap, ◌∙◌, ◌↔◌, inl, inr, true, false, some, List, arith, ◌==◌, Option-cases,
}
use agentic_rtlto_gds_design.Prelude.Text.{is_empty}
use agentic_rtlto_gds_design.Prelude.Lists.{any}
use agentic_rtlto_gds_design.Prelude.Json.{Json}
use agentic_rtlto_gds_design.Prelude.Dict.{lookup, lookup-insert_self}
use agentic_rtlto_gds_design.Prelude.Result.{ok, Result-cases, ok_inj}
use agentic_rtlto_gds_design.Contracts.RtlFrontend.{SpecIr, VerificationPackage}
use agentic_rtlto_gds_design.M1.Models.{frozen, passed, M1Session, RtlVersion}
use agentic_rtlto_gds_design.M1.Store.{put_run_owner, run_owner}
use agentic_rtlto_gds_design.M1.State.{Service, Stdlib, find_session, get_rtl_version, fingerprint}
use agentic_rtlto_gds_design.M1.V2.{Plugin, TaskRequest, V2Client, require_admitted, submit_task}
use agentic_rtlto_gds_design.M1.Requests.{frozen_spec, given_text, find_package}
use agentic_rtlto_gds_design.M1.Requests.Gds.{build_rtl_to_gds_request, clock_period}
use agentic_rtlto_gds_design.M1.Submit.{submit_rtl_to_gds}
use agentic_rtlto_gds_design.M1.Requests.Gds.{gds_task}
use agentic_rtlto_gds_design.M1.V2.{is_admitted}

-- Everything that `submit_rtl_to_gds` asks for, with the records that it finds.
pub record GdsReady (lib : Stdlib) (id pdk : String) (v2 : V2Client) (s : Service) : Type 0 where
  pub version : RtlVersion
  pub session : M1Session
  pub spec : SpecIr
  pub pack : VerificationPackage
  pub source : String
  pub items : List Plugin
  pub digest : String
  pub period : Json
  pub version_found : lookup id s.versions ≡ some version
  pub session_found : lookup version.spec_id s.sessions ≡ some session
  pub spec_frozen : session.state ≡ frozen
  pub spec_given : session.spec ≡ some spec
  pub pack_found : lookup version.spec_id s.verification_packages ≡ some pack
  pub verification_passed : version.verification_status ≡ passed
  pub simulation_passed : version.simulation_status ≡ passed
  pub source_given : version.source_ref ≡ some source
  pub source_named : is_empty source ≡ false
  pub pdk_supported : (pdk == "nangate45") ≡ true
  pub plugins_listed : v2.plugins ≡ ok items
  pub orfs_admitted : any (is_admitted "orfs" "eda.rtl_to_gds") items ≡ true
  pub digest_of : fingerprint lib spec ≡ ok digest
  pub period_of : clock_period spec ≡ ok period

abbrev pub ready_task :
    (lib : Stdlib) (id pdk : String) (v2 : V2Client) (s : Service)
    → GdsReady lib id pdk v2 s
    → TaskRequest
ready_task lib id pdk v2 s r = gds_task r.version r.spec r.pack pdk r.source r.digest r.period

-- With everything there, the request is built.
ready_task-built :
    (lib : Stdlib) (id pdk : String) (v2 : V2Client) (s : Service) (r : GdsReady lib id pdk v2 s)
    → build_rtl_to_gds_request lib id pdk v2 s ≡ ok (ready_task lib id pdk v2 s r)
unfolding build_rtl_to_gds_request get_rtl_version find_session frozen_spec given_text find_package
    require_admitted
ready_task-built lib id pdk v2 s r = ground arith

-- A request that is built found everything.
build-GdsReady :
    (lib : Stdlib) (id pdk : String) (v2 : V2Client) (s : Service) (task : TaskRequest)
    → build_rtl_to_gds_request lib id pdk v2 s ≡ ok task
    → GdsReady lib id pdk v2 s
unfolding build_rtl_to_gds_request get_rtl_version find_session frozen_spec given_text find_package
    require_admitted
build-GdsReady lib id pdk v2 s task h = elim (Option-cases (lookup id s.versions)) [
  | inl e ↦ absurd (ground arith)
  | inr (v, e) ↦ elim (Option-cases v.source_ref) [
    | inl g ↦ absurd (ground arith)
    | inr (source, g) ↦ elim (Option-cases (lookup v.spec_id s.sessions)) [
      | inl f ↦ absurd (ground arith)
      | inr (x, f) ↦ elim (Option-cases x.spec) [
        | inl q ↦ absurd (ground arith)
        | inr (spec, q) ↦ elim (Option-cases (lookup v.spec_id s.verification_packages)) [
          | inl p ↦ absurd (ground arith)
          | inr (pack, p) ↦ elim (Result-cases v2.plugins) [
            | inr (y, i) ↦ absurd (ground arith)
            | inl (items, i) ↦ elim (Result-cases (fingerprint lib spec)) [
              | inr (y, d) ↦ absurd (ground arith)
              | inl (digest, d) ↦ elim (Result-cases (clock_period spec)) [
                | inr (y, c) ↦ absurd (ground arith)
                | inl (period, c) ↦ record {
                  version = v;
                  session = x;
                  spec = spec;
                  pack = pack;
                  source = source;
                  items = items;
                  digest = digest;
                  period = period;
                  version_found = e;
                  session_found = f;
                  spec_frozen = ground arith;
                  spec_given = q;
                  pack_found = p;
                  verification_passed = ground arith;
                  simulation_passed = ground arith;
                  source_given = g;
                  source_named = ground arith;
                  pdk_supported = ground arith;
                  plugins_listed = i;
                  orfs_admitted = ground arith;
                  digest_of = d;
                  period_of = c;
                }
              ]
            ]
          ]
        ]
      ]
    ]
  ]
]

-- The GDS request is built exactly when the version and its specification are known, the
-- specification is frozen, its verification package is registered, verification and simulation
-- have passed, the source is staged, the PDK is nangate45, v2 admits the `orfs` plugin, and the
-- fingerprint and the clock period are there; the request is then the one for those records.
pub build_rtl_to_gds_request_iff :
    (lib : Stdlib) (id pdk : String) (v2 : V2Client) (s : Service) (task : TaskRequest)
    → (build_rtl_to_gds_request lib id pdk v2 s ≡ ok task)
      ↔ ((r : GdsReady lib id pdk v2 s) × (task ≡ ready_task lib id pdk v2 s r))
build_rtl_to_gds_request_iff lib id pdk v2 s task = (
  (λ h.
      let r = build-GdsReady lib id pdk v2 s task h in
      (r, ok_inj _ _ (sym h ∙ ready_task-built lib id pdk v2 s r))),
  λ (r, e). ready_task-built lib id pdk v2 s r ∙ ap ok (sym e),
)

found_version :
    (id : String) (s : Service) (v : RtlVersion)
    → lookup id s.versions ≡ some v
    → get_rtl_version id s ≡ ok v
unfolding get_rtl_version
found_version id s v e = ground arith

found_session :
    (id : String) (s : Service) (x : M1Session)
    → lookup id s.sessions ≡ some x
    → find_session id s ≡ ok x
unfolding find_session
found_session id s x e = ground arith

submitted_owner :
    (lib : Stdlib) (id pdk : String) (v2 : V2Client) (s : Service) (run_id : String)
    (task : TaskRequest) (v : RtlVersion) (x : M1Session)
    → build_rtl_to_gds_request lib id pdk v2 s ≡ ok task
    → get_rtl_version id s ≡ ok v
    → find_session v.spec_id s ≡ ok x
    → (submit_rtl_to_gds lib id pdk v2 s).0 ≡ ok run_id
    → run_owner run_id (submit_rtl_to_gds lib id pdk v2 s).1.store ≡ some x.owner_id
unfolding submit_rtl_to_gds put_run_owner run_owner
submitted_owner lib id pdk v2 s run_id task v x b e f h =
    elim (Result-cases (submit_task task v2)) [
      | inl (run, r) ↦ ground (arith, lookup-insert_self run x.owner_id s.store.run_owners)
      | inr (y, r) ↦ absurd (ground arith)
    ]

-- A submission to the GDS flow that returns a run found everything ready, and the run now belongs
-- to the owner of the specification.
pub submit_rtl_to_gds-ready :
    (lib : Stdlib) (id pdk : String) (v2 : V2Client) (s : Service) (run_id : String)
    → (submit_rtl_to_gds lib id pdk v2 s).0 ≡ ok run_id
    → (r : GdsReady lib id pdk v2 s) × (run_owner run_id (submit_rtl_to_gds lib id pdk v2 s).1.store
        ≡ some r.session.owner_id)
unfolding submit_rtl_to_gds
submit_rtl_to_gds-ready lib id pdk v2 s run_id h =
    elim (Result-cases (build_rtl_to_gds_request lib id pdk v2 s)) [
      | inl (task, b) ↦
          let r = build-GdsReady lib id pdk v2 s task b in
          (
            r,
            submitted_owner lib id pdk v2 s run_id task r.version r.session b
                (found_version id s r.version r.version_found)
                (found_session r.version.spec_id s r.session r.session_found) h,
          )
      | inr (y, b) ↦ absurd (ground arith)
    ]
