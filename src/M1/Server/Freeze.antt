-- ===== src/M1/Server/Freeze.antt =====
-- The freeze request of apps/m1_rtl_to_gds/src/openroad_app_m1/server.py, which freezes a session and
-- then uploads and registers its teaching package.
use agentic_rtlto_gds_design.Prelude.{String, ◌≡◌, refl, inl, inr, some, arith}
use agentic_rtlto_gds_design.Prelude.Dict.{lookup-insert_self}
use agentic_rtlto_gds_design.Prelude.Json.{Fields}
use agentic_rtlto_gds_design.Prelude.Result.{Error, value_error, ok, err, Result-cases}
use agentic_rtlto_gds_design.Contracts.RtlFrontend.{SpecIr}
use agentic_rtlto_gds_design.M1.Models.{frozen, M1Session, validate_session}
use agentic_rtlto_gds_design.M1.Oracles.{Oracle, oracle_for_top}
use agentic_rtlto_gds_design.M1.Sessions.{ready_spec, freeze_spec}
use agentic_rtlto_gds_design.M1.State.{Service, Stdlib, find_session, fingerprint, save_session}
use agentic_rtlto_gds_design.M1.Store.{put_session}
use agentic_rtlto_gds_design.M1.Server.{App, WebClient, owned_spec}
use agentic_rtlto_gds_design.M1.Server.Post.{post}
use agentic_rtlto_gds_design.M1.Server.Routes.{PostRoute}
use agentic_rtlto_gds_design.M1.Server.Specs.{
  upload_oracle, register_oracle, register_teaching_package,
}

-- A frozen session, and the packages as they were.
record Frozen (id : String) (x : M1Session) (s t : Service) : Type 0 where
  found : find_session id t ≡ ok x
  state : x.state ≡ frozen
  packages : t.verification_packages ≡ s.verification_packages

freeze_spec-Frozen :
    (lib : Stdlib) (id : String) (s : Service) (x : M1Session)
    → (freeze_spec lib id s).0 ≡ ok x
    → Frozen id x s (freeze_spec lib id s).1
unfolding freeze_spec save_session put_session find_session
freeze_spec-Frozen lib id s x h = elim (Result-cases (find_session id s)) [
  | inr (e, p) ↦ absurd (ground arith)
  | inl (y, p) ↦ elim (Result-cases (ready_spec y.state y.spec)) [
    | inr (e, q) ↦ absurd (ground arith)
    | inl (spec, q) ↦ elim (Result-cases (fingerprint lib spec)) [
      | inr (e, r) ↦ absurd (ground arith)
      | inl (digest, r) ↦
          let fixed = record y { state = frozen; frozen_fingerprint = some digest } in
          elim (Result-cases (validate_session fixed)) [
            | inr (e, v) ↦ absurd (ground arith)
            | inl (u, v) ↦ record {
              found = ground (arith, lookup-insert_self id fixed s.sessions);
              state = ground arith;
              packages = ground arith;
            }
          ]
    ]
  ]
]

-- A frozen session cannot be frozen again, by whatever caller.
frozen_refused :
    (app : App) (uuid : String) (payload : Fields) (client : WebClient) (id : String) (t : Service)
    (x : M1Session)
    → find_session id t ≡ ok x
    → x.state ≡ frozen
    → (e : Error) × (post app uuid payload client (PostRoute.freeze id) t ≡ (err e, t))
unfolding post freeze_spec ready_spec
frozen_refused app uuid payload client id t x found state =
    elim (Result-cases (owned_spec id client t)) [
      | inr (e, refused) ↦ (e, rw refused refl)
      | inl (u, owned) ↦
          (value_error "spec is not ready to be frozen", rw (owned, found, state) refl)
    ]

-- The upload of an oracle fails.
register_fails :
    (client : WebClient) (t : Service) (x : M1Session) (spec : SpecIr) (oracle : Oracle) (e : Error)
    → x.state ≡ frozen
    → x.spec ≡ some spec
    → oracle_for_top spec.top ≡ some oracle
    → client.v2.upload_rtl oracle.source ≡ err e
    → register_teaching_package x client t ≡ (err e, t)
unfolding register_teaching_package register_oracle upload_oracle
register_fails client t x spec oracle e state given course failed =
    rw (given, state, course, failed) refl

freeze_fails :
    (app : App) (uuid : String) (payload : Fields) (client : WebClient) (id : String) (s : Service)
    (x : M1Session) (e : Error)
    → owned_spec id client s ≡ ok tt
    → (freeze_spec app.lib id s).0 ≡ ok x
    → register_teaching_package x client (freeze_spec app.lib id s).1
      ≡ (err e, (freeze_spec app.lib id s).1)
    → post app uuid payload client (PostRoute.freeze id) s ≡ (err e, (freeze_spec app.lib id s).1)
unfolding post
freeze_fails app uuid payload client id s x e owned done failed = rw (owned, done, failed) refl

-- A freeze request that freezes the session of a course top, and whose upload of the oracle then
-- fails, replies with that failure, registers no package, and leaves the session frozen. From then
-- on a freeze request for that specification raises an error and changes nothing, whoever sends it:
-- the request cannot be repeated.
pub freeze-stranded :
    (app : App) (uuid : String) (payload : Fields) (client : WebClient) (id : String) (s : Service)
    (x : M1Session) (spec : SpecIr) (oracle : Oracle) (e : Error)
    → owned_spec id client s ≡ ok tt
    → (freeze_spec app.lib id s).0 ≡ ok x
    → x.spec ≡ some spec
    → oracle_for_top spec.top ≡ some oracle
    → client.v2.upload_rtl oracle.source ≡ err e
    → let t = (post app uuid payload client (PostRoute.freeze id) s).1 in
      ((post app uuid payload client (PostRoute.freeze id) s).0 ≡ err e)
      × (t.verification_packages ≡ s.verification_packages)
      × (find_session id t ≡ ok x)
      × ((uuid' : String) (payload' : Fields) (client' : WebClient)
          → (e' : Error) × (post app uuid' payload' client' (PostRoute.freeze id) t ≡ (err e', t)))
freeze-stranded app uuid payload client id s x spec oracle e owned done given course failed =
    let f = freeze_spec-Frozen app.lib id s x done in
    let t = (freeze_spec app.lib id s).1 in
    rw
      (freeze_fails app uuid payload client id s x e owned done
        (register_fails client t x spec oracle e f.state given course failed))
      (
        refl,
        f.packages,
        f.found,
        λ uuid' payload' client'. frozen_refused app uuid' payload' client' id t x f.found f.state,
      )
