-- ===== src/M1/Server/Access.antt =====
-- Who may do what by HTTP: the guards of the handlers of
-- apps/m1_rtl_to_gds/src/openroad_app_m1/server.py.
use agentic_rtlto_gds_design.Prelude.{String, ◌≡◌, refl, ◌⊎◌, inl, inr, none, some, arith, eq_iff}
use agentic_rtlto_gds_design.Prelude.Action.{Action, ◌>>=◌}
use agentic_rtlto_gds_design.Prelude.Dict.{lookup, values}
use agentic_rtlto_gds_design.Prelude.Result.{
  Error, Result, ok, err, Result-cases, >>-eq-ok, >>=-eq-ok, require-eq-ok,
}
use agentic_rtlto_gds_design.Contracts.Evidence.{EvidenceRef}
use agentic_rtlto_gds_design.M1.Access.{OwnsVersion, OwnsEvidence, assert_run_owner-Owns}
use agentic_rtlto_gds_design.M1.Evidence.{get_evidence}
use agentic_rtlto_gds_design.M1.Models.{M1Session, RtlVersion}
use agentic_rtlto_gds_design.M1.Runs.{assert_run_owner}
use agentic_rtlto_gds_design.M1.State.{
  Service, find_session, get_rtl_version, get_rtl_version-found, find_session-found, query,
}
use agentic_rtlto_gds_design.M1.Store.{run_owner}
use agentic_rtlto_gds_design.M1.Server.{
  App, WebClient, Reply, owner_id, owned_spec, owned_version, owned_run, as_authorization, Check,
  Fields, Request, request_body, respond, handle_error,
}
use agentic_rtlto_gds_design.M1.Server.Get.{
  get, get_versions, get_spec, get_rtl, get_evidence_reply, do_get, get_sessions,
}
use agentic_rtlto_gds_design.M1.Server.GetRuns.{get_of_run, get_run, require_parts}
use agentic_rtlto_gds_design.M1.Server.Post.{post, do_post}
use agentic_rtlto_gds_design.M1.Server.Routes.{PostRoute, GetRoute, RunRoute, post_route, get_route}
use agentic_rtlto_gds_design.M1.Server.Specs

-- v2 names the caller as the owner of the specification.
pub record CallerOwnsSpec (spec_id : String) (client : WebClient) (s : Service) : Type 0 where
  pub session : M1Session
  pub found : lookup spec_id s.sessions ≡ some session
  pub caller : owner_id client ≡ ok session.owner_id

pub record CallerOwnsVersion (version_id : String) (client : WebClient) (s : Service) : Type 0 where
  pub version : RtlVersion
  pub found : lookup version_id s.versions ≡ some version
  pub spec : CallerOwnsSpec version.spec_id client s

-- The owner of a run, as the store, a version or evidence names it.
abbrev pub OwnsRun : String → String → Service → Type 0
OwnsRun run_id caller s =
    (run_owner run_id s.store ≡ some caller)
    ⊎ ((run_owner run_id s.store ≡ none)
        × (OwnsVersion run_id caller s (values s.versions)
            ⊎ OwnsEvidence run_id caller (values s.evidence)))

pub record CallerOwnsRun (run_id : String) (client : WebClient) (s : Service) : Type 0 where
  pub who : String
  pub caller : owner_id client ≡ ok who
  pub owns : OwnsRun run_id who s

pub record CallerOwnsEvidence (evidence_id : String) (client : WebClient) (s : Service)
    : Type 0 where
  pub evidence : EvidenceRef
  pub found : lookup evidence_id s.evidence ≡ some evidence
  pub caller : owner_id client ≡ ok evidence.owner_id

owned_spec-Owns :
    (spec_id : String) (client : WebClient) (s : Service)
    → owned_spec spec_id client s ≡ ok tt
    → CallerOwnsSpec spec_id client s
unfolding owned_spec
owned_spec-Owns spec_id client s h =
    let (x, found, h) = >>=-eq-ok (find_session spec_id s) _ h in
    let (who, caller, h) = >>=-eq-ok (owner_id client) _ h in
    record {
      session = x;
      found = find_session-found spec_id s x found;
      caller = rw ((eq_iff x.owner_id who).0 (require-eq-ok _ _ h)) caller;
    }

owned_version-Owns :
    (version_id : String) (client : WebClient) (s : Service)
    → owned_version version_id client s ≡ ok tt
    → CallerOwnsVersion version_id client s
unfolding owned_version
owned_version-Owns version_id client s h =
    let (v, found, h) = >>=-eq-ok (get_rtl_version version_id s) _ h in
    record {
      version = v;
      found = get_rtl_version-found version_id s v found;
      spec = owned_spec-Owns v.spec_id client s h;
    }

as_authorization-eq-ok : (r : Check) → as_authorization r ≡ ok tt → r ≡ ok tt
unfolding as_authorization
as_authorization-eq-ok (ok u) h = refl
as_authorization-eq-ok (err e) h = absurd (refused e h)
  where
    refused : (e : Error) → ¬ (as_authorization (err e) ≡ ok tt)
    refused e h = ground arith

owned_run-Owns :
    (run_id : String) (client : WebClient) (s : Service)
    → owned_run run_id client s ≡ ok tt
    → CallerOwnsRun run_id client s
unfolding owned_run
owned_run-Owns run_id client s h =
    let (_, h) = >>-eq-ok _ _ h in
    let (who, caller, h) = >>=-eq-ok (owner_id client) _ h in
    record {
      who = who;
      caller = caller;
      owns =
          assert_run_owner-Owns run_id who s
            (as_authorization-eq-ok (assert_run_owner run_id who s) h);
    }

-- What `do_POST` asks of the caller under each test on the path.
abbrev pub PostAllowed : PostRoute → WebClient → Service → Type 0
PostAllowed (PostRoute.freeze id) client s = CallerOwnsSpec id client s
PostAllowed (PostRoute.generate id) client s = CallerOwnsSpec id client s
PostAllowed (PostRoute.create_rtl id) client s = CallerOwnsSpec id client s
PostAllowed (PostRoute.verify id) client s = CallerOwnsVersion id client s
PostAllowed (PostRoute.simulate id) client s = CallerOwnsVersion id client s
PostAllowed (PostRoute.gds id) client s = CallerOwnsVersion id client s
PostAllowed PostRoute.create_spec client s = (caller : String) × (owner_id client ≡ ok caller)
PostAllowed _ client s = Unit

-- What `do_GET` asks of the caller.
abbrev pub RunAllowed : RunRoute → WebClient → Service → Type 0
RunAllowed (RunRoute.excerpt run_id id) client s = CallerOwnsRun run_id client s
RunAllowed (RunRoute.preview run_id id) client s = CallerOwnsRun run_id client s
RunAllowed (RunRoute.netlist run_id id) client s = CallerOwnsRun run_id client s
RunAllowed (RunRoute.timeline run_id) client s = CallerOwnsRun run_id client s
RunAllowed (RunRoute.logs run_id) client s = CallerOwnsRun run_id client s
RunAllowed (RunRoute.artifacts run_id) client s = CallerOwnsRun run_id client s
RunAllowed (RunRoute.metrics run_id) client s = CallerOwnsRun run_id client s
RunAllowed (RunRoute.run run_id) client s = CallerOwnsRun run_id client s
RunAllowed RunRoute.unsplit client s = ⊥

abbrev pub GetAllowed : GetRoute → WebClient → Service → Type 0
GetAllowed GetRoute.specs client s = (caller : String) × (owner_id client ≡ ok caller)
GetAllowed (GetRoute.versions id) client s = CallerOwnsSpec id client s
GetAllowed (GetRoute.spec id) client s = CallerOwnsSpec id client s
GetAllowed (GetRoute.rtl id) client s = CallerOwnsVersion id client s
GetAllowed (GetRoute.evidence id) client s = CallerOwnsEvidence id client s
GetAllowed (GetRoute.of_run route) client s = RunAllowed route client s
GetAllowed _ client s = Unit

-- An action that raises and changes nothing.
abbrev pub Refuses : Action Service Reply → Service → Type 0
Refuses m s = (e : Error) × (m s ≡ (err e, s))

-- A first test that raises ends an action.
guarded_by :
    {A : Type 0} {Q : Type 0} (test : Service → Result A) (k : A → Action Service Reply)
    (s : Service)
    → ((a : A) → test s ≡ ok a → Q ⊎ Refuses (k a) s)
    → Q ⊎ Refuses (query test >>= k) s
guarded_by test k s f = elim (Result-cases (test s)) [
  | inl (a, e) ↦ rw e (f a e)
  | inr (x, e) ↦ inr (x, rw e refl)
]

post-Guarded :
    (app : App) (uuid : String) (payload : Fields) (client : WebClient) (route : PostRoute)
    (s : Service)
    → PostAllowed route client s ⊎ Refuses (post app uuid payload client route) s
unfolding post Specs.create_spec
post-Guarded app uuid payload client PostRoute.login s = inl tt
post-Guarded app uuid payload client PostRoute.logout s = inl tt
post-Guarded app uuid payload client PostRoute.unknown s = inl tt
post-Guarded app uuid payload client PostRoute.create_spec s =
    guarded_by (λ _. owner_id client) _ s λ who e. inl (who, e)
post-Guarded app uuid payload client (PostRoute.freeze id) s =
    guarded_by (owned_spec id client) _ s λ _ e. inl (owned_spec-Owns id client s e)
post-Guarded app uuid payload client (PostRoute.generate id) s =
    guarded_by (owned_spec id client) _ s λ _ e. inl (owned_spec-Owns id client s e)
post-Guarded app uuid payload client (PostRoute.create_rtl id) s =
    guarded_by (owned_spec id client) _ s λ _ e. inl (owned_spec-Owns id client s e)
post-Guarded app uuid payload client (PostRoute.verify id) s =
    guarded_by (owned_version id client) _ s λ _ e. inl (owned_version-Owns id client s e)
post-Guarded app uuid payload client (PostRoute.simulate id) s =
    guarded_by (owned_version id client) _ s λ _ e. inl (owned_version-Owns id client s e)
post-Guarded app uuid payload client (PostRoute.gds id) s =
    guarded_by (owned_version id client) _ s λ _ e. inl (owned_version-Owns id client s e)

-- By POST, each path that names a specification or an RTL version is for its owner, and a new
-- specification is for a caller with an identity: either v2 names the caller as such, or the reply
-- is that of an error and the service stays as it was.
pub do_post-Guarded :
    (app : App) (uuid path : String) (request : Request) (client : WebClient) (s : Service)
    → PostAllowed (post_route path) client s
      ⊎ ((e : Error) × (do_post app uuid path request client s ≡ (handle_error app e, s)))
unfolding do_post respond
do_post-Guarded app uuid path request client s = elim (Result-cases (request_body request)) [
  | inr (e, unread) ↦ inr (e, rw unread refl)
  | inl (payload, read) ↦ elim (post-Guarded app uuid payload client (post_route path) s) [
    | inl allowed ↦ inl allowed
    | inr (e, refused) ↦ inr (e, rw (read, refused) refl)
  ]
]

get_of_run-Guarded :
    (app : App) (now : String) (client : WebClient) (route : RunRoute) (s : Service)
    → RunAllowed route client s ⊎ Refuses (get_of_run app now client route) s
unfolding get_of_run get_run
get_of_run-Guarded app now client (RunRoute.excerpt run_id id) s =
    guarded_by (λ _. require_parts run_id id) _ s
      λ _ _. guarded_by (owned_run run_id client) _ s λ _ e. inl (owned_run-Owns run_id client s e)
get_of_run-Guarded app now client (RunRoute.preview run_id id) s =
    guarded_by (λ _. require_parts run_id id) _ s
      λ _ _. guarded_by (owned_run run_id client) _ s λ _ e. inl (owned_run-Owns run_id client s e)
get_of_run-Guarded app now client (RunRoute.netlist run_id id) s =
    guarded_by (owned_run run_id client) _ s λ _ e. inl (owned_run-Owns run_id client s e)
get_of_run-Guarded app now client (RunRoute.timeline run_id) s =
    guarded_by (owned_run run_id client) _ s λ _ e. inl (owned_run-Owns run_id client s e)
get_of_run-Guarded app now client (RunRoute.logs run_id) s =
    guarded_by (owned_run run_id client) _ s λ _ e. inl (owned_run-Owns run_id client s e)
get_of_run-Guarded app now client (RunRoute.artifacts run_id) s =
    guarded_by (owned_run run_id client) _ s λ _ e. inl (owned_run-Owns run_id client s e)
get_of_run-Guarded app now client (RunRoute.metrics run_id) s =
    guarded_by (owned_run run_id client) _ s λ _ e. inl (owned_run-Owns run_id client s e)
get_of_run-Guarded app now client (RunRoute.run run_id) s =
    guarded_by (owned_run run_id client) _ s λ _ e. inl (owned_run-Owns run_id client s e)
get_of_run-Guarded app now client RunRoute.unsplit s = inr (_, refl)

-- A reading that raises changes nothing.
query_guarded :
    {Q : Type 0} (read : Service → Result Reply) (s : Service)
    → ((reply : Reply) → read s ≡ ok reply → Q)
    → Q ⊎ Refuses (query read) s
query_guarded read s f = elim (Result-cases (read s)) [
  | inl (reply, e) ↦ inl (f reply e)
  | inr (x, e) ↦ inr (x, rw e refl)
]

get_evidence-Owns :
    (app : App) (id : String) (client : WebClient) (s : Service) (reply : Reply)
    → get_evidence_reply app id client s ≡ ok reply
    → CallerOwnsEvidence id client s
unfolding get_evidence_reply get_evidence
get_evidence-Owns app id client s reply h =
    let (found, e, h) = >>=-eq-ok (get_evidence id s) _ h in
    let (who, caller, h) = >>=-eq-ok (owner_id client) _ h in
    let (same, h) = >>-eq-ok _ _ h in
    record {
      evidence = found;
      found = ground arith;
      caller = rw ((eq_iff found.owner_id who).0 (require-eq-ok _ _ same)) caller;
    }

get-Guarded :
    (app : App) (now : String) (client : WebClient) (route : GetRoute) (s : Service)
    → GetAllowed route client s ⊎ Refuses (get app now client route) s
unfolding get get_sessions get_versions get_spec get_rtl
get-Guarded app now client GetRoute.health s = inl tt
get-Guarded app now client GetRoute.session s = inl tt
get-Guarded app now client GetRoute.courses s = inl tt
get-Guarded app now client GetRoute.pdks s = inl tt
get-Guarded app now client GetRoute.silent s = inl tt
get-Guarded app now client GetRoute.nothing s = inl tt
get-Guarded app now client (GetRoute.file name content_type) s = inl tt
get-Guarded app now client GetRoute.specs s =
    query_guarded (get_sessions client) s
      λ reply h. let (who, caller, _) = >>=-eq-ok (owner_id client) _ h in (who, caller)
get-Guarded app now client (GetRoute.versions id) s =
    query_guarded (get_versions id client) s
      λ reply h. owned_spec-Owns id client s (>>-eq-ok (owned_spec id client s) _ h).0
get-Guarded app now client (GetRoute.spec id) s =
    query_guarded (get_spec id client) s
      λ reply h. owned_spec-Owns id client s (>>-eq-ok (owned_spec id client s) _ h).0
get-Guarded app now client (GetRoute.rtl id) s =
    query_guarded (get_rtl id client) s
      λ reply h. owned_version-Owns id client s (>>-eq-ok (owned_version id client s) _ h).0
get-Guarded app now client (GetRoute.evidence id) s =
    query_guarded (get_evidence_reply app id client) s
      λ reply h. get_evidence-Owns app id client s reply h
get-Guarded app now client (GetRoute.of_run route) s = get_of_run-Guarded app now client route s

-- By GET, each path that names a specification, an RTL version, a run or evidence is for its owner,
-- and the list of specifications is for a caller with an identity: either v2 names the caller as
-- such, or the reply is that of an error and the service stays as it was.
pub do_get-Guarded :
    (app : App) (now path : String) (client : WebClient) (s : Service)
    → GetAllowed (get_route path) client s
      ⊎ ((e : Error) × (do_get app now path client s ≡ (handle_error app e, s)))
unfolding do_get respond
do_get-Guarded app now path client s = elim (get-Guarded app now client (get_route path) s) [
  | inl allowed ↦ inl allowed
  | inr (e, refused) ↦ inr (e, rw refused refl)
]
