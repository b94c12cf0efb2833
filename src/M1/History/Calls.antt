-- ===== src/M1/History/Calls.antt =====
-- Sequences of calls of the methods of `M1Service` that write. A call that raises leaves the
-- attributes that it had written, and the caller goes on.
use agentic_rtlto_gds_design.Prelude.{String, ◌≡◌, Bool, Option, none, some, List, [], ◌∷◌, arith}
use agentic_rtlto_gds_design.Prelude.Text.{◌<>◌}
use agentic_rtlto_gds_design.Prelude.Dict.{lookup}
use agentic_rtlto_gds_design.Prelude.Action.{lift_state}
use agentic_rtlto_gds_design.Contracts.RtlFrontend.{SpecIr, VerificationPackage}
use agentic_rtlto_gds_design.Contracts.Evidence.{EvidenceRef}
use agentic_rtlto_gds_design.M1.Models.{CheckStatus}
use agentic_rtlto_gds_design.M1.State.{Service, Stdlib}
use agentic_rtlto_gds_design.M1.V2.{V2Client}
use agentic_rtlto_gds_design.M1.Sessions.{assess_spec, freeze_spec}
use agentic_rtlto_gds_design.M1.Versions.{
  create_rtl_version, record_verification, record_simulation,
}
use agentic_rtlto_gds_design.M1.Submit.{
  uploaded_id, create_rtl_version_from_v2, register_verification_package, submit_verification,
  submit_simulation, submit_rtl_to_gds,
}
use agentic_rtlto_gds_design.M1.Evidence.{record_evidence, Artifact, record_gds_evidence}
use agentic_rtlto_gds_design.M1.Runs.{observe_run, result_of}
use agentic_rtlto_gds_design.M1.History.{Extends, Extends-refl, IsKeyed}
use agentic_rtlto_gds_design.M1.History.Steps.{
  Advances, record_verification-Advances, record_simulation-Advances, submit_verification-Advances,
  submit_simulation-Advances, create_rtl_version-Advances, assess_spec-Advances,
  freeze_spec-Advances, register_verification_package-Advances, submit_rtl_to_gds-Advances,
  record_evidence-Advances, record_gds_evidence-Advances,
}
use agentic_rtlto_gds_design.M1.Ends.Observe.{observe_versions_ends}

-- One constructor for each method that writes, with its arguments, the fresh `uuid4` and the
-- current time among them.
pub data Call : Type 0 where
  assess : String → String → Option SpecIr → List String → Option String → Call
  freeze : String → Call
  create : String → String → String → String → Option String → Option String → Call
  create_from_v2 : String → String → String → String → V2Client → Option String → Call
  verification_result simulation_result : String → CheckStatus → String → Call
  register : String → VerificationPackage → Call
  verify simulate : String → V2Client → Call
  make_gds : String → String → V2Client → Call
  add_evidence : EvidenceRef → Call
  add_gds_evidence : String → String → String → List Artifact → String → List (Option Bool) → Call
  observe : String → String → Call

-- The attributes after a call.
unfoldable pub perform : Stdlib → Call → Service → Service
perform lib (assess uuid owner spec questions reason) s =
    (assess_spec uuid owner spec questions reason s).1
perform lib (freeze id) s = (freeze_spec lib id s).1
perform lib (create uuid spec_id source generator parent ref) s =
    (create_rtl_version lib uuid spec_id source generator parent ref s).1
perform lib (create_from_v2 uuid spec_id source generator v2 parent) s =
    (create_rtl_version_from_v2 lib uuid spec_id source generator v2 parent s).1
perform lib (verification_result id status run_id) s = (record_verification id status run_id s).1
perform lib (simulation_result id status run_id) s = (record_simulation id status run_id s).1
perform lib (register id pack) s = (register_verification_package id pack s).1
perform lib (verify id v2) s = (submit_verification id v2 s).1
perform lib (simulate id v2) s = (submit_simulation id v2 s).1
perform lib (make_gds id pdk v2) s = (submit_rtl_to_gds lib id pdk v2 s).1
perform lib (add_evidence e) s = (record_evidence lib e s).1
perform lib (add_gds_evidence now id run_id artifacts pdk metrics) s =
    (record_gds_evidence lib now id run_id artifacts pdk metrics s).1
perform lib (observe run_id status) s = (observe_run run_id status s).1

unfoldable pub perform_all : Stdlib → List Call → Service → Service
unfolding perform
perform_all lib [] s = s
perform_all lib (c ∷ calls) s = perform_all lib calls (perform lib c s)

-- A `uuid4` names nothing yet.
abbrev pub IsFresh : Call → Service → Type 0
IsFresh (assess uuid owner spec questions reason) s = lookup ("spec-" <> uuid) s.sessions ≡ none
IsFresh (create uuid spec_id source generator parent ref) s =
    lookup ("rtl-" <> uuid) s.versions ≡ none
IsFresh (create_from_v2 uuid spec_id source generator v2 parent) s =
    lookup ("rtl-" <> uuid) s.versions ≡ none
IsFresh _ s = Unit

abbrev pub AllFresh : Stdlib → List Call → Service → Type 0
AllFresh lib [] s = Unit
AllFresh lib (c ∷ calls) s = IsFresh c s × AllFresh lib calls (perform lib c s)

observe_run-Advances :
    (run_id status : String) (s t : Service)
    → Advances s t
    → Advances s (observe_run run_id status t).1
unfolding observe_run
observe_run-Advances run_id status s t h =
    let done =
      observe_versions_ends (Advances s) run_id (result_of status)
        (λ id u. record_verification-Advances id run_id (result_of status) s u)
        (λ id u. record_simulation-Advances id run_id (result_of status) s u) t.versions t h in
    ground arith

create_from_v2-Advances :
    (lib : Stdlib) (uuid spec_id source generator : String) (v2 : V2Client) (parent : Option String)
    (s t : Service)
    → lookup ("rtl-" <> uuid) t.versions ≡ none
    → Advances s t
    → Advances s (create_rtl_version_from_v2 lib uuid spec_id source generator v2 parent t).1
unfolding create_rtl_version_from_v2
create_from_v2-Advances lib uuid spec_id source generator v2 parent s t free h =
    lift_state (Advances s) (v2.upload_rtl source) _ t h λ reply _.
      lift_state (Advances s) (uploaded_id reply) _ t h λ given _.
        create_rtl_version-Advances lib uuid spec_id source generator parent
          (some ("input:" <> given)) s t free h

pub perform-Advances :
    (lib : Stdlib) (c : Call) (s t : Service)
    → IsFresh c t
    → Advances s t
    → Advances s (perform lib c t)
unfolding perform observe_run
perform-Advances lib (assess uuid owner spec questions reason) s t f h =
    assess_spec-Advances uuid owner spec questions reason s t f h
perform-Advances lib (freeze id) s t f h = freeze_spec-Advances lib id s t h
perform-Advances lib (create uuid spec_id source generator parent ref) s t f h =
    create_rtl_version-Advances lib uuid spec_id source generator parent ref s t f h
perform-Advances lib (create_from_v2 uuid spec_id source generator v2 parent) s t f h =
    create_from_v2-Advances lib uuid spec_id source generator v2 parent s t f h
perform-Advances lib (verification_result id status run_id) s t f h =
    record_verification-Advances id run_id status s t h
perform-Advances lib (simulation_result id status run_id) s t f h =
    record_simulation-Advances id run_id status s t h
perform-Advances lib (register id pack) s t f h =
    register_verification_package-Advances id pack s t h
perform-Advances lib (verify id v2) s t f h = submit_verification-Advances id v2 s t h
perform-Advances lib (simulate id v2) s t f h = submit_simulation-Advances id v2 s t h
perform-Advances lib (make_gds id pdk v2) s t f h = submit_rtl_to_gds-Advances lib id pdk v2 s t h
perform-Advances lib (add_evidence e) s t f h = record_evidence-Advances lib e s t h
perform-Advances lib (add_gds_evidence now id run_id artifacts pdk metrics) s t f h =
    record_gds_evidence-Advances lib now id run_id artifacts pdk metrics s t h
perform-Advances lib (observe run_id status) s t f h = observe_run-Advances run_id status s t h

pub perform_all-Advances :
    (lib : Stdlib) (calls : List Call) (s t : Service)
    → AllFresh lib calls t
    → Advances s t
    → Advances s (perform_all lib calls t)
unfolding perform_all
perform_all-Advances lib [] s t f h = h
perform_all-Advances lib (c ∷ calls) s t f h =
    perform_all-Advances lib calls s (perform lib c t) f.1 (perform-Advances lib c s t f.0 h)

-- Over any sequence of calls, failed ones included, that begins with keyed dictionaries and draws
-- fresh uuids: owners of specifications, frozen sessions, the origin of each RTL version,
-- verification packages, evidence and run outcomes stay as they were, and the dictionaries stay
-- keyed.
pub perform_all-Extends :
    (lib : Stdlib) (calls : List Call) (s : Service)
    → IsKeyed s
    → AllFresh lib calls s
    → Extends s (perform_all lib calls s) × IsKeyed (perform_all lib calls s)
perform_all-Extends lib calls s keyed fresh =
    let a =
      perform_all-Advances lib calls s s fresh
        (record { extends = Extends-refl s; keyed = keyed }) in
    (a.extends, a.keyed)
