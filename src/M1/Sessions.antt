-- ===== src/M1/Sessions.antt =====
-- `assess_spec` and `freeze_spec` of `M1Service`
-- (apps/m1_rtl_to_gds/src/openroad_app_m1/service.py). A fresh `uuid4` is an argument.
use agentic_rtlto_gds_design.Prelude.{
  String, Bool, false, not, ◌&&◌, ◌||◌, Option, none, some, List, [], ◌∷◌, if◌then◌else◌, is_none,
  ◌==◌,
}
use agentic_rtlto_gds_design.Prelude.Text.{◌<>◌}
use agentic_rtlto_gds_design.Prelude.Lists.{null}
use agentic_rtlto_gds_design.Prelude.Json.{is_positive, float_le, Json, int, float}
use agentic_rtlto_gds_design.Prelude.Dict.{Dict, lookup, insert}
use agentic_rtlto_gds_design.Prelude.Result.{value_error, Result, ok, err}
use agentic_rtlto_gds_design.Prelude.Result
use agentic_rtlto_gds_design.Prelude.Action.{Action, pure, lift, modify, raise_when, ◌>>=◌, ◌>>◌}
use agentic_rtlto_gds_design.Contracts.RtlFrontend.{SpecIr, validate_spec}
use agentic_rtlto_gds_design.M1.Models.{
  M1State, needs_clarification, unsupported_scope, specified, frozen, M1Session, is_missing,
  validate_session,
}
use agentic_rtlto_gds_design.M1.State.{
  Service, Stdlib, query, find_session, save_session, remember_session, fingerprint,
}

-- A JSON number, not a `bool`, for which `period <= 0` is false.
unfoldable pub is_period : Option Json → Bool
is_period (some (int n)) = is_positive n
is_period (some (float x)) = not (float_le x 0)
is_period _ = false

-- `_clarification_questions`
unfoldable pub clarification_questions : SpecIr → List String
clarification_questions spec =
    if is_none spec.clock
    then []
    else if is_period (lookup "clock_period_ns" spec.constraints)
    then []
    else "What clock period in nanoseconds should the frozen recipe use?" ∷ []

abbrev pub default_question : String
default_question = "Provide an executable clock, reset, port, and acceptance definition."

-- The last branch of `assess_spec`: a specification with no question and no reason.
assess_given : SpecIr → Result (M1State × List String)
assess_given spec = Result.◌>>◌ (validate_spec spec) (
    let questions = clarification_questions spec in
    ok (if null questions then specified else needs_clarification, questions))

-- The state of a new session and its questions.
unfoldable pub assess_state :
    Option SpecIr → List String → Option String → Result (M1State × List String)
unfolding assess_given
assess_state spec questions reason =
    if not (is_missing reason)
    then ok (unsupported_scope, questions)
    else if not (null questions)
    then ok (needs_clarification, questions)
    else elim spec [
      | none ↦ ok (needs_clarification, default_question ∷ [])
      | some given ↦ assess_given given
    ]

unfoldable pub assess_spec :
    String → String → Option SpecIr → List String → Option String → Action Service M1Session
unfolding assess_state
assess_spec uuid owner_id spec questions reason = do
  raise_when (not (is_none spec) && (not (null questions) || not (is_missing reason)))
      (value_error "spec, clarification questions, and unsupported scope are exclusive")
  (state, asked) ← lift (assess_state spec questions reason)
  let session : M1Session = record {
    spec_id = "spec-" <> uuid;
    owner_id = owner_id;
    state = state;
    spec = spec;
    clarification_questions = asked;
    unsupported_reason = reason;
    frozen_fingerprint = none;
  }
  lift (validate_session session)
  remember_session session
  save_session session
  pure session

-- The guards of `freeze_spec`, and the specification that they let through.
unfoldable pub ready_spec : M1State → Option SpecIr → Result SpecIr
ready_spec unsupported_scope spec = err (value_error "unsupported_scope cannot be frozen")
ready_spec needs_clarification spec =
    err (value_error "spec requires clarification before it can be frozen")
ready_spec specified (some spec) = ok spec
ready_spec _ _ = err (value_error "spec is not ready to be frozen")

unfoldable pub freeze_spec : Stdlib → String → Action Service M1Session
unfolding ready_spec
freeze_spec lib spec_id = do
  session ← query (find_session spec_id)
  spec ← lift (ready_spec session.state session.spec)
  digest ← lift (fingerprint lib spec)
  let fixed : M1Session = record session { state = frozen; frozen_fingerprint = some digest }
  lift (validate_session fixed)
  modify (λ s. record s { sessions = insert spec_id fixed s.sessions })
  save_session fixed
  pure fixed

-- `list_sessions`
unfoldable pub sessions_of : String → Dict M1Session → List M1Session
sessions_of owner_id [] = []
sessions_of owner_id ((k, x) ∷ d) =
    let rest = sessions_of owner_id d in if x.owner_id == owner_id then x ∷ rest else rest

unfoldable pub list_sessions : String → Service → List M1Session
unfolding sessions_of
list_sessions owner_id s = sessions_of owner_id s.sessions
