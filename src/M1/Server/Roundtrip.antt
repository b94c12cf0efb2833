-- ===== src/M1/Server/Roundtrip.antt =====
-- A new specification by POST, and the same specification by GET, in
-- apps/m1_rtl_to_gds/src/openroad_app_m1/server.py.
use agentic_rtlto_gds_design.Prelude.{
  String, ◌≡◌, refl, Bool, not, ◌&&◌, ◌||◌, true, false, Option, none, some, List, [], arith,
  eq_refl, if◌then◌else◌, is_none, ◌==◌, Bool-cases, inl, inr,
}
use agentic_rtlto_gds_design.Prelude.Action.{Action, continue, raise_when, ◌>>=◌, ◌>>◌}
use agentic_rtlto_gds_design.Prelude.Dict.{lookup-insert_self}
use agentic_rtlto_gds_design.Prelude.Document.{
  has_field, is_null, field_or_null, tuple_at, nonblank_texts, nonblank_of, optional_of, object_of,
}
use agentic_rtlto_gds_design.Prelude.Json.{Json, bool, int, float, str, arr, obj, Fields}
use agentic_rtlto_gds_design.Prelude.Lists.{null}
use agentic_rtlto_gds_design.Prelude.Result.{Error, Result, ok, err, Result-cases}
use agentic_rtlto_gds_design.Prelude.Text.{◌<>◌}
use agentic_rtlto_gds_design.Contracts.RtlFrontend.{SpecIr}
use agentic_rtlto_gds_design.M1.Documents.{session_to_dict}
use agentic_rtlto_gds_design.M1.Models.{M1Session, is_missing, validate_session}
use agentic_rtlto_gds_design.M1.Sessions.{assess_state, assess_spec}
use agentic_rtlto_gds_design.M1.State.{Service, find_session, save_session}
use agentic_rtlto_gds_design.M1.Store.{put_session}
use agentic_rtlto_gds_design.M1.Server.{App, WebClient, Reply, one_field, owner_id, owned_spec}
use agentic_rtlto_gds_design.M1.Server.Get.{get_spec}
use agentic_rtlto_gds_design.M1.Server.Specs.{
  session_reply, given_spec, assess_document, asked, specified_document, assess_status,
  assess_description, create_spec, bad_questions, bad_reason, no_reason, no_description,
  names_owner, two_sources,
}

-- A new session is found under its own id, and belongs to the caller.
record Assessed (uuid owner : String) (x : M1Session) (t : Service) : Type 0 where
  found : find_session ("spec-" <> uuid) t ≡ ok x
  owned : (x.owner_id == owner) ≡ true

assess_spec-Assessed :
    (uuid owner : String) (spec : Option SpecIr) (questions : List String) (reason : Option String)
    (s : Service) (x : M1Session)
    → (assess_spec uuid owner spec questions reason s).0 ≡ ok x
    → Assessed uuid owner x (assess_spec uuid owner spec questions reason s).1
unfolding assess_spec save_session put_session find_session
assess_spec-Assessed uuid owner spec questions reason s x h =
    elim (Bool-cases (not (is_none spec) && (not (null questions) || not (is_missing reason)))) [
      | inl both ↦ absurd (ground arith)
      | inr one ↦ elim (Result-cases (assess_state spec questions reason)) [
        | inr (e, p) ↦ absurd (ground arith)
        | inl ((state, asked), p) ↦
            let made : M1Session = record {
              spec_id = "spec-" <> uuid;
              owner_id = owner;
              state = state;
              spec = spec;
              clarification_questions = asked;
              unsupported_reason = reason;
              frozen_fingerprint = none;
            } in
            elim (Result-cases (validate_session made)) [
              | inr (e, v) ↦ absurd (ground arith)
              | inl (u, v) ↦ record {
                found = ground (arith, lookup-insert_self ("spec-" <> uuid) made s.sessions);
                owned = ground (arith, eq_refl owner);
              }
            ]
      ]
    ]

module _ (uuid owner : String) (client : WebClient) (signed_in : owner_id client ≡ ok owner) where
  -- A reply to a POST with a session, and the reply to a GET of it afterwards
  abbrev Shown : Result Reply × Service → Type 0
  Shown p =
      (document : Json)
      → p.0 ≡ ok (one_field 201 "session" document)
      → get_spec ("spec-" <> uuid) client p.1 ≡ ok (one_field 200 "session" document)

  continue-Shown :
      {A : Type 0} (r : Result A) (f : A → Action Service Reply) (s : Service)
      → ((a : A) → Shown (f a s))
      → Shown (continue r f s)
  continue-Shown (ok a) f s h = h a
  continue-Shown (err e) f s h = λ document same. cc

  when-Shown :
      (b : Bool) (e : Error) (k : Action Service Reply) (s : Service)
      → Shown (k s)
      → Shown ((raise_when b e >> k) s)
  when-Shown true e k s h = λ document same. cc
  when-Shown false e k s h = h

  if_Shown :
      (b : Bool) (m k : Action Service Reply) (s : Service)
      → Shown (m s)
      → Shown (k s)
      → Shown ((if b then m else k) s)
  if_Shown true m k s h g = h
  if_Shown false m k s h g = g

  got_spec :
      (x : M1Session) (t : Service) (document : Json)
      → Assessed uuid owner x t
      → session_to_dict x ≡ ok document
      → get_spec ("spec-" <> uuid) client t ≡ ok (one_field 200 "session" document)
  unfolding get_spec owned_spec
  got_spec x t document a shown = rw (a.found, signed_in, a.owned, shown) refl

  reply-Shown :
      (x : M1Session) (t : Service) → Assessed uuid owner x t → Shown (session_reply 201 x t)
  reply-Shown x t a document same = elim (Result-cases (session_to_dict x)) [
    | inr (e, p) ↦ absurd (ground arith)
    | inl (d, p) ↦
        let shown : session_to_dict x ≡ ok document = ground arith in
        rw p (got_spec x t document a shown)
  ]

  assessed-Shown :
      (spec : Option SpecIr) (questions : List String) (reason : Option String) (s : Service)
      → Shown ((assess_spec uuid owner spec questions reason >>= session_reply 201) s)
  assessed-Shown spec questions reason s =
      elim (Result-cases (assess_spec uuid owner spec questions reason s).0) [
        | inr (e, p) ↦ rw p (λ document same. cc)
        | inl (x, p) ↦
            let a = assess_spec-Assessed uuid owner spec questions reason s x p in
            rw p (reply-Shown x (assess_spec uuid owner spec questions reason s).1 a)
      ]

  assess_document-Shown :
      (raw_spec : Json) (payload : Fields) (s : Service)
      → Shown (assess_document uuid owner raw_spec payload s)
  unfolding assess_document
  assess_document-Shown raw_spec payload s = continue-Shown (given_spec raw_spec) _ s λ spec.
      continue-Shown (tuple_at "clarification_questions" payload) _ s λ items.
        continue-Shown (nonblank_texts bad_questions items) _ s λ questions.
          continue-Shown (optional_of bad_reason (field_or_null "unsupported_reason" payload)) _ s
            λ reason. assessed-Shown spec questions reason s

  specified_document-Shown :
      (raw_spec : Json) (payload : Fields) (s : Service)
      → Shown (specified_document uuid owner raw_spec payload s)
  unfolding specified_document
  specified_document-Shown (obj fields) payload s = assess_document-Shown (obj fields) payload s
  specified_document-Shown Json.null payload s = λ document same. cc
  specified_document-Shown (bool b) payload s = λ document same. cc
  specified_document-Shown (int n) payload s = λ document same. cc
  specified_document-Shown (float x) payload s = λ document same. cc
  specified_document-Shown (str t) payload s = λ document same. cc
  specified_document-Shown (arr items) payload s = λ document same. cc

  assess_status-Shown :
      (status : Json) (assessment payload : Fields) (s : Service)
      → Shown (assess_status uuid owner status assessment payload s)
  unfolding assess_status
  assess_status-Shown (str state) assessment payload s =
      if_Shown (state == "needs_clarification") _ _ s
        (continue-Shown (asked (field_or_null "questions" assessment)) _ s λ items.
          continue-Shown (nonblank_texts bad_questions items) _ s
            λ questions. assessed-Shown none questions none s)
        (if_Shown (state == "unsupported_scope") _ _ s
          (continue-Shown (nonblank_of no_reason (field_or_null "reason" assessment)) _ s
            λ reason. assessed-Shown none [] (some reason) s)
          (if_Shown (state == "specified") _ _ s
            (specified_document-Shown (field_or_null "spec" assessment) payload s)
            (λ document same. cc)))
  assess_status-Shown Json.null assessment payload s = λ document same. cc
  assess_status-Shown (bool b) assessment payload s = λ document same. cc
  assess_status-Shown (int n) assessment payload s = λ document same. cc
  assess_status-Shown (float x) assessment payload s = λ document same. cc
  assess_status-Shown (arr items) assessment payload s = λ document same. cc
  assess_status-Shown (obj fields) assessment payload s = λ document same. cc

  -- The part of `_create_spec` after the caller is known
  create_spec-Shown :
      (app : App) (payload : Fields) (s : Service) → Shown (create_spec app uuid payload client s)
  unfolding create_spec assess_description
  create_spec-Shown app payload s = rw signed_in (
      when-Shown (has_field "owner_id" payload) names_owner _ s (
        when-Shown
          (not (is_null (field_or_null "spec" payload))
            && not (is_null (field_or_null "description" payload)))
          two_sources _ s
          (if_Shown (is_null (field_or_null "description" payload)) _ _ s
            (assess_document-Shown (field_or_null "spec" payload) payload s)
            (continue-Shown (nonblank_of no_description (field_or_null "description" payload)) _ s
              λ text. continue-Shown (app.assess text) _ s λ reply.
                continue-Shown (object_of reply) _ s λ assessment.
                  assess_status-Shown (field_or_null "status" assessment) assessment payload s))))

-- A specification that a POST request makes, from a document, from questions or from a description
-- in words, is the one that a GET request of the same caller for its id then shows, with the same
-- document.
pub create_spec-get_spec :
    (app : App) (uuid owner : String) (payload : Fields) (client : WebClient) (s : Service)
    (document : Json)
    → owner_id client ≡ ok owner
    → (create_spec app uuid payload client s).0 ≡ ok (one_field 201 "session" document)
    → get_spec ("spec-" <> uuid) client (create_spec app uuid payload client s).1
      ≡ ok (one_field 200 "session" document)
create_spec-get_spec app uuid owner payload client s document signed_in made =
    create_spec-Shown uuid owner client signed_in app payload s document made
