-- ===== src/M1/Server/Ends.antt =====
-- Where a request to the M1 server can end: a predicate that every call of a method of `M1Service`
-- keeps holds after the request, if it holds before. The children have a rule for each handler.
pub mod Post
pub mod Get
use agentic_rtlto_gds_design.Prelude.{String, ◌≡◌, none, inl, inr}
use agentic_rtlto_gds_design.Prelude.Action.{◌>>=◌, ◌>>◌, Action, pure, lift}
use agentic_rtlto_gds_design.Prelude.Dict.{lookup}
use agentic_rtlto_gds_design.Prelude.Json.{Json}
use agentic_rtlto_gds_design.Prelude.Result.{Result, ok, err, Result-cases}
use agentic_rtlto_gds_design.Prelude.Text.{◌<>◌}
use agentic_rtlto_gds_design.M1.History.Calls.{Call, perform, IsFresh}
use agentic_rtlto_gds_design.M1.State.{Service, Stdlib}
use agentic_rtlto_gds_design.M1.Server.{Reply}

-- A `uuid4` that no specification and no version has.
abbrev pub IsUnused : String → Service → Type 0
IsUnused uuid s =
    (lookup ("spec-" <> uuid) s.sessions ≡ none) × (lookup ("rtl-" <> uuid) s.versions ≡ none)

-- Each call of a method keeps the predicate.
abbrev pub IsKept : Stdlib → (Service → Type 0) → Type 0
IsKept lib P = (c : Call) (s : Service) → IsFresh c s → P s → P (perform lib c s)

module _ (P : Service → Type 0) where
  -- A document, and the reply that holds it
  pub reply_ends :
      (r : Result Json) (make : Json → Reply) (s : Service)
      → P s
      → P ((lift r >>= λ document. pure (make document)) s).1
  reply_ends (ok document) make s h = h
  reply_ends (err e) make s h = h

  -- A call, and the reply that holds its result
  pub call_ends :
      {A : Type 0} (m : Action Service A) (make : A → Reply) (s : Service)
      → P (m s).1
      → P ((m >>= λ a. pure (make a)) s).1
  call_ends m make s h = elim (Result-cases (m s).0) [ inl (a, e) ↦ rw e h | inr (x, e) ↦ rw e h ]
