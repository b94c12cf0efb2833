-- ===== src/M1/Access.antt =====
-- `assert_run_owner` of `M1Service`: who may see a run.
use agentic_rtlto_gds_design.Prelude.{
  String, ◌≡◌, ◌⊎◌, inl, inr, true, none, some, List, [], ◌∷◌, arith, ◌==◌, eq_iff, Bool-cases,
  Option-cases,
}
use agentic_rtlto_gds_design.Prelude.Dict.{lookup, values}
use agentic_rtlto_gds_design.Prelude.Result.{ok}
use agentic_rtlto_gds_design.Contracts.Evidence.{EvidenceRef}
use agentic_rtlto_gds_design.M1.Models.{RtlVersion}
use agentic_rtlto_gds_design.M1.Store.{run_owner}
use agentic_rtlto_gds_design.M1.State.{Service, find_session}
use agentic_rtlto_gds_design.M1.Runs.{
  assert_run_owner, check_owner, owner_by_version, owner_by_evidence,
}
use agentic_rtlto_gds_design.M1.Runs.{has_run}
use agentic_rtlto_gds_design.M1.History.{owner_at}

-- A version of the list has the run, and its specification belongs to the caller.
abbrev pub OwnsVersion : String → String → Service → List RtlVersion → Type 0
OwnsVersion run_id owner_id s [] = ⊥
OwnsVersion run_id owner_id s (v ∷ rest) =
    ((has_run run_id v ≡ true) × (owner_at v.spec_id s.sessions ≡ some owner_id))
    ⊎ OwnsVersion run_id owner_id s rest

-- Evidence of the list is of the run, and belongs to the caller.
abbrev pub OwnsEvidence : String → String → List EvidenceRef → Type 0
OwnsEvidence run_id owner_id [] = ⊥
OwnsEvidence run_id owner_id (e ∷ rest) =
    ((e.run_id ≡ run_id) × (e.owner_id ≡ owner_id)) ⊎ OwnsEvidence run_id owner_id rest

by_evidence-Owns :
    (run_id owner_id : String) (items : List EvidenceRef)
    → owner_by_evidence run_id owner_id items ≡ ok tt
    → OwnsEvidence run_id owner_id items
unfolding owner_by_evidence check_owner
by_evidence-Owns run_id owner_id [] h = cc
by_evidence-Owns run_id owner_id (e ∷ rest) h = elim (Bool-cases (e.run_id == run_id)) [
  | inl same ↦
      inl (ground (arith, eq_iff e.run_id run_id), ground (arith, eq_iff e.owner_id owner_id))
  | inr other ↦ inr (by_evidence-Owns run_id owner_id rest (ground arith))
]

by_version-Owns :
    (run_id owner_id : String) (s : Service) (items : List RtlVersion)
    → owner_by_version run_id owner_id s items ≡ ok tt
    → OwnsVersion run_id owner_id s items ⊎ OwnsEvidence run_id owner_id (values s.evidence)
unfolding owner_by_version check_owner find_session
by_version-Owns run_id owner_id s [] h =
    inr (by_evidence-Owns run_id owner_id (values s.evidence) h)
by_version-Owns run_id owner_id s (v ∷ rest) h = elim (Bool-cases (has_run run_id v)) [
  | inl has ↦ elim (Option-cases (lookup v.spec_id s.sessions)) [
    | inl e ↦ absurd (ground arith)
    | inr (x, e) ↦ inl (inl (has, ground (arith, eq_iff x.owner_id owner_id)))
  ]
  | inr other ↦ elim (by_version-Owns run_id owner_id s rest (ground arith)) [
    | inl found ↦ inl (inr found)
    | inr found ↦ inr found
  ]
]

-- `assert_run_owner` returns only for a caller who owns the run: the store names the caller as its
-- owner; or the store names nobody, and a version with that run is of a specification of the
-- caller, or evidence of the run is the caller's.
pub assert_run_owner-Owns :
    (run_id owner_id : String) (s : Service)
    → assert_run_owner run_id owner_id s ≡ ok tt
    → (run_owner run_id s.store ≡ some owner_id)
      ⊎ ((run_owner run_id s.store ≡ none)
          × (OwnsVersion run_id owner_id s (values s.versions)
              ⊎ OwnsEvidence run_id owner_id (values s.evidence)))
unfolding assert_run_owner check_owner
assert_run_owner-Owns run_id owner_id s h = elim (Option-cases (run_owner run_id s.store)) [
  | inr (o, e) ↦ inl (ground (arith, eq_iff o owner_id))
  | inl e ↦ inr (e, by_version-Owns run_id owner_id s (values s.versions) (ground arith))
]
