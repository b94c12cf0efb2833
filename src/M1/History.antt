-- ===== src/M1/History.antt =====
-- The history of a service: owners, frozen sessions, the origins of versions, verification packages,
-- evidence and run outcomes, before and after some operations of `M1Service`.
pub mod Steps
pub mod Calls
use agentic_rtlto_gds_design.Prelude.{
  String, ◌≡◌, refl, ◌∙◌, true, Option, none, some, arith, eq_iff,
}
use agentic_rtlto_gds_design.Prelude.Dict.{Dict, lookup, insert, lookup-insert}
use agentic_rtlto_gds_design.M1.Models.{is_frozen, M1Session, RtlVersion}
use agentic_rtlto_gds_design.M1.Store.{Store}
use agentic_rtlto_gds_design.M1.State.{Service}

-- The part of a version that is fixed when it is created.
pub record Origin : Type 0 where
  pub spec_id : String
  pub rtl_sha256 : String
  pub generator : String
  pub parent_version_id : Option String
  pub source_ref : Option String

abbrev pub origin : RtlVersion → Origin
origin v = record {
  spec_id = v.spec_id;
  rtl_sha256 = v.rtl_sha256;
  generator = v.generator;
  parent_version_id = v.parent_version_id;
  source_ref = v.source_ref;
}

abbrev pub origin_at : String → Dict RtlVersion → Option Origin
origin_at k d = elim (lookup k d) [ none ↦ none | some v ↦ some (origin v) ]

abbrev pub owner_at : String → Dict M1Session → Option String
owner_at k d = elim (lookup k d) [ none ↦ none | some x ↦ some x.owner_id ]

-- Every key of `d` is in `e`, with the same value.
abbrev pub Keeps {ℓ} : {V : Type ℓ} → Dict V → Dict V → Type ℓ
Keeps {V} d e = (k : String) (v : V) → lookup k d ≡ some v → lookup k e ≡ some v

-- What `s` says still stands in `t`.
pub record Extends (s t : Service) : Type 0 where
  pub owners : (k o : String) → owner_at k s.sessions ≡ some o → owner_at k t.sessions ≡ some o
  pub frozen_sessions :
      (k : String) (x : M1Session)
      → lookup k s.sessions ≡ some x
      → is_frozen x.state ≡ true
      → lookup k t.sessions ≡ some x
  pub origins :
      (k : String) (o : Origin) → origin_at k s.versions ≡ some o → origin_at k t.versions ≡ some o
  pub verification_packages : Keeps s.verification_packages t.verification_packages
  pub evidence : Keeps s.evidence t.evidence
  pub run_outcomes : Keeps s.run_outcomes t.run_outcomes

pub Extends-refl : (s : Service) → Extends s s
Extends-refl s = record {
  owners = λ k o h. h;
  frozen_sessions = λ k x h f. h;
  origins = λ k o h. h;
  verification_packages = λ k v h. h;
  evidence = λ k v h. h;
  run_outcomes = λ k v h. h;
}

pub Extends-trans : {s t u : Service} → Extends s t → Extends t u → Extends s u
Extends-trans p q = record {
  owners = λ k o h. q.owners k o (p.owners k o h);
  frozen_sessions = λ k x h f. q.frozen_sessions k x (p.frozen_sessions k x h f) f;
  origins = λ k o h. q.origins k o (p.origins k o h);
  verification_packages = λ k v h. q.verification_packages k v (p.verification_packages k v h);
  evidence = λ k v h. q.evidence k v (p.evidence k v h);
  run_outcomes = λ k v h. q.run_outcomes k v (p.run_outcomes k v h);
}

-- Every dictionary of the service holds each record under the record's own key.
pub record IsKeyed (s : Service) : Type 0 where
  pub sessions : (k : String) (x : M1Session) → lookup k s.sessions ≡ some x → x.spec_id ≡ k
  pub versions : (k : String) (v : RtlVersion) → lookup k s.versions ≡ some v → v.version_id ≡ k

-- What an operation that writes versions in place keeps: all else, and every origin.
pub record SameOrigins (s t : Service) : Type 0 where
  pub sessions : t.sessions ≡ s.sessions
  pub verification_packages : t.verification_packages ≡ s.verification_packages
  pub evidence : t.evidence ≡ s.evidence
  pub run_outcomes : t.run_outcomes ≡ s.run_outcomes
  pub origins : (k : String) → origin_at k t.versions ≡ origin_at k s.versions

pub SameOrigins-refl : (s : Service) → SameOrigins s s
SameOrigins-refl s = record {
  sessions = refl;
  verification_packages = refl;
  evidence = refl;
  run_outcomes = refl;
  origins = λ k. refl;
}

pub SameOrigins-trans : {s t u : Service} → SameOrigins s t → SameOrigins t u → SameOrigins s u
SameOrigins-trans p q = record {
  sessions = q.sessions ∙ p.sessions;
  verification_packages = q.verification_packages ∙ p.verification_packages;
  evidence = q.evidence ∙ p.evidence;
  run_outcomes = q.run_outcomes ∙ p.run_outcomes;
  origins = λ k. q.origins k ∙ p.origins k;
}

pub SameOrigins-Extends : {s t : Service} → SameOrigins s t → Extends s t
SameOrigins-Extends p = record {
  owners = λ k o h. rw p.sessions h;
  frozen_sessions = λ k x h f. rw p.sessions h;
  origins = λ k o h. p.origins k ∙ h;
  verification_packages = λ k v h. rw p.verification_packages h;
  evidence = λ k v h. rw p.evidence h;
  run_outcomes = λ k v h. rw p.run_outcomes h;
}

-- A version written over one of the same origin, with any store.
pub insert-SameOrigins :
    (id : String) (v w : RtlVersion) (store : Store) (s : Service)
    → lookup id s.versions ≡ some v
    → origin w ≡ origin v
    → SameOrigins s (record s { versions = insert id w s.versions; store = store })
insert-SameOrigins id v w store s e same = record {
  sessions = refl;
  verification_packages = refl;
  evidence = refl;
  run_outcomes = refl;
  origins = λ k. ground (arith, lookup-insert id k w s.versions, eq_iff id k);
}

-- Only the store differs.
pub store-SameOrigins : (store : Store) (s : Service) → SameOrigins s (record s { store = store })
store-SameOrigins store s = record {
  sessions = refl;
  verification_packages = refl;
  evidence = refl;
  run_outcomes = refl;
  origins = λ k. refl;
}
