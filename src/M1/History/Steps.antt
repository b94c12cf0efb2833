-- ===== src/M1/History/Steps.antt =====
-- The operations of `M1Service` as steps of the history.
use agentic_rtlto_gds_design.Prelude.{
  String, ◌≡◌, refl, sym, ap, ◌∙◌, inl, inr, Bool, Option, none, some, List, arith, ◌==◌, eq_iff,
  Bool-cases,
}
use agentic_rtlto_gds_design.Prelude.Text.{◌<>◌}
use agentic_rtlto_gds_design.Prelude.Dict.{Dict, lookup, insert, lookup-insert}
use agentic_rtlto_gds_design.Contracts.RtlFrontend.{SpecIr, VerificationPackage}
use agentic_rtlto_gds_design.Contracts.Evidence.{EvidenceRef}
use agentic_rtlto_gds_design.M1.Models.{frozen, CheckStatus, M1Session, RtlVersion}
use agentic_rtlto_gds_design.M1.Store.{Store}
use agentic_rtlto_gds_design.M1.State.{Service, Stdlib}
use agentic_rtlto_gds_design.M1.V2.{V2Client}
use agentic_rtlto_gds_design.M1.Sessions.{assess_spec, freeze_spec}
use agentic_rtlto_gds_design.M1.Versions.{
  invalidate, invalidate_parent, create_rtl_version, record_verification, record_simulation,
}
use agentic_rtlto_gds_design.M1.Submit.{
  register_verification_package, submit_verification, submit_simulation, submit_rtl_to_gds,
}
use agentic_rtlto_gds_design.M1.Evidence.{
  record_evidence, Artifact, record_incomplete, record_gds_evidence,
}
use agentic_rtlto_gds_design.M1.Ends.{
  record_verification_ends, record_simulation_ends, submit_verification_ends,
  submit_simulation_ends, invalidate_parent_ends, create_rtl_version_ends,
}
use agentic_rtlto_gds_design.M1.Ends.Records.{
  with_package, with_evidence, with_outcome, assess_spec_ends, freeze_spec_ends,
  register_verification_package_ends, submit_rtl_to_gds_ends, record_evidence_ends,
  record_incomplete_ends, record_gds_evidence_ends,
}
use agentic_rtlto_gds_design.M1.History.{
  origin, Keeps, Extends, Extends-trans, IsKeyed, SameOrigins-Extends, insert-SameOrigins,
  store-SameOrigins,
}

pub record Advances (s t : Service) : Type 0 where
  pub extends : Extends s t
  pub keyed : IsKeyed t

-- A record under its own key, written into a dictionary of such records.
insert-Keyed {ℓ} :
    {V : Type ℓ} (key : V → String) (d : Dict V) (id : String) (w : V)
    → ((k : String) (v : V) → lookup k d ≡ some v → key v ≡ k)
    → key w ≡ id
    → (k : String) (v : V) → lookup k (insert id w d) ≡ some v
    → key v ≡ k
insert-Keyed key d id w h own k v e = elim (Bool-cases (id == k)) [
  | inl same ↦ ground (arith, lookup-insert id k w d, eq_iff id k)
  | inr other ↦ h k v (sym (lookup-insert id k w d ∙ rw other refl) ∙ e)
]

insert-Keeps {ℓ} :
    {V : Type ℓ} (id : String) (w : V) (d : Dict V) → lookup id d ≡ none → Keeps d (insert id w d)
insert-Keeps id w d new k v e = ground (arith, lookup-insert id k w d, eq_iff id k)

-- Only the store changes.
store-Advances :
    (s t : Service) (store : Store) → Advances s t → Advances s (record t { store = store })
store-Advances s t store h = record {
  extends = Extends-trans h.extends (SameOrigins-Extends (store-SameOrigins store t));
  keyed = record { sessions = h.keyed.sessions; versions = h.keyed.versions };
}

-- A version is overwritten by one of the same origin and key.
version-Advances :
    (s t : Service) (id : String) (v w : RtlVersion) (store : Store)
    → Advances s t
    → lookup id t.versions ≡ some v
    → origin w ≡ origin v
    → w.version_id ≡ v.version_id
    → Advances s (record t { versions = insert id w t.versions; store = store })
version-Advances s t id v w store h e same own = record {
  extends =
      Extends-trans h.extends (SameOrigins-Extends (insert-SameOrigins id v w store t e same));
  keyed = record {
    sessions = h.keyed.sessions;
    versions =
        insert-Keyed (λ (x : RtlVersion). x.version_id) t.versions id w h.keyed.versions
          (own ∙ h.keyed.versions id v e);
  };
}

-- A version is written under a new key.
new_version-Advances :
    (s t : Service) (w : RtlVersion) (store : Store)
    → Advances s t
    → lookup w.version_id t.versions ≡ none
    → Advances s (record t { versions = insert w.version_id w t.versions; store = store })
new_version-Advances s t w store h new = record {
  extends = Extends-trans h.extends (record {
    owners = λ k o e. e;
    frozen_sessions = λ k x e f. e;
    origins =
        λ k o e. ground (arith, lookup-insert w.version_id k w t.versions, eq_iff w.version_id k);
    verification_packages = λ k v e. e;
    evidence = λ k v e. e;
    run_outcomes = λ k v e. e;
  });
  keyed = record {
    sessions = h.keyed.sessions;
    versions =
        insert-Keyed (λ (x : RtlVersion). x.version_id) t.versions w.version_id w h.keyed.versions
          refl;
  };
}

pub record_verification-Advances :
    (id run_id : String) (status : CheckStatus) (s t : Service)
    → Advances s t
    → Advances s (record_verification id status run_id t).1
record_verification-Advances id run_id status s t h =
    record_verification_ends (Advances s) id run_id status t h
      λ v e _ _ _. version-Advances s t id v _ _ h e refl refl

pub record_simulation-Advances :
    (id run_id : String) (status : CheckStatus) (s t : Service)
    → Advances s t
    → Advances s (record_simulation id status run_id t).1
record_simulation-Advances id run_id status s t h =
    record_simulation_ends (Advances s) id run_id status t h
      λ v e _ _ _. version-Advances s t id v _ _ h e refl refl

pub submit_verification-Advances :
    (id : String) (v2 : V2Client) (s t : Service)
    → Advances s t
    → Advances s (submit_verification id v2 t).1
submit_verification-Advances id v2 s t h =
    submit_verification_ends (Advances s) id v2 t h
      λ v run_id e _. version-Advances s t id v _ _ h e refl refl

pub submit_simulation-Advances :
    (id : String) (v2 : V2Client) (s t : Service)
    → Advances s t
    → Advances s (submit_simulation id v2 t).1
submit_simulation-Advances id v2 s t h =
    submit_simulation_ends (Advances s) id v2 t h
      (λ v run_id _ _ e _ _. version-Advances s t id v _ t.store h e refl refl)
      (λ v run_id e _. version-Advances s t id v _ _ h e refl refl)

pub invalidate_parent-Advances :
    (spec_id : String) (parent : Option String) (s t : Service)
    → Advances s t
    → Advances s (invalidate_parent spec_id parent t).1
invalidate_parent-Advances spec_id parent s t h =
    invalidate_parent_ends (Advances s) spec_id parent t h λ id v e.
      let here : lookup v.version_id t.versions ≡ some v =
        ap (λ (k : String). lookup k t.versions) (h.keyed.versions id v e) ∙ e in
      (
        (λ _ _. version-Advances s t v.version_id v _ t.store h here refl refl),
        λ _. version-Advances s t v.version_id v _ _ h here refl refl,
      )

-- A key that no version has is still free after the parent's invalidation.
lookup-invalidate_parent :
    (k spec_id : String) (parent : Option String) (t : Service)
    → IsKeyed t
    → lookup k t.versions ≡ none
    → lookup k (invalidate_parent spec_id parent t).1.versions ≡ none
lookup-invalidate_parent k spec_id parent t keyed free =
    invalidate_parent_ends (λ u. lookup k u.versions ≡ none) spec_id parent t free
      λ id v e.
        let own = keyed.versions id v e in
        let still : lookup k (insert v.version_id (invalidate v) t.versions) ≡ none =
          ground (
            arith,
            lookup-insert v.version_id k (invalidate v) t.versions,
            eq_iff v.version_id k,
          ) in
        ((λ _ _. still), λ _. still)

pub create_rtl_version-Advances :
    (lib : Stdlib) (uuid spec_id rtl_source generator : String) (parent source_ref : Option String)
    (s t : Service)
    → lookup ("rtl-" <> uuid) t.versions ≡ none
    → Advances s t
    → Advances s (create_rtl_version lib uuid spec_id rtl_source generator parent source_ref t).1
create_rtl_version-Advances lib uuid spec_id rtl_source generator parent source_ref s t free h =
    let after = invalidate_parent-Advances spec_id parent s t h in
    create_rtl_version_ends (Advances s) lib uuid spec_id rtl_source generator parent source_ref t h
      after
      λ u w at_u own _.
        new_version-Advances s u w _ (rw at_u after)
          (rw (own, at_u) (lookup-invalidate_parent ("rtl-" <> uuid) spec_id parent t h.keyed free))

pub assess_spec-Advances :
    (uuid owner_id : String) (spec : Option SpecIr) (questions : List String)
    (reason : Option String) (s t : Service)
    → lookup ("spec-" <> uuid) t.sessions ≡ none
    → Advances s t
    → Advances s (assess_spec uuid owner_id spec questions reason t).1
assess_spec-Advances uuid owner_id spec questions reason s t free h =
    assess_spec_ends (Advances s) uuid owner_id spec questions reason t h λ x own _ _ _ _ _.
      let new : lookup x.spec_id t.sessions ≡ none = rw own free in
      record {
        extends = Extends-trans h.extends (record {
          owners =
              λ k o e. ground (arith, lookup-insert x.spec_id k x t.sessions, eq_iff x.spec_id k);
          frozen_sessions = λ k y e f. insert-Keeps x.spec_id x t.sessions new k y e;
          origins = λ k o e. e;
          verification_packages = λ k v e. e;
          evidence = λ k v e. e;
          run_outcomes = λ k v e. e;
        });
        keyed = record {
          sessions =
              insert-Keyed (λ (y : M1Session). y.spec_id) t.sessions x.spec_id x h.keyed.sessions
                refl;
          versions = h.keyed.versions;
        };
      }

pub freeze_spec-Advances :
    (lib : Stdlib) (id : String) (s t : Service)
    → Advances s t
    → Advances s (freeze_spec lib id t).1
freeze_spec-Advances lib id s t h =
    freeze_spec_ends (Advances s) lib id t h λ x spec digest e at_state _ _ _.
      let y : M1Session = record x { state = frozen; frozen_fingerprint = some digest } in
      record {
        extends = Extends-trans h.extends (record {
          owners = λ k o q. ground (arith, lookup-insert id k y t.sessions, eq_iff id k);
          frozen_sessions = λ k z q f. ground (arith, lookup-insert id k y t.sessions, eq_iff id k);
          origins = λ k o q. q;
          verification_packages = λ k v q. q;
          evidence = λ k v q. q;
          run_outcomes = λ k v q. q;
        });
        keyed = record {
          sessions =
              insert-Keyed (λ (z : M1Session). z.spec_id) t.sessions id y h.keyed.sessions
                (h.keyed.sessions id x e);
          versions = h.keyed.versions;
        };
      }

-- What an operation that only adds a package, evidence or an outcome advances.
adds-Advances :
    (s t u : Service)
    → Advances s t
    → u.sessions ≡ t.sessions
    → u.versions ≡ t.versions
    → Keeps t.verification_packages u.verification_packages
    → Keeps t.evidence u.evidence
    → Keeps t.run_outcomes u.run_outcomes
    → Advances s u
adds-Advances s t u h sessions versions packages evidence outcomes = record {
  extends = Extends-trans h.extends (record {
    owners = λ k o e. rw sessions e;
    frozen_sessions = λ k z e f. rw sessions e;
    origins = λ k o e. rw versions e;
    verification_packages = packages;
    evidence = evidence;
    run_outcomes = outcomes;
  });
  keyed = record {
    sessions = rw sessions h.keyed.sessions;
    versions = rw versions h.keyed.versions;
  };
}

pub register_verification_package-Advances :
    (id : String) (p : VerificationPackage) (s t : Service)
    → Advances s t
    → Advances s (register_verification_package id p t).1
register_verification_package-Advances id p s t h =
    register_verification_package_ends (Advances s) id p t h λ own _ new.
      adds-Advances s t (with_package id p t) h refl refl
        (insert-Keeps id p t.verification_packages new) (λ k v e. e) (λ k v e. e)

pub submit_rtl_to_gds-Advances :
    (lib : Stdlib) (id pdk : String) (v2 : V2Client) (s t : Service)
    → Advances s t
    → Advances s (submit_rtl_to_gds lib id pdk v2 t).1
submit_rtl_to_gds-Advances lib id pdk v2 s t h =
    submit_rtl_to_gds_ends (Advances s) lib id pdk v2 t h (λ run_id o. store-Advances s t _ h)

pub record_evidence-Advances :
    (lib : Stdlib) (e : EvidenceRef) (s t : Service)
    → Advances s t
    → Advances s (record_evidence lib e t).1
record_evidence-Advances lib e s t h =
    record_evidence_ends (Advances s) lib e t h λ x v _ _ _ _ _ new _.
      adds-Advances s t (with_evidence e t) h refl refl (λ k v e. e)
        (insert-Keeps e.evidence_id e t.evidence new) (λ k v e. e)

record_incomplete-Advances :
    (version_id run_id pdk : String) (artifacts : List Artifact) (missing : List String)
    (s t : Service)
    → lookup run_id t.run_outcomes ≡ none
    → Advances s t
    → Advances s (record_incomplete version_id run_id pdk artifacts missing t).1
record_incomplete-Advances version_id run_id pdk artifacts missing s t new h =
    record_incomplete_ends (Advances s) version_id run_id pdk artifacts missing t h λ o own _.
      adds-Advances s t (with_outcome o t) h refl refl (λ k v e. e) (λ k v e. e)
        (insert-Keeps o.run_id o t.run_outcomes (rw own new))

pub record_gds_evidence-Advances :
    (lib : Stdlib) (now version_id run_id : String) (artifacts : List Artifact) (pdk : String)
    (metrics : List (Option Bool)) (s t : Service)
    → Advances s t
    → Advances s (record_gds_evidence lib now version_id run_id artifacts pdk metrics t).1
record_gds_evidence-Advances lib now version_id run_id artifacts pdk metrics s t h =
    record_gds_evidence_ends (Advances s) lib now version_id run_id artifacts pdk metrics t h
      (λ e. record_evidence-Advances lib e s t h)
      (λ missing new. record_incomplete-Advances version_id run_id pdk artifacts missing s t new h)
