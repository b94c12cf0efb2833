-- ===== src/M1/Settled.antt =====
-- `observe_run` of `M1Service`: a run that has ended leaves no version running.
pub mod Returns
use mathlib.Core.Path.{subst}
use agentic_rtlto_gds_design.Prelude.{
  String, ◌≡◌, refl, sym, ◌∙◌, ◌⊎◌, inl, inr, Bool, true, false, ◌&&◌, Option, none, some, List, [],
  ◌∷◌, arith, ◌==◌, eq_iff, Bool-cases,
}
use agentic_rtlto_gds_design.Prelude.Dict.{Dict, lookup, insert, lookup-insert, lookup-insert_self}
use agentic_rtlto_gds_design.Prelude.Lists.{elem}
use agentic_rtlto_gds_design.Prelude.Result.{ok, err, Result-cases}
use agentic_rtlto_gds_design.Prelude.Table.{HasPrimaryKey}
use agentic_rtlto_gds_design.M1.Ends.{verified, simulated}
use agentic_rtlto_gds_design.M1.Models.{
  CheckStatus, is_running, is_result, RtlVersion, validate_version_record,
}
use agentic_rtlto_gds_design.M1.Runs.{
  is_run, terminal_statuses, result_of, observe_verification, observe_simulation, observe_versions,
  observe_run,
}
use agentic_rtlto_gds_design.M1.State.{Service, get_rtl_version, save_version}
use agentic_rtlto_gds_design.M1.Store.{put_version}
use agentic_rtlto_gds_design.M1.Versions.{record_verification, record_simulation}

-- A version that does not run under the id
pub record Settled (run_id : String) (v : RtlVersion) : Type 0 where
  pub verification :
      (is_run run_id v.verification_run_id && is_running v.verification_status) ≡ false
  pub simulation : (is_run run_id v.simulation_run_id && is_running v.simulation_status) ≡ false

-- The version under one key is another, and every other is the same.
record Rewrites (k : String) (w : RtlVersion) (s t : Service) : Type 0 where
  new : lookup k t.versions ≡ some w
  same : (j : String) → (k == j) ≡ false → lookup j t.versions ≡ lookup j s.versions

inserted :
    (k : String) (w : RtlVersion) (s t : Service)
    → t.versions ≡ insert k w s.versions
    → Rewrites k w s t
inserted k w s t e = record {
  new = rw e (lookup-insert_self k w s.versions);
  same = λ j other. rw e (lookup-insert k j w s.versions ∙ rw other refl);
}

Rewrites-trans :
    {k : String} {v w : RtlVersion} {s t u : Service}
    → Rewrites k v s t
    → Rewrites k w t u
    → Rewrites k w s u
Rewrites-trans p q = record { new = q.new; same = λ j other. q.same j other ∙ p.same j other }

verification_written :
    (k run_id : String) (status : CheckStatus) (s : Service) (v u : RtlVersion)
    → lookup k s.versions ≡ some v
    → (record_verification k status run_id s).0 ≡ ok u
    → (Rewrites k (verified status run_id v) s (record_verification k status run_id s).1)
      × (is_result status ≡ true)
unfolding record_verification get_rtl_version save_version put_version
verification_written k run_id status s v u found h =
    elim (Result-cases (validate_version_record (verified status run_id v))) [
      | inr (e, bad) ↦ absurd (ground arith)
      | inl (_, valid) ↦ (
        inserted k (verified status run_id v) s (record_verification k status run_id s).1
            (ground arith),
        ground arith,
      )
    ]

simulation_written :
    (k run_id : String) (status : CheckStatus) (s : Service) (v u : RtlVersion)
    → lookup k s.versions ≡ some v
    → (record_simulation k status run_id s).0 ≡ ok u
    → (Rewrites k (simulated status run_id v) s (record_simulation k status run_id s).1)
      × (is_result status ≡ true)
unfolding record_simulation get_rtl_version save_version put_version
simulation_written k run_id status s v u found h =
    elim (Result-cases (validate_version_record (simulated status run_id v))) [
      | inr (e, bad) ↦ absurd (ground arith)
      | inl (_, valid) ↦ (
        inserted k (simulated status run_id v) s (record_simulation k status run_id s).1
            (ground arith),
        ground arith,
      )
    ]

-- A result is not running.
result_stops :
    (b : Bool) (status : CheckStatus) → is_result status ≡ true → (b && is_running status) ≡ false
result_stops b status h = ground arith

-- The first half of a step
verification_half :
    (run_id : String) (status : CheckStatus) (k : String) (v : RtlVersion) (s : Service)
    → lookup k s.versions ≡ some v
    → (observe_verification run_id status (k, v) s).0 ≡ ok tt
    → (w : RtlVersion) × Rewrites k w s (observe_verification run_id status (k, v) s).1
      × ((is_run run_id w.verification_run_id && is_running w.verification_status) ≡ false)
      × (w.simulation_run_id ≡ v.simulation_run_id)
      × (w.simulation_status ≡ v.simulation_status)
unfolding observe_verification
verification_half run_id status k v s found h =
    elim (Bool-cases (is_run run_id v.verification_run_id && is_running v.verification_status)) [
      | inr other ↦ rw other (v, record { new = found; same = λ j ne. refl }, other, refl, refl)
      | inl runs ↦ elim (Result-cases (record_verification k status run_id s).0) [
        | inr (e, bad) ↦ absurd (ground arith)
        | inl (u, done) ↦
            let (writes, result) = verification_written k run_id status s v u found done in
            rw (runs, done)
              (verified status run_id v, writes, result_stops _ status result, refl, refl)
      ]
    ]

simulation_half :
    (run_id : String) (status : CheckStatus) (k : String) (v w : RtlVersion) (s : Service)
    → lookup k s.versions ≡ some w
    → (is_run run_id w.verification_run_id && is_running w.verification_status) ≡ false
    → w.simulation_run_id ≡ v.simulation_run_id
    → w.simulation_status ≡ v.simulation_status
    → (observe_simulation run_id status (k, v) s).0 ≡ ok tt
    → (u : RtlVersion) × Rewrites k u s (observe_simulation run_id status (k, v) s).1
      × Settled run_id u
unfolding observe_simulation
simulation_half run_id status k v w s found verification id_same status_same h =
    elim (Bool-cases (is_run run_id v.simulation_run_id && is_running v.simulation_status)) [
      | inr other ↦ rw other (
        w,
        record { new = found; same = λ j ne. refl },
        record { verification = verification; simulation = rw (id_same, status_same) other },
      )
      | inl runs ↦ elim (Result-cases (record_simulation k status run_id s).0) [
        | inr (e, bad) ↦ absurd (ground arith)
        | inl (u, done) ↦
            let (writes, result) = simulation_written k run_id status s w u found done in
            rw (runs, done)
              (
                simulated status run_id w,
                writes,
                record { verification = verification; simulation = result_stops _ status result },
              )
      ]
    ]

-- A step of the loop settles the version under its key.
entry_settles :
    (run_id : String) (status : CheckStatus) (k : String) (v : RtlVersion)
    (rest : List (String × RtlVersion)) (s : Service)
    → lookup k s.versions ≡ some v
    → (observe_versions run_id status ((k, v) ∷ rest) s).0 ≡ ok tt
    → (t : Service) × (w : RtlVersion) × Rewrites k w s t
      × Settled run_id w
      × (observe_versions run_id status ((k, v) ∷ rest) s ≡ observe_versions run_id status rest t)
unfolding observe_versions
entry_settles run_id status k v rest s found h =
    elim (Result-cases (observe_verification run_id status (k, v) s).0) [
      | inr (e, bad) ↦ absurd (ground arith)
      | inl (u, first) ↦
          let t = (observe_verification run_id status (k, v) s).1 in
          let (w, writes, verification, id_same, status_same) =
            verification_half run_id status k v s found first in
          elim (Result-cases (observe_simulation run_id status (k, v) t).0) [
            | inr (e, bad) ↦ absurd (ground arith)
            | inl (u', second) ↦
                let (x, again, settled) =
                  simulation_half run_id status k v w t writes.new verification id_same status_same
                    second in
                (
                  (observe_simulation run_id status (k, v) t).1,
                  x,
                  Rewrites-trans writes again,
                  settled,
                  rw (first, second) refl,
                )
          ]
    ]

-- The versions that the loop still has before it are as they were; the others are settled.
record Progress (run_id : String) (rest : Dict RtlVersion) (s : Service) : Type 0 where
  waiting : (j : String) (v : RtlVersion) → lookup j rest ≡ some v → lookup j s.versions ≡ some v
  others :
      (j : String) (v : RtlVersion)
      → lookup j s.versions ≡ some v
      → (lookup j rest ≡ some v) ⊎ Settled run_id v

step-Progress :
    (run_id k : String) (v w : RtlVersion) (rest : Dict RtlVersion) (s t : Service)
    → lookup k rest ≡ none
    → Progress run_id ((k, v) ∷ rest) s
    → Rewrites k w s t
    → Settled run_id w
    → Progress run_id rest t
unfolding lookup
step-Progress run_id k v w rest s t once p writes settled = record {
  waiting = λ j x e. elim (Bool-cases (k == j)) [
    | inl here ↦ absurd (ground (arith, eq_iff k j))
    | inr other ↦ writes.same j other ∙ p.waiting j x (rw other e)
  ];
  others = λ j x e. elim (Bool-cases (k == j)) [
    | inl here ↦ inr (settled_at j x here e)
    | inr other ↦ elim (p.others j x (sym (writes.same j other) ∙ e)) [
      | inl ahead ↦ inl (ground arith)
      | inr done ↦ inr done
    ]
  ];
}
  where
    settled_at :
        (j : String) (x : RtlVersion)
        → (k == j) ≡ true
        → lookup j t.versions ≡ some x
        → Settled run_id x
    settled_at j x here e =
        let same : w ≡ x = ground (arith, eq_iff k j, writes.new) in rw (← same) settled

loop-Settled :
    (run_id : String) (status : CheckStatus) (rest : Dict RtlVersion) (s : Service)
    → HasPrimaryKey rest
    → Progress run_id rest s
    → (observe_versions run_id status rest s).0 ≡ ok tt
    → (j : String) (v : RtlVersion)
    → lookup j (observe_versions run_id status rest s).1.versions ≡ some v
    → Settled run_id v
unfolding observe_versions lookup
loop-Settled run_id status [] s once p h j v e = elim (p.others j v e) [
  | inl ahead ↦ absurd (ground arith)
  | inr done ↦ done
]
loop-Settled run_id status ((k, v) ∷ rest) s (first, once) p h j x e =
    let (t, w, writes, settled, same) =
      entry_settles run_id status k v rest s (head_found k v rest s p) h in
    loop-Settled run_id status rest t once
      (step-Progress run_id k v w rest s t first p writes settled) (rw (← same) h) j x
      (rw (← same) e)
  where
    head_found :
        (k : String) (v : RtlVersion) (rest : Dict RtlVersion) (s : Service)
        → Progress run_id ((k, v) ∷ rest) s
        → lookup k s.versions ≡ some v
    head_found k v rest s p = p.waiting k v (ground (arith, eq_iff k k))

-- A run that has ended leaves no version running: when `observe_run` is told of a terminal status and
-- returns, no version has a verification or a simulation that runs under that id, provided that no
-- key of the dictionary of versions stands twice.
pub observe_run-Settled :
    (run_id status : String) (s : Service) (id : String) (v : RtlVersion)
    → HasPrimaryKey s.versions
    → elem status terminal_statuses ≡ true
    → (observe_run run_id status s).0 ≡ ok tt
    → lookup id (observe_run run_id status s).1.versions ≡ some v
    → Settled run_id v
unfolding observe_run
observe_run-Settled run_id status s id v once ended h e =
    loop-Settled run_id (result_of status) s.versions s once
      (record { waiting = λ j x found. found; others = λ j x found. inl found })
      (subst (λ r. r.0 ≡ ok tt) (observed run_id status s ended) h) id v
      (subst (λ r. lookup id r.1.versions ≡ some v) (observed run_id status s ended) e)
  where
    observed :
        (run_id status : String) (s : Service)
        → elem status terminal_statuses ≡ true
        → observe_run run_id status s ≡ observe_versions run_id (result_of status) s.versions s
    observed run_id status s ended = rw ended refl
