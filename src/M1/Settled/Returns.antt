-- ===== src/M1/Settled/Returns.antt =====
-- `observe_run` of `M1Service`: when it returns.
use mathlib.Core.Path.{subst, sym}
use agentic_rtlto_gds_design.Prelude.{
  String, ◌≡◌, refl, inl, inr, Bool, true, ◌&&◌, Option, none, some, [], ◌∷◌, arith, ◌==◌, eq_iff,
  Bool-cases,
}
use agentic_rtlto_gds_design.Prelude.Dict.{Dict, lookup}
use agentic_rtlto_gds_design.Prelude.Lists.{elem}
use agentic_rtlto_gds_design.Prelude.Result.{ok}
use agentic_rtlto_gds_design.Prelude.Table.{HasPrimaryKey}
use agentic_rtlto_gds_design.M1.Ends.{verified, simulated}
use agentic_rtlto_gds_design.M1.Models.{
  CheckStatus, is_running, is_passed, is_result, RtlVersion, validate_version_record,
}
use agentic_rtlto_gds_design.M1.Runs.{
  is_run, terminal_statuses, result_of, observe_verification, observe_simulation, observe_versions,
  observe_run,
}
use agentic_rtlto_gds_design.M1.Settled.{
  Rewrites-trans, simulation_half, Settled, Progress, step-Progress, verification_half,
  observe_run-Settled,
}
use agentic_rtlto_gds_design.M1.State.{Service, get_rtl_version, save_version}
use agentic_rtlto_gds_design.M1.Store.{put_version}
use agentic_rtlto_gds_design.M1.Versions.{record_verification, record_simulation}

-- A valid version, which has passed verification if it is simulated under the id.
pub record IsReady (run_id : String) (v : RtlVersion) : Type 0 where
  pub valid : validate_version_record v ≡ ok tt
  pub simulable :
      (is_run run_id v.simulation_run_id && is_running v.simulation_status) ≡ true
      → is_passed v.verification_status ≡ true

is_run-eq : (run_id : String) (o : Option String) → is_run run_id o ≡ true → o ≡ some run_id
is_run-eq run_id none h = cc
is_run-eq run_id (some r) h = ground (arith, eq_iff r run_id)

and_left : (a b : Bool) → (a && b) ≡ true → a ≡ true
and_left a b h = ground arith

verified_valid :
    (run_id : String) (status : CheckStatus) (v : RtlVersion)
    → v.verification_run_id ≡ some run_id
    → validate_version_record v ≡ ok tt
    → validate_version_record (verified status run_id v) ≡ ok tt
unfolding validate_version_record
verified_valid run_id status v e h = rw e at h

simulated_valid :
    (run_id : String) (status : CheckStatus) (v : RtlVersion)
    → v.simulation_run_id ≡ some run_id
    → validate_version_record v ≡ ok tt
    → validate_version_record (simulated status run_id v) ≡ ok tt
unfolding validate_version_record
simulated_valid run_id status v e h = rw e at h

verification_returns :
    (run_id : String) (status : CheckStatus) (k : String) (v : RtlVersion) (s : Service)
    → is_result status ≡ true
    → lookup k s.versions ≡ some v
    → validate_version_record v ≡ ok tt
    → (observe_verification run_id status (k, v) s).0 ≡ ok tt
unfolding observe_verification record_verification get_rtl_version save_version put_version
verification_returns run_id status k v s result found valid =
    elim (Bool-cases (is_run run_id v.verification_run_id && is_running v.verification_status)) [
      | inr other ↦ rw other refl
      | inl runs ↦
          let valid' =
            verified_valid run_id status v
              (is_run-eq run_id v.verification_run_id (and_left _ _ runs)) valid in
          ground arith
    ]

simulation_returns :
    (run_id : String) (status : CheckStatus) (k : String) (v : RtlVersion) (s : Service)
    → is_result status ≡ true
    → lookup k s.versions ≡ some v
    → IsReady run_id v
    → (observe_simulation run_id status (k, v) s).0 ≡ ok tt
unfolding observe_simulation record_simulation get_rtl_version save_version put_version
simulation_returns run_id status k v s result found r =
    elim (Bool-cases (is_run run_id v.simulation_run_id && is_running v.simulation_status)) [
      | inr other ↦ rw other refl
      | inl runs ↦
          let valid' =
            simulated_valid run_id status v
              (is_run-eq run_id v.simulation_run_id (and_left _ _ runs)) r.valid in
          let passed = r.simulable runs in ground arith
    ]

-- A version whose verification runs is not simulated under the id.
not_simulated :
    (run_id : String) (status : CheckStatus) (k : String) (v : RtlVersion) (t : Service)
    → IsReady run_id v
    → (is_run run_id v.verification_run_id && is_running v.verification_status) ≡ true
    → (observe_simulation run_id status (k, v) t).0 ≡ ok tt
unfolding observe_simulation
not_simulated run_id status k v t r runs =
    elim (Bool-cases (is_run run_id v.simulation_run_id && is_running v.simulation_status)) [
      | inr other ↦ rw other refl
      | inl simulated ↦ let passed = r.simulable simulated in absurd (ground arith)
    ]

-- The second half of a step, after the first.
then_returns :
    (run_id : String) (status : CheckStatus) (k : String) (v : RtlVersion) (s : Service)
    → is_result status ≡ true
    → lookup k s.versions ≡ some v
    → IsReady run_id v
    → (observe_simulation run_id status (k, v) (observe_verification run_id status (k, v) s).1).0
      ≡ ok tt
unfolding observe_verification
then_returns run_id status k v s result found r =
    elim (Bool-cases (is_run run_id v.verification_run_id && is_running v.verification_status)) [
      | inr other ↦ rw other (simulation_returns run_id status k v s result found r)
      | inl runs ↦
          not_simulated run_id status k v (observe_verification run_id status (k, v) s).1 r runs
    ]

-- The versions that the loop still has before it are ready.
abbrev pub AllReady : String → Dict RtlVersion → Type 0
AllReady run_id d = (k : String) (v : RtlVersion) → lookup k d ≡ some v → IsReady run_id v

step_returns :
    (run_id : String) (status : CheckStatus) (k : String) (v : RtlVersion) (rest : Dict RtlVersion)
    (s : Service)
    → is_result status ≡ true
    → lookup k s.versions ≡ some v
    → IsReady run_id v
    → let t =
        (observe_simulation run_id status
          (k, v)
          (observe_verification run_id status (k, v) s).1).1 in
      observe_versions run_id status ((k, v) ∷ rest) s ≡ observe_versions run_id status rest t
unfolding observe_versions
step_returns run_id status k v rest s result found r =
    rw
      (
        verification_returns run_id status k v s result found r.valid,
        then_returns run_id status k v s result found r,
      )
      refl

loop_returns :
    (run_id : String) (status : CheckStatus) (rest : Dict RtlVersion) (s : Service)
    → is_result status ≡ true
    → HasPrimaryKey rest
    → AllReady run_id rest
    → Progress run_id rest s
    → (observe_versions run_id status rest s).0 ≡ ok tt
unfolding observe_versions lookup
loop_returns run_id status [] s result once ready p = refl
loop_returns run_id status ((k, v) ∷ rest) s result (first, once) ready p =
    let here : lookup k ((k, v) ∷ rest) ≡ some v = ground (arith, eq_iff k k) in
    let found = p.waiting k v here in
    let t = (observe_verification run_id status (k, v) s).1 in
    let u = (observe_simulation run_id status (k, v) t).1 in
    let (w, writes, verification, id_same, status_same) =
      verification_half run_id status k v s found
        (verification_returns run_id status k v s result found (ready k v here).valid) in
    let (x, again, settled) =
      simulation_half run_id status k v w t writes.new verification id_same status_same
        (then_returns run_id status k v s result found (ready k v here)) in
    subst (λ r. r.0 ≡ ok tt)
      (sym (step_returns run_id status k v rest s result found (ready k v here)))
      (loop_returns run_id status rest u result once
        (λ j y e. ready j y (ground (arith, eq_iff k j)))
        (step-Progress run_id k v x rest s u first p (Rewrites-trans writes again) settled))

result_of-is_result : (status : String) → is_result (result_of status) ≡ true
result_of-is_result status = elim (Bool-cases (status == "succeeded")) [
  | inl e ↦ rw e refl
  | inr e ↦ rw e refl
]

-- A run that has ended leaves no version running: told of a terminal status, `observe_run` returns, and
-- then no version has a verification or a simulation that runs under that id, whenever every version
-- is valid, no key of the dictionary of versions stands twice, and each version that is simulated
-- under the id has passed verification.
pub observe_run-settles :
    (run_id status : String) (s : Service)
    → HasPrimaryKey s.versions
    → AllReady run_id s.versions
    → elem status terminal_statuses ≡ true
    → ((observe_run run_id status s).0 ≡ ok tt)
      × ((id : String) (v : RtlVersion)
          → lookup id (observe_run run_id status s).1.versions ≡ some v
          → Settled run_id v)
unfolding observe_run
observe_run-settles run_id status s once ready ended =
    let done = returned run_id status s ended (
      loop_returns run_id (result_of status) s.versions s (result_of-is_result status) once ready
        (record { waiting = λ j x found. found; others = λ j x found. inl found })) in
    (done, λ id v. observe_run-Settled run_id status s id v once ended done)
  where
    returned :
        (run_id status : String) (s : Service)
        → elem status terminal_statuses ≡ true
        → (observe_versions run_id (result_of status) s.versions s).0 ≡ ok tt
        → (observe_run run_id status s).0 ≡ ok tt
    returned run_id status s ended h = rw ended h
