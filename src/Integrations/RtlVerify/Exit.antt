-- ===== src/Integrations/RtlVerify/Exit.antt =====
-- The exit code of integrations/rtl_verify/adapter.py.
use mathlib.Core.Path.{subst, sym}
use agentic_rtlto_gds_design.Prelude.{
  ◌∙◌, ap, ◌++◌, [], ◌∷◌, String, ◌≡◌, refl, ◌↔◌, inl, inr, Bool, true, false, List, arith,
  Bool-cases, if◌then◌else◌,
}
use agentic_rtlto_gds_design.Prelude.Text.{◌<>◌}
use agentic_rtlto_gds_design.Prelude.Json.{ℤ, pos, negsuc, is_int}
use agentic_rtlto_gds_design.Prelude.Result.{
  Result, Check, ok, err, ◌>>=◌, ◌>>◌, Result-cases, >>-eq-ok, >>=-eq-ok, ok_inj,
}
use agentic_rtlto_gds_design.Integrations.RtlVerify.Request.{
  IsRequested, read_job-IsRequested, IsRequested-read_job,
}
use agentic_rtlto_gds_design.Integrations.RtlVerify.{
  Machine, Job, Row, LoopEnd, all_run, returned, Outcome, succeeded, check_failed,
  configuration_error, escaped, exit_code, read_job, lint_command, check_command, run_commands,
  run_checks, commands, join_words, with_log, fail_check, finish, report_error, is_caught,
  outcome_of, main,
}

-- A command that is logged, ends with exit code 0, and whose output is logged.
pub record RunsClean (m : Machine) (check : String) (command : List String) : Type 0 where
  pub output : String
  pub header : m.write_log check ("$ " <> (join_words command <> "\n")) ≡ ok tt
  pub run : m.run command ≡ ok (record { returncode = pos 0; stdout = output })
  pub logged : m.write_log check output ≡ ok tt

abbrev pub clean_rows : List Row
clean_rows = ("verilator-lint", pos 0) ∷ ("yosys-check", pos 0) ∷ []

-- The request is right, both tools end with exit code 0, and every write succeeds.
pub record Passes (m : Machine) : Type 0 where
  pub job : Job
  pub requested : IsRequested m job
  pub make_outputs : m.make_outputs ≡ ok tt
  pub copy_rtl : m.copy_rtl job.rtl ≡ ok tt
  pub open_log : m.open_log ≡ ok tt
  pub lint : RunsClean m "verilator-lint" (lint_command job)
  pub check : RunsClean m "yosys-check" (check_command job)
  pub close_log : m.close_log ≡ ok tt
  pub report : m.write_report job.top clean_rows ≡ ok tt
  pub result : m.write_result (succeeded clean_rows) ≡ ok tt

zero_code : (n : ℤ) → is_int 0 n ≡ true → n ≡ pos 0
zero_code (pos n) h = ground arith
zero_code (negsuc n) h = cc

nonzero_code : (n : ℤ) → is_int 0 n ≡ false → ¬ (n ≡ pos 0)
nonzero_code (pos n) h e = ground arith
nonzero_code (negsuc n) h e = cc

-- What `main` reports as 0 was returned inside the `try` statement.
outcome_of-zero :
    (m : Machine) (r : Result Outcome)
    → exit_code (outcome_of m r) ≡ pos 0
    → (o : Outcome) × (r ≡ ok o) × (exit_code o ≡ pos 0)
unfolding outcome_of
outcome_of-zero m (ok o) h = (o, refl, h)
outcome_of-zero m (err e) h = absurd (raised (is_caught e) h)
  where
    raised :
        (b : Bool)
        → ¬ (
            exit_code
              (if b then report_error e (m.write_result (configuration_error e)) else escaped e)
            ≡ pos 0)
    raised false x = ground arith
    raised true x = elim (Result-cases (m.write_result (configuration_error e))) [
      | inl (u, w) ↦ ground arith
      | inr (y, w) ↦ ground arith
    ]

-- An end of the loop that lets `main` return 0
abbrev IsClean : LoopEnd → Type 0
IsClean (all_run rows) = Unit
IsClean (returned o) = exit_code o ≡ pos 0

fail_check-unclean :
    (m : Machine) (check : String) (code : ℤ) (ended : LoopEnd)
    → is_int 0 code ≡ false
    → fail_check m check code ≡ ok ended
    → ¬ IsClean ended
unfolding fail_check
fail_check-unclean m check code ended bad h clean =
    let (_, same) = >>-eq-ok (m.write_result (check_failed check code)) _ h in
    nonzero_code code bad (subst IsClean (sym (ok_inj _ _ same)) clean)

-- A command that the loop gets past ran clean, and the loop goes on with its row.
run_commands-step :
    (m : Machine) (rows : List Row) (entry : String × List String)
    (entries : List (String × List String)) (ended : LoopEnd)
    → run_commands m rows (entry ∷ entries) ≡ ok ended
    → IsClean ended
    → RunsClean m entry.0 entry.1
      × (run_commands m (rows ++ (entry.0, pos 0) ∷ []) entries ≡ ok ended)
unfolding run_commands
run_commands-step m rows entry entries ended h clean =
    let (header, h₁) = >>-eq-ok (m.write_log entry.0 _) _ h in
    let (completed, ran, h₂) = >>=-eq-ok (m.run entry.1) _ h₁ in
    let (logged, h₃) = >>-eq-ok (m.write_log entry.0 completed.stdout) _ h₂ in
    elim (Bool-cases (is_int 0 completed.returncode)) [
      | inl good ↦
          let zero = zero_code completed.returncode good in
          (
            record {
              output = completed.stdout;
              header = header;
              run = ran ∙ ap (λ n. ok (record { returncode = n; stdout = completed.stdout })) zero;
              logged = logged;
            },
            subst (λ n. run_commands m (rows ++ (entry.0, n) ∷ []) entries ≡ ok ended) zero
                (sym (rw good refl) ∙ h₃),
          )
      | inr bad ↦ absurd (
          fail_check-unclean m entry.0 completed.returncode ended bad (sym (rw bad refl) ∙ h₃)
            clean)
    ]

finish-IsClean :
    (m : Machine) (j : Job) (ended : LoopEnd) (o : Outcome)
    → finish m j ended ≡ ok o
    → exit_code o ≡ pos 0
    → IsClean ended
unfolding finish
finish-IsClean m j (all_run rows) o h zero = tt
finish-IsClean m j (returned p) o h zero =
    subst (λ x. exit_code x ≡ pos 0) (sym (ok_inj p o h)) zero

finish-writes :
    (m : Machine) (j : Job) (ended : LoopEnd) (o : Outcome) (rows : List Row)
    → run_commands m rows [] ≡ ok ended
    → finish m j ended ≡ ok o
    → (m.write_report j.top rows ≡ ok tt) × (m.write_result (succeeded rows) ≡ ok tt)
unfolding run_commands finish
finish-writes m j ended o rows e h =
    let h' : finish m j (all_run rows) ≡ ok o =
      subst (λ x. finish m j x ≡ ok o) (sym (ok_inj _ _ e)) h in
    let (report, rest) = >>-eq-ok (m.write_report j.top rows) _ h' in
    let (result, _) = >>-eq-ok (m.write_result (succeeded rows)) _ rest in (report, result)

main-zero : (m : Machine) → exit_code (main m) ≡ pos 0 → Passes m
unfolding main run_checks with_log
main-zero m zero =
    let (o, all, fine) = outcome_of-zero m _ zero in
    let (j, read, h₁) = >>=-eq-ok (read_job m) _ all in
    let (made, h₂) = >>-eq-ok m.make_outputs _ h₁ in
    let (copied, h₃) = >>-eq-ok (m.copy_rtl j.rtl) _ h₂ in
    let (ended, looped, h₄) = >>=-eq-ok (with_log m (run_commands m [] (commands j))) _ h₃ in
    let (opened, h₅) = >>-eq-ok m.open_log _ looped in
    let (closed, h₆) = >>-eq-ok m.close_log _ h₅ in
    let clean = finish-IsClean m j ended o h₄ fine in
    let (lint, h₇) = run_commands-step m [] _ _ ended h₆ clean in
    let (check, h₈) = run_commands-step m _ _ [] ended h₇ clean in
    let (report, result) = finish-writes m j ended o clean_rows h₈ h₄ in
    record {
      job = j;
      requested = read_job-IsRequested m j read;
      make_outputs = made;
      copy_rtl = copied;
      open_log = opened;
      lint = lint;
      check = check;
      close_log = closed;
      report = report;
      result = result;
    }

then_next {ℓ} :
    {B : Type ℓ} (m : Check) (k : Result B) {r : Result B} → m ≡ ok tt → k ≡ r → (m >> k) ≡ r
then_next m k e h = rw e h

bind_next {ℓ} :
    {A B : Type ℓ} (m : Result A) (k : A → Result B) (a : A) {r : Result B}
    → m ≡ ok a
    → k a ≡ r
    → (m >>= k) ≡ r
bind_next m k a e h = rw e h

-- A command that runs clean hands over to the rest of the loop.
run_commands-clean :
    (m : Machine) (rows : List Row) (entry : String × List String)
    (entries : List (String × List String)) (ended : LoopEnd)
    → RunsClean m entry.0 entry.1
    → run_commands m (rows ++ (entry.0, pos 0) ∷ []) entries ≡ ok ended
    → run_commands m rows (entry ∷ entries) ≡ ok ended
unfolding run_commands
run_commands-clean m rows entry entries ended c h =
    then_next (m.write_log entry.0 _) _ c.header
      (bind_next (m.run entry.1) _ _ c.run (then_next (m.write_log entry.0 c.output) _ c.logged h))

looped : (m : Machine) (p : Passes m) → run_commands m [] (commands p.job) ≡ ok (all_run clean_rows)
looped m p =
    run_commands-clean m [] _ _ (all_run clean_rows) p.lint
      (run_commands-clean m _ _ [] (all_run clean_rows) p.check none_left)
  where
    none_left : run_commands m clean_rows [] ≡ ok (all_run clean_rows)
    none_left = unfold run_commands in refl

run_checks-clean : (m : Machine) (p : Passes m) → run_checks m p.job ≡ ok (succeeded clean_rows)
unfolding run_checks with_log finish
run_checks-clean m p = then_next m.make_outputs _ p.make_outputs (
    then_next (m.copy_rtl p.job.rtl) _ p.copy_rtl (
      bind_next (with_log m (run_commands m [] (commands p.job))) _ (all_run clean_rows)
        (then_next m.open_log _ p.open_log (then_next m.close_log _ p.close_log (looped m p)))
        (then_next (m.write_report p.job.top clean_rows) _ p.report
          (then_next (m.write_result (succeeded clean_rows)) _ p.result refl))))

main-succeeded : (m : Machine) → Passes m → main m ≡ succeeded clean_rows
unfolding main outcome_of
main-succeeded m p = ap (outcome_of m) (
    bind_next (read_job m) (run_checks m) p.job (IsRequested-read_job m p.job p.requested)
      (run_checks-clean m p))

-- The adapter returns 0 exactly when the request names a bounded top, the two fixed checks and a
-- staged file, both tools are found, the lint and the synthesis check of the file end with exit code
-- 0, and every write on the way succeeds; it then reports success with the exit codes of the two
-- checks.
pub main_iff :
    (m : Machine)
    → ((exit_code (main m) ≡ pos 0) ↔ Passes m) × (Passes m → main m ≡ succeeded clean_rows)
main_iff m = ((main-zero m, λ p. rw (main-succeeded m p) refl), main-succeeded m)
