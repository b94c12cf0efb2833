-- ===== src/Integrations/RtlVerify.antt =====
-- integrations/rtl_verify/adapter.py: the fixed compile and lint checks of a staged RTL file. The file
-- system, the environment and the two tools are parameters, the calls of `Machine`, each with the
-- exception that it may raise. The two arguments of the command line, and the times in the result, are
-- left out.
pub mod Request
pub mod Exit
mod Tests
use Prim.Native.Char.{code}
use Prim.Native.String
use Prim.Native.String.{String}
use agentic_rtlto_gds_design.Prelude.{
  ◌≡◌, refl, ◌⊎◌, inl, inr, Bool, true, false, not, ◌&&◌, ◌||◌, Option, none, some, List, [], ◌∷◌,
  ◌++◌, arith, eqb, if◌then◌else◌, ◌==◌, Bool-cases, starts_with,
}
use agentic_rtlto_gds_design.Prelude.Text.{is_empty, is_identifier, ◌<>◌}
use agentic_rtlto_gds_design.Prelude.Lists.{all, elem}
use agentic_rtlto_gds_design.Prelude.Json.{ℤ, pos, negsuc, is_int, Json, str, obj, Fields}
use agentic_rtlto_gds_design.Prelude.Document.{get_field, field_or_null, is_truthy, tuple_of}
use agentic_rtlto_gds_design.Prelude.Result.{
  Error, value_error, key_error, type_error, os_error, Result, ok, err, ◌>>=◌, ◌>>◌, require,
  Result-cases, Check,
}

-- `subprocess.CompletedProcess`
pub record Completed : Type 0 where
  pub returncode : ℤ
  pub stdout : String

-- A check and its exit code, an entry of `rows`.
abbrev pub Row : Type 0
Row = String × ℤ

-- What is written as the result, with what is known of it. `escaped` is an exception that leaves
-- `main`, which writes no result.
pub data Outcome : Type 0 where
  succeeded : List Row → Outcome
  check_failed : String → ℤ → Outcome
  configuration_error : Error → Outcome
  escaped : Error → Outcome

-- What `main` returns. An exception that escapes ends the interpreter with 1.
abbrev pub exit_code : Outcome → ℤ
exit_code (succeeded rows) = pos 0
exit_code (check_failed check code) = code
exit_code (configuration_error e) = pos 3
exit_code (escaped e) = pos 1

-- What `main` calls, in the order of its calls: the parsed request; the path of the given parts below
-- the workspace after symbolic links, which raises if it lies outside; a variable of the
-- environment; `Path(value).expanduser().resolve()`; `output.mkdir`; `shutil.copy2` of a file to
-- `verified_design.sv`; `log.open`; `stream.write` of a text during a check; `subprocess.run`; the
-- end of the `with` statement; `report.write_text`; and `write_result`.
pub record Machine : Type 0 where
  pub request : Result Json
  pub resolve : List String → Result String
  pub has_content : String → Bool
  pub environment : String → String
  pub resolve_tool : String → Result String
  pub is_executable : String → Bool
  pub make_outputs : Check
  pub copy_rtl : String → Check
  pub open_log : Check
  pub write_log : String → String → Check
  pub run : List String → Result Completed
  pub close_log : Check
  pub write_report : String → List Row → Check
  pub write_result : Outcome → Check

-- `value[key]`
unfoldable pub index_of : String → Json → Result Json
index_of key (obj fields) = elim (get_field key fields) [
  | none ↦ err (key_error key)
  | some v ↦ ok v
]
index_of key _ = err (type_error "indices must be integers")

-- The parts of a path between slashes and backslashes
unfoldable pub path_parts : String → List String
path_parts String.[] = "" ∷ []
path_parts (String.◌∷◌ c s) = elim (path_parts s) [
  | [] ↦ []
  | part ∷ parts ↦
      if eqb (code c) b'/' || eqb (code c) b'\\'
      then "" ∷ part ∷ parts
      else String.◌∷◌ c part ∷ parts
]

unfoldable pub is_part : String → Bool
is_part part = not (is_empty part) && not (elem part ("." ∷ ".." ∷ []))

-- The tests of `relative_input` on the text alone
unfoldable pub relative_parts : Json → Result (List String)
relative_parts (str value) = do
  require (not (is_empty value) && not (starts_with value "/" || starts_with value "\\"))
      (value_error "rtl_path must be a relative staged input")
  require (all is_part (path_parts value))
      (value_error "rtl_path must stay inside the staged workspace")
  ok (path_parts value)
relative_parts _ = err (value_error "rtl_path must be a relative staged input")

-- `relative_input`
unfoldable pub relative_input : Machine → Json → Result String
relative_input m value = do
  parts ← relative_parts value
  path ← m.resolve parts
  require (m.has_content path) (os_error "staged RTL input is missing or empty")
  ok path

-- `executable`
unfoldable pub executable : Machine → String → Result String
executable m name = do
  require (not (is_empty (m.environment name))) (os_error (name <> " is not configured"))
  path ← m.resolve_tool (m.environment name)
  require (m.is_executable path) (os_error (name <> " is not an executable file"))
  ok path

-- `checks != CHECKS`
unfoldable pub are_checks : List Json → Bool
are_checks (str a ∷ str b ∷ []) = a == "verilator-lint" && b == "yosys-check"
are_checks _ = false

unfoldable pub top_of : Json → Result String
top_of (str top) =
    require (is_identifier top) (value_error "top must be a bounded identifier") >> ok top
top_of _ = err (value_error "top must be a bounded identifier")

-- `tuple(inputs.get("compile_checks") or ())`
unfoldable pub checks_of : Json → Result (List Json)
checks_of checks = if is_truthy checks then tuple_of checks else ok []

abbrev pub fields_of : Json → Fields
fields_of (obj fields) = fields
fields_of _ = Fields.end

-- What the adapter runs: the top, the file and the tools.
pub record Job : Type 0 where
  pub top : String
  pub rtl : String
  pub verilator : String
  pub yosys : String

-- `main` up to the commands
unfoldable pub read_job : Machine → Result Job
read_job m = do
  payload ← m.request
  task ← index_of "task" payload
  inputs ← index_of "inputs" task
  given ← index_of "top" inputs
  top ← top_of given
  checks ← checks_of (field_or_null "compile_checks" (fields_of inputs))
  require (are_checks checks) (value_error "compile_checks must be exactly the fixed checks")
  path ← index_of "rtl_path" inputs
  rtl ← relative_input m path
  verilator ← executable m "RTL_VERIFY_VERILATOR"
  yosys ← executable m "YOSYS_BIN"
  ok record { top = top; rtl = rtl; verilator = verilator; yosys = yosys }

abbrev pub lint_command : Job → List String
lint_command j = j.verilator ∷ "--lint-only" ∷ "--sv" ∷ "--top-module" ∷ j.top ∷ j.rtl ∷ []

abbrev pub check_command : Job → List String
check_command j =
    j.yosys
    ∷ "-Q"
    ∷ "-p"
    ∷ ("read_verilog -sv " <> (j.rtl <> ("; hierarchy -top " <> (j.top <> "; proc; check"))))
    ∷ []

-- `" ".join(command)`
unfoldable pub join_words : List String → String
join_words [] = ""
join_words (word ∷ []) = word
join_words (word ∷ other ∷ words) = word <> (" " <> join_words (other ∷ words))

-- `commands`
abbrev pub commands : Job → List (String × List String)
commands j = ("verilator-lint", lint_command j) ∷ ("yosys-check", check_command j) ∷ []

-- How the loop ends: past the last command, or by its `return`.
pub data LoopEnd : Type 0 where
  all_run : List Row → LoopEnd
  returned : Outcome → LoopEnd

-- `fail` of a check, which returns after the result is written.
unfoldable pub fail_check : Machine → String → ℤ → Result LoopEnd
fail_check m check code = do
  m.write_result (check_failed check code)
  ok (returned (check_failed check code))

-- The loop over the commands
unfoldable pub run_commands : Machine → List Row → List (String × List String) → Result LoopEnd
unfolding fail_check join_words
run_commands m rows [] = ok (all_run rows)
run_commands m rows (entry ∷ entries) = do
  m.write_log entry.0 ("$ " <> (join_words entry.1 <> "\n"))
  completed ← m.run entry.1
  m.write_log entry.0 completed.stdout
  let rest = run_commands m (rows ++ (entry.0, completed.returncode) ∷ []) entries
  if is_int 0 completed.returncode then rest else fail_check m entry.0 completed.returncode

-- The `with` statement: the log is closed however its body ends.
unfoldable pub with_log : Machine → Result LoopEnd → Result LoopEnd
with_log m body = m.open_log >> (m.close_log >> body)

-- What follows the loop
unfoldable pub finish : Machine → Job → LoopEnd → Result Outcome
finish m j (returned outcome) = ok outcome
finish m j (all_run rows) = do
  m.write_report j.top rows
  m.write_result (succeeded rows)
  ok (succeeded rows)

-- The `try` statement of `main` from the first write on
unfoldable pub run_checks : Machine → Job → Result Outcome
run_checks m j = do
  m.make_outputs
  m.copy_rtl j.rtl
  ended ← with_log m (run_commands m [] (commands j))
  finish m j ended

-- `(KeyError, TypeError, ValueError, FileNotFoundError, OSError)`
abbrev pub is_caught : Error → Bool
is_caught (key_error message) = true
is_caught (type_error message) = true
is_caught (value_error message) = true
is_caught (os_error message) = true
is_caught _ = false

-- `fail` in the `except` clause, which may raise itself.
abbrev pub report_error : Error → Check → Outcome
report_error e (ok u) = configuration_error e
report_error e (err raised) = escaped raised

-- The `try` statement with its `except` clause
unfoldable pub outcome_of : Machine → Result Outcome → Outcome
outcome_of m (ok outcome) = outcome
outcome_of m (err e) =
    if is_caught e then report_error e (m.write_result (configuration_error e)) else escaped e

-- `main`
unfoldable pub main : Machine → Outcome
main m = outcome_of m (read_job m >>= run_checks m)
