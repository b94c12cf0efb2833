-- ===== src/Integrations/RtlVerify/Request.antt =====
-- The requests that integrations/rtl_verify/adapter.py takes up.
use mathlib.Core.Path.{subst}
use agentic_rtlto_gds_design.Prelude.{
  [], ◌∷◌, String, ◌≡◌, refl, inl, inr, true, false, some, Option-cases, List, arith, ◌||◌, ◌∙◌, ap,
  starts_with, eq_iff,
}
use agentic_rtlto_gds_design.Prelude.Text.{is_empty, is_identifier}
use agentic_rtlto_gds_design.Prelude.Lists.{all}
use agentic_rtlto_gds_design.Prelude.Document.{get_field, field_or_null}
use agentic_rtlto_gds_design.Prelude.Json.{Json, str, obj, Fields}
use agentic_rtlto_gds_design.Prelude.Result.{
  ok, Result-cases, >>-eq-ok, >>=-eq-ok, require, require-eq-ok, ok_inj,
}
use agentic_rtlto_gds_design.Integrations.RtlVerify.{
  Machine, Job, index_of, path_parts, is_part, relative_parts, relative_input, executable,
  are_checks, top_of, checks_of, fields_of, read_job,
}

-- The value is an object that holds `v` under the key.
abbrev pub Holds : String → Json → Json → Type 0
Holds key j v = (fields : Fields) × (j ≡ obj fields) × (get_field key fields ≡ some v)

-- The variable of the environment names a program, at the path after `~` and symbolic links.
pub record IsTool (m : Machine) (name path : String) : Type 0 where
  pub configured : is_empty (m.environment name) ≡ false
  pub resolved : m.resolve_tool (m.environment name) ≡ ok path
  pub executable : m.is_executable path ≡ true

-- The text is a relative path of plain components, which leads to a file with content.
pub record IsStaged (m : Machine) (value path : String) : Type 0 where
  pub given : is_empty value ≡ false
  pub relative : (starts_with value "/" || starts_with value "\\") ≡ false
  pub plain : all is_part (path_parts value) ≡ true
  pub inside : m.resolve (path_parts value) ≡ ok path
  pub content : m.has_content path ≡ true

-- The request names the top, the two checks and the staged file of the job, and the environment its
-- tools.
pub record IsRequested (m : Machine) (job : Job) : Type 0 where
  pub payload : Json
  pub task : Json
  pub inputs : Json
  pub rtl_path : String
  pub read : m.request ≡ ok payload
  pub task_given : Holds "task" payload task
  pub inputs_given : Holds "inputs" task inputs
  pub top_given : Holds "top" inputs (str job.top)
  pub top_bounded : is_identifier job.top ≡ true
  pub checks :
      checks_of (field_or_null "compile_checks" (fields_of inputs))
      ≡ ok (str "verilator-lint" ∷ str "yosys-check" ∷ [])
  pub rtl_given : Holds "rtl_path" inputs (str rtl_path)
  pub rtl_staged : IsStaged m rtl_path job.rtl
  pub verilator_found : IsTool m "RTL_VERIFY_VERILATOR" job.verilator
  pub yosys_found : IsTool m "YOSYS_BIN" job.yosys

index_of-Holds : (key : String) (j v : Json) → index_of key j ≡ ok v → Holds key j v
unfolding index_of
index_of-Holds key (obj fields) v h = elim (Option-cases (get_field key fields)) [
  | inl e ↦ absurd (ground arith)
  | inr (w, e) ↦ (fields, refl, ground arith)
]
index_of-Holds key Json.null v h = cc
index_of-Holds key (Json.bool b) v h = cc
index_of-Holds key (Json.int n) v h = cc
index_of-Holds key (Json.float x) v h = cc
index_of-Holds key (str s) v h = cc
index_of-Holds key (Json.arr items) v h = cc

Holds-index_of : (key : String) (j v : Json) → Holds key j v → index_of key j ≡ ok v
unfolding index_of
Holds-index_of key j v (fields, e, found) = rw e (ground arith)

executable-IsTool :
    (m : Machine) (name path : String) → executable m name ≡ ok path → IsTool m name path
unfolding executable
executable-IsTool m name path h = elim (Result-cases (m.resolve_tool (m.environment name))) [
  | inr (e, r) ↦ absurd (ground arith)
  | inl (p, r) ↦ record {
    configured = ground arith;
    resolved = ground arith;
    executable = ground arith;
  }
]

IsTool-executable :
    (m : Machine) (name path : String) → IsTool m name path → executable m name ≡ ok path
unfolding executable
IsTool-executable m name path t = rw (t.configured, t.resolved, t.executable) refl

relative_input-IsStaged :
    (m : Machine) (j : Json) (path : String)
    → relative_input m j ≡ ok path
    → (value : String) × (j ≡ str value) × IsStaged m value path
unfolding relative_input relative_parts
relative_input-IsStaged m (str value) path h = elim (Result-cases (m.resolve (path_parts value))) [
  | inr (e, r) ↦ absurd (ground arith)
  | inl (p, r) ↦ (
    value,
    refl,
    record {
      given = ground arith;
      relative = ground arith;
      plain = ground arith;
      inside = ground arith;
      content = ground arith;
    },
  )
]
relative_input-IsStaged m Json.null path h = cc
relative_input-IsStaged m (Json.bool b) path h = cc
relative_input-IsStaged m (Json.int n) path h = cc
relative_input-IsStaged m (Json.float x) path h = cc
relative_input-IsStaged m (obj fields) path h = cc
relative_input-IsStaged m (Json.arr items) path h = cc

IsStaged-relative_input :
    (m : Machine) (value path : String)
    → IsStaged m value path
    → relative_input m (str value) ≡ ok path
unfolding relative_input relative_parts
IsStaged-relative_input m value path t = rw (t.given, t.relative, t.plain, t.inside, t.content) refl

top_of-bounded :
    (j : Json) (top : String) → top_of j ≡ ok top → (j ≡ str top) × (is_identifier top ≡ true)
unfolding top_of
top_of-bounded (str s) top h = (ground arith, ground arith)
top_of-bounded Json.null top h = cc
top_of-bounded (Json.bool b) top h = cc
top_of-bounded (Json.int n) top h = cc
top_of-bounded (Json.float x) top h = cc
top_of-bounded (obj fields) top h = cc
top_of-bounded (Json.arr items) top h = cc

are_checks-eq :
    (checks : List Json)
    → are_checks checks ≡ true
    → checks ≡ str "verilator-lint" ∷ str "yosys-check" ∷ []
unfolding are_checks
are_checks-eq (str a ∷ str b ∷ []) h =
    ground (arith, eq_iff a "verilator-lint", eq_iff b "yosys-check")
are_checks-eq checks h = cc

pub read_job-IsRequested : (m : Machine) (job : Job) → read_job m ≡ ok job → IsRequested m job
unfolding read_job
read_job-IsRequested m job h =
    let (payload, read, h₁) = >>=-eq-ok m.request _ h in
    let (task, in_payload, h₂) = >>=-eq-ok (index_of "task" payload) _ h₁ in
    let (inputs, in_task, h₃) = >>=-eq-ok (index_of "inputs" task) _ h₂ in
    let (given, named, h₄) = >>=-eq-ok (index_of "top" inputs) _ h₃ in
    let (top, bounded, h₅) = >>=-eq-ok (top_of given) _ h₄ in
    let (checks, listed, h₆) = >>=-eq-ok (checks_of _) _ h₅ in
    let (fixed, h₇) = >>-eq-ok (require (are_checks checks) _) _ h₆ in
    let (path, staged, h₈) = >>=-eq-ok (index_of "rtl_path" inputs) _ h₇ in
    let (rtl, found, h₉) = >>=-eq-ok (relative_input m path) _ h₈ in
    let (verilator, lint, h₁₀) = >>=-eq-ok (executable m "RTL_VERIFY_VERILATOR") _ h₉ in
    let (yosys, check, h₁₁) = >>=-eq-ok (executable m "YOSYS_BIN") _ h₁₀ in
    let (top_text, top_good) = top_of-bounded given top bounded in
    let (value, path_text, file) = relative_input-IsStaged m path rtl found in
    subst (IsRequested m) (ok_inj _ _ h₁₁) record {
      payload = payload;
      task = task;
      inputs = inputs;
      rtl_path = value;
      read = read;
      task_given = index_of-Holds "task" payload task in_payload;
      inputs_given = index_of-Holds "inputs" task inputs in_task;
      top_given = index_of-Holds "top" inputs (str top) (named ∙ ap ok top_text);
      top_bounded = top_good;
      checks = listed ∙ ap ok (are_checks-eq checks (require-eq-ok _ _ fixed));
      rtl_given = index_of-Holds "rtl_path" inputs (str value) (staged ∙ ap ok path_text);
      rtl_staged = file;
      verilator_found = executable-IsTool m "RTL_VERIFY_VERILATOR" verilator lint;
      yosys_found = executable-IsTool m "YOSYS_BIN" yosys check;
    }

pub IsRequested-read_job : (m : Machine) (job : Job) → IsRequested m job → read_job m ≡ ok job
unfolding read_job are_checks top_of
IsRequested-read_job m job r = simp (
  r.read,
  Holds-index_of "task" r.payload r.task r.task_given,
  Holds-index_of "inputs" r.task r.inputs r.inputs_given,
  Holds-index_of "top" r.inputs (str job.top) r.top_given,
  r.top_bounded,
  r.checks,
  Holds-index_of "rtl_path" r.inputs (str r.rtl_path) r.rtl_given,
  IsStaged-relative_input m r.rtl_path job.rtl r.rtl_staged,
  IsTool-executable m "RTL_VERIFY_VERILATOR" job.verilator r.verilator_found,
  IsTool-executable m "YOSYS_BIN" job.yosys r.yosys_found,
)
