-- ===== src/Integrations/RtlVerify/Tests.antt =====
-- A staged counter that passes both checks.
use agentic_rtlto_gds_design.Prelude.{◌≡◌, ◌↔◌, true, ◌==◌}
use agentic_rtlto_gds_design.Prelude.Json.{pos, str, arr, nil, cons, obj, field, end}
use agentic_rtlto_gds_design.Prelude.Result.{ok}
use agentic_rtlto_gds_design.Integrations.RtlVerify.{Machine, succeeded, exit_code, main}
use agentic_rtlto_gds_design.Integrations.RtlVerify.Exit.{clean_rows, Passes, main_iff}

abbrev machine : Machine
machine = record {
  request = ok (
      obj (
        field "task"
          (obj (
            field "inputs"
              (obj (
                field "top" (str "counter") (
                  field "compile_checks"
                    (arr (cons (str "verilator-lint") (cons (str "yosys-check") nil)))
                    (field "rtl_path" (str "rtl/counter.sv") end))))
              end))
          end));
  resolve = λ parts. ok "/work/rtl/counter.sv";
  has_content = λ path. true;
  environment = λ name. "~/bin/tool";
  resolve_tool = λ value. ok "/home/alice/bin/tool";
  is_executable = λ path. path == "/home/alice/bin/tool";
  make_outputs = ok tt;
  copy_rtl = λ path. ok tt;
  open_log = ok tt;
  write_log = λ check text. ok tt;
  run = λ command. ok (record { returncode = pos 0; stdout = "" });
  close_log = ok tt;
  write_report = λ top rows. ok tt;
  write_result = λ outcome. ok tt;
}

main_iff_example :
    ((exit_code (main machine) ≡ pos 0) ↔ Passes machine)
    × (Passes machine → main machine ≡ succeeded clean_rows)
main_iff_example = main_iff machine
