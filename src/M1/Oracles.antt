-- ===== src/M1/Oracles.antt =====
-- The teaching oracles of apps/m1_rtl_to_gds/src/openroad_app_m1/oracles.py.
use agentic_rtlto_gds_design.Prelude.{String, Option, none, some, if◌then◌else◌, ◌==◌}
use agentic_rtlto_gds_design.Prelude.Text.{◌<>◌}

unfoldable pub counter_oracle : String
counter_oracle =
    "module counter_tb;\n" <> "  logic clk = 0;\n" <> "  logic rst_n = 0;\n"
    <> "  logic enable = 0;\n" <> "  logic [7:0] q;\n" <> "  integer i;\n" <> "\n"
    <> "  counter dut(.clk(clk), .rst_n(rst_n), .enable(enable), .q(q));\n"
    <> "  always #1 clk = ~clk;\n" <> "\n" <> "  task automatic tick;\n"
    <> "    begin @(negedge clk); end\n" <> "  endtask\n" <> "\n" <> "  initial begin\n"
    <> "    tick;\n" <> "    if (q !== 8'h00) $fatal(1, \"reset mismatch\");\n"
    <> "    rst_n = 1;\n" <> "    tick;\n"
    <> "    if (q !== 8'h00) $fatal(1, \"disabled counter changed\");\n" <> "    enable = 1;\n"
    <> "    tick;\n" <> "    if (q !== 8'h01) $fatal(1, \"first increment mismatch\");\n"
    <> "    tick;\n" <> "    if (q !== 8'h02) $fatal(1, \"second increment mismatch\");\n"
    <> "    enable = 0;\n" <> "    tick;\n"
    <> "    if (q !== 8'h02) $fatal(1, \"hold mismatch\");\n" <> "    enable = 1;\n"
    <> "    for (i = 0; i < 253; i = i + 1) tick;\n"
    <> "    if (q !== 8'hff) $fatal(1, \"overflow precondition mismatch\");\n" <> "    tick;\n"
    <> "    if (q !== 8'h00) $fatal(1, \"overflow mismatch\");\n" <> "    rst_n = 0;\n"
    <> "    enable = 0;\n" <> "    tick;\n"
    <> "    if (q !== 8'h00) $fatal(1, \"reset priority mismatch\");\n"
    <> "    $display(\"TB_SUMMARY total=12 errors=0\");\n" <> "    $display(\"PASS\");\n"
    <> "    $finish;\n" <> "  end\n" <> "endmodule\n"

unfoldable pub sequence_detector_oracle : String
sequence_detector_oracle =
    "module sequence_detector_tb;\n" <> "  logic clk = 0;\n" <> "  logic rst_n = 0;\n"
    <> "  logic din = 0;\n" <> "  logic hit;\n" <> "\n"
    <> "  sequence_detector dut(.clk(clk), .rst_n(rst_n), .din(din), .hit(hit));\n"
    <> "  always #1 clk = ~clk;\n" <> "\n"
    <> "  task automatic tick(input logic value, input logic expected);\n" <> "    begin\n"
    <> "      din = value;\n" <> "      @(negedge clk);\n"
    <> "      if (hit !== expected) $fatal(1, \"sequence mismatch\");\n" <> "    end\n"
    <> "  endtask\n" <> "\n" <> "  initial begin\n" <> "    @(negedge clk);\n"
    <> "    if (hit !== 1'b0) $fatal(1, \"reset mismatch\");\n" <> "    rst_n = 1;\n"
    <> "    tick(1'b0, 1'b0);\n" <> "    tick(1'b1, 1'b0);\n" <> "    tick(1'b0, 1'b0);\n"
    <> "    tick(1'b1, 1'b1);\n" <> "    tick(1'b1, 1'b0);\n" <> "    tick(1'b0, 1'b0);\n"
    <> "    tick(1'b1, 1'b1);\n" <> "    tick(1'b0, 1'b0);\n" <> "    tick(1'b0, 1'b0);\n"
    <> "    tick(1'b1, 1'b0);\n" <> "    $display(\"TB_SUMMARY total=10 errors=0\");\n"
    <> "    $display(\"PASS\");\n" <> "    $finish;\n" <> "  end\n" <> "endmodule\n"

-- The id of a verification package, the test bench, and its top module.
pub record Oracle : Type 0 where
  pub verification_id : String
  pub source : String
  pub simulation_top : String

unfoldable pub oracle_for_top : String → Option Oracle
oracle_for_top top =
    if top == "counter"
    then some record {
      verification_id = "counter-v2";
      source = counter_oracle;
      simulation_top = "counter_tb";
    }
    else if top == "sequence_detector"
    then some record {
      verification_id = "sequence-detector-v2";
      source = sequence_detector_oracle;
      simulation_top = "sequence_detector_tb";
    }
    else none
