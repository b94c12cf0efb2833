-- ===== src/M1/Server/Routes.antt =====
-- The tests on the path in `do_GET` and `do_POST` of
-- apps/m1_rtl_to_gds/src/openroad_app_m1/server.py, in their order. A path is what `urlsplit` gives.
use agentic_rtlto_gds_design.Prelude.{
  String, Bool, not, ◌&&◌, ◌||◌, none, some, if◌then◌else◌, ◌==◌, starts_with,
}
use agentic_rtlto_gds_design.Prelude.Text.{
  remove_prefix, ends_with, remove_suffix, has_slash, rsplit_once,
}

pub data PostRoute : Type 0 where
  login logout create_spec unknown : PostRoute
  freeze generate create_rtl verify simulate gds : String → PostRoute

abbrev pub spec_prefix : String
spec_prefix = "/api/m1/specs/"

abbrev pub rtl_prefix : String
rtl_prefix = "/api/m1/rtl/"

abbrev pub runs_prefix : String
runs_prefix = "/api/m1/runs/"

-- `path.removeprefix(prefix).removesuffix(suffix)`
abbrev pub between : String → String → String → String
between prefix suffix path = remove_suffix (remove_prefix path prefix) suffix

abbrev pub is_between : String → String → String → Bool
is_between prefix suffix path = starts_with path prefix && ends_with path suffix

unfoldable pub post_route : String → PostRoute
post_route path =
    if path == "/api/auth/login"
    then login
    else if path == "/api/auth/logout"
    then logout
    else if path == "/api/m1/specs"
    then create_spec
    else if is_between spec_prefix "/freeze" path
    then freeze (between spec_prefix "/freeze" path)
    else if is_between spec_prefix "/generate" path
    then generate (between spec_prefix "/generate" path)
    else if is_between spec_prefix "/rtl" path
    then create_rtl (between spec_prefix "/rtl" path)
    else if is_between rtl_prefix "/verify" path
    then verify (between rtl_prefix "/verify" path)
    else if is_between rtl_prefix "/simulate" path
    then simulate (between rtl_prefix "/simulate" path)
    else if is_between rtl_prefix "/gds" path
    then gds (between rtl_prefix "/gds" path)
    else unknown

-- What is asked of a run. `unsplit` is a path without `/artifacts/`, which cannot be unpacked.
pub data RunRoute : Type 0 where
  excerpt preview netlist : String → String → RunRoute
  timeline logs artifacts metrics run : String → RunRoute
  unsplit : RunRoute

-- `….removeprefix("/api/m1/runs/").rsplit("/artifacts/", 1)` of a path without its suffix
abbrev pub of_artifact : (String → String → RunRoute) → String → String → RunRoute
of_artifact make suffix path =
    elim (rsplit_once (remove_prefix (remove_suffix path suffix) runs_prefix) "/artifacts/") [
      | none ↦ unsplit
      | some (before, after) ↦ make before after
    ]

unfoldable pub run_route : String → RunRoute
run_route path =
    if ends_with path "/excerpt"
    then of_artifact excerpt "/excerpt" path
    else if ends_with path "/preview"
    then of_artifact preview "/preview" path
    else if ends_with path "/netlist"
    then of_artifact netlist "/netlist" path
    else if ends_with path "/timeline"
    then timeline (between runs_prefix "/timeline" path)
    else if ends_with path "/logs"
    then logs (between runs_prefix "/logs" path)
    else if ends_with path "/artifacts"
    then artifacts (between runs_prefix "/artifacts" path)
    else if ends_with path "/metrics"
    then metrics (between runs_prefix "/metrics" path)
    else run (remove_prefix path runs_prefix)

-- `file` has a name under `web/` and a content type; `silent` returns without a response.
pub data GetRoute : Type 0 where
  health session specs courses pdks silent nothing : GetRoute
  versions spec rtl evidence : String → GetRoute
  of_run : RunRoute → GetRoute
  file : String → String → GetRoute

-- The paths that start with `/api/m1/specs/`
abbrev pub spec_route : String → GetRoute
spec_route suffix =
    if ends_with suffix "/versions"
    then versions (remove_suffix suffix "/versions")
    else if has_slash suffix
    then silent
    else spec suffix

-- The paths after those of the runs
abbrev pub other_route : String → GetRoute
other_route path =
    if starts_with path "/api/m1/evidence/"
    then evidence (remove_prefix path "/api/m1/evidence/")
    else if path == "/" || path == "/index.html"
    then file "index.html" "text/html; charset=utf-8"
    else if path == "/app.css"
    then file "app.css" "text/css; charset=utf-8"
    else if path == "/app.js"
    then file "app.js" "text/javascript; charset=utf-8"
    else nothing

unfoldable pub get_route : String → GetRoute
get_route path =
    if path == "/api/m1/health"
    then health
    else if path == "/api/auth/session"
    then session
    else if path == "/api/m1/specs"
    then specs
    else if path == "/api/m1/catalog/courses"
    then courses
    else if path == "/api/m1/catalog/pdks"
    then pdks
    else if starts_with path spec_prefix
    then spec_route (remove_prefix path spec_prefix)
    else if starts_with path rtl_prefix && not (has_slash (remove_prefix path rtl_prefix))
    then rtl (remove_prefix path rtl_prefix)
    else if starts_with path runs_prefix
    then of_run (run_route path)
    else other_route path
