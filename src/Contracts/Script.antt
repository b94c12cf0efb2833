-- ===== src/Contracts/Script.antt =====
-- `ScriptProposal`, `_relative_allowed_path` and `_patch_paths` of
-- packages/contracts/src/openroad_platform_contracts/teaching_catalog.py.
pub mod Confined
use agentic_rtlto_gds_design.Prelude.{
  String, Bool, not, ◌&&◌, ◌||◌, List, [], ◌∷◌, eqb, if◌then◌else◌, ◌==◌, starts_with,
}
use agentic_rtlto_gds_design.Prelude.Text.{all_chars, is_id_char, is_empty}
use agentic_rtlto_gds_design.Prelude.Lists.{all, null, for_each, elem, distinct}
use agentic_rtlto_gds_design.Prelude.Json.{ℤ}
use agentic_rtlto_gds_design.Prelude.Result.{
  Error, value_error, Result, ok, Check, ◌>>=◌, ◌>>◌, raise_if, require,
}
use agentic_rtlto_gds_design.Contracts.Versioned.{
  validate_version, validate_identifier, validate_text, validate_digest,
}
use agentic_rtlto_gds_design.Prelude.Lines.{split, take_until, drop_chars, splitlines, has_char}

abbrev pub not_relative : Error
not_relative = value_error "allowed_paths must contain a relative allowed path"

-- `^[A-Za-z0-9._-]+$`
unfoldable pub is_path_part : String → Bool
is_path_part s = not (is_empty s) && all_chars (λ c. is_id_char c && not (eqb c b':')) s

-- `_relative_allowed_path`
unfoldable pub relative_allowed_path : String → Check
relative_allowed_path path = do
  raise_if (is_empty path || starts_with path "/" || starts_with path "\\") not_relative
  raise_if (has_char b'\\' path || elem ".." (split b'/' path)) not_relative
  require (all is_path_part (split b'/' path)) not_relative

-- `line.startswith(("--- ", "+++ "))`
abbrev pub is_header : String → Bool
is_header line = starts_with line "--- " || starts_with line "+++ "

-- `line[4:].split("\t", 1)[0].split(" ", 1)[0]`
abbrev pub raw_path : String → String
raw_path line = take_until b' ' (take_until 9 (drop_chars 4 line))

-- The path without `a/` or `b/`
abbrev pub strip_side : String → String
strip_side raw = if starts_with raw "a/" || starts_with raw "b/" then drop_chars 2 raw else raw

-- The loop of `_patch_paths`; a set is a list, in which order and repetitions are not read.
unfoldable pub collect_paths : List String → List String → Result (List String)
collect_paths [] found = ok found
collect_paths (line ∷ lines) found =
    if is_header line
    then (if raw_path line == "/dev/null" then collect_paths lines found else (do
      relative_allowed_path (strip_side (raw_path line))
      collect_paths lines (strip_side (raw_path line) ∷ found)))
    else collect_paths lines found

-- `_patch_paths`
unfoldable pub patch_paths : String → Result (List String)
unfolding collect_paths
patch_paths patch = do
  found ← collect_paths (splitlines patch) []
  raise_if (null found) (value_error "patch must contain unified diff file paths")
  ok found

pub record ScriptProposal : Type 0 where
  pub proposal_id : String
  pub owner_id : String
  pub entrypoint_id : String
  pub base_recipe_digest : String
  pub patch : String
  pub allowed_paths : List String
  pub requires_confirmation : Bool
  pub schema_version : ℤ

-- `_patch_paths(patch).issubset(set(allowed_paths))`
unfoldable pub validate_patch : String → List String → Check
validate_patch patch allowed = do
  touched ← patch_paths patch
  require (all (λ p. elem p allowed) touched)
      (value_error "patch modifies a path outside allowed_paths")

unfoldable pub validate_proposal : ScriptProposal → Check
validate_proposal p = do
  validate_version p.schema_version
  validate_identifier "proposal_id" p.proposal_id
  validate_identifier "owner_id" p.owner_id
  validate_identifier "entrypoint_id" p.entrypoint_id
  validate_digest "base_recipe_digest" p.base_recipe_digest
  validate_text "patch" p.patch 200000
  raise_if (null p.allowed_paths) (value_error "allowed_paths must be a non-empty tuple")
  for_each p.allowed_paths relative_allowed_path
  require (distinct p.allowed_paths) (value_error "allowed_paths must be unique")
  validate_patch p.patch p.allowed_paths
  require p.requires_confirmation (value_error "script proposal requires explicit confirmation")
