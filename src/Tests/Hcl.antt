-- ===== src/Tests/Hcl.antt =====
-- The guard of tflint in capabilities/rw-checks/guards.py at a concrete configuration.
use rw_checks_codecollection.Prelude.{
  ℕ, ◌≡◌, refl, Bool, true, ◌&&◌, List, [], ◌∷◌, ◌++◌, some, codes, leb, text_eq, text_leb, mem,
  here,
}
use rw_checks_codecollection.Guards.Document.{dict, end}
use rw_checks_codecollection.Guards.Files.{
  FilePath, loaded, Files, safe, for_each, insert_path, path_leb,
}
use rw_checks_codecollection.Guards.Comments.{strip_from, last_mode, strip_hcl}
use rw_checks_codecollection.Guards.Sql.{lstrip, strip_prefix}
use rw_checks_codecollection.Guards.Safe.{Given, Reads}
use rw_checks_codecollection.Guards.Hcl.{
  until_quote, match_plugin, plugins_from, block_from, has_heredoc, sets_key, tflint,
}
use rw_checks_codecollection.Guards.Hcl.Safe.{IsSafeText, tflint-safe}

abbrev is_letter : ℕ → Bool
is_letter c = leb 97 c && leb c 122

-- Each file enables the rules of terraform; a comment says "source =".
abbrev hcl_files : Files
hcl_files = record {
  is_file = λ path. true;
  read_text = λ path. loaded (codes "plugin \"terraform\" { # source = x\n preset = \"{\"\n}\n");
  read_bytes = λ path. loaded [];
  rglob = λ path. loaded [];
  resolve = λ path. some path;
  resolve_from = λ dir value. some (dir ++ value ∷ []);
  parse_ini = λ text. loaded [];
  parse_toml = λ text. loaded (dict end);
  parse_yaml = λ text. loaded (dict end);
  parse_json = λ text. loaded (dict end);
  lower = λ text. text;
}

abbrev hcl_paths : List FilePath
hcl_paths = (codes "repo" ∷ codes ".tflint.hcl" ∷ []) ∷ []

tflint-passes : tflint is_letter hcl_files (codes "repo" ∷ []) hcl_paths ≡ safe
unfolding tflint for_each insert_path path_leb text_leb text_eq mem has_heredoc strip_hcl strip_from
    last_mode plugins_from match_plugin until_quote lstrip strip_prefix block_from sets_key
tflint-passes = refl

abbrev hcl_path : FilePath
hcl_path = codes "repo" ∷ codes ".tflint.hcl" ∷ []

hcl_path-Given : Given hcl_files hcl_paths (codes ".tflint.hcl" ∷ []) hcl_path
unfolding mem text_eq
hcl_path-Given = record { among = here; named = refl; exists = refl }

tflint-safe_example : Reads (hcl_files.read_text hcl_path) (IsSafeText is_letter)
tflint-safe_example =
    tflint-safe is_letter hcl_files (codes "repo" ∷ []) hcl_paths tflint-passes hcl_path
      hcl_path-Given
