-- ===== src/Tests/Guards.antt =====
-- Guards of capabilities/rw-checks/guards.py at concrete inputs.
use rw_checks_codecollection.Prelude.{
  ◌≡◌, refl, true, false, List, [], ◌∷◌, ◌++◌, some, if◌then◌else◌, Text, codes, text_eq, text_leb,
  mem, map, All, arith,
}
use rw_checks_codecollection.Guards.Document.{
  Doc, scalar, str, list, dict, nil, cons, end, entry, matched, walk, toml_table,
}
use rw_checks_codecollection.Guards.Verdict.{Tells, walk-Tells}
use rw_checks_codecollection.Guards.Files.{
  FilePath, loaded, Files, safe, for_each, insert_path, path_leb,
}
use rw_checks_codecollection.Guards.Tools.{pylint_keys, load_toml}
use rw_checks_codecollection.Guards.Safe.{Given, Reads}
use rw_checks_codecollection.Guards.Chain.{ruff, ruff_keys}
use rw_checks_codecollection.Guards.Chain.Tools.{ruff-IsClosedFrom, IsClosedFrom}
use rw_checks_codecollection.Guards.Comments.{strip_jsonc}
use rw_checks_codecollection.Guards.Comments.Pieces.{
  plain, escape, Piece, char, string, line_comment, block_comment, IsPiece, texts_of, left_of_all,
  strip_jsonc-pieces,
}
use rw_checks_codecollection.Guards.Sql.{
  lower_byte, utf_8, sql_inline_directive, encode, sql_marker_present, Decoders,
}

abbrev lower : Text → Text
lower = map lower_byte

-- A key below a list and a table, in capitals.
abbrev hooked : Doc
hooked = dict (
    entry (codes "jobs") (scalar true) (
      entry (codes "master")
        (list (cons (dict (entry (codes "Init-Hook") (str (codes "import os")) end)) nil)) end))

hooked-found : walk lower pylint_keys hooked ≡ matched (codes "init-hook")
unfolding walk mem text_eq
hooked-found = refl

walk-Tells_example : Tells lower pylint_keys hooked (walk lower pylint_keys hooked)
walk-Tells_example = walk-Tells lower pylint_keys hooked

-- A tree where each file holds its own name.
abbrev small_files : Files
small_files = record {
  is_file = λ path. true;
  read_text = λ path. loaded (name path);
  read_bytes = λ path. loaded (codes "-- sqlfluff:dialect:ansi\n");
  rglob = λ path. loaded [];
  resolve = λ path. some path;
  resolve_from = λ dir value. some (dir ++ value ∷ []);
  parse_ini = λ text. loaded ((codes "pylint", (codes "jobs", codes "4") ∷ []) ∷ []);
  parse_toml = λ text. loaded (
      if text_eq text (codes "ruff.toml")
      then dict (entry (codes "extend") (str (codes "base.toml")) end)
      else dict end);
  parse_yaml = λ text. loaded (dict end);
  parse_json = λ text. loaded (dict end);
  lower = lower;
}
  where
    name : FilePath → Text
    name [] = []
    name (p ∷ []) = p
    name (p ∷ q ∷ ps) = q

abbrev repo : FilePath
repo = codes "repo" ∷ []

abbrev pylint_paths : List FilePath
pylint_paths =
    (codes "repo" ∷ codes "setup.cfg" ∷ []) ∷ (codes "repo" ∷ codes ".pylintrc" ∷ []) ∷ []

abbrev ruff_paths : List FilePath
ruff_paths = (codes "repo" ∷ codes "ruff.toml" ∷ []) ∷ []

ruff-passes : ruff small_files repo ruff_paths ≡ safe
unfolding ruff for_each insert_path path_leb text_leb text_eq mem
ruff-passes = refl

ruff-IsClosedFrom_example :
    ((path : FilePath)
      → Given small_files ruff_paths (codes "ruff.toml" ∷ codes ".ruff.toml" ∷ []) path
      → Reads
          (load_toml small_files repo path)
          (IsClosedFrom small_files (load_toml small_files repo) ruff_keys repo path))
    × ((path : FilePath)
        → Given small_files ruff_paths (codes "pyproject.toml" ∷ []) path
        → Reads (load_toml small_files repo path) (λ doc.
          (section : Doc)
          → toml_table doc (codes "tool" ∷ codes "ruff" ∷ []) ≡ some section
          → IsClosedFrom small_files (load_toml small_files repo) ruff_keys repo path section))
ruff-IsClosedFrom_example = ruff-IsClosedFrom small_files repo ruff_paths ruff-passes

-- A link out of the tree to a configuration that extends an absolute path.
abbrev outside : FilePath
outside = codes "elsewhere" ∷ codes "ruff.toml" ∷ []

-- {"a//": 1} // x, and a block
abbrev some_pieces : List Piece
some_pieces =
    char 123
    ∷ string (plain 97 ∷ plain 47 ∷ plain 47 ∷ escape 34 ∷ [])
    ∷ char 125
    ∷ line_comment (codes " x")
    ∷ block_comment (codes " * /")
    ∷ []

some_pieces-IsPiece : All (IsPiece false) some_pieces
some_pieces-IsPiece = (
  ground arith,
  ((ground arith, (ground arith, (ground arith, (tt, tt)))), (ground arith, (refl, (refl, tt)))),
)

some_pieces-stripped : strip_jsonc (texts_of some_pieces) ≡ codes "{\"a//\\\"\"}\n"
unfolding strip_jsonc
some_pieces-stripped = refl

strip_jsonc-pieces_example : strip_jsonc (texts_of some_pieces) ≡ left_of_all some_pieces
strip_jsonc-pieces_example = strip_jsonc-pieces some_pieces some_pieces-IsPiece

abbrev directive : Text
directive = codes "select 1\r  --sqlfluff:dialect:ansi\n"

-- A no-break space before a directive: the search in text finds it, the search in bytes does not.
no_break-found : (sql_inline_directive lower (0xa0 ∷ codes "-- sqlfluff:dialect:ansi")).0 ≡ true
unfolding sql_inline_directive mem text_eq
no_break-found = refl

no_break-unseen :
    sql_marker_present (encode utf_8 (0xa0 ∷ codes "-- sqlfluff:dialect:ansi")) ≡ false
unfolding sql_marker_present
no_break-unseen = refl

abbrev ascii_decoders : Decoders
ascii_decoders = record {
  decode_replace = λ bytes. bytes;
  decode_backslash = λ encoding bytes. bytes;
  guessed = λ bytes. some bytes;
}

abbrev sql_paths : List FilePath
sql_paths = (codes "repo" ∷ codes "a.sql" ∷ []) ∷ []
