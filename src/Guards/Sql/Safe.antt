-- ===== src/Guards/Sql/Safe.antt =====
-- What the guard of sqlfluff in capabilities/rw-checks/guards.py that lets it run has made sure of.
use rw_checks_codecollection.Prelude.{
  ℕ, ◌≡◌, ◌⊎◌, Bool, true, false, List, [], ◌∷◌, ◌++◌, none, some, Text, codes, In, any, text_eq,
}
use rw_checks_codecollection.Guards.Document.{Doc, toml_table}
use rw_checks_codecollection.Guards.Files.{FilePath, Files, name_of}
use rw_checks_codecollection.Guards.Tools.{load_ini, load_toml}
use rw_checks_codecollection.Guards.Safe.{Reads, Given, NoItem, NoKey}
use rw_checks_codecollection.Guards.Sql.{
  Decoders, Encoding, encode, bom_of, sql_inline_directive, sql_marker_present, sql_texts,
  sqlfluff_keys, is_sqlfluff_section, suffix_of,
}
use rw_checks_codecollection.Guards.Sql.Mirror.Agree.{is_odd_blank}

-- A text whose encoding, with a byte order mark or without, the data is.
abbrev pub Encodes : Encoding → Text → List ℕ → Type 0
Encodes e text bytes = (bytes ≡ encode e text) ⊎ (bytes ≡ bom_of e ++ encode e text)

-- No decoding of a linted file sets a key of those; and if the file is a text with a directive, in any of the
-- five encodings, then one of the decodings shows a directive.
pub record SqlIsSafe (lower : Text → Text) (texts : List Text) (bytes : List ℕ) : Type 0 where
  pub no_key : (text : Text) → In text texts → (sql_inline_directive lower text).1 ≡ none
  pub shown :
      (e : Encoding) (text : Text)
      → Encodes e text bytes
      → any is_odd_blank text ≡ false
      → (sql_inline_directive lower text).0 ≡ true
      → (read : Text) × In read texts × ((sql_inline_directive lower read).0 ≡ true)

module _ (files : Files) (decoders : Decoders) (tree : FilePath) (paths : List FilePath) where
  -- The loop let the file pass: either a text showed a directive, or the bytes have no marker.
  record Passed (seen : Bool) (texts : List Text) (bytes : List ℕ) : Type 0 where
    no_key : (text : Text) → In text texts → (sql_inline_directive files.lower text).1 ≡ none
    backed :
        (seen ≡ true)
        ⊎ (((read : Text) × In read texts × ((sql_inline_directive files.lower read).0 ≡ true))
            ⊎ (sql_marker_present bytes ≡ false))

  -- What the files that configure sqlfluff, and those that it lints, hold where it is run.
  pub record SqlfluffIsSafe : Type 0 where
    pub config :
        (path : FilePath)
        → Given files paths
            (codes ".sqlfluff" ∷ codes "setup.cfg" ∷ codes "tox.ini" ∷ codes "pep8.ini" ∷ [])
            path
        → Reads
            (load_ini files tree path)
            (NoItem (is_sqlfluff_section files decoders tree) sqlfluff_keys)
    pub project :
        (path : FilePath)
        → Given files paths (codes "pyproject.toml" ∷ []) path
        → Reads (load_toml files tree path) (λ doc.
          (section : Doc)
          → toml_table doc (codes "tool" ∷ codes "sqlfluff" ∷ []) ≡ some section
          → NoKey files sqlfluff_keys section)
    pub linted :
        (path : FilePath)
        → In path paths
        → text_eq (suffix_of (name_of path)) (codes ".sql") ≡ true
        → files.is_file path ≡ true
        → Reads
            (files.read_bytes path)
            (λ bytes. SqlIsSafe files.lower (sql_texts decoders bytes) bytes)
