-- ===== src/Guards/Tools.antt =====
-- The guards of pylint, flake8, checkov, vale, buf, ast-grep and regal in capabilities/rw-checks/guards.py.
use rw_checks_codecollection.Prelude.{
  Bool, true, false, ◌&&◌, List, [], ◌∷◌, ◌++◌, Option, none, some, if◌then◌else◌, Text, codes,
  text_eq, mem,
}
use rw_checks_codecollection.Faults.{Result}
use rw_checks_codecollection.Findings.{keep_if}
use rw_checks_codecollection.Guards.Document.{
  Doc, dict, end, is_truthy, Verdict, nothing, bailed, matched, walk, toml_table,
}
use rw_checks_codecollection.Guards.Files.{
  FilePath, Load, ◌>>=◌, Ini, Files, name_of, selected, sorted_paths, reason, too_deep_reason,
  refuse, safe, and_then, for_each, on_load,
}

-- bool(value) of a text
abbrev pub is_set : Text → Bool
is_set [] = false
is_set (c ∷ s) = true

-- _ini_items, for the sections that a test takes
abbrev pub ini_items : (Text → Bool) → Ini → List (Text × Text)
ini_items wanted [] = []
ini_items wanted ((section, options) ∷ ini) =
    if wanted section then options ++ ini_items wanted ini else ini_items wanted ini

abbrev pub every_section : Text → Bool
every_section section = true

module _ (files : Files) (tree : FilePath) where
  -- `for key, value in _ini_items(...): if key in KEYS and value: return _reason(...)`, with the words for
  -- a key and its reason
  abbrev pub item_check :
      List Text → (Text → Text) → (Text → Text) → FilePath → Text × Text → Result (Option Text)
  item_check keys words why path (key, value) =
      if mem key keys && is_set value then refuse (reason tree path (words key) (why key)) else safe

  unfoldable pub ini_check :
      (Text → Bool)
      → List Text
      → (Text → Text)
      → (Text → Text)
      → FilePath
      → Ini
      → Result (Option Text)
  ini_check wanted keys words why path ini =
      for_each (item_check keys words why path) (ini_items wanted ini)

  -- _parse_ini on the text of a file
  abbrev pub load_ini : FilePath → Load Ini
  load_ini path =
      files.read_text path >>= λ text. files.parse_ini (codes "[__preamble__]\n" ++ text)

  abbrev pub load_toml : FilePath → Load Doc
  load_toml path = files.read_text path >>= files.parse_toml

  abbrev pub load_yaml : FilePath → Load Doc
  load_yaml path = files.read_text path >>= files.parse_yaml

  -- What a guard makes of the answer of _walk.
  abbrev pub on_verdict : (Text → Text) → FilePath → Verdict → Result (Option Text)
  on_verdict why path nothing = safe
  on_verdict why path bailed = refuse (too_deep_reason tree path)
  on_verdict why path (matched k) = refuse (reason tree path k (why k))

  unfoldable pub doc_check : List Text → (Text → Text) → FilePath → Doc → Result (Option Text)
  doc_check keys why path doc = on_verdict why path (walk files.lower keys doc)

  -- `_walk(section, KEYS) if section is not None else None`
  abbrev pub section_check :
      List Text → (Text → Text) → FilePath → Option Doc → Result (Option Text)
  section_check keys why path none = safe
  section_check keys why path (some section) = doc_check keys why path section

  -- `doc or {}`
  abbrev pub or_empty : Doc → Doc
  or_empty doc = if is_truthy doc then doc else dict end

  abbrev pub ini_files :
      List Text
      → (Text → Bool)
      → List Text
      → (Text → Text)
      → (Text → Text)
      → List FilePath
      → Result (Option Text)
  ini_files names wanted keys words why paths =
      for_each (λ path. on_load tree path (ini_check wanted keys words why path) (load_ini path))
        (selected files paths names)

  abbrev pub toml_files :
      List Text → List Text → (Text → Text) → List FilePath → Result (Option Text)
  toml_files names keys why paths =
      for_each (λ path. on_load tree path (doc_check keys why path) (load_toml path))
        (selected files paths names)

  -- The table of a tool in pyproject.toml.
  abbrev pub table_files :
      List Text → List Text → (Text → Text) → List FilePath → Result (Option Text)
  table_files table keys why paths =
      for_each
        (λ path.
          on_load tree path (λ doc. section_check keys why path (toml_table doc table))
            (load_toml path))
        (selected files paths (codes "pyproject.toml" ∷ []))

  -- The common form of checkov, buf and ast_grep.
  abbrev pub yaml_files :
      List Text → List Text → (Text → Text) → List FilePath → Result (Option Text)
  yaml_files names keys why paths =
      for_each
        (λ path. on_load tree path (λ doc. doc_check keys why path (or_empty doc)) (load_yaml path))
        (selected files paths names)

abbrev pub pylint_keys : List Text
pylint_keys = codes "init-hook" ∷ codes "load-plugins" ∷ codes "load_plugins" ∷ []

abbrev pub pylint_why : Text → Text
pylint_why key = codes "which executes arbitrary Python"

abbrev pub same_words : Text → Text
same_words key = key

abbrev pub flake8_local_plugins_keys : List Text
flake8_local_plugins_keys = codes "paths" ∷ codes "extension" ∷ codes "report" ∷ []

abbrev pub flake8_words : Text → Text
flake8_words key = key ++ codes " in [flake8:local-plugins]"

abbrev pub flake8_why : Text → Text
flake8_why key = codes "which imports and runs Python from the repository"

abbrev pub checkov_keys : List Text
checkov_keys =
    codes "external-checks-dir"
    ∷ codes "external-checks-git"
    ∷ codes "external_checks_dir"
    ∷ codes "external_checks_git"
    ∷ []

abbrev pub checkov_why : Text → Text
checkov_why key = codes "which checkov imports and runs as a Python check plugin"

abbrev pub vale_words : Text → Text
vale_words key = codes "Packages"

abbrev pub vale_why : Text → Text
vale_why key = codes "which vale fetches and installs from a URL"

abbrev pub buf_keys : List Text
buf_keys = codes "plugins" ∷ codes "deps" ∷ []

-- _BUF_WHY[found]
abbrev pub buf_why : Text → Text
buf_why key =
    if text_eq key (codes "plugins")
    then codes "which buf executes as a binary"
    else codes "which buf fetches from the network"

abbrev pub ast_grep_keys : List Text
ast_grep_keys = codes "customlanguages" ∷ []

abbrev pub ast_grep_why : Text → Text
ast_grep_why key = codes "which ast-grep loads as a native library from the repository"

abbrev pub regal_why : Text
regal_why = codes "which regal executes, and which can make network requests"

-- path.parent
abbrev pub parent : FilePath → FilePath
parent [] = []
parent (p ∷ []) = []
parent (p ∷ q ∷ ps) = p ∷ parent (q ∷ ps)

-- config.yaml in a directory .regal
abbrev pub is_regal_config : Files → FilePath → Bool
is_regal_config files p =
    text_eq (name_of p) (codes "config.yaml")
    && text_eq (name_of (parent p)) (codes ".regal")
    && files.is_file p

module _ (files : Files) (tree : FilePath) where
  unfoldable pub pylint : List FilePath → Result (Option Text)
  pylint paths =
      and_then
        (ini_files files tree (codes ".pylintrc" ∷ codes "pylintrc" ∷ []) every_section pylint_keys
          same_words pylint_why paths)
        (and_then
          (toml_files files tree (codes ".pylintrc.toml" ∷ codes "pylintrc.toml" ∷ []) pylint_keys
            pylint_why paths)
          (and_then
            (table_files files tree (codes "tool" ∷ codes "pylint" ∷ []) pylint_keys pylint_why
              paths)
            (ini_files files tree (codes "setup.cfg" ∷ []) (λ s. text_eq s (codes "pylint"))
              pylint_keys same_words pylint_why paths)))

  unfoldable pub flake8 : List FilePath → Result (Option Text)
  flake8 paths =
      ini_files files tree (codes ".flake8" ∷ codes "setup.cfg" ∷ codes "tox.ini" ∷ [])
        (λ s. text_eq (files.lower s) (codes "flake8:local-plugins")) flake8_local_plugins_keys
        flake8_words flake8_why paths

  unfoldable pub checkov : List FilePath → Result (Option Text)
  checkov paths =
      yaml_files files tree (codes ".checkov.yaml" ∷ codes ".checkov.yml" ∷ []) checkov_keys
        checkov_why paths

  unfoldable pub vale : List FilePath → Result (Option Text)
  vale paths =
      ini_files files tree (codes ".vale.ini" ∷ codes "_vale.ini" ∷ codes "vale.ini" ∷ [])
        every_section (codes "packages" ∷ []) vale_words vale_why paths

  unfoldable pub buf : List FilePath → Result (Option Text)
  buf paths = yaml_files files tree (codes "buf.yaml" ∷ codes "buf.yml" ∷ []) buf_keys buf_why paths

  unfoldable pub ast_grep : List FilePath → Result (Option Text)
  ast_grep paths =
      yaml_files files tree (codes "sgconfig.yml" ∷ codes "sgconfig.yaml" ∷ []) ast_grep_keys
        ast_grep_why paths

  -- The rule files below rules/, of which the first is named.
  abbrev pub rules_check : FilePath → List FilePath → Result (Option Text)
  rules_check path [] = safe
  rules_check path (r ∷ rs) = refuse (reason tree r (codes "custom rules") regal_why)

  unfoldable pub regal : List FilePath → Result (Option Text)
  regal paths =
      for_each
        (λ path.
          on_load tree path (λ found. rules_check path (sorted_paths found))
            (files.rglob (parent path ++ codes "rules" ∷ [])))
        (sorted_paths (keep_if (is_regal_config files) paths))
