-- ===== src/Guards/Safe.antt =====
-- What a guard of capabilities/rw-checks/guards.py that lets a tool run has made sure of.
use rw_checks_codecollection.Prelude.{
  ◌≡◌, refl, Bool, true, false, ◌&&◌, List, [], ◌∷◌, Option, none, some, Text, codes, text_eq, mem,
  In, here, there, Bool-cases, inl, inr,
}
use rw_checks_codecollection.Faults.{Result, ok, raise}
use rw_checks_codecollection.Findings.{keep_if}
use rw_checks_codecollection.Guards.Document.{
  Doc, Verdict, nothing, bailed, matched, walk, toml_table,
}
use rw_checks_codecollection.Guards.Verdict.{Tells, walk-Tells}
use rw_checks_codecollection.Guards.Files.{
  FilePath, Load, loaded, failed, escaped, Ini, Files, name_of, selected, insert_path, path_leb,
  sorted_paths, refuse, safe, and_then, for_each, on_load,
}
use rw_checks_codecollection.Guards.Tools.{
  is_set, ini_items, every_section, item_check, ini_check, load_ini, load_toml, load_yaml,
  on_verdict, doc_check, section_check, or_empty, ini_files, toml_files, table_files, yaml_files,
  pylint_keys, checkov, buf, ast_grep, checkov_keys, buf_keys, ast_grep_keys, flake8, vale,
  flake8_local_plugins_keys,
}

pub refuse-ne-safe : (r : Result Text) → refuse r ≡ safe → ⊥
refuse-ne-safe (ok t) h = cc
refuse-ne-safe (raise e) h = cc

pub and_then-safe : (a b : Result (Option Text)) → and_then a b ≡ safe → (a ≡ safe) × (b ≡ safe)
and_then-safe (ok none) b h = (refl, h)
and_then-safe (ok (some t)) b h = absurd (cc)
and_then-safe (raise e) b h = absurd (cc)

pub for_each-safe {ℓ} :
    {A : Type ℓ} (check : A → Result (Option Text)) {p : A} (ps : List A)
    → for_each check ps ≡ safe
    → In p ps
    → check p ≡ safe
unfolding for_each
for_each-safe check [] h i = elim i [ ]
for_each-safe check (p ∷ ps) h here = (and_then-safe (check p) _ h).0
for_each-safe check (p ∷ ps) h (there i) = for_each-safe check ps (and_then-safe (check p) _ h).1 i

pub on_load-safe :
    {A : Type 0} (tree path : FilePath) (check : A → Result (Option Text)) (l : Load A)
    → on_load tree path check l ≡ safe
    → (a : A) × (l ≡ loaded a) × (check a ≡ safe)
on_load-safe tree path check (loaded a) h = (a, refl, h)
on_load-safe tree path check (failed err) h = absurd (refuse-ne-safe _ h)
on_load-safe tree path check (escaped e) h = absurd (cc)

In-behind :
    {p : FilePath} (q r : FilePath) (qs rs : List FilePath)
    → (In p (q ∷ qs) → In p rs)
    → In p (q ∷ r ∷ qs)
    → In p (r ∷ rs)
In-behind q r qs rs f here = there (f here)
In-behind q r qs rs f (there here) = here
In-behind q r qs rs f (there (there i)) = there (f (there i))

In-insert_path :
    {p : FilePath} (q : FilePath) (qs : List FilePath) → In p (q ∷ qs) → In p (insert_path q qs)
unfolding insert_path
In-insert_path q [] h = h
In-insert_path q (r ∷ rs) h = elim (Bool-cases (path_leb q r)) [
  | inl first ↦ rw first h
  | inr later ↦ rw later (In-behind q r rs (insert_path q rs) (λ i. In-insert_path q rs i) h)
]

In-sorted_paths : {p : FilePath} (ps : List FilePath) → In p ps → In p (sorted_paths ps)
In-sorted_paths [] h = h
In-sorted_paths (q ∷ qs) here = In-insert_path q (sorted_paths qs) here
In-sorted_paths (q ∷ qs) (there h) =
    In-insert_path q (sorted_paths qs) (there (In-sorted_paths qs h))

In-keep_if :
    (keep : FilePath → Bool) {p : FilePath} (ps : List FilePath)
    → keep p ≡ true
    → In p ps
    → In p (keep_if keep ps)
In-keep_if keep [] k h = elim h [ ]
In-keep_if keep (q ∷ qs) k here = rw k here
In-keep_if keep (q ∷ qs) k (there h) = elim (Bool-cases (keep q)) [
  | inl kept ↦ rw kept (there (In-keep_if keep qs k h))
  | inr dropped ↦ rw dropped (In-keep_if keep qs k h)
]

pub In-kept :
    (keep : FilePath → Bool) {p : FilePath} (ps : List FilePath)
    → keep p ≡ true
    → In p ps
    → In p (sorted_paths (keep_if keep ps))
In-kept keep ps k h = In-sorted_paths _ (In-keep_if keep ps k h)

module _ (files : Files) where
  -- A file that is given to the guard under one of the names.
  pub record Given (paths : List FilePath) (names : List Text) (path : FilePath) : Type 0 where
    pub among : In path paths
    pub named : mem (name_of path) names ≡ true
    pub exists : files.is_file path ≡ true

  pub In-selected :
      {path : FilePath} (paths : List FilePath) (names : List Text)
      → Given paths names path
      → In path (selected files paths names)
  In-selected {path} paths names g =
      In-kept (λ p. mem (name_of p) names && files.is_file p) paths (rw (g.named, g.exists)) g.among

-- A file was read and parsed, and what it holds satisfies `P`.
abbrev pub Reads : {A : Type 0} → Load A → (A → Type 0) → Type 0
Reads {A} l P = (a : A) × (l ≡ loaded a) × P a

-- No key that is searched for is set, at any depth.
abbrev pub NoKey : Files → List Text → Doc → Type 0
NoKey files keys doc = Tells files.lower keys doc nothing

-- In the sections that count, no key that is searched for has a value.
abbrev pub NoItem : (Text → Bool) → List Text → Ini → Type 0
NoItem wanted keys ini =
    (key value : Text)
    → In (key, value) (ini_items wanted ini)
    → mem key keys ≡ true
    → is_set value ≡ false

-- A check of each file that is given under one of the names.
pub each_file-safe :
    {A : Type 0} (files : Files) (tree : FilePath) (paths : List FilePath) (names : List Text)
    (load : FilePath → Load A) (check : FilePath → A → Result (Option Text))
    → for_each (λ path. on_load tree path (check path) (load path)) (selected files paths names)
      ≡ safe
    → (path : FilePath) → Given files paths names path
    → Reads (load path) (λ a. check path a ≡ safe)
each_file-safe files tree paths names load check h path g =
    on_load-safe tree path (check path) (load path) (
      for_each-safe (λ path. on_load tree path (check path) (load path)) _ h
        (In-selected files paths names g))

module _ (files : Files) (tree : FilePath) (paths : List FilePath) where
  on_verdict-safe :
      (why : Text → Text) (path : FilePath) (v : Verdict)
      → on_verdict files tree why path v ≡ safe
      → v ≡ nothing
  on_verdict-safe why path nothing h = refl
  on_verdict-safe why path bailed h = absurd (refuse-ne-safe _ h)
  on_verdict-safe why path (matched k) h = absurd (refuse-ne-safe _ h)

  pub doc_check-safe :
      (keys : List Text) (why : Text → Text) (path : FilePath) (doc : Doc)
      → doc_check files tree keys why path doc ≡ safe
      → NoKey files keys doc
  unfolding doc_check
  doc_check-safe keys why path doc h =
      rw (on_verdict-safe why path (walk files.lower keys doc) h) at
        (walk-Tells files.lower keys doc)

  item_check-safe :
      (keys : List Text) (words why : Text → Text) (path : FilePath) (key value : Text)
      → item_check files tree keys words why path (key, value) ≡ safe
      → mem key keys ≡ true
      → is_set value ≡ false
  item_check-safe keys words why path key value h wanted = elim (Bool-cases (is_set value)) [
    | inr unset ↦ unset
    | inl set ↦ absurd (refuse-ne-safe _ (rw (wanted, set) at h))
  ]

  ini_check-safe :
      (wanted : Text → Bool) (keys : List Text) (words why : Text → Text) (path : FilePath)
      (ini : Ini)
      → ini_check files tree wanted keys words why path ini ≡ safe
      → NoItem wanted keys ini
  unfolding ini_check
  ini_check-safe wanted keys words why path ini h key value i k =
      item_check-safe keys words why path key value (for_each-safe _ _ h i) k

  pub ini_files-safe :
      (names : List Text) (wanted : Text → Bool) (keys : List Text) (words why : Text → Text)
      → ini_files files tree names wanted keys words why paths ≡ safe
      → (path : FilePath) → Given files paths names path
      → Reads (load_ini files tree path) (NoItem wanted keys)
  ini_files-safe names wanted keys words why h path g =
      let (ini, read, checked) =
        each_file-safe files tree paths names (load_ini files tree)
          (ini_check files tree wanted keys words why) h path g in
      (ini, read, ini_check-safe wanted keys words why path ini checked)

  pub toml_files-safe :
      (names keys : List Text) (why : Text → Text)
      → toml_files files tree names keys why paths ≡ safe
      → (path : FilePath) → Given files paths names path
      → Reads (load_toml files tree path) (NoKey files keys)
  toml_files-safe names keys why h path g =
      let (doc, read, checked) =
        each_file-safe files tree paths names (load_toml files tree) (doc_check files tree keys why)
          h path g in
      (doc, read, doc_check-safe keys why path doc checked)

  section_check-safe :
      (keys : List Text) (why : Text → Text) (path : FilePath) (found : Option Doc)
      → section_check files tree keys why path found ≡ safe
      → (section : Doc) → found ≡ some section
      → NoKey files keys section
  section_check-safe keys why path none h section e = absurd (cc)
  section_check-safe keys why path (some s) h section e =
      doc_check-safe keys why path section (rw (e') at h)
    where
      e' : s ≡ section
      e' = cc

  pub table_files-safe :
      (table keys : List Text) (why : Text → Text)
      → table_files files tree table keys why paths ≡ safe
      → (path : FilePath) → Given files paths (codes "pyproject.toml" ∷ []) path
      → Reads
          (load_toml files tree path)
          (λ doc. (section : Doc) → toml_table doc table ≡ some section → NoKey files keys section)
  table_files-safe table keys why h path g =
      let (doc, read, checked) =
        each_file-safe files tree paths _ (load_toml files tree)
          (λ path doc. section_check files tree keys why path (toml_table doc table)) h path g in
      (doc, read, section_check-safe keys why path (toml_table doc table) checked)

  pub yaml_files-safe :
      (names keys : List Text) (why : Text → Text)
      → yaml_files files tree names keys why paths ≡ safe
      → (path : FilePath) → Given files paths names path
      → Reads (load_yaml files tree path) (λ doc. NoKey files keys (or_empty files tree doc))
  yaml_files-safe names keys why h path g =
      let (doc, read, checked) =
        each_file-safe files tree paths names (load_yaml files tree)
          (λ path doc. doc_check files tree keys why path (or_empty files tree doc)) h path g in
      (doc, read, doc_check-safe keys why path _ checked)

module _ (files : Files) (tree : FilePath) (paths : List FilePath) where
  -- What the four kinds of file that configure pylint may hold where it is run.
  pub record PylintIsSafe : Type 0 where
    pub rc_file :
        (path : FilePath)
        → Given files paths (codes ".pylintrc" ∷ codes "pylintrc" ∷ []) path
        → Reads (load_ini files tree path) (NoItem every_section pylint_keys)
    pub toml_file :
        (path : FilePath)
        → Given files paths (codes ".pylintrc.toml" ∷ codes "pylintrc.toml" ∷ []) path
        → Reads (load_toml files tree path) (NoKey files pylint_keys)
    pub project :
        (path : FilePath)
        → Given files paths (codes "pyproject.toml" ∷ []) path
        → Reads (load_toml files tree path) (λ doc.
          (section : Doc)
          → toml_table doc (codes "tool" ∷ codes "pylint" ∷ []) ≡ some section
          → NoKey files pylint_keys section)
    pub setup_cfg :
        (path : FilePath)
        → Given files paths (codes "setup.cfg" ∷ []) path
        → Reads (load_ini files tree path) (NoItem (λ s. text_eq s (codes "pylint")) pylint_keys)

  -- Where buf's guard lets it run, every buf.yaml could be read and parsed, nests at most 64 deep, and sets
  -- neither plugins nor deps at any depth.
  pub buf-safe :
      buf files tree paths ≡ safe
      → (path : FilePath) → Given files paths (codes "buf.yaml" ∷ codes "buf.yml" ∷ []) path
      → Reads (load_yaml files tree path) (λ doc. NoKey files buf_keys (or_empty files tree doc))
  unfolding buf
  buf-safe h = yaml_files-safe files tree paths _ buf_keys _ h

  pub checkov-safe :
      checkov files tree paths ≡ safe
      → (path : FilePath)
      → Given files paths (codes ".checkov.yaml" ∷ codes ".checkov.yml" ∷ []) path
      → Reads
          (load_yaml files tree path)
          (λ doc. NoKey files checkov_keys (or_empty files tree doc))
  unfolding checkov
  checkov-safe h = yaml_files-safe files tree paths _ checkov_keys _ h

  pub ast_grep-safe :
      ast_grep files tree paths ≡ safe
      → (path : FilePath)
      → Given files paths (codes "sgconfig.yml" ∷ codes "sgconfig.yaml" ∷ []) path
      → Reads
          (load_yaml files tree path)
          (λ doc. NoKey files ast_grep_keys (or_empty files tree doc))
  unfolding ast_grep
  ast_grep-safe h = yaml_files-safe files tree paths _ ast_grep_keys _ h

  pub flake8-safe :
      flake8 files tree paths ≡ safe
      → (path : FilePath)
      → Given files paths (codes ".flake8" ∷ codes "setup.cfg" ∷ codes "tox.ini" ∷ []) path
      → Reads (load_ini files tree path) (
          NoItem
            (λ s. text_eq (files.lower s) (codes "flake8:local-plugins"))
            flake8_local_plugins_keys)
  unfolding flake8
  flake8-safe h = ini_files-safe files tree paths _ _ flake8_local_plugins_keys _ _ h

  pub vale-safe :
      vale files tree paths ≡ safe
      → (path : FilePath)
      → Given files paths (codes ".vale.ini" ∷ codes "_vale.ini" ∷ codes "vale.ini" ∷ []) path
      → Reads (load_ini files tree path) (NoItem every_section (codes "packages" ∷ []))
  unfolding vale
  vale-safe h = ini_files-safe files tree paths _ every_section _ _ _ h
