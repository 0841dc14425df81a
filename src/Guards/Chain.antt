-- ===== src/Guards/Chain.antt =====
-- The chains of extend and extends in capabilities/rw-checks/guards.py, and the guards of ruff and biome that
-- follow them.
pub mod Closed
pub mod Tools
use rw_checks_codecollection.Prelude.{
  ℕ, zero, suc, Bool, true, false, not, ◌&&◌, ◌||◌, List, [], ◌∷◌, ◌++◌, Option, none, some, ◌==◌,
  if◌then◌else◌, Text, codes, text_eq, mem, any,
}
use rw_checks_codecollection.Faults.{Result, ok, raise}
use rw_checks_codecollection.Guards.Document.{
  Doc, scalar, str, list, dict, Items, nil, cons, Found, too_deep, pair, walk_kv, toml_table,
}
use rw_checks_codecollection.Guards.Files.{
  FilePath, Load, loaded, failed, escaped, ◌>>=◌, Files, selected, relative_to, reason, unparseable,
  too_deep_reason, refuse, safe, and_then, for_each, on_load,
}
use rw_checks_codecollection.Guards.Tools.{parent, load_toml}
use rw_checks_codecollection.Guards.Comments.{strip_jsonc}

abbrev pub starts_with : ℕ → Text → Bool
starts_with c [] = false
starts_with c (d ∷ s) = c == d

-- What needs no look at the disk: a NUL, "~", an absolute path.
abbrev pub is_refused : Text → Bool
is_refused value = any (λ c. c == 0) value || (starts_with 126 value || starts_with 47 value)

-- resolved.is_relative_to(root)
abbrev pub inside : FilePath → FilePath → Option FilePath
inside root path = elim (relative_to root path) [ none ↦ none | some rel ↦ some path ]

abbrev pub inside_resolved : Option FilePath → Option FilePath → Option FilePath
inside_resolved none root = none
inside_resolved (some path) none = none
inside_resolved (some path) (some root) = inside root path

unfoldable pub resolve_in_tree : Files → FilePath → FilePath → Text → Option FilePath
unfolding relative_to
resolve_in_tree files tree config_dir value =
    if is_refused value
    then none
    else inside_resolved (files.resolve_from config_dir value) (files.resolve tree)

-- _try_resolve
abbrev pub try_resolve : Files → FilePath → FilePath
try_resolve files path = elim (files.resolve path) [ none ↦ path | some resolved ↦ resolved ]

unfoldable pub path_eq : FilePath → FilePath → Bool
unfolding text_eq
path_eq [] [] = true
path_eq (a ∷ p) (b ∷ q) = text_eq a b && path_eq p q
path_eq _ _ = false

unfoldable pub is_visited : FilePath → List FilePath → Bool
unfolding path_eq
is_visited p [] = false
is_visited p (q ∷ qs) = path_eq p q || is_visited p qs

-- How far a walk came: on, with the set of the files that it visited, or to a refusal or an exception.
pub data Walked : Type 0 where
  onward : List FilePath → Walked
  stopped : Result Text → Walked

abbrev pub then_on : Walked → (List FilePath → Walked) → Walked
then_on (onward visited) next = next visited
then_on (stopped r) next = stopped r

abbrev pub item_docs : Items → List Doc
item_docs nil = []
item_docs (cons x xs) = x ∷ item_docs xs

-- `value if isinstance(value, list) else [value]`
abbrev pub values_of : Doc → List Doc
values_of (list xs) = item_docs xs
values_of d = d ∷ []

abbrev pub chain_max_depth : ℕ
chain_max_depth = 10

module _ (files : Files) (load : FilePath → Load Doc) (keys : List Text) (why : Text)
    (tree : FilePath) where
  -- What is done with a hop that was not visited and is a file.
  abbrev pub enter_hop :
      (FilePath → Doc → List FilePath → Walked) → FilePath → List FilePath → Load Doc → Walked
  enter_hop again hop visited (loaded doc) = again hop doc visited
  enter_hop again hop visited (failed err) = stopped (unparseable tree hop err)
  enter_hop again hop visited (escaped e) = stopped (raise e)

  abbrev pub on_hop :
      (FilePath → Doc → List FilePath → Walked)
      → Bool
      → FilePath
      → Text
      → List FilePath
      → Option FilePath
      → Walked
  on_hop again at_limit path key visited none = stopped (reason tree path key why)
  on_hop again at_limit path key visited (some hop) =
      if at_limit || is_visited hop visited
      then stopped (reason tree path key why)
      else if not (files.is_file hop)
      then onward visited
      else enter_hop again hop (hop ∷ visited) (load hop)

  -- One value: what is no text is passed over.
  abbrev pub on_value :
      (FilePath → Doc → List FilePath → Walked)
      → Bool
      → FilePath
      → Text
      → List FilePath
      → Doc
      → Walked
  on_value again at_limit path key visited (str v) =
      on_hop again at_limit path key visited (resolve_in_tree files tree (parent path) v)
  on_value again at_limit path key visited _ = onward visited

  unfoldable pub values_loop :
      (FilePath → Doc → List FilePath → Walked)
      → Bool
      → FilePath
      → Text
      → List Doc
      → List FilePath
      → Walked
  unfolding resolve_in_tree is_visited
  values_loop again at_limit path key [] visited = onward visited
  values_loop again at_limit path key (v ∷ vs) visited =
      then_on (on_value again at_limit path key visited v) (values_loop again at_limit path key vs)

  unfoldable pub founds_loop :
      (FilePath → Doc → List FilePath → Walked)
      → Bool
      → FilePath
      → List Found
      → List FilePath
      → Walked
  unfolding values_loop
  founds_loop again at_limit path [] visited = onward visited
  founds_loop again at_limit path (too_deep ∷ fs) visited = stopped (too_deep_reason tree path)
  founds_loop again at_limit path (pair k v ∷ fs) visited =
      then_on (values_loop again at_limit path k (values_of v) visited)
        (founds_loop again at_limit path fs)

  -- _walk_extend_chain, where `left` is _CHAIN_MAX_DEPTH - depth. At the limit no hop is entered.
  unfoldable pub walk_extend_chain : ℕ → FilePath → Doc → List FilePath → Walked
  unfolding founds_loop walk_kv
  walk_extend_chain zero path section visited =
      founds_loop (λ hop doc seen. onward seen) true path (walk_kv files.lower keys 0 section)
        visited
  walk_extend_chain (suc left) path section visited =
      founds_loop (walk_extend_chain left) false path (walk_kv files.lower keys 0 section) visited

abbrev pub on_walked : Walked → Result (Option Text)
on_walked (onward visited) = safe
on_walked (stopped r) = refuse r

module _ (files : Files) (load : FilePath → Load Doc) (keys : List Text) (why : Text)
    (tree path : FilePath) where
  -- _chain_start and the chain from the file of the group
  unfoldable pub chain_check : Doc → Result (Option Text)
  unfolding walk_extend_chain
  chain_check section =
      let start = try_resolve files path in
      on_walked (
        walk_extend_chain files load keys why (try_resolve files tree) chain_max_depth start section
          (start ∷ []))

  abbrev pub section_chain : Option Doc → Result (Option Text)
  section_chain none = safe
  section_chain (some section) = chain_check section

abbrev pub ruff_keys : List Text
ruff_keys = codes "extend" ∷ []

abbrev pub ruff_why : Text
ruff_why = codes "which ruff reads from outside the repository"

abbrev pub biome_keys : List Text
biome_keys = codes "extends" ∷ []

abbrev pub biome_why : Text
biome_why = codes "which biome reads from outside the repository"

module _ (files : Files) (tree : FilePath) where
  unfoldable pub ruff : List FilePath → Result (Option Text)
  unfolding chain_check
  ruff paths =
      and_then
        (for_each
          (λ path.
            on_load tree path
              (chain_check files (load_toml files tree) ruff_keys ruff_why tree path)
              (load_toml files tree path))
          (selected files paths (codes "ruff.toml" ∷ codes ".ruff.toml" ∷ [])))
        (for_each
          (λ path.
            on_load tree path
              (λ doc.
                section_chain files (load_toml files tree) ruff_keys ruff_why tree path
                  (toml_table doc (codes "tool" ∷ codes "ruff" ∷ [])))
              (load_toml files tree path))
          (selected files paths (codes "pyproject.toml" ∷ [])))

  -- json.loads(_strip_jsonc_comments(path.read_text()))
  abbrev pub load_jsonc : FilePath → Load Doc
  load_jsonc path = files.read_text path >>= λ text. files.parse_json (strip_jsonc text)

  unfoldable pub biome : List FilePath → Result (Option Text)
  unfolding chain_check
  biome paths =
      for_each
        (λ path.
          on_load tree path (chain_check files load_jsonc biome_keys biome_why tree path)
            (load_jsonc path))
        (selected files paths (codes "biome.json" ∷ codes "biome.jsonc" ∷ []))
