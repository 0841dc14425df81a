-- ===== src/Guards/Document.antt =====
-- The searches in a parsed document of capabilities/rw-checks/guards.py: _walk_kv, _walk, _toml_table.
use rw_checks_codecollection.Prelude.{
  ℕ, suc, Bool, true, false, ◌&&◌, List, [], ◌∷◌, ◌++◌, Option, none, some, ltb, if◌then◌else◌,
  Text, text_eq, mem,
}

-- What tomllib, PyYAML and json give: a key stands as str(key), and a value that is no text, list or dict by
-- its truth value.
mutual
  pub data Doc : Type 0 where
    scalar : Bool → Doc
    str : Text → Doc
    list : Items → Doc
    dict : Entries → Doc

  pub data Items : Type 0 where
    nil : Items
    cons : Doc → Items → Items

  pub data Entries : Type 0 where
    end : Entries
    entry : Text → Doc → Entries → Entries

-- bool(value)
abbrev pub is_truthy : Doc → Bool
is_truthy (scalar b) = b
is_truthy (str []) = false
is_truthy (str (c ∷ s)) = true
is_truthy (list nil) = false
is_truthy (list (cons x xs)) = true
is_truthy (dict end) = false
is_truthy (dict (entry k v es)) = true

abbrev pub walk_max_depth : ℕ
walk_max_depth = 64

-- What the generator _walk_kv yields.
pub data Found : Type 0 where
  too_deep : Found
  pair : Text → Doc → Found

module _ (lower : Text → Text) (keys : List Text) where
  -- `if key in keys and v: yield key, v`
  abbrev pub hit : Text → Doc → List Found
  hit k v = if mem (lower k) keys && is_truthy v then pair (lower k) v ∷ [] else []

  abbrev pub unless_deep : ℕ → List Found → List Found
  unless_deep depth founds = if ltb walk_max_depth depth then too_deep ∷ [] else founds

  -- All that _walk_kv yields, in order. A branch that is too deep ends itself only.
  unfoldable mutual
    pub walk_kv : ℕ → Doc → List Found
    walk_kv depth (scalar b) = unless_deep depth []
    walk_kv depth (str s) = unless_deep depth []
    walk_kv depth (list xs) = unless_deep depth (walk_items (suc depth) xs)
    walk_kv depth (dict es) = unless_deep depth (walk_entries (suc depth) es)

    pub walk_items : ℕ → Items → List Found
    walk_items depth nil = []
    walk_items depth (cons x xs) = walk_kv depth x ++ walk_items depth xs

    pub walk_entries : ℕ → Entries → List Found
    walk_entries depth end = []
    walk_entries depth (entry k v es) = hit k v ++ (walk_kv depth v ++ walk_entries depth es)

-- What _walk returns.
pub data Verdict : Type 0 where
  nothing : Verdict
  bailed : Verdict
  matched : Text → Verdict

abbrev pub first_found : List Found → Verdict
first_found [] = nothing
first_found (too_deep ∷ fs) = bailed
first_found (pair k v ∷ fs) = matched k

unfoldable pub walk : (Text → Text) → List Text → Doc → Verdict
unfolding walk_kv
walk lower keys doc = first_found (walk_kv lower keys 0 doc)

-- A key's value in a dict.
unfoldable pub lookup : Text → Entries → Option Doc
lookup k end = none
lookup k (entry j v es) = let rest = lookup k es in if text_eq k j then some v else rest

abbrev pub step_into : Text → Doc → Option Doc
step_into k (dict es) = lookup k es
step_into k d = none

unfoldable pub toml_table : Doc → List Text → Option Doc
unfolding lookup
toml_table doc [] = some doc
toml_table doc (k ∷ ks) = elim (step_into k doc) [ none ↦ none | some d ↦ toml_table d ks ]
