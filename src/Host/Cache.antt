-- ===== src/Host/Cache.antt =====
-- The setup cache of sdk/runwhen_capability/host.py: what is saved, and when and what it answers.
use mathlib.Core.Option.{some-injective}
use rw_checks_codecollection.Prelude.{
  ◌≡◌, sym, Bool, true, false, not, ◌&&◌, ◌||◌, List, [], ◌∷◌, Option, none, some, if◌then◌else◌,
  Text, text_eq, text_eq_iff, inl, inr, subst, mem, Bool-cases,
}
use rw_checks_codecollection.Host.Values.{
  Value, path, text, Entries, end, entry, to_jsonable, jsonable_entries, lookup,
}

-- The payload of the cache file.
pub record Cache : Type 0 where
  pub task : Text
  pub inputs : Entries
  pub outputs : Entries
  pub path_keys : List Text

-- [key for key, value in outputs.items() if isinstance(value, Path)]
unfoldable pub path_keys_of : Entries → List Text
path_keys_of end = []
path_keys_of (entry k (path p) es) = k ∷ path_keys_of es
path_keys_of (entry k v es) = path_keys_of es

-- The payload of _save_setup_cache.
unfoldable pub cache_of : Text → Entries → Entries → Cache
unfolding path_keys_of to_jsonable
cache_of task inputs outputs = record {
  task = task;
  inputs = jsonable_entries inputs;
  outputs = jsonable_entries outputs;
  path_keys = path_keys_of outputs;
}

-- Path(value)
abbrev pub as_path : Value → Value
as_path (text t) = path t
as_path v = v

-- `outputs[key] = Path(outputs[key])` for each of the path keys.
unfoldable pub restore : List Text → Entries → Entries
unfolding mem
restore keys end = end
restore keys (entry k v es) = entry k (if mem k keys then as_path v else v) (restore keys es)

module _ (exists : Text → Bool) where
  -- `isinstance(value, Path) and not value.exists()` is false.
  abbrev pub stands : Option Value → Bool
  stands (some (path p)) = exists p
  stands _ = true

  unfoldable pub all_stand : List Text → Entries → Bool
  unfolding lookup
  all_stand [] outputs = true
  all_stand (key ∷ keys) outputs = stands (lookup key outputs) && all_stand keys outputs

  module _ (same_inputs : Entries → Entries → Bool) where
    abbrev pub checked : List Text → Entries → Option Entries
    checked keys outputs = if all_stand keys outputs then some outputs else none

    -- _cached_setup_outputs. `same_inputs` is == of two dicts.
    unfoldable pub cached_setup_outputs : Option Cache → Text → Entries → Option Entries
    unfolding restore all_stand to_jsonable
    cached_setup_outputs none task inputs = none
    cached_setup_outputs (some cache) task inputs =
        if not (text_eq cache.task task) || not (same_inputs cache.inputs (jsonable_entries inputs))
        then none
        else checked cache.path_keys (restore cache.path_keys cache.outputs)

-- A path, or a value that JSON keeps: one without paths and models inside.
abbrev Keeps : Value → Type 0
Keeps (path _) = Unit
Keeps v = to_jsonable v ≡ v

unfoldable pub has_key : Text → Entries → Bool
has_key key end = false
has_key key (entry k v es) = text_eq key k || has_key key es

-- Outputs of a setup task, no key twice, whose paths stand at the top.
abbrev pub IsFlat : Entries → Type 0
IsFlat end = Unit
IsFlat (entry k v es) = Keeps v × (has_key k es ≡ false) × IsFlat es

-- The keys mark exactly the entries that are paths.
abbrev Marks : List Text → Entries → Type 0
Marks keys end = Unit
Marks keys (entry k (path p) es) = (mem k keys ≡ true) × Marks keys es
Marks keys (entry k v es) = (mem k keys ≡ false) × Marks keys es

-- The cache answers only a request for the task and the inputs that it was saved for, and only while
-- every path among the outputs exists.
pub cached_setup_outputs-some :
    (exists : Text → Bool) (same_inputs : Entries → Entries → Bool) (cache : Cache) (task : Text)
    (inputs outputs : Entries)
    → cached_setup_outputs exists same_inputs (some cache) task inputs ≡ some outputs
    → (cache.task ≡ task)
      × (same_inputs cache.inputs (jsonable_entries inputs) ≡ true)
      × (outputs ≡ restore cache.path_keys cache.outputs)
      × (all_stand exists cache.path_keys outputs ≡ true)
unfolding cached_setup_outputs
cached_setup_outputs-some exists same_inputs cache task inputs outputs h =
    elim (Bool-cases (text_eq cache.task task)) [
      | inr apart ↦ cc (rw apart at h)
      | inl same ↦ elim (Bool-cases (same_inputs cache.inputs (jsonable_entries inputs))) [
        | inr differ ↦ cc (rw (same, differ) at h)
        | inl fits ↦
            let kept = restore cache.path_keys cache.outputs in
            elim (Bool-cases (all_stand exists cache.path_keys kept)) [
              | inr gone ↦ cc (rw (same, fits, gone) at h)
              | inl stand ↦
                  let e : kept ≡ outputs = some-injective _ _ (rw (same, fits, stand) at h) in
                  (
                    (text_eq_iff _ _).0 same,
                    fits,
                    sym e,
                    subst (λ o. all_stand exists cache.path_keys o ≡ true) e stand,
                  )
            ]
      ]
    ]
