-- ===== src/Host/Values.antt =====
-- The values that sdk/runwhen_capability/host.py passes on: _to_jsonable, _resolve_placeholders and
-- _kwargs_from_inputs.
use rw_checks_codecollection.Prelude.{
  ℕ, Bool, false, ◌&&◌, [], ◌∷◌, ◌++◌, Option, none, some, leb, ◌==◌, if◌then◌else◌, Text, codes,
  text_eq,
}
use rw_checks_codecollection.Json.{Json}
use rw_checks_codecollection.Faults.{other, Result, ok, raise, ◌>>=◌}

-- `model` is a pydantic model, by what it dumps. `atom` is any other value that is no text and no container.
mutual
  pub data Value : Type 0 where
    path : Text → Value
    text : Text → Value
    model : Entries → Value
    atom : Json → Value
    dict : Entries → Value
    list : Values → Value

  pub data Entries : Type 0 where
    end : Entries
    entry : Text → Value → Entries → Entries

  pub data Values : Type 0 where
    nil : Values
    cons : Value → Values → Values

-- _to_jsonable
unfoldable mutual
  pub to_jsonable : Value → Value
  to_jsonable (path p) = text p
  to_jsonable (text t) = text t
  to_jsonable (model dumped) = dict dumped
  to_jsonable (atom j) = atom j
  to_jsonable (dict es) = dict (jsonable_entries es)
  to_jsonable (list vs) = list (jsonable_values vs)

  pub jsonable_entries : Entries → Entries
  jsonable_entries end = end
  jsonable_entries (entry k v es) = entry k (to_jsonable v) (jsonable_entries es)

  pub jsonable_values : Values → Values
  jsonable_values nil = nil
  jsonable_values (cons v vs) = cons (to_jsonable v) (jsonable_values vs)

unfoldable pub lookup : Text → Entries → Option Value
lookup key end = none
lookup key (entry k v es) = if text_eq key k then some v else lookup key es

-- d[key] = v
unfoldable pub put : Text → Value → Entries → Entries
put key v end = entry key v end
put key v (entry k w es) =
    let rest = put key v es in if text_eq key k then entry k v es else entry k w rest

abbrev drop_prefix : Text → Text → Option Text
drop_prefix [] t = some t
drop_prefix (c ∷ p) [] = none
drop_prefix (c ∷ p) (d ∷ t) = let rest = drop_prefix p t in if c == d then rest else none

module _ (is_word : ℕ → Bool) where
  abbrev word_head : Text → Text
  word_head [] = []
  word_head (c ∷ t) = let rest = word_head t in if is_word c then c ∷ rest else []

  abbrev word_rest : Text → Text
  word_rest [] = []
  word_rest (c ∷ t) = let rest = word_rest t in if is_word c then rest else c ∷ t

  -- The end of the pattern: `$` also matches before a last newline.
  abbrev closes : Text → Bool
  closes (c ∷ []) = c == 125
  closes (c ∷ d ∷ []) = c == 125 && d == 10
  closes _ = false

  abbrev named : Text → Text → Option Text
  named [] rest = none
  named (c ∷ name) rest = if closes rest then some (c ∷ name) else none

  abbrev placeholder_name : Option Text → Option Text
  placeholder_name none = none
  placeholder_name (some t) = named (word_head t) (word_rest t)

  -- _PLACEHOLDER_RE.match(value), by its group: `^\$\{setup\.(\w+)\}$`
  unfoldable pub placeholder : Text → Option Text
  placeholder t = placeholder_name (drop_prefix (codes "${setup.") t)

module _ (is_word : ℕ → Bool) (repr : Text → Text) where
  abbrev pub unknown_output : Text → Text → Text
  unknown_output key name =
      codes "input "
      ++ repr key
      ++ codes " references unknown setup output ${setup."
      ++ name
      ++ codes "}"

  abbrev pub resolve_name : Text → Text → Option Value → Result Value
  resolve_name key name none = raise (record { kind = other; message = unknown_output key name })
  resolve_name key name (some v) = ok v

  abbrev pub resolve_text : Text → Text → Option Text → Entries → Result Value
  resolve_text key t none setup_outputs = ok (text t)
  resolve_text key t (some name) setup_outputs = resolve_name key name (lookup name setup_outputs)

  unfoldable pub resolve_value : Text → Value → Entries → Result Value
  unfolding placeholder lookup
  resolve_value key (text t) setup_outputs =
      resolve_text key t (placeholder is_word t) setup_outputs
  resolve_value key v setup_outputs = ok v

  -- _resolve_placeholders
  unfoldable pub resolve_placeholders : Entries → Entries → Result Entries
  unfolding resolve_value
  resolve_placeholders end setup_outputs = ok end
  resolve_placeholders (entry k v es) setup_outputs = resolve_value k v setup_outputs >>= λ w.
      resolve_placeholders es setup_outputs >>= λ rest. ok (entry k w rest)

-- _CAMEL_RE.sub("_", name): before every capital letter but one that starts the name
abbrev camel_tail : Text → Text
camel_tail [] = []
camel_tail (c ∷ t) = if leb 65 c && leb c 90 then 95 ∷ c ∷ camel_tail t else c ∷ camel_tail t

abbrev pub camel_split : Text → Text
camel_split [] = []
camel_split (c ∷ t) = c ∷ camel_tail t

-- `lower` is str.lower.
unfoldable pub camel_to_snake : (Text → Text) → Text → Text
camel_to_snake lower name = lower (camel_split name)

-- _kwargs_from_inputs: of two keys that become one, the later value counts.
unfoldable pub kwargs_onto : (Text → Text) → Entries → Entries → Entries
unfolding put camel_to_snake
kwargs_onto lower kwargs end = kwargs
kwargs_onto lower kwargs (entry k v es) =
    kwargs_onto lower (put (camel_to_snake lower k) v kwargs) es

abbrev pub kwargs_from_inputs : (Text → Text) → Entries → Entries
kwargs_from_inputs lower inputs = kwargs_onto lower end inputs
