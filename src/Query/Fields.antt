-- ===== src/Query/Fields.antt =====
-- The op validation of sdk/runwhen_capability/repo_query.py. A field is read by a function that
-- answers none where the source's `check` is false, and the value at its type where it is true.
use rw_checks_codecollection.Prelude.{
  ℕ, String, Bool, List, [], ◌∷◌, ◌++◌, Option, none, some, leb, ◌==◌, ◌&&◌, if◌then◌else◌, any,
  Text, codes, show_ℕ, pos,
}
use rw_checks_codecollection.Json.{Json, bool, int, str, arr, Items, nil, cons, Fields, get}
use rw_checks_codecollection.Faults.{Exn}

-- What an op's handler comes to: a value, an _InvalidOp with its message, or another exception.
pub data Attempt {ℓ} (A : Type ℓ) : Type ℓ where
  done : A → Attempt A
  invalid : Text → Attempt A
  raised : Exn → Attempt A

infixl 5 ◌>>=◌
abbrev pub ◌>>=◌ {ℓ κ} : {A : Type ℓ} {B : Type κ} → Attempt A → (A → Attempt B) → Attempt B
done a >>= f = f a
invalid m >>= f = invalid m
raised e >>= f = raised e

-- repr() of a field's name, which holds no quote.
abbrev quote : String → Text
quote key = 39 ∷ codes key ++ 39 ∷ []

module _ {A : Type 0} (op : Fields) (key : String) (read : Json → Option A) (expected : Text) where
  abbrev checked : Json → Attempt A
  checked v = elim (read v) [
    | none ↦ invalid (quote key ++ codes " must be " ++ expected)
    | some a ↦ done a
  ]

  -- _field(op, key, check, expected): a null reads as absent.
  unfoldable pub optional_field : Attempt (Option A)
  optional_field = elim (get key op) [ none ↦ done none | some v ↦ do a ← checked v; done (some a) ]

  -- _field(op, key, check, expected, required=True)
  unfoldable pub required_field : Attempt A
  required_field = elim (get key op) [
    | none ↦ invalid (codes "missing required field " ++ quote key)
    | some v ↦ checked v
  ]

abbrev pub read_text : Json → Option Text
read_text (str s) = some s
read_text _ = none

abbrev pub read_bool : Json → Option Bool
read_bool (bool b) = some b
read_bool _ = none

-- A bool is no integer here. The bounds of every caller are at least 0.
abbrev pub read_int : ℕ → Option ℕ → Json → Option ℕ
read_int low none (int (pos n)) = if leb low n then some n else none
read_int low (some high) (int (pos n)) = if leb low n && leb n high then some n else none
read_int low high _ = none

abbrev pub read_texts : Items → Option (List Text)
read_texts nil = some []
read_texts (cons (str s) xs) = elim (read_texts xs) [ none ↦ none | some ts ↦ some (s ∷ ts) ]
read_texts _ = none

abbrev pub read_globs : Json → Option (List Text)
read_globs (arr xs) = read_texts xs
read_globs _ = none

abbrev read_symbol : Json → Option Text
read_symbol (str (c ∷ s)) = some (c ∷ s)
read_symbol _ = none

abbrev read_pair : Json → Option (ℕ × ℕ)
read_pair (arr (cons (int (pos start)) (cons (int (pos end)) nil))) =
    if leb 1 start && leb start end then some (start, end) else none
read_pair _ = none

abbrev read_pairs : Items → Option (List (ℕ × ℕ))
read_pairs nil = some []
read_pairs (cons x xs) = elim (read_pair x) [
  | none ↦ none
  | some p ↦ elim (read_pairs xs) [ none ↦ none | some ps ↦ some (p ∷ ps) ]
]

abbrev read_ranges : Json → Option (List (ℕ × ℕ))
read_ranges (arr (cons x xs)) = read_pairs (cons x xs)
read_ranges _ = none

abbrev int_expected : ℕ → Option ℕ → Text
int_expected low none = codes "an integer >= " ++ show_ℕ low
int_expected low (some high) = codes "an integer from " ++ show_ℕ low ++ codes " to " ++ show_ℕ high

unfoldable pub int_field : Fields → String → ℕ → Option ℕ → Attempt (Option ℕ)
unfolding optional_field
int_field op key low high = optional_field op key (read_int low high) (int_expected low high)

unfoldable pub globs_field : Fields → Attempt (Option (List Text))
unfolding optional_field
globs_field op = optional_field op "globs" read_globs (codes "an array of strings")

abbrev pub has_nul : Text → Bool
has_nul path = any (λ c. c == 0) path

abbrev pub no_nul : Text → Attempt Text
no_nul path =
    if has_nul path then invalid (codes "'path' must not contain a NUL byte") else done path

abbrev pub path_or_none : Option Text → Attempt (Option Text)
path_or_none none = done none
path_or_none (some path) = do p ← no_nul path; done (some p)

-- _path_field(op) and _path_field(op, required=True)
unfoldable pub path_field : Fields → Attempt (Option Text)
unfolding optional_field
path_field op = do found ← optional_field op "path" read_text (codes "a string"); path_or_none found

unfoldable pub required_path : Fields → Attempt Text
unfolding required_field
required_path op = do path ← required_field op "path" read_text (codes "a string"); no_nul path

unfoldable pub symbol_field : Fields → Attempt Text
unfolding required_field
symbol_field op = required_field op "symbol" read_symbol (codes "a non-empty string")

unfoldable pub ranges_field : Fields → Attempt (List (ℕ × ℕ))
unfolding required_field
ranges_field op =
    required_field op "ranges" read_ranges (codes "a non-empty array of [start, end] line pairs")
