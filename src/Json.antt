-- ===== src/Json.antt =====
-- JSON values as Python holds them after json.loads, and the length of their json.dumps with its
-- defaults: ", " and ": " separators, non-ASCII escaped. `_size` of
-- sdk/runwhen_capability/repo_query.py is this length.
pub mod Size
use rw_checks_codecollection.Prelude.{
  ℕ, suc, ◌+◌, String, Bool, true, false, List, [], ◌∷◌, Option, none, some, ltb, leb, ◌==◌, ◌&&◌,
  ◌||◌, if◌then◌else◌, Text, codes, length, show_ℕ, ℤ, pos, negsuc,
}
use text.Mathlib.Text.{◌==◌ as str_eq}

-- A number that is no integer keeps the text that it is printed as.
mutual
  pub data Json : Type 0 where
    null : Json
    bool : Bool → Json
    int : ℤ → Json
    float : Text → Json
    str : Text → Json
    arr : Items → Json
    obj : Fields → Json

  pub data Items : Type 0 where
    nil : Items
    cons : Json → Items → Items

  pub data Fields : Type 0 where
    end : Fields
    field : String → Json → Fields → Fields

abbrev pub num : ℕ → Json
num n = int (pos n)

-- Lists of values and the items of an array, both ways.
abbrev pub items : List Json → Items
items [] = nil
items (x ∷ xs) = cons x (items xs)

abbrev pub item_list : Items → List Json
item_list nil = []
item_list (cons x xs) = x ∷ item_list xs

-- d.get(key), where an absent key and a null both read as None.
unfoldable pub get : String → Fields → Option Json
get key end = none
get key (field k null rest) = if str_eq k key then none else get key rest
get key (field k v rest) = if str_eq k key then some v else get key rest

-- What one character of a string takes in json.dumps (ensure_ascii): two for a short escape, six for
-- \uXXXX, twelve for a surrogate pair.
abbrev pub escape_len : ℕ → ℕ
escape_len c =
    if c == 34 || c == 92 || leb 8 c && leb c 10 || c == 12 || c == 13
    then 2
    else if leb 32 c && leb c 126
    then 1
    else if ltb c 0x10000
    then 6
    else 12

abbrev pub escaped_len : Text → ℕ
escaped_len [] = 0
escaped_len (c ∷ s) = escape_len c + escaped_len s

-- len(json.dumps(s)) of a string: its quotes and its escaped characters.
unfoldable pub str_len : Text → ℕ
str_len s = 2 + escaped_len s

unfoldable pub int_len : ℤ → ℕ
int_len (pos n) = length (show_ℕ n)
int_len (negsuc n) = suc (length (show_ℕ (suc n)))

-- `sep` is what stands before the next item: nothing before the first, then ", ".
unfoldable mutual
  unfolding str_len int_len

  pub json_len : Json → ℕ
  json_len null = 4
  json_len (bool true) = 4
  json_len (bool false) = 5
  json_len (int n) = int_len n
  json_len (float s) = length s
  json_len (str s) = str_len s
  json_len (arr xs) = 2 + items_len xs 0
  json_len (obj fs) = 2 + fields_len fs 0

  pub items_len : Items → ℕ → ℕ
  items_len nil sep = 0
  items_len (cons x xs) sep = sep + json_len x + items_len xs 2

  pub fields_len : Fields → ℕ → ℕ
  fields_len end sep = 0
  fields_len (field k v fs) sep = sep + str_len (codes k) + 2 + json_len v + fields_len fs 2

-- The separator before an item that is added behind `xs`.
abbrev pub items_sep : List Json → ℕ → ℕ
items_sep [] sep = sep
items_sep (x ∷ xs) sep = 2
