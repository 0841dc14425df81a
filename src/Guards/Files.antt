-- ===== src/Guards/Files.antt =====
-- The shared plumbing of capabilities/rw-checks/guards.py: the files that a guard looks at, the parts of
-- paths, and the reasons for a refusal. The file system and the parsers are an interface.
use rw_checks_codecollection.Prelude.{
  ℕ, Bool, true, false, ◌&&◌, List, [], ◌∷◌, ◌++◌, Option, none, some, if◌then◌else◌, Text, codes,
  text_eq, text_leb, mem, show_ℕ,
}
use rw_checks_codecollection.Faults.{Exn, value_error, Result, ok, raise}
use rw_checks_codecollection.Findings.{keep_if}
use rw_checks_codecollection.Checks.Plan.{last_of}
use rw_checks_codecollection.Guards.Document.{Doc, walk_max_depth}

-- A path as its parts.
abbrev pub FilePath : Type 0
FilePath = List Text

-- A read or a parse: its value, the text of an exception that the guards catch, or one that they do not.
pub data Load (A : Type 0) : Type 0 where
  loaded : A → Load A
  failed : Text → Load A
  escaped : Exn → Load A

infixl 5 ◌>>=◌
abbrev pub ◌>>=◌ : {A B : Type 0} → Load A → (A → Load B) → Load B
loaded a >>= f = f a
failed e >>= f = failed e
escaped e >>= f = escaped e

-- A ConfigParser: its sections, each with its options, those of DEFAULT included.
abbrev pub Ini : Type 0
Ini = List (Text × List (Text × Text))

-- What the guards use of pathlib, configparser, tomllib, yaml and json.
pub record Files : Type 0 where
  pub is_file : FilePath → Bool
  pub read_text : FilePath → Load Text
  pub read_bytes : FilePath → Load (List ℕ)
  pub rglob : FilePath → Load (List FilePath)
  pub resolve : FilePath → Option FilePath
  pub resolve_from : FilePath → Text → Option FilePath
  pub parse_ini : Text → Load Ini
  pub parse_toml : Text → Load Doc
  pub parse_yaml : Text → Load Doc
  pub parse_json : Text → Load Doc
  pub lower : Text → Text

abbrev pub name_of : FilePath → Text
name_of = last_of

-- The order of paths, part by part.
unfoldable pub path_leb : FilePath → FilePath → Bool
unfolding text_leb text_eq
path_leb [] q = true
path_leb (a ∷ p) [] = false
path_leb (a ∷ p) (b ∷ q) = if text_eq a b then path_leb p q else text_leb a b

unfoldable pub insert_path : FilePath → List FilePath → List FilePath
unfolding path_leb
insert_path p [] = p ∷ []
insert_path p (q ∷ qs) =
    let rest = insert_path p qs in if path_leb p q then p ∷ q ∷ qs else q ∷ rest

abbrev pub sorted_paths : List FilePath → List FilePath
sorted_paths [] = []
sorted_paths (p ∷ ps) = insert_path p (sorted_paths ps)

-- _selected
abbrev pub selected : Files → List FilePath → List Text → List FilePath
selected files paths names =
    sorted_paths (keep_if (λ p. mem (name_of p) names && files.is_file p) paths)

-- path.relative_to(root): the parts behind those of the root, or ValueError
unfoldable pub relative_to : FilePath → FilePath → Option FilePath
unfolding text_eq
relative_to [] path = some path
relative_to (r ∷ root) [] = none
relative_to (r ∷ root) (p ∷ path) =
    let rest = relative_to root path in if text_eq r p then rest else none

-- as_posix() of a relative path
abbrev pub as_posix : FilePath → Text
as_posix [] = codes "."
as_posix (p ∷ []) = p
as_posix (p ∷ q ∷ ps) = p ++ 47 ∷ as_posix (q ∷ ps)

abbrev pub not_in_tree : Exn
not_in_tree = record { kind = value_error; message = codes "is not in the subpath" }

-- f"{rel}: ..."
unfoldable pub about : FilePath → FilePath → Text → Result Text
unfolding relative_to
about tree path what = elim (relative_to tree path) [
  | none ↦ raise not_in_tree
  | some rel ↦ ok (as_posix rel ++ (codes ": " ++ what))
]

-- _reason
abbrev pub reason : FilePath → FilePath → Text → Text → Result Text
reason tree path key why = about tree path (codes "sets " ++ (key ++ (codes ", " ++ why)))

-- _unparseable
abbrev pub unparseable : FilePath → FilePath → Text → Result Text
unparseable tree path err =
    about tree path (codes "could not be parsed (" ++ (err ++ codes "); treating as unsafe"))

-- _too_deep
abbrev pub too_deep_reason : FilePath → FilePath → Result Text
too_deep_reason tree path = about tree path (
    codes "nested more than "
    ++ (show_ℕ walk_max_depth ++ codes " levels deep; treating as unsafe"))

-- `return reason`
abbrev pub refuse : Result Text → Result (Option Text)
refuse (ok text) = ok (some text)
refuse (raise e) = raise e

abbrev pub safe : Result (Option Text)
safe = ok none

-- One check after another: the first that refuses or raises ends the guard.
abbrev pub and_then : Result (Option Text) → Result (Option Text) → Result (Option Text)
and_then (ok none) next = next
and_then (ok (some text)) next = ok (some text)
and_then (raise e) next = raise e

-- A check for each of the files.
unfoldable pub for_each {ℓ} :
    {A : Type ℓ} → (A → Result (Option Text)) → List A → Result (Option Text)
for_each check [] = safe
for_each check (p ∷ ps) = and_then (check p) (for_each check ps)

-- `try: ... except ...: return _unparseable(...)`
abbrev pub on_load :
    {A : Type 0} → FilePath → FilePath → (A → Result (Option Text)) → Load A → Result (Option Text)
on_load tree path check (loaded a) = check a
on_load tree path check (failed err) = refuse (unparseable tree path err)
on_load tree path check (escaped e) = raise e
