-- ===== src/Findings/Uri.antt =====
-- normalize_uri of sdk/runwhen_capability/findings.py: a location that a tool reports to a path in the
-- worktree. urllib's urlparse and unquote are parameters.
pub mod Parts
pub mod Safe
use rw_checks_codecollection.Prelude.{
  ℕ, ◌≡◌, refl, sym, ap, ◌∙◌, subst, ◌⊎◌, inl, inr, Bool, true, false, not, ◌&&◌, ◌||◌, List, [],
  ◌∷◌, ◌++◌, Option, none, some, ◌==◌, if◌then◌else◌, Text, codes, text_eq, text_eq_iff, map, arith,
  Bool-cases, if_intro, All,
}
use rw_checks_codecollection.Paths.{forward_slash, drop_dot_slash, split_slash, no_part, dot_dot}

-- A part ".." where no normal part stands before it is kept, and one behind a normal part removes that.
-- The parts are on a stack, the last one on top.
unfoldable pub push_part : Bool → Text → List Text → List Text
push_part absolute part [] =
    if no_part part then [] else if text_eq part dot_dot && absolute then [] else part ∷ []
push_part absolute part (top ∷ stack) =
    if no_part part
    then top ∷ stack
    else if not (text_eq part dot_dot) || text_eq top dot_dot
    then part ∷ top ∷ stack
    else stack

unfoldable pub norm_parts : Bool → List Text → List Text → List Text
unfolding push_part
norm_parts absolute stack [] = stack
norm_parts absolute stack (part ∷ parts) = norm_parts absolute (push_part absolute part stack) parts

abbrev pub reverse_onto : List Text → List Text → List Text
reverse_onto [] acc = acc
reverse_onto (x ∷ xs) acc = reverse_onto xs (x ∷ acc)

-- The parts of posixpath.normpath(path).
unfoldable pub path_parts : Bool → Text → List Text
unfolding norm_parts split_slash
path_parts absolute path = reverse_onto (norm_parts absolute [] (split_slash path)) []

-- "/".join(parts), or "." where there is none
abbrev pub join_parts : List Text → Text
join_parts [] = 46 ∷ []
join_parts (p ∷ []) = p
join_parts (p ∷ q ∷ ps) = p ++ 47 ∷ join_parts (q ∷ ps)

abbrev pub is_absolute : Text → Bool
is_absolute [] = false
is_absolute (c ∷ p) = c == 47

abbrev pub joined_or_empty : List Text → Text
joined_or_empty [] = []
joined_or_empty (p ∷ ps) = join_parts (p ∷ ps)

-- The slashes that normpath keeps in front: two stay two, more become one.
abbrev pub leading : Text → Text
leading (c ∷ d ∷ e ∷ p) =
    if c == 47 then (if d == 47 && not (e == 47) then 47 ∷ 47 ∷ [] else 47 ∷ []) else []
leading (c ∷ d ∷ []) = if c == 47 then (if d == 47 then 47 ∷ 47 ∷ [] else 47 ∷ []) else []
leading (c ∷ []) = if c == 47 then 47 ∷ [] else []
leading [] = []

abbrev pub dot_if_empty : Text → Text
dot_if_empty [] = 46 ∷ []
dot_if_empty (c ∷ p) = c ∷ p

-- posixpath.normpath
unfoldable pub normpath : Text → Text
unfolding path_parts
normpath path = dot_if_empty (leading path ++ joined_or_empty (path_parts (is_absolute path) path))

-- The parts of posixpath.relpath, of those of two absolute paths.
unfoldable pub relative_parts : List Text → List Text → List Text
unfolding text_eq
relative_parts [] path = path
relative_parts (r ∷ root) [] = map (λ _. dot_dot) (r ∷ root)
relative_parts (r ∷ root) (p ∷ path) =
    let deeper = relative_parts root path in
    if text_eq r p then deeper else map (λ _. dot_dot) (r ∷ root) ++ p ∷ path

-- p == ".." or p.startswith("../")
unfoldable pub climbs : Text → Bool
climbs (c ∷ d ∷ []) = c == 46 && d == 46
climbs (c ∷ d ∷ e ∷ p) = c == 46 && d == 46 && e == 47
climbs _ = false

abbrev pub is_dot : Text → Bool
is_dot (c ∷ []) = c == 46
is_dot _ = false

module _ (urlparse : Text → Option (Text × Text)) (unquote : Text → Text) (abs_root : Text) where
  -- The path that the uri names: none for another scheme.
  abbrev pub located : Text → Option (Text × Text) → Option Text
  located uri none = some uri
  located uri (some (scheme, [])) =
      if text_eq scheme [] || text_eq scheme (codes "file") then some uri else none
  located uri (some (scheme, c ∷ path)) =
      if text_eq scheme [] || text_eq scheme (codes "file") then some (unquote (c ∷ path)) else none

  abbrev pub clean_relative : Text → Option Text
  clean_relative p =
      let clean = normpath (drop_dot_slash p) in
      if is_dot clean || climbs clean then none else some clean

  abbrev pub clean_absolute : Text → Option Text
  clean_absolute p =
      let rel = join_parts (relative_parts (path_parts true abs_root) (path_parts true p)) in
      if climbs rel then none else some (drop_dot_slash rel)

  abbrev pub placed : Option Text → Option Text
  placed none = none
  placed (some p) =
      let q = map forward_slash p in if is_absolute q then clean_absolute q else clean_relative q

  unfoldable pub normalize_uri : Text → Option Text
  unfolding normpath path_parts relative_parts climbs text_eq
  normalize_uri [] = none
  normalize_uri (c ∷ uri) = placed (located (c ∷ uri) (urlparse (c ∷ uri)))
