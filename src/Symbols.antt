-- ===== src/Symbols.antt =====
-- sdk/runwhen_capability/symbols.py: the regular expressions of the defs and refs ops. Matching is
-- Python's `re`, taken as the parameter `search`, `re.search(pattern, line) is not None`.
use rw_checks_codecollection.Prelude.{
  ℕ, Bool, List, [], ◌∷◌, ◌++◌, Text, codes, ◌==◌, any, if◌then◌else◌,
}

-- The characters that re.escape puts a backslash before.
unfoldable pub is_special : ℕ → Bool
is_special c = any (λ d. c == d) (9 ∷ 10 ∷ 11 ∷ 12 ∷ 13 ∷ codes "()[]{}?*+-|^$\\.&~# ")

-- re.escape
unfoldable pub re_escape : Text → Text
unfolding is_special
re_escape [] = []
re_escape (c ∷ s) = if is_special c then 92 ∷ c ∷ re_escape s else c ∷ re_escape s

abbrev pub left_boundary : Text → Text
left_boundary symbol = codes "(?<![\\w$])" ++ re_escape symbol

abbrev pub right_boundary : Text
right_boundary = codes "(?![\\w$])"

abbrev alternation : List Text → Text
alternation [] = []
alternation (alt ∷ []) = codes "(?:" ++ alt ++ codes ")"
alternation (alt ∷ alt' ∷ alts) = codes "(?:" ++ alt ++ codes ")|" ++ alternation (alt' ∷ alts)

unfoldable pub definition_pattern : Text → Text
unfolding re_escape
definition_pattern symbol =
    let x = re_escape symbol in
    alternation (
      (codes "\\bdef\\s+" ++ x ++ right_boundary)
      ∷ (codes "\\bclass\\s+" ++ x ++ right_boundary)
      ∷ (codes "\\basync\\s+def\\s+" ++ x ++ right_boundary)
      ∷ (codes "\\bfunction\\s+" ++ x ++ right_boundary)
      ∷ (codes "\\b(?:const|let|var)\\s+" ++ x ++ codes "\\s*[:=]")
      ∷ (codes "\\b(?:interface|type|enum)\\s+" ++ x ++ right_boundary)
      ∷ (codes "\\bfunc\\s+(?:\\(.*\\)\\s+)?" ++ x ++ codes "[\\[(]")
      ∷ (codes "\\btype\\s+" ++ x ++ codes "\\s+(?:struct|interface)" ++ right_boundary)
      ∷ [])

unfoldable pub reference_pattern : Text → Text
unfolding re_escape
reference_pattern symbol = left_boundary symbol ++ right_boundary

unfoldable pub is_definition_line : (Text → Text → Bool) → Text → Text → Bool
is_definition_line search line symbol = search (definition_pattern symbol) line
