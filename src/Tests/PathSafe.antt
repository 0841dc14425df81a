-- ===== src/Tests/PathSafe.antt =====
-- safe_path of sdk/runwhen_capability/pathsafe.py at concrete paths.
use rw_checks_codecollection.Prelude.{
  ◌≡◌, refl, ◌⊎◌, false, List, [], ◌∷◌, ◌++◌, some, if◌then◌else◌, Text, codes, text_eq, All,
}
use rw_checks_codecollection.Paths.{split_slash}
use rw_checks_codecollection.Faults.{Exn, other, ok, raise}
use rw_checks_codecollection.Findings.Uri.{
  push_part, norm_parts, path_parts, normpath, relative_parts, climbs,
}
use rw_checks_codecollection.PathSafe.{
  Resolution, reaches, throws, confined_to, joined_parts, safe_path,
}
use rw_checks_codecollection.PathSafe.Confined.{
  IsUnder, IsNotUp, StaysInside, safe_path-confined, safe_path-raise,
}

abbrev tree : List Text
tree = codes "t" ∷ []

abbrev loop_error : Exn
loop_error = record { kind = other; message = codes "Symlink loop" }

-- A tree behind a link, where every path is there and one is a loop of links.
abbrev resolve : List Text → Resolution
resolve [] = reaches []
resolve (p ∷ []) = reaches (codes "real" ∷ [])
resolve (p ∷ q ∷ ps) =
    if text_eq q (codes "loop") then throws loop_error else reaches (codes "real" ∷ q ∷ ps)

safe_path_inside :
    safe_path resolve tree (codes "a/../b.py") ≡ ok (some (codes "t" ∷ codes "b.py" ∷ []))
unfolding safe_path normpath path_parts norm_parts push_part split_slash text_eq climbs confined_to
    relative_parts
safe_path_inside = refl

safe_path_loop : safe_path resolve tree (codes "loop") ≡ raise loop_error
unfolding safe_path normpath path_parts norm_parts push_part split_slash text_eq climbs confined_to
    relative_parts
safe_path_loop = refl

safe_path-confined_example :
    ((rel : List Text) × (codes "t" ∷ codes "b.py" ∷ [] ≡ tree ++ rel) × All IsNotUp rel)
    × IsUnder tree (codes "t" ∷ codes "b.py" ∷ [])
    × StaysInside resolve tree (codes "t" ∷ codes "b.py" ∷ [])
safe_path-confined_example =
    safe_path-confined resolve tree (codes "a/../b.py") (codes "t" ∷ codes "b.py" ∷ [])
      safe_path_inside

safe_path-raise_example :
    (climbs (normpath (codes "loop")) ≡ false)
    × ((resolve (tree ++ joined_parts (normpath (codes "loop"))) ≡ throws loop_error)
        ⊎ (resolve tree ≡ throws loop_error))
safe_path-raise_example = safe_path-raise resolve tree (codes "loop") loop_error safe_path_loop
