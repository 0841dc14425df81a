-- ===== src/Paths.antt =====
-- normalize_path of sdk/runwhen_capability/findings.py, and the parts of a POSIX path.
use rw_checks_codecollection.Prelude.{
  ℕ, inl, inr, ◌≡◌, refl, Bool, true, false, ◌&&◌, List, [], ◌∷◌, ◌==◌, if◌then◌else◌, Text, arith,
  map, any, All, Bool-cases,
}

-- path.replace("\\", "/")
abbrev pub forward_slash : ℕ → ℕ
forward_slash c = if c == 92 then 47 else c

abbrev pub drop_dot_slash : Text → Text
drop_dot_slash (c ∷ d ∷ p) = if c == 46 && d == 47 then p else c ∷ d ∷ p
drop_dot_slash p = p

unfoldable pub normalize_path : Text → Text
normalize_path path = drop_dot_slash (map forward_slash path)

abbrev pub split_step : ℕ → List Text → List Text
split_step c [] = (c ∷ []) ∷ []
split_step c (p ∷ ps) = (c ∷ p) ∷ ps

-- path.split("/")
unfoldable pub split_slash : Text → List Text
split_slash [] = [] ∷ []
split_slash (c ∷ s) = let rest = split_slash s in if c == 47 then [] ∷ rest else split_step c rest

-- A part that is empty or "." is none.
abbrev pub no_part : Text → Bool
no_part [] = true
no_part (c ∷ []) = c == 46
no_part (c ∷ d ∷ s) = false

-- The last part, or `last` if there is none.
abbrev pub last_part : Text → List Text → Text
last_part last [] = last
last_part last (p ∷ ps) = if no_part p then last_part last ps else last_part p ps

-- Path(path).name
unfoldable pub path_name : Text → Text
unfolding split_slash
path_name path = last_part [] (split_slash path)

abbrev pub dot_dot : Text
dot_dot = 46 ∷ 46 ∷ []

abbrev pub has_slash : Text → Bool
has_slash t = any (λ c. c == 47) t

abbrev pub IsPart : Text → Type 0
IsPart t = has_slash t ≡ false

split_step-parts :
    (c : ℕ) (ps : List Text) → (c == 47) ≡ false → All IsPart ps → All IsPart (split_step c ps)
split_step-parts c [] h k = (ground arith, tt)
split_step-parts c (p ∷ ps) h (k, ks) = (ground arith, ks)

pub split_slash-parts : (t : Text) → All IsPart (split_slash t)
unfolding split_slash
split_slash-parts [] = (refl, tt)
split_slash-parts (c ∷ s) = elim (Bool-cases (c == 47)) [
  | inl slash ↦ rw slash (refl, split_slash-parts s)
  | inr other ↦ rw other (split_step-parts c (split_slash s) other (split_slash-parts s))
]
