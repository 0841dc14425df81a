-- ===== src/Findings/Uri/Parts.antt =====
-- Splitting at slashes and joining, and where normalised parts may be "..".
use rw_checks_codecollection.Prelude.{
  ◌≡◌, refl, ap, ◌⊎◌, inl, inr, Bool, true, false, not, ◌&&◌, ◌||◌, List, [], ◌∷◌, ◌++◌, ◌==◌, Text,
  text_eq, text_eq_iff, text_eq_comm, any, map, arith, Bool-cases, All,
}
use rw_checks_codecollection.Paths.{
  split_step, split_slash, no_part, dot_dot, IsPart, split_slash-parts,
}
use rw_checks_codecollection.Findings.Uri.{
  push_part, norm_parts, reverse_onto, path_parts, join_parts, relative_parts, climbs,
}

split_slash-first : (p t : Text) → IsPart p → split_slash (p ++ 47 ∷ t) ≡ p ∷ split_slash t
unfolding split_slash
split_slash-first [] t h = refl
split_slash-first (c ∷ p) t h =
    let other : (c == 47) ≡ false = ground arith in
    rw other (ap (split_step c) (split_slash-first p t (ground arith)))

split_slash-last : (p : Text) → IsPart p → split_slash p ≡ p ∷ []
unfolding split_slash
split_slash-last [] h = refl
split_slash-last (c ∷ p) h =
    let other : (c == 47) ≡ false = ground arith in
    rw other (ap (split_step c) (split_slash-last p (ground arith)))

-- No part of the path is "..".
unfoldable pub stays : Text → Bool
stays path = not (any (text_eq dot_dot) (split_slash path))

abbrev pub IsNormal : Text → Type 0
IsNormal p = IsPart p × (text_eq p dot_dot ≡ false)

pub join_parts-stays : (ps : List Text) → All IsNormal ps → stays (join_parts ps) ≡ true
unfolding stays text_eq split_slash
join_parts-stays [] h = refl
join_parts-stays (p ∷ []) ((part, normal), _) =
    rw (split_slash-last p part) (ground (arith, text_eq_comm dot_dot p))
join_parts-stays (p ∷ q ∷ ps) ((part, normal), hs) =
    rw (split_slash-first p (join_parts (q ∷ ps)) part)
      (ground (arith, text_eq_comm dot_dot p, join_parts-stays (q ∷ ps) hs))

abbrev IsDots : Text → Type 0
IsDots p = text_eq p dot_dot ≡ true

-- The bottom of a stack of parts is "..".
abbrev rooted : List Text → Bool
rooted [] = false
rooted (p ∷ []) = text_eq p dot_dot
rooted (p ∷ q ∷ ps) = rooted (q ∷ ps)

-- A stack is ".." all through or nowhere, and of an absolute path nowhere.
record IsSettled (absolute : Bool) (stack : List Text) : Type 0 where
  parts : All IsPart stack
  level : rooted stack ≡ false → All IsNormal stack
  bottom : absolute ≡ true → rooted stack ≡ false

tail-IsSettled :
    (absolute : Bool) (top : Text) (stack : List Text)
    → IsSettled absolute (top ∷ stack)
    → IsSettled absolute stack
tail-IsSettled absolute top [] h = record { parts = tt; level = λ k. tt; bottom = λ k. refl }
tail-IsSettled absolute top (q ∷ ps) h = record {
  parts = h.parts.1;
  level = λ k. (h.level k).1;
  bottom = h.bottom;
}

one-IsSettled :
    (absolute : Bool) (part : Text)
    → IsPart part
    → (text_eq part dot_dot && absolute) ≡ false
    → IsSettled absolute (part ∷ [])
one-IsSettled absolute part is h = record {
  parts = (is, tt);
  level = λ k. ((is, k), tt);
  bottom = λ k. ground arith;
}

more-IsSettled :
    (absolute : Bool) (part top : Text) (stack : List Text)
    → IsPart part
    → IsSettled absolute (top ∷ stack)
    → (not (text_eq part dot_dot) || text_eq top dot_dot) ≡ true
    → IsSettled absolute (part ∷ top ∷ stack)
more-IsSettled absolute part top stack is h c = record {
  parts = (is, h.parts);
  level = λ k. let hs = h.level k in ((is, ground (arith, hs.0.1)), hs);
  bottom = h.bottom;
}

empty-IsSettled : (absolute : Bool) → IsSettled absolute []
empty-IsSettled absolute = record { parts = tt; level = λ k. tt; bottom = λ k. refl }

push_part-IsSettled :
    (absolute : Bool) (part : Text) (stack : List Text)
    → IsPart part
    → IsSettled absolute stack
    → IsSettled absolute (push_part absolute part stack)
unfolding push_part
push_part-IsSettled absolute part [] is h = elim (Bool-cases (no_part part)) [
  | inl nothing ↦ rw nothing h
  | inr there ↦ elim (Bool-cases (text_eq part dot_dot && absolute)) [
    | inl up ↦ rw (there, up) h
    | inr plain ↦ rw (there, plain) (one-IsSettled absolute part is plain)
  ]
]
push_part-IsSettled absolute part (top ∷ stack) is h = elim (Bool-cases (no_part part)) [
  | inl nothing ↦ rw nothing h
  | inr there ↦ elim (Bool-cases (not (text_eq part dot_dot) || text_eq top dot_dot)) [
    | inl push ↦ rw (there, push) (more-IsSettled absolute part top stack is h push)
    | inr pop ↦ rw (there, pop) (tail-IsSettled absolute top stack h)
  ]
]

norm_parts-IsSettled :
    (absolute : Bool) (stack parts : List Text)
    → All IsPart parts
    → IsSettled absolute stack
    → IsSettled absolute (norm_parts absolute stack parts)
unfolding norm_parts
norm_parts-IsSettled absolute stack [] is h = h
norm_parts-IsSettled absolute stack (part ∷ parts) (p, ps) h =
    norm_parts-IsSettled absolute (push_part absolute part stack) parts ps
      (push_part-IsSettled absolute part stack p h)

reverse_onto-All :
    (P : Text → Type 0) (xs acc : List Text) → All P xs → All P acc → All P (reverse_onto xs acc)
reverse_onto-All P [] acc h k = k
reverse_onto-All P (x ∷ xs) acc (h, hs) k = reverse_onto-All P xs (x ∷ acc) hs (h, k)

-- A stack with ".." at the bottom is a path that starts with it.
reverse_onto-rooted :
    (xs acc : List Text)
    → rooted xs ≡ true
    → (rest : List Text) × (reverse_onto xs acc ≡ dot_dot ∷ rest)
reverse_onto-rooted [] acc h = cc
reverse_onto-rooted (x ∷ []) acc h = (acc, ap (λ p. p ∷ acc) ((text_eq_iff x dot_dot).0 h))
reverse_onto-rooted (x ∷ y ∷ xs) acc h = reverse_onto-rooted (y ∷ xs) (x ∷ acc) h

path_stack : Bool → Text → List Text
path_stack absolute path = norm_parts absolute [] (split_slash path)

-- The parts of a relative path start with "..", or none of them is that; those of an absolute path never
-- are.
pub path_parts-relative :
    (path : Text)
    → All IsNormal (path_parts false path)
      ⊎ ((rest : List Text) × (path_parts false path ≡ dot_dot ∷ rest))
unfolding path_parts path_stack
path_parts-relative path =
    let settled =
      norm_parts-IsSettled false [] (split_slash path) (split_slash-parts path)
        (empty-IsSettled false) in
    elim (Bool-cases (rooted (path_stack false path))) [
      | inl up ↦ inr (reverse_onto-rooted (path_stack false path) [] up)
      | inr level ↦
          inl (reverse_onto-All IsNormal (path_stack false path) [] (settled.level level) tt)
    ]

pub path_parts-absolute : (path : Text) → All IsNormal (path_parts true path)
unfolding path_parts
path_parts-absolute path =
    let settled =
      norm_parts-IsSettled true [] (split_slash path) (split_slash-parts path)
        (empty-IsSettled true) in
    reverse_onto-All IsNormal (norm_parts true [] (split_slash path)) []
      (settled.level (settled.bottom refl)) tt

pub relative_parts-IsNormal :
    (root path : List Text)
    → All IsNormal path
    → All IsNormal (relative_parts root path)
      ⊎ ((rest : List Text) × (relative_parts root path ≡ dot_dot ∷ rest))
unfolding relative_parts
relative_parts-IsNormal [] path h = inl h
relative_parts-IsNormal (r ∷ root) [] h = inr (map (λ _. dot_dot) root, refl)
relative_parts-IsNormal (r ∷ root) (p ∷ path) (h, hs) = elim (Bool-cases (text_eq r p)) [
  | inl same ↦ rw same (relative_parts-IsNormal root path hs)
  | inr apart ↦ rw apart (inr (map (λ _. dot_dot) root ++ p ∷ path, refl))
]

-- A path that starts with ".." climbs.
pub join_parts-climbs : (rest : List Text) → climbs (join_parts (dot_dot ∷ rest)) ≡ true
unfolding climbs
join_parts-climbs [] = refl
join_parts-climbs (p ∷ rest) = refl
