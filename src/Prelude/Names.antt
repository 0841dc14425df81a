-- ===== src/Prelude/Names.antt =====
-- Python's sorted() of a directory's names, each with what belongs to it.
use mathlib.Core.Logic.{inl, inr}
use mathlib.Core.List.{List, [], ◌∷◌}
use rw_checks_codecollection.Prelude.Tests.{if◌then◌else◌, Bool-cases}
use rw_checks_codecollection.Prelude.Lists.{In, here, there}
use rw_checks_codecollection.Prelude.Texts.{Text, text_leb}

abbrev pub Named {ℓ} : Type ℓ → Type ℓ
Named A = Text × A

unfoldable pub insert_name {ℓ} : {A : Type ℓ} → Named A → List (Named A) → List (Named A)
unfolding text_leb
insert_name e [] = e ∷ []
insert_name e (f ∷ fs) =
    let rest = insert_name e fs in if text_leb e.0 f.0 then e ∷ f ∷ fs else f ∷ rest

-- The names of a directory are distinct, so how ties are ordered does not matter.
unfoldable pub sort_names {ℓ} : {A : Type ℓ} → List (Named A) → List (Named A)
unfolding insert_name
sort_names [] = []
sort_names (e ∷ es) = insert_name e (sort_names es)

module _ {ℓ} {A : Type ℓ} where
  In-insert_name_here : (e : Named A) (es : List (Named A)) → In e (insert_name e es)
  unfolding insert_name
  In-insert_name_here e [] = here
  In-insert_name_here e (f ∷ fs) = elim (Bool-cases (text_leb e.0 f.0)) [
    | inl le ↦ rw le here
    | inr gt ↦ rw gt (there (In-insert_name_here e fs))
  ]

  In-insert_name_there :
      {d : Named A} (e : Named A) (es : List (Named A)) → In d es → In d (insert_name e es)
  unfolding insert_name
  In-insert_name_there e [] h = elim h [ ]
  In-insert_name_there e (f ∷ fs) here = elim (Bool-cases (text_leb e.0 f.0)) [
    | inl le ↦ rw le (there here)
    | inr gt ↦ rw gt here
  ]
  In-insert_name_there e (f ∷ fs) (there h) =
      let k = In-insert_name_there e fs h in
      elim (Bool-cases (text_leb e.0 f.0)) [
        | inl le ↦ rw le (there (there h))
        | inr gt ↦ rw gt (there k)
      ]

  -- Sorting loses nothing.
  pub In-sort_names : {d : Named A} (es : List (Named A)) → In d es → In d (sort_names es)
  unfolding sort_names
  In-sort_names [] h = elim h [ ]
  In-sort_names (e ∷ es) here = In-insert_name_here e (sort_names es)
  In-sort_names (e ∷ es) (there h) = In-insert_name_there e (sort_names es) (In-sort_names es h)

-- Two lists of the same names whose values correspond.
pub data Matched {A B : Type 0} (R : A → B → Type 0)
    : List (Named A) → List (Named B) → Type 0 where
  done : Matched R [] []
  both :
      {name : Text} {a : A} {b : B} {xs : List (Named A)} {ys : List (Named B)}
      → R a b
      → Matched R xs ys
      → Matched R ((name, a) ∷ xs) ((name, b) ∷ ys)

module _ {A B : Type 0} {R : A → B → Type 0} where
  insert_name-Matched :
      (name : Text) (a : A) (b : B) {xs : List (Named A)} {ys : List (Named B)}
      → R a b
      → Matched R xs ys
      → Matched R (insert_name (name, a) xs) (insert_name (name, b) ys)
  unfolding insert_name
  insert_name-Matched name a b r done = both r done
  insert_name-Matched name a b r (both {name = other} q m) =
      let k = insert_name-Matched name a b r m in
      elim (Bool-cases (text_leb name other)) [
        | inl le ↦ rw le (both r (both q m))
        | inr gt ↦ rw gt (both q k)
      ]

  -- Sorting by name keeps what corresponds.
  pub sort_names-Matched :
      {xs : List (Named A)} {ys : List (Named B)}
      → Matched R xs ys
      → Matched R (sort_names xs) (sort_names ys)
  unfolding sort_names
  sort_names-Matched done = done
  sort_names-Matched (both {name = name} {a = a} {b = b} r m) =
      insert_name-Matched name a b r (sort_names-Matched m)
