-- ===== src/RepoFs/Reach.antt =====
-- What lies in a directory, for the walks of sdk/runwhen_capability/repo_fs.py, and the cap of the
-- unreadable paths.
use rw_checks_codecollection.Prelude.{
  ◌≤◌, inl, inr, List, [], ◌∷◌, ltb, ltb→lt, Text, length, length-append, Bool-cases, In, here,
  there, In-append_left, In-append_right, Named, arith,
}
use rw_checks_codecollection.RepoFs.Grep.{max_unreadable_paths, Unreadable, add}
use rw_checks_codecollection.RepoFs.Walk.{Node, Entries, entry, joined}

-- A name of a directory, and what stands there.
pub data Has (name : Text) (node : Node) : Entries → Type 0 where
  first : {es : Entries} → Has name node (entry name node es)
  later :
      {other : Text} {there' : Node} {es : Entries}
      → Has name node es
      → Has name node (entry other there' es)

pub In-joined {ℓ} :
    {A : Type ℓ} {a : A} (name : Text) (xs : List A) {vs : List (Named (List A))}
    → In (name, xs) vs
    → In a xs
    → In a (joined vs)
In-joined name xs here h = In-append_left _ _ h
In-joined name xs (there {x = (other, ys)} v) h = In-append_right ys _ (In-joined name xs v h)

abbrev pub IsCapped : Unreadable → Type 0
IsCapped u = length u.paths ≤ max_unreadable_paths

-- _UnreadablePaths.add never goes past its cap.
pub add-IsCapped : (rel : Text) (u : Unreadable) → IsCapped u → IsCapped (add rel u)
unfolding add
add-IsCapped rel u h = elim (Bool-cases (ltb (length u.paths) max_unreadable_paths)) [
  | inl room ↦ rw room (omega (arith, length-append u.paths (rel ∷ []), ltb→lt _ _ room))
  | inr full ↦ rw full h
]
