-- ===== src/Prelude/Keys.antt =====
-- Lists of texts as Python's ordered sets: membership, removal, and no key twice.
use Prim.Native.Nat.{◌+◌, ◌≤◌}
use mathlib.Core.Path.{◌≡◌, refl, ap}
use mathlib.Core.Logic.{inl, inr}
use mathlib.Core.Bool.{Bool, true, false, not, ◌&&◌, ◌||◌}
use mathlib.Core.List.{List, [], ◌∷◌, ◌++◌}
use native.Mathlib.Omega.{arith}
use rw_checks_codecollection.Prelude.Tests.{if◌then◌else◌, Bool-cases, if_intro}
use rw_checks_codecollection.Prelude.Lists.{length}
use rw_checks_codecollection.Prelude.Texts.{Text, text_eq, text_eq_iff}

unfoldable pub mem : Text → List Text → Bool
mem x [] = false
mem x (y ∷ ys) = text_eq x y || mem x ys

unfoldable pub remove : Text → List Text → List Text
remove x [] = []
remove x (y ∷ ys) = let rest = remove x ys in if text_eq x y then rest else y ∷ rest

-- No key stands twice.
abbrev pub IsUnique : List Text → Type 0
IsUnique [] = Unit
IsUnique (x ∷ xs) = (mem x xs ≡ false) × IsUnique xs

pub text_eq_refl : (s : Text) → text_eq s s ≡ true
text_eq_refl s = (text_eq_iff s s).1 refl

pub text_eq_comm : (s t : Text) → text_eq s t ≡ text_eq t s
unfolding text_eq
text_eq_comm [] [] = refl
text_eq_comm [] (d ∷ t) = refl
text_eq_comm (c ∷ s) [] = refl
text_eq_comm (c ∷ s) (d ∷ t) = ground (arith, text_eq_comm s t)

-- What equals `z` does not equal what differs from it.
text_eq-apart : (x y z : Text) → text_eq y z ≡ false → (text_eq x z && text_eq x y) ≡ false
text_eq-apart x y z h = elim (Bool-cases (text_eq x z)) [
  | inl same ↦
      let e : x ≡ z = (text_eq_iff x z).0 same in
      ground (arith, ap (λ t. text_eq t y) e, text_eq_comm z y)
  | inr apart ↦ ground (arith, apart)
]

-- What lies in a list differs from what does not.
text_eq-mem :
    (x y : Text) (ys : List Text) → mem x ys ≡ true → mem y ys ≡ false → text_eq x y ≡ false
text_eq-mem x y ys h k = elim (Bool-cases (text_eq x y)) [
  | inl same ↦ cc (ap (λ t. mem t ys) ((text_eq_iff x y).0 same))
  | inr apart ↦ apart
]

pub mem-remove :
    (x y : Text) (ys : List Text) → mem x (remove y ys) ≡ (mem x ys && not (text_eq x y))
unfolding mem remove
mem-remove x y [] = refl
mem-remove x y (z ∷ zs) = elim (Bool-cases (text_eq y z)) [
  | inl same ↦
      rw same (ground (arith, mem-remove x y zs, ap (text_eq x) ((text_eq_iff y z).0 same)))
  | inr apart ↦ rw apart (ground (arith, mem-remove x y zs, text_eq-apart x y z apart))
]

pub mem-append : (x : Text) (ys zs : List Text) → mem x (ys ++ zs) ≡ (mem x ys || mem x zs)
unfolding mem
mem-append x [] zs = refl
mem-append x (y ∷ ys) zs = ground (arith, mem-append x ys zs)

pub remove-IsUnique : (x : Text) (ys : List Text) → IsUnique ys → IsUnique (remove x ys)
unfolding remove
remove-IsUnique x [] h = tt
remove-IsUnique x (y ∷ ys) (new, rest) =
    if_intro IsUnique (text_eq x y) (remove-IsUnique x ys rest)
      (ground (arith, mem-remove y x ys), remove-IsUnique x ys rest)

pub snoc-IsUnique :
    (x : Text) (ys : List Text) → IsUnique ys → mem x ys ≡ false → IsUnique (ys ++ x ∷ [])
unfolding mem
snoc-IsUnique x [] h new = (refl, tt)
snoc-IsUnique x (y ∷ ys) (apart, rest) new = (
  ground (arith, mem-append y ys (x ∷ []), text_eq_comm y x),
  snoc-IsUnique x ys rest (ground arith),
)

-- A key that is not there is removed without effect.
pub remove-absent : (x : Text) (ys : List Text) → mem x ys ≡ false → remove x ys ≡ ys
unfolding mem remove
remove-absent x [] h = refl
remove-absent x (y ∷ ys) h =
    let apart : text_eq x y ≡ false = ground arith in
    rw apart (ap (◌∷◌ y) (remove-absent x ys (ground arith)))

length-remove : (x : Text) (ys : List Text) → length (remove x ys) ≤ length ys
unfolding remove
length-remove x [] = omega arith
length-remove x (y ∷ ys) = ground (arith, length-remove x ys)

length-remove-mem :
    (x : Text) (ys : List Text) → mem x ys ≡ true → length (remove x ys) + 1 ≤ length ys
unfolding remove mem
length-remove-mem x [] h = cc
length-remove-mem x (y ∷ ys) h = ground (arith, length-remove x ys, length-remove-mem x ys)

-- Different keys that all lie in a list are no more than that list has.
pub length-subset :
    (xs ys : List Text)
    → IsUnique xs
    → ((x : Text) → mem x xs ≡ true → mem x ys ≡ true)
    → length xs ≤ length ys
unfolding mem
length-subset [] ys h sub = omega arith
length-subset (x ∷ xs) ys (new, rest) sub = omega (
  arith,
  length-subset xs (remove x ys) rest (λ y k. within y k),
  length-remove-mem x ys (sub x (ground (arith, text_eq_refl x))),
)
  where
    within : (y : Text) → mem y xs ≡ true → mem y (remove x ys) ≡ true
    within y k =
        ground (arith, mem-remove y x ys, sub y (ground arith), k, text_eq-mem y x xs k new)
