-- ===== src/Prelude/Texts.antt =====
-- Python's `str` as the list of its code points, and its length in UTF-8.
use Prim.Native.Nat.{ℕ, zero, suc, ◌+◌, ◌-◌, ◌/◌, ◌%◌, ◌≤◌}
use Prim.Native.Char.{code}
use Prim.Native.String.{String}
use mathlib.Core.Path.{◌≡◌, refl}
use mathlib.Core.Bool.{Bool, true, false, ◌&&◌, ◌||◌}
use mathlib.Core.Logic.{◌↔◌}
use mathlib.Core.List.{List, [], ◌∷◌, ◌++◌}
use native.Mathlib.Omega.{arith}
use rw_checks_codecollection.Prelude.Tests.{ltb, leb, ◌==◌, if◌then◌else◌}
use rw_checks_codecollection.Prelude.Lists.{length, length-append}

abbrev pub Text : Type 0
Text = List ℕ

-- The text of a literal. `String` has its own `[]` and `∷`.
abbrev pub codes : String → Text
codes String.[] = []
codes (String.◌∷◌ c s) = code c ∷ codes s

unfoldable pub text_eq : Text → Text → Bool
text_eq [] [] = true
text_eq [] (d ∷ t) = false
text_eq (c ∷ s) [] = false
text_eq (c ∷ s) (d ∷ t) = c == d && text_eq s t

-- Python's order of strings.
unfoldable pub text_leb : Text → Text → Bool
text_leb [] t = true
text_leb (c ∷ s) [] = false
text_leb (c ∷ s) (d ∷ t) = ltb c d || (c == d && text_leb s t)

pub text_eq_iff : (s t : Text) → (text_eq s t ≡ true) ↔ (s ≡ t)
unfolding text_eq
text_eq_iff [] [] = ground arith
text_eq_iff [] (d ∷ t) = ground arith
text_eq_iff (c ∷ s) [] = ground arith
text_eq_iff (c ∷ s) (d ∷ t) = ground (arith, text_eq_iff s t)

-- len(c.encode("utf-8"))
abbrev pub utf8_width : ℕ → ℕ
utf8_width c = if ltb c 0x80 then 1 else if ltb c 0x800 then 2 else if ltb c 0x10000 then 3 else 4

-- len(s.encode("utf-8"))
abbrev pub byte_len : Text → ℕ
byte_len [] = 0
byte_len (c ∷ s) = utf8_width c + byte_len s

-- s.encode("utf-8")[:budget].decode("utf-8", errors="ignore"): the characters whose bytes all lie
-- below the cut. The bytes of a character that the cut splits decode to nothing.
unfoldable pub clip_bytes : ℕ → Text → Text
clip_bytes budget [] = []
clip_bytes budget (c ∷ s) =
    if leb (utf8_width c) budget then c ∷ clip_bytes (budget - utf8_width c) s else []

pub byte_len-clip_bytes : (budget : ℕ) (s : Text) → byte_len (clip_bytes budget s) ≤ budget
unfolding clip_bytes
byte_len-clip_bytes budget [] = omega arith
byte_len-clip_bytes budget (c ∷ s) = ground (arith, byte_len-clip_bytes (budget - utf8_width c) s)

-- "\n".join(parts)
abbrev pub join_lines : List Text → Text
join_lines [] = []
join_lines (l ∷ []) = l
join_lines (l ∷ m ∷ ls) = l ++ 10 ∷ join_lines (m ∷ ls)

-- str(n) for n >= 0. The fuel `n` is enough, as each round divides by ten.
show_fuel : ℕ → ℕ → Text
show_fuel zero n = (48 + n) ∷ []
show_fuel (suc f) n =
    let rest = show_fuel f (n / 10) in
    if ltb n 10 then (48 + n) ∷ [] else rest ++ (48 + n % 10) ∷ []

unfoldable pub show_ℕ : ℕ → Text
unfolding show_fuel
show_ℕ n = show_fuel n n

show_fuel-pos : (f n : ℕ) → 1 ≤ length (show_fuel f n)
unfolding show_fuel
show_fuel-pos zero n = omega arith
show_fuel-pos (suc f) n = ground (arith, length-append (show_fuel f (n / 10)) ((48 + n % 10) ∷ []))

show_fuel_mono :
    (f g m n : ℕ) → m ≤ n → m ≤ f → n ≤ g → length (show_fuel f m) ≤ length (show_fuel g n)
unfolding show_fuel
show_fuel_mono zero g m n le hf hg = omega (arith, show_fuel-pos g n)
show_fuel_mono (suc f) zero m n le hf hg = ground arith
show_fuel_mono (suc f) (suc g) m n le hf hg = ground (
  arith,
  length-append (show_fuel f (m / 10)) ((48 + m % 10) ∷ []),
  length-append (show_fuel g (n / 10)) ((48 + n % 10) ∷ []),
  show_fuel-pos g (n / 10),
  show_fuel_mono f g (m / 10) (n / 10),
)

-- A larger number has no fewer digits.
pub length-show_ℕ_mono : (m n : ℕ) → m ≤ n → length (show_ℕ m) ≤ length (show_ℕ n)
unfolding show_ℕ
length-show_ℕ_mono m n h = show_fuel_mono m n m n h (omega arith) (omega arith)

pub show_ℕ-two_digits : length (show_ℕ 99) ≡ 2
unfolding show_ℕ
show_ℕ-two_digits = refl
