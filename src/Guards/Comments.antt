-- ===== src/Guards/Comments.antt =====
-- _strip_hcl_comments and _strip_jsonc_comments of capabilities/rw-checks/guards.py. Where the source looks for
-- the end of a comment with str.find, the loop goes on in a mode of its own.
pub mod Pieces
use rw_checks_codecollection.Prelude.{
  ℕ, Bool, true, false, not, ◌&&◌, ◌||◌, List, [], ◌∷◌, Option, none, some, ◌==◌, if◌then◌else◌,
  Text,
}

-- Where the scan stands: in code, in a string, behind its backslash, in a line comment, at the second character
-- of the opening of a block comment, in a block comment, at the second character of its closing.
pub data Mode : Type 0 where
  code quoted escaped line opening block closing : Mode

abbrev pub next_is : ℕ → Text → Bool
next_is c [] = false
next_is c (d ∷ s) = c == d

-- text[i] == "#" or text[i : i + 2] == "//"
abbrev pub opens_line : Bool → ℕ → Text → Bool
opens_line hash c s = (hash && c == 35) || (c == 47 && next_is 47 s)

-- text[i : i + 2] == "/*"
abbrev pub opens_block : ℕ → Text → Bool
opens_block c s = c == 47 && next_is 42 s

abbrev pub after_code : Bool → Bool → Bool → Mode
after_code true l b = quoted
after_code false true b = line
after_code false false true = opening
after_code false false false = code

-- The mode behind the character `c`, before `s`. `hash` says that "#" opens a comment, as in HCL.
abbrev pub next_mode : Bool → Mode → ℕ → Text → Mode
next_mode hash code c s = after_code (c == 34) (opens_line hash c s) (opens_block c s)
next_mode hash quoted c s = if c == 92 then escaped else if c == 34 then code else quoted
next_mode hash escaped c s = quoted
next_mode hash line c s = if c == 10 then code else line
next_mode hash opening c s = block
next_mode hash block c s = if c == 42 && next_is 47 s then closing else block
next_mode hash closing c s = code

-- Whether `c` goes to the output.
abbrev pub is_kept : Bool → Mode → ℕ → Text → Bool
is_kept hash code c s = c == 34 || not (opens_line hash c s || opens_block c s)
is_kept hash quoted c s = true
is_kept hash escaped c s = true
is_kept hash line c s = c == 10
is_kept hash _ c s = false

abbrev pub keep : Bool → ℕ → Text → Text
keep true c out = c ∷ out
keep false c out = out

unfoldable pub strip_from : Bool → Mode → Text → Text
strip_from hash m [] = []
strip_from hash m (c ∷ s) = keep (is_kept hash m c s) c (strip_from hash (next_mode hash m c s) s)

-- The mode at the end of the text.
unfoldable pub last_mode : Bool → Mode → Text → Mode
last_mode hash m [] = m
last_mode hash m (c ∷ s) = last_mode hash (next_mode hash m c s) s

abbrev pub in_block : Mode → Bool
in_block opening = true
in_block block = true
in_block closing = true
in_block _ = false

-- _strip_jsonc_comments
unfoldable pub strip_jsonc : Text → Text
unfolding strip_from
strip_jsonc text = strip_from false code text

-- _strip_hcl_comments: None where a block comment is not closed. `find` gives -1 there.
unfoldable pub strip_hcl : Text → Option Text
unfolding strip_from last_mode
strip_hcl text =
    if in_block (last_mode true code text) then none else some (strip_from true code text)
