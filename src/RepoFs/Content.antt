-- ===== src/RepoFs/Content.antt =====
-- The lines that each range of read_ranges holds, of sdk/runwhen_capability/repo_fs.py.
use rw_checks_codecollection.Prelude.{
  ℕ, zero, suc, ◌+◌, ◌-◌, ◌≤◌, ◌<◌, ◌≡◌, refl, ◌∙◌, ap, ap₂, inl, inr, Bool, true, false, ◌||◌,
  List, [], ◌∷◌, ◌++◌, map, min, ltb, ◌==◌, Text, length, take, drop, All, clip_bytes, join_lines,
  utf8_width, arith, Bool-cases, ltb→lt, not_ltb→le, length-take, not, if_intro, subst,
}
use rw_checks_codecollection.Faults.{ok, >>=-eq-ok, if_raise-eq-ok, ok-injective}
use rw_checks_codecollection.Models.{ReadRange, ReadRangesResult}
use rw_checks_codecollection.Query.Fit.{newlines}
use rw_checks_codecollection.Query.Fit.Trim.{IsRange}
use rw_checks_codecollection.RepoFs.Select.{
  read_budget, Selection, select_lines, wanted_lines, Selects, select_lines-Selects,
}
use rw_checks_codecollection.RepoFs.Ranges.{Range, merge_ranges, Positive, merge_ranges-pos}
use rw_checks_codecollection.RepoFs.Read.{
  Disk, push_char, split_lines, open_lines, confined, is_binary, Filled, fill_round, fill, range_of,
  read_ranges,
}

abbrev IsCons : List Text → Type 0
IsCons ls = (l : Text) × (rest : List Text) × (ls ≡ l ∷ rest)

push_char-IsCons : (c : ℕ) (ls : List Text) → IsCons (push_char c ls)
push_char-IsCons c [] = (c ∷ [], [], refl)
push_char-IsCons c (l ∷ ls) = (c ∷ l, ls, refl)

split_lines-IsCons : (t : Text) → IsCons (split_lines t)
unfolding split_lines
split_lines-IsCons [] = ([], [], refl)
split_lines-IsCons (c ∷ s) =
    if_intro IsCons (c == 10) ([], split_lines s, refl) (push_char-IsCons c (split_lines s))

join_lines-newline : (ls : List Text) → IsCons ls → join_lines ([] ∷ ls) ≡ 10 ∷ join_lines ls
join_lines-newline [] (l, rest, e) = cc
join_lines-newline (l ∷ ls) h = refl

join_lines-push_char : (c : ℕ) (ls : List Text) → join_lines (push_char c ls) ≡ c ∷ join_lines ls
join_lines-push_char c [] = refl
join_lines-push_char c (l ∷ []) = refl
join_lines-push_char c (l ∷ m ∷ ls) = refl

-- Splitting a text at newlines and joining the lines gives it back.
pub join_lines-split_lines : (t : Text) → join_lines (split_lines t) ≡ t
unfolding split_lines
join_lines-split_lines [] = refl
join_lines-split_lines (c ∷ s) = elim (Bool-cases (c == 10)) [
  | inl nl ↦ rw nl (
      join_lines-newline (split_lines s) (split_lines-IsCons s)
      ∙ ap₂ ◌∷◌ (ground arith) (join_lines-split_lines s))
  | inr other ↦
      rw other (join_lines-push_char c (split_lines s) ∙ ap (◌∷◌ c) (join_lines-split_lines s))
]

abbrev IsLine : Text → Type 0
IsLine l = newlines l ≡ 0

push_char-lines :
    (c : ℕ) (ls : List Text) → (c == 10) ≡ false → All IsLine ls → All IsLine (push_char c ls)
push_char-lines c [] h k = (ground arith, tt)
push_char-lines c (l ∷ ls) h (k, ks) = (ground arith, ks)

split_lines-lines : (t : Text) → All IsLine (split_lines t)
unfolding split_lines
split_lines-lines [] = (refl, tt)
split_lines-lines (c ∷ s) = elim (Bool-cases (c == 10)) [
  | inl nl ↦ rw nl (refl, split_lines-lines s)
  | inr other ↦ rw other (push_char-lines c (split_lines s) other (split_lines-lines s))
]

-- n joined lines without newlines of their own have n - 1.
newlines-append : (s t : Text) → newlines (s ++ t) ≡ newlines s + newlines t
newlines-append [] t = omega arith
newlines-append (c ∷ s) t = ground (arith, newlines-append s t)

newlines-join_lines : (ls : List Text) → All IsLine ls → newlines (join_lines ls) ≡ length ls - 1
newlines-join_lines [] h = omega arith
newlines-join_lines (l ∷ []) (h, hs) = omega (arith, h)
newlines-join_lines (l ∷ m ∷ ls) (h, hs) =
    omega (arith, h, newlines-append l (10 ∷ join_lines (m ∷ ls)), newlines-join_lines (m ∷ ls) hs)

newlines-clip_bytes : (budget : ℕ) (s : Text) → newlines (clip_bytes budget s) ≤ newlines s
unfolding clip_bytes
newlines-clip_bytes budget [] = omega arith
newlines-clip_bytes budget (c ∷ s) = ground (arith, newlines-clip_bytes (budget - utf8_width c) s)

All-take : (n : ℕ) (ls : List Text) → All IsLine ls → All IsLine (take n ls)
All-take zero ls h = tt
All-take (suc n) [] h = tt
All-take (suc n) (l ∷ ls) (h, hs) = (h, All-take n ls hs)

All-drop : (n : ℕ) (ls : List Text) → All IsLine ls → All IsLine (drop n ls)
All-drop zero ls h = h
All-drop (suc n) [] h = tt
All-drop (suc n) (l ∷ ls) (h, hs) = All-drop n ls hs

wanted_lines-lines :
    (lines : List Text) (start end : ℕ)
    → All IsLine lines
    → All IsLine (wanted_lines lines start end)
wanted_lines-lines lines start end h =
    if_intro (All IsLine) (ltb end start || ltb (length lines) start) tt (
      All-take (suc (min end (length lines)) - start) (drop (start - 1) lines)
        (All-drop (start - 1) lines h))

-- A selection of lines without newlines of their own ends no earlier than its content does.
Selects-IsRange :
    (budget start : ℕ) (wanted : List Text) (s : Selection)
    → All IsLine wanted
    → Selects budget start wanted s
    → IsRange (range_of start s)
Selects-IsRange budget start wanted s lines sel = elim sel.faithful [
  | inl (zero, content, position, inside, whole) ↦ inl content
  | inl (suc n, content, position, inside, whole) ↦ inr (
      omega (
        arith,
        ap newlines content,
        newlines-join_lines (take (suc n) wanted) (All-take (suc n) wanted lines),
        length-take (suc n) wanted,
      ))
  | inr (line, first, content, over, cut, position) ↦ inr (
      omega (
        arith,
        ap newlines content,
        newlines-clip_bytes budget line,
        head_line wanted line first lines,
      ))
]
  where
    head_line : (ls : List Text) (l : Text) → take 1 ls ≡ l ∷ [] → All IsLine ls → newlines l ≡ 0
    head_line [] l e h = cc
    head_line (x ∷ xs) l e (h, hs) = cc

-- A range past the end of the file selects nothing.
select_lines-outside :
    (lines : List Text) (start end budget : ℕ)
    → length lines < start
    → (select_lines lines start end budget).content ≡ []
unfolding select_lines
select_lines-outside lines start end budget h = ground arith

select_lines-IsRange :
    (lines : List Text) (start end budget : ℕ)
    → All IsLine lines
    → 1 ≤ start
    → IsRange (range_of start (select_lines lines start end budget))
select_lines-IsRange lines start end budget h pos = elim (Bool-cases (ltb (length lines) start)) [
  | inl out ↦ inl (select_lines-outside lines start end budget (ltb→lt _ _ out))
  | inr inside ↦
      Selects-IsRange budget start (wanted_lines lines start end) _
        (wanted_lines-lines lines start end h)
        (select_lines-Selects lines start end budget pos (not_ltb→le _ _ inside))
]

round-IsRange :
    (stop : Bool) (start : ℕ) (s : Selection) (later : Filled)
    → IsRange (range_of start s)
    → All IsRange later.ranges
    → All IsRange (fill_round stop start s later).ranges
round-IsRange true start s later one more = tt
round-IsRange false start s later one more = (one, more)

fill-IsRange :
    (lines : List Text) (remaining : ℕ) (ranges : List Range)
    → All IsLine lines
    → All Positive ranges
    → All IsRange (fill lines remaining ranges).ranges
unfolding fill
fill-IsRange lines remaining [] h pos = tt
fill-IsRange lines remaining ((start, end) ∷ rest) h (p, ps) =
    round-IsRange (remaining == 0) start _ _ (select_lines-IsRange lines start end remaining h p)
      (fill-IsRange lines (remaining - (select_lines lines start end remaining).used) rest h ps)

-- A file that opens is split into lines.
open_lines-lines :
    (disk : Disk) (path : Text) (lines : List Text)
    → open_lines disk path ≡ ok lines
    → All IsLine lines
unfolding open_lines
open_lines-lines disk path lines h =
    let (full, _, checked) = >>=-eq-ok (confined disk path) _ h in
    let (_, opened) = if_raise-eq-ok (not (disk.is_file full)) _ _ checked in
    let (bytes, _, read) = >>=-eq-ok (disk.read_bytes full) _ opened in
    let (_, made) = if_raise-eq-ok (is_binary bytes) _ _ read in
    subst (All IsLine) (ok-injective made) (split_lines-lines (disk.decode bytes))

-- Every range that a successful read_ranges returns is empty or ends no earlier than its start plus the
-- newlines of its content.
pub read_ranges-IsRange :
    (disk : Disk) (path : Text) (ranges : List Range) (r : ReadRangesResult)
    → read_ranges disk path ranges ≡ ok r
    → All IsRange r.ranges
unfolding read_ranges open_lines
read_ranges-IsRange disk path ranges r h =
    let (_, _, opened) = >>=-eq-ok disk.check_tree_materialized _ h in
    let (lines, got, made) = >>=-eq-ok (open_lines disk path) _ opened in
    subst (λ q. All IsRange (ReadRangesResult.ranges q)) (ok-injective made)
      (fill-IsRange lines read_budget (merge_ranges ranges (length lines))
        (open_lines-lines disk path lines got) (merge_ranges-pos ranges (length lines)))

-- The content that a range of lines has in full.
abbrev pub full_content : List Text → Range → Text
full_content lines (start, end) = join_lines (wanted_lines lines start end)

abbrev contents : Filled → List Text
contents f = map (λ (r : ReadRange). r.content) f.ranges
