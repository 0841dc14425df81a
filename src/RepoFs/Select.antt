-- ===== src/RepoFs/Select.antt =====
-- _select_lines of sdk/runwhen_capability/repo_fs.py, and _clip_grep_line.
use rw_checks_codecollection.Prelude.{
  ℕ, suc, ◌+◌, ◌-◌, ◌≤◌, ◌<◌, ◌≡◌, refl, sym, ap, ◌⊎◌, inl, inr, Bool, true, false, ◌||◌, List, [],
  ◌∷◌, ◌++◌, min, ltb, leb, if◌then◌else◌, Text, length, take, drop, byte_len, clip_bytes,
  byte_len-clip_bytes, join_lines, arith, Bool-cases, ltb→lt, not_ltb→le, append_assoc, subst,
  length-append,
}

-- READ_BUDGET = 256 * 1024 - 1024
abbrev pub read_budget : ℕ
read_budget = 261120

abbrev pub max_grep_match_text_len : ℕ
max_grep_match_text_len = 400

-- _clip_grep_line
unfoldable pub clip_grep_line : Text → Text
clip_grep_line line =
    if leb (byte_len line) max_grep_match_text_len
    then line
    else clip_bytes max_grep_match_text_len line

-- (content, truncated, actual_end, bytes_used)
pub record Selection : Type 0 where
  pub content : Text
  pub truncated : Bool
  pub actual_end : ℕ
  pub used : ℕ

-- The joining newline that a further line takes.
abbrev pub joint : List Text → ℕ
joint [] = 0
joint (p ∷ ps) = 1

abbrev pub selected : List Text → Bool → ℕ → ℕ → Selection
selected parts truncated actual_end size = record {
  content = join_lines parts;
  truncated = truncated;
  actual_end = actual_end;
  used = size;
}

-- A line that does not fit: the selection ends, or the line is clipped if it is the first.
abbrev pub overflow : ℕ → ℕ → List Text → ℕ → ℕ → Text → Selection
overflow budget i [] size actual_end line = record {
  content = clip_bytes budget line;
  truncated = true;
  actual_end = i;
  used = byte_len (clip_bytes budget line);
}
overflow budget i (p ∷ ps) size actual_end line = selected (p ∷ ps) true actual_end size

-- The loop from line `i` on, over the lines that are left. `parts`, `size` and `actual_end` are its
-- variables.
unfoldable pub select_loop : ℕ → ℕ → List Text → ℕ → ℕ → List Text → Selection
select_loop budget i parts size actual_end [] = selected parts false actual_end size
select_loop budget i parts size actual_end (line ∷ rest) =
    let add = byte_len line + joint parts in
    let onward = select_loop budget (suc i) (parts ++ line ∷ []) (size + add) i rest in
    if ltb budget (size + add) then overflow budget i parts size actual_end line else onward

-- lines[start - 1 : end]
abbrev pub lines_between : List Text → ℕ → ℕ → List Text
lines_between lines start end = take (suc end - start) (drop (start - 1) lines)

-- `start` is at least 1 in every call.
unfoldable pub select_lines : List Text → ℕ → ℕ → ℕ → Selection
unfolding select_loop
select_lines lines start end budget =
    if ltb end start || ltb (length lines) start
    then selected [] false (min (start - 1) (length lines)) 0
    else select_loop budget start [] 0 (start - 1)
        (lines_between lines start (min end (length lines)))

byte_len-append : (s t : Text) → byte_len (s ++ t) ≡ byte_len s + byte_len t
byte_len-append [] t = omega arith
byte_len-append (c ∷ s) t = omega (arith, byte_len-append s t)

-- The bytes of the joined lines grow by the line and its joint.
byte_len-join_snoc :
    (parts : List Text) (line : Text)
    → byte_len (join_lines (parts ++ line ∷ []))
      ≡ byte_len (join_lines parts) + (byte_len line + joint parts)
byte_len-join_snoc [] line = omega arith
byte_len-join_snoc (p ∷ []) line = omega (arith, byte_len-append p (10 ∷ line))
byte_len-join_snoc (p ∷ q ∷ ps) line = omega (
  arith,
  byte_len-append p (10 ∷ join_lines ((q ∷ ps) ++ line ∷ [])),
  byte_len-append p (10 ∷ join_lines (q ∷ ps)),
  byte_len-join_snoc (q ∷ ps) line,
)

-- What a selection of `wanted`, the lines from `first` on, holds: its size is that of its content and
-- within the budget; and the content is the first lines of those, all of them if it is not truncated, or
-- the clipped first line alone.
pub record Selects (budget first : ℕ) (wanted : List Text) (s : Selection) : Type 0 where
  pub sized : byte_len s.content ≡ s.used
  pub within : s.used ≤ budget
  pub faithful :
      ((n : ℕ) × (s.content ≡ join_lines (take n wanted))
        × (suc s.actual_end ≡ first + n)
        × (n ≤ length wanted)
        × (s.truncated ≡ false → n ≡ length wanted))
      ⊎ ((line : Text) × (take 1 wanted ≡ line ∷ [])
          × (s.content ≡ clip_bytes budget line)
          × (budget < byte_len line)
          × (s.truncated ≡ true)
          × (s.actual_end ≡ first))

take-append_self : (xs ys : List Text) → take (length xs) (xs ++ ys) ≡ xs
take-append_self [] ys = refl
take-append_self (x ∷ xs) ys = ap (◌∷◌ x) (take-append_self xs ys)

module _ (budget first : ℕ) where
  selected-Selects :
      (parts rest : List Text) (size actual_end : ℕ) (cut : Bool)
      → byte_len (join_lines parts) ≡ size
      → size ≤ budget
      → suc actual_end ≡ first + length parts
      → (cut ≡ false → rest ≡ [])
      → Selects budget first (parts ++ rest) (selected parts cut actual_end size)
  selected-Selects parts rest size actual_end cut sized within position whole = record {
    sized = sized;
    within = within;
    faithful = inl (
      length parts,
      ap join_lines (sym (take-append_self parts rest)),
      position,
      omega (arith, length-append parts rest),
      λ h. omega (arith, length-append parts rest, ap length (whole h)),
    );
  }

  overflow-Selects :
      (i : ℕ) (parts rest : List Text) (size actual_end : ℕ) (line : Text)
      → byte_len (join_lines parts) ≡ size
      → size ≤ budget
      → suc actual_end ≡ first + length parts
      → i ≡ first + length parts
      → budget < size + (byte_len line + joint parts)
      → Selects budget first (parts ++ line ∷ rest) (overflow budget i parts size actual_end line)
  overflow-Selects i [] rest size actual_end line sized within position next over = record {
    sized = refl;
    within = byte_len-clip_bytes budget line;
    faithful = inr (line, refl, refl, omega arith, refl, omega arith);
  }
  overflow-Selects i (p ∷ ps) rest size actual_end line sized within position next over =
      selected-Selects (p ∷ ps) (line ∷ rest) size actual_end true sized within position (λ h. cc)

  select_loop-Selects :
      (i : ℕ) (parts : List Text) (size actual_end : ℕ) (rest : List Text)
      → byte_len (join_lines parts) ≡ size
      → size ≤ budget
      → suc actual_end ≡ first + length parts
      → i ≡ first + length parts
      → Selects budget first (parts ++ rest) (select_loop budget i parts size actual_end rest)
  unfolding select_loop
  select_loop-Selects i parts size actual_end [] sized within position next =
      selected-Selects parts [] size actual_end false sized within position (λ h. refl)
  select_loop-Selects i parts size actual_end (line ∷ rest) sized within position next =
      let add = byte_len line + joint parts in
      elim (Bool-cases (ltb budget (size + add))) [
        | inl over ↦ rw over (
            overflow-Selects i parts rest size actual_end line sized within position next
              (ltb→lt _ _ over))
        | inr fits ↦ rw fits (
            subst
              (λ w.
                Selects budget first w
                  (select_loop budget (suc i) (parts ++ line ∷ []) (size + add) i rest))
              (append_assoc parts (line ∷ []) rest)
              (select_loop-Selects (suc i) (parts ++ line ∷ []) (size + add) i rest
                (omega (arith, byte_len-join_snoc parts line)) (not_ltb→le _ _ fits)
                (omega (arith, length-append parts (line ∷ [])))
                (omega (arith, length-append parts (line ∷ [])))))
      ]

-- The lines of a file that a selection asks for: none where the range is empty or past the end.
abbrev pub wanted_lines : List Text → ℕ → ℕ → List Text
wanted_lines lines start end =
    if ltb end start || ltb (length lines) start
    then []
    else lines_between lines start (min end (length lines))

-- For every file, range and budget, what _select_lines returns is within the budget and is faithful to
-- the lines asked for; the end line that it reports is the last line of the content.
pub select_lines-Selects :
    (lines : List Text) (start end budget : ℕ)
    → 1 ≤ start
    → start ≤ length lines
    → Selects budget start (wanted_lines lines start end) (select_lines lines start end budget)
unfolding select_lines
select_lines-Selects lines start end budget pos inside =
    elim (Bool-cases (ltb end start || ltb (length lines) start)) [
      | inl none_asked ↦ rw none_asked (record {
        sized = refl;
        within = omega arith;
        faithful = inl (0, refl, omega arith, omega arith, λ h. refl);
      })
      | inr some_asked ↦ rw some_asked (
          select_loop-Selects budget start start [] 0 (start - 1) _ refl (omega arith) (omega arith)
            (omega arith))
    ]

-- The size that is reported is that of the content, and within the budget.
select_loop_bound :
    (budget i : ℕ) (parts : List Text) (size actual_end : ℕ) (rest : List Text)
    → byte_len (join_lines parts) ≡ size
    → size ≤ budget
    → let s = select_loop budget i parts size actual_end rest in
      (byte_len s.content ≡ s.used) × (s.used ≤ budget)
unfolding select_loop
select_loop_bound budget i parts size actual_end [] sized within = (sized, within)
select_loop_bound budget i [] size actual_end (line ∷ rest) sized within = ground (
  arith,
  byte_len-clip_bytes budget line,
  select_loop_bound budget (suc i) (line ∷ []) (size + (byte_len line + 0)) i rest,
)
select_loop_bound budget i (p ∷ ps) size actual_end (line ∷ rest) sized within = ground (
  arith,
  byte_len-join_snoc (p ∷ ps) line,
  select_loop_bound budget (suc i) (p ∷ ps ++ line ∷ []) (size + (byte_len line + 1)) i rest,
)

pub select_lines_bound :
    (lines : List Text) (start end budget : ℕ)
    → let s = select_lines lines start end budget in
      (byte_len s.content ≡ s.used) × (s.used ≤ budget)
unfolding select_lines
select_lines_bound lines start end budget = ground (
  arith,
  select_loop_bound budget start [] 0 (start - 1)
      (lines_between lines start (min end (length lines))) refl,
)
