-- ===== src/Query/Fit/Trim.antt =====
-- What _trim_items, _trim_read and _fit of sdk/runwhen_capability/repo_query.py keep of an entry.
use mathlib.Core.Option.{some-injective}
use rw_checks_codecollection.Prelude.{
  ℕ, suc, ◌+◌, ◌≤◌, ◌<◌, ◌≡◌, refl, ◌∙◌, sym, ap, ◌⊎◌, inl, inr, true, List, [], ◌∷◌, ◌++◌, map,
  Option, none, some, ltb, leb, Text, take, arith, Bool-cases, leb→le, ltb→lt, not_ltb→le,
  length-show_ℕ_mono, All, subst,
}
use rw_checks_codecollection.Json.{Json, items, json_len, items_len, str_len}
use rw_checks_codecollection.Models.{
  ReadRange, ReadRangesResult, OpResult, grep_result, read_result, ls_result, QueryOpResult,
  GrepMatch, GrepResult, LsEntry, LsResult, dump_match, dump_range, dump_ls_entry, dump_entry,
}
use rw_checks_codecollection.Query.Fit.{
  entry_size, with_result, trim_list, unless_empty, clip_content, newlines, clipped_range, head_of,
  range_room, trim_ranges, with_ranges, trim,
}
use rw_checks_codecollection.Query.Fit.Clip.{clip_content-Clipped}

abbrev dumped_len {ℓ} : {A : Type ℓ} → (A → Json) → List A → ℕ → ℕ
dumped_len dump xs sep = items_len (items (map dump xs)) sep

-- The items that are kept are the longest prefix that fits behind what is used.
record LongestPrefix {ℓ} {A : Type ℓ} (dump : A → Json) (available used sep : ℕ) (xs kept : List A)
    : Type ℓ where
  count : ℕ
  prefix : kept ≡ take count xs
  fits : (kept ≡ []) ⊎ (used + dumped_len dump kept sep ≤ available)
  maximal : (kept ≡ xs) ⊎ (available < used + dumped_len dump (take (suc count) xs) sep)

module _ {ℓ} {A : Type ℓ} (dump : A → Json) (available : ℕ) where
  trim_list-LongestPrefix :
      (used sep : ℕ) (xs : List A)
      → LongestPrefix dump available used sep xs (trim_list dump available used sep xs)
  unfolding trim_list items_len
  trim_list-LongestPrefix used sep [] = record {
    count = 0;
    prefix = refl;
    fits = inl refl;
    maximal = inl refl;
  }
  trim_list-LongestPrefix used sep (x ∷ xs) =
      let add = json_len (dump x) + sep in
      let r = trim_list-LongestPrefix (used + add) 2 xs in
      let rest = trim_list dump available (used + add) 2 xs in
      elim (Bool-cases (ltb available (used + add))) [
        | inl over ↦ rw over (record {
          count = 0;
          prefix = refl;
          fits = inl refl;
          maximal = inr (omega (arith, ltb→lt _ _ over));
        })
        | inr under ↦ rw under (record {
          count = suc r.count;
          prefix = ap (◌∷◌ x) r.prefix;
          fits = inr (elim r.fits [
            | inl e ↦ omega (arith, ap (λ l. dumped_len dump l 2) e, not_ltb→le _ _ under)
            | inr h ↦ omega arith
          ]);
          maximal = elim r.maximal [ inl e ↦ inl (ap (◌∷◌ x) e) | inr h ↦ inr (omega arith) ];
        })
      ]

-- A range as read_ranges makes it: `end` is the line of its last character, or nothing was read.
abbrev pub IsRange : ReadRange → Type 0
IsRange r = (r.content ≡ []) ⊎ (r.start + newlines r.content ≤ r.stop)

newlines-prefix : (s t : Text) → newlines s ≤ newlines (s ++ t)
newlines-prefix [] t = omega arith
newlines-prefix (c ∷ s) t = ground (arith, newlines-prefix s t)

str_len-two : (s : Text) → 2 ≤ str_len s
unfolding str_len
str_len-two s = omega arith

-- The clipped range takes what the room was reckoned with.
clipped_range-le :
    (r : ReadRange) (c : Text)
    → r.start + newlines c ≤ r.stop
    → json_len (dump_range (clipped_range r c)) + 2
      ≤ json_len (dump_range (record r { content = [] })) + str_len c
unfolding json_len dump_range
clipped_range-le r c h = omega (arith, length-show_ℕ_mono (r.start + newlines c) r.stop h)

clip_content-nil : (room : ℕ) → clip_content [] room ≡ none
unfolding clip_content
clip_content-nil room = refl

clipped-stop :
    (r : ReadRange) (room : ℕ) (c : Text)
    → IsRange r
    → clip_content r.content room ≡ some c
    → r.start + newlines c ≤ r.stop
clipped-stop r room c (inl empty) e =
    cc (clip_content-nil room, ap (λ t. clip_content t room) empty)
clipped-stop r room c (inr h) e =
    let clip = clip_content-Clipped r.content room c e in
    omega (arith, newlines-prefix c clip.rest, ap newlines clip.split)

abbrev FitsBehind : ℕ → ℕ → ℕ → List ReadRange → Type 0
FitsBehind available used sep kept =
    (kept ≡ []) ⊎ (used + dumped_len dump_range kept sep ≤ available)

head_of-fits :
    (available used sep : ℕ) (r : ReadRange) (clipped : Option Text)
    → IsRange r
    → clip_content r.content (range_room available used sep r) ≡ clipped
    → FitsBehind available used sep (head_of r clipped)
unfolding items_len
head_of-fits available used sep r none ok e = inl refl
head_of-fits available used sep r (some c) ok e =
    let room = range_room available used sep r in
    let clip = clip_content-Clipped r.content room c e in
    inr (omega (arith, clip.fits, clipped_range-le r c (clipped-stop r room c ok e), str_len-two c))

trim_ranges-fits :
    (available used sep : ℕ) (rs : List ReadRange)
    → All IsRange rs
    → FitsBehind available used sep (trim_ranges available used sep rs)
unfolding trim_ranges items_len
trim_ranges-fits available used sep [] ok = inl refl
trim_ranges-fits available used sep (r ∷ rs) (one, ok) =
    let add = json_len (dump_range r) + sep in
    let rest = trim_ranges available (used + add) 2 rs in
    elim (Bool-cases (leb (used + add) available)) [
      | inr over ↦ rw over (head_of-fits available used sep r _ one refl)
      | inl under ↦ rw under (
          inr (elim (trim_ranges-fits available (used + add) 2 rs ok) [
            | inl e ↦ omega (arith, ap (λ l. dumped_len dump_range l 2) e, leb→le _ _ under)
            | inr h ↦ omega arith
          ]))
    ]

-- An entry grows by its list of items alone.
module _ (entry : QueryOpResult) where
  size-grep :
      (r : GrepResult) (ms : List GrepMatch)
      → let rebuild =
          λ (xs : List GrepMatch). grep_result (record r { matches = xs; truncated = true }) in
        entry_size (with_result entry (rebuild ms))
        ≡ entry_size (with_result entry (rebuild [])) + dumped_len dump_match ms 0
  unfolding entry_size dump_entry json_len
  size-grep r ms = omega arith

  size-ls :
      (r : LsResult) (es : List LsEntry)
      → let rebuild =
          λ (xs : List LsEntry). ls_result (record r { entries = xs; truncated = true }) in
        entry_size (with_result entry (rebuild es))
        ≡ entry_size (with_result entry (rebuild [])) + dumped_len dump_ls_entry es 0
  unfolding entry_size dump_entry json_len
  size-ls r es = omega arith

  size-read :
      (r : ReadRangesResult) (rs : List ReadRange)
      → entry_size (with_result entry (with_ranges r rs))
        ≡ entry_size (with_result entry (with_ranges r [])) + dumped_len dump_range rs 0
  unfolding entry_size dump_entry json_len
  size-read r rs = omega arith

  unless_empty-fits {ℓ} :
      {A : Type ℓ} (dump : A → Json) (rebuild : List A → OpResult) (kept : List A) (room : ℕ)
      (result : OpResult)
      → entry_size (with_result entry (rebuild kept))
        ≡ entry_size (with_result entry (rebuild [])) + dumped_len dump kept 0
      → (kept ≡ []) ⊎ (entry_size (with_result entry (rebuild [])) + dumped_len dump kept 0 ≤ room)
      → unless_empty kept rebuild ≡ some result
      → entry_size (with_result entry result) ≤ room
  unless_empty-fits dump rebuild [] room result size fits h = cc
  unless_empty-fits dump rebuild (x ∷ xs) room result size (inl e) h = cc e
  unless_empty-fits dump rebuild (x ∷ xs) room result size (inr fits) h =
      subst (λ r. entry_size (with_result entry r) ≤ room) (some-injective _ _ h) (omega arith)

-- The ranges of a read result are ranges.
abbrev pub HasRanges : Option OpResult → Type 0
HasRanges (some (read_result r)) = All IsRange r.ranges
HasRanges _ = Unit

-- A trimmed entry always fits: the last check of _fit never refuses one.
pub trim-fits :
    (entry : QueryOpResult) (found : Option OpResult) (room : ℕ) (result : OpResult)
    → HasRanges found
    → trim entry found room ≡ some result
    → entry_size (with_result entry result) ≤ room
unfolding trim
trim-fits entry none room result ok h = cc
trim-fits entry (some (read_result r)) room result ok h =
    let kept = trim_ranges room (entry_size (with_result entry (with_ranges r []))) 0 r.ranges in
    unless_empty-fits entry dump_range (with_ranges r) kept room result (size-read entry r kept)
      (trim_ranges-fits room _ 0 r.ranges ok) h
trim-fits entry (some (grep_result r)) room result ok h =
    let rebuild =
      λ (xs : List GrepMatch). grep_result (record r { matches = xs; truncated = true }) in
    let used = entry_size (with_result entry (rebuild [])) in
    let kept = trim_list dump_match room used 0 r.matches in
    unless_empty-fits entry dump_match rebuild kept room result (size-grep entry r kept)
      (trim_list-LongestPrefix dump_match room used 0 r.matches).fits h
trim-fits entry (some (ls_result r)) room result ok h =
    let rebuild = λ (xs : List LsEntry). ls_result (record r { entries = xs; truncated = true }) in
    let used = entry_size (with_result entry (rebuild [])) in
    let kept = trim_list dump_ls_entry room used 0 r.entries in
    unless_empty-fits entry dump_ls_entry rebuild kept room result (size-ls entry r kept)
      (trim_list-LongestPrefix dump_ls_entry room used 0 r.entries).fits h

module _ (entry : QueryOpResult) (r : GrepResult) where
  -- The result of a grep with its first `n` matches, marked as truncated.
  abbrev pub first_matches : ℕ → OpResult
  first_matches n = grep_result (record r { matches = take n r.matches; truncated = true })

  unless_empty-some :
      (kept : List GrepMatch) (n room : ℕ) (result : OpResult)
      → kept ≡ take n r.matches
      → unless_empty kept (λ xs. grep_result (record r { matches = xs; truncated = true }))
        ≡ some result
      → result ≡ first_matches n
  unless_empty-some [] n room result e h = absurd (cc)
  unless_empty-some (x ∷ xs) n room result e h =
      sym (some-injective _ _ h)
      ∙ ap (λ ms. grep_result (record r { matches = ms; truncated = true })) e

  -- A grep entry is trimmed to the longest prefix of its matches that fits: with one match more it would
  -- pass the room, unless all are kept.
  pub trim-longest :
      (room : ℕ) (result : OpResult)
      → trim entry (some (grep_result r)) room ≡ some result
      → (n : ℕ) × (result ≡ first_matches n)
        × (entry_size (with_result entry (first_matches n)) ≤ room)
        × ((take n r.matches ≡ r.matches)
            ⊎ (room < entry_size (with_result entry (first_matches (suc n)))))
  unfolding trim
  trim-longest room result h =
      let rebuild =
        λ (xs : List GrepMatch). grep_result (record r { matches = xs; truncated = true }) in
      let used = entry_size (with_result entry (rebuild [])) in
      let kept = trim_list dump_match room used 0 r.matches in
      let longest = trim_list-LongestPrefix dump_match room used 0 r.matches in
      let same = unless_empty-some kept longest.count room result longest.prefix h in
      (
        longest.count,
        same,
        subst (λ o. entry_size (with_result entry o) ≤ room) same
            (trim-fits entry (some (grep_result r)) room result tt h),
        elim longest.maximal [
          | inl all ↦ inl (sym longest.prefix ∙ all)
          | inr over ↦
              inr (omega (arith, over, size-grep entry r (take (suc longest.count) r.matches)))
        ],
      )
