-- ===== src/Query/Fit.antt =====
-- The response budget of sdk/runwhen_capability/repo_query.py: an entry, or the head of it that fits.
pub mod Clip
pub mod Trim
use rw_checks_codecollection.Prelude.{
  ℕ, zero, suc, ◌+◌, ◌-◌, ◌/◌, Bool, true, false, List, [], ◌∷◌, Option, none, some, ltb, leb, ◌==◌,
  ◌&&◌, if◌then◌else◌, Text, length, take,
}
use rw_checks_codecollection.Json.{Json, str_len, json_len}
use rw_checks_codecollection.Models.{
  ReadRange, ReadRangesResult, OpResult, grep_result, read_result, ls_result, QueryOpResult,
  dump_match, dump_range, dump_ls_entry, dump_entry,
}

unfoldable pub entry_size : QueryOpResult → ℕ
entry_size entry = json_len (dump_entry entry)

abbrev pub with_result : QueryOpResult → OpResult → QueryOpResult
with_result entry result = record entry { result = some result }

-- The loop of _trim_items: `used` bytes are spent, and `separator` stands before the next item.
unfoldable pub trim_list {ℓ} : {A : Type ℓ} → (A → Json) → ℕ → ℕ → ℕ → List A → List A
trim_list dump available used separator [] = []
trim_list dump available used separator (x ∷ xs) =
    let add = json_len (dump x) + separator in
    let rest = trim_list dump available (used + add) 2 xs in
    if ltb available (used + add) then [] else x ∷ rest

abbrev pub unless_empty {ℓ} : {A : Type ℓ} → List A → (List A → OpResult) → Option OpResult
unless_empty [] rebuild = none
unless_empty (x ∷ xs) rebuild = some (rebuild (x ∷ xs))

-- `rebuild` is the result with the list in the trimmed field and truncated=True.
unfoldable pub trim_items {ℓ} :
    {A : Type ℓ} → QueryOpResult → (A → Json) → (List A → OpResult) → List A → ℕ → Option OpResult
unfolding trim_list
trim_items entry dump rebuild xs available =
    let used = entry_size (with_result entry (rebuild [])) in
    unless_empty (trim_list dump available used 0 xs) rebuild

-- The bisection of _clip_content. The fuel is the length of the interval.
unfoldable pub clip_search : ℕ → Text → ℕ → ℕ → ℕ → ℕ
clip_search zero content room low high = low
clip_search (suc fuel) content room low high =
    let mid = (low + high + 1) / 2 in
    let up = clip_search fuel content room mid high in
    let down = clip_search fuel content room low (mid - 1) in
    if ltb low high then (if leb (str_len (take mid content)) room then up else down) else low

-- s[: s.rfind("\n")], or none where there is no newline.
unfoldable pub cut_last_line : Text → Option Text
cut_last_line [] = none
cut_last_line (c ∷ s) = elim (cut_last_line s) [
  | none ↦ if c == 10 then some [] else none
  | some p ↦ some (c ∷ p)
]

abbrev line_aligned : Text → Text
line_aligned prefix = elim (cut_last_line prefix) [ none ↦ prefix | some p ↦ p ]

unfoldable pub clip_content : Text → ℕ → Option Text
unfolding clip_search cut_last_line
clip_content content room =
    let low = clip_search (length content) content room 0 (length content) in
    let prefix = take low content in
    if low == 0
    then none
    else some (if ltb low (length content) then line_aligned prefix else prefix)

-- s.count("\n")
abbrev pub newlines : Text → ℕ
newlines [] = 0
newlines (c ∷ s) = if c == 10 then suc (newlines s) else newlines s

abbrev pub clipped_range : ReadRange → Text → ReadRange
clipped_range r content = record {
  start = r.start;
  stop = r.start + newlines content;
  content = content;
}

abbrev pub head_of : ReadRange → Option Text → List ReadRange
head_of r none = []
head_of r (some content) = clipped_range r content ∷ []

-- The last branch of the loop of _trim_read: the head of the first range that does not fit.
unfoldable pub range_head : ReadRange → ℕ → List ReadRange
unfolding clip_content
range_head r room = head_of r (clip_content r.content room)

-- The room of a clipped range. Where the source's difference is negative this is 0, and neither lets
-- a text in, whose quotes take two.
abbrev pub range_room : ℕ → ℕ → ℕ → ReadRange → ℕ
range_room available used separator r =
    available + 2 - (used + separator + json_len (dump_range (record r { content = [] })))

unfoldable pub trim_ranges : ℕ → ℕ → ℕ → List ReadRange → List ReadRange
unfolding range_head
trim_ranges available used separator [] = []
trim_ranges available used separator (r ∷ rs) =
    let add = json_len (dump_range r) + separator in
    let rest = trim_ranges available (used + add) 2 rs in
    if leb (used + add) available
    then r ∷ rest
    else range_head r (range_room available used separator r)

abbrev pub with_ranges : ReadRangesResult → List ReadRange → OpResult
with_ranges result ranges = read_result (record result { ranges = ranges; truncated = true })

unfoldable pub trim_read : QueryOpResult → ReadRangesResult → ℕ → Option OpResult
unfolding trim_ranges
trim_read entry result available =
    let used = entry_size (with_result entry (with_ranges result [])) in
    unless_empty (trim_ranges available used 0 result.ranges) (with_ranges result)

-- The branches of _fit on the type of the result. An error entry has none to trim.
unfoldable pub trim : QueryOpResult → Option OpResult → ℕ → Option OpResult
unfolding trim_items trim_read
trim entry none available = none
trim entry (some (read_result r)) available = trim_read entry r available
trim entry (some (grep_result r)) available =
    trim_items entry dump_match (λ ms. grep_result (record r { matches = ms; truncated = true }))
      r.matches available
trim entry (some (ls_result r)) available =
    trim_items entry dump_ls_entry (λ es. ls_result (record r { entries = es; truncated = true }))
      r.entries available

-- The entry or its trimmed form, its size, and whether it was trimmed.
pub record Fitted : Type 0 where
  pub entry : Option QueryOpResult
  pub size : ℕ
  pub trimmed : Bool

abbrev pub nothing_fits : Fitted
nothing_fits = record { entry = none; size = 0; trimmed = false }

-- The last check of _fit.
abbrev pub within : QueryOpResult → ℕ → Fitted
within fitted available =
    if ltb available (entry_size fitted)
    then nothing_fits
    else record { entry = some fitted; size = entry_size fitted; trimmed = true }

abbrev pub fit_trimmed : QueryOpResult → ℕ → Option OpResult → Fitted
fit_trimmed entry available none = nothing_fits
fit_trimmed entry available (some result) = within (with_result entry result) available

unfoldable pub fit : QueryOpResult → ℕ → Fitted
unfolding trim
fit entry available =
    if leb (entry_size entry) available
    then record { entry = some entry; size = entry_size entry; trimmed = false }
    else fit_trimmed entry available (trim entry entry.result available)
