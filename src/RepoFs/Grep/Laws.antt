-- ===== src/RepoFs/Grep/Laws.antt =====
-- What grep_tree of sdk/runwhen_capability/repo_fs.py finds, against the list of all matches.
use rw_checks_codecollection.Prelude.{
  ℕ, suc, ◌≤◌, ◌<◌, ◌≡◌, sym, ap, ◌∙◌, inl, inr, Bool, true, false, ◌||◌, List, [], ◌∷◌, ◌++◌,
  Option, none, some, leb, if◌then◌else◌, Text, length, take, length-append, length-take, take_all,
  take-append_take, take-append_full, append-nil, append_assoc, Bool-cases, not_leb→lt, leb→le,
  arith,
}
use rw_checks_codecollection.Models.{GrepMatch}
use rw_checks_codecollection.RepoFs.Read.{is_binary}
use rw_checks_codecollection.RepoFs.Reach.{IsCapped, add-IsCapped}
use rw_checks_codecollection.RepoFs.Walk.{Event, found, blocked}
use rw_checks_codecollection.RepoFs.Grep.{
  Ask, is_hit, match_of, scan_lines, file_lines, Grep, grep_file, grep_events,
}

-- The matches of the lines from number `line_no` on.
unfoldable pub line_matches : Ask → Text → List Text → ℕ → List Text → List GrepMatch
line_matches ask rel lines line_no [] = []
line_matches ask rel lines line_no (line ∷ rest) =
    let more = line_matches ask rel lines (suc line_no) rest in
    if is_hit ask line then match_of ask rel lines line_no line ∷ more else more

-- The matches of a file: none if it cannot be read or is binary.
unfoldable pub file_matches : (List ℕ → Text) → Ask → Text → Option (List ℕ) → List GrepMatch
unfolding line_matches is_binary
file_matches decode ask rel none = []
file_matches decode ask rel (some bytes) =
    let lines = file_lines decode bytes in
    if is_binary bytes then [] else line_matches ask rel lines 1 lines

-- The matches of all files that are kept, in the order of the walk.
unfoldable pub all_matches : (List ℕ → Text) → Ask → (Text → Bool) → List Event → List GrepMatch
unfolding file_matches
all_matches decode ask kept [] = []
all_matches decode ask kept (blocked rel ∷ events) = all_matches decode ask kept events
all_matches decode ask kept (found rel bytes ∷ events) =
    let more = all_matches decode ask kept events in
    if kept rel then file_matches decode ask rel bytes ++ more else more

-- What a list comes to that is grown from `before` by `more` and stopped at the limit.
record Stops (limit : ℕ) (before more now : List GrepMatch) (full : Bool) : Type 0 where
  grown : now ≡ take limit (before ++ more)
  told : full ≡ leb limit (length now)

module _ (limit : ℕ) where
  Stops-none :
      (before : List GrepMatch) → length before < limit → Stops limit before [] before false
  Stops-none before h = record {
    grown = rw (append-nil before) (sym (take_all limit before (omega arith)));
    told = ground arith;
  }

  -- The limit is reached by one match.
  Stops-here :
      (before more : List GrepMatch) (m : GrepMatch)
      → length before < limit
      → leb limit (length (before ++ m ∷ [])) ≡ true
      → Stops limit before (m ∷ more) (before ++ m ∷ []) true
  Stops-here before more m h full = record {
    grown = sym (
        ap (take limit) (sym (append_assoc before (m ∷ []) more))
        ∙ take-append_full limit (before ++ m ∷ []) more
            (omega (arith, length-append before (m ∷ []), leb→le _ _ full)));
    told = sym full;
  }

  scan_lines-Stops :
      (ask : Ask) (rel : Text) (lines : List Text) (line_no : ℕ) (rest : List Text)
      (before : List GrepMatch)
      → length before < limit
      → let r = scan_lines ask limit rel lines line_no rest before in
        Stops limit before (line_matches ask rel lines line_no rest) r.matches r.full
  unfolding scan_lines line_matches
  scan_lines-Stops ask rel lines line_no [] before h = Stops-none before h
  scan_lines-Stops ask rel lines line_no (line ∷ rest) before h =
      let m = match_of ask rel lines line_no line in
      elim (Bool-cases (is_hit ask line)) [
        | inl hit ↦ elim (Bool-cases (leb limit (length (before ++ m ∷ [])))) [
          | inl full ↦ rw (hit, full) (Stops-here before _ m h full)
          | inr free ↦
              let later =
                scan_lines-Stops ask rel lines (suc line_no) rest (before ++ m ∷ [])
                  (not_leb→lt _ _ free) in
              rw (hit, free)
                (record {
                  grown = later.grown ∙ ap (take limit) (append_assoc before (m ∷ []) _);
                  told = later.told;
                })
        ]
        | inr missed ↦ rw missed (scan_lines-Stops ask rel lines (suc line_no) rest before h)
      ]

  at_limit :
      (all now : List GrepMatch)
      → now ≡ take limit all
      → leb limit (length now) ≡ true
      → length now ≡ limit
  at_limit all now h full =
      let few : length now ≤ limit = rw h (omega (arith, length-take limit all)) in
      omega (arith, leb→le _ _ full)

  module _ (decode : List ℕ → Text) (ask : Ask) where
    grep_file-Stops :
        (rel : Text) (bytes : Option (List ℕ)) (s : Grep)
        → length s.matches < limit
        → let r = grep_file decode ask limit rel bytes s in
          Stops limit s.matches (file_matches decode ask rel bytes) r.matches r.full
    unfolding grep_file file_matches
    grep_file-Stops rel none s h = Stops-none s.matches h
    grep_file-Stops rel (some bytes) s h = elim (Bool-cases (is_binary bytes)) [
      | inl binary ↦ rw binary (Stops-none s.matches h)
      | inr text ↦ rw text (
          scan_lines-Stops ask rel (file_lines decode bytes) 1 (file_lines decode bytes) s.matches
            h)
    ]

    -- The loop's matches: those of all files, cut at the limit.
    pub grep_events-take :
        (kept : Text → Bool) (events : List Event) (s : Grep)
        → length s.matches < limit
        → (grep_events decode ask limit kept events s).matches
          ≡ take limit (s.matches ++ all_matches decode ask kept events)
    unfolding grep_events all_matches
    grep_events-take kept [] s h = (Stops-none s.matches h).grown
    grep_events-take kept (blocked rel ∷ events) s h = grep_events-take kept events _ h
    grep_events-take kept (found rel bytes ∷ events) s h = elim (Bool-cases (kept rel)) [
      | inr skipped ↦ rw skipped (grep_events-take kept events s h)
      | inl taken ↦
          let now = grep_file decode ask limit rel bytes s in
          let stops = grep_file-Stops rel bytes s h in
          let mine = file_matches decode ask rel bytes in
          let more = all_matches decode ask kept events in
          let all : take limit (now.matches ++ more) ≡ take limit (s.matches ++ (mine ++ more)) =
            ap (λ x. take limit (x ++ more)) stops.grown
            ∙ take-append_take limit (s.matches ++ mine) more
            ∙ ap (take limit) (append_assoc s.matches mine more) in
          elim (Bool-cases (leb limit (length now.matches))) [
            | inl full ↦
                rw (taken, stops.told, full)
                  (sym (
                      take-append_full limit now.matches more
                        (at_limit (s.matches ++ mine) now.matches stops.grown full))
                    ∙ all)
            | inr free ↦
                rw (taken, stops.told, free)
                  (grep_events-take kept events now (not_leb→lt _ _ free) ∙ all)
          ]
    ]

    grep_file-IsCapped :
        (rel : Text) (bytes : Option (List ℕ)) (s : Grep)
        → IsCapped s.unreadable
        → IsCapped (grep_file decode ask limit rel bytes s).unreadable
    unfolding grep_file
    grep_file-IsCapped rel none s h = add-IsCapped rel s.unreadable h
    grep_file-IsCapped rel (some bytes) s h = elim (Bool-cases (is_binary bytes)) [
      | inl binary ↦ rw binary h
      | inr text ↦ rw text h
    ]

    pub grep_events-IsCapped :
        (kept : Text → Bool) (events : List Event) (s : Grep)
        → IsCapped s.unreadable
        → IsCapped (grep_events decode ask limit kept events s).unreadable
    unfolding grep_events
    grep_events-IsCapped kept [] s h = h
    grep_events-IsCapped kept (blocked rel ∷ events) s h =
        grep_events-IsCapped kept events _ (add-IsCapped rel s.unreadable h)
    grep_events-IsCapped kept (found rel bytes ∷ events) s h = elim (Bool-cases (kept rel)) [
      | inr skipped ↦ rw skipped (grep_events-IsCapped kept events s h)
      | inl taken ↦
          let now = grep_file decode ask limit rel bytes s in
          let capped = grep_file-IsCapped rel bytes s h in
          elim (Bool-cases (now.full || leb limit (length now.matches))) [
            | inl stop ↦ rw (taken, stop) capped
            | inr go ↦ rw (taken, go) (grep_events-IsCapped kept events now capped)
          ]
    ]
