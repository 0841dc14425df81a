-- ===== src/Sarif/Reader.antt =====
-- The one-entry memo of _LineReader of sdk/runwhen_capability/sarif.py, and reading without it.
use rw_checks_codecollection.Prelude.{
  ℕ, zero, suc, ◌≡◌, refl, sym, ap, ap₂, ◌∙◌, inl, inr, List, [], ◌∷◌, Option, none, some, map,
  Text, text_eq, text_eq_iff, Bool-cases,
}
use rw_checks_codecollection.RepoFs.Read.{split_lines}
use rw_checks_codecollection.Findings.{line_of}
use rw_checks_codecollection.Sarif.{Memo, line_in, load, read_line, read_all}

module _ (read_text : Text → Option Text) where
  -- The memo holds the lines of its file.
  abbrev pub IsCurrent : Option Memo → Type 0
  IsCurrent none = Unit
  IsCurrent (some memo) = (t : Text) × (read_text memo.path ≡ some t) × (memo.lines ≡ split_lines t)

  abbrev direct_in : Option Text → ℕ → Option Text
  direct_in none n = none
  direct_in (some t) n = line_of t n

  -- The line, read without a memo.
  abbrev pub direct : Text × ℕ → Option Text
  direct (path, n) = direct_in (read_text path) n

  line_in-split : (t : Text) (n : ℕ) → line_in (split_lines t) n ≡ line_of t n
  unfolding line_of
  line_in-split t zero = refl
  line_in-split t (suc n) = refl

  load-direct :
      (path : Text) (n : ℕ) (found : Option Text) (memo : Option Memo)
      → read_text path ≡ found
      → IsCurrent memo
      → ((load read_text path n found memo).0 ≡ direct_in found n)
        × IsCurrent (load read_text path n found memo).1
  load-direct path n none memo e h = (refl, h)
  load-direct path n (some t) memo e h = (line_in-split t n, (t, e, refl))

  read_line-direct :
      (path : Text) (n : ℕ) (memo : Option Memo)
      → IsCurrent memo
      → ((read_line read_text path n memo).0 ≡ direct (path, n))
        × IsCurrent (read_line read_text path n memo).1
  unfolding read_line
  read_line-direct path n none h = load-direct path n (read_text path) none refl tt
  read_line-direct path n (some memo) h = elim (Bool-cases (text_eq path memo.path)) [
    | inr apart ↦ rw apart (load-direct path n (read_text path) (some memo) refl h)
    | inl same ↦
        let (t, found, lines) = h in
        let at : read_text path ≡ some t = ap read_text ((text_eq_iff _ _).0 same) ∙ found in
        rw same
          (ap (λ ls. line_in ls n) lines ∙ line_in-split t n ∙ ap (λ o. direct_in o n) (sym at), h)
  ]

  read_all-from :
      (reads : List (Text × ℕ)) (memo : Option Memo)
      → IsCurrent memo
      → read_all read_text reads memo ≡ map direct reads
  unfolding read_all
  read_all-from [] memo h = refl
  read_all-from ((path, n) ∷ reads) memo h =
      let (line, current) = read_line-direct path n memo h in
      ap₂ ◌∷◌ line (read_all-from reads (read_line read_text path n memo).1 current)

  -- In whatever order a parse reads lines of files, interleaved or not, missing or not, the memo gives for
  -- each what opening and splitting the file anew would give.
  pub read_all-direct : (reads : List (Text × ℕ)) → read_all read_text reads none ≡ map direct reads
  read_all-direct reads = read_all-from reads none tt
