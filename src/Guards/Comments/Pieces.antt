-- ===== src/Guards/Comments/Pieces.antt =====
-- What the comment strippers of capabilities/rw-checks/guards.py keep, on a text that is put together of code,
-- strings and comments.
use rw_checks_codecollection.Prelude.{
  ℕ, ◌≡◌, ◌≢◌, refl, ap, ◌∙◌, sym, Bool, true, false, ◌&&◌, ◌||◌, List, [], ◌∷◌, ◌++◌, none, some,
  ◌==◌, Text, any, All, arith, append_assoc, append-nil,
}
use rw_checks_codecollection.Guards.Comments.{
  Mode, code, quoted, line, block, next_is, strip_from, last_mode, strip_jsonc, strip_hcl,
}

-- A character of a string, or a backslash with the character that it escapes.
pub data Part : Type 0 where
  plain : ℕ → Part
  escape : ℕ → Part

-- A character of code, a slash that opens no comment with the character behind it, a string, a comment to
-- the end of its line, a comment in a block.
pub data Piece : Type 0 where
  char : ℕ → Piece
  slash : ℕ → Piece
  string : List Part → Piece
  line_comment : Text → Piece
  hash_comment : Text → Piece
  block_comment : Text → Piece

abbrev pub parts_text : List Part → Text
parts_text [] = 34 ∷ []
parts_text (plain c ∷ ps) = c ∷ parts_text ps
parts_text (escape c ∷ ps) = 92 ∷ c ∷ parts_text ps

abbrev pub text_of : Piece → Text
text_of (char c) = c ∷ []
text_of (slash c) = 47 ∷ c ∷ []
text_of (string ps) = 34 ∷ parts_text ps
text_of (line_comment s) = 47 ∷ 47 ∷ s ++ 10 ∷ []
text_of (hash_comment s) = 35 ∷ s ++ 10 ∷ []
text_of (block_comment s) = 47 ∷ 42 ∷ s ++ 42 ∷ 47 ∷ []

-- What is left of a piece: of a comment nothing but the end of its line.
abbrev pub left_of : Piece → Text
left_of (line_comment s) = 10 ∷ []
left_of (hash_comment s) = 10 ∷ []
left_of (block_comment s) = []
left_of p = text_of p

abbrev pub IsPart : Part → Type 0
IsPart (plain c) = (c ≢ 34) × (c ≢ 92)
IsPart (escape c) = Unit

abbrev pub has_close : Text → Bool
has_close [] = false
has_close (c ∷ s) = (c == 42 && next_is 47 s) || has_close s

abbrev pub IsCode : Bool → ℕ → Type 0
IsCode hash c = (c ≢ 34) × (c ≢ 47) × ((hash && c == 35) ≡ false)

abbrev pub IsPiece : Bool → Piece → Type 0
IsPiece hash (char c) = IsCode hash c
IsPiece hash (slash c) = IsCode hash c × (c ≢ 42)
IsPiece hash (string ps) = All IsPart ps
IsPiece hash (line_comment s) = any (λ c. c == 10) s ≡ false
IsPiece hash (hash_comment s) = (hash ≡ true) × (any (λ c. c == 10) s ≡ false)
IsPiece hash (block_comment s) = has_close s ≡ false

abbrev pub texts_of : List Piece → Text
texts_of [] = []
texts_of (p ∷ ps) = text_of p ++ texts_of ps

abbrev pub left_of_all : List Piece → Text
left_of_all [] = []
left_of_all (p ∷ ps) = left_of p ++ left_of_all ps

-- A scan from mode `m` over `s`, before any rest, leaves `out` and stands in code again.
record Scans (hash : Bool) (m : Mode) (s out : Text) : Type 0 where
  strips : (rest : Text) → strip_from hash m (s ++ rest) ≡ out ++ strip_from hash code rest
  ends : (rest : Text) → last_mode hash m (s ++ rest) ≡ last_mode hash code rest

module _ (hash : Bool) where
  parts-Scans : (ps : List Part) → All IsPart ps → Scans hash quoted (parts_text ps) (parts_text ps)
  unfolding strip_from last_mode
  parts-Scans [] h = record { strips = λ rest. refl; ends = λ rest. refl }
  parts-Scans (plain c ∷ ps) ((no_quote, no_escape), h) =
      let tail = parts-Scans ps h in
      record {
        strips = λ rest. ground (arith, tail.strips rest);
        ends = λ rest. ground (arith, tail.ends rest);
      }
  parts-Scans (escape c ∷ ps) (p, h) =
      let tail = parts-Scans ps h in
      record { strips = λ rest. ap (λ t. 92 ∷ c ∷ t) (tail.strips rest); ends = tail.ends }

  line-Scans : (s : Text) → any (λ c. c == 10) s ≡ false → Scans hash line (s ++ 10 ∷ []) (10 ∷ [])
  unfolding strip_from last_mode
  line-Scans [] h = record { strips = λ rest. refl; ends = λ rest. refl }
  line-Scans (c ∷ s) h =
      let tail = line-Scans s (ground arith) in
      record {
        strips = λ rest. ground (arith, tail.strips rest);
        ends = λ rest. ground (arith, tail.ends rest);
      }

  block-Scans : (s : Text) → has_close s ≡ false → Scans hash block (s ++ 42 ∷ 47 ∷ []) []
  unfolding strip_from last_mode
  block-Scans [] h = record { strips = λ rest. refl; ends = λ rest. refl }
  block-Scans (c ∷ []) h =
      let tail = block-Scans [] refl in
      record {
        strips = λ rest. ground (arith, tail.strips rest);
        ends = λ rest. ground (arith, tail.ends rest);
      }
  block-Scans (c ∷ d ∷ s) h =
      let tail = block-Scans (d ∷ s) (ground arith) in
      record {
        strips = λ rest. ground (arith, tail.strips rest);
        ends = λ rest. ground (arith, tail.ends rest);
      }

  piece-Scans : (p : Piece) → IsPiece hash p → Scans hash code (text_of p) (left_of p)
  unfolding strip_from last_mode
  piece-Scans (char c) h = record { strips = λ rest. ground arith; ends = λ rest. ground arith }
  piece-Scans (slash c) h = record { strips = λ rest. ground arith; ends = λ rest. ground arith }
  piece-Scans (string ps) h =
      let tail = parts-Scans ps h in
      record { strips = λ rest. ap (◌∷◌ 34) (tail.strips rest); ends = tail.ends }
  piece-Scans (line_comment s) h =
      let tail = line-Scans s h in
      record {
        strips = λ rest. ground (arith, tail.strips rest);
        ends = λ rest. ground (arith, tail.ends rest);
      }
  piece-Scans (hash_comment s) (hcl, h) =
      let tail = line-Scans s h in
      record {
        strips = λ rest. ground (arith, tail.strips rest);
        ends = λ rest. ground (arith, tail.ends rest);
      }
  piece-Scans (block_comment s) h =
      let tail = block-Scans s h in
      record {
        strips = λ rest. ground (arith, tail.strips rest);
        ends = λ rest. ground (arith, tail.ends rest);
      }

  pieces-Scans :
      (ps : List Piece) → All (IsPiece hash) ps → Scans hash code (texts_of ps) (left_of_all ps)
  pieces-Scans [] h = record { strips = λ rest. refl; ends = λ rest. refl }
  pieces-Scans (p ∷ ps) (is_piece, h) =
      let head = piece-Scans p is_piece in
      let tail = pieces-Scans ps h in
      record {
        strips = λ rest.
            rw
              (
                append_assoc (text_of p) (texts_of ps) rest,
                append_assoc (left_of p) (left_of_all ps) (strip_from hash code rest),
              )
              (head.strips (texts_of ps ++ rest) ∙ ap (λ t. left_of p ++ t) (tail.strips rest));
        ends = λ rest.
            rw (append_assoc (text_of p) (texts_of ps) rest)
              (head.ends (texts_of ps ++ rest) ∙ tail.ends rest);
      }

  block-open : (s : Text) → has_close s ≡ false → last_mode hash block s ≡ block
  unfolding last_mode
  block-open [] h = refl
  block-open (c ∷ s) h = ground (arith, block-open s)

  string-open :
      (s : Text)
      → any (λ c. c == 34 || c == 92) s ≡ false
      → (strip_from hash quoted s ≡ s) × (last_mode hash quoted s ≡ quoted)
  unfolding strip_from last_mode
  string-open [] h = (refl, refl)
  string-open (c ∷ s) h = ground (arith, string-open s)

-- From a text of code, strings and comments, _strip_jsonc_comments drops the comments and nothing else: a
-- string stays whole, whatever it holds, and a line comment leaves its newline.
pub strip_jsonc-pieces :
    (ps : List Piece) → All (IsPiece false) ps → strip_jsonc (texts_of ps) ≡ left_of_all ps
unfolding strip_jsonc
strip_jsonc-pieces ps h =
    ap (strip_from false code) (sym (append-nil (texts_of ps)))
    ∙ ((pieces-Scans false ps h).strips [] ∙ append-nil (left_of_all ps))

-- _strip_hcl_comments does so too, where "#" opens a comment as well, and is None behind such a text on a block
-- comment that is not closed.
pub strip_hcl-pieces :
    (ps : List Piece)
    → All (IsPiece true) ps
    → (strip_hcl (texts_of ps) ≡ some (left_of_all ps))
      × ((s : Text) → has_close s ≡ false → strip_hcl (texts_of ps ++ 47 ∷ 42 ∷ s) ≡ none)
unfolding strip_hcl strip_from last_mode
strip_hcl-pieces ps h =
    let scan = pieces-Scans true ps h in
    (
      ap strip_hcl (sym (append-nil (texts_of ps)))
          ∙ rw (scan.ends [], scan.strips []) (ap some (append-nil (left_of_all ps))),
      λ s open'. rw (scan.ends (47 ∷ 42 ∷ s)) (rw (block-open true s open')),
    )

-- A string that is not closed is let pass: what follows its quote counts as the string, and is kept.
pub strip_hcl-open_string :
    (ps : List Piece) (s : Text)
    → All (IsPiece true) ps
    → any (λ c. c == 34 || c == 92) s ≡ false
    → strip_hcl (texts_of ps ++ 34 ∷ s) ≡ some (left_of_all ps ++ 34 ∷ s)
unfolding strip_hcl strip_from last_mode
strip_hcl-open_string ps s h open' =
    let scan = pieces-Scans true ps h in
    let (kept, mode) = string-open true s open' in
    rw (scan.ends (34 ∷ s), scan.strips (34 ∷ s)) (rw (mode, kept))
