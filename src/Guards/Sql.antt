-- ===== src/Guards/Sql.antt =====
-- The guard of sqlfluff in capabilities/rw-checks/guards.py, with its search of linted files for inline
-- directives, in decoded texts and in bytes. The decoders are an interface.
pub mod Lines
pub mod Mirror
pub mod Safe
use rw_checks_codecollection.Prelude.{
  ℕ, zero, suc, ◌+◌, ◌-◌, ◌*◌, ◌/◌, ◌%◌, Bool, true, false, not, ◌&&◌, ◌||◌, List, [], ◌∷◌, ◌++◌,
  Option, none, some, ltb, leb, ◌==◌, if◌then◌else◌, Text, codes, text_eq, mem, any, all, map,
  length,
}
use rw_checks_codecollection.Faults.{Result, ok, raise}
use rw_checks_codecollection.Findings.{keep_if}
use rw_checks_codecollection.Guards.Document.{toml_table}
use rw_checks_codecollection.Guards.Files.{
  FilePath, Load, Files, name_of, selected, sorted_paths, about, reason, refuse, safe, and_then,
  for_each, on_load,
}
use rw_checks_codecollection.Guards.Tools.{ini_files, table_files, same_words}

-- str.isspace of one character
abbrev pub is_space : ℕ → Bool
is_space c =
    (leb 9 c && leb c 13)
    || ((leb 28 c && leb c 32)
        || (c == 0x85
            || (c == 0xa0
                || (c == 0x1680
                    || ((leb 0x2000 c && leb c 0x200a)
                        || (c == 0x2028
                            || (c == 0x2029 || (c == 0x202f || (c == 0x205f || c == 0x3000)))))))))

-- The characters at which str.splitlines ends a line.
abbrev pub splits : ℕ → Bool
splits c =
    (leb 10 c && leb c 13)
    || ((leb 28 c && leb c 30) || (c == 0x85 || (c == 0x2028 || c == 0x2029)))

abbrev pub push_first : ℕ → List Text → List Text
push_first c [] = (c ∷ []) ∷ []
push_first c (l ∷ ls) = (c ∷ l) ∷ ls

-- str.splitlines, behind a carriage return or not: a newline there ends no further line.
unfoldable pub lines_from : Bool → Text → List Text
lines_from after_cr [] = []
lines_from after_cr (c ∷ s) =
    let rest = lines_from (c == 13) s in
    if after_cr && c == 10 then rest else if splits c then [] ∷ rest else push_first c rest

abbrev pub splitlines : Text → List Text
splitlines text = lines_from false text

unfoldable pub lstrip : Text → Text
lstrip [] = []
lstrip (c ∷ s) = let rest = lstrip s in if is_space c then rest else c ∷ s

abbrev pub strip_end : Text → Text
strip_end [] = []
strip_end (c ∷ s) = elim (strip_end s) [
  | [] ↦ if is_space c then [] else c ∷ []
  | d ∷ t ↦ c ∷ d ∷ t
]

-- s[len(p):] if s.startswith(p)
unfoldable pub strip_prefix : Text → Text → Option Text
strip_prefix [] s = some s
strip_prefix (c ∷ p) [] = none
strip_prefix (c ∷ p) (d ∷ s) = let rest = strip_prefix p s in if c == d then rest else none

abbrev pub push_key : ℕ → List Text → List Text
push_key c [] = []
push_key c (k ∷ ks) = (c ∷ k) ∷ ks

-- text.split(":")[:-1]
unfoldable pub key_path : Text → List Text
key_path [] = []
key_path (c ∷ s) = let rest = key_path s in if c == 58 then [] ∷ rest else push_key c rest

abbrev pub sqlfluff_keys : List Text
sqlfluff_keys =
    codes "library_path"
    ∷ codes "loader_search_path"
    ∷ codes "load_macros_from_path"
    ∷ codes "exclude_macros_from_path"
    ∷ []

-- _sqlfluff_why
abbrev pub sqlfluff_why : Text → Text
sqlfluff_why key =
    if text_eq key (codes "library_path")
    then codes "which sqlfluff imports Python modules from"
    else codes "which sqlfluff reads files from"

abbrev pub spaced_marker : Text
spaced_marker = codes "-- sqlfluff"

abbrev pub tight_marker : Text
tight_marker = codes "--sqlfluff"

-- What stands behind the marker of a directive, if the line is one.
abbrev pub after_marker : Option Text → Text → Option Text
after_marker (some rest) stripped = some rest
after_marker none stripped = strip_prefix tight_marker stripped

abbrev pub directive_of : Text → Option Text
directive_of line = after_marker (strip_prefix spaced_marker (lstrip line)) (lstrip line)

module _ (lower : Text → Text) where
  abbrev pub first_key : List Text → Option Text
  first_key [] = none
  first_key (segment ∷ segments) =
      let key = lower (strip_end (lstrip segment)) in
      let rest = first_key segments in if mem key sqlfluff_keys then some key else rest

  -- The loop over the lines: whether one was a directive, and the first key that counts.
  unfoldable pub directive_lines : Bool → List Text → Bool × Option Text
  unfolding lstrip strip_prefix key_path
  directive_lines found [] = (found, none)
  directive_lines found (line ∷ lines) = elim (directive_of line) [
    | none ↦ directive_lines found lines
    | some rest ↦ elim (first_key (key_path rest)) [
      | some key ↦ (true, some key)
      | none ↦ directive_lines true lines
    ]
  ]

  -- _sql_inline_directive
  unfoldable pub sql_inline_directive : Text → Bool × Option Text
  unfolding directive_lines lines_from
  sql_inline_directive text = directive_lines false (splitlines text)

pub data Encoding : Type 0 where
  utf_8 utf_16_le utf_16_be utf_32_le utf_32_be : Encoding

abbrev pub two_bytes_le : ℕ → List ℕ
two_bytes_le u = u % 256 ∷ (u / 256) % 256 ∷ []

abbrev pub two_bytes_be : ℕ → List ℕ
two_bytes_be u = (u / 256) % 256 ∷ u % 256 ∷ []

abbrev pub utf_16_units : ℕ → List ℕ
utf_16_units c =
    if ltb c 0x10000
    then c ∷ []
    else (0xd800 + (c - 0x10000) / 0x400) ∷ (0xdc00 + (c - 0x10000) % 0x400) ∷ []

abbrev pub units_bytes : (ℕ → List ℕ) → List ℕ → List ℕ
units_bytes bytes [] = []
units_bytes bytes (u ∷ us) = bytes u ++ units_bytes bytes us

abbrev pub utf_8_bytes : ℕ → List ℕ
utf_8_bytes c =
    if ltb c 0x80
    then c ∷ []
    else if ltb c 0x800
    then (0xc0 + c / 0x40) ∷ (0x80 + c % 0x40) ∷ []
    else if ltb c 0x10000
    then (0xe0 + c / 0x1000) ∷ (0x80 + (c / 0x40) % 0x40) ∷ (0x80 + c % 0x40) ∷ []
    else (0xf0 + c / 0x40000)
      ∷ (0x80 + (c / 0x1000) % 0x40)
      ∷ (0x80 + (c / 0x40) % 0x40)
      ∷ (0x80 + c % 0x40)
      ∷ []

-- chr(c).encode(encoding)
unfoldable pub encode_char : Encoding → ℕ → List ℕ
encode_char utf_8 c = utf_8_bytes c
encode_char utf_16_le c = units_bytes two_bytes_le (utf_16_units c)
encode_char utf_16_be c = units_bytes two_bytes_be (utf_16_units c)
encode_char utf_32_le c = two_bytes_le c ++ two_bytes_le (c / 0x10000)
encode_char utf_32_be c = two_bytes_be (c / 0x10000) ++ two_bytes_be c

-- text.encode(encoding)
unfoldable pub encode : Encoding → Text → List ℕ
unfolding encode_char
encode encoding [] = []
encode encoding (c ∷ s) = encode_char encoding c ++ encode encoding s

-- _SQL_BOM_BY_ENCODING
abbrev pub bom_of : Encoding → List ℕ
bom_of utf_8 = 0xef ∷ 0xbb ∷ 0xbf ∷ []
bom_of utf_16_le = 0xff ∷ 0xfe ∷ []
bom_of utf_16_be = 0xfe ∷ 0xff ∷ []
bom_of utf_32_le = 0xff ∷ 0xfe ∷ 0 ∷ 0 ∷ []
bom_of utf_32_be = 0 ∷ 0 ∷ 0xfe ∷ 0xff ∷ []

-- The encodings of _SQL_BOMS, the longest byte order mark first.
abbrev pub bom_order : List Encoding
bom_order = utf_32_le ∷ utf_32_be ∷ utf_8 ∷ utf_16_le ∷ utf_16_be ∷ []

abbrev pub marker_encodings : List Encoding
marker_encodings = utf_8 ∷ utf_16_le ∷ utf_16_be ∷ utf_32_le ∷ utf_32_be ∷ []

abbrev pub directive_markers : List Text
directive_markers = spaced_marker ∷ tight_marker ∷ []

-- _SQL_LINE_WS
abbrev pub line_ws : Text
line_ws = 32 ∷ 9 ∷ 13 ∷ 11 ∷ 12 ∷ []

abbrev pub boundary_candidates : Text
boundary_candidates = 10 ∷ 13 ∷ 11 ∷ 12 ∷ 0x1c ∷ 0x1d ∷ 0x1e ∷ 0x85 ∷ 0x2028 ∷ 0x2029 ∷ []

abbrev pub lines_eq : List Text → List Text → Bool
lines_eq [] [] = true
lines_eq (l ∷ ls) (m ∷ ms) = text_eq l m && lines_eq ls ms
lines_eq _ _ = false

-- _splitlines_boundary_chars: those candidates at which splitlines does break
unfoldable pub line_boundaries : Text
unfolding lines_from text_eq
line_boundaries =
    keep_if (λ c. lines_eq (splitlines (codes "a" ++ c ∷ codes "b")) (codes "a" ∷ codes "b" ∷ []))
      boundary_candidates

-- What is left behind the first of some texts that stands here, each encoded.
abbrev pub strip_any : Encoding → Text → List ℕ → Option (List ℕ)
strip_any encoding [] bytes = none
strip_any encoding (c ∷ cs) bytes = elim (strip_prefix (encode_char encoding c) bytes) [
  | some rest ↦ some rest
  | none ↦ strip_any encoding cs bytes
]

abbrev pub has_prefix : List ℕ → List ℕ → Bool
has_prefix p bytes = elim (strip_prefix p bytes) [ none ↦ false | some rest ↦ true ]

-- The rest of the pattern of _sql_marker_pattern: blanks and the marker. The fuel is the length, as each
-- blank takes a byte at least.
unfoldable pub blanks_then : Encoding → List ℕ → ℕ → List ℕ → Bool
unfolding strip_prefix encode_char
blanks_then encoding marker zero bytes = has_prefix marker bytes
blanks_then encoding marker (suc fuel) bytes =
    has_prefix marker bytes || elim (strip_any encoding line_ws bytes) [
      | none ↦ false
      | some rest ↦ blanks_then encoding marker fuel rest
    ]

abbrev pub marked : Encoding → List ℕ → Option (List ℕ) → Bool
marked encoding marker none = false
marked encoding marker (some bytes) = blanks_then encoding marker (length bytes) bytes

-- A line boundary here, one of these, and then blanks and the marker.
unfoldable pub boundary_match : Encoding → List ℕ → Text → List ℕ → Bool
unfolding blanks_then
boundary_match encoding marker [] bytes = false
boundary_match encoding marker (b ∷ bs) bytes =
    marked encoding marker (strip_prefix (encode_char encoding b) bytes)
    || boundary_match encoding marker bs bytes

-- pattern.search, from here on
unfoldable pub search_boundary : Encoding → List ℕ → List ℕ → Bool
unfolding boundary_match line_boundaries
search_boundary encoding marker [] = boundary_match encoding marker line_boundaries []
search_boundary encoding marker (c ∷ bytes) =
    boundary_match encoding marker line_boundaries (c ∷ bytes)
    || search_boundary encoding marker bytes

-- The same at the start of the data, behind a byte order mark or none.
unfoldable pub start_match : Encoding → List ℕ → List ℕ → Bool
unfolding blanks_then
start_match encoding marker bytes =
    marked encoding marker (strip_prefix (bom_of encoding) bytes)
    || marked encoding marker (some bytes)

unfoldable pub pattern_search : Encoding → Text → List ℕ → Bool
unfolding start_match search_boundary encode
pattern_search encoding marker bytes =
    start_match encoding (encode encoding marker) bytes
    || search_boundary encoding (encode encoding marker) bytes

-- data.lower()
abbrev pub lower_byte : ℕ → ℕ
lower_byte b = if leb 65 b && leb b 90 then b + 32 else b

-- _sql_marker_present
unfoldable pub sql_marker_present : List ℕ → Bool
unfolding pattern_search
sql_marker_present bytes =
    any
      (λ marker.
        any (λ encoding. pattern_search encoding marker (map lower_byte bytes)) marker_encodings)
      directive_markers

-- What decodes a file: decode with errors="replace" and "backslashreplace", and the text under the guess of
-- chardet, if it makes one that names a codec.
pub record Decoders : Type 0 where
  pub decode_replace : List ℕ → Text
  pub decode_backslash : Encoding → List ℕ → Text
  pub guessed : List ℕ → Option Text

module _ (decoders : Decoders) where
  abbrev pub bom_text : List Encoding → List ℕ → List Text
  bom_text [] bytes = []
  bom_text (encoding ∷ encodings) bytes = elim (strip_prefix (bom_of encoding) bytes) [
    | none ↦ bom_text encodings bytes
    | some rest ↦ decoders.decode_backslash encoding rest ∷ []
  ]

  abbrev pub guessed_text : Option Text → List Text
  guessed_text none = []
  guessed_text (some text) = text ∷ []

  -- _sql_texts
  unfoldable pub sql_texts : List ℕ → List Text
  unfolding strip_prefix
  sql_texts bytes =
      decoders.decode_replace bytes
      ∷ (bom_text bom_order bytes ++ guessed_text (decoders.guessed bytes))

-- p.suffix: from the last dot of the name on, if that is neither its first nor its last character
abbrev pub from_last_dot : Text → Option Text
from_last_dot [] = none
from_last_dot (c ∷ s) = elim (from_last_dot s) [
  | some t ↦ some t
  | none ↦ if c == 46 then some (c ∷ s) else none
]

abbrev pub suffix_text : Option Text → Text
suffix_text none = []
suffix_text (some (c ∷ [])) = []
suffix_text (some t) = t

abbrev pub suffix_of : Text → Text
suffix_of [] = []
suffix_of (c ∷ name) = suffix_text (from_last_dot name)

module _ (files : Files) (decoders : Decoders) (tree : FilePath) where
  -- _sql_files
  abbrev pub sql_files : List FilePath → List FilePath
  sql_files paths =
      sorted_paths
        (keep_if (λ p. text_eq (suffix_of (name_of p)) (codes ".sql") && files.is_file p) paths)

  abbrev pub after_texts : FilePath → List ℕ → Bool → Result (Option Text)
  after_texts path bytes directive_seen =
      if not directive_seen && sql_marker_present bytes
      then refuse (
          about tree path (
            codes
              "may contain an inline sqlfluff directive this guard could not decode; treating as unsafe"))
      else safe

  -- The loop over the decoded texts.
  unfoldable pub texts_check : FilePath → List ℕ → Bool → List Text → Result (Option Text)
  unfolding sql_inline_directive sql_marker_present
  texts_check path bytes directive_seen [] = after_texts path bytes directive_seen
  texts_check path bytes directive_seen (text ∷ texts) =
      let directive = sql_inline_directive files.lower text in
      elim directive.1 [
        | some key ↦ refuse (reason tree path (key ++ codes " inline") (sqlfluff_why key))
        | none ↦ texts_check path bytes (directive_seen || directive.0) texts
      ]

  abbrev pub is_sqlfluff_section : Text → Bool
  is_sqlfluff_section section = elim (strip_prefix (codes "sqlfluff") (files.lower section)) [
    | none ↦ false
    | some rest ↦ true
  ]

  unfoldable pub sqlfluff : List FilePath → Result (Option Text)
  unfolding texts_check sql_texts
  sqlfluff paths =
      and_then
        (ini_files files tree
          (codes ".sqlfluff" ∷ codes "setup.cfg" ∷ codes "tox.ini" ∷ codes "pep8.ini" ∷ [])
          is_sqlfluff_section sqlfluff_keys same_words sqlfluff_why paths)
        (and_then
          (table_files files tree (codes "tool" ∷ codes "sqlfluff" ∷ []) sqlfluff_keys sqlfluff_why
            paths)
          (for_each
            (λ path.
              on_load tree path (λ bytes. texts_check path bytes false (sql_texts decoders bytes))
                (files.read_bytes path))
            (sql_files paths)))
