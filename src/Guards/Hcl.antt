-- ===== src/Guards/Hcl.antt =====
-- tflint of capabilities/rw-checks/guards.py, with _hcl_block and its three patterns. `\s` is the white
-- space that Guards.Sql lists; `\w` is a parameter.
pub mod Safe
use rw_checks_codecollection.Prelude.{
  ℕ, zero, suc, ◌-◌, Bool, true, false, not, ◌&&◌, ◌||◌, List, [], ◌∷◌, ◌++◌, Option, none, some,
  ◌==◌, if◌then◌else◌, Text, codes, length, any, text_eq,
}
use rw_checks_codecollection.Faults.{Result}
use rw_checks_codecollection.Guards.Files.{
  FilePath, Files, selected, reason, unparseable, refuse, safe, and_then, for_each, on_load,
}
use rw_checks_codecollection.Guards.Comments.{Mode, code, quoted, escaped, next_is, strip_hcl}
use rw_checks_codecollection.Guards.Sql.{is_space, lstrip, strip_prefix}

abbrev pub on_some {ℓ κ} : {A : Type ℓ} {B : Type κ} → Option A → (A → Option B) → Option B
on_some none f = none
on_some (some a) f = f a

abbrev pub quote_open : ℕ → Option (Text × Text) → Option (Text × Text)
quote_open c none = none
quote_open c (some (name, rest)) = some (c ∷ name, rest)

-- [^"]*" : what stands before the quote, and what stands behind it.
unfoldable pub until_quote : Text → Option (Text × Text)
until_quote [] = none
until_quote (c ∷ s) =
    let further = until_quote s in if c == 34 then some ([], s) else quote_open c further

abbrev pub named_block : Text → Option (Text × Text)
named_block s =
    on_some (until_quote s) (λ (name, rest).
      on_some (strip_prefix (123 ∷ []) (lstrip rest)) (λ block. some (name, block)))

-- _TFLINT_PLUGIN_BLOCK at the start of the text: the name, and what stands behind the brace.
unfoldable pub match_plugin : Text → Option (Text × Text)
unfolding strip_prefix lstrip until_quote
match_plugin s =
    on_some (strip_prefix (codes "plugin") s)
      (λ rest. on_some (strip_prefix (34 ∷ []) (lstrip rest)) named_block)

-- How far the search goes on behind the first character of a match.
abbrev pub skip_of : Option (Text × Text) → Text → ℕ
skip_of none s = 0
skip_of (some (name, rest)) s = length s - length rest

abbrev pub cons_some {ℓ} : {A : Type ℓ} → Option A → List A → List A
cons_some none xs = xs
cons_some (some x) xs = x ∷ xs

-- _TFLINT_PLUGIN_BLOCK.finditer, with `skip` characters left of the last match.
unfoldable pub plugins_from : ℕ → Text → List (Text × Text)
unfolding match_plugin
plugins_from skip [] = []
plugins_from (suc skip) (c ∷ s) = plugins_from skip s
plugins_from zero (c ∷ s) =
    let found = match_plugin (c ∷ s) in
    let later = plugins_from (skip_of found s) s in cons_some found later

abbrev next_depth : Mode → ℕ → ℕ → ℕ
next_depth code c depth = if c == 123 then suc depth else if c == 125 then depth - 1 else depth
next_depth _ c depth = depth

abbrev next_mode : Mode → ℕ → Mode
next_mode code c = if c == 34 then quoted else code
next_mode quoted c = if c == 92 then escaped else if c == 34 then code else quoted
next_mode escaped c = quoted
next_mode m c = m

abbrev closes : Mode → ℕ → ℕ → Bool
closes code c depth = c == 125 && depth == 1
closes _ c depth = false

-- The loop of _hcl_block from a mode and a depth on.
unfoldable pub block_from : Mode → ℕ → Text → Text
block_from m depth [] = []
block_from m depth (c ∷ s) =
    let rest = block_from (next_mode m c) (next_depth m c depth) s in
    if closes m c depth then [] else c ∷ rest

-- _hcl_block: the brace stands before the text.
abbrev pub hcl_block : Text → Text
hcl_block rest = block_from code 1 rest

-- "<<" in text
unfoldable pub has_heredoc : Text → Bool
has_heredoc [] = false
has_heredoc (c ∷ s) = (c == 60 && next_is 60 s) || has_heredoc s

abbrev pub attr_words : List Text
attr_words = codes "source" ∷ codes "version" ∷ []

abbrev pub dir_words : List Text
dir_words = codes "plugin_dir" ∷ []

module _ (is_word : ℕ → Bool) where
  abbrev starts_word : Text → Bool
  starts_word [] = false
  starts_word (c ∷ s) = is_word c

  -- \b\s*= behind a word
  abbrev is_set_here : Option Text → Bool
  is_set_here none = false
  is_set_here (some rest) = not (starts_word rest) && next_is 61 (lstrip rest)

  -- The search for \b(?:words)\b\s*= ; `inside` says that a character of a word stands before.
  unfoldable pub sets_key : List Text → Bool → Text → Bool
  unfolding strip_prefix lstrip
  sets_key words inside [] = false
  sets_key words inside (c ∷ s) =
      (not inside && any (λ w. is_set_here (strip_prefix w (c ∷ s))) words)
      || sets_key words (is_word c) s

  module _ (files : Files) (tree : FilePath) where
    abbrev named : Text → Text
    named name = codes "plugin \"" ++ (name ++ codes "\"")

    abbrev pub plugin_check : FilePath → Text × Text → Result (Option Text)
    plugin_check path (name, rest) =
        if not (text_eq name (codes "terraform"))
        then refuse (
            reason tree path (named name)
              (codes "which tflint loads as a binary from the repository"))
        else if sets_key attr_words false (hcl_block rest)
        then refuse (
            reason tree path (named name) (
              codes
                "which names a plugin tflint does not bundle, so tflint installs and loads it as a binary from the repository's plugin dir"))
        else safe

    abbrev pub dir_check : FilePath → Text → Result (Option Text)
    dir_check path stripped =
        if sets_key dir_words false stripped
        then refuse (
            reason tree path (codes "plugin_dir") (codes "which tflint loads plugin binaries from"))
        else safe

    abbrev pub stripped_check : FilePath → Option Text → Result (Option Text)
    stripped_check path none =
        refuse (unparseable tree path (codes "unterminated string or comment"))
    stripped_check path (some stripped) =
        and_then (for_each (plugin_check path) (plugins_from 0 stripped)) (dir_check path stripped)

    abbrev pub hcl_check : FilePath → Text → Result (Option Text)
    hcl_check path text =
        if has_heredoc text
        then refuse
            (reason tree path (codes "a heredoc") (codes "which this guard cannot analyse safely"))
        else stripped_check path (strip_hcl text)

    unfoldable pub tflint : List FilePath → Result (Option Text)
    unfolding for_each plugins_from sets_key block_from has_heredoc strip_hcl
    tflint paths =
        for_each (λ path. on_load tree path (hcl_check path) (files.read_text path))
          (selected files paths (codes ".tflint.hcl" ∷ []))
