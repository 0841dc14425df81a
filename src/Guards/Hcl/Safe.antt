-- ===== src/Guards/Hcl/Safe.antt =====
-- What the guard of tflint in capabilities/rw-checks/guards.py makes sure of.
use mathlib.Core.Option.{some-injective}
use rw_checks_codecollection.Prelude.{
  ℕ, zero, suc, ◌+◌, ◌-◌, ◌≤◌, ◌≡◌, refl, sym, ap, ◌∙◌, inl, inr, Bool, true, false, not, List, [],
  ◌∷◌, Option, none, some, ◌==◌, if◌then◌else◌, Text, codes, length, any, text_eq_iff, All, In,
  here, there, Bool-cases, Option-cases, arith,
}
use rw_checks_codecollection.Faults.{Result}
use rw_checks_codecollection.Guards.Files.{FilePath, Files, refuse, safe, for_each}
use rw_checks_codecollection.Guards.Comments.{strip_hcl}
use rw_checks_codecollection.Guards.Sql.{is_space, lstrip, strip_prefix}
use rw_checks_codecollection.Guards.Safe.{
  refuse-ne-safe, and_then-safe, for_each-safe, Given, Reads, each_file-safe,
}
use rw_checks_codecollection.Guards.Hcl.{
  on_some, quote_open, until_quote, match_plugin, skip_of, cons_some, plugins_from, hcl_block,
  has_heredoc, attr_words, dir_words, sets_key, plugin_check, stripped_check, hcl_check, tflint,
}

-- `p` is what a text comes to from some position on.
pub data Behind (p : Text) : Text → Type 0 where
  at_start : Behind p p
  at_later : {c : ℕ} {s : Text} → Behind p s → Behind p (c ∷ s)

-- No "p" stands in a text before the rest of it.
data Free (rest : Text) : Text → Type 0 where
  nothing : Free rest rest
  more : {c : ℕ} {s : Text} → (112 == c) ≡ false → Free rest s → Free rest (c ∷ s)

Free-trans : {r s t : Text} → Free s t → Free r s → Free r t
Free-trans nothing g = g
Free-trans (more e f) g = more e (Free-trans f g)

abbrev IsFree : ℕ → Type 0
IsFree c = (112 == c) ≡ false

All-IsFree : (s : Text) → any (λ c. 112 == c) s ≡ false → All IsFree s
All-IsFree [] h = tt
All-IsFree (c ∷ s) h = (ground arith, All-IsFree s (ground arith))

Free-strip_prefix : (w s r : Text) → All IsFree w → strip_prefix w s ≡ some r → Free r s
unfolding strip_prefix
Free-strip_prefix [] s r f h = rw (some-injective _ _ h) nothing
Free-strip_prefix (c ∷ w) [] r f h = absurd (cc)
Free-strip_prefix (c ∷ w) (d ∷ s) r (e, f) h = elim (Bool-cases (c == d)) [
  | inr other ↦ absurd (cc (rw other at h))
  | inl same ↦
      let eq : c ≡ d = ground arith in more (rw (← eq) e) (Free-strip_prefix w s r f (rw same at h))
]

is_space-IsFree : (c : ℕ) → is_space c ≡ true → IsFree c
is_space-IsFree c h = elim (Bool-cases (112 == c)) [
  | inr other ↦ other
  | inl same ↦ let eq : c ≡ 112 = ground arith in absurd (cc (rw eq at h))
]

Free-lstrip : (s : Text) → Free (lstrip s) s
unfolding lstrip
Free-lstrip [] = nothing
Free-lstrip (c ∷ s) = elim (Bool-cases (is_space c)) [
  | inl space ↦ rw space (more (is_space-IsFree c space) (Free-lstrip s))
  | inr other ↦ rw other nothing
]

quote_open-some :
    (c : ℕ) (found : Option (Text × Text)) (name rest : Text)
    → quote_open c found ≡ some (name, rest)
    → (tail : Text) × (found ≡ some (tail, rest)) × (name ≡ c ∷ tail)
quote_open-some c none name rest h = absurd (cc)
quote_open-some c (some (tail, r)) name rest h =
    let e = some-injective _ _ h in (tail, ap (λ x. some (tail, x.1)) e, sym (ap (λ x. x.0) e))

Free-until_quote :
    (s name rest : Text) → until_quote s ≡ some (name, rest) → All IsFree name → Free rest s
unfolding until_quote
Free-until_quote [] name rest h f = absurd (cc)
Free-until_quote (c ∷ s) name rest h f = elim (Bool-cases (c == 34)) [
  | inl quote ↦
      let e : s ≡ rest = ap (λ x. x.1) (some-injective _ _ (rw quote at h)) in
      let eq : c ≡ 34 = ground arith in rw (eq, e) (more refl nothing)
  | inr other ↦
      let (tail, deeper, starts) = quote_open-some c (until_quote s) name rest (rw other at h) in
      let (e, es) : All IsFree (c ∷ tail) = rw starts at f in
      more e (Free-until_quote s tail rest deeper es)
]

on_some-eq-some {ℓ κ} :
    {A : Type ℓ} {B : Type κ} (m : Option A) (f : A → Option B) {b : B}
    → on_some m f ≡ some b
    → (a : A) × (m ≡ some a) × (f a ≡ some b)
on_some-eq-some none f h = absurd (cc)
on_some-eq-some (some a) f h = (a, refl, h)

-- The first letter of "plugin" is its only "p".
Free-plugin : (c : ℕ) (s r : Text) → strip_prefix (codes "plugin") (c ∷ s) ≡ some r → Free r s
unfolding strip_prefix
Free-plugin c s r h = elim (Bool-cases (112 == c)) [
  | inl same ↦
      Free-strip_prefix (codes "lugin") s r (All-IsFree (codes "lugin") refl) (rw same at h)
  | inr other ↦ absurd (cc (rw other at h))
]

Free-match_plugin :
    (c : ℕ) (s name rest : Text)
    → match_plugin (c ∷ s) ≡ some (name, rest)
    → All IsFree name
    → Free rest s
unfolding match_plugin
Free-match_plugin c s name rest h f =
    let (a, word, h1) = on_some-eq-some (strip_prefix (codes "plugin") (c ∷ s)) _ h in
    let (b, opened, h2) = on_some-eq-some (strip_prefix (34 ∷ []) (lstrip a)) _ h1 in
    let ((n, d), quoted, h3) = on_some-eq-some (until_quote b) _ h2 in
    let (r, brace, h4) = on_some-eq-some (strip_prefix (123 ∷ []) (lstrip d)) _ h3 in
    let e = some-injective _ _ h4 in
    let e_name : n ≡ name = ap (λ x. x.0) e in
    let e_rest : r ≡ rest = ap (λ x. x.1) e in
    Free-trans (Free-plugin c s a word) (
      Free-trans (Free-lstrip a) (
        Free-trans (Free-strip_prefix (34 ∷ []) (lstrip a) b (refl, tt) opened) (
          Free-trans (Free-until_quote b n d quoted (rw e_name f)) (
            Free-trans (Free-lstrip d)
              (Free-strip_prefix (123 ∷ []) (lstrip d) rest (refl, tt) (brace ∙ ap some e_rest))))))

-- No plugin block starts at the next `skip` positions.
abbrev Quiet : ℕ → Text → Type 0
Quiet zero s = Unit
Quiet (suc skip) [] = Unit
Quiet (suc skip) (c ∷ s) = (match_plugin (c ∷ s) ≡ none) × Quiet skip s

match_plugin-IsFree : (c : ℕ) (s : Text) → IsFree c → match_plugin (c ∷ s) ≡ none
unfolding match_plugin strip_prefix
match_plugin-IsFree c s h = rw h refl

Quiet-Free : (skip : ℕ) {rest s : Text} → Free rest s → length s ≡ skip + length rest → Quiet skip s
Quiet-Free zero f h = tt
Quiet-Free (suc skip) nothing h = absurd (omega arith)
Quiet-Free (suc skip) (more e f) h = (match_plugin-IsFree _ _ e, Quiet-Free skip f (omega arith))

Free-length : {rest s : Text} → Free rest s → length rest ≤ length s
Free-length nothing = omega arith
Free-length (more e f) = omega (arith, Free-length f)

abbrev terraform : Text
terraform = codes "terraform"

abbrev AllTerraform : List (Text × Text) → Type 0
AllTerraform found = All (λ p. p.0 ≡ terraform) found

-- Between the first letter of a block of that name and its brace no block starts.
Quiet-match :
    (c : ℕ) (s : Text) (found : Option (Text × Text)) (later : List (Text × Text))
    → match_plugin (c ∷ s) ≡ found
    → AllTerraform (cons_some found later)
    → Quiet (skip_of found s) s × AllTerraform later
Quiet-match c s none later h all = (tt, all)
Quiet-match c s (some (name, rest)) later h (named, all) =
    let free = Free-match_plugin c s name rest h (rw named (All-IsFree terraform refl)) in
    (Quiet-Free (length s - length rest) free (omega (arith, Free-length free)), all)

In-cons_some {ℓ} :
    {A : Type ℓ} {a : A} (found : Option A) (xs : List A) → In a xs → In a (cons_some found xs)
In-cons_some none xs h = h
In-cons_some (some x) xs h = there h

match_plugin_nil : match_plugin [] ≡ none
unfolding match_plugin strip_prefix
match_plugin_nil = refl

-- finditer comes to every block, as none stands within another match.
In-plugins_from :
    {p : Text} {found : Text × Text} (skip : ℕ) {s : Text}
    → Behind p s
    → match_plugin p ≡ some found
    → Quiet skip s
    → AllTerraform (plugins_from skip s)
    → In found (plugins_from skip s)
unfolding plugins_from
In-plugins_from {p = []} skip at_start h q all = absurd (cc (match_plugin_nil, h))
In-plugins_from {p = c ∷ s} zero at_start h q all = rw h here
In-plugins_from {p = c ∷ s} (suc skip) at_start h q all = absurd (cc (q.0, h))
In-plugins_from zero (at_later {c = c} {s = s} b) h q all =
    let (quiet, later) = Quiet-match c s (match_plugin (c ∷ s)) _ refl all in
    In-cons_some (match_plugin (c ∷ s)) _
      (In-plugins_from (skip_of (match_plugin (c ∷ s)) s) b h quiet later)
In-plugins_from (suc skip) (at_later b) h q all = In-plugins_from skip b h q.1 all

-- Every block that opens a plugin anywhere in the text is that of terraform and sets neither source nor
-- version, and plugin_dir is not set.
pub record IsSafeHcl (is_word : ℕ → Bool) (s : Text) : Type 0 where
  pub plugin :
      (p name rest : Text)
      → Behind p s
      → match_plugin p ≡ some (name, rest)
      → (name ≡ terraform) × (sets_key is_word attr_words false (hcl_block rest) ≡ false)
  pub no_dir : sets_key is_word dir_words false s ≡ false

-- There is no heredoc, every block comment is closed, and what is left without comments is safe.
pub record IsSafeText (is_word : ℕ → Bool) (text : Text) : Type 0 where
  pub no_heredoc : has_heredoc text ≡ false
  pub stripped : Text
  pub strips : strip_hcl text ≡ some stripped
  pub safe_hcl : IsSafeHcl is_word stripped

if_refuse-safe :
    (b : Bool) (r : Result Text) (m : Result (Option Text))
    → (if b then refuse r else m) ≡ safe
    → (b ≡ false) × (m ≡ safe)
if_refuse-safe true r m h = absurd (refuse-ne-safe r h)
if_refuse-safe false r m h = (refl, h)

not-false : (b : Bool) → not b ≡ false → b ≡ true
not-false true h = refl
not-false false h = cc

module _ (is_word : ℕ → Bool) (files : Files) (tree : FilePath) where
  IsPlain : Text × Text → Type 0
  IsPlain (name, rest) =
      (name ≡ terraform) × (sets_key is_word attr_words false (hcl_block rest) ≡ false)

  plugin_check-safe :
      (path : FilePath) (found : Text × Text)
      → plugin_check is_word files tree path found ≡ safe
      → IsPlain found
  unfolding IsPlain
  plugin_check-safe path (name, rest) h =
      let (known, h1) = if_refuse-safe _ _ _ h in
      let (unset, h2) = if_refuse-safe _ _ _ h1 in
      ((text_eq_iff name terraform).0 (not-false _ known), unset)

  all_plugins-safe :
      (path : FilePath) (found : List (Text × Text))
      → for_each (plugin_check is_word files tree path) found ≡ safe
      → AllTerraform found
  unfolding for_each IsPlain
  all_plugins-safe path [] h = tt
  all_plugins-safe path (x ∷ xs) h =
      let (one, rest) = and_then-safe _ _ h in
      ((plugin_check-safe path x one).0, all_plugins-safe path xs rest)

  stripped_check-safe :
      (path : FilePath) (s : Text)
      → stripped_check is_word files tree path (some s) ≡ safe
      → IsSafeHcl is_word s
  unfolding IsPlain
  stripped_check-safe path s h =
      let (blocks, dir) = and_then-safe _ _ h in
      record {
        plugin = λ p name rest b m.
            plugin_check-safe path (name, rest)
              (for_each-safe (plugin_check is_word files tree path) _ blocks
                (In-plugins_from 0 b m tt (all_plugins-safe path _ blocks)));
        no_dir = (if_refuse-safe _ _ _ dir).0;
      }

  hcl_check-safe :
      (path : FilePath) (text : Text)
      → hcl_check is_word files tree path text ≡ safe
      → IsSafeText is_word text
  hcl_check-safe path text h =
      let (plain, h1) =
        if_refuse-safe (has_heredoc text) _
          (stripped_check is_word files tree path (strip_hcl text)) h in
      elim (Option-cases (strip_hcl text)) [
        | inl open_comment ↦ absurd (refuse-ne-safe _ (rw open_comment at h1))
        | inr (s, strips) ↦ record {
          no_heredoc = plain;
          stripped = s;
          strips = strips;
          safe_hcl = stripped_check-safe path s (rw strips at h1);
        }
      ]

  -- If the guard of tflint lets it run, every .tflint.hcl among the files was read and has no heredoc, and
  -- behind its comments no plugin block anywhere but that of terraform, without source and version, and no
  -- plugin_dir.
  pub tflint-safe :
      (paths : List FilePath)
      → tflint is_word files tree paths ≡ safe
      → (path : FilePath) → Given files paths (codes ".tflint.hcl" ∷ []) path
      → Reads (files.read_text path) (IsSafeText is_word)
  unfolding tflint
  tflint-safe paths h path g =
      let (text, reads, checked) =
        each_file-safe files tree paths (codes ".tflint.hcl" ∷ []) files.read_text
          (hcl_check is_word files tree) h path g in
      (text, reads, hcl_check-safe path text checked)
