-- ===== src/Guards/Sql/Mirror.antt =====
-- The search in bytes of capabilities/rw-checks/guards.py against its search in a decoded text.
pub mod Bytes
pub mod Agree
use rw_checks_codecollection.Prelude.{
  ℕ, ◌≡◌, refl, sym, ap, ◌∙◌, ◌⊎◌, inl, inr, Bool, true, false, not, ◌&&◌, ◌||◌, List, [], ◌∷◌,
  ◌++◌, Option, none, some, ◌==◌, if◌then◌else◌, Text, arith, Bool-cases, Option-cases, In, here,
  there, All, append_assoc, any, map, subst,
}
use rw_checks_codecollection.Guards.Sql.{
  is_space, splits, lines_from, splitlines, lstrip, strip_prefix, spaced_marker, tight_marker,
  after_marker, directive_of, first_key, key_path, directive_lines, sql_inline_directive,
  directive_markers, line_ws,
}
use rw_checks_codecollection.Guards.Sql.Lines.{
  Stands, AtStart, Behind, splitlines-Stands, NoSplit, lines_from-NoSplit, In-All,
}

pub strip_prefix-eq : (p s : Text) {rest : Text} → strip_prefix p s ≡ some rest → s ≡ p ++ rest
unfolding strip_prefix
strip_prefix-eq [] s h = cc
strip_prefix-eq (c ∷ p) [] h = absurd (cc)
strip_prefix-eq (c ∷ p) (d ∷ s) {rest} h = elim (Bool-cases (c == d)) [
  | inr other ↦ absurd (cc (rw other at h))
  | inl same ↦ let tail : s ≡ p ++ rest = strip_prefix-eq p s (rw same at h) in ground arith
]

-- A directive: blanks, a marker and what stands behind it.
pub record IsDirective (line : Text) : Type 0 where
  pub lead : Text
  pub marker : Text
  pub rest : Text
  pub blank : any (λ c. not (is_space c)) lead ≡ false
  pub known : In marker directive_markers
  pub whole : line ≡ lead ++ (marker ++ rest)

lstrip-lead :
    (line : Text)
    → (lead : Text) × (line ≡ lead ++ lstrip line) × (any (λ c. not (is_space c)) lead ≡ false)
unfolding lstrip
lstrip-lead [] = ([], refl, refl)
lstrip-lead (c ∷ s) = elim (Bool-cases (is_space c)) [
  | inr other ↦ ([], rw other, refl)
  | inl space ↦ let (lead, e, h) = lstrip-lead s in (c ∷ lead, rw space (ap (◌∷◌ c) e), rw space h)
]

directive_of-IsDirective :
    (line : Text) {rest : Text} → directive_of line ≡ some rest → IsDirective line
directive_of-IsDirective line {rest} h =
    let (lead, e, blank) = lstrip-lead line in
    elim (Option-cases (strip_prefix spaced_marker (lstrip line))) [
      | inr (r, found) ↦ record {
        lead = lead;
        marker = spaced_marker;
        rest = r;
        blank = blank;
        known = here;
        whole = e ∙ ap (λ t. lead ++ t) (strip_prefix-eq spaced_marker _ found);
      }
      | inl other ↦ record {
        lead = lead;
        marker = tight_marker;
        rest = rest;
        blank = blank;
        known = there here;
        whole = e ∙ ap (λ t. lead ++ t) (strip_prefix-eq tight_marker _ (rw other at h));
      }
    ]

directive_lines-found :
    (lower : Text → Text) (lines : List Text)
    → (directive_lines lower false lines).0 ≡ true
    → (line : Text) × In line lines × IsDirective line
unfolding directive_lines
directive_lines-found lower [] h = absurd (cc)
directive_lines-found lower (line ∷ lines) h = elim (Option-cases (directive_of line)) [
  | inr (rest, found) ↦ (line, here, directive_of-IsDirective line found)
  | inl other ↦
      let (l, i, d) = directive_lines-found lower lines (rw (directive_lines, other) at h) in
      (l, there i, d)
]

-- Where a text has a directive, one of its lines is a directive, and stands at its start or behind a
-- character that ends a line.
pub sql_inline_directive-Stands :
    (lower : Text → Text) (text : Text)
    → (sql_inline_directive lower text).0 ≡ true
    → (line : Text) × Stands text line × IsDirective line × NoSplit line
unfolding sql_inline_directive
sql_inline_directive-Stands lower text h =
    let (line, i, d) = directive_lines-found lower (splitlines text) h in
    (line, splitlines-Stands text i, d, In-All NoSplit _ (lines_from-NoSplit false text) i)
