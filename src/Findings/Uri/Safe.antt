-- ===== src/Findings/Uri/Safe.antt =====
-- The paths that normalize_uri of sdk/runwhen_capability/findings.py gives, against the worktree.
use mathlib.Core.Option.{some-injective}
use rw_checks_codecollection.Prelude.{
  ℕ, ◌≡◌, refl, sym, ap, ap₂, ◌∙◌, subst, inl, inr, true, false, not, ◌&&◌, ◌||◌, List, [], ◌∷◌,
  ◌++◌, Option, none, some, ◌==◌, Text, text_eq, map, arith, Bool-cases, if_intro, All,
}
use rw_checks_codecollection.Paths.{forward_slash, drop_dot_slash, split_slash, dot_dot}
use rw_checks_codecollection.Findings.Uri.{
  path_parts, joined_or_empty, join_parts, relative_parts, climbs, is_dot, is_absolute, leading,
  dot_if_empty, normpath, located, clean_relative, clean_absolute, placed, normalize_uri,
}
use rw_checks_codecollection.Findings.Uri.Parts.{
  stays, IsNormal, join_parts-stays, path_parts-relative, path_parts-absolute,
  relative_parts-IsNormal, join_parts-climbs,
}

joined-stays : (ps : List Text) → All IsNormal ps → stays (joined_or_empty ps) ≡ true
unfolding stays split_slash text_eq
joined-stays [] h = refl
joined-stays (p ∷ ps) h = join_parts-stays (p ∷ ps) h

dot_if_empty-stays : (t : Text) → stays t ≡ true → stays (dot_if_empty t) ≡ true
unfolding stays split_slash text_eq
dot_if_empty-stays [] h = refl
dot_if_empty-stays (c ∷ t) h = h

slash-stays : (t : Text) → stays (47 ∷ t) ≡ stays t
unfolding stays split_slash text_eq
slash-stays t = refl

leading-stays : (p t : Text) → stays t ≡ true → stays (leading p ++ t) ≡ true
leading-stays [] t h = h
leading-stays (c ∷ []) t h = if_intro (λ l. stays (l ++ t) ≡ true) (c == 47) (slash-stays t ∙ h) h
leading-stays (c ∷ d ∷ []) t h =
    if_intro (λ l. stays (l ++ t) ≡ true) (c == 47)
      (if_intro (λ l. stays (l ++ t) ≡ true) (d == 47) (slash-stays (47 ∷ t) ∙ slash-stays t ∙ h)
        (slash-stays t ∙ h))
      h
leading-stays (c ∷ d ∷ e ∷ p) t h =
    if_intro (λ l. stays (l ++ t) ≡ true) (c == 47)
      (if_intro (λ l. stays (l ++ t) ≡ true) (d == 47 && not (e == 47))
        (slash-stays (47 ∷ t) ∙ slash-stays t ∙ h) (slash-stays t ∙ h))
      h

leading-relative : (p : Text) → is_absolute p ≡ false → leading p ≡ []
leading-relative [] h = refl
leading-relative (c ∷ []) h = rw h refl
leading-relative (c ∷ d ∷ []) h = rw h refl
leading-relative (c ∷ d ∷ e ∷ p) h = rw h refl

dots-climb : (rest : List Text) → climbs (dot_if_empty (joined_or_empty (dot_dot ∷ rest))) ≡ true
unfolding climbs
dots-climb [] = refl
dots-climb (p ∷ rest) = refl

normpath-climbs :
    (p : Text) (rest : List Text)
    → is_absolute p ≡ false
    → path_parts false p ≡ dot_dot ∷ rest
    → climbs (normpath p) ≡ true
unfolding normpath
normpath-climbs p rest here up = rw (leading-relative p here, here, up) (dots-climb rest)

-- A normalised path that does not climb has no part "..".
pub normpath-stays : (p : Text) → climbs (normpath p) ≡ false → stays (normpath p) ≡ true
unfolding normpath
normpath-stays p level = elim (Bool-cases (is_absolute p)) [
  | inl root ↦ rw root (
      dot_if_empty-stays _
        (leading-stays p _ (joined-stays (path_parts true p) (path_parts-absolute p))))
  | inr here ↦ elim (path_parts-relative p) [
    | inl normal ↦
        rw here
          (dot_if_empty-stays _ (leading-stays p _ (joined-stays (path_parts false p) normal)))
    | inr (rest, up) ↦ cc (normpath-climbs p rest here up, level)
  ]
]

dot_slash-stays : (t : Text) → stays (46 ∷ 47 ∷ t) ≡ stays t
unfolding stays split_slash text_eq
dot_slash-stays t = refl

drop_dot_slash-stays : (p : Text) → stays p ≡ true → stays (drop_dot_slash p) ≡ true
drop_dot_slash-stays [] h = h
drop_dot_slash-stays (c ∷ []) h = h
drop_dot_slash-stays (c ∷ d ∷ p) h = elim (Bool-cases (c == 46 && d == 47)) [
  | inl there ↦ rw there (dropped p (subst (λ t. stays t ≡ true) (start there) h))
  | inr other ↦ rw other h
]
  where
    start : (c == 46 && d == 47) ≡ true → c ∷ d ∷ p ≡ 46 ∷ 47 ∷ p
    start k = ap₂ (λ x y. x ∷ y ∷ p) (ground arith) (ground arith)

    dropped : (t : Text) → stays (46 ∷ 47 ∷ t) ≡ true → stays t ≡ true
    dropped t k = sym (dot_slash-stays t) ∙ k

leading-root : (path : Text) → (tail : Text) × (leading (47 ∷ path) ≡ 47 ∷ tail)
leading-root [] = ([], refl)
leading-root (d ∷ []) =
    if_intro (λ l. (tail : Text) × (l ≡ 47 ∷ tail)) (d == 47) (47 ∷ [], refl) ([], refl)
leading-root (d ∷ e ∷ p) =
    if_intro (λ l. (tail : Text) × (l ≡ 47 ∷ tail)) (d == 47 && not (e == 47)) (47 ∷ [], refl)
      ([], refl)

-- The normal form of an absolute path starts with a slash.
normpath-root : (path : Text) → (tail : Text) × (normpath (47 ∷ path) ≡ 47 ∷ tail)
unfolding normpath
normpath-root path = leads (leading-root path)
  where
    leads :
        (tail : Text) × (leading (47 ∷ path) ≡ 47 ∷ tail)
        → (t : Text) × (normpath (47 ∷ path) ≡ 47 ∷ t)
    leads (tail, e) = (tail ++ joined_or_empty (path_parts true (47 ∷ path)), rw e refl)

climbs-root : (t : Text) → climbs (47 ∷ t) ≡ false
unfolding climbs
climbs-root [] = refl
climbs-root (c ∷ []) = refl
climbs-root (c ∷ d ∷ t) = refl

is_dot-root : (t : Text) → is_dot (47 ∷ t) ≡ false
is_dot-root [] = refl
is_dot-root (c ∷ t) = refl

module _ (urlparse : Text → Option (Text × Text)) (unquote : Text → Text) (abs_root : Text) where
  clean_relative-stays :
      (p r : Text) → clean_relative urlparse unquote abs_root p ≡ some r → stays r ≡ true
  clean_relative-stays p r h =
      let clean = normpath (drop_dot_slash p) in
      elim (Bool-cases (is_dot clean || climbs clean)) [
        | inl out ↦ cc (rw out at h)
        | inr fine ↦
            subst (λ t. stays t ≡ true) (some-injective _ _ (rw fine at h))
              (normpath-stays (drop_dot_slash p) (ground arith))
      ]

  clean_absolute-stays :
      (p r : Text) → clean_absolute urlparse unquote abs_root p ≡ some r → stays r ≡ true
  clean_absolute-stays p r h =
      let root = path_parts true abs_root in
      let parts = path_parts true p in
      let rel = join_parts (relative_parts root parts) in
      elim (Bool-cases (climbs rel)) [
        | inl out ↦ cc (rw out at h)
        | inr fine ↦ elim (relative_parts-IsNormal root parts (path_parts-absolute p)) [
          | inl normal ↦
              subst (λ t. stays t ≡ true) (some-injective _ _ (rw fine at h))
                (drop_dot_slash-stays rel (join_parts-stays (relative_parts root parts) normal))
          | inr (rest, up) ↦ cc (ap (λ ps. climbs (join_parts ps)) up, join_parts-climbs rest, fine)
        ]
      ]

  placed-stays :
      (at : Option Text) (r : Text) → placed urlparse unquote abs_root at ≡ some r → stays r ≡ true
  placed-stays none r h = cc
  placed-stays (some p) r h = elim (Bool-cases (is_absolute (map forward_slash p))) [
    | inl root ↦ clean_absolute-stays (map forward_slash p) r (rw root at h)
    | inr here ↦ clean_relative-stays (map forward_slash p) r (rw here at h)
  ]

  pub normalize_uri-stays :
      (uri r : Text) → normalize_uri urlparse unquote abs_root uri ≡ some r → stays r ≡ true
  unfolding normalize_uri
  normalize_uri-stays [] r h = cc
  normalize_uri-stays (c ∷ uri) r h =
      placed-stays (located urlparse unquote abs_root (c ∷ uri) (urlparse (c ∷ uri))) r h

  -- A location that starts with "./" and a further slash is taken as the absolute path behind the dot,
  -- wherever that lies: it is neither relative to the worktree nor dropped.
  pub normalize_uri-absolute :
      (c : ℕ) (uri p path : Text)
      → located urlparse unquote abs_root (c ∷ uri) (urlparse (c ∷ uri)) ≡ some p
      → map forward_slash p ≡ 46 ∷ 47 ∷ 47 ∷ path
      → (normalize_uri urlparse unquote abs_root (c ∷ uri) ≡ some (normpath (47 ∷ path)))
        × (is_absolute (normpath (47 ∷ path)) ≡ true)
  unfolding normalize_uri
  normalize_uri-absolute c uri p path found dots =
      let (tail, starts) = normpath-root path in
      let absolute : is_absolute (normpath (47 ∷ path)) ≡ true = rw starts refl in
      let level : climbs (normpath (47 ∷ path)) ≡ false = rw starts (climbs-root tail) in
      let more : is_dot (normpath (47 ∷ path)) ≡ false = rw starts (is_dot-root tail) in
      (rw (found, dots, more, level) refl, absolute)
