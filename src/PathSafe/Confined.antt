-- ===== src/PathSafe/Confined.antt =====
-- What safe_path of sdk/runwhen_capability/pathsafe.py lets through.
use mathlib.Core.Option.{some-injective}
use rw_checks_codecollection.Prelude.{
  ◌≡◌, refl, sym, ap, ◌∙◌, ◌⊎◌, inl, inr, Bool, true, false, not, ◌||◌, List, [], ◌∷◌, ◌++◌, some,
  Text, text_eq, text_eq_iff, map, any, All, Bool-cases, if_intro,
}
use rw_checks_codecollection.Paths.{split_slash, dot_dot}
use rw_checks_codecollection.Faults.{Exn, ok, raise, ok-injective}
use rw_checks_codecollection.Findings.{keep_if}
use rw_checks_codecollection.Findings.Uri.{
  join_parts, relative_parts, climbs, is_absolute, normpath,
}
use rw_checks_codecollection.Findings.Uri.Parts.{stays, join_parts-climbs}
use rw_checks_codecollection.Findings.Uri.Safe.{normpath-stays}
use rw_checks_codecollection.PathSafe.{
  Resolution, reaches, missing, failed, throws, normal, confined_to, joined_parts, if_inside,
  on_resolved, safe_path,
}

-- The normal form of a path continues that of the base.
abbrev pub IsUnder : List Text → List Text → Type 0
IsUnder base target = (tail : List Text) × (normal target ≡ normal base ++ tail)

abbrev pub IsNotUp : Text → Type 0
IsNotUp p = text_eq dot_dot p ≡ false

-- A relative path that does not climb continues the path that it starts from.
relative_parts-prefix :
    (root path : List Text)
    → climbs (join_parts (relative_parts root path)) ≡ false
    → (tail : List Text) × (path ≡ root ++ tail)
unfolding relative_parts
relative_parts-prefix [] path h = (path, refl)
relative_parts-prefix (r ∷ root) [] h = absurd (cc (join_parts-climbs (map (λ _. dot_dot) root), h))
relative_parts-prefix (r ∷ root) (p ∷ path) h = elim (Bool-cases (text_eq r p)) [
  | inl same ↦
      let (tail, e) = relative_parts-prefix root path (rw same at h) in
      let eq : r ≡ p = (text_eq_iff r p).0 same in
      (tail, ap (◌∷◌ p) e ∙ ap (λ x. x ∷ (root ++ tail)) (sym eq))
  | inr other ↦
      absurd (cc (join_parts-climbs (map (λ _. dot_dot) root ++ p ∷ path), (rw other at h)))
]

not-true : (b : Bool) → not b ≡ true → b ≡ false
not-true true h = cc
not-true false h = refl

confined_to-IsUnder :
    (base target : List Text) → confined_to base target ≡ true → IsUnder base target
unfolding confined_to
confined_to-IsUnder base target h =
    relative_parts-prefix (normal base) (normal target) (not-true _ h)

or-false : (a b : Bool) → a || b ≡ false → (a ≡ false) × (b ≡ false)
or-false true b h = cc
or-false false b h = (refl, h)

All-kept :
    (keep : Text → Bool) (ps : List Text)
    → any (text_eq dot_dot) ps ≡ false
    → All IsNotUp (keep_if keep ps)
All-kept keep [] h = tt
All-kept keep (p ∷ ps) h =
    let (level, levels) = or-false (text_eq dot_dot p) _ h in
    let rest = All-kept keep ps levels in if_intro (All IsNotUp) (keep p) (level, rest) rest

-- The relative path that safe_path joins has no part "..".
joined_parts-IsNotUp :
    (path : Text) → climbs (normpath path) ≡ false → All IsNotUp (joined_parts (normpath path))
unfolding stays
joined_parts-IsNotUp path h =
    All-kept _ (split_slash (normpath path)) (not-true _ (normpath-stays path h))

module _ (resolve : List Text → Resolution) (worktree : List Text) where
  -- A path that exists lies, behind all links, below what the worktree is behind all links.
  abbrev pub StaysInside : List Text → Type 0
  StaysInside full =
      (resolve full ≡ missing)
      ⊎ ((behind root : List Text) × (resolve full ≡ reaches behind)
          × (resolve worktree ≡ reaches root)
          × IsUnder root behind)

  some-ok : {a b : List Text} → ok (some a) ≡ ok (some b) → a ≡ b
  some-ok h = some-injective _ _ (ok-injective h)

  -- What stands behind the path, against the worktree.
  if_inside-inside :
      (full out behind : List Text) (r : Resolution)
      → resolve worktree ≡ r
      → if_inside resolve worktree full behind r ≡ ok (some out)
      → (full ≡ out)
        × ((root : List Text) × (resolve worktree ≡ reaches root) × IsUnder root behind)
  if_inside-inside full out behind (reaches root) e h =
      elim (Bool-cases (confined_to root behind)) [
        | inl inside ↦ (some-ok (rw inside at h), (root, e, confined_to-IsUnder root behind inside))
        | inr outside ↦ absurd (cc (rw outside at h))
      ]
  if_inside-inside full out behind missing e h = absurd (cc)
  if_inside-inside full out behind failed e h = absurd (cc)
  if_inside-inside full out behind (throws x) e h = absurd (cc)

  on_resolved-inside :
      (full out : List Text) (r : Resolution)
      → resolve full ≡ r
      → on_resolved resolve worktree full r ≡ ok (some out)
      → (full ≡ out) × StaysInside full
  on_resolved-inside full out (reaches behind) e h =
      let (same, (root, e_root, under)) = if_inside-inside full out behind _ refl h in
      (same, inr (behind, root, e, e_root, under))
  on_resolved-inside full out missing e h = (some-ok h, inl e)
  on_resolved-inside full out failed e h = absurd (cc)
  on_resolved-inside full out (throws x) e h = absurd (cc)

  -- A path that safe_path gives is the worktree's, continued by parts of which none is "..", it lies below
  -- the worktree by its text, and, if it exists, also behind all links.
  pub safe_path-confined :
      (path : Text) (full : List Text)
      → safe_path resolve worktree path ≡ ok (some full)
      → ((rel : List Text) × (full ≡ worktree ++ rel) × All IsNotUp rel)
        × IsUnder worktree full
        × StaysInside full
  unfolding safe_path
  safe_path-confined path full h =
      let clean = normpath path in
      let joined = worktree ++ joined_parts clean in
      elim (Bool-cases (is_absolute clean || climbs clean)) [
        | inl out ↦ absurd (cc (rw out at h))
        | inr level ↦ elim (Bool-cases (confined_to worktree joined)) [
          | inl inside ↦
              let (same, stays_inside) =
                on_resolved-inside joined full (resolve joined) refl (rw (level, inside) at h) in
              (
                (joined_parts clean, sym same, joined_parts-IsNotUp path (or-false _ _ level).1),
                rw (← same) (confined_to-IsUnder worktree joined inside),
                rw (← same) stays_inside,
              )
          | inr outside ↦ absurd (cc (rw (level, outside) at h))
        ]
      ]

  if_inside-raise :
      (full behind : List Text) (r : Resolution) (x : Exn)
      → if_inside resolve worktree full behind r ≡ raise x
      → r ≡ throws x
  if_inside-raise full behind (reaches root) x h = elim (Bool-cases (confined_to root behind)) [
    | inl inside ↦ absurd (cc (rw inside at h))
    | inr outside ↦ absurd (cc (rw outside at h))
  ]
  if_inside-raise full behind missing x h = absurd (cc)
  if_inside-raise full behind failed x h = absurd (cc)
  if_inside-raise full behind (throws y) x h = cc

  on_resolved-raise :
      (full : List Text) (r : Resolution) (x : Exn)
      → on_resolved resolve worktree full r ≡ raise x
      → (r ≡ throws x) ⊎ (resolve worktree ≡ throws x)
  on_resolved-raise full (reaches behind) x h = inr (if_inside-raise full behind _ x h)
  on_resolved-raise full missing x h = absurd (cc)
  on_resolved-raise full failed x h = absurd (cc)
  on_resolved-raise full (throws y) x h = inl (cc)

  -- safe_path raises only what resolving the joined path or the worktree throws besides an OSError, as for
  -- a loop of links, and only for a path that does not climb.
  pub safe_path-raise :
      (path : Text) (x : Exn)
      → safe_path resolve worktree path ≡ raise x
      → (climbs (normpath path) ≡ false)
        × ((resolve (worktree ++ joined_parts (normpath path)) ≡ throws x)
            ⊎ (resolve worktree ≡ throws x))
  unfolding safe_path
  safe_path-raise path x h =
      let clean = normpath path in
      let joined = worktree ++ joined_parts clean in
      elim (Bool-cases (is_absolute clean || climbs clean)) [
        | inl out ↦ absurd (cc (rw out at h))
        | inr level ↦ elim (Bool-cases (confined_to worktree joined)) [
          | inl inside ↦
              ((or-false _ _ level).1, on_resolved-raise joined _ x (rw (level, inside) at h))
          | inr outside ↦ absurd (cc (rw (level, outside) at h))
        ]
      ]
