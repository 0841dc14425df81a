-- ===== src/Serve/Scope.antt =====
-- Which scope ids _is_safe_scope_id of sdk/runwhen_capability/serve.py takes.
use rw_checks_codecollection.Prelude.{
  ◌≡◌, refl, sym, ap, ◌↔◌, true, false, List, [], ◌∷◌, ◌==◌, Text, text_eq, text_eq_iff, arith,
  if_intro, All, subst,
}
use rw_checks_codecollection.Paths.{
  split_step, split_slash, no_part, last_part, path_name, dot_dot, has_slash, IsPart,
  split_slash-parts,
}
use rw_checks_codecollection.Serve.{is_safe_scope_id}

last_part-IsPart : (p : Text) (ps : List Text) → IsPart p → All IsPart ps → IsPart (last_part p ps)
last_part-IsPart p [] h k = h
last_part-IsPart p (q ∷ ps) h (k, ks) =
    if_intro IsPart (no_part q) (last_part-IsPart p ps h ks) (last_part-IsPart q ps k ks)

path_name-IsPart : (t : Text) → IsPart (path_name t)
unfolding path_name
path_name-IsPart t = last_part-IsPart [] (split_slash t) refl (split_slash-parts t)

split_slash-one : (t : Text) → has_slash t ≡ false → split_slash t ≡ t ∷ []
unfolding split_slash
split_slash-one [] h = refl
split_slash-one (c ∷ s) h =
    let other : (c == 47) ≡ false = ground arith in
    rw other (ap (split_step c) (split_slash-one s (ground arith)))

path_name-one : (t : Text) → has_slash t ≡ false → no_part t ≡ false → path_name t ≡ t
unfolding path_name
path_name-one t h k = rw (split_slash-one t h, k) refl

-- A scope id is taken exactly where it is one ordinary segment of a path: neither empty nor "." nor "..",
-- and without a slash.
pub is_safe_scope_id_iff :
    (scope_id : Text)
    → (is_safe_scope_id scope_id ≡ true) ↔ (
        (has_slash scope_id ≡ false)
        × (no_part scope_id ≡ false)
        × (text_eq scope_id dot_dot ≡ false))
unfolding is_safe_scope_id
is_safe_scope_id_iff scope_id = (there, back)
  where
    there :
        is_safe_scope_id scope_id ≡ true
        → (has_slash scope_id ≡ false)
          × (no_part scope_id ≡ false)
          × (text_eq scope_id dot_dot ≡ false)
    there h =
        let same : scope_id ≡ path_name scope_id = (text_eq_iff _ _).0 (ground arith) in
        (subst IsPart (sym same) (path_name-IsPart scope_id), ground arith, ground arith)

    back :
        (has_slash scope_id ≡ false)
          × (no_part scope_id ≡ false)
          × (text_eq scope_id dot_dot ≡ false)
        → is_safe_scope_id scope_id ≡ true
    back (slash, part, dots) =
        let same : text_eq scope_id (path_name scope_id) ≡ true =
          (text_eq_iff _ _).1 (sym (path_name-one scope_id slash part)) in
        rw (part, dots, same) refl
