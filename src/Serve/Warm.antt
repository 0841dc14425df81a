-- ===== src/Serve/Warm.antt =====
-- The scopes and directories that a pod of sdk/runwhen_capability/serve.py keeps.
use rw_checks_codecollection.Prelude.{
  ℕ, ◌≤◌, ◌≡◌, refl, ◌∙◌, inl, inr, true, false, List, [], ◌∷◌, ◌++◌, ltb, if◌then◌else◌, Text,
  text_eq_refl, length, arith, Bool-cases, not_ltb→le, mem, remove, IsUnique, mem-remove,
  mem-append, remove-IsUnique, snoc-IsUnique, length-subset,
}
use rw_checks_codecollection.Serve.{
  Pod, Mode, stateless, stateful, evict, made, retain_or_wipe_scope,
}

-- Every directory belongs to a scope on record, and nothing is there twice.
pub record IsTracked (scopes dirs : List Text) : Type 0 where
  pub tracked : (d : Text) → mem d dirs ≡ true → mem d scopes ≡ true
  pub scopes_unique : IsUnique scopes
  pub dirs_unique : IsUnique dirs

evict-IsTracked :
    (max_scopes : ℕ) (scopes dirs : List Text)
    → IsTracked scopes dirs
    → let p = evict max_scopes scopes dirs in
      IsTracked p.scopes p.dirs × (length p.scopes ≤ max_scopes)
unfolding evict mem
evict-IsTracked max_scopes [] dirs h = (h, omega arith)
evict-IsTracked max_scopes (oldest ∷ scopes) dirs h =
    elim (Bool-cases (ltb max_scopes (length (oldest ∷ scopes)))) [
      | inl many ↦ rw many (evict-IsTracked max_scopes scopes (remove oldest dirs) (fewer h))
      | inr few ↦ rw few (h, not_ltb→le _ _ few)
    ]
  where
    fewer : IsTracked (oldest ∷ scopes) dirs → IsTracked scopes (remove oldest dirs)
    fewer t = record {
      tracked = λ d k. ground (
        arith,
        mem-remove d oldest dirs,
        k,
        t.tracked d (ground (arith, mem-remove d oldest dirs, k)),
      );
      scopes_unique = t.scopes_unique.1;
      dirs_unique = remove-IsUnique oldest dirs t.dirs_unique;
    }

-- What a pod promises between two polls.
pub record IsWarm (mode : Mode) (max_scopes : ℕ) (pod : Pod) : Type 0 where
  pub tracking : IsTracked pod.scopes pod.dirs
  pub few : length pod.scopes ≤ max_scopes
  pub clean : mode ≡ stateless → pod.dirs ≡ []

touched-IsTracked :
    (scope_id : Text) (pod : Pod)
    → IsTracked pod.scopes pod.dirs
    → IsTracked (remove scope_id pod.scopes ++ scope_id ∷ []) (made scope_id pod).dirs
unfolding mem
touched-IsTracked scope_id pod h = record {
  tracked = λ d k. ground (
    arith,
    mem-append d (remove scope_id pod.scopes) (scope_id ∷ []),
    mem-remove d scope_id pod.scopes,
    h.tracked d,
    mem-append d pod.dirs (scope_id ∷ []),
    k,
  );
  scopes_unique =
      snoc-IsUnique scope_id (remove scope_id pod.scopes)
        (remove-IsUnique scope_id pod.scopes h.scopes_unique)
        (ground (arith, mem-remove scope_id scope_id pod.scopes, text_eq_refl scope_id));
  dirs_unique = elim (Bool-cases (mem scope_id pod.dirs)) [
    | inl there ↦ rw there h.dirs_unique
    | inr new ↦ rw new (snoc-IsUnique scope_id pod.dirs h.dirs_unique new)
  ];
}

-- The directory of a stateless task is all that its pod has, and it is wiped.
wiped :
    (scope_id : Text) (dirs : List Text)
    → dirs ≡ []
    → remove scope_id (if mem scope_id dirs then dirs else dirs ++ scope_id ∷ []) ≡ []
unfolding mem remove
wiped scope_id [] h = rw (text_eq_refl scope_id) refl
wiped scope_id (d ∷ dirs) h = cc

no_dirs-IsTracked : (scopes dirs : List Text) → IsUnique scopes → dirs ≡ [] → IsTracked scopes dirs
unfolding mem
no_dirs-IsTracked scopes [] h e = record {
  tracked = λ d k. cc;
  scopes_unique = h;
  dirs_unique = tt;
}
no_dirs-IsTracked scopes (d ∷ dirs) h e = cc

-- Serving a task keeps the promise: a stateful pod has at most max_stateful_scopes scopes on record and
-- a directory only for those, a stateless pod has no directory.
pub retain_or_wipe_scope-IsWarm :
    (mode : Mode) (max_scopes : ℕ) (scope_id : Text) (pod : Pod)
    → IsWarm mode max_scopes pod
    → IsWarm mode max_scopes (retain_or_wipe_scope mode max_scopes scope_id (made scope_id pod))
unfolding retain_or_wipe_scope
retain_or_wipe_scope-IsWarm stateless max_scopes scope_id pod h =
    let none_left = wiped scope_id pod.dirs (h.clean refl) in
    record {
      tracking = no_dirs-IsTracked pod.scopes _ h.tracking.scopes_unique none_left;
      few = h.few;
      clean = λ e. none_left;
    }
retain_or_wipe_scope-IsWarm stateful max_scopes scope_id pod h =
    let (tracking, few) =
      evict-IsTracked max_scopes _ _ (touched-IsTracked scope_id pod h.tracking) in
    record { tracking = tracking; few = few; clean = λ e. absurd (cc) }

-- So a pod never holds more directories than scopes.
pub IsWarm-dirs :
    (mode : Mode) (max_scopes : ℕ) (pod : Pod)
    → IsWarm mode max_scopes pod
    → length pod.dirs ≤ max_scopes
IsWarm-dirs mode max_scopes pod h =
    omega
      (arith, h.few, length-subset pod.dirs pod.scopes h.tracking.dirs_unique h.tracking.tracked)

evict-keeps :
    (max_scopes : ℕ) (scope_id : Text) (older dirs : List Text)
    → 1 ≤ max_scopes
    → mem scope_id older ≡ false
    → let p = evict max_scopes (older ++ scope_id ∷ []) dirs in
      (mem scope_id p.scopes ≡ true) × (mem scope_id p.dirs ≡ mem scope_id dirs)
unfolding evict mem
evict-keeps max_scopes scope_id [] dirs pos new =
    let fits : ltb max_scopes 1 ≡ false = ground arith in
    rw fits (ground (arith, text_eq_refl scope_id), refl)
evict-keeps max_scopes scope_id (oldest ∷ older) dirs pos new =
    let rest = evict-keeps max_scopes scope_id older (remove oldest dirs) pos (ground arith) in
    elim (Bool-cases (ltb max_scopes (length (oldest ∷ older ++ scope_id ∷ [])))) [
      | inl many ↦ rw many (rest.0, ground (arith, rest.1, mem-remove scope_id oldest dirs))
      | inr few ↦
          rw few
            (ground (arith, mem-append scope_id older (scope_id ∷ []), text_eq_refl scope_id), refl)
    ]

-- A stateful pod that keeps any scope keeps the one it just served, on record and on disk.
pub retain_or_wipe_scope-keeps :
    (max_scopes : ℕ) (scope_id : Text) (pod : Pod)
    → 1 ≤ max_scopes
    → let p = retain_or_wipe_scope stateful max_scopes scope_id (made scope_id pod) in
      (mem scope_id p.scopes ≡ true) × (mem scope_id p.dirs ≡ true)
unfolding retain_or_wipe_scope mem
retain_or_wipe_scope-keeps max_scopes scope_id pod pos =
    let (on_record, on_disk) =
      evict-keeps max_scopes scope_id (remove scope_id pod.scopes) (made scope_id pod).dirs pos
        (ground (arith, mem-remove scope_id scope_id pod.scopes, text_eq_refl scope_id)) in
    (
      on_record,
      on_disk ∙ ground (arith, mem-append scope_id pod.dirs (scope_id ∷ []), text_eq_refl scope_id),
    )
