-- ===== src/RepoFs/Tree.antt =====
-- The tree that the query ops of sdk/runwhen_capability/repo_query.py run on, with the reads of
-- sdk/runwhen_capability/repo_fs.py.
use rw_checks_codecollection.Prelude.{
  ℕ, ◌≤◌, ◌≡◌, refl, ap, subst, inl, inr, Bool, List, Option, none, some, Text, Option-cases,
}
use rw_checks_codecollection.Json.{Json, obj, Fields, get}
use rw_checks_codecollection.Faults.{Result, ok, raise, ok-injective, error_code}
use rw_checks_codecollection.Models.{
  GrepResult, LsResult, OpResult, grep_result, read_result, ls_result, QueryOpResult,
}
use rw_checks_codecollection.Query.Fields.{Attempt, done, invalid, raised, ◌>>=◌}
use rw_checks_codecollection.Query.Ops.{
  GrepCall, Repo, attempt, grep_op, read_from, read_op, ls_op, defs_op, refs_op, OpName, op_name,
  dispatch, answer, run_named, run_op, op_error,
}
use rw_checks_codecollection.Query.Fit.{entry_size, with_result, trim}
use rw_checks_codecollection.Query.Fit.Trim.{HasRanges, trim-fits}
use rw_checks_codecollection.RepoFs.Read.{Disk, read_ranges, find_around}
use rw_checks_codecollection.RepoFs.Content.{read_ranges-IsRange}

-- The interface of the ops, its reads filled by those of a disk.
abbrev pub repo_of :
    Disk
    → (GrepCall → Result GrepResult)
    → (Option Text → Option ℕ → Result LsResult)
    → (Text → Text → Bool)
    → Repo
repo_of disk grep_tree ls_tree re_search = record {
  check_tree_materialized = disk.check_tree_materialized;
  grep_tree = grep_tree;
  read_ranges = read_ranges disk;
  find_around = find_around disk;
  ls_tree = ls_tree;
  re_search = re_search;
}

-- A handler's result, if it gives one, has proper ranges.
record Yields (a : Attempt OpResult) : Type 0 where
  given : (r : OpResult) → a ≡ done r → HasRanges (some r)

Yields-bind :
    {A : Type 0} (m : Attempt A) (f : A → Attempt OpResult)
    → ((a : A) → m ≡ done a → Yields (f a))
    → Yields (m >>= f)
Yields-bind (done a) f h = h a refl
Yields-bind (invalid t) f h = record { given = λ r e. absurd (cc) }
Yields-bind (raised x) f h = record { given = λ r e. absurd (cc) }

Yields-then :
    {A : Type 0} (m : Attempt A) (f : A → Attempt OpResult)
    → ((a : A) → Yields (f a))
    → Yields (m >>= f)
Yields-then m f h = Yields-bind m f (λ a e. h a)

Yields-invalid : (t : Text) → Yields (invalid t)
Yields-invalid t = record { given = λ r e. absurd (cc) }

done-injective {ℓ} : {A : Type ℓ} {a b : A} → done a ≡ done b → a ≡ b
done-injective h = cc

Yields-grep : (g : GrepResult) → Yields (done (grep_result g))
Yields-grep g = record { given = λ r e. subst (λ x. HasRanges (some x)) (done-injective e) tt }

Yields-ls : (l : LsResult) → Yields (done (ls_result l))
Yields-ls l = record { given = λ r e. subst (λ x. HasRanges (some x)) (done-injective e) tt }

attempt-done : {A : Type 0} (m : Result A) (a : A) → attempt m ≡ done a → m ≡ ok a
attempt-done (ok b) a h = ap ok (done-injective h)
attempt-done (raise x) a h = absurd (cc)

module _ (disk : Disk) (grep_tree : GrepCall → Result GrepResult)
    (ls_tree : Option Text → Option ℕ → Result LsResult) (re_search : Text → Text → Bool) where
  abbrev repo : Repo
  repo = repo_of disk grep_tree ls_tree re_search

  Yields-read :
      (path : Text) (ranges : List (ℕ × ℕ))
      → Yields (attempt (read_ranges disk path ranges) >>= λ r. done (read_result r))
  Yields-read path ranges = Yields-bind (attempt (read_ranges disk path ranges)) _ (λ r e. record {
    given = λ x q.
        subst (λ y. HasRanges (some y)) (done-injective q)
          (read_ranges-IsRange disk path ranges r (attempt-done _ r e));
  })

  Yields-read_from :
      (op : Fields) (path : Text) (ranges around : Option Json)
      → Yields (read_from repo op path ranges around)
  Yields-read_from op path none none = Yields-invalid _
  Yields-read_from op path (some a) none = Yields-bind _ _ (λ ranges e. Yields-read path ranges)
  Yields-read_from op path none (some b) = search (Yields-then, Yields-read) depth 7
  Yields-read_from op path (some a) (some b) = Yields-invalid _

  Yields-grep_op : (op : Fields) → Yields (grep_op repo op)
  unfolding grep_op
  Yields-grep_op op = search (Yields-then, Yields-grep) depth 9

  Yields-ls_op : (op : Fields) → Yields (ls_op repo op)
  unfolding ls_op
  Yields-ls_op op = search (Yields-then, Yields-ls) depth 7

  Yields-defs_op : (op : Fields) → Yields (defs_op repo op)
  unfolding defs_op
  Yields-defs_op op = search (Yields-then, Yields-grep) depth 7

  Yields-refs_op : (op : Fields) → Yields (refs_op repo op)
  unfolding refs_op
  Yields-refs_op op = search (Yields-then, Yields-grep) depth 7

  Yields-read_op : (op : Fields) → Yields (read_op repo op)
  unfolding read_op
  Yields-read_op op =
      Yields-then _ _ (λ path. Yields-read_from op path (get "ranges" op) (get "around" op))

  Yields-dispatch : (name : OpName) (op : Fields) → Yields (dispatch repo name op)
  unfolding dispatch
  Yields-dispatch OpName.grep op = Yields-grep_op op
  Yields-dispatch OpName.read op = Yields-read_op op
  Yields-dispatch OpName.ls op = Yields-ls_op op
  Yields-dispatch OpName.defs op = Yields-defs_op op
  Yields-dispatch OpName.refs op = Yields-refs_op op

  answer-HasRanges :
      (index : ℕ) (name : OpName) (a : Attempt OpResult) (e : QueryOpResult)
      → Yields a
      → answer index name a ≡ ok e
      → HasRanges e.result
  unfolding answer op_error
  answer-HasRanges index name (done r) e y h =
      subst (λ (x : QueryOpResult). HasRanges x.result) (ok-injective h) (y.given r refl)
  answer-HasRanges index name (invalid t) e y h =
      subst (λ (x : QueryOpResult). HasRanges x.result) (ok-injective h) tt
  answer-HasRanges index name (raised x) e y h = elim (Option-cases (error_code x.kind)) [
    | inl uncoded ↦ cc (rw (answer, uncoded) at h)
    | inr (code, coded) ↦
        subst (λ (x : QueryOpResult). HasRanges x.result) (ok-injective (rw (answer, coded) at h))
          tt
  ]

  run_named-HasRanges :
      (repr : Option Json → Text) (index : ℕ) (op : Fields) (name : Option OpName)
      (e : QueryOpResult)
      → run_named repo repr index op name ≡ ok e
      → HasRanges e.result
  unfolding op_error
  run_named-HasRanges repr index op none e h =
      subst (λ (x : QueryOpResult). HasRanges x.result) (ok-injective h) tt
  run_named-HasRanges repr index op (some name) e h =
      answer-HasRanges index name (dispatch repo name op) e (Yields-dispatch name op) h

  run_op-HasRanges :
      (repr : Option Json → Text) (index : ℕ) (op : Json) (e : QueryOpResult)
      → run_op repo repr index op ≡ ok e
      → HasRanges e.result
  unfolding run_op
  run_op-HasRanges repr index (obj op) e h =
      run_named-HasRanges repr index op (op_name (obj op)) e h
  run_op-HasRanges repr index _ e h =
      subst (λ (x : QueryOpResult). HasRanges x.result) (ok-injective h) tt

  -- With the reads of repo_fs.py, whatever an op comes to: where _fit trims its entry, the trimmed entry
  -- fits the room that is available.
  pub run_op-trim-fits :
      (repr : Option Json → Text) (index : ℕ) (op : Json) (e : QueryOpResult) (room : ℕ)
      (result : OpResult)
      → run_op repo repr index op ≡ ok e
      → trim e e.result room ≡ some result
      → entry_size (with_result e result) ≤ room
  run_op-trim-fits repr index op e room result h t =
      trim-fits e e.result room result (run_op-HasRanges repr index op e h) t
