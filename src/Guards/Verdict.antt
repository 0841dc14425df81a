-- ===== src/Guards/Verdict.antt =====
-- What _walk of capabilities/rw-checks/guards.py returns, on each of its three answers.
use rw_checks_codecollection.Prelude.{
  ℕ, suc, ◌+◌, ◌≤◌, ◌<◌, ◌≡◌, inl, inr, true, false, List, [], ◌∷◌, ltb, Text, mem, arith,
  Bool-cases, In, here, In-append_left, In-append_right, not_ltb→le, leb, subst,
}
use rw_checks_codecollection.Guards.Document.{
  Doc, scalar, str, list, dict, Items, nil, cons, Entries, end, entry, is_truthy, Found, too_deep,
  pair, walk_max_depth, unless_deep, walk_kv, walk_items, walk_entries, Verdict, nothing, bailed,
  matched, first_found, walk,
}
use rw_checks_codecollection.Guards.Search.{
  Occurs, height, items_height, entries_height, Shows, walk_kv-Shows, AllSound, walk_kv-Sound,
}

module _ (lower : Text → Text) (keys : List Text) where
  unless_deep-fine :
      (depth : ℕ) (fs : List Found)
      → (depth ≤ walk_max_depth → In too_deep fs)
      → In too_deep (unless_deep lower keys depth fs)
  unless_deep-fine depth fs h = elim (Bool-cases (ltb walk_max_depth depth)) [
    | inl deep ↦ rw deep here
    | inr fine ↦ rw fine (h (not_ltb→le walk_max_depth depth fine))
  ]

  mutual
    unfolding walk_kv walk_items walk_entries height items_height entries_height

    walk_kv-deep :
        (depth : ℕ) (d : Doc)
        → walk_max_depth < depth + height d
        → In too_deep (walk_kv lower keys depth d)
    walk_kv-deep depth (scalar b) h = unless_deep-fine depth [] (λ fine. absurd (omega arith))
    walk_kv-deep depth (str s) h = unless_deep-fine depth [] (λ fine. absurd (omega arith))
    walk_kv-deep depth (list xs) h =
        unless_deep-fine depth _ (λ fine. walk_items-deep depth xs h fine)
    walk_kv-deep depth (dict es) h =
        unless_deep-fine depth _ (λ fine. walk_entries-deep depth es h fine)

    walk_items-deep :
        (depth : ℕ) (xs : Items)
        → walk_max_depth < depth + items_height xs
        → depth ≤ walk_max_depth
        → In too_deep (walk_items lower keys (suc depth) xs)
    walk_items-deep depth nil h fine = absurd (omega arith)
    walk_items-deep depth (cons x xs) h fine =
        elim (Bool-cases (ltb walk_max_depth (suc depth + height x))) [
          | inl deep ↦ In-append_left _ _ (walk_kv-deep (suc depth) x (ground arith))
          | inr shallow ↦ In-append_right _ _ (walk_items-deep depth xs (ground arith) fine)
        ]

    walk_entries-deep :
        (depth : ℕ) (es : Entries)
        → walk_max_depth < depth + entries_height es
        → depth ≤ walk_max_depth
        → In too_deep (walk_entries lower keys (suc depth) es)
    walk_entries-deep depth end h fine = absurd (omega arith)
    walk_entries-deep depth (entry k v es) h fine =
        elim (Bool-cases (ltb walk_max_depth (suc depth + height v))) [
          | inl deep ↦
              In-append_right _ _ (In-append_left _ _ (walk_kv-deep (suc depth) v (ground arith)))
          | inr shallow ↦
              In-append_right _ _
                (In-append_right _ _ (walk_entries-deep depth es (ground arith) fine))
        ]

-- What each answer says of the document.
abbrev pub Tells : (Text → Text) → List Text → Doc → Verdict → Type 0
Tells lower keys doc nothing =
    (height doc ≤ walk_max_depth)
    × ((k : Text) (v : Doc) → Occurs k v doc → mem (lower k) keys ≡ true → is_truthy v ≡ false)
Tells lower keys doc bailed = walk_max_depth < height doc
Tells lower keys doc (matched k) =
    (j : Text) × (v : Doc) × (k ≡ lower j)
    × (mem k keys ≡ true)
    × (is_truthy v ≡ true)
    × Occurs j v doc

module _ (lower : Text → Text) (keys : List Text) (doc : Doc) where
  first_found-Tells :
      (fs : List Found)
      → AllSound lower keys (λ k v. Occurs k v doc) (height doc) fs
      → (walk_max_depth < height doc → In too_deep fs)
      → ((k : Text) (v : Doc)
          → Occurs k v doc
          → mem (lower k) keys ≡ true
          → is_truthy v ≡ true
          → Shows (lower k) v fs)
      → Tells lower keys doc (first_found fs)
  first_found-Tells [] sound deep shows = (
    elim (Bool-cases (leb (height doc) walk_max_depth)) [
      | inl fine ↦ ground arith
      | inr over ↦ elim (deep (ground arith)) [ ]
    ],
    λ k v h wanted. elim (Bool-cases (is_truthy v)) [
      | inr falsy ↦ falsy
      | inl truthy ↦ elim (shows k v h wanted truthy) [ inl g ↦ elim g [ ] | inr g ↦ elim g [ ] ]
    ],
  )
  first_found-Tells (too_deep ∷ fs) (over, rest) deep shows = over
  first_found-Tells (pair k v ∷ fs) ((j, same, wanted, truthy, stands), rest) deep shows =
      (j, v, same, wanted, truthy, stands)

-- What _walk returns is right on each of its answers. None: the document nests at most 64 deep, and no key
-- that is searched for stands in it, at any depth, with a true value. _TOO_DEEP: it nests more than 64 deep.
-- A key: that key stands in it with a true value, and is one of those searched for.
pub walk-Tells :
    (lower : Text → Text) (keys : List Text) (doc : Doc)
    → Tells lower keys doc (walk lower keys doc)
unfolding walk
walk-Tells lower keys doc =
    first_found-Tells lower keys doc (walk_kv lower keys 0 doc)
      (subst (λ n. AllSound lower keys (λ k v. Occurs k v doc) n (walk_kv lower keys 0 doc))
        (omega arith) (walk_kv-Sound lower keys 0 doc))
      (λ over. walk_kv-deep lower keys 0 doc (omega arith))
      (λ k v h wanted truthy. walk_kv-Shows lower keys k v wanted truthy 0 doc h)
