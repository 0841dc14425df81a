-- ===== src/Guards/Search.antt =====
-- What the walk of capabilities/rw-checks/guards.py through a document finds, against the places of a key in it.
use rw_checks_codecollection.Prelude.{
  ℕ, suc, ◌+◌, ◌≤◌, ◌<◌, ◌≡◌, refl, ◌⊎◌, inl, inr, true, List, [], ◌∷◌, ◌++◌, ltb, Text, mem, arith,
  All, All-append, ltb→lt, In, here, In-append_left, In-append_right, Bool-cases, max,
}
use rw_checks_codecollection.Guards.Document.{
  Doc, scalar, str, list, dict, Items, nil, cons, Entries, end, entry, is_truthy, Found, too_deep,
  pair, hit, walk_max_depth, unless_deep, walk_kv, walk_items, walk_entries,
}

-- The key `k` stands with the value `v` somewhere in a document, at any depth.
mutual
  pub data Occurs (k : Text) (v : Doc) : Doc → Type 0 where
    in_list : {xs : Items} → OccursItems k v xs → Occurs k v (list xs)
    in_dict : {es : Entries} → OccursEntries k v es → Occurs k v (dict es)

  pub data OccursItems (k : Text) (v : Doc) : Items → Type 0 where
    in_head : {x : Doc} {xs : Items} → Occurs k v x → OccursItems k v (cons x xs)
    in_tail : {x : Doc} {xs : Items} → OccursItems k v xs → OccursItems k v (cons x xs)

  pub data OccursEntries (k : Text) (v : Doc) : Entries → Type 0 where
    at_key : {es : Entries} → OccursEntries k v (entry k v es)
    in_value : {j : Text} {w : Doc} {es : Entries} → Occurs k v w → OccursEntries k v (entry j w es)
    in_rest :
        {j : Text} {w : Doc} {es : Entries}
        → OccursEntries k v es
        → OccursEntries k v (entry j w es)

-- A list of finds that shows a key with its value, or that the walk gave up.
abbrev pub Shows : Text → Doc → List Found → Type 0
Shows k v fs = In too_deep fs ⊎ In (pair k v) fs

module _ (k : Text) (v : Doc) where
  Shows-left : (fs gs : List Found) → Shows k v fs → Shows k v (fs ++ gs)
  Shows-left fs gs (inl h) = inl (In-append_left fs gs h)
  Shows-left fs gs (inr h) = inr (In-append_left fs gs h)

  Shows-right : (fs gs : List Found) → Shows k v gs → Shows k v (fs ++ gs)
  Shows-right fs gs (inl h) = inl (In-append_right fs gs h)
  Shows-right fs gs (inr h) = inr (In-append_right fs gs h)

  Shows-unless_deep :
      (lower : Text → Text) (keys : List Text) (depth : ℕ) (fs : List Found)
      → Shows k v fs
      → Shows k v (unless_deep lower keys depth fs)
  Shows-unless_deep lower keys depth fs h = elim (Bool-cases (ltb walk_max_depth depth)) [
    | inl deep ↦ rw deep (inl here)
    | inr fine ↦ rw fine h
  ]

module _ (lower : Text → Text) (keys : List Text) (k : Text) (v : Doc)
    (wanted : mem (lower k) keys ≡ true) (truthy : is_truthy v ≡ true) where
  Shows-hit : Shows (lower k) v (hit lower keys k v)
  Shows-hit = rw (wanted, truthy) (inr here)

  mutual
    unfolding walk_kv walk_items walk_entries

    pub walk_kv-Shows :
        (depth : ℕ) (d : Doc) → Occurs k v d → Shows (lower k) v (walk_kv lower keys depth d)
    walk_kv-Shows depth (scalar b) h = elim h [ ]
    walk_kv-Shows depth (str s) h = elim h [ ]
    walk_kv-Shows depth (list xs) (in_list h) =
        Shows-unless_deep (lower k) v lower keys depth _ (walk_items-Shows (suc depth) xs h)
    walk_kv-Shows depth (dict es) (in_dict h) =
        Shows-unless_deep (lower k) v lower keys depth _ (walk_entries-Shows (suc depth) es h)

    walk_items-Shows :
        (depth : ℕ) (xs : Items)
        → OccursItems k v xs
        → Shows (lower k) v (walk_items lower keys depth xs)
    walk_items-Shows depth nil h = elim h [ ]
    walk_items-Shows depth (cons x xs) (in_head h) =
        Shows-left (lower k) v _ _ (walk_kv-Shows depth x h)
    walk_items-Shows depth (cons x xs) (in_tail h) =
        Shows-right (lower k) v _ _ (walk_items-Shows depth xs h)

    walk_entries-Shows :
        (depth : ℕ) (es : Entries)
        → OccursEntries k v es
        → Shows (lower k) v (walk_entries lower keys depth es)
    walk_entries-Shows depth end h = elim h [ ]
    walk_entries-Shows depth (entry j w es) at_key = Shows-left (lower k) v _ _ Shows-hit
    walk_entries-Shows depth (entry j w es) (in_value h) =
        Shows-right (lower k) v _ _ (Shows-left (lower k) v _ _ (walk_kv-Shows depth w h))
    walk_entries-Shows depth (entry j w es) (in_rest h) =
        Shows-right (lower k) v _ _ (Shows-right (lower k) v _ _ (walk_entries-Shows depth es h))

-- How deep a document nests: 0 for what has no parts.
unfoldable mutual
  pub height : Doc → ℕ
  height (scalar b) = 0
  height (str s) = 0
  height (list xs) = items_height xs
  height (dict es) = entries_height es

  pub items_height : Items → ℕ
  items_height nil = 0
  items_height (cons x xs) = max (suc (height x)) (items_height xs)

  pub entries_height : Entries → ℕ
  entries_height end = 0
  entries_height (entry k v es) = max (suc (height v)) (entries_height es)

-- A find of the walk: a key that stands in the document with a true value, or that the walk gave up, which
-- it does only below its bound.
abbrev pub Sound : (Text → Text) → List Text → (Text → Doc → Type 0) → ℕ → Found → Type 0
Sound lower keys Stands depth too_deep = walk_max_depth < depth
Sound lower keys Stands depth (pair k v) =
    (j : Text) × (k ≡ lower j) × (mem k keys ≡ true) × (is_truthy v ≡ true) × Stands j v

module _ (lower : Text → Text) (keys : List Text) where
  abbrev pub AllSound : (Text → Doc → Type 0) → ℕ → List Found → Type 0
  AllSound Stands depth fs = All (Sound lower keys Stands depth) fs

  Sound-map :
      {P Q : Text → Doc → Type 0} {m n : ℕ}
      → m ≤ n
      → ((j : Text) (v : Doc) → P j v → Q j v)
      → (fs : List Found) → AllSound P m fs
      → AllSound Q n fs
  Sound-map le f [] h = tt
  Sound-map le f (too_deep ∷ fs) (deep, h) = (omega arith, Sound-map le f fs h)
  Sound-map le f (pair k v ∷ fs) ((j, same, wanted, truthy, stands), h) =
      ((j, same, wanted, truthy, f j v stands), Sound-map le f fs h)

  hit-Sound :
      (P : Text → Doc → Type 0) (depth : ℕ) (k : Text) (v : Doc)
      → P k v
      → AllSound P depth (hit lower keys k v)
  hit-Sound P depth k v stands = elim (Bool-cases (mem (lower k) keys)) [
    | inr other ↦ rw other tt
    | inl wanted ↦ elim (Bool-cases (is_truthy v)) [
      | inr falsy ↦ rw (wanted, falsy) tt
      | inl truthy ↦ rw (wanted, truthy) ((k, refl, wanted, truthy, stands), tt)
    ]
  ]

  unless_deep-Sound :
      (P : Text → Doc → Type 0) (depth n : ℕ) (fs : List Found)
      → AllSound P (depth + n) fs
      → AllSound P (depth + n) (unless_deep lower keys depth fs)
  unless_deep-Sound P depth n fs h = elim (Bool-cases (ltb walk_max_depth depth)) [
    | inl deep ↦ rw deep (omega (arith, ltb→lt walk_max_depth depth deep), tt)
    | inr fine ↦ rw fine h
  ]

  mutual
    unfolding walk_kv walk_items walk_entries height items_height entries_height

    pub walk_kv-Sound :
        (depth : ℕ) (d : Doc)
        → AllSound (λ k v. Occurs k v d) (depth + height d) (walk_kv lower keys depth d)
    walk_kv-Sound depth (scalar b) = unless_deep-Sound _ depth 0 [] tt
    walk_kv-Sound depth (str s) = unless_deep-Sound _ depth 0 [] tt
    walk_kv-Sound depth (list xs) =
        unless_deep-Sound _ depth (items_height xs) _
          (Sound-map (omega arith) (λ k v h. in_list h) _ (walk_items-Sound depth xs))
    walk_kv-Sound depth (dict es) =
        unless_deep-Sound _ depth (entries_height es) _
          (Sound-map (omega arith) (λ k v h. in_dict h) _ (walk_entries-Sound depth es))

    walk_items-Sound :
        (depth : ℕ) (xs : Items)
        → AllSound
            (λ k v. OccursItems k v xs)
            (depth + items_height xs)
            (walk_items lower keys (suc depth) xs)
    walk_items-Sound depth nil = tt
    walk_items-Sound depth (cons x xs) =
        All-append _ _ _
          (Sound-map (omega arith) (λ k v h. in_head h) _ (walk_kv-Sound (suc depth) x))
          (Sound-map (omega arith) (λ k v h. in_tail h) _ (walk_items-Sound depth xs))

    walk_entries-Sound :
        (depth : ℕ) (es : Entries)
        → AllSound
            (λ k v. OccursEntries k v es)
            (depth + entries_height es)
            (walk_entries lower keys (suc depth) es)
    walk_entries-Sound depth end = tt
    walk_entries-Sound depth (entry k v es) = All-append _ _ _ (hit-Sound _ _ k v at_key) (
        All-append _ _ _
          (Sound-map (omega arith) (λ j w h. in_value h) _ (walk_kv-Sound (suc depth) v))
          (Sound-map (omega arith) (λ j w h. in_rest h) _ (walk_entries-Sound depth es)))
