-- ===== src/Guards/Chain/Closed.antt =====
-- Where a chain of extends in capabilities/rw-checks/guards.py leads, once it is let pass.
use rw_checks_codecollection.Prelude.{
  ℕ, zero, suc, ◌≡◌, refl, sym, ◌∙◌, subst, ap, Bool, true, false, ◌||◌, List, [], ◌∷◌, Option,
  none, some, Text, mem, Bool-cases, Option-cases, inl, inr, In, here, there,
}
use rw_checks_codecollection.Guards.Document.{Doc, str, Found, too_deep, pair, walk_kv, is_truthy}
use rw_checks_codecollection.Guards.Search.{Occurs, walk_kv-Shows}
use rw_checks_codecollection.Guards.Files.{
  FilePath, Load, loaded, failed, escaped, Files, relative_to,
}
use rw_checks_codecollection.Guards.Tools.{parent}
use rw_checks_codecollection.Guards.Chain.{
  is_refused, inside, inside_resolved, resolve_in_tree, is_visited, Walked, onward, stopped,
  then_on, values_of, enter_hop, on_hop, on_value, values_loop, founds_loop, walk_extend_chain,
}

some-injective {ℓ} : {A : Type ℓ} {a b : A} → some a ≡ some b → a ≡ b
some-injective h = cc

loaded-injective : {A : Type 0} {a b : A} → loaded a ≡ loaded b → a ≡ b
loaded-injective h = cc

then_on-onward :
    (w : Walked) (next : List FilePath → Walked) {seen : List FilePath}
    → then_on w next ≡ onward seen
    → (between : List FilePath) × (w ≡ onward between) × (next between ≡ onward seen)
then_on-onward (onward v) next h = (v, refl, h)
then_on-onward (stopped r) next h = absurd (cc)

-- What names a file: the values of the key, at any depth.
abbrev pub Extends : Files → List Text → Doc → Text → Type 0
Extends files keys doc value =
    (k : Text) × (v : Doc) × Occurs k v doc
    × (mem (files.lower k) keys ≡ true)
    × (is_truthy v ≡ true)
    × In (str value) (values_of v)

-- A path that lies in the tree once both are resolved.
abbrev pub IsInside : Files → FilePath → FilePath → Type 0
IsInside files tree path =
    (root : FilePath) × (rel : FilePath) × (files.resolve tree ≡ some root)
    × (relative_to root path ≡ some rel)

inside_resolved-IsInside :
    (files : Files) (tree : FilePath) (path : Option FilePath) {hop : FilePath}
    → inside_resolved path (files.resolve tree) ≡ some hop
    → IsInside files tree hop
inside_resolved-IsInside files tree none h = absurd (cc)
inside_resolved-IsInside files tree (some p) {hop} h = elim (Option-cases (files.resolve tree)) [
  | inl lost ↦ absurd (cc (rw lost at h))
  | inr (root, found) ↦
      let h' : inside root p ≡ some hop = rw found at h in
      elim (Option-cases (relative_to root p)) [
        | inl out ↦ absurd (cc (rw (inside, out) at h'))
        | inr (rel, within) ↦
            let same : p ≡ hop = cc (rw (inside, within) at h') in
            (root, rel, found, subst (λ q. relative_to root q ≡ some rel) same within)
      ]
]

resolve_in_tree-IsInside :
    (files : Files) (tree dir : FilePath) (value : Text) {hop : FilePath}
    → resolve_in_tree files tree dir value ≡ some hop
    → IsInside files tree hop
unfolding resolve_in_tree
resolve_in_tree-IsInside files tree dir value h = elim (Bool-cases (is_refused value)) [
  | inl refused ↦ absurd (cc (rw refused at h))
  | inr taken ↦ inside_resolved-IsInside files tree (files.resolve_from dir value) (rw taken at h)
]

module _ (files : Files) (load : FilePath → Load Doc) (keys : List Text) (tree : FilePath) where
  -- The files that a configuration leads to: itself, and those that its values name, which are there and are
  -- read, and what these lead to.
  pub data Leads : FilePath → Doc → FilePath → Doc → Type 0 where
    itself : {p : FilePath} {d : Doc} → Leads p d p d
    onto :
        {p h q : FilePath} {d f e : Doc} (value : Text)
        → Extends files keys d value
        → resolve_in_tree files tree (parent p) value ≡ some h
        → files.is_file h ≡ true
        → load h ≡ loaded f
        → Leads h f q e
        → Leads p d q e

  -- Whatever a file extends lies in the tree, and can be read if it is there.
  pub record IsClosed (path : FilePath) (value : Text) : Type 0 where
    pub hop : FilePath
    pub resolves : resolve_in_tree files tree (parent path) value ≡ some hop
    pub within : IsInside files tree hop
    pub reads : files.is_file hop ≡ true → (d : Doc) × (load hop ≡ loaded d)

module _ (files : Files) (load : FilePath → Load Doc) (keys : List Text) (why : Text)
    (tree : FilePath) where
  -- A value that a walk went on from: its file lies in the tree, and if it is there it was entered.
  record Passed (again : FilePath → Doc → List FilePath → Walked) (path : FilePath) (value : Text)
      : Type 0 where
    hop : FilePath
    resolves : resolve_in_tree files tree (parent path) value ≡ some hop
    entered :
        files.is_file hop ≡ true
        → (doc : Doc) × (before : List FilePath) × (after : List FilePath) × (load hop ≡ loaded doc)
          × (again hop doc before ≡ onward after)

  module _ (again : FilePath → Doc → List FilePath → Walked) (at_limit : Bool) (path : FilePath)
      (key : Text) where
    enter_hop-onward :
        (hop : FilePath) (visited : List FilePath) (l : Load Doc) {seen : List FilePath}
        → enter_hop files load keys why tree again hop visited l ≡ onward seen
        → (doc : Doc) × (l ≡ loaded doc) × (again hop doc visited ≡ onward seen)
    enter_hop-onward hop visited (loaded doc) h = (doc, refl, h)
    enter_hop-onward hop visited (failed err) h = absurd (cc)
    enter_hop-onward hop visited (escaped e) h = absurd (cc)

    on_hop-onward :
        (hop : FilePath) (visited : List FilePath) {seen : List FilePath}
        → on_hop files load keys why tree again at_limit path key visited (some hop) ≡ onward seen
        → files.is_file hop ≡ true
        → (doc : Doc) × (before : List FilePath) × (after : List FilePath) × (load hop ≡ loaded doc)
          × (again hop doc before ≡ onward after)
    on_hop-onward hop visited {seen} h there' =
        elim (Bool-cases (at_limit || is_visited hop visited)) [
          | inl refused ↦ absurd (cc (rw refused at h))
          | inr fresh ↦
              let (doc, read, went) =
                enter_hop-onward hop (hop ∷ visited) (load hop) (rw (fresh, there') at h) in
              (doc, hop ∷ visited, seen, read, went)
        ]

    on_value-onward :
        (value : Text) (visited : List FilePath) {seen : List FilePath}
        → on_value files load keys why tree again at_limit path key visited (str value)
          ≡ onward seen
        → (at_limit ≡ false) × Passed again path value
    on_value-onward value visited {seen} h =
        elim (Option-cases (resolve_in_tree files tree (parent path) value)) [
          | inl out ↦ absurd (cc (rw out at h))
          | inr (hop, found) ↦ (
            below hop (rw found at h),
            record {
              hop = hop;
              resolves = found;
              entered = on_hop-onward hop visited (rw found at h);
            },
          )
        ]
      where
        below :
            (hop : FilePath)
            → on_hop files load keys why tree again at_limit path key visited (some hop)
              ≡ onward seen
            → at_limit ≡ false
        below hop k = elim (Bool-cases at_limit) [
          | inl limit ↦ absurd (cc (rw limit at k))
          | inr fine ↦ fine
        ]

    values_loop-onward :
        (value : Text) (vs : List Doc) (visited : List FilePath) {seen : List FilePath}
        → values_loop files load keys why tree again at_limit path key vs visited ≡ onward seen
        → In (str value) vs
        → (at_limit ≡ false) × Passed again path value
    unfolding values_loop
    values_loop-onward value [] visited h i = elim i [ ]
    values_loop-onward value (v ∷ vs) visited h here =
        let (between, went, rest) =
          then_on-onward
            (on_value files load keys why tree again at_limit path key visited (str value))
            (values_loop files load keys why tree again at_limit path key vs) h in
        on_value-onward value visited went
    values_loop-onward value (v ∷ vs) visited h (there i) =
        let (between, went, rest) =
          then_on-onward (on_value files load keys why tree again at_limit path key visited v)
            (values_loop files load keys why tree again at_limit path key vs) h in
        values_loop-onward value vs between rest i

  module _ (again : FilePath → Doc → List FilePath → Walked) (at_limit : Bool)
      (path : FilePath) where
    founds_loop-onward :
        (value k : Text) (v : Doc) (fs : List Found) (visited : List FilePath)
        {seen : List FilePath}
        → founds_loop files load keys why tree again at_limit path fs visited ≡ onward seen
        → In (pair k v) fs
        → In (str value) (values_of v)
        → (at_limit ≡ false) × Passed again path value
    unfolding founds_loop
    founds_loop-onward value k v [] visited h i w = elim i [ ]
    founds_loop-onward value k v (too_deep ∷ fs) visited h i w = absurd (cc)
    founds_loop-onward value k v (pair j u ∷ fs) visited h here w =
        let (between, went, rest) =
          then_on-onward
            (values_loop files load keys why tree again at_limit path k (values_of v) visited)
            (founds_loop files load keys why tree again at_limit path fs) h in
        values_loop-onward again at_limit path k value _ visited went w
    founds_loop-onward value k v (pair j u ∷ fs) visited h (there i) w =
        let (between, went, rest) =
          then_on-onward
            (values_loop files load keys why tree again at_limit path j (values_of u) visited)
            (founds_loop files load keys why tree again at_limit path fs) h in
        founds_loop-onward value k v fs between rest i w

    founds_loop-shallow :
        (fs : List Found) (visited : List FilePath) {seen : List FilePath}
        → founds_loop files load keys why tree again at_limit path fs visited ≡ onward seen
        → In too_deep fs
        → ⊥
    unfolding founds_loop
    founds_loop-shallow [] visited h i = elim i [ ]
    founds_loop-shallow (too_deep ∷ fs) visited h i = cc
    founds_loop-shallow (pair j u ∷ fs) visited h (there i) =
        let (between, went, rest) =
          then_on-onward
            (values_loop files load keys why tree again at_limit path j (values_of u) visited)
            (founds_loop files load keys why tree again at_limit path fs) h in
        founds_loop-shallow fs between rest i

    loop-Passed :
        (doc : Doc) (value : Text) (visited : List FilePath) {seen : List FilePath}
        → founds_loop files load keys why tree again at_limit path
            (walk_kv files.lower keys 0 doc)
            visited
          ≡ onward seen
        → Extends files keys doc value
        → (at_limit ≡ false) × Passed again path value
    loop-Passed doc value visited h (k, v, stands, wanted, truthy, among) =
        elim (walk_kv-Shows files.lower keys k v wanted truthy 0 doc stands) [
          | inl deep ↦ absurd (founds_loop-shallow _ visited h deep)
          | inr shown ↦ founds_loop-onward value _ v _ visited h shown among
        ]

  chain-Passed :
      (left : ℕ) (p : FilePath) (d : Doc) (value : Text) (visited : List FilePath)
      {seen : List FilePath}
      → walk_extend_chain files load keys why tree (suc left) p d visited ≡ onward seen
      → Extends files keys d value
      → Passed (walk_extend_chain files load keys why tree left) p value
  unfolding walk_extend_chain
  chain-Passed left p d value visited h x =
      (loop-Passed (walk_extend_chain files load keys why tree left) false p d value visited h x).1

  chain_end :
      (p : FilePath) (d : Doc) (value : Text) (visited : List FilePath) {seen : List FilePath}
      → walk_extend_chain files load keys why tree zero p d visited ≡ onward seen
      → Extends files keys d value
      → ⊥
  unfolding walk_extend_chain
  chain_end p d value visited h x =
      cc ((loop-Passed (λ hop doc seen. onward seen) true p d value visited h x).0)

  pub chain-IsClosed :
      (left : ℕ) {p q : FilePath} {d e : Doc} (visited : List FilePath) {seen : List FilePath}
      → walk_extend_chain files load keys why tree left p d visited ≡ onward seen
      → Leads files load keys tree p d q e
      → (value : Text) → Extends files keys e value
      → IsClosed files load keys tree q value
  chain-IsClosed zero {p} {q} {d} {e} visited h itself value x =
      absurd (chain_end p d value visited h x)
  chain-IsClosed zero {p} {q} {d} {e} visited h (onto v x _ _ _ _) value y =
      absurd (chain_end p d v visited h x)
  chain-IsClosed (suc left) {p} {q} {d} {e} visited h itself value x =
      let passed = chain-Passed left p d value visited h x in
      record {
        hop = passed.hop;
        resolves = passed.resolves;
        within = resolve_in_tree-IsInside files tree _ value passed.resolves;
        reads = λ is_there.
            let (doc, before, after, read, went) = passed.entered is_there in (doc, read);
      }
  chain-IsClosed (suc left) {p} {q} {d} {e} visited h
        (onto {h = hop} {f = f} v x found is_there read rest) value y =
      let passed = chain-Passed left p d v visited h x in
      let same : passed.hop ≡ hop = some-injective (sym passed.resolves ∙ found) in
      let (doc, before, after, read', went) =
        passed.entered (subst (λ o. files.is_file o ≡ true) (sym same) is_there) in
      let again : doc ≡ f = loaded-injective (sym read' ∙ (ap load same ∙ read)) in
      chain-IsClosed left before {seen = after}
        (subst (λ o. walk_extend_chain files load keys why tree left o f before ≡ onward after) same
          (subst
            (λ o.
              walk_extend_chain files load keys why tree left passed.hop o before ≡ onward after)
            again went))
        rest value y
