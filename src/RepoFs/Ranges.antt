-- ===== src/RepoFs/Ranges.antt =====
-- _merge_ranges of sdk/runwhen_capability/repo_fs.py: clamp, sort by start, merge what overlaps or is
-- adjacent.
use rw_checks_codecollection.Prelude.{
  ℕ, ◌+◌, ◌≤◌, ◌<◌, ◌≡◌, refl, ◌∙◌, sym, Bool, ◌&&◌, ◌||◌, List, [], ◌∷◌, map, max, ltb, leb, ◌==◌,
  if◌then◌else◌, any, All, arith, Bool-cases, not_leb→lt, inl, inr, subst,
}

abbrev pub Range : Type 0
Range = ℕ × ℕ

-- A start of 0 reads as 1, an end of 0 or past the end as the last line.
abbrev pub clamp : ℕ → Range → Range
clamp total (start, end) =
    (if leb 1 start then start else 1, if leb 1 end && leb end total then end else total)

-- Python's order of pairs.
abbrev pub pair_leb : Range → Range → Bool
pair_leb (a, b) (c, d) = ltb a c || (a == c && leb b d)

-- clamped.sort(): the order is total on pairs and pairs that are equal in it are the same, so every
-- correct sort gives this list.
unfoldable pub insert : Range → List Range → List Range
insert p [] = p ∷ []
insert p (q ∷ qs) = let rest = insert p qs in if pair_leb p q then p ∷ q ∷ qs else q ∷ rest

unfoldable pub sort : List Range → List Range
unfolding insert
sort [] = []
sort (p ∷ ps) = insert p (sort ps)

-- The loop over the sorted ranges, with merged[-1] at hand.
unfoldable pub merge_from : Range → List Range → List Range
merge_from (s0, e0) [] = (s0, e0) ∷ []
merge_from (s0, e0) ((s, e) ∷ rest) =
    let joined = merge_from (s0, max e0 e) rest in
    let apart = merge_from (s, e) rest in if leb s (e0 + 1) then joined else (s0, e0) ∷ apart

abbrev merge_sorted : List Range → List Range
merge_sorted [] = []
merge_sorted (p ∷ ps) = merge_from p ps

unfoldable pub merge_ranges : List Range → ℕ → List Range
unfolding sort merge_from
merge_ranges ranges total = merge_sorted (sort (map (clamp total) ranges))

abbrev pub holds : ℕ → Range → Bool
holds n (s, e) = leb s n && leb n e

-- Line `n` lies in one of the ranges.
abbrev pub covered : ℕ → List Range → Bool
covered n = any (holds n)

abbrev StartsFrom : ℕ → List Range → Type 0
StartsFrom s [] = Unit
StartsFrom s ((s', e') ∷ rest) = s ≤ s'

abbrev IsSorted : List Range → Type 0
IsSorted [] = Unit
IsSorted ((s, e) ∷ rest) = StartsFrom s rest × IsSorted rest

StartsFrom-insert :
    (s : ℕ) (p : Range) (qs : List Range) → s ≤ p.0 → StartsFrom s qs → StartsFrom s (insert p qs)
unfolding insert
StartsFrom-insert s p [] h k = h
StartsFrom-insert s p (q ∷ qs) h k = ground arith

insert-IsSorted : (p : Range) (qs : List Range) → IsSorted qs → IsSorted (insert p qs)
unfolding insert
insert-IsSorted p [] h = (tt, tt)
insert-IsSorted p (q ∷ qs) (first, rest) = elim (Bool-cases (pair_leb p q)) [
  | inl before ↦ rw before (ground arith, (first, rest))
  | inr after ↦
      rw after (StartsFrom-insert q.0 p qs (ground arith) first, insert-IsSorted p qs rest)
]

sort-IsSorted : (ps : List Range) → IsSorted (sort ps)
unfolding sort
sort-IsSorted [] = tt
sort-IsSorted (p ∷ ps) = insert-IsSorted p (sort ps) (sort-IsSorted ps)

covered-insert :
    (n : ℕ) (p : Range) (qs : List Range) → covered n (insert p qs) ≡ (holds n p || covered n qs)
unfolding insert
covered-insert n p [] = refl
covered-insert n p (q ∷ qs) = ground (arith, covered-insert n p qs)

covered-sort : (n : ℕ) (ps : List Range) → covered n (sort ps) ≡ covered n ps
unfolding sort
covered-sort n [] = refl
covered-sort n (p ∷ ps) = ground (arith, covered-insert n p (sort ps), covered-sort n ps)

covered-merge_from :
    (n : ℕ) (p : Range) (rest : List Range)
    → IsSorted (p ∷ rest)
    → covered n (merge_from p rest) ≡ covered n (p ∷ rest)
unfolding merge_from
covered-merge_from n (s0, e0) [] h = refl
covered-merge_from n (s0, e0) ((s, e) ∷ rest) (le, (after, sorted)) =
    elim (Bool-cases (leb s (e0 + 1))) [
      | inl near ↦
          rw near
            (covered-merge_from n (s0, max e0 e) rest (later rest after, sorted) ∙ ground arith)
      | inr apart ↦ rw apart (ground (arith, covered-merge_from n (s, e) rest (after, sorted)))
    ]
  where
    later : (qs : List Range) → StartsFrom s qs → StartsFrom s0 qs
    later [] k = tt
    later (q ∷ qs) k = omega arith

-- Merging loses no line that was asked for and adds none: a line lies in a merged range exactly when it
-- lies in one of the clamped ranges.
pub covered-merge_ranges :
    (n : ℕ) (ranges : List Range) (total : ℕ)
    → covered n (merge_ranges ranges total) ≡ covered n (map (clamp total) ranges)
unfolding merge_ranges
covered-merge_ranges n ranges total =
    go (sort clamped) (sort-IsSorted clamped) ∙ covered-sort n clamped
  where
    clamped : List Range
    clamped = map (clamp total) ranges

    go : (ps : List Range) → IsSorted ps → covered n (merge_sorted ps) ≡ covered n ps
    go [] h = refl
    go (p ∷ ps) h = covered-merge_from n p ps h

-- Each range begins past the line behind the one before it, and not before that one does.
abbrev ApartFrom : Range → List Range → Type 0
ApartFrom (s, e) [] = Unit
ApartFrom (s, e) ((s', e') ∷ rest) = (e + 1 < s') × (s ≤ s')

abbrev pub IsApart : List Range → Type 0
IsApart [] = Unit
IsApart (p ∷ rest) = ApartFrom p rest × IsApart rest

-- The first range of a merge starts where it is told.
merge_from-head :
    (p : Range) (rest : List Range)
    → (e : ℕ) × (qs : List Range) × (merge_from p rest ≡ (p.0, e) ∷ qs)
unfolding merge_from
merge_from-head (s0, e0) [] = (e0, [], refl)
merge_from-head (s0, e0) ((s, e) ∷ rest) = elim (Bool-cases (leb s (e0 + 1))) [
  | inl near ↦ rw near (merge_from-head (s0, max e0 e) rest)
  | inr apart ↦ rw apart (e0, merge_from (s, e) rest, refl)
]

merge_from-IsApart :
    (p : Range) (rest : List Range) → IsSorted (p ∷ rest) → IsApart (merge_from p rest)
unfolding merge_from
merge_from-IsApart (s0, e0) [] h = (tt, tt)
merge_from-IsApart (s0, e0) ((s, e) ∷ rest) (le, (after, sorted)) =
    elim (Bool-cases (leb s (e0 + 1))) [
      | inl near ↦ rw near (merge_from-IsApart (s0, max e0 e) rest (later rest after, sorted))
      | inr apart ↦
          let (e', qs, same) = merge_from-head (s, e) rest in
          rw apart (
            subst (ApartFrom (s0, e0)) (sym same) (omega (arith, not_leb→lt _ _ apart), le),
            merge_from-IsApart (s, e) rest (after, sorted),
          )
    ]
  where
    later : (qs : List Range) → StartsFrom s qs → StartsFrom s0 qs
    later [] k = tt
    later (q ∷ qs) k = omega arith

-- Merged ranges are in order, and neither overlap nor touch.
pub merge_ranges-IsApart : (ranges : List Range) (total : ℕ) → IsApart (merge_ranges ranges total)
unfolding merge_ranges
merge_ranges-IsApart ranges total = go (sort clamped) (sort-IsSorted clamped)
  where
    clamped : List Range
    clamped = map (clamp total) ranges

    go : (ps : List Range) → IsSorted ps → IsApart (merge_sorted ps)
    go [] h = tt
    go (p ∷ ps) h = merge_from-IsApart p ps h

abbrev pub Positive : Range → Type 0
Positive (s, e) = 1 ≤ s

insert-Positive :
    (p : Range) (qs : List Range) → Positive p → All Positive qs → All Positive (insert p qs)
unfolding insert
insert-Positive p [] h k = (h, tt)
insert-Positive p (q ∷ qs) h (k, ks) = elim (Bool-cases (pair_leb p q)) [
  | inl before ↦ rw before (h, (k, ks))
  | inr after ↦ rw after (k, insert-Positive p qs h ks)
]

sort-Positive : (ps : List Range) → All Positive ps → All Positive (sort ps)
unfolding sort
sort-Positive [] h = tt
sort-Positive (p ∷ ps) (h, hs) = insert-Positive p (sort ps) h (sort-Positive ps hs)

clamp-Positive : (total : ℕ) (ps : List Range) → All Positive (map (clamp total) ps)
clamp-Positive total [] = tt
clamp-Positive total (p ∷ ps) = (ground arith, clamp-Positive total ps)

merge_from-Positive :
    (p : Range) (rest : List Range)
    → Positive p
    → All Positive rest
    → All Positive (merge_from p rest)
unfolding merge_from
merge_from-Positive (s0, e0) [] h k = (h, tt)
merge_from-Positive (s0, e0) ((s, e) ∷ rest) h (k, ks) = elim (Bool-cases (leb s (e0 + 1))) [
  | inl near ↦ rw near (merge_from-Positive (s0, max e0 e) rest h ks)
  | inr apart ↦ rw apart (h, merge_from-Positive (s, e) rest k ks)
]

-- Every merged range starts at line 1 or later.
pub merge_ranges-pos : (ranges : List Range) (total : ℕ) → All Positive (merge_ranges ranges total)
unfolding merge_ranges
merge_ranges-pos ranges total =
    go (sort clamped) (sort-Positive clamped (clamp-Positive total ranges))
  where
    clamped : List Range
    clamped = map (clamp total) ranges

    go : (ps : List Range) → All Positive ps → All Positive (merge_sorted ps)
    go [] h = tt
    go (p ∷ ps) (h, hs) = merge_from-Positive p ps h hs
