-- ===== src/Query/Fit/Clip.antt =====
-- The bisection of _clip_content of sdk/runwhen_capability/repo_query.py and the text that it leaves.
use rw_checks_codecollection.Prelude.{
  ℕ, zero, suc, ◌+◌, ◌-◌, ◌/◌, ◌≤◌, ◌<◌, ◌≡◌, refl, ◌∙◌, sym, ap, ◌≢◌, ◌⊎◌, inl, inr, true, false,
  [], ◌∷◌, ◌++◌, none, some, ltb, leb, ◌==◌, Text, length, take, drop, arith, Bool-cases,
  Option-cases, leb→le, not_leb→lt, ltb→lt, not_ltb→le, take-append-drop, length-append, take_all,
  append_assoc, append-nil, subst,
}
use rw_checks_codecollection.Json.{str_len}
use rw_checks_codecollection.Json.Size.{escaped_len-take_mono, escaped_len-append}
use rw_checks_codecollection.Query.Fit.{
  clip_search, cut_last_line, clip_content, line_aligned, newlines,
}

-- A longer prefix takes at least as much.
str_len-take_mono : (m n : ℕ) (s : Text) → m ≤ n → str_len (take m s) ≤ str_len (take n s)
unfolding str_len
str_len-take_mono m n s h = omega (arith, escaped_len-take_mono m n s h)

module _ (content : Text) (room : ℕ) where
  -- `n` is the length of the longest prefix that fits, or 0 where none but perhaps the empty one does.
  pub record Best (n : ℕ) : Type 0 where
    pub inside : n ≤ length content
    pub fits : (n ≡ 0) ⊎ (str_len (take n content) ≤ room)
    pub longest : (m : ℕ) → n < m → m ≤ length content → room < str_len (take m content)

  clip_search-Best :
      (fuel low high : ℕ)
      → high - low ≤ fuel
      → low ≤ high
      → high ≤ length content
      → (low ≡ 0) ⊎ (str_len (take low content) ≤ room)
      → ((m : ℕ) → high < m → m ≤ length content → room < str_len (take m content))
      → Best (clip_search fuel content room low high)
  unfolding clip_search
  clip_search-Best zero low high enough le inside fits above = record {
    inside = omega arith;
    fits = fits;
    longest = λ m h k. above m (omega arith) k;
  }
  clip_search-Best (suc fuel) low high enough le inside fits above =
      let mid = (low + high + 1) / 2 in
      elim (Bool-cases (ltb low high)) [
        | inr done ↦ rw done (record {
          inside = omega arith;
          fits = fits;
          longest = λ m h k. above m (omega (arith, not_ltb→le low high done)) k;
        })
        | inl more ↦ rw more (elim (Bool-cases (leb (str_len (take mid content)) room)) [
          | inl up ↦ rw up (
              clip_search-Best fuel mid high (omega (arith, ltb→lt low high more)) (omega arith)
                inside (inr (leb→le _ _ up)) above)
          | inr down ↦ rw down (
              clip_search-Best fuel low (mid - 1) (omega (arith, ltb→lt low high more))
                (omega (arith, ltb→lt low high more)) (omega arith) fits
                (λ m h k.
                  omega
                    (arith, not_leb→lt _ _ down, str_len-take_mono mid m content (omega arith))))
        ])
      ]

  abbrev pub bisection : ℕ
  bisection = clip_search (length content) content room 0 (length content)

  -- The bisection finds the longest prefix that fits: the fuel is enough.
  pub bisection-Best : Best bisection
  bisection-Best =
      clip_search-Best (length content) 0 (length content) (omega arith) (omega arith) (omega arith)
        (inl refl) (λ m h k. absurd (omega arith))

cut_last_line-none : (s : Text) → cut_last_line s ≡ none → newlines s ≡ 0
unfolding cut_last_line
cut_last_line-none [] h = refl
cut_last_line-none (c ∷ s) h = ground (arith, cut_last_line-none s)

-- What stands before the last newline.
cut_last_line-some :
    (s p : Text) → cut_last_line s ≡ some p → (r : Text) × (s ≡ p ++ 10 ∷ r) × (newlines r ≡ 0)
unfolding cut_last_line
cut_last_line-some [] p h = absurd (cc)
cut_last_line-some (c ∷ s) p h = elim (Option-cases (cut_last_line s)) [
  | inl e ↦ (s, ground arith, cut_last_line-none s e)
  | inr (q, e) ↦
      let (r, same, last) = cut_last_line-some s q e in
      (r, ground (arith, ap (λ (t : Text). c ∷ t) same), last)
]

str_len-prefix : (s t : Text) → str_len s ≤ str_len (s ++ t)
unfolding str_len
str_len-prefix s t = omega (arith, escaped_len-append s t)

-- The line-aligned head of a text: the text itself if it is one line, else up to its last newline.
pub record Aligned (s p : Text) : Type 0 where
  pub rest : Text
  pub split : s ≡ p ++ rest
  pub ends : ((newlines s ≡ 0) × (p ≡ s)) ⊎ ((r : Text) × (rest ≡ 10 ∷ r))

line_aligned-Aligned : (s : Text) → Aligned s (line_aligned s)
line_aligned-Aligned s = elim (Option-cases (cut_last_line s)) [
  | inl e ↦
      rw (e, line_aligned)
        (record {
          rest = [];
          split = sym (append-nil s);
          ends = inl (cut_last_line-none s e, refl);
        })
  | inr (p, e) ↦
      let (r, same, _) = cut_last_line-some s p e in
      rw (e, line_aligned) (record { rest = 10 ∷ r; split = same; ends = inr (r, refl) })
]

-- A clipped content is a head of the content that fits the room and, unless it is all of the content,
-- stops before a newline or is the head of the first line.
pub record Clipped (content : Text) (room : ℕ) (c : Text) : Type 0 where
  pub rest : Text
  pub split : content ≡ c ++ rest
  pub fits : str_len c ≤ room
  pub aligned : (rest ≡ []) ⊎ ((r : Text) × (rest ≡ 10 ∷ r)) ⊎ (newlines c ≡ 0)

module _ (content : Text) (room : ℕ) where
  line_aligned-Clipped :
      (n : ℕ) → Best content room n → n ≢ 0 → Clipped content room (line_aligned (take n content))
  line_aligned-Clipped n best some_fits =
      let prefix = take n content in
      let a = line_aligned-Aligned prefix in
      let fit : str_len prefix ≤ room = ground (arith, best.fits) in
      record {
        rest = a.rest ++ drop n content;
        split =
            sym (take-append-drop n content)
            ∙ ap (λ s. s ++ drop n content) a.split
            ∙ append_assoc (line_aligned prefix) a.rest (drop n content);
        fits = omega (arith, fit, str_len-prefix (line_aligned prefix) a.rest, ap str_len a.split);
        aligned = elim a.ends [
          | inl (one, same) ↦ inr (inr (rw same one))
          | inr (r, e) ↦ inr (inl (r ++ drop n content, ap (λ s. s ++ drop n content) e))
        ];
      }

  pub clip_content-Clipped :
      (c : Text) → clip_content content room ≡ some c → Clipped content room c
  unfolding clip_content
  clip_content-Clipped c h =
      let n = bisection content room in
      let best = bisection-Best content room in
      elim (Bool-cases (n == 0)) [
        | inl z ↦ cc (rw z at h)
        | inr nz ↦ elim (Bool-cases (ltb n (length content))) [
          | inl short ↦
              subst (Clipped content room) (ground arith)
                (line_aligned-Clipped n best (ground arith))
          | inr whole ↦
              let all : take n content ≡ content = take_all n content (not_ltb→le _ _ whole) in
              let same : take n content ≡ c = ground arith in
              let fit : str_len (take n content) ≤ room = ground (arith, best.fits) in
              record {
                rest = [];
                split = sym all ∙ same ∙ sym (append-nil c);
                fits = rw same at fit;
                aligned = inl refl;
              }
        ]
      ]

  -- Nothing is clipped only where not even one character fits, or there is none.
  pub clip_content-none :
      clip_content content room ≡ none
      → (m : ℕ) → 0 < m
      → m ≤ length content
      → room < str_len (take m content)
  unfolding clip_content
  clip_content-none h m pos inside = (bisection-Best content room).longest m (ground arith) inside

take-append_next : (p rest : Text) (c : ℕ) → take (suc (length p)) (p ++ c ∷ rest) ≡ p ++ c ∷ []
take-append_next [] rest c = refl
take-append_next (x ∷ p) rest c = ap (◌∷◌ x) (take-append_next p rest c)

take-append_exact : (p rest : Text) → take (length p) (p ++ rest) ≡ p
take-append_exact [] rest = refl
take-append_exact (x ∷ p) rest = ap (◌∷◌ x) (take-append_exact p rest)

str_len-newline : (p : Text) → str_len (p ++ 10 ∷ []) ≡ str_len p + 2
unfolding str_len
str_len-newline p = omega (arith, escaped_len-append p (10 ∷ []))

-- The best prefix of a text at the room that one of its lines' ends takes is up to that end.
Best-boundary : (p rest : Text) (n : ℕ) → Best (p ++ 10 ∷ rest) (str_len p) n → n ≡ length p
Best-boundary p rest n best = omega (arith, below, above, length-append p (10 ∷ rest))
  where
    content : Text
    content = p ++ 10 ∷ rest

    below : ¬ (n < length p)
    below h = omega (
      arith,
      best.longest (length p) h (omega (arith, length-append p (10 ∷ rest))),
      ap str_len (take-append_exact p (10 ∷ rest)),
    )

    above : ¬ (length p < n)
    above h = omega (
      arith,
      best.fits,
      str_len-take_mono (suc (length p)) n content h,
      ap str_len (take-append_next p rest 10),
      str_len-newline p,
    )

-- A head of the content that ends a line is clipped by its last line if it takes the whole room, though
-- it fits: the bisection stops at its end, and the cut goes back to the newline before it.
pub clip_content-boundary :
    (p rest q : Text)
    → cut_last_line p ≡ some q
    → (clip_content (p ++ 10 ∷ rest) (str_len p) ≡ some q) × (length q < length p)
unfolding clip_content
clip_content-boundary p rest q h =
    let (r, split, _) = cut_last_line-some p q h in
    let shorter : length q < length p = omega (arith, ap length split, length-append q (10 ∷ r)) in
    let n : bisection (p ++ 10 ∷ rest) (str_len p) ≡ length p =
      Best-boundary p rest _ (bisection-Best (p ++ 10 ∷ rest) (str_len p)) in
    let inside : ltb (length p) (length (p ++ 10 ∷ rest)) ≡ true =
      ground (arith, length-append p (10 ∷ rest)) in
    let nonempty : (length p == 0) ≡ false = ground arith in
    (rw (n, nonempty, inside, take-append_exact) (rw (h, line_aligned)), shorter)
