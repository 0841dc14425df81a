-- ===== src/Guards/Sql/Mirror/Bytes.antt =====
-- The search of capabilities/rw-checks/guards.py for the marker of a directive, on the bytes of an encoded text.
use rw_checks_codecollection.Prelude.{
  ℕ, zero, suc, ◌≤◌, ◌≡◌, refl, sym, ap, ◌∙◌, ◌⊎◌, inl, inr, Bool, true, false, not, ◌||◌, List, [],
  ◌∷◌, ◌++◌, some, ◌==◌, Text, arith, Bool-cases, In, here, there, append_assoc, any, all, map,
  length, text_eq, text_eq_iff, subst, length-append, In-append_right, In-append_left, ap₂,
}
use rw_checks_codecollection.Guards.Sql.{
  splits, strip_prefix, spaced_marker, tight_marker, directive_markers, line_ws, Encoding, utf_8,
  utf_16_le, utf_16_be, utf_32_le, utf_32_be, encode_char, encode, bom_of, line_boundaries,
  strip_any, has_prefix, blanks_then, marked, boundary_match, search_boundary, lower_byte,
}

pub strip_prefix-append : (p s : List ℕ) → strip_prefix p (p ++ s) ≡ some s
unfolding strip_prefix
strip_prefix-append [] s = refl
strip_prefix-append (c ∷ p) s = ground (arith, strip_prefix-append p s)

has_prefix-append : (p s : List ℕ) → has_prefix p (p ++ s) ≡ true
has_prefix-append p s = rw (has_prefix, strip_prefix-append p s)

pub any-In {ℓ} :
    {A : Type ℓ} (p : A → Bool) {x : A} (xs : List A) → In x xs → p x ≡ true → any p xs ≡ true
any-In p [] i h = elim i [ ]
any-In p (y ∷ ys) here h = rw h
any-In p (y ∷ ys) (there i) h = elim (Bool-cases (p y)) [
  | inl k ↦ rw k
  | inr k ↦ rw k (any-In p ys i h)
]

pub or_right : (a b : Bool) → b ≡ true → (a || b) ≡ true
or_right true b h = refl
or_right false b h = h

abbrev pub is_blank : ℕ → Bool
is_blank c = any (λ w. w == c) line_ws

-- The blanks, one by one.
blanks : (c : ℕ) → is_blank c ≡ true → (c ≡ 32) ⊎ ((c ≡ 9) ⊎ ((c ≡ 13) ⊎ ((c ≡ 11) ⊎ (c ≡ 12))))
blanks c h = ground arith

abbrev StripsAt : Encoding → List ℕ → ℕ → Type 0
StripsAt e x c = strip_any e line_ws (encode_char e c ++ x) ≡ some x

module _ (x : List ℕ) where
  strip-32 : (e : Encoding) → StripsAt e x 32
  unfolding strip_prefix encode_char
  strip-32 utf_8 = refl
  strip-32 utf_16_le = refl
  strip-32 utf_16_be = refl
  strip-32 utf_32_le = refl
  strip-32 utf_32_be = refl

  strip-9 : (e : Encoding) → StripsAt e x 9
  unfolding strip_prefix encode_char
  strip-9 utf_8 = refl
  strip-9 utf_16_le = refl
  strip-9 utf_16_be = refl
  strip-9 utf_32_le = refl
  strip-9 utf_32_be = refl

  strip-13 : (e : Encoding) → StripsAt e x 13
  unfolding strip_prefix encode_char
  strip-13 utf_8 = refl
  strip-13 utf_16_le = refl
  strip-13 utf_16_be = refl
  strip-13 utf_32_le = refl
  strip-13 utf_32_be = refl

  strip-11 : (e : Encoding) → StripsAt e x 11
  unfolding strip_prefix encode_char
  strip-11 utf_8 = refl
  strip-11 utf_16_le = refl
  strip-11 utf_16_be = refl
  strip-11 utf_32_le = refl
  strip-11 utf_32_be = refl

  strip-12 : (e : Encoding) → StripsAt e x 12
  unfolding strip_prefix encode_char
  strip-12 utf_8 = refl
  strip-12 utf_16_le = refl
  strip-12 utf_16_be = refl
  strip-12 utf_32_le = refl
  strip-12 utf_32_be = refl

blank-strip :
    (e : Encoding) (c : ℕ) (x : List ℕ)
    → is_blank c ≡ true
    → strip_any e line_ws (encode_char e c ++ x) ≡ some x
blank-strip e c x h = elim (blanks c h) [
  | inl a ↦ subst (StripsAt e x) (sym a) (strip-32 x e)
  | inr (inl a) ↦ subst (StripsAt e x) (sym a) (strip-9 x e)
  | inr (inr (inl a)) ↦ subst (StripsAt e x) (sym a) (strip-13 x e)
  | inr (inr (inr (inl a))) ↦ subst (StripsAt e x) (sym a) (strip-11 x e)
  | inr (inr (inr (inr a))) ↦ subst (StripsAt e x) (sym a) (strip-12 x e)
]

encode_char-pos : (e : Encoding) (c : ℕ) → 1 ≤ length (encode_char e c)
unfolding encode_char
encode_char-pos utf_8 c = ground arith
encode_char-pos utf_16_le c = ground arith
encode_char-pos utf_16_be c = ground arith
encode_char-pos utf_32_le c = ground arith
encode_char-pos utf_32_be c = ground arith

module _ (e : Encoding) (marker : List ℕ) where
  blanks_then-step :
      (fuel : ℕ) (bytes rest : List ℕ)
      → strip_any e line_ws bytes ≡ some rest
      → blanks_then e marker fuel rest ≡ true
      → blanks_then e marker (suc fuel) bytes ≡ true
  unfolding blanks_then
  blanks_then-step fuel bytes rest h k = elim (Bool-cases (has_prefix marker bytes)) [
    | inl found ↦ rw found
    | inr other ↦ rw other (rw (blanks_then, h) k)
  ]

  blanks_then-lead :
      (lead : Text) (fuel : ℕ) (rest : List ℕ)
      → any (λ c. not (is_blank c)) lead ≡ false
      → length lead ≤ fuel
      → blanks_then e marker fuel (encode e lead ++ (marker ++ rest)) ≡ true
  unfolding encode
  blanks_then-lead [] zero rest h le = unfold blanks_then in has_prefix-append marker rest
  blanks_then-lead [] (suc fuel) rest h le =
      unfold blanks_then in rw (has_prefix-append marker rest)
  blanks_then-lead (c ∷ lead) zero rest h le = absurd (omega arith)
  blanks_then-lead (c ∷ lead) (suc fuel) rest h le =
      let blank : is_blank c ≡ true = ground arith in
      rw (append_assoc (encode_char e c) (encode e lead) (marker ++ rest)) (
        blanks_then-step fuel (encode_char e c ++ (encode e lead ++ (marker ++ rest)))
          (encode e lead ++ (marker ++ rest))
          (blank-strip e c (encode e lead ++ (marker ++ rest)) blank)
          (blanks_then-lead lead fuel rest (ground arith) (omega arith)))

  length-encode : (s : Text) → length s ≤ length (encode e s)
  unfolding encode
  length-encode [] = omega arith
  length-encode (c ∷ s) =
      omega
        (arith, length-append (encode_char e c) (encode e s), encode_char-pos e c, length-encode s)

  -- Blanks and the marker are found wherever they stand.
  pub marked-lead :
      (lead : Text) (rest : List ℕ)
      → any (λ c. not (is_blank c)) lead ≡ false
      → marked e marker (some (encode e lead ++ (marker ++ rest))) ≡ true
  marked-lead lead rest h =
      blanks_then-lead lead _ rest h
        (omega (arith, length-append (encode e lead) (marker ++ rest), length-encode lead))

  pub boundary_match-In :
      (bs : Text) (b : ℕ) (bytes : List ℕ)
      → In b bs
      → marked e marker (some bytes) ≡ true
      → boundary_match e marker bs (encode_char e b ++ bytes) ≡ true
  unfolding boundary_match
  boundary_match-In [] b bytes i h = elim i [ ]
  boundary_match-In (c ∷ cs) b bytes here h =
      rw (strip_prefix-append (encode_char e b) bytes) (rw h)
  boundary_match-In (c ∷ cs) b bytes (there i) h = or_right _ _ (boundary_match-In cs b bytes i h)

  pub search_boundary-here :
      (bytes : List ℕ)
      → boundary_match e marker line_boundaries bytes ≡ true
      → search_boundary e marker bytes ≡ true
  unfolding search_boundary
  search_boundary-here [] h = h
  search_boundary-here (c ∷ bytes) h = rw h

  pub search_boundary-append :
      (before bytes : List ℕ)
      → search_boundary e marker bytes ≡ true
      → search_boundary e marker (before ++ bytes) ≡ true
  unfolding search_boundary
  search_boundary-append [] bytes h = h
  search_boundary-append (c ∷ before) bytes h = or_right _ _ (search_boundary-append before bytes h)

pub encode-append : (e : Encoding) (s t : Text) → encode e (s ++ t) ≡ encode e s ++ encode e t
unfolding encode
encode-append e [] t = refl
encode-append e (c ∷ s) t =
    ap (λ u. encode_char e c ++ u) (encode-append e s t)
    ∙ sym (append_assoc (encode_char e c) (encode e s) (encode e t))

pub lower_bytes-append :
    (s t : List ℕ) → map lower_byte (s ++ t) ≡ map lower_byte s ++ map lower_byte t
lower_bytes-append [] t = refl
lower_bytes-append (c ∷ s) t = ap (◌∷◌ (lower_byte c)) (lower_bytes-append s t)

-- A text that data.lower() leaves as it is, once encoded.
abbrev pub IsLow : Encoding → Text → Type 0
IsLow e s = map lower_byte (encode e s) ≡ encode e s

char_low : Encoding → ℕ → Bool
char_low e c = text_eq (map lower_byte (encode_char e c)) (encode_char e c)

all_low : (e : Encoding) → all (char_low e) (line_ws ++ line_boundaries) ≡ true
unfolding char_low encode_char text_eq line_boundaries
all_low utf_8 = refl
all_low utf_16_le = refl
all_low utf_16_be = refl
all_low utf_32_le = refl
all_low utf_32_be = refl

all-In {ℓ} :
    {A : Type ℓ} (p : A → Bool) {x : A} (xs : List A) → In x xs → all p xs ≡ true → p x ≡ true
all-In p [] i h = elim i [ ]
all-In p (y ∷ ys) here h = ground arith
all-In p (y ∷ ys) (there i) h = all-In p ys i (ground arith)

spaced-IsLow : (e : Encoding) → IsLow e spaced_marker
unfolding encode encode_char
spaced-IsLow utf_8 = refl
spaced-IsLow utf_16_le = refl
spaced-IsLow utf_16_be = refl
spaced-IsLow utf_32_le = refl
spaced-IsLow utf_32_be = refl

tight-IsLow : (e : Encoding) → IsLow e tight_marker
unfolding encode encode_char
tight-IsLow utf_8 = refl
tight-IsLow utf_16_le = refl
tight-IsLow utf_16_be = refl
tight-IsLow utf_32_le = refl
tight-IsLow utf_32_be = refl

pub marker-IsLow : (e : Encoding) (m : Text) → In m directive_markers → IsLow e m
marker-IsLow e m here = spaced-IsLow e
marker-IsLow e m (there here) = tight-IsLow e
marker-IsLow e m (there (there i)) = elim i [ ]

pub bom-low : (e : Encoding) → map lower_byte (bom_of e) ≡ bom_of e
bom-low utf_8 = refl
bom-low utf_16_le = refl
bom-low utf_16_be = refl
bom-low utf_32_le = refl
bom-low utf_32_be = refl

num_eq : (a b : ℕ) → (a == b) ≡ true → a ≡ b
num_eq a b h = ground arith

any_eq-In : (c : ℕ) (cs : List ℕ) → any (λ d. d == c) cs ≡ true → In c cs
any_eq-In c [] h = absurd (cc)
any_eq-In c (d ∷ cs) h = elim (Bool-cases (d == c)) [
  | inl same ↦ subst (λ x. In x (d ∷ cs)) (num_eq d c same) here
  | inr other ↦ there (any_eq-In c cs (rw other at h))
]

splits-boundary : (c : ℕ) → splits c ≡ true → any (λ d. d == c) line_boundaries ≡ true
unfolding line_boundaries
splits-boundary c h = ground arith

pub splits-In : (c : ℕ) → splits c ≡ true → In c line_boundaries
splits-In c h = any_eq-In c line_boundaries (splits-boundary c h)

text_eq-low :
    (e : Encoding) (c : ℕ)
    → char_low e c ≡ true
    → map lower_byte (encode_char e c) ≡ encode_char e c
unfolding char_low
text_eq-low e c h = (text_eq_iff _ _).0 h

pub ending-IsLow :
    (e : Encoding) (c : ℕ) → splits c ≡ true → map lower_byte (encode_char e c) ≡ encode_char e c
ending-IsLow e c h = text_eq-low e c (
    all-In (char_low e) (line_ws ++ line_boundaries) (In-append_right line_ws _ (splits-In c h))
      (all_low e))

pub lead-IsLow :
    (e : Encoding) (lead : Text) → any (λ c. not (is_blank c)) lead ≡ false → IsLow e lead
unfolding encode
lead-IsLow e [] h = refl
lead-IsLow e (c ∷ lead) h =
    let blank : is_blank c ≡ true = ground arith in
    lower_bytes-append (encode_char e c) (encode e lead)
    ∙ ap₂ ◌++◌
        (text_eq-low e c (
          all-In (char_low e) (line_ws ++ line_boundaries)
            (In-append_left line_ws _ (any_eq-In c line_ws blank)) (all_low e)))
        (lead-IsLow e lead (ground arith))
