-- ===== src/Guards/Sql/Lines.antt =====
-- Where the lines that str.splitlines gives stand in the text, for the directives of
-- capabilities/rw-checks/guards.py.
use rw_checks_codecollection.Prelude.{
  ℕ, ◌≡◌, refl, ap, ◌⊎◌, inl, inr, Bool, true, false, ◌&&◌, List, [], ◌∷◌, ◌++◌, ◌==◌, Text, arith,
  Bool-cases, In, here, there, All, any, if_intro,
}
use rw_checks_codecollection.Guards.Sql.{splits, push_first, lines_from, splitlines}

-- The text starts with the line.
abbrev pub AtStart : Text → Text → Type 0
AtStart text line = (rest : Text) × (text ≡ line ++ rest)

-- The line stands in the text behind a character that ends a line.
pub record Behind (text line : Text) : Type 0 where
  pub before : Text
  pub ending : ℕ
  pub rest : Text
  pub splits_there : splits ending ≡ true
  pub whole : text ≡ before ++ (ending ∷ (line ++ rest))

Behind-cons : (c : ℕ) (text line : Text) → Behind text line → Behind (c ∷ text) line
Behind-cons c text line b = record {
  before = c ∷ b.before;
  ending = b.ending;
  rest = b.rest;
  splits_there = b.splits_there;
  whole = ap (◌∷◌ c) b.whole;
}

Behind-start :
    (c : ℕ) (text line : Text) → splits c ≡ true → AtStart text line → Behind (c ∷ text) line
Behind-start c text line h (rest, e) = record {
  before = [];
  ending = c;
  rest = rest;
  splits_there = h;
  whole = ap (◌∷◌ c) e;
}

abbrev pub Stands : Text → Text → Type 0
Stands text line = AtStart text line ⊎ Behind text line

Stands-Behind :
    (c : ℕ) (text line : Text) → splits c ≡ true → Stands text line → Behind (c ∷ text) line
Stands-Behind c text line h (inl s) = Behind-start c text line h s
Stands-Behind c text line h (inr b) = Behind-cons c text line b

-- The first line starts the text, and the others stand behind an ending.
abbrev Heads : Text → List Text → Type 0
Heads text [] = Unit
Heads text (l ∷ ls) = AtStart text l × All (Behind text) ls

All-In {ℓ κ} : {A : Type ℓ} {P : A → Type κ} (xs : List A) → ((x : A) → In x xs → P x) → All P xs
All-In [] f = tt
All-In (x ∷ xs) f = (f x here, All-In xs (λ y i. f y (there i)))

pub In-All {ℓ κ} : {A : Type ℓ} (P : A → Type κ) {x : A} (xs : List A) → All P xs → In x xs → P x
In-All P [] h i = elim i [ ]
In-All P (y ∷ ys) (p, h) here = p
In-All P (y ∷ ys) (p, h) (there i) = In-All P ys h i

Heads-Stands :
    {line : Text} (text : Text) (ls : List Text) → Heads text ls → In line ls → Stands text line
Heads-Stands text [] h i = elim i [ ]
Heads-Stands text (l ∷ ls) (start, h) here = inl start
Heads-Stands text (l ∷ ls) (start, h) (there i) = inr (In-All (Behind text) ls h i)

push_first-Heads :
    (c : ℕ) (text : Text) (ls : List Text) → Heads text ls → Heads (c ∷ text) (push_first c ls)
push_first-Heads c text [] h = ((text, refl), tt)
push_first-Heads c text (l ∷ ls) ((rest, e), h) =
    ((rest, ap (◌∷◌ c) e), All-In ls (λ x i. Behind-cons c text x (In-All (Behind text) ls h i)))

-- What both kinds of scan say of a text: behind a carriage return a line stands somewhere, and else the first
-- starts the text.
record Scanned (text : Text) : Type 0 where
  behind_cr : {line : Text} → In line (lines_from true text) → Stands text line
  fresh : Heads text (lines_from false text)

either-Stands :
    (b : Bool) (text : Text) {line : Text}
    → Scanned text
    → In line (lines_from b text)
    → Stands text line
either-Stands true text s i = s.behind_cr i
either-Stands false text s i = Heads-Stands text _ s.fresh i

module _ (c : ℕ) (text : Text) (scanned : Scanned text) where
  ended : splits c ≡ true → Heads (c ∷ text) ([] ∷ lines_from (c == 13) text)
  ended h = (
    (c ∷ text, refl),
    All-In _ (λ x i. Stands-Behind c text x h (either-Stands (c == 13) text scanned i)),
  )

  not_cr : splits c ≡ false → (c == 13) ≡ false
  not_cr h = ground arith

  ordinary : splits c ≡ false → Heads (c ∷ text) (push_first c (lines_from (c == 13) text))
  ordinary h = rw (not_cr h) (push_first-Heads c text _ scanned.fresh)

  step-fresh : Heads (c ∷ text) (lines_from false (c ∷ text))
  unfolding lines_from
  step-fresh = elim (Bool-cases (splits c)) [ inl h ↦ rw h (ended h) | inr h ↦ rw h (ordinary h) ]

  newline-splits : (c == 10) ≡ true → splits c ≡ true
  newline-splits h = ground arith

  step-behind_cr : {line : Text} → In line (lines_from true (c ∷ text)) → Stands (c ∷ text) line
  unfolding lines_from
  step-behind_cr {line} i = elim (Bool-cases (c == 10)) [
    | inl newline ↦ inr (
        Stands-Behind c text line (newline-splits newline)
          (either-Stands (c == 13) text scanned (rw newline at i)))
    | inr other ↦ Heads-Stands (c ∷ text) _ step-fresh (rw other at i)
  ]

scan : (text : Text) → Scanned text
unfolding lines_from
scan [] = record { behind_cr = λ i. elim i [ ]; fresh = tt }
scan (c ∷ text) = record {
  behind_cr = λ i. step-behind_cr c text (scan text) i;
  fresh = step-fresh c text (scan text);
}

-- Every line of splitlines starts the text or stands behind a character that ends a line.
pub splitlines-Stands : (text : Text) {line : Text} → In line (splitlines text) → Stands text line
splitlines-Stands text i = Heads-Stands text _ (scan text).fresh i

abbrev pub NoSplit : Text → Type 0
NoSplit line = any splits line ≡ false

push_first-NoSplit :
    (c : ℕ) (ls : List Text) → splits c ≡ false → All NoSplit ls → All NoSplit (push_first c ls)
push_first-NoSplit c [] h k = (rw h, tt)
push_first-NoSplit c (l ∷ ls) h (p, k) = (rw h p, k)

-- No line holds a character that ends one.
pub lines_from-NoSplit : (after_cr : Bool) (text : Text) → All NoSplit (lines_from after_cr text)
unfolding lines_from
lines_from-NoSplit after_cr [] = tt
lines_from-NoSplit after_cr (c ∷ s) =
    let rest = lines_from-NoSplit (c == 13) s in
    if_intro (All NoSplit) (after_cr && c == 10) rest (elim (Bool-cases (splits c)) [
      | inl h ↦ rw h (refl, rest)
      | inr h ↦ rw h (push_first-NoSplit c _ h rest)
    ])
