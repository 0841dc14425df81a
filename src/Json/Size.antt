-- ===== src/Json/Size.antt =====
-- Facts about the length of a dump, and checks of it against json.dumps.
use rw_checks_codecollection.Prelude.{
  ℕ, zero, suc, ◌+◌, ◌≤◌, ◌≡◌, refl, List, [], ◌∷◌, ◌++◌, Text, codes, length, take, arith, show_ℕ,
  negsuc,
}
use rw_checks_codecollection.Json.{
  Json, null, int, str, arr, obj, nil, cons, end, field, num, items, escape_len, escaped_len,
  json_len, items_len, items_sep,
}

pub escape_len-pos : (c : ℕ) → 1 ≤ escape_len c
escape_len-pos c = ground arith

pub escaped_len-append : (s t : Text) → escaped_len (s ++ t) ≡ escaped_len s + escaped_len t
escaped_len-append [] t = omega arith
escaped_len-append (c ∷ s) t = omega (arith, escaped_len-append s t)

-- A longer prefix of a text is no shorter in JSON.
pub escaped_len-take_mono :
    (m n : ℕ) (s : Text) → m ≤ n → escaped_len (take m s) ≤ escaped_len (take n s)
escaped_len-take_mono zero n s h = omega arith
escaped_len-take_mono (suc m) zero s h = absurd (omega arith)
escaped_len-take_mono (suc m) (suc n) [] h = omega arith
escaped_len-take_mono (suc m) (suc n) (c ∷ s) h =
    omega (arith, escaped_len-take_mono m n s (omega arith))

-- A list of entries that grows at its end grows by the new entry and its separator.
pub items_len-snoc :
    (xs : List Json) (y : Json) (sep : ℕ)
    → items_len (items (xs ++ y ∷ [])) sep
      ≡ items_len (items xs) sep + (json_len y + (items_sep xs sep))
unfolding json_len
items_len-snoc [] y sep = omega arith
items_len-snoc (x ∷ []) y sep = omega arith
items_len-snoc (x ∷ x' ∷ xs) y sep = omega (arith, items_len-snoc (x' ∷ xs) y 2)

dumps_sample :
    json_len (
      obj (
        field "a"
          (arr (cons (num 12) (cons (str (codes "x\"y")) nil)))
          (field "b" null (field "c" (int (negsuc 4)) end))))
    ≡ length (codes "{\"a\": [12, \"x\\\"y\"], \"b\": null, \"c\": -5}")
unfolding json_len show_ℕ
dumps_sample = refl
