-- ===== src/Query/Run/Budget.antt =====
-- The size of the answer of run_query of sdk/runwhen_capability/repo_query.py.
use native.Mathlib.Nat.{zero-add}
use rw_checks_codecollection.Prelude.{
  ℕ, zero, suc, ◌+◌, ◌-◌, ◌*◌, ◌≤◌, ◌≡◌, refl, ap, Bool, true, false, List, [], ◌∷◌, ◌++◌, map,
  Option, none, some, ltb, leb, ◌==◌, length, Text, arith, inl, inr, Bool-cases, Option-cases,
  if_intro, subst, length-append, leb→le, not_ltb→le,
}
use rw_checks_codecollection.Json.{Json, arr, item_list, json_len, items, items_len, items_sep}
use rw_checks_codecollection.Json.Size.{items_len-snoc}
use rw_checks_codecollection.Models.{QueryOpResult, QueryResult, dump_entry, dump_query}
use rw_checks_codecollection.Faults.{ok, ok-injective, >>=-eq-ok, if_raise-eq-ok}
use rw_checks_codecollection.Query.Ops.{Repo, run_op}
use rw_checks_codecollection.Query.Fit.{entry_size, Fitted, fit, fit_trimmed, trim}
use rw_checks_codecollection.Query.Run.{
  query_budget, max_query_ops, query_deadline, budget_error, own_too_big, separator, held, reserve,
  baseline, Loop, push, refuse, own_error, settle, available, tick, attend_if, attend, round,
  run_loop, start, finish, run_ops, run_query,
}
use rw_checks_codecollection.Query.Run.Sizes.{
  deadline_error-le, own_too_big-le, held-eq, held_bound,
}

-- What _fit gives has the size that it says, and fits.
pub record Fits (available : ℕ) (f : Fitted) : Type 0 where
  pub sized : (e : QueryOpResult) → f.entry ≡ some e → entry_size e ≡ f.size
  pub small : f.size ≤ available

pub fit_trimmed-Fits :
    (entry : QueryOpResult) (room : ℕ) (result : Option _)
    → Fits room (fit_trimmed entry room result)
fit_trimmed-Fits entry room none = record { sized = λ e h. ground arith; small = omega arith }
fit_trimmed-Fits entry room (some result) = record {
  sized = λ e h. ground (arith, ap (λ (o : Option QueryOpResult). o) h);
  small = ground arith;
}

pub fit-Fits : (entry : QueryOpResult) (room : ℕ) → Fits room (fit entry room)
unfolding fit
fit-Fits entry room = elim (Bool-cases (leb (entry_size entry) room)) [
  | inl h ↦ rw h (record { sized = λ e p. ground arith; small = leb→le _ _ h })
  | inr h ↦ rw h (fit_trimmed-Fits entry room (trim entry entry.result room))
]

-- The loop's variables before the op at `index`, when `rest` is to be answered from there on. `back`
-- is what is still reserved.
pub record Sound (index back : ℕ) (s : Loop) : Type 0 where
  pub count : length s.results ≡ index
  pub spent : baseline + items_len (items (map dump_entry s.results)) 0 ≤ s.used
  pub held_back : s.reserved ≡ back
  pub room : s.used + back ≤ query_budget

map-snoc :
    (xs : List QueryOpResult) (e : QueryOpResult)
    → map dump_entry (xs ++ e ∷ []) ≡ map dump_entry xs ++ dump_entry e ∷ []
map-snoc [] e = refl
map-snoc (x ∷ xs) e = ap (◌∷◌ (dump_entry x)) (map-snoc xs e)

items_sep-separator :
    (xs : List QueryOpResult) (index : ℕ)
    → length xs ≡ index
    → items_sep (map dump_entry xs) 0 ≡ separator index
items_sep-separator [] zero h = refl
items_sep-separator [] (suc index) h = absurd (omega arith)
items_sep-separator (x ∷ xs) zero h = absurd (omega arith)
items_sep-separator (x ∷ xs) (suc index) h = refl

push-Sound :
    (index back size : ℕ) (entry : QueryOpResult) (s : Loop)
    → length s.results ≡ index
    → baseline + items_len (items (map dump_entry s.results)) 0 ≤ s.used
    → s.reserved ≡ back
    → entry_size entry ≤ size
    → s.used + (separator index + size) + back ≤ query_budget
    → Sound (suc index) back (push index entry size s)
unfolding push entry_size
push-Sound index back size entry s count spent held_back fits room = record {
  count = omega (arith, length-append s.results (entry ∷ []));
  spent =
      rw map-snoc
        (rw items_len-snoc (rw (items_sep-separator s.results index count) (omega arith)));
  held_back = held_back;
  room = omega arith;
}

-- The same with the op's own reservation released, and its room still there.
record Ready (index back : ℕ) (op : Json) (s : Loop) : Type 0 where
  count : length s.results ≡ index
  spent : baseline + items_len (items (map dump_entry s.results)) 0 ≤ s.used
  held_back : s.reserved ≡ back
  room : s.used + held index op + back ≤ query_budget

module _ (index back : ℕ) (op : Json) where
  -- Any entry whose size is at most that of the RESPONSE_BUDGET entry may be pushed with its size.
  push-reserved :
      (size : ℕ) (entry : QueryOpResult) (s : Loop)
      → Ready index back op s
      → entry_size entry ≤ size
      → size ≤ entry_size (budget_error index op)
      → Sound (suc index) back (push index entry size s)
  push-reserved size entry s r fits small =
      push-Sound index back size entry s r.count r.spent r.held_back fits
        (omega (arith, held-eq index op, r.room))

  refuse-Sound : (s : Loop) → Ready index back op s → Sound (suc index) back (refuse index op s)
  unfolding refuse
  refuse-Sound s r =
      push-reserved (held index op - separator index) _ s r
        (ground (arith, held-eq index op, deadline_error-le index op))
        (omega (arith, held-eq index op))

  own_error-Sound :
      (s : Loop) → Ready index back op s → Sound (suc index) back (own_error index op s)
  unfolding own_error
  own_error-Sound s r =
      let r' : Ready index back op (record s { truncated = true }) = record {
        count = r.count;
        spent = r.spent;
        held_back = r.held_back;
        room = r.room;
      } in
      elim (Bool-cases
        (leb (entry_size (own_too_big index op)) (held index op - separator index))) [
          | inl h ↦ rw h (
              push-reserved (entry_size (own_too_big index op)) (own_too_big index op) _ r'
                (omega arith) (own_too_big-le index op))
          | inr h ↦ rw h (
              push-reserved (held index op - separator index) (budget_error index op) _ r'
                (omega (arith, held-eq index op)) (omega (arith, held-eq index op)))
        ]

  push-fitted :
      (entry : QueryOpResult) (size : ℕ) (s : Loop)
      → Ready index back op s
      → entry_size entry ≡ size
      → size ≤ available index s
      → Sound (suc index) back (push index entry size s)
  push-fitted entry size s r sized small =
      push-Sound index back size entry s r.count r.spent r.held_back (omega arith)
        (omega (arith, held-eq index op, r.room, r.held_back))

  Ready-flags :
      (s : Loop) (exhausted truncated : Bool)
      → Ready index back op s
      → Ready index back op (record s { exhausted = exhausted; truncated = truncated })
  Ready-flags s exhausted truncated r = record {
    count = r.count;
    spent = r.spent;
    held_back = r.held_back;
    room = r.room;
  }

  settle-Sound :
      (f : Fitted) (s : Loop)
      → Ready index back op s
      → Fits (available index s) f
      → Sound (suc index) back (settle index op f s)
  unfolding settle
  settle-Sound f s r fits = elim (Option-cases f.entry) [
    | inl h ↦ rw h (
        if_intro (Sound (suc index) back) (s.used == baseline) (own_error-Sound s r)
          (refuse-Sound _ (Ready-flags s true true r)))
    | inr (e, h) ↦ rw h (
        if_intro (λ u. Sound (suc index) back (push index e f.size u)) f.trimmed
          (push-fitted e f.size _ (Ready-flags s true true r) (fits.sized e h) fits.small)
          (push-fitted e f.size s r (fits.sized e h) fits.small))
  ]

  tick-Ready :
      (now deadline : ℕ) (s : Loop)
      → Ready index back op s
      → Ready index back op (tick now deadline s)
  unfolding tick
  tick-Ready now deadline s r = ground arith

module _ (repo : Repo) (repr : Option Json → Text) where
  attend_if-Sound :
      (b : Bool) (index back : ℕ) (op : Json) (s : Loop) {t : Loop}
      → Ready index back op s
      → attend_if repo repr b index op s ≡ ok t
      → Sound (suc index) back t
  attend_if-Sound true index back op s r h =
      subst (Sound (suc index) back) (ok-injective h) (refuse-Sound index back op s r)
  attend_if-Sound false index back op s r h =
      let (entry, _, e) = >>=-eq-ok (run_op repo repr index op) _ h in
      subst (Sound (suc index) back) (ok-injective e) (
        settle-Sound index back op (fit entry (available index s)) s r
          (fit-Fits entry (available index s)))

  run_loop-Sound :
      (clock : ℕ → ℕ) (deadline index : ℕ) (ops : List Json) (s : Loop) {t : Loop}
      → Sound index (reserve index ops) s
      → run_loop repo repr clock deadline index ops s ≡ ok t
      → Sound (length ops + index) 0 t
  unfolding run_loop reserve round attend
  run_loop-Sound clock deadline index [] s {t} inv h =
      subst (λ u. Sound (0 + index) 0 u) (ok-injective h) (rw zero-add inv)
  run_loop-Sound clock deadline index (op ∷ ops) s {t} inv h =
      let released = record s { reserved = s.reserved - held index op } in
      let ready : Ready index (reserve (suc index) ops) op released = record {
        count = inv.count;
        spent = inv.spent;
        held_back = omega (arith, inv.held_back);
        room = omega (arith, inv.room);
      } in
      let (s', first, rest) = >>=-eq-ok (round repo repr (clock index) deadline index op s) _ h in
      subst (λ n. Sound n 0 t) (omega arith)
        (run_loop-Sound clock deadline (suc index) ops s'
          (attend_if-Sound (tick (clock index) deadline released).exhausted index
            (reserve (suc index) ops) op _
            (tick-Ready index (reserve (suc index) ops) op (clock index) deadline released ready)
            first)
          rest)

reserve_bound :
    (index : ℕ) (ops : List Json) → index + length ops ≤ 100 → reserve index ops ≤ 184 * length ops
unfolding reserve
reserve_bound index [] h = omega arith
reserve_bound index (op ∷ ops) h =
    omega (arith, held_bound index op (omega arith), reserve_bound (suc index) ops (omega arith))

json_len-query :
    (results : List QueryOpResult) (truncated : Bool)
    → json_len (dump_query (record { results = results; truncated = truncated }))
      ≤ baseline + items_len (items (map dump_entry results)) 0
unfolding baseline dump_query json_len
json_len-query results true = omega arith
json_len-query results false = omega arith

baseline_bound : baseline ≤ 40
unfolding baseline dump_query json_len
baseline_bound = omega arith

start-Sound : (ops : List Json) → length ops ≤ max_query_ops → Sound 0 (reserve 0 ops) (start ops)
unfolding items_len
start-Sound ops h = record {
  count = refl;
  spent = ground arith;
  held_back = refl;
  room = omega (arith, baseline_bound, reserve_bound 0 ops (omega arith));
}

module _ (repo : Repo) (repr : Option Json → Text) where
  run_ops-Sound :
      (clock : ℕ → ℕ) (t0 : ℕ) (ops : List Json) {r : QueryResult}
      → run_ops repo repr clock t0 ops ≡ ok r
      → (s : Loop) × Sound (length ops) 0 s × (finish s ≡ r)
  unfolding run_ops
  run_ops-Sound clock t0 ops {r} h =
      let (few, going) = if_raise-eq-ok (ltb max_query_ops (length ops)) _ _ h in
      let (_, _, running) = >>=-eq-ok repo.check_tree_materialized _ going in
      let loop = run_loop repo repr clock (t0 + query_deadline) 0 ops (start ops) in
      let (s, done, last) = >>=-eq-ok loop _ running in
      let sound =
        run_loop-Sound repo repr clock (t0 + query_deadline) 0 ops (start ops)
          (start-Sound ops (not_ltb→le max_query_ops (length ops) few)) done in
      (s, subst (λ n. Sound n 0 s) (omega arith) sound, ok-injective last)

  -- Whatever the ops, the tree and the clock, the JSON of the answer takes at most QUERY_BUDGET bytes.
  pub run_ops-le-budget :
      (clock : ℕ → ℕ) (t0 : ℕ) (ops : List Json) (r : QueryResult)
      → run_ops repo repr clock t0 ops ≡ ok r
      → json_len (dump_query r) ≤ query_budget
  run_ops-le-budget clock t0 ops r h =
      let (s, sound, e) = run_ops-Sound clock t0 ops h in
      subst (λ q. json_len (dump_query q) ≤ query_budget) e
        (omega (arith, json_len-query s.results s.truncated, sound.spent, sound.room))

  -- The JSON of the answer to a query, with its separators and its escapes, takes at most QUERY_BUDGET
  -- bytes: for every tree and request that it answers, however slow its ops and however large their
  -- results.
  pub run_query-le-budget :
      (type_name : Json → Text) (clock : ℕ → ℕ) (t0 : ℕ) (ops : Json) (r : QueryResult)
      → run_query repo repr type_name clock t0 ops ≡ ok r
      → json_len (dump_query r) ≤ query_budget
  unfolding run_query
  run_query-le-budget type_name clock t0 (arr ops) r h =
      run_ops-le-budget clock t0 (item_list ops) r h
  run_query-le-budget type_name clock t0 _ r h = cc
