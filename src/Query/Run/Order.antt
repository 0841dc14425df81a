-- ===== src/Query/Run/Order.antt =====
-- Which entry answers which op of a query, and when an entry is what its op came to.
use rw_checks_codecollection.Prelude.{
  ℕ, suc, ◌+◌, ◌-◌, ◌≡◌, refl, ◌∙◌, ◌≢◌, ◌⊎◌, sym, ap, Bool, true, false, List, [], ◌∷◌, ◌++◌,
  Option, none, some, ltb, leb, ◌==◌, if◌then◌else◌, length, Text, arith, inl, inr, Bool-cases,
  Option-cases, if_intro, subst, append-nil, append_assoc,
}
use rw_checks_codecollection.Json.{Json, null, obj, Fields}
use rw_checks_codecollection.Models.{QueryOpResult, QueryResult, OpResult}
use rw_checks_codecollection.Faults.{ok, ok-injective, >>=-eq-ok, if_raise-eq-ok}
use rw_checks_codecollection.Query.Fields.{Attempt}
use rw_checks_codecollection.Query.Ops.{
  Repo, OpName, op_name, op_string, op_error, answer, run_named, run_op, unknown_op, not_an_object,
}
use rw_checks_codecollection.Query.Fit.{entry_size, fit, fit_trimmed, trim}
use rw_checks_codecollection.Query.Run.{
  max_query_ops, query_deadline, budget_error, deadline_error, own_too_big, held, separator,
  baseline, Loop, push, refuse, own_error, settle, available, tick, attend_if, attend, round,
  run_loop, start, run_ops,
}

-- Exactly one of `result` and `error` is there.
abbrev OneOf : QueryOpResult → Type 0
OneOf e = ((e.error ≡ none) × (e.result ≢ none)) ⊎ ((e.error ≢ none) × (e.result ≡ none))

pub record Answer (index : ℕ) (op : Json) (e : QueryOpResult) : Type 0 where
  pub position : e.index ≡ index
  pub named : e.op ≡ op_string (op_name op)
  pub one : OneOf e

op_error-Answer :
    (index : ℕ) (op : Json) (code : _) (message : Text)
    → Answer index op (op_error index (op_name op) code message)
unfolding op_error
op_error-Answer index op code message = record {
  position = refl;
  named = refl;
  one = inr (λ p. cc, refl);
}

budget_error-Answer : (index : ℕ) (op : Json) → Answer index op (budget_error index op)
unfolding budget_error
budget_error-Answer index op = op_error-Answer index op _ _

deadline_error-Answer : (index : ℕ) (op : Json) → Answer index op (deadline_error index op)
unfolding deadline_error
deadline_error-Answer index op = op_error-Answer index op _ _

own_too_big-Answer : (index : ℕ) (op : Json) → Answer index op (own_too_big index op)
unfolding own_too_big
own_too_big-Answer index op = op_error-Answer index op _ _

answer-Answer :
    (index : ℕ) (op : Json) (name : OpName) (a : Attempt OpResult) {e : QueryOpResult}
    → op_name op ≡ some name
    → answer index name a ≡ ok e
    → Answer index op e
unfolding answer
answer-Answer index op name a h k = record {
  position = ground arith;
  named = ground arith;
  one = ground arith;
}

module _ (repo : Repo) (repr : Option Json → Text) where
  run_named-Answer :
      (index : ℕ) (fs : Fields) (name : Option OpName) {e : QueryOpResult}
      → op_name (obj fs) ≡ name
      → run_named repo repr index fs name ≡ ok e
      → Answer index (obj fs) e
  run_named-Answer index fs none {e} p h = subst (Answer index (obj fs)) (ok-injective h) (
      subst (λ n. Answer index (obj fs) (op_error index n "INVALID_OP" (unknown_op repo repr fs))) p
        (op_error-Answer index (obj fs) "INVALID_OP" _))
  run_named-Answer index fs (some name) p h = answer-Answer index (obj fs) name _ p h

  run_op-Answer :
      (index : ℕ) (op : Json) {e : QueryOpResult}
      → run_op repo repr index op ≡ ok e
      → Answer index op e
  unfolding run_op op_name
  run_op-Answer index (obj fs) h = run_named-Answer index fs (op_name (obj fs)) refl h
  run_op-Answer index null h =
      subst (Answer index null) (ok-injective h)
        (op_error-Answer index null "INVALID_OP" not_an_object)
  run_op-Answer index op h =
      subst (Answer index op) (ok-injective h) (op_error-Answer index op "INVALID_OP" not_an_object)

-- Trimming keeps everything but the result, and gives one only where one is.
fit_trimmed-Answer :
    (index : ℕ) (op : Json) (entry : QueryOpResult) (room : ℕ) (result : Option OpResult)
    {e : QueryOpResult}
    → Answer index op entry
    → (entry.result ≡ none → result ≡ none)
    → (fit_trimmed entry room result).entry ≡ some e
    → Answer index op e
fit_trimmed-Answer index op entry room none a k h = cc
fit_trimmed-Answer index op entry room (some result) {e} a k h = record {
  position = ground (arith, a.position);
  named = ground (arith, a.named);
  one = ground (arith, a.one);
}

fit-Answer :
    (index : ℕ) (op : Json) (entry : QueryOpResult) (room : ℕ) {e : QueryOpResult}
    → Answer index op entry
    → (fit entry room).entry ≡ some e
    → Answer index op e
unfolding fit
fit-Answer index op entry room {e} a h = elim (Bool-cases (leb (entry_size entry) room)) [
  | inl p ↦ subst (Answer index op) (ground arith) a
  | inr p ↦
      fit_trimmed-Answer index op entry room (trim entry entry.result room) a (λ n. rw n)
        (ground arith)
]

-- Only a whole entry is given untrimmed.
fit_untrimmed :
    (entry : QueryOpResult) (room : ℕ) {e : QueryOpResult}
    → (fit entry room).entry ≡ some e
    → (fit entry room).trimmed ≡ false
    → e ≡ entry
unfolding fit
fit_untrimmed entry room h k = ground arith

-- An exhausted batch is truncated.
abbrev Flags : Loop → Type 0
Flags s = s.exhausted ≡ true → s.truncated ≡ true

module _ (now deadline : ℕ) (s : Loop) where
  tick-Flags : Flags s → Flags (tick now deadline s)
  unfolding tick
  tick-Flags flags h = ground (arith, flags)

  results-tick : (tick now deadline s).results ≡ s.results
  unfolding tick
  results-tick = ground arith

  tick_truncated : (tick now deadline s).truncated ≡ false → s.truncated ≡ false
  unfolding tick
  tick_truncated h = ground arith

module _ (repo : Repo) (repr : Option Json → Text) where
  -- One round pushes one entry, which answers the op; and it is what the op came to, if the answer is
  -- not marked as truncated after it.
  record Round (index : ℕ) (op : Json) (s t : Loop) : Type 0 where
    entry : QueryOpResult
    pushed : t.results ≡ s.results ++ entry ∷ []
    answers : Answer index op entry
    whole : t.truncated ≡ false → (s.truncated ≡ false) × (run_op repo repr index op ≡ ok entry)
    flags : Flags t

  module _ (index : ℕ) (op : Json) where
    refuse-Round : (s : Loop) → s.truncated ≡ true → Round index op s (refuse index op s)
    unfolding refuse push
    refuse-Round s cut = record {
      entry = if s.timed_out then deadline_error index op else budget_error index op;
      pushed = refl;
      answers =
          if_intro (Answer index op) s.timed_out (deadline_error-Answer index op)
            (budget_error-Answer index op);
      whole = λ h. cc;
      flags = λ h. cut;
    }

    own_error-Round : (s : Loop) → s.exhausted ≡ false → Round index op s (own_error index op s)
    unfolding own_error push
    own_error-Round s going =
        elim (Bool-cases
          (leb (entry_size (own_too_big index op)) (held index op - separator index))) [
            | inl p ↦ rw p (record {
              entry = own_too_big index op;
              pushed = refl;
              answers = own_too_big-Answer index op;
              whole = λ h. cc;
              flags = λ h. refl;
            })
            | inr p ↦ rw p (record {
              entry = budget_error index op;
              pushed = refl;
              answers = budget_error-Answer index op;
              whole = λ h. cc;
              flags = λ h. refl;
            })
          ]

    marked :
        (s t : Loop)
        → Round index op (record s { exhausted = true; truncated = true }) t
        → Round index op s t
    marked s t r = record {
      entry = r.entry;
      pushed = r.pushed;
      answers = r.answers;
      whole = λ h. cc (r.whole h).0;
      flags = r.flags;
    }

    fitted-Round :
        (entry : QueryOpResult) (room : ℕ) (e : QueryOpResult) (s : Loop) (trimmed : Bool)
        → s.exhausted ≡ false
        → run_op repo repr index op ≡ ok entry
        → (fit entry room).entry ≡ some e
        → (fit entry room).trimmed ≡ trimmed
        → Round index op s (
            push index e
              (fit entry room).size
              (if trimmed then record s { exhausted = true; truncated = true } else s))
    unfolding push
    fitted-Round entry room e s true going ran p k = record {
      entry = e;
      pushed = refl;
      answers = fit-Answer index op entry room (run_op-Answer repo repr index op ran) p;
      whole = λ h. cc h;
      flags = λ h. refl;
    }
    fitted-Round entry room e s false going ran p k = record {
      entry = e;
      pushed = refl;
      answers = fit-Answer index op entry room (run_op-Answer repo repr index op ran) p;
      whole = λ h. (h, ran ∙ ap ok (sym (fit_untrimmed entry room p k)));
      flags = λ h. cc (going, h);
    }

    settle-Round :
        (entry : QueryOpResult) (room : ℕ) (s : Loop)
        → s.exhausted ≡ false
        → run_op repo repr index op ≡ ok entry
        → Round index op s (settle index op (fit entry room) s)
    unfolding settle
    settle-Round entry room s going ran = elim (Option-cases (fit entry room).entry) [
      | inl p ↦ rw p (
          if_intro (Round index op s) (s.used == baseline) (own_error-Round s going)
            (marked s _ (refuse-Round (record s { exhausted = true; truncated = true }) refl)))
      | inr (e, p) ↦ rw p (fitted-Round entry room e s (fit entry room).trimmed going ran p refl)
    ]

    attend_if-Round :
        (b : Bool) (s : Loop) {t : Loop}
        → s.exhausted ≡ b
        → Flags s
        → attend_if repo repr b index op s ≡ ok t
        → Round index op s t
    attend_if-Round true s k flags h =
        subst (Round index op s) (ok-injective h) (refuse-Round s (flags k))
    attend_if-Round false s k flags h =
        let (entry, ran, e) = >>=-eq-ok (run_op repo repr index op) _ h in
        subst (Round index op s) (ok-injective e) (settle-Round entry (available index s) s k ran)

    -- The two assignments before the op is attended leave results and can only set the flags.
    round-Round :
        (now deadline : ℕ) (s : Loop) {t : Loop}
        → Flags s
        → round repo repr now deadline index op s ≡ ok t
        → Round index op s t
    unfolding round attend
    round-Round now deadline s {t} flags h =
        let released = record s { reserved = s.reserved - held index op } in
        let ticked = tick now deadline released in
        let r =
          attend_if-Round ticked.exhausted ticked refl (tick-Flags now deadline released flags) h in
        record {
          entry = r.entry;
          pushed = r.pushed ∙ ap (λ xs. xs ++ r.entry ∷ []) (results-tick now deadline released);
          answers = r.answers;
          whole = λ u. (tick_truncated now deadline released (r.whole u).0, (r.whole u).1);
          flags = r.flags;
        }

-- The entries answer the ops one by one, in order, from `index` on.
abbrev pub Answers : ℕ → List Json → List QueryOpResult → Type 0
Answers index [] [] = Unit
Answers index [] (e ∷ es) = ⊥
Answers index (op ∷ ops) [] = ⊥
Answers index (op ∷ ops) (e ∷ es) = Answer index op e × Answers (suc index) ops es

module _ (repo : Repo) (repr : Option Json → Text) where
  -- The entries are what running the ops one by one comes to.
  abbrev pub Ran : ℕ → List Json → List QueryOpResult → Type 0
  Ran index [] [] = Unit
  Ran index [] (e ∷ es) = ⊥
  Ran index (op ∷ ops) [] = ⊥
  Ran index (op ∷ ops) (e ∷ es) = (run_op repo repr index op ≡ ok e) × Ran (suc index) ops es

  run_loop-Answers :
      (clock : ℕ → ℕ) (deadline index : ℕ) (ops : List Json) (s : Loop) {t : Loop}
      → Flags s
      → run_loop repo repr clock deadline index ops s ≡ ok t
      → (new : List QueryOpResult) × (t.results ≡ s.results ++ new)
        × Answers index ops new
        × (t.truncated ≡ false → (s.truncated ≡ false) × Ran index ops new)
  unfolding run_loop
  run_loop-Answers clock deadline index [] s {t} flags h =
      let same = ok-injective h in
      (
        [],
        ap (λ (u : Loop). u.results) (sym same) ∙ sym (append-nil s.results),
        tt,
        λ k. (ap (λ (u : Loop). u.truncated) same ∙ k, tt),
      )
  run_loop-Answers clock deadline index (op ∷ ops) s {t} flags h =
      let (s', first, rest) = >>=-eq-ok (round repo repr (clock index) deadline index op s) _ h in
      let r = round-Round repo repr index op (clock index) deadline s flags first in
      let (new, pushed, answers, whole) =
        run_loop-Answers clock deadline (suc index) ops s' r.flags rest in
      (
        r.entry ∷ new,
        pushed ∙ ap (λ xs. xs ++ new) r.pushed ∙ append_assoc s.results (r.entry ∷ []) new,
        (r.answers, answers),
        λ u. let (kept, ran) = whole u in ((r.whole kept).0, ((r.whole kept).1, ran)),
      )

  run_ops-loop :
      (clock : ℕ → ℕ) (t0 : ℕ) (ops : List Json) {r : QueryResult}
      → run_ops repo repr clock t0 ops ≡ ok r
      → Answers 0 ops r.results × (r.truncated ≡ false → Ran 0 ops r.results)
  unfolding run_ops
  run_ops-loop clock t0 ops {r} h =
      let (_, going) = if_raise-eq-ok (ltb max_query_ops (length ops)) _ _ h in
      let (_, _, running) = >>=-eq-ok repo.check_tree_materialized _ going in
      let loop = run_loop repo repr clock (t0 + query_deadline) 0 ops (start ops) in
      let (s, done, last) = >>=-eq-ok loop _ running in
      let (new, pushed, answers, whole) =
        run_loop-Answers clock (t0 + query_deadline) 0 ops (start ops) (λ k. cc k) done in
      let same = sym pushed ∙ ap (λ (q : QueryResult). q.results) (ok-injective last) in
      (
        subst (Answers 0 ops) same answers,
        λ u.
            subst (Ran 0 ops) same
              (whole (ap (λ (q : QueryResult). q.truncated) (ok-injective last) ∙ u)).1,
      )

  -- The answer of a query has one entry for each op, in request order: entry i has index i, names the
  -- op that the request named (if that is a known one), and holds exactly one of a result and an error.
  pub run_ops-Answers :
      (clock : ℕ → ℕ) (t0 : ℕ) (ops : List Json) (r : QueryResult)
      → run_ops repo repr clock t0 ops ≡ ok r
      → Answers 0 ops r.results
  run_ops-Answers clock t0 ops r h = (run_ops-loop clock t0 ops h).0

  -- An answer that is not marked truncated is complete: each entry is exactly what its op came to when
  -- run on its own, with nothing trimmed, refused or timed out.
  pub run_ops-Ran :
      (clock : ℕ → ℕ) (t0 : ℕ) (ops : List Json) (r : QueryResult)
      → run_ops repo repr clock t0 ops ≡ ok r
      → r.truncated ≡ false
      → Ran 0 ops r.results
  run_ops-Ran clock t0 ops r h k = (run_ops-loop clock t0 ops h).1 k
