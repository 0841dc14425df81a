-- ===== src/Query/Run.antt =====
-- run_query of sdk/runwhen_capability/repo_query.py. The proofs are in the modules below.
mod Sizes
pub mod Budget
pub mod Order
pub mod Total
use rw_checks_codecollection.Prelude.{
  ℕ, zero, suc, ◌+◌, ◌-◌, Bool, true, false, List, [], ◌∷◌, ◌++◌, Option, none, some, ltb, leb,
  ◌==◌, ◌&&◌, not, if◌then◌else◌, Text, codes, length, show_ℕ,
}
use rw_checks_codecollection.Json.{Json, arr, json_len, item_list}
use rw_checks_codecollection.Models.{QueryOpResult, QueryResult, dump_query}
use rw_checks_codecollection.Faults.{Exn, Kind, value_error, Result, ok, raise, ◌>>=◌}
use rw_checks_codecollection.Query.Ops.{Repo, op_name, op_error, run_op}
use rw_checks_codecollection.Query.Fit.{entry_size, Fitted, fit}

-- QUERY_BUDGET = READ_BUDGET = 256 * 1024 - 1024
abbrev pub query_budget : ℕ
query_budget = 261120

abbrev pub max_query_ops : ℕ
max_query_ops = 60

-- QUERY_DEADLINE_SECONDS, in microseconds of the monotonic clock.
abbrev pub query_deadline : ℕ
query_deadline = 20000000

abbrev budget_message : Text
budget_message =
    codes "response budget spent by earlier ops in this query; send this op again in a new query"

abbrev deadline_message : Text
deadline_message = codes "query time budget spent; send the remaining ops in a new query"

abbrev own_message : Text
own_message = codes "this op's result alone exceeds the response budget; narrow it and retry"

-- budget_errors[index], deadline_errors[index] and the `own_too_big` entry.
unfoldable pub budget_error : ℕ → Json → QueryOpResult
budget_error index op = op_error index (op_name op) "RESPONSE_BUDGET" budget_message

unfoldable pub deadline_error : ℕ → Json → QueryOpResult
deadline_error index op = op_error index (op_name op) "DEADLINE" deadline_message

unfoldable pub own_too_big : ℕ → Json → QueryOpResult
own_too_big index op = op_error index (op_name op) "RESPONSE_BUDGET" own_message

abbrev pub separator : ℕ → ℕ
separator zero = 0
separator (suc index) = 2

-- held[index]
unfoldable pub held : ℕ → Json → ℕ
held index op = entry_size (budget_error index op) + separator index

-- sum(held) over the ops from `index` on.
unfoldable pub reserve : ℕ → List Json → ℕ
reserve index [] = 0
reserve index (op ∷ ops) = held index op + reserve (suc index) ops

-- len(json.dumps({"results": [], "truncated": false}))
unfoldable pub baseline : ℕ
baseline = json_len (dump_query (record { results = []; truncated = false }))

-- The variables of the loop.
pub record Loop : Type 0 where
  pub results : List QueryOpResult
  pub used : ℕ
  pub reserved : ℕ
  pub exhausted : Bool
  pub truncated : Bool
  pub timed_out : Bool

-- results.append(entry); used += separator + size
unfoldable pub push : ℕ → QueryOpResult → ℕ → Loop → Loop
push index entry size s = record s {
  results = s.results ++ entry ∷ [];
  used = s.used + (separator index + size);
}

-- `if entry is None`: the op does not run.
unfoldable pub refuse : ℕ → Json → Loop → Loop
unfolding push
refuse index op s =
    push index (if s.timed_out then deadline_error index op else budget_error index op)
      (held index op - separator index) s

-- Nothing fits and nothing is spent: the op alone is too big, and later ops still run.
unfoldable pub own_error : ℕ → Json → Loop → Loop
unfolding push
own_error index op s =
    let own = own_too_big index op in
    if leb (entry_size own) (held index op - separator index)
    then push index own (entry_size own) (record s { truncated = true })
    else push index (budget_error index op) (held index op - separator index)
        (record s { truncated = true })

-- The branches on what _fit gave.
unfoldable pub settle : ℕ → Json → Fitted → Loop → Loop
unfolding push refuse own_error
settle index op f s = elim f.entry [
  | none ↦
      if s.used == baseline
      then own_error index op s
      else refuse index op (record s { exhausted = true; truncated = true })
  | some entry ↦
      push index entry f.size
        (if f.trimmed then record s { exhausted = true; truncated = true } else s)
]

-- QUERY_BUDGET - used - reserved - separator. It is not negative on a run: see Run.Budget.
abbrev pub available : ℕ → Loop → ℕ
available index s = query_budget - s.used - s.reserved - separator index

-- The deadline test, which reads the clock only while the batch is not exhausted.
unfoldable pub tick : ℕ → ℕ → Loop → Loop
tick now deadline s =
    if not s.exhausted && ltb deadline now
    then record s { exhausted = true; truncated = true; timed_out = true }
    else s

abbrev pub start : List Json → Loop
start ops = record {
  results = [];
  used = baseline;
  reserved = reserve 0 ops;
  exhausted = false;
  truncated = false;
  timed_out = false;
}

abbrev pub finish : Loop → QueryResult
finish s = record { results = s.results; truncated = s.truncated }

abbrev too_many : ℕ → Exn
too_many n = record {
  kind = value_error;
  message = codes "too many ops: " ++ show_ℕ n ++ codes " (at most 60)";
}

module _ (repo : Repo) (repr : Option Json → Text) where
  -- `if not exhausted`, on the flag
  abbrev pub attend_if : Bool → ℕ → Json → Loop → Result Loop
  attend_if true index op s = ok (refuse index op s)
  attend_if false index op s = do
    entry ← run_op repo repr index op
    ok (settle index op (fit entry (available index s)) s)

  unfoldable pub attend : ℕ → Json → Loop → Result Loop
  unfolding settle refuse
  attend index op s = attend_if s.exhausted index op s

  -- One round of the loop. `now` is what _now() answers in it.
  unfoldable pub round : ℕ → ℕ → ℕ → Json → Loop → Result Loop
  unfolding attend tick
  round now deadline index op s =
      attend index op (tick now deadline (record s { reserved = s.reserved - held index op }))

  -- `clock index` is what _now() answers before the op at that index.
  unfoldable pub run_loop : (ℕ → ℕ) → ℕ → ℕ → List Json → Loop → Result Loop
  unfolding round
  run_loop clock deadline index [] s = ok s
  run_loop clock deadline index (op ∷ ops) s =
      round (clock index) deadline index op s >>= run_loop clock deadline (suc index) ops

  unfoldable pub run_ops : (ℕ → ℕ) → ℕ → List Json → Result QueryResult
  unfolding run_loop reserve
  run_ops clock t0 ops =
      if ltb max_query_ops (length ops)
      then raise (too_many (length ops))
      else (repo.check_tree_materialized >>= λ _.
          run_loop clock (t0 + query_deadline) 0 ops (start ops) >>= λ s. ok (finish s))

  -- `t0` is the clock when the loop is about to start. `type_name` is type(ops).__name__.
  unfoldable pub run_query : (Json → Text) → (ℕ → ℕ) → ℕ → Json → Result QueryResult
  unfolding run_ops
  run_query type_name clock t0 (arr ops) = run_ops clock t0 (item_list ops)
  run_query type_name clock t0 ops = raise (record {
    kind = value_error;
    message = codes "ops must be a JSON array, got " ++ type_name ops;
  })
