-- ===== src/Query/Run/Sizes.antt =====
-- The sizes of the entries that stand in for an op that did not run.
use rw_checks_codecollection.Prelude.{
  ℕ, zero, suc, ◌+◌, ◌≤◌, ◌<◌, ◌≡◌, Option, none, some, length, show_ℕ, arith, length-show_ℕ_mono,
  show_ℕ-two_digits,
}
use rw_checks_codecollection.Json.{Json, json_len}
use rw_checks_codecollection.Models.{dump_entry}
use rw_checks_codecollection.Query.Ops.{OpName, grep, read, ls, defs, refs, op_name, op_error}
use rw_checks_codecollection.Query.Fit.{entry_size}
use rw_checks_codecollection.Query.Run.{
  budget_message, deadline_message, own_message, budget_error, deadline_error, own_too_big, held,
  separator,
}

-- The size of a RESPONSE_BUDGET entry but for its index and its op.
named_size : (index : ℕ) (name : Option OpName) → ℕ
named_size index name = entry_size (op_error index name "RESPONSE_BUDGET" budget_message)

deadline-le :
    (index : ℕ) (name : Option OpName)
    → entry_size (op_error index name "DEADLINE" deadline_message) ≤ named_size index name
unfolding named_size entry_size dump_entry json_len op_error
deadline-le index none = omega arith
deadline-le index (some grep) = omega arith
deadline-le index (some read) = omega arith
deadline-le index (some ls) = omega arith
deadline-le index (some defs) = omega arith
deadline-le index (some refs) = omega arith

own-le :
    (index : ℕ) (name : Option OpName)
    → entry_size (op_error index name "RESPONSE_BUDGET" own_message) ≤ named_size index name
unfolding named_size entry_size dump_entry json_len op_error
own-le index none = omega arith
own-le index (some grep) = omega arith
own-le index (some read) = omega arith
own-le index (some ls) = omega arith
own-le index (some defs) = omega arith
own-le index (some refs) = omega arith

named-bound :
    (index : ℕ) (name : Option OpName) → named_size index name ≤ 180 + length (show_ℕ index)
unfolding named_size entry_size dump_entry json_len op_error
named-bound index none = omega arith
named-bound index (some grep) = omega arith
named-bound index (some read) = omega arith
named-bound index (some ls) = omega arith
named-bound index (some defs) = omega arith
named-bound index (some refs) = omega arith

pub separator_bound : (index : ℕ) → separator index ≤ 2
separator_bound zero = omega arith
separator_bound (suc index) = omega arith

module _ (index : ℕ) (op : Json) where
  pub deadline_error-le : entry_size (deadline_error index op) ≤ entry_size (budget_error index op)
  unfolding deadline_error budget_error named_size
  deadline_error-le = deadline-le index (op_name op)

  pub own_too_big-le : entry_size (own_too_big index op) ≤ entry_size (budget_error index op)
  unfolding own_too_big budget_error named_size
  own_too_big-le = own-le index (op_name op)

  pub held-eq : held index op ≡ entry_size (budget_error index op) + separator index
  unfolding held
  held-eq = omega arith

  pub held_bound : index < 100 → held index op ≤ 184
  unfolding held budget_error named_size
  held_bound h = omega (
    arith,
    named-bound index (op_name op),
    length-show_ℕ_mono index 99 (omega arith),
    show_ℕ-two_digits,
    separator_bound index,
  )
