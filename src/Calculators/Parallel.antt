-- ===== src/Calculators/Parallel.antt =====
-- `Parallel` of internal/calculators/calculators.go: the two operators in goroutines of their own.
-- A call of `Calculate` is two calls, one to each; `owed` holds the numbers whose call is between
-- them. Both goroutines take batches from one pool; what `Get` may answer is the environment's
-- choice anyhow, so each is given a copy of its items.
pub mod Agreement
use cdnnow_test_golang.Shared.{ℕ, Bool, true, false, ◌≡◌, Option, none, some, List, [], ◌∷◌, ◌++◌}
use cdnnow_test_golang.Operators.{Int64, Op}
use cdnnow_test_golang.Pools.{BatchPool}
use cdnnow_test_golang.Calculators.Dual.{Values, Duration}
use cdnnow_test_golang.Calculators.Server
use cdnnow_test_golang.Calculators.Server.{
  Server, Outcome, accepted, overloaded, blocked, panicked, Event, Step, close_nums, serve,
}
use cdnnow_test_golang.Calculators.Async.{AsyncSingle, new_async_single, calculate_single, value}

pub record Parallel : Type 0 where
  pub sum : AsyncSingle
  pub sub : AsyncSingle
  pub owed : List Int64

-- `NewParallel`. A full `sub` makes its caller wait, also where a full `sum` reports an overload.
unfoldable pub new_parallel : Op → Op → ℕ → Bool → Option BatchPool → Parallel
new_parallel add_op sub_op queue_size recording pool = record {
  sum = new_async_single add_op queue_size recording pool;
  sub = record (new_async_single sub_op queue_size recording pool) { ignore_overload = true };
  owed = [];
}

-- `Calculate` of one client with nobody else about: `blocked` and `panicked` of the second call
-- leave the first done.
unfoldable pub calculate : Parallel → Int64 → Outcome Parallel
calculate p num = elim (Server.calculate p.sum num) [
  | accepted sum ↦ elim (Server.calculate p.sub num) [
    | accepted sub ↦ accepted (record p { sum = sum; sub = sub })
    | overloaded ↦ accepted (record p { sum = sum })
    | blocked ↦ blocked
    | panicked ↦ panicked
  ]
  | overloaded ↦ overloaded
  | blocked ↦ blocked
  | panicked ↦ panicked
]

-- `Values`
unfoldable pub values : Parallel → Values
values p = record { sum = value p.sum; sub = value p.sub }

module _ (regrow : ℕ → ℕ) where
  -- A step that takes in the numbers of a list. `Stop` closes `sum`, waits for its end, and then
  -- closes `sub`.
  pub data ParallelStep (p : Parallel) : List Int64 → Parallel → Type 0 where
    enter :
        {s : AsyncSingle} {new : List Duration} (num : Int64)
        → Step calculate_single regrow p.sum (num ∷ []) new s
        → ParallelStep p (num ∷ []) (record p { sum = s; owed = num ∷ p.owed })
    settle :
        {s : AsyncSingle} {new : List Duration} (num : Int64) (xs ys : List Int64)
        → p.owed ≡ xs ++ num ∷ ys
        → Step calculate_single regrow p.sub (num ∷ []) new s
        → ParallelStep p [] (record p { sub = s; owed = xs ++ ys })
    run_sum :
        {s : AsyncSingle} {new : List Duration} (e : Event Duration)
        → serve calculate_single regrow p.sum e ≡ some (s, new)
        → ParallelStep p [] (record p { sum = s })
    run_sub :
        {s : AsyncSingle} {new : List Duration} (e : Event Duration)
        → serve calculate_single regrow p.sub e ≡ some (s, new)
        → ParallelStep p [] (record p { sub = s })
    stop_sum :
        {s : AsyncSingle} → close_nums p.sum ≡ accepted s → ParallelStep p [] (record p { sum = s })
    stop_sub :
        {s : AsyncSingle}
        → p.sum.done ≡ true
        → close_nums p.sub ≡ accepted s
        → ParallelStep p [] (record p { sub = s })

  -- Any interleaving of clients and the two goroutines, with the numbers that `Calculate` took in.
  pub data ParallelRuns (p : Parallel) : List Int64 → Parallel → Type 0 where
    start : ParallelRuns p [] p
    next :
        {q r : Parallel} {nums more : List Int64}
        → ParallelRuns p nums q
        → ParallelStep q more r
        → ParallelRuns p (nums ++ more) r
