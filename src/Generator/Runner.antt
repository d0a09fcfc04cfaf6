-- ===== src/Generator/Runner.antt =====
-- cmd/generator/runner.go and report.go: the workers, the wait for their statistics, and the report.
-- What a worker meets is its `History`; the order of a list of them is that in which the workers end.
pub mod Totals
pub mod Share
use cdnnow_test_golang.Shared.{
  ℕ, zero, suc, ◌+◌, ◌-◌, ◌^◌, Bool, true, false, not, ◌&&◌, Option, none, some, List, [], ◌∷◌,
  ◌++◌, map, ◌>>=◌, if◌then◌else◌, ltb, ℤ,
}
use cdnnow_test_golang.Operators.{Int64}
use cdnnow_test_golang.Operators
use cdnnow_test_golang.Generator.Stat.{HistLibrary, HistOverflow, Stat, new_stat, merge}
use cdnnow_test_golang.Generator.Worker.{
  Event, Phase, at_nums, at_request, at_timer, returned, Worker, is_positive, run,
}

-- `RunConfig`, less what is handed to the client.
pub record RunConfig : Type 0 where
  pub jitter : ℤ
  pub interval : ℤ

-- The number that `startGenerator` sends for the answer of `r.IntN(201)`.
unfoldable pub random_num : ℕ → Int64
random_num r = Operators.sub r 100

-- Whether `randomSleep` comes to its end, if the timer fires before the context ends.
unfoldable pub random_sleep : ℤ → (fired_first : Bool) → Bool
unfolding is_positive
random_sleep d fired_first = if is_positive d then fired_first else true

pub record History : Type 0 where
  pub fired_first : Bool
  pub events : List Event

-- `cfg.Jitter > 0` and the error of `randomSleep`.
unfoldable pub gives_up : RunConfig → History → Bool
unfolding random_sleep is_positive
gives_up cfg w = is_positive cfg.jitter && not (random_sleep cfg.jitter w.fired_first)

module _ (h : HistLibrary) where
  unfoldable pub returned_stat : Worker h → Phase → Option (Stat h)
  returned_stat w returned = some w.stat
  returned_stat w at_nums = none
  returned_stat w at_request = none
  returned_stat w at_timer = none

  -- What the goroutine of a worker sends to `done`; `none` if it has not yet.
  unfoldable pub worker_sends : RunConfig → History → Option (Option (Stat h))
  unfolding gives_up returned_stat
  worker_sends cfg w =
      if gives_up cfg w
      then some none
      else (do v ← run h cfg.interval w.events; s ← returned_stat v v.phase; some (some s))

  -- What the workers of `startWorkers` send.
  unfoldable pub all_sent : RunConfig → List History → Option (List (Option (Stat h)))
  unfolding worker_sends
  all_sent cfg [] = some []
  all_sent cfg (w ∷ ws) = do s ← worker_sends cfg w; ss ← all_sent cfg ws; some (s ∷ ss)

  -- The cases of the `select` of `waitWorkers`.
  pub data Wait : Type 0 where
    received : Option (Stat h) → Wait
    timed_out : Wait

  -- The loop, which has the given number of rounds left; `none` is that it still waits.
  unfoldable pub wait_from : Stat h → ℕ → ℕ → List Wait → Option (Stat h × ℕ)
  wait_from merged i zero ws = some (merged, i)
  wait_from merged i (suc n) [] = none
  wait_from merged i (suc n) (received s ∷ ws) = wait_from (merge merged s) (i + 1) n ws
  wait_from merged i (suc n) (timed_out ∷ ws) = some (merged, i)

  unfoldable pub wait_workers : ℕ → List Wait → Option (Stat h × ℕ)
  unfolding wait_from
  wait_workers n ws = wait_from (new_stat h) 0 n ws

  -- `main`, from `startWorkers` to the statistics: with `n` workers, of which some have ended when
  -- the time is over.
  unfoldable pub generate : RunConfig → ℕ → List History → Option (Stat h × ℕ)
  unfolding all_sent wait_workers
  generate cfg n ws = do ss ← all_sent cfg ws; wait_workers n (map received ss ++ timed_out ∷ [])

  -- A line of `PrintReport`: the totals, the overflow with what its share is made of, and the
  -- percentiles.
  pub data ReportLine : Type 0 where
    totals_line : (ok : Int64) → (errors : Int64) → ReportLine
    overflow_line : (count : Int64) → (ok : Int64) → ReportLine
    percentiles : h.Hist → ReportLine

  -- `count > 0`, of a signed number.
  unfoldable pub overflow_lines : Stat h → List ReportLine
  overflow_lines s =
      if ltb 0 s.overflow.count && ltb s.overflow.count (2 ^ 63)
      then overflow_line s.overflow.count s.ok ∷ []
      else []

  unfoldable pub print_report : Stat h → Bool → List ReportLine
  unfolding overflow_lines
  print_report s with_percentiles =
      totals_line s.ok s.errors
      ∷ (if with_percentiles then overflow_lines s ++ percentiles s.hist ∷ [] else [])
