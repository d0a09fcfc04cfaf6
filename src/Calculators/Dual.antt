-- ===== src/Calculators/Dual.antt =====
-- `Values` and `dualState` of internal/calculators/calculators.go. A duration is the time between
-- two reads of the monotonic clock, in nanoseconds; it is the environment's, and never negative.
use cdnnow_test_golang.Shared.{ℕ, List}
use cdnnow_test_golang.Operators.{Int64, Op, apply}
use mathlib.Core.List.{foldl}

pub record Values : Type 0 where
  pub sum : Int64
  pub sub : Int64

abbrev pub Duration : Type 0
Duration = ℕ

-- `metrics.Sample`
pub record Sample : Type 0 where
  pub add_duration : Duration
  pub sub_duration : Duration

pub record DualState : Type 0 where
  pub add_op : Op
  pub sub_op : Op
  pub vals : Values

-- The time that the call takes is an argument.
unfoldable pub add : DualState → Int64 → Duration → DualState × Duration
add c num took =
    (record c { vals = record { sum = apply c.add_op c.vals.sum num; sub = c.vals.sub } }, took)

unfoldable pub sub : DualState → Int64 → Duration → DualState × Duration
sub c num took =
    (record c { vals = record { sum = c.vals.sum; sub = apply c.sub_op c.vals.sub num } }, took)

unfoldable pub calculate : DualState → Int64 → Sample → DualState × Sample
unfolding add sub
calculate c num took =
    let (c', a) = add c num took.add_duration in
    let (c'', b) = sub c' num took.sub_duration in
    (c'', record { add_duration = a; sub_duration = b })

-- The values after a list of numbers, each taken by both operators.
abbrev pub totals : Op → Op → Values → List Int64 → Values
totals f g v nums = record { sum = foldl (apply f) v.sum nums; sub = foldl (apply g) v.sub nums }
