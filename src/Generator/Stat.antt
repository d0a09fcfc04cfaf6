-- ===== src/Generator/Stat.antt =====
-- internal/generator/workers/stat.go: what a worker measures. The histogram library is a parameter.
-- An int64 is its bit pattern, as in Operators; a latency is between two reads of the monotonic
-- clock. The median of the overflow, a float, is left out.
use cdnnow_test_golang.Shared.{ℕ, Option, none, some}
use cdnnow_test_golang.Operators.{Int64}
use cdnnow_test_golang.Operators
use cdnnow_test_golang.Calculators.Dual.{Duration}
use cdnnow_test_golang.Metrics.Overflow.{log2u}

-- `record_value` answers `none` for a value out of range, which records nothing.
pub record HistLibrary : Type 1 where
  pub Hist : Type 0
  pub new_hist : (lowest : ℕ) → (highest : ℕ) → (digits : ℕ) → Hist
  pub record_value : Hist → Duration → Option Hist
  pub merge_hist : Hist → Hist → Hist

abbrev pub hist_lowest_discernible : ℕ
hist_lowest_discernible = 1000

abbrev pub hist_highest_trackable : ℕ
hist_highest_trackable = 100000000

abbrev pub hist_significant_digits : ℕ
hist_significant_digits = 3

pub record HistOverflow : Type 0 where
  pub count : Int64
  pub sum_log2 : Int64

unfoldable pub overflow_add : HistOverflow → Duration → HistOverflow
unfolding log2u
overflow_add ho x = record {
  count = Operators.add ho.count 1;
  sum_log2 = Operators.add ho.sum_log2 (log2u x);
}

pub record Stat (h : HistLibrary) : Type 0 where
  pub ok : Int64
  pub errors : Int64
  pub hist : h.Hist
  pub overflow : HistOverflow

unfoldable pub new_stat : (h : HistLibrary) → Stat h
new_stat h = record {
  ok = 0;
  errors = 0;
  hist = h.new_hist hist_lowest_discernible hist_highest_trackable hist_significant_digits;
  overflow = record { count = 0; sum_log2 = 0 };
}

unfoldable pub merge : {h : HistLibrary} → Stat h → Option (Stat h) → Stat h
merge s none = s
merge {h} s (some other) = record {
  ok = Operators.add s.ok other.ok;
  errors = Operators.add s.errors other.errors;
  hist = h.merge_hist s.hist other.hist;
  overflow = record {
    count = Operators.add s.overflow.count other.overflow.count;
    sum_log2 = Operators.add s.overflow.sum_log2 other.overflow.sum_log2;
  };
}
