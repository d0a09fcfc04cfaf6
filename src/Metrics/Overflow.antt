-- ===== src/Metrics/Overflow.antt =====
-- `histOverflow` of internal/metrics/aggregator.go: the durations that a histogram refused. An int64
-- is its bit pattern, as in Operators; a duration is the time between two reads of the monotonic
-- clock, so the maximum is that of natural numbers. The geometric mean, a float, is left out.
use cdnnow_test_golang.Shared.{
  ℕ, zero, suc, ◌+◌, ◌/◌, ◌^◌, max, Bool, ◌&&◌, ◌==◌, ltb, if◌then◌else◌,
}
use cdnnow_test_golang.Operators.{Int64, modulus}
use cdnnow_test_golang.Operators
use cdnnow_test_golang.Calculators.Dual.{Duration}

pub record HistOverflow : Type 0 where
  pub count : Int64
  pub sum_log2 : Int64
  pub max_ : Int64

unfoldable pub no_overflow : HistOverflow
no_overflow = record { count = 0; sum_log2 = 0; max_ = 0 }

-- `bits.Len64`, on at most the given number of bits.
unfoldable pub bits_len : ℕ → ℕ → ℕ
bits_len zero x = 0
bits_len (suc n) x = let rest = bits_len n (x / 2) in if x == 0 then 0 else rest + 1

-- `int64(bits.Len64(x) - 1)`, which is -1 at 0.
unfoldable pub log2u : ℕ → Int64
log2u x = Operators.sub (bits_len 64 x) 1

unfoldable pub over_add : HistOverflow → Duration → HistOverflow
unfolding log2u
over_add ho x = record {
  count = Operators.add ho.count 1;
  sum_log2 = Operators.add ho.sum_log2 (log2u x);
  max_ = max ho.max_ x;
}

unfoldable pub over_max : HistOverflow → Duration
over_max ho = ho.max_

-- `ho.count > 0`, of a signed number.
unfoldable pub has_overflow : HistOverflow → Bool
has_overflow ho = ltb 0 ho.count && ltb ho.count (2 ^ 63)
