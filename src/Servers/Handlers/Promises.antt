-- ===== src/Servers/Handlers/Promises.antt =====
-- What the service promises of the handlers that have answered.
use cdnnow_test_golang.Shared.{
  ℕ, ◌+◌, ◌%◌, ◌<◌, ◌≡◌, refl, sym, ap, ap₂, ◌∙◌, subst, true, false, Option, none, some, List, [],
  ◌∷◌, ◌++◌, arith, append-nil, if◌then◌else◌,
}
use mathlib.Core.List.{foldl}
use cdnnow_test_golang.Operators.{Int64, Op, apply, add, modulus}
use cdnnow_test_golang.Pools.{BatchPool}
use cdnnow_test_golang.Calculators.Dual.{Values, Sample}
use cdnnow_test_golang.Calculators.Server
use cdnnow_test_golang.Calculators.Server.{
  Outcome, accepted, overloaded, blocked, panicked, send, start, next,
}
use cdnnow_test_golang.Calculators.Async.{Async, AsyncRuns, new_async, values}
use cdnnow_test_golang.Calculators.Async.Consistent.{PoolValid, values-ended}
use cdnnow_test_golang.Calculators.Parallel.Agreement.{lib_add, lib_sub, totals-cancel}
use cdnnow_test_golang.Metrics.Kinds.{ok, same_request}
use cdnnow_test_golang.Metrics.Aggregator.{Histograms}
use cdnnow_test_golang.Api.{CalcError, err_overloaded}
use cdnnow_test_golang.Api.Agreement.{kind_of}
use cdnnow_test_golang.Servers.Service.{App, after_call, count_app, calculate_app}
use cdnnow_test_golang.Servers.Handlers.{
  Handler, Serving, starts, refuses, calls, counts_one, answers, computes, meters, new_app,
}

-- The number that a handler has had the calculator take in, or 0.
unfoldable taken : Handler → ℕ
taken r = elim r.num [ none ↦ 0 | some n ↦ if same_request ok r.kind then n else 0 ]

unfoldable pub taken_sum : List Handler → ℕ
unfolding taken
taken_sum [] = 0
taken_sum (r ∷ rs) = taken r + taken_sum rs

num_sum : List Int64 → ℕ
num_sum [] = 0
num_sum (n ∷ ns) = n + num_sum ns

num_sum-snoc : (ns : List Int64) (n : Int64) → num_sum (ns ++ n ∷ []) ≡ n + num_sum ns
unfolding num_sum
num_sum-snoc [] n = refl
num_sum-snoc (m ∷ ns) n = omega (arith, num_sum-snoc ns n)

taken_sum-split :
    (before : List Handler) (r : Handler) (after : List Handler)
    → taken_sum (before ++ r ∷ after) ≡ taken r + taken_sum (before ++ after)
unfolding taken_sum
taken_sum-split [] r after = refl
taken_sum-split (x ∷ before) r after = omega (arith, taken_sum-split before r after)

foldl-add : (s : ℕ) (ns : List Int64) → s < modulus → foldl add s ns ≡ (s + num_sum ns) % modulus
unfolding num_sum add
foldl-add s [] lt = omega (arith, lt)
foldl-add s (n ∷ ns) lt = foldl-add ((s + n) % modulus) ns (omega arith) ∙ omega arith

module _ {h : Histograms} (percentile : h.Merged → ℕ → ℕ) (regrow : ℕ → ℕ) (f g : Op)
    (queue_size aggregator_queue : ℕ) (pool : Option BatchPool) where
  -- What the calculator took in is what the handlers stand for.
  Accounted : App Async h → List Handler → List Handler → Type 0
  Accounted a open_ones over =
      (nums : List Int64) × (log : List Sample) × AsyncRuns regrow
        (new_async f g queue_size true pool) nums log a.calculator
      × (num_sum nums ≡ taken_sum open_ones + taken_sum over)

  calls-Accounted :
      (a b : App Async h) (n : Int64) (err : Option CalcError) (o : Outcome Async)
      (open_ones over : List Handler)
      → Server.calculate a.calculator n ≡ o
      → after_call a o ≡ (some b, err)
      → Accounted a open_ones over
      → Accounted b (record { num = some n; kind = kind_of err; counted = false } ∷ open_ones) over
  unfolding Accounted after_call taken taken_sum kind_of num_sum
  calls-Accounted a b n err (accepted c) open_ones over e p (nums, log, r, s) =
      let same : record a { calculator = c } ≡ b = cc in
      let ok_err : none ≡ err = cc in
      let t : AsyncRuns regrow (new_async f g queue_size true pool) (nums ++ n ∷ []) (log ++ []) c =
        next r (send n e) in
      let bs = num_sum-snoc nums n in
      subst
        (λ e.
          Accounted b (record { num = some n; kind = kind_of e; counted = false } ∷ open_ones) over)
        ok_err
        (
          nums ++ n ∷ [],
          log ++ [],
          subst
              (λ (z : App Async h).
                AsyncRuns regrow (new_async f g queue_size true pool) (nums ++ n ∷ []) (log ++ [])
                  z.calculator)
              same t,
          omega (arith, s, bs),
        )
  calls-Accounted a b n err overloaded open_ones over e p (nums, log, r, s) =
      let same : a ≡ b = cc in
      let bad : some err_overloaded ≡ err = cc in
      subst
        (λ e.
          Accounted b (record { num = some n; kind = kind_of e; counted = false } ∷ open_ones) over)
        bad
        (
          nums,
          log,
          subst
              (λ (z : App Async h).
                AsyncRuns regrow (new_async f g queue_size true pool) nums log z.calculator)
              same r,
          omega (arith, s),
        )
  calls-Accounted a b n err blocked open_ones over e p i = absurd cc
  calls-Accounted a b n err panicked open_ones over e p i = absurd cc

  Serving-Accounted :
      {a : App Async h} {open_ones over : List Handler}
      → Serving percentile regrow (new_app h f g queue_size aggregator_queue pool) a open_ones over
      → Accounted a open_ones over
  unfolding Accounted new_app taken_sum taken num_sum count_app calculate_app
  Serving-Accounted starts = ([], [], start, refl)
  Serving-Accounted (refuses bytes r e) =
      let (nums, log, q, s) = Serving-Accounted r in (nums, log, q, omega (arith, s))
  Serving-Accounted (calls {a} {b} {open_ones} {over} {err} bytes n r e p) =
      calls-Accounted a b n err (Server.calculate a.calculator n) open_ones over refl p
        (Serving-Accounted r)
  Serving-Accounted (counts_one before x after r e) =
      let (nums, log, q, s) = Serving-Accounted r in
      (
        nums,
        log,
        q,
        s
            ∙ ap₂ ◌+◌
                (taken_sum-split before x after
                  ∙ sym (taken_sum-split before (record x { counted = true }) after))
                refl,
      )
  Serving-Accounted (answers before x after r e) =
      let (nums, log, q, s) = Serving-Accounted r in
      (nums, log, q, omega (arith, s, taken_sum-split before x after))
  Serving-Accounted (computes new r p) =
      let (nums, log, q, s) = Serving-Accounted r in
      (nums ++ [], log ++ new, next q p, ap num_sum (append-nil nums) ∙ s)
  Serving-Accounted (meters x b r n e) = Serving-Accounted r

-- When the calculator's goroutine has ended and every handler has answered, whatever the order of
-- their steps was, `Sum` is the sum of exactly the numbers whose handlers answered that they were
-- taken in, modulo 2^64, and `Sub` cancels it.
pub answered_totals :
    {h : Histograms} (percentile : h.Merged → ℕ → ℕ) (regrow : ℕ → ℕ)
    (queue_size aggregator_queue : ℕ) (pool : Option BatchPool)
    → PoolValid pool
    → {a : App Async h} {over : List Handler}
    → Serving percentile regrow
        (new_app h lib_add lib_sub queue_size aggregator_queue pool)
        a
        []
        over
    → a.calculator.done ≡ true
    → ((values a.calculator).sum ≡ taken_sum over % modulus)
      × (((values a.calculator).sum + (values a.calculator).sub) % modulus ≡ 0)
unfolding Accounted taken_sum apply
answered_totals percentile regrow queue_size aggregator_queue pool fits {over = over} runs d =
    let (nums, log, r, s) =
      Serving-Accounted percentile regrow lib_add lib_sub queue_size aggregator_queue pool runs in
    let e = values-ended lib_add lib_sub queue_size true pool fits regrow r d in
    let same : num_sum nums ≡ taken_sum over = omega (arith, s) in
    (
      ap (λ (v : Values). v.sum) e ∙ foldl-add 0 nums (omega arith) ∙ omega (arith, same),
      ap (λ (v : Values). (v.sum + v.sub) % modulus) e ∙ totals-cancel 0 0 nums refl,
    )
