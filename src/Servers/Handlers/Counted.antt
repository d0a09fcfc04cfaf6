-- ===== src/Servers/Handlers/Counted.antt =====
-- The counters of the aggregator are those of the handlers.
use cdnnow_test_golang.Shared.{
  ℕ, ◌+◌, ◌%◌, ◌≡◌, refl, ap, ◌∙◌, subst, Bool, true, false, Bool-cases, inl, inr, Option, none,
  some, List, [], ◌∷◌, ◌++◌, arith, if◌then◌else◌,
}
use cdnnow_test_golang.Deque.Valid.{contents}
use cdnnow_test_golang.Operators.{Op, modulus}
use cdnnow_test_golang.Pools.{BatchPool}
use cdnnow_test_golang.Calculators.Server.{Outcome, accepted, overloaded, blocked, panicked}
use cdnnow_test_golang.Calculators.Server
use cdnnow_test_golang.Calculators.Async.{Async}
use cdnnow_test_golang.Metrics.Kinds.{RequestKind, same_request}
use cdnnow_test_golang.Metrics.Aggregator.{Histograms}
use cdnnow_test_golang.Metrics.Aggregator.Loop.{
  tick, sample_arrives, samples_arrive, durations_arrive, stop_read,
}
use cdnnow_test_golang.Metrics.Aggregator.Client.{
  Action, sends_sample, sends_samples, sends_durations, counts, reads, stops, serves, act,
  new_aggregator, Runs, start, next,
}
use cdnnow_test_golang.Metrics.Aggregator.Windows.{Tally, tally, window}
use cdnnow_test_golang.Metrics.Aggregator.Seconds.{tally_of, tally_of-snoc, windows_refine}
use cdnnow_test_golang.Api.{CalcError}
use cdnnow_test_golang.Servers.Service.{App, after_call, count_app, calculate_app}
use cdnnow_test_golang.Servers.Handlers.{
  Handler, not_counts, Serving, starts, refuses, calls, counts_one, answers, computes, meters,
  new_app,
}

unfoldable mark : RequestKind → RequestKind → ℕ
mark k j = if same_request k j then 1 else 0

-- The handlers whose answer is of a kind; and those of them that have counted it.
unfoldable pub of_kind : RequestKind → List Handler → ℕ
unfolding mark
of_kind k [] = 0
of_kind k (r ∷ rs) = mark k r.kind + of_kind k rs

unfoldable pub counted_of : RequestKind → List Handler → ℕ
unfolding mark
counted_of k [] = 0
counted_of k (r ∷ rs) = (if r.counted then mark k r.kind else 0) + counted_of k rs

-- All that was counted.
unfoldable pub sum_of : List ℕ → ℕ
sum_of [] = 0
sum_of (n ∷ ns) = n + sum_of ns

abbrev pub in_all : Tally → ℕ
in_all t = (sum_of t.seconds + t.current) % modulus

sum_of-snoc : (ns : List ℕ) (n : ℕ) → sum_of (ns ++ n ∷ []) ≡ n + sum_of ns
unfolding sum_of
sum_of-snoc [] n = refl
sum_of-snoc (m ∷ ns) n = omega (arith, sum_of-snoc ns n)

tally-counts :
    (k j : RequestKind) (t : Tally)
    → in_all (tally k t (counts j 1)) ≡ (in_all t + mark k j) % modulus
unfolding tally mark
tally-counts k j t = elim (Bool-cases (same_request k j)) [
  | inl b ↦ rw b (omega arith)
  | inr b ↦ rw b (omega arith)
]

tally-other :
    (k : RequestKind) (x : Action) (t : Tally)
    → not_counts x ≡ true
    → in_all (tally k t x) ≡ in_all t
unfolding tally sum_of
tally-other k (sends_sample s) t e = refl
tally-other k (sends_samples s) t e = refl
tally-other k (sends_durations j s) t e = refl
tally-other k (counts j n) t e = absurd cc
tally-other k (reads now made) t e = refl
tally-other k stops t e = refl
tally-other k (serves tick) t e = omega (arith, sum_of-snoc t.seconds t.current)
tally-other k (serves sample_arrives) t e = refl
tally-other k (serves samples_arrive) t e = refl
tally-other k (serves durations_arrive) t e = refl
tally-other k (serves stop_read) t e = refl

counted_of-split :
    (k : RequestKind) (before : List Handler) (r : Handler) (after : List Handler) (b : Bool)
    → r.counted ≡ b
    → counted_of k (before ++ r ∷ after)
      ≡ (if b then mark k r.kind else 0) + counted_of k (before ++ after)
unfolding counted_of
counted_of-split k [] r after b e = rw e refl
counted_of-split k (x ∷ before) r after true e =
    omega (arith, counted_of-split k before r after true e)
counted_of-split k (x ∷ before) r after false e =
    omega (arith, counted_of-split k before r after false e)

module _ {h : Histograms} (percentile : h.Merged → ℕ → ℕ) (regrow : ℕ → ℕ) (f g : Op)
    (queue_size aggregator_queue : ℕ) (pool : Option BatchPool) where
  Counted : App Async h → List Handler → List Handler → Type 0
  Counted a open_ones over =
      (xs : List Action) × Runs (new_aggregator h aggregator_queue pool none) xs a.counter
      × ((k : RequestKind)
          → in_all (tally_of k xs) ≡ (counted_of k open_ones + of_kind k over) % modulus)

  same_counter :
      (calc : Outcome Async) (a b : App Async h) (err : Option CalcError)
      → after_call a calc ≡ (some b, err)
      → a.counter ≡ b.counter
  unfolding after_call
  same_counter (accepted c) a b err p =
      let same : record a { calculator = c } ≡ b = cc in ap (λ (z : App Async h). z.counter) same
  same_counter overloaded a b err p =
      let same : a ≡ b = cc in ap (λ (z : App Async h). z.counter) same
  same_counter blocked a b err p = absurd cc
  same_counter panicked a b err p = absurd cc

  Serving-Counted :
      {a : App Async h} {open_ones over : List Handler}
      → Serving percentile regrow (new_app h f g queue_size aggregator_queue pool) a open_ones over
      → Counted a open_ones over
  unfolding Counted new_app counted_of of_kind count_app calculate_app tally_of sum_of act
  Serving-Counted starts = ([], start, λ k. refl)
  Serving-Counted (refuses bytes r e) =
      let (xs, q, s) = Serving-Counted r in (xs, q, λ k. omega (arith, s k))
  Serving-Counted (calls {a} {b} {err = err} bytes n r e p) =
      let (xs, q, s) = Serving-Counted r in
      (
        xs,
        subst (Runs (new_aggregator h aggregator_queue pool none) xs)
            (same_counter (Server.calculate a.calculator n) a b err p) q,
        λ k. omega (arith, s k),
      )
  Serving-Counted (counts_one {over = over} before x after r e) =
      let (xs, q, s) = Serving-Counted r in
      (
        xs ++ counts x.kind 1 ∷ [],
        next (counts x.kind 1) q refl,
        λ k.
            let is_now = counted_of-split k before (record x { counted = true }) after true refl in
            let was = counted_of-split k before x after false e in
            ap in_all (tally_of-snoc k xs (counts x.kind 1))
            ∙ tally-counts k x.kind (tally_of k xs)
            ∙ omega (arith, s k, is_now, was),
      )
  Serving-Counted (answers before x after r e) =
      let (xs, q, s) = Serving-Counted r in
      (xs, q, λ k. let was = counted_of-split k before x after true e in s k ∙ omega (arith, was))
  Serving-Counted (computes new r p) = Serving-Counted r
  Serving-Counted (meters x b r n p) =
      let (xs, q, s) = Serving-Counted r in
      (
        xs ++ x ∷ [],
        next x q p,
        λ k. ap in_all (tally_of-snoc k xs x) ∙ tally-other k x (tally_of k xs) n ∙ s k,
      )

  -- Whatever the order of the steps was, the aggregator shows for each kind a tally, by seconds, of
  -- what was counted: its windows the last sixty seconds that have ended, its counter the current
  -- one; and all seconds together count, modulo 2^64, the handlers that have answered so, and those
  -- that have counted and not answered yet.
  pub answered_counts :
      {a : App Async h} {open_ones over : List Handler}
      → Serving percentile regrow (new_app h f g queue_size aggregator_queue pool) a open_ones over
      → (xs : List Action) × Runs (new_aggregator h aggregator_queue pool none) xs a.counter
        × ((k : RequestKind)
            → (contents 0 (a.counter.reqs k) ≡ window (tally_of k xs).seconds)
              × (a.counter.cnts k ≡ (tally_of k xs).current)
              × (in_all (tally_of k xs) ≡ (of_kind k over + counted_of k open_ones) % modulus))
  unfolding Counted
  answered_counts r =
      let (xs, q, s) = Serving-Counted r in
      (
        xs,
        q,
        λ k.
            let (w, c) = windows_refine aggregator_queue pool none q k in (w, c, s k ∙ omega arith),
      )
