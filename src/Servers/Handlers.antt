-- ===== src/Servers/Handlers.antt =====
-- The handlers of calculation requests, in either server, over the service with `Async`. They run
-- concurrently: a handler calls the calculator, or refuses the text of its number, then calls
-- `CountRequests`, then answers, and anything else can happen between any two of these. That a
-- handler does just this, with the status of its kind, is what Api/Agreement says of each.
-- A queue of size 0, which cmd/server refuses, is left out: a call that waits for its receiver. When
-- the calculator calls `RecordSamples`, and with which batch, is left open: that is a step of the
-- aggregator's clients. The pool that both share stands as one pool in each.
pub mod Promises
pub mod Counted
use cdnnow_test_golang.Shared.{
  ℕ, ◌≡◌, Bool, true, false, Option, none, some, List, [], ◌∷◌, ◌++◌, ◌==◌, ◌&&◌, if◌then◌else◌,
}
use cdnnow_test_golang.Operators.{Int64, Op}
use cdnnow_test_golang.Pools.{BatchPool}
use cdnnow_test_golang.Calculators.Dual
use cdnnow_test_golang.Calculators.Dual.{Sample}
use cdnnow_test_golang.Calculators.Server
use cdnnow_test_golang.Calculators.Server.{accepted, Step}
use cdnnow_test_golang.Calculators.Async.{Async, new_async}
use cdnnow_test_golang.Metrics.Kinds.{RequestKind, bad_request}
use cdnnow_test_golang.Metrics.Aggregator.{Histograms, Aggregator}
use cdnnow_test_golang.Metrics.Aggregator.Client.{Action, counts, act, new_aggregator}
use cdnnow_test_golang.Metrics.Report.{new_printer}
use cdnnow_test_golang.Api.{CalcError}
use cdnnow_test_golang.Api.Numbers.{parse_int}
use cdnnow_test_golang.Api.Agreement.{kind_of}
use cdnnow_test_golang.Servers.Service.{App, count_app, calculate_app}

-- A handler: the number that it read, the kind of its answer, and whether it has counted that.
pub record Handler : Type 0 where
  pub num : Option Int64
  pub kind : RequestKind
  pub counted : Bool

-- Only the handlers count requests.
abbrev pub not_counts : Action → Bool
not_counts (counts k n) = false
not_counts x = true

-- What `Run` makes in the mode `Async`.
unfoldable pub new_app : (h : Histograms) → Op → Op → ℕ → ℕ → Option BatchPool → App Async h
new_app h add_op sub_op queue_size aggregator_queue pool = record {
  calculator = new_async add_op sub_op queue_size true pool;
  counter = new_aggregator h aggregator_queue pool none;
  printer = new_printer;
}

-- The states of the service, with the handlers that have not answered yet and those that have.
-- Besides the handlers, the goroutines of the calculator and of the aggregator take their steps, and
-- the other clients of both.
pub data Serving {h : Histograms} (percentile : h.Merged → ℕ → ℕ) (regrow : ℕ → ℕ)
    (app : App Async h) : App Async h → List Handler → List Handler → Type 0 where
  starts : Serving percentile regrow app app [] []
  refuses :
      {a : App Async h} {open_ones over : List Handler} (bytes : List ℕ)
      → Serving percentile regrow app a open_ones over
      → parse_int bytes ≡ none
      → Serving percentile regrow app a
          (record { num = none; kind = bad_request; counted = false } ∷ open_ones)
          over
  calls :
      {a b : App Async h} {open_ones over : List Handler} {err : Option CalcError} (bytes : List ℕ)
      (n : Int64)
      → Serving percentile regrow app a open_ones over
      → parse_int bytes ≡ some n
      → calculate_app Server.calculate percentile (λ lines. []) a n ≡ (some b, err)
      → Serving percentile regrow app b
          (record { num = some n; kind = kind_of err; counted = false } ∷ open_ones)
          over
  counts_one :
      {a : App Async h} {over : List Handler} (before : List Handler) (r : Handler)
      (after : List Handler)
      → Serving percentile regrow app a (before ++ r ∷ after) over
      → r.counted ≡ false
      → Serving percentile regrow app
          (count_app a r.kind)
          (before ++ record r { counted = true } ∷ after)
          over
  answers :
      {a : App Async h} {over : List Handler} (before : List Handler) (r : Handler)
      (after : List Handler)
      → Serving percentile regrow app a (before ++ r ∷ after) over
      → r.counted ≡ true
      → Serving percentile regrow app a (before ++ after) (r ∷ over)
  computes :
      {a : App Async h} {open_ones over : List Handler} {c : Async} (log : List Sample)
      → Serving percentile regrow app a open_ones over
      → Step Dual.calculate regrow a.calculator [] log c
      → Serving percentile regrow app (record a { calculator = c }) open_ones over
  meters :
      {a : App Async h} {open_ones over : List Handler} (x : Action) (b : Aggregator h)
      → Serving percentile regrow app a open_ones over
      → not_counts x ≡ true
      → act a.counter x ≡ accepted b
      → Serving percentile regrow app (record a { counter = b }) open_ones over
