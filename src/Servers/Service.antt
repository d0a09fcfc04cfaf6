-- ===== src/Servers/Service.antt =====
-- `service` of internal/servers/server.go: the calculator, the aggregator and the printer behind the
-- interface that the handlers call.
-- The state `none` says that a call has panicked, or waits for ever; a handler does not get past it.
-- The times are what the clock answers while a report is printed, and `render` is the formatting of
-- the lines.
use cdnnow_test_golang.Shared.{ℕ, Bool, Option, none, some, List}
use cdnnow_test_golang.Operators.{Int64}
use cdnnow_test_golang.Calculators.Server.{Outcome, accepted, overloaded, blocked, panicked}
use cdnnow_test_golang.Metrics.Kinds.{RequestKind}
use cdnnow_test_golang.Metrics.Aggregator.{Time, Histograms, Aggregator}
use cdnnow_test_golang.Metrics.Aggregator.Loop.{count_requests}
use cdnnow_test_golang.Metrics.Report.{Line, Printer, get_report_text}
use cdnnow_test_golang.Api.{CalcError, err_overloaded, Service, Request, Response}
use cdnnow_test_golang.Api.Std.{serve_std}
use cdnnow_test_golang.Api.Fast.{serve_fast}

-- `ServerType`
pub data ServerType : Type 0 where
  server_std server_fast : ServerType

-- `service`, over the state of its calculator.
pub record App (C : Type 0) (h : Histograms) : Type 0 where
  pub calculator : C
  pub counter : Aggregator h
  pub printer : Printer

pub record PrintTimes : Type 0 where
  pub now : Time
  pub snap_now : Time
  pub made : Time
  pub later : Time

-- What is left after a call of the calculator, and its error.
unfoldable pub after_call :
    {C : Type 0} {h : Histograms} → App C h → Outcome C → Option (App C h) × Option CalcError
after_call a (accepted c) = (some (record a { calculator = c }), none)
after_call a overloaded = (some a, some err_overloaded)
after_call a blocked = (none, none)
after_call a panicked = (none, none)

-- `service.CountRequests`
unfoldable pub count_app : {C : Type 0} {h : Histograms} → App C h → RequestKind → App C h
count_app a kind = record a { counter = count_requests a.counter kind 1 }

module _ {C : Type 0} {h : Histograms} (calc : C → Int64 → Outcome C)
    (percentile : h.Merged → ℕ → ℕ) (render : List Line → List ℕ) where
  -- `service.Calculate`
  unfoldable pub calculate_app : App C h → Int64 → Option (App C h) × Option CalcError
  unfolding after_call
  calculate_app a num = after_call a (calc a.calculator num)

  unfoldable pub after_print :
      App C h → Option (List Line × (Printer × Aggregator h)) → Option (App C h) × List ℕ
  after_print a none = (none, List.[])
  after_print a (some (lines, (r, b))) =
      (some (record a { counter = b; printer = r }), render lines)

  -- `service.PrintMetrics`
  unfoldable pub print_app : App C h → PrintTimes → Option (App C h) × List ℕ
  unfolding after_print
  print_app a t =
      after_print a (get_report_text percentile a.printer a.counter t.now t.snap_now t.made t.later)

  unfoldable pub service : PrintTimes → Service (Option (App C h))
  unfolding calculate_app count_app print_app
  service t = record {
    calculate = λ s num. elim s [ none ↦ (none, none) | some a ↦ calculate_app a num ];
    count_requests = λ s kind. elim s [ none ↦ none | some a ↦ some (count_app a kind) ];
    print_metrics = λ s. elim s [ none ↦ (none, List.[]) | some a ↦ print_app a t ];
  }

  -- One request, by the server of either type, with `asyncCalc`.
  unfoldable pub answer :
      ServerType → PrintTimes → Bool → App C h → Request → Option (App C h) × Response
  unfolding service
  answer server_std t async_calc a r = serve_std (service t) (some a) async_calc r
  answer server_fast t async_calc a r = serve_fast (service t) (some a) async_calc r
