-- ===== src/Metrics/Report.antt =====
-- `Printer` and `printReport` of internal/metrics/report.go. The text is a list of its lines, in a
-- `bytes.Buffer`, which takes every write. `none` is a panic: of an index, or of a nil histogram.
-- `percentile` is `ValueAtPercentile` of the histogram library.
pub mod Rates
pub mod Total
pub mod Shown
pub mod Cache
pub mod Fresh
use cdnnow_test_golang.Shared.{
  ℕ, zero, suc, ◌+◌, ◌-◌, ◌*◌, Bool, not, Option, some, none, List, [], ◌∷◌, ◌++◌, ◌==◌, ltb,
  if◌then◌else◌, ◌>>=◌, length, get_elem?, ℤ, negsuc,
}
use Prim.Native.String.{String}
use cdnnow_test_golang.Metrics.Kinds.{
  RequestKind, ok, overload, bad_request, failed, DurationKind, add, sub,
}
use cdnnow_test_golang.Metrics.Aggregator.{Time, Histograms, Snapshot, Aggregator}
use cdnnow_test_golang.Metrics.Aggregator.Loop.{get_snapshot}

pub data Line : Type 0 where
  help : (name : String) → (text : String) → Line
  help_last_60 : (name : String) → (text : String) → Line
  gauge : (name : String) → Line
  rate : (name : String) → (second : ℤ) → (val : ℕ) → Line
  quantile_95 quantile_99 : (name : String) → (val : ℕ) → Line

pub record Meta (K : Type 0) : Type 0 where
  pub kind : K
  pub name : String
  pub help_text : String

abbrev pub request_meta : List (Meta RequestKind)
request_meta =
    record {
      kind = ok;
      name = "calc_ok_1s";
      help_text = "Successfully handled requests per second";
    }
    ∷ record {
      kind = bad_request;
      name = "calc_bad_request_1s";
      help_text = "Requests rejected due to bad client data per second";
    }
    ∷ record {
      kind = overload;
      name = "calc_overload_1s";
      help_text = "Requests rejected due to overload per second";
    }
    ∷ record {
      kind = failed;
      name = "calc_failed_1s";
      help_text = "Requests failed during execution per second";
    }
    ∷ []

abbrev pub histogram_meta : List (Meta DurationKind)
histogram_meta =
    record {
      kind = add;
      name = "calc_c_duration_ns";
      help_text = "C `add` function call duration, nanoseconds";
    }
    ∷ record {
      kind = sub;
      name = "calc_rust_duration_ns";
      help_text = "Rust `sub` function call duration, nanoseconds";
    }
    ∷ []

-- `for i := len(rps) - 1; i >= 0; i--`, from a count of the indices that are left. The second
-- `i - len(rps)` is negative.
unfoldable pub rate_lines : String → List ℕ → ℕ → Option (List Line)
rate_lines name rps zero = some []
rate_lines name rps (suc i) = do
  val ← get_elem? rps i
  rest ← rate_lines name rps i
  some (rate name (negsuc (length rps - suc i)) val ∷ rest)

module _ {h : Histograms} (percentile : h.Merged → ℕ → ℕ) where
  unfoldable pub request_lines : Snapshot h → List (Meta RequestKind) → Option (List Line)
  request_lines snap [] = some []
  request_lines snap (m ∷ ms) = do
    let rps = snap.requests m.kind
    rates ← rate_lines m.name rps (length rps)
    rest ← request_lines snap ms
    some (help_last_60 m.name m.help_text ∷ gauge m.name ∷ (rates ++ rest))

  unfoldable pub histogram_lines : Snapshot h → List (Meta DurationKind) → Option (List Line)
  histogram_lines snap [] = some []
  histogram_lines snap (m ∷ ms) = do
    hist ← snap.histograms m.kind
    rest ← histogram_lines snap ms
    some (
        help m.name m.help_text
        ∷ gauge m.name
        ∷ quantile_95 m.name (percentile hist 95)
        ∷ quantile_99 m.name (percentile hist 99)
        ∷ rest)

  unfoldable pub print_report : Snapshot h → Option (List Line)
  unfolding request_lines histogram_lines
  print_report snap = do
    rates ← request_lines snap request_meta
    quantiles ← histogram_lines snap histogram_meta
    some (rates ++ quantiles)

abbrev pub report_cache_ttl : ℕ
report_cache_ttl = 500 * 1000000

pub record Printer : Type 0 where
  pub cache : List Line
  pub cache_deadline : Time
  pub cache_version : ℕ

-- `NewPrinter`
unfoldable pub new_printer : Printer
new_printer = record { cache = []; cache_deadline = 0; cache_version = 0 }

module _ {h : Histograms} (percentile : h.Merged → ℕ → ℕ) where
  -- The function that `getReportText` gives to `getSnapshot`.
  unfoldable pub refresh : Printer → Snapshot h → Option Printer
  refresh r snap = if r.cache_version == snap.version then some r else (do
    lines ← print_report percentile snap
    some (record r { cache = lines; cache_version = snap.version }))

  -- `getReportText`: `now` and `later` are its own reads of the clock, the other two those of
  -- `getSnapshot`. The result is the text, and what is left of both.
  unfoldable pub get_report_text :
      Printer
      → Aggregator h
      → (now : Time) → (snap_now : Time) → (made : Time) → (later : Time)
      → Option (List Line × (Printer × Aggregator h))
  unfolding refresh
  get_report_text r a now snap_now made later =
      if not (ltb now r.cache_deadline)
      then (do
        let b = get_snapshot a snap_now made
        q ← refresh r b.snap
        some (q.cache, (record q { cache_deadline = later + report_cache_ttl }, b)))
      else some (r.cache, (r, a))
