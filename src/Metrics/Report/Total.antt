-- ===== src/Metrics/Report/Total.antt =====
-- The report of a snapshot that was made never fails, and depends on its counts and histograms only.
use cdnnow_test_golang.Shared.{ℕ, ◌≡◌, refl, some, List, [], ◌∷◌, ◌++◌, arith, length}
use cdnnow_test_golang.Metrics.Kinds.{RequestKind, DurationKind}
use cdnnow_test_golang.Metrics.Aggregator.{Histograms, Snapshot}
use cdnnow_test_golang.Metrics.Report.{
  Line, help, help_last_60, gauge, quantile_95, quantile_99, Meta, request_lines, histogram_lines,
  print_report, request_meta, histogram_meta,
}
use cdnnow_test_golang.Metrics.Report.Rates.{rate_lines_lem}

module _ {h : Histograms} (percentile : h.Merged → ℕ → ℕ) where
  request_lines-some :
      (s : Snapshot h) (ms : List (Meta RequestKind))
      → (lines : List Line) × (request_lines percentile s ms ≡ some lines)
  unfolding request_lines
  request_lines-some s [] = ([], refl)
  request_lines-some s (m ∷ ms) =
      let (rates, e, _, _) =
        rate_lines_lem m.name (s.requests m.kind) (length (s.requests m.kind)) (omega arith) in
      let (rest, r) = request_lines-some s ms in
      (help_last_60 m.name m.help_text ∷ gauge m.name ∷ (rates ++ rest), rw (e, r) refl)

  pub histogram_lines-some :
      (s : Snapshot h) (ms : List (Meta DurationKind))
      → ((k : DurationKind) → (m : h.Merged) × (s.histograms k ≡ some m))
      → (lines : List Line) × (histogram_lines percentile s ms ≡ some lines)
  unfolding histogram_lines
  histogram_lines-some s [] made = ([], refl)
  histogram_lines-some s (m ∷ ms) made =
      let (merged, e) = made m.kind in
      let (rest, r) = histogram_lines-some s ms made in
      (
        help m.name m.help_text
            ∷ gauge m.name
            ∷ quantile_95 m.name (percentile merged 95)
            ∷ quantile_99 m.name (percentile merged 99)
            ∷ rest,
        rw (e, r) refl,
      )

  pub print_report-some :
      (s : Snapshot h)
      → ((k : DurationKind) → (m : h.Merged) × (s.histograms k ≡ some m))
      → (lines : List Line) × (print_report percentile s ≡ some lines)
  unfolding print_report
  print_report-some s made =
      let (rates, e) = request_lines-some s request_meta in
      let (quantiles, r) = histogram_lines-some s histogram_meta made in
      (rates ++ quantiles, rw (e, r) refl)

  pub print_report-same :
      (s t : Snapshot h)
      → s.requests ≡ t.requests
      → s.histograms ≡ t.histograms
      → print_report percentile s ≡ print_report percentile t
  unfolding print_report request_lines histogram_lines
  print_report-same s t p q = rw (p, q) refl
