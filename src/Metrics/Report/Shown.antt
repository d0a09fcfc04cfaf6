-- ===== src/Metrics/Report/Shown.antt =====
-- What a report shows of the requests, from `CountRequests` to its lines.
use cdnnow_test_golang.Shared.{
  ℕ, zero, suc, ◌+◌, ◌-◌, ◌*◌, ◌<◌, ◌≡◌, refl, ap, ap₂, subst, ◌∙◌, Option, some, List, [], ◌∷◌,
  ◌++◌, arith, length, get_elem?, get_or, negsuc,
}
use Prim.Native.String.{String}
use cdnnow_test_golang.Metrics.Kinds.{RequestKind, ok, overload, bad_request, failed}
use cdnnow_test_golang.Pools.{BatchPool}
use cdnnow_test_golang.Metrics.Aggregator.{Histograms, Aggregator, Snapshot, hist_buckets}
use cdnnow_test_golang.Metrics.Aggregator.Client.{Action, Runs, new_aggregator}
use cdnnow_test_golang.Metrics.Aggregator.Windows.{window, length-window}
use cdnnow_test_golang.Metrics.Aggregator.Seconds.{tally_of, windows_refine}
use cdnnow_test_golang.Metrics.Aggregator.Snapshots.{Current}
use cdnnow_test_golang.Metrics.Report.{
  Line, rate, rate_lines, help_last_60, gauge, Meta, request_meta, request_lines, histogram_meta,
  print_report,
}
use cdnnow_test_golang.Metrics.Report.Rates.{rate_lines_lem, count_ago, window-count_ago}
use cdnnow_test_golang.Metrics.Report.Total.{histogram_lines-some}

-- The series of a kind, in the words of a scraper, and where it stands among the four.
abbrev pub series : RequestKind → String
series ok = "calc_ok_1s"
series overload = "calc_overload_1s"
series bad_request = "calc_bad_request_1s"
series failed = "calc_failed_1s"

abbrev pub place : RequestKind → ℕ
place ok = 0
place bad_request = 1
place overload = 2
place failed = 3

get_elem?-some-append :
    {A : Type 0} (xs ys : List A) (i : ℕ) (x : A)
    → get_elem? xs i ≡ some x
    → get_elem? (xs ++ ys) i ≡ some x
get_elem?-some-append [] ys i x e = absurd cc
get_elem?-some-append (y ∷ xs) ys zero x e = e
get_elem?-some-append (y ∷ xs) ys (suc i) x e = get_elem?-some-append xs ys i x e

get_elem?-length-append :
    {A : Type 0} (xs ys : List A) (n i : ℕ)
    → n ≡ length xs + i
    → get_elem? (xs ++ ys) n ≡ get_elem? ys i
get_elem?-length-append [] ys n i e = ap (get_elem? ys) (omega (arith, e))
get_elem?-length-append (x ∷ xs) ys zero i e = absurd (omega (arith, e))
get_elem?-length-append (x ∷ xs) ys (suc n) i e =
    get_elem?-length-append xs ys n i (omega (arith, e))

request_meta_lem :
    (k : RequestKind)
    → (m : Meta RequestKind) × (get_elem? request_meta (place k) ≡ some m)
      × (m.kind ≡ k)
      × (m.name ≡ series k)
request_meta_lem ok = (_, refl, refl, refl)
request_meta_lem overload = (_, refl, refl, refl)
request_meta_lem bad_request = (_, refl, refl, refl)
request_meta_lem failed = (_, refl, refl, refl)

module _ {h : Histograms} (percentile : h.Merged → ℕ → ℕ) where
  module _ (s : Snapshot h) (seconds : RequestKind → List ℕ)
      (shown : (k : RequestKind) → s.requests k ≡ window (seconds k)) where
    -- The rates of a kind, under any name.
    rates_shown :
        (k : RequestKind) (name : String)
        → (lines : List Line) × (rate_lines name (s.requests k) (length (s.requests k))
            ≡ some lines)
          × (length lines ≡ hist_buckets)
          × ((i : ℕ)
              → i < hist_buckets
              → get_elem? lines i ≡ some (rate name (negsuc i) (count_ago (seconds k) i)))
    rates_shown k name =
        let sixty : length (s.requests k) ≡ hist_buckets =
          ap length (shown k) ∙ length-window (seconds k) in
        let (lines, e, len, each) = rate_lines_lem name (s.requests k) _ (omega arith) in
        (
          lines,
          e,
          len ∙ sixty,
          λ i lt.
              each i (omega (arith, sixty))
              ∙ ap₂ (λ s v. some (rate name (negsuc s) v)) (omega arith)
                  (ap₂ (λ w n. get_or w (n - suc i) 0) (shown k) sixty
                    ∙ window-count_ago (seconds k) i lt),
        )

    Rows : List (Meta RequestKind) → List Line → Type 0
    Rows ms lines =
        (j : ℕ) (m : Meta RequestKind)
        → get_elem? ms j ≡ some m
        → (i : ℕ) → i < hist_buckets
        → get_elem? lines (62 * j + (2 + i))
          ≡ some (rate m.name (negsuc i) (count_ago (seconds m.kind) i))

    block-Rows :
        (m : Meta RequestKind) (ms : List (Meta RequestKind)) (rates rest : List Line)
        → length rates ≡ hist_buckets
        → ((i : ℕ)
            → i < hist_buckets
            → get_elem? rates i ≡ some (rate m.name (negsuc i) (count_ago (seconds m.kind) i)))
        → Rows ms rest
        → Rows (m ∷ ms) (help_last_60 m.name m.help_text ∷ gauge m.name ∷ (rates ++ rest))
    unfolding Rows
    block-Rows m ms rates rest len each more zero n e i lt =
        let same : m ≡ n = cc in
        let at : get_elem? (rates ++ rest) i
            ≡ some (rate m.name (negsuc i) (count_ago (seconds m.kind) i)) =
          get_elem?-some-append rates rest i _ (each i lt) in
        ap (get_elem? (help_last_60 m.name m.help_text ∷ gauge m.name ∷ (rates ++ rest)))
          {x = 62 * 0 + (2 + i)} {y = suc (suc i)} (omega arith)
        ∙ subst
            (λ (z : Meta RequestKind).
              get_elem? (rates ++ rest) i
              ≡ some (rate z.name (negsuc i) (count_ago (seconds z.kind) i)))
            same at
    block-Rows m ms rates rest len each more (suc j) n e i lt =
        ap (get_elem? (help_last_60 m.name m.help_text ∷ gauge m.name ∷ (rates ++ rest)))
          {x = 62 * suc j + (2 + i)} {y = suc (suc (60 + (62 * j + (2 + i))))} (omega arith)
        ∙ get_elem?-length-append rates rest (60 + (62 * j + (2 + i))) (62 * j + (2 + i))
            (omega (arith, len))
        ∙ more j n e i lt

    request_lines-Rows :
        (ms : List (Meta RequestKind))
        → (lines : List Line) × (request_lines percentile s ms ≡ some lines) × Rows ms lines
    unfolding request_lines Rows
    request_lines-Rows [] = ([], refl, λ j m e. absurd cc)
    request_lines-Rows (m ∷ ms) =
        let (rates, e, len, each) = rates_shown m.kind m.name in
        let (rest, r, more) = request_lines-Rows ms in
        (
          help_last_60 m.name m.help_text ∷ gauge m.name ∷ (rates ++ rest),
          rw (e, r) refl,
          block-Rows m ms rates rest len each more,
        )

  module _ (queue_size : ℕ) (p q : Option BatchPool) where
    -- Where the snapshot is current, the report of it is printed, and it has, for each of the four
    -- kinds, its series of sixty lines, after two lines of help, in the order ok, bad request,
    -- overload, failed: the line `i` of a series is for the second `-(i + 1)`, with the number of
    -- requests of that kind that were counted in it.
    pub reported_counts :
        {xs : List Action} {a : Aggregator h}
        → Runs (new_aggregator h queue_size p q) xs a
        → Current a
        → (lines : List Line) × (print_report percentile a.snap ≡ some lines)
          × ((k : RequestKind) (i : ℕ)
              → i < 60
              → get_elem? lines (62 * place k + (2 + i))
                ≡ some (rate (series k) (negsuc i) (count_ago (tally_of k xs).seconds i)))
    unfolding print_report Rows
    reported_counts {xs} {a} runs c =
        let (rates, e, rows) =
          request_lines-Rows a.snap (λ k. (tally_of k xs).seconds)
            (λ k. c.requests_now k ∙ (windows_refine queue_size p q runs k).0) request_meta in
        let (quantiles, r) =
          histogram_lines-some percentile a.snap histogram_meta
            (λ k. (h.merge (a.hists k), c.histograms_now k)) in
        (
          rates ++ quantiles,
          rw (e, r) refl,
          λ k i lt.
              let (m, at, same, named) = request_meta_lem k in
              get_elem?-some-append rates quantiles (62 * place k + (2 + i)) _
                (rows (place k) m at i lt)
              ∙ ap₂ (λ n j. some (rate n (negsuc i) (count_ago (tally_of j xs).seconds i))) named
                  same,
        )
