-- ===== src/Metrics/Report/Fresh.antt =====
-- Any run of the printer with the aggregator: a report that is printed is never out of date.
use cdnnow_test_golang.Shared.{
  ℕ, ◌+◌, ◌<◌, ◌≤◌, ◌≡◌, refl, sym, subst, false, Option, some, List, [], ◌∷◌, ◌++◌, arith, length,
  length-append, ltb, le→ltb,
}
use cdnnow_test_golang.Operators.{modulus}
use cdnnow_test_golang.Pools.{BatchPool}
use cdnnow_test_golang.Calculators.Server.{accepted}
use cdnnow_test_golang.Metrics.Aggregator.{Time, Histograms, Aggregator}
use cdnnow_test_golang.Metrics.Aggregator.Loop.{get_snapshot}
use cdnnow_test_golang.Metrics.Aggregator.Client.{Action, reads, act, new_aggregator, Runs}
use cdnnow_test_golang.Metrics.Aggregator.Client
use cdnnow_test_golang.Metrics.Aggregator.Snapshots.{snapshot_versions}
use cdnnow_test_golang.Metrics.Report.{
  Line, print_report, Printer, new_printer, refresh, get_report_text, report_cache_ttl,
}
use cdnnow_test_golang.Metrics.Report.Cache.{
  Coherent, stepped-Coherent, read-made, refresh-some, refreshed-Coherent,
}

module _ {h : Histograms} (percentile : h.Merged → ℕ → ℕ) where
  -- The printer and the aggregator in any interleaving; a text out of the cache changes nothing.
  pub data JointRuns (start_from : Aggregator h)
      : List Action → Printer → Aggregator h → Type 0 where
    start : JointRuns start_from [] new_printer start_from
    acts :
        {xs : List Action} {r : Printer} {a b : Aggregator h} (x : Action)
        → JointRuns start_from xs r a
        → act a x ≡ accepted b
        → JointRuns start_from (xs ++ x ∷ []) r b
    prints :
        {xs : List Action} {r q : Printer} {a : Aggregator h} (now : Time) (made : Time)
        (later : Time)
        → JointRuns start_from xs r a
        → refresh percentile r (get_snapshot a now made).snap ≡ some q
        → JointRuns start_from
            (xs ++ reads now made ∷ [])
            (record q { cache_deadline = later + report_cache_ttl })
            (get_snapshot a now made)

module _ {h : Histograms} (percentile : h.Merged → ℕ → ℕ) (queue_size : ℕ)
    (p q : Option BatchPool) where
  read_act :
      (a : Aggregator h) (now made : Time)
      → act a (reads now made) ≡ accepted (get_snapshot a now made)
  unfolding act
  read_act a now made = refl

  pub Joint-Runs :
      {xs : List Action} {r : Printer} {a : Aggregator h}
      → JointRuns percentile (new_aggregator h queue_size p q) xs r a
      → Runs (new_aggregator h queue_size p q) xs a
  Joint-Runs start = Client.start
  Joint-Runs (acts x runs e) = Client.next x (Joint-Runs runs) e
  Joint-Runs (prints {a} now made later runs e) =
      Client.next (reads now made) (Joint-Runs runs) (read_act a now made)

  read-Coherent :
      {xs : List Action} {r : Printer} {a : Aggregator h}
      → JointRuns percentile (new_aggregator h queue_size p q) xs r a
      → Coherent percentile (length xs) r a
      → length xs + 1 < modulus
      → (now made : Time) → Coherent percentile (length xs + 1) r (get_snapshot a now made)
  read-Coherent {xs} {r} {a} runs i small now made =
      stepped-Coherent percentile (length xs) r a (get_snapshot a now made) i small (
        snapshot_versions queue_size p q (Joint-Runs runs) (reads now made)
          (get_snapshot a now made) (read_act a now made))

  Joint-Coherent :
      {xs : List Action} {r : Printer} {a : Aggregator h}
      → JointRuns percentile (new_aggregator h queue_size p q) xs r a
      → length xs < modulus
      → Coherent percentile (length xs) r a
  unfolding new_aggregator new_printer
  Joint-Coherent start few = record {
    few = omega arith;
    not_ahead = omega arith;
    unmade = λ z. ((λ v. cc v), refl);
    made = λ z. absurd (z refl);
    cached = λ z. absurd (z refl);
  }
  Joint-Coherent (acts {xs} {r} {a} {b} x runs e) few =
      let longer : length (xs ++ x ∷ []) ≡ length xs + 1 =
        omega (arith, length-append xs (x ∷ [])) in
      subst (λ n. Coherent percentile n r b) (sym longer)
        (stepped-Coherent percentile (length xs) r a b
          (Joint-Coherent runs (omega (arith, few, longer))) (omega (arith, few, longer))
          (snapshot_versions queue_size p q (Joint-Runs runs) x b e))
  Joint-Coherent (prints {xs} {r} {q = r'} {a} now made later runs e) few =
      let longer : length (xs ++ reads now made ∷ []) ≡ length xs + 1 =
        omega (arith, length-append xs (reads now made ∷ [])) in
      let small : length xs + 1 < modulus = omega (arith, few, longer) in
      let i = Joint-Coherent runs (omega (arith, few, longer)) in
      subst
        (λ n.
          Coherent percentile n (record r' { cache_deadline = later + report_cache_ttl })
            (get_snapshot a now made))
        (sym longer)
        (refreshed-Coherent percentile (length xs + 1) (later + report_cache_ttl) r r'
          (get_snapshot a now made) (read-Coherent runs i small now made)
          (read-made percentile (length xs) r a now made i small) e)

  -- In every run with fewer than 2^64 - 1 actions, when the text in the cache is out of date,
  -- `getReportText` returns, without panic, the report of the snapshot that `getSnapshot` gives it
  -- then, though it prints a report only for a version that is new.
  pub get_report_text-fresh :
      {xs : List Action} {r : Printer} {a : Aggregator h}
      → JointRuns percentile (new_aggregator h queue_size p q) xs r a
      → length xs + 1 < modulus
      → (now snap_now made later : Time) → r.cache_deadline ≤ now
      → (lines : List Line) × (s : Printer) × (get_report_text percentile r a now snap_now made
            later
          ≡ some (lines, (s, get_snapshot a snap_now made)))
        × (print_report percentile (get_snapshot a snap_now made).snap ≡ some lines)
        × (s.cache ≡ lines)
        × (s.cache_deadline ≡ later + report_cache_ttl)
  unfolding get_report_text
  get_report_text-fresh {xs} {r} {a} runs small now snap_now made later late =
      let i = Joint-Coherent runs (omega (arith, small)) in
      let b = get_snapshot a snap_now made in
      let (s, e, shows, _) =
        refresh-some percentile (length xs + 1) r b (read-Coherent runs i small snap_now made)
          (read-made percentile (length xs) r a snap_now made i small) in
      let due : ltb now r.cache_deadline ≡ false = le→ltb _ _ late in
      (
        s.cache,
        record s { cache_deadline = later + report_cache_ttl },
        rw (due, get_report_text) (rw e refl),
        shows,
        refl,
        refl,
      )
