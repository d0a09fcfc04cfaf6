-- ===== src/Metrics/Tests.antt =====
-- The theorems of the metrics at a concrete run: two requests are counted, the second ends, a sample
-- arrives, and one more request is counted.
use cdnnow_test_golang.Shared.{
  ◌*◌, ℕ, ◌≡◌, inl, inr, ◌<◌, ◌+◌, ◌-◌, ◌^◌, ◌%◌, refl, ◌⊎◌, false, none, some, List, [], ◌∷◌, ◌++◌,
  arith, leb, if◌then◌else◌, length, get_elem?, negsuc,
}
use cdnnow_test_golang.Deque.{pop_front, push_back, new_deque_from, ensure_room, front_elem}
use cdnnow_test_golang.Deque.Valid.{contents}
use cdnnow_test_golang.Operators
use cdnnow_test_golang.Operators.{modulus}
use cdnnow_test_golang.Metrics.Kinds.{RequestKind, ok}
use cdnnow_test_golang.Metrics.Overflow.{bits_len, has_overflow, no_overflow, log2u}
use cdnnow_test_golang.Metrics.Aggregator.{
  Histograms, Aggregator, send, rotate, rotate_window, report_overflow, record_duration,
  record_both,
}
use cdnnow_test_golang.Metrics.Aggregator.Loop.{
  tick, sample_arrives, on_tick, on_sample, serve, get_snapshot, count_requests,
}
use cdnnow_test_golang.Metrics.Aggregator.Client
use cdnnow_test_golang.Metrics.Aggregator.Client.{
  Action, sends_sample, counts, reads, serves, act, new_aggregator, Runs, start, next,
}
use cdnnow_test_golang.Metrics.Aggregator.Windows.{window}
use cdnnow_test_golang.Metrics.Aggregator.Seconds.{tally_of, windows_refine}
use cdnnow_test_golang.Metrics.Aggregator.Snapshots.{
  Current, Stable, get_snapshot-Current, snapshot_versions,
}
use cdnnow_test_golang.Metrics.Report.Fresh.{JointRuns, get_report_text-fresh}
use cdnnow_test_golang.Metrics.Report.{
  Printer, new_printer, get_report_text, print_report, report_cache_ttl, Line, rate,
}
use cdnnow_test_golang.Metrics.Report.Rates.{count_ago}
use cdnnow_test_golang.Metrics.Report.Shown.{series, place, reported_counts}

log2u_test : (log2u 1 ≡ 0) × (log2u 1000 ≡ 9) × (log2u 0 ≡ 2 ^ 64 - 1)
unfolding log2u bits_len Operators.sub
log2u_test = (refl, refl, refl)

-- A histogram that is the list of its values and takes those up to ten.
abbrev small : Histograms
small = record {
  Windowed = List ℕ;
  Merged = List ℕ;
  new_windowed = λ buckets lowest highest digits. [];
  record_value = λ w d. if leb d 10 then some (d ∷ w) else none;
  rotate_windowed = λ w. w;
  merge = λ w. w;
}

abbrev fresh : Aggregator small
fresh = new_aggregator small 4 none none

abbrev actions : List Action
actions =
    counts ok 2
    ∷ serves tick
    ∷ sends_sample (record { add_duration = 3; sub_duration = 20 })
    ∷ serves sample_arrives
    ∷ counts ok 1
    ∷ []

ran : (a : Aggregator small) × Runs fresh actions a
unfolding new_aggregator act Client.record_sample send serve on_tick on_sample rotate rotate_window
    report_overflow has_overflow no_overflow record_both record_duration count_requests pop_front
    push_back new_deque_from ensure_room front_elem
ran = (
  _,
  next (counts ok 1)
      (next (serves sample_arrives)
        (next (sends_sample (record { add_duration = 3; sub_duration = 20 }))
          (next (serves tick) (next (counts ok 2) start refl) refl) refl)
        refl)
      refl,
)

windows_refine_example :
    (contents 0 (ran.0.reqs ok) ≡ window (tally_of ok actions).seconds)
    × (ran.0.cnts ok ≡ (tally_of ok actions).current)
windows_refine_example = windows_refine 4 none none ran.1 ok

get_snapshot-Current_example :
    Current (get_snapshot ran.0 5 6)
    ⊎ ((ran.0.done ≡ false) × (5 < ran.0.snap.deadline) × (get_snapshot ran.0 5 6 ≡ ran.0))
get_snapshot-Current_example = get_snapshot-Current 4 none none ran.1 5 6

snapshot_versions_example :
    Stable ran.0 (get_snapshot ran.0 5 6)
    ⊎ (((get_snapshot ran.0 5 6).snap.version ≡ (ran.0.snap.version + 1) % modulus)
        × Current (get_snapshot ran.0 5 6))
unfolding act
snapshot_versions_example =
    snapshot_versions 4 none none ran.1 (reads 5 6) (get_snapshot ran.0 5 6) refl

after_read : Runs fresh (actions ++ reads 5 6 ∷ []) (get_snapshot ran.0 5 6)
unfolding act
after_read = next (reads 5 6) ran.1 refl

after_read-Current : Current (get_snapshot ran.0 5 6)
unfolding ran new_aggregator
after_read-Current = elim (get_snapshot-Current 4 none none ran.1 5 6) [
  | inl c ↦ c
  | inr (_, lt, _) ↦ absurd (omega (arith, lt))
]

abbrev at_percentile : List ℕ → ℕ → ℕ
at_percentile w n = length w

reported_counts_example :
    (lines : List Line) × (print_report at_percentile (get_snapshot ran.0 5 6).snap ≡ some lines)
    × ((k : RequestKind) (i : ℕ)
        → i < 60
        → get_elem? lines (62 * place k + (2 + i))
          ≡ some (
              rate
                (series k)
                (negsuc i)
                (count_ago (tally_of k (actions ++ reads 5 6 ∷ [])).seconds i)))
reported_counts_example = reported_counts at_percentile 4 none none after_read after_read-Current

-- A request is counted, the second ends, and the report is printed for the first time.
joint :
    (a : Aggregator small) × JointRuns at_percentile fresh
      (counts ok 2 ∷ serves tick ∷ [])
      new_printer
      a
unfolding new_aggregator act serve on_tick rotate rotate_window report_overflow has_overflow
    no_overflow count_requests pop_front push_back new_deque_from ensure_room front_elem
joint = (_, JointRuns.acts (serves tick) (JointRuns.acts (counts ok 2) JointRuns.start refl) refl)

get_report_text-fresh_example :
    (lines : List Line) × (s : Printer) × (get_report_text at_percentile new_printer joint.0 5 6 7 8
      ≡ some (lines, (s, get_snapshot joint.0 6 7)))
    × (print_report at_percentile (get_snapshot joint.0 6 7).snap ≡ some lines)
    × (s.cache ≡ lines)
    × (s.cache_deadline ≡ 8 + report_cache_ttl)
unfolding new_printer
get_report_text-fresh_example =
    get_report_text-fresh at_percentile 4 none none joint.1 (omega arith) 5 6 7 8 (omega arith)
