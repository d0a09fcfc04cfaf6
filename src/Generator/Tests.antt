-- ===== src/Generator/Tests.antt =====
-- The load generator's theorems at a concrete run, and runs of its parts.
use cdnnow_test_golang.Shared.{
  ℕ, ◌^◌, ◌<◌, ◌≤◌, ◌≡◌, ◌≢◌, refl, ◌⊎◌, Bool, true, false, none, some, List, [], ◌∷◌, ◌++◌, arith,
  leb, if◌then◌else◌, pos, get_elem?,
}
use cdnnow_test_golang.Operators.{Int64, modulus}
use cdnnow_test_golang.Operators
use cdnnow_test_golang.Metrics.Overflow.{bits_len}
use cdnnow_test_golang.Generator.Stat.{HistLibrary, Stat, new_stat}
use cdnnow_test_golang.Generator.Worker.{
  Reply, reply, at_request, at_nums, replied, request_error, Event, num, fired, cancelled, returned,
  running, Worker, at_timer, record_latency, record_reply, is_positive, pause, on_event, run_from,
  run, new_worker,
}
use cdnnow_test_golang.Generator.Worker.Counts.{latencies, failures, Counted, run_counts}
use cdnnow_test_golang.Generator.Worker.Stops.{EndsBy, run_stops}
use cdnnow_test_golang.Generator.Runner.{
  RunConfig, History, gives_up, random_sleep, returned_stat, worker_sends, all_sent, overflow_line,
  generate, print_report,
}
use cdnnow_test_golang.Generator.Runner.Totals.{all_tallies, tallies_of, plus, no_tallies}
use cdnnow_test_golang.Generator.Runner.Share.{overflow_share}

-- A histogram of the latencies up to a tenth of a second.
abbrev pub list_hist : HistLibrary
list_hist = record {
  Hist = List ℕ;
  new_hist = λ lowest highest digits. [];
  record_value = λ g x. if leb x 100000000 then some (g ++ x ∷ []) else none;
  merge_hist = λ g k. g ++ k;
}

-- Two requests that succeed, the second too slow for the histogram, and one that fails.
abbrev three_requests : List Event
three_requests =
    num 7
    ∷ reply (replied 2000)
    ∷ fired
    ∷ num 3
    ∷ reply (replied 200000000)
    ∷ fired
    ∷ num 5
    ∷ reply request_error
    ∷ []

abbrev pub paused : Worker list_hist
paused = record {
  stat = record {
    ok = 2;
    errors = 1;
    hist = 2000 ∷ [];
    overflow = record { count = 1; sum_log2 = 27 };
  };
  timer = running;
  phase = at_timer;
}

run_test : run list_hist (pos 100) three_requests ≡ some paused
unfolding run run_from on_event pause is_positive record_reply record_latency new_worker
    Operators.add Operators.sub bits_len
run_test = refl

run_counts_example :
    Counted list_hist 0 0 (new_stat list_hist) paused.stat (2000 ∷ 200000000 ∷ []) 1
unfolding latencies failures
run_counts_example = run_counts list_hist (pos 100) three_requests paused run_test

run_stops_example :
    ((paused.phase ≡ returned) × (paused.timer ≢ running))
    ⊎ (((paused.phase ≡ at_nums) ⊎ (paused.phase ≡ at_timer))
        × EndsBy list_hist (pos 100) three_requests (cancelled ∷ []) paused.stat)
    ⊎ ((paused.phase ≡ at_request)
        × (run list_hist (pos 100) (three_requests ++ cancelled ∷ []) ≡ none)
        × ((x : Reply)
            → EndsBy list_hist
                (pos 100)
                three_requests
                (reply x ∷ cancelled ∷ [])
                (record_reply paused.stat x)))
run_stops_example = run_stops list_hist (pos 100) three_requests paused run_test

-- The second worker's context ends before its first request.
abbrev pub two_workers : List History
two_workers =
    record { fired_first = true; events = three_requests ++ cancelled ∷ [] }
    ∷ record { fired_first = false; events = [] }
    ∷ []

abbrev pub jittered : RunConfig
jittered = record { jitter = pos 5; interval = pos 100 }

pub two_workers_sent : all_sent list_hist jittered two_workers ≡ some (some paused.stat ∷ none ∷ [])
unfolding all_sent worker_sends gives_up random_sleep returned_stat run run_from on_event pause
    is_positive record_reply record_latency new_worker Operators.add Operators.sub bits_len
two_workers_sent = refl

few_requests : (all_tallies list_hist jittered two_workers).oks < 2 ^ 63
unfolding all_tallies tallies_of plus no_tallies gives_up random_sleep is_positive latencies
few_requests = omega arith

overflow_share_example :
    (m : Stat list_hist) × (generate list_hist jittered 3 two_workers ≡ some (m, 2))
    × ((p : Bool) (k : ℕ) (c o : Int64)
        → get_elem? (print_report list_hist m p) k ≡ some (overflow_line c o)
        → (0 < c) × (c ≤ o) × (o ≡ (all_tallies list_hist jittered two_workers).oks))
overflow_share_example =
    overflow_share list_hist jittered 3 two_workers (some paused.stat ∷ none ∷ []) two_workers_sent
      (omega arith) few_requests
