-- ===== src/Servers/Tests.antt =====
-- The server's theorems at concrete runs.
use cdnnow_test_golang.Shared.{
  if◌then◌else◌, leb, length, ◌%◌, ◌^◌, false, ℕ, ◌+◌, ◌++◌, ◌↔◌, pos, ◌≡◌, ◌<◌, refl, Bool, true,
  none, some, List, [], ◌∷◌, arith,
}
use cdnnow_test_golang.Operators.{Op, apply, add, sub}
use cdnnow_test_golang.Calculators.Recorder.{record_sample, append, make_batch, ensure_batch, flush}
use cdnnow_test_golang.Calculators.Dual
use cdnnow_test_golang.Calculators.Dual.{Sample, totals}
use cdnnow_test_golang.Calculators.Server
use cdnnow_test_golang.Calculators.Server.{
  Event, number_arrives, send, round, close, close_nums, process, receive, leave,
}
use cdnnow_test_golang.Calculators.Async.{
  Async, new_async, new_server, new_recorder, batch_size_of, values,
}
use cdnnow_test_golang.Deque.Valid.{contents}
use cdnnow_test_golang.Metrics.Kinds.{RequestKind, ok, bad_request}
use cdnnow_test_golang.Metrics.Aggregator.{Histograms}
use cdnnow_test_golang.Metrics.Aggregator.Loop.{count_requests}
use cdnnow_test_golang.Metrics.Aggregator.Client.{Action, Runs, new_aggregator}
use cdnnow_test_golang.Metrics.Aggregator.Windows.{window}
use cdnnow_test_golang.Metrics.Aggregator.Seconds.{tally_of}
use cdnnow_test_golang.Api.Numbers.{digit, digits, parse_uint, parse_int}
use cdnnow_test_golang.Api.Agreement.{kind_of}
use cdnnow_test_golang.Servers.Service.{App, after_call, count_app, calculate_app}
use cdnnow_test_golang.Servers.Handlers.{
  Handler, Serving, starts, refuses, calls, counts_one, answers, computes, new_app,
}
use cdnnow_test_golang.Servers.Handlers.Promises.{taken_sum, answered_totals}
use cdnnow_test_golang.Servers.Handlers.Counted.{of_kind, counted_of, in_all, answered_counts}
use cdnnow_test_golang.Servers.Printer.Printed.{
  PrintedRuns, begins, moves, ticks, stops, Shown, printed_totals,
}
use cdnnow_test_golang.Servers.Printer.{
  TotalsPrinter, new_totals_printer, print_totals, on_printer, serve_printer,
}
use cdnnow_test_golang.Servers.Enums.{
  calc_mode, server_type, enum_parse, enum_string, to_lower, lower, parse_in, find, names_of,
  name_at,
}
use cdnnow_test_golang.Servers.Enums.Names.{settings_read}
use cdnnow_test_golang.Servers.Run.{
  Env, cancelled, Parts, by_samples, Act, opens, closes, makes, serves, shuts_down, listener_shut,
  listener, pprof, aggregator, calculator, printer, mode_sync, mode_async, type_std, parts_of, run,
  run_pprof, run_parts, run_calculator, run_server, run_http_server,
}
use cdnnow_test_golang.Servers.Run.Shutdown.{shutdown_in_order}
use cdnnow_test_golang.Servers.Run.Ends.{closed, opened, keep, closing, shutdown_order}
use cdnnow_test_golang.Servers.Main.{
  Flags, config_of, to_nat, positive, negative, main_ends, run_config_bounds,
}

abbrev regrow : ℕ → ℕ
regrow n = n + n

abbrev lib_add : Op
lib_add = record { fn = add }

abbrev lib_sub : Op
lib_sub = record { fn = sub }

abbrev took : Sample
took = record { add_duration = 20; sub_duration = 30 }

-- 7 is taken in, the ticker of the printer fires, the goroutine takes the number; then the
-- calculator is stopped, and then the printer.
printed_run :
    (c : Async) × (p : TotalsPrinter) × PrintedRuns lib_add lib_sub 2 true none regrow (7 ∷ []) c p
    × (p.ended ≡ true)
unfolding serve_printer on_printer print_totals new_totals_printer new_async new_server new_recorder
    batch_size_of Server.calculate Server.serve close_nums process receive leave record_sample
    append make_batch ensure_batch flush Dual.calculate Dual.add Dual.sub apply values
printed_run = (
  _,
  _,
  stops
      (moves
        (moves
          (moves (ticks (moves begins (send 7 refl)) refl) (round (number_arrives took none) refl))
          (close refl))
        (round (number_arrives took none) refl))
      refl refl,
  refl,
)

printed_totals_example : Shown lib_add lib_sub (7 ∷ []) printed_run.1
printed_totals_example = printed_totals lib_add lib_sub 2 true none regrow tt printed_run.2

-- A histogram that is the list of its values and takes those up to ten.
abbrev small : Histograms
small = record {
  Windowed = List ℕ;
  Merged = List ℕ;
  new_windowed = λ buckets lowest highest digits. [];
  record_value = λ w d. if leb d 10 then some (d ∷ w) else none;
  rotate_windowed = λ w. w;
  merge = λ w. w;
}

abbrev at_percentile : List ℕ → ℕ → ℕ
at_percentile w n = length w

abbrev fresh : App Async small
fresh = new_app small lib_add lib_sub 2 4 none

abbrev brought_seven : Handler
brought_seven = record { num = some 7; kind = ok; counted = false }

abbrev counted_seven : Handler
counted_seven = record { num = some 7; kind = ok; counted = true }

abbrev refused_text : Handler
refused_text = record { num = none; kind = bad_request; counted = false }

-- One handler has 7 taken in; before it counts that, the goroutine takes the number, and another
-- handler refuses its text; then the first counts.
two_handlers :
    (a : App Async small) × Serving at_percentile regrow fresh a
      (refused_text ∷ counted_seven ∷ [])
      []
    × (a.calculator.num_ch.closed ≡ false)
unfolding new_app new_async new_server new_recorder batch_size_of new_aggregator after_call
    count_app calculate_app parse_int parse_uint digits digit Server.calculate count_requests
    kind_of Server.serve process receive leave record_sample append make_batch ensure_batch flush
    Dual.calculate Dual.add Dual.sub apply
two_handlers = (
  _,
  counts_one (refused_text ∷ []) brought_seven []
      (refuses (b'x' ∷ [])
        (computes (took ∷ []) (calls (b'7' ∷ []) 7 starts refl refl)
          (round (number_arrives took none) refl))
        refl)
      refl,
  refl,
)

answered_counts_example :
    (xs : List Action) × Runs (new_aggregator small 4 none none) xs two_handlers.0.counter
    × ((k : RequestKind)
        → (contents 0 (two_handlers.0.counter.reqs k) ≡ window (tally_of k xs).seconds)
          × (two_handlers.0.counter.cnts k ≡ (tally_of k xs).current)
          × (in_all (tally_of k xs)
              ≡ (of_kind k [] + counted_of k (refused_text ∷ counted_seven ∷ [])) % 2 ^ 64))
answered_counts_example =
    answered_counts at_percentile regrow lib_add lib_sub 2 4 none two_handlers.1

-- A handler has 7 taken in, counts and answers; the calculator is stopped.
one_handler :
    (a : App Async small) × Serving at_percentile regrow fresh a [] (counted_seven ∷ [])
    × (a.calculator.done ≡ true)
unfolding new_app new_async new_server new_recorder batch_size_of new_aggregator after_call
    count_app calculate_app parse_int parse_uint digits digit Server.calculate count_requests
    kind_of Server.serve close_nums process receive leave record_sample append make_batch
    ensure_batch flush Dual.calculate Dual.add Dual.sub apply
one_handler = (
  _,
  computes []
      (computes []
        (answers [] counted_seven []
          (counts_one [] brought_seven []
            (computes (took ∷ []) (calls (b'7' ∷ []) 7 starts refl refl)
              (round (number_arrives took none) refl))
            refl)
          refl)
        (close refl))
      (round (number_arrives took none) refl),
  refl,
)

answered_totals_example :
    ((values one_handler.0.calculator).sum ≡ taken_sum (counted_seven ∷ []) % 2 ^ 64)
    × (((values one_handler.0.calculator).sum + (values one_handler.0.calculator).sub) % 2 ^ 64 ≡ 0)
answered_totals_example =
    answered_totals at_percentile regrow 2 4 none tt one_handler.1 one_handler.2

-- The letters of "Sync".
abbrev sync_in_caps : List ℕ
sync_in_caps = b'S' ∷ b'y' ∷ b'N' ∷ b'c' ∷ []

settings_read_example :
    ((enum_parse calc_mode sync_in_caps ≡ some 1)
      ↔ (enum_string calc_mode 1 ≡ some (to_lower sync_in_caps)))
    × ((enum_parse server_type sync_in_caps ≡ some 1)
        ↔ (enum_string server_type 1 ≡ some (to_lower sync_in_caps)))
settings_read_example = settings_read sync_in_caps 1 (omega arith)

calc_mode_test : enum_parse calc_mode sync_in_caps ≡ some mode_sync
unfolding enum_parse parse_in find names_of enum_string name_at to_lower lower
calc_mode_test = refl

abbrev flags : Flags
flags = record {
  interval = pos 5;
  server_type = type_std;
  calc_mode = mode_async;
  queue_size = pos 1024;
  pprof_addr = b':' ∷ [];
  max_conns = pos 0;
}

abbrev env : Env
env = record { listen_ok = true; pprof_ok = true; serve_end = cancelled true }

shutdown_in_order_example :
    (before : List Act) × ((run (config_of flags) env).0
      ≡ before ++ closing (keep (opened (run (config_of flags) env).0) shutdown_order))
    × (closed before ≡ [])
shutdown_in_order_example = shutdown_in_order (config_of flags) env

async_run_test :
    (run (config_of flags) env).0
    ≡ opens listener
      ∷ opens pprof
      ∷ makes (record {
        async_calc = true;
        samples_pool = some 256;
        durations_pool = none;
        queue = some 1024;
        record_fn = by_samples;
      })
      ∷ opens aggregator
      ∷ opens calculator
      ∷ opens printer
      ∷ serves type_std true
      ∷ shuts_down
      ∷ listener_shut
      ∷ closes calculator
      ∷ closes printer
      ∷ closes aggregator
      ∷ closes pprof
      ∷ closes listener
      ∷ []
unfolding run run_pprof run_parts run_calculator run_server run_http_server parts_of config_of
    to_nat
async_run_test = refl

run_config_bounds_example :
    (◌≡◌ {A = Bool} true true)
    × (0 < 5)
    × ((parts : Parts) (n : ℕ)
        → parts_of (config_of flags) ≡ some parts
        → parts.queue ≡ some n
        → (n ≡ (config_of flags).queue_size) × (0 < n))
    × (run (config_of flags) env ≡ run (config_of flags) env)
unfolding main_ends positive negative to_nat
run_config_bounds_example =
    run_config_bounds flags true env (config_of flags) 5 (run (config_of flags) env) refl
