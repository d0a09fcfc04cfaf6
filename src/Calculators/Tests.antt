-- ===== src/Calculators/Tests.antt =====
-- Runs of the calculators, and their theorems at concrete inputs.
use cdnnow_test_golang.Shared.{
  ℕ, ◌+◌, ◌%◌, ◌≡◌, ◌<◌, ◌≤◌, ◌⊎◌, refl, true, false, none, some, List, [], ◌∷◌, ◌++◌, arith,
  length,
}
use mathlib.Core.List.{foldl}
use cdnnow_test_golang.Operators.{Int64, add, sub, modulus}
use cdnnow_test_golang.Calculators.Recorder.{Recorder, record_sample}
use cdnnow_test_golang.Calculators.Recorder.Batches.{Holds, record_sample-Holds, samples_of}
use cdnnow_test_golang.Calculators.Dual.{Sample, Duration, calculate, totals}
use cdnnow_test_golang.Calculators.Server
use cdnnow_test_golang.Calculators.Server.{
  Server, Event, number_arrives, Step, send, round, close, Runs, start, next, accepted, overloaded,
  panicked, with_buf,
}
use cdnnow_test_golang.Calculators.Server.Drain.{turns, rounds}
use cdnnow_test_golang.Calculators.Async.{
  Async, AsyncRuns, new_async, values, zero_values, new_async_single, calculate_single,
}
use cdnnow_test_golang.Calculators.Async.Consistent.{
  values_consistent, values_after_stop, stop_completes, calculate_never_waits,
}
use cdnnow_test_golang.Calculators.Parallel
use cdnnow_test_golang.Calculators.Parallel.{
  Parallel, new_parallel, ParallelRuns, enter, settle, run_sum, run_sub, stop_sum, stop_sub,
}
use cdnnow_test_golang.Calculators.Parallel.Agreement.{lib_add, lib_sub, stopped_totals_cancel}

abbrev regrow : ℕ → ℕ
regrow n = n + n

abbrev took : Sample
took = record { add_duration = 20; sub_duration = 30 }

abbrev fresh : Async
fresh = new_async lib_add lib_sub 2 true none

-- The number 5 waits in the queue.
five_waits : AsyncRuns regrow fresh (5 ∷ []) [] (with_buf fresh (5 ∷ []))
unfolding new_async Server.calculate
five_waits = next start (send 5 refl)

abbrev answer : Event Sample
answer = number_arrives took none

abbrev closing : Async
closing = record fresh { num_ch = record { buf = 5 ∷ []; capacity = 2; closed = true } }

-- `Stop` is called, the goroutine takes the number, and then ends.
five_done :
    (t : Async) × (log : List Sample) × AsyncRuns regrow fresh (5 ∷ []) log t × (t.done ≡ true)
unfolding new_async Server.calculate Server.close_nums Server.serve Server.leave calculate
five_done = (
  Server.leave (Server.process calculate regrow (with_buf closing []) 5 took none).0,
  _,
  next (next (next five_waits (close {t = closing} refl)) (round answer refl)) (round answer refl),
  refl,
)

values_consistent_example :
    (done waiting : List Int64) × (◌≡◌ {A = List Int64} (5 ∷ []) (done ++ waiting))
    × (values (with_buf fresh (5 ∷ [])) ≡ totals lib_add lib_sub zero_values done)
    × (waiting ≡ (with_buf fresh (5 ∷ [])).num_ch.buf)
    × (length waiting ≤ (with_buf fresh (5 ∷ [])).num_ch.capacity)
values_consistent_example = values_consistent lib_add lib_sub 2 true none tt regrow five_waits

values_after_stop_example :
    (values five_done.0 ≡ totals lib_add lib_sub zero_values (5 ∷ []))
    × (samples_of five_done.0.rec.sent ≡ five_done.1)
    × (length five_done.1 ≡ 1)
values_after_stop_example =
    values_after_stop lib_add lib_sub 2 none tt regrow five_done.2 five_done.3

stop_completes_example :
    (u : Async) × (Server.close_nums (with_buf fresh (5 ∷ [])) ≡ accepted u)
    × ((es : List (Event Sample))
        → 1 < turns es
        → ((rounds calculate regrow u es).done ≡ true)
          × (values (rounds calculate regrow u es) ≡ totals lib_add lib_sub zero_values (5 ∷ [])))
unfolding new_async
stop_completes_example = stop_completes lib_add lib_sub 2 true none tt regrow five_waits refl

calculate_never_waits_example :
    ((with_buf fresh (5 ∷ [])).num_ch.closed ≡ true)
      × (Server.calculate (with_buf fresh (5 ∷ [])) 7 ≡ panicked)
    ⊎ (((with_buf fresh (5 ∷ [])).num_ch.closed ≡ false)
        × (1 < 2)
        × (Server.calculate (with_buf fresh (5 ∷ [])) 7
            ≡ accepted (with_buf (with_buf fresh (5 ∷ [])) (5 ∷ 7 ∷ []))))
    ⊎ (((with_buf fresh (5 ∷ [])).num_ch.closed ≡ false)
        × (2 ≤ 1)
        × (Server.calculate (with_buf fresh (5 ∷ [])) 7 ≡ overloaded))
calculate_never_waits_example =
    calculate_never_waits lib_add lib_sub 2 true none regrow 7 (omega arith) five_waits

abbrev pair : Parallel
pair = new_parallel lib_add lib_sub 2 true none

abbrev arrives : Event Duration
arrives = number_arrives 20 none

-- 5 and 7 are taken in; their calls reach `sub` in the other order; then `Stop`.
pair_done :
    (p : Parallel) × ParallelRuns regrow pair (5 ∷ 7 ∷ []) p
    × (p.sum.done ≡ true)
    × (p.sub.done ≡ true)
    × (p.owed ≡ [])
unfolding new_parallel new_async_single Server.calculate Server.close_nums Server.serve
    calculate_single
pair_done = (
  _,
  ParallelRuns.next
      (ParallelRuns.next
        (ParallelRuns.next
          (ParallelRuns.next
            (ParallelRuns.next
              (ParallelRuns.next
                (ParallelRuns.next
                  (ParallelRuns.next
                    (ParallelRuns.next
                      (ParallelRuns.next
                        (ParallelRuns.next
                          (ParallelRuns.next ParallelRuns.start (enter 5 (send 5 refl)))
                          (enter 7 (send 7 refl)))
                        (settle 7 [] (5 ∷ []) refl (send 7 refl)))
                      (run_sum arrives refl))
                    (settle 5 [] [] refl (send 5 refl)))
                  (run_sum arrives refl))
                (run_sub arrives refl))
              (stop_sum refl))
            (run_sum arrives refl))
          (run_sub arrives refl))
        (stop_sub refl refl))
      (run_sub arrives refl),
  refl,
  refl,
  refl,
)

stopped_totals_cancel_example :
    ((Parallel.values pair_done.0).sum ≡ foldl add 0 (5 ∷ 7 ∷ []))
    × ((Parallel.values pair_done.0).sub ≡ foldl sub 0 (5 ∷ 7 ∷ []))
    × (((Parallel.values pair_done.0).sum + (Parallel.values pair_done.0).sub) % modulus ≡ 0)
stopped_totals_cancel_example =
    stopped_totals_cancel 2 true none tt regrow pair_done.1 pair_done.2 pair_done.3 pair_done.4

abbrev idle : Recorder ℕ
idle = record {
  recording = true;
  batch_pool = some (record { batch_size = 2; pool = 2 ∷ [] });
  batch_size = 2;
  batch = some (record { elems = 9 ∷ []; capacity = 2; backing = 2 });
  armed = true;
  sent = [];
}

idle-Holds : Holds idle (9 ∷ [])
idle-Holds = record {
  recording = refl;
  positive = omega arith;
  pool_fits = (record { positive = omega arith; large = omega arith }, refl);
  batch_open = (refl, omega arith, omega arith, refl, omega arith);
  sent_whole = tt;
  all_there = refl;
}

-- The second sample fills the batch.
record_sample-Holds_example : Holds (record_sample regrow idle 4 (some 0)) (9 ∷ 4 ∷ [])
record_sample-Holds_example = record_sample-Holds regrow idle (9 ∷ []) 4 (some 0) idle-Holds
