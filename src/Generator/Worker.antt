-- ===== src/Generator/Worker.antt =====
-- `Worker.Run` of internal/generator/workers/worker.go: its loop, on the events that its two
-- `select`s and the client answer with. What is logged is left out: see Generator/Dedup.
pub mod Counts
pub mod Stops
use cdnnow_test_golang.Shared.{
  ℕ, zero, suc, Bool, true, false, Option, none, some, List, [], ◌∷◌, ◌>>=◌, if◌then◌else◌, ℤ, pos,
  negsuc,
}
use cdnnow_test_golang.Operators.{Int64}
use cdnnow_test_golang.Operators
use cdnnow_test_golang.Calculators.Dual.{Duration}
use cdnnow_test_golang.Generator.Stat.{HistLibrary, Stat, new_stat, overflow_add}

-- What `DoRequest` answers; a latency that comes with an error is not used.
pub data Reply : Type 0 where
  replied : (latency : Duration) → Reply
  request_error : Reply

-- The cases of the two `select`s: a number, the closed channel of numbers, the timer, and the end of
-- the context; and the reply to a request, for which `DoRequest` waits, whatever the context does.
pub data Event : Type 0 where
  num : Int64 → Event
  reply : Reply → Event
  nums_closed fired cancelled : Event

pub data Phase : Type 0 where
  at_nums at_request at_timer returned : Phase

-- `tm`: nil, running, or not running.
pub data Timer : Type 0 where
  no_timer running idle : Timer

pub record Worker (h : HistLibrary) : Type 0 where
  pub stat : Stat h
  pub timer : Timer
  pub phase : Phase

unfoldable pub new_worker : (h : HistLibrary) → Worker h
unfolding new_stat
new_worker h = record { stat = new_stat h; timer = no_timer; phase = at_nums }

unfoldable pub record_latency : {h : HistLibrary} → Stat h → Duration → Option h.Hist → Stat h
unfolding overflow_add
record_latency s latency (some hist) = record s { ok = Operators.add s.ok 1; hist = hist }
record_latency s latency none = record s {
  ok = Operators.add s.ok 1;
  overflow = overflow_add s.overflow latency;
}

unfoldable pub record_reply : {h : HistLibrary} → Stat h → Reply → Stat h
unfolding record_latency
record_reply s request_error = record s { errors = Operators.add s.errors 1 }
record_reply {h} s (replied latency) = record_latency s latency (h.record_value s.hist latency)

unfoldable pub is_positive : ℤ → Bool
is_positive (pos zero) = false
is_positive (pos (suc n)) = true
is_positive (negsuc n) = false

-- What follows a request: the next number at once, or the pause.
unfoldable pub pause : {h : HistLibrary} → ℤ → Worker h → Worker h
unfolding is_positive
pause interval w =
    if is_positive interval then record w { timer = running; phase = at_timer } else w

-- `none` is an event that the worker does not wait for.
unfoldable pub on_event : {h : HistLibrary} → ℤ → Worker h → Phase → Event → Option (Worker h)
unfolding record_reply pause
on_event interval w at_nums (num n) = some (record w { phase = at_request })
on_event interval w at_nums nums_closed = some (record w { phase = returned })
on_event interval w at_nums cancelled = some (record w { phase = returned })
on_event interval w at_request (reply x) =
    some (pause interval (record w { stat = record_reply w.stat x; phase = at_nums }))
on_event interval w at_timer fired = some (record w { timer = idle; phase = at_nums })
on_event interval w at_timer cancelled = some (record w { timer = idle; phase = returned })
on_event interval w _ _ = none

unfoldable pub run_from : {h : HistLibrary} → ℤ → Worker h → List Event → Option (Worker h)
unfolding on_event
run_from interval w [] = some w
run_from interval w (e ∷ es) = do w' ← on_event interval w w.phase e; run_from interval w' es

unfoldable pub run : (h : HistLibrary) → ℤ → List Event → Option (Worker h)
unfolding run_from new_worker
run h interval es = run_from interval (new_worker h) es
