-- ===== src/Calculators/Async/Consistent.antt =====
-- `Sum` and `Sub` of `Async` always belong to the same numbers, and `Stop` leaves none out.
use cdnnow_test_golang.Shared.{
  ℕ, ◌≡◌, ◌<◌, ◌≤◌, refl, sym, ap, ◌∙◌, Bool, true, false, Option, none, some, List, [], ◌∷◌, ◌++◌,
  arith, length, append-nil, ◌⊎◌,
}
use mathlib.Core.List.{foldl}
use cdnnow_test_golang.Operators.{Int64, Op, apply}
use cdnnow_test_golang.Pools.{BatchPool}
use cdnnow_test_golang.Calculators.Recorder.Batches.{samples_of, PoolFits}
use cdnnow_test_golang.Calculators.Dual.{Duration, Sample, DualState, calculate, totals}
use cdnnow_test_golang.Calculators.Server
use cdnnow_test_golang.Calculators.Server.{
  Server, Runs, Event, close, next, close_nums, accepted, panicked, overloaded, with_buf,
}
use cdnnow_test_golang.Calculators.Server.Drain.{turns, rounds, rounds-Runs, rounds_end}
use cdnnow_test_golang.Calculators.Server.Config.{Runs-config, Runs-recording}
use cdnnow_test_golang.Calculators.Server.Invariant.{IsNew, Inv, Runs-Inv, calculate_outcome}
use cdnnow_test_golang.Calculators.Async.{
  Async, AsyncSingle, SingleState, new_server, new_recorder, new_async, batch_size_of,
  calculate_single, values, value, AsyncRuns, SingleRuns, zero_values,
}

advance : DualState → Int64 → DualState
unfolding calculate
advance c num = (calculate c num (record { add_duration = 0; sub_duration = 0 })).0

foldl-advance :
    (c : DualState) (nums : List Int64)
    → (foldl advance c nums).vals ≡ totals c.add_op c.sub_op c.vals nums
unfolding advance
foldl-advance c [] = refl
foldl-advance c (n ∷ nums) = foldl-advance (advance c n) nums

advance_single : SingleState → Int64 → SingleState
unfolding calculate_single
advance_single c num = (calculate_single c num 0).0

foldl-advance_single :
    (c : SingleState) (nums : List Int64)
    → (foldl advance_single c nums).val ≡ foldl (apply c.op) c.val nums
unfolding advance_single
foldl-advance_single c [] = refl
foldl-advance_single c (n ∷ nums) = foldl-advance_single (advance_single c n) nums

-- What `new_batch_pool` guarantees of a pool.
abbrev pub PoolValid : Option BatchPool → Type 0
PoolValid pool = PoolFits (batch_size_of pool) pool

batch_size-pos : (pool : Option BatchPool) → PoolValid pool → 0 < batch_size_of pool
unfolding batch_size_of
batch_size-pos none h = omega arith
batch_size-pos (some p) h = h.0.positive

pub new_server-IsNew :
    {V S : Type 0} (v : V) (queue_size : ℕ) (recording : Bool) (pool : Option BatchPool)
    → PoolValid pool
    → IsNew (new_server {S = S} v queue_size recording pool)
unfolding new_server
new_server-IsNew v queue_size recording pool fits = record {
  empty = refl;
  opened = refl;
  running = refl;
  recorder = λ k. record {
    recording = k;
    positive = batch_size-pos pool fits;
    pool_fits = fits;
    batch_open = refl;
    sent_whole = tt;
    all_there = refl;
  };
}

module _ (f g : Op) (queue_size : ℕ) (recording : Bool) (pool : Option BatchPool)
    (fits : PoolValid pool) (regrow : ℕ → ℕ) {nums : List Int64} {log : List Sample} {t : Async}
    (runs : AsyncRuns regrow (new_async f g queue_size recording pool) nums log t) where
  inv : Inv advance (new_async f g queue_size recording pool).vals nums log t
  unfolding new_async advance calculate
  inv =
      Runs-Inv calculate regrow advance (λ v num took. refl)
        (new_server-IsNew _ queue_size recording pool fits) runs

  values-totals : values t ≡ totals f g zero_values inv.processed
  unfolding values new_async new_server
  values-totals = ap (λ (c : DualState). c.vals) inv.consistent ∙ foldl-advance _ inv.processed

  -- Whenever `Values` is called, in whatever interleaving of clients, timer and goroutine, `Sum`
  -- and `Sub` are those of the same numbers: a first part of the numbers that `Calculate` took in,
  -- with the rest of them, in order and at most `queue_size`, in the queue.
  pub values_consistent :
      (done waiting : List Int64) × (nums ≡ done ++ waiting)
      × (values t ≡ totals f g zero_values done)
      × (waiting ≡ t.num_ch.buf)
      × (length waiting ≤ t.num_ch.capacity)
  values_consistent = (inv.processed, t.num_ch.buf, inv.in_order, values-totals, refl, inv.in_queue)

  pub done-closed : t.done ≡ true → t.num_ch.closed ≡ true
  done-closed d = let (_, closed, _) = inv.finished d in closed

  pub values-ended : t.done ≡ true → values t ≡ totals f g zero_values nums
  values-ended d =
      let (b, _, _) = inv.finished d in
      values-totals
      ∙ ap (totals f g zero_values)
          (sym (inv.in_order ∙ ap (◌++◌ inv.processed) b ∙ append-nil inv.processed))

module _ (f g : Op) (queue_size : ℕ) (pool : Option BatchPool) (fits : PoolValid pool)
    (regrow : ℕ → ℕ) {nums : List Int64} {log : List Sample} {t : Async}
    (runs : AsyncRuns regrow (new_async f g queue_size true pool) nums log t) where
  -- When the goroutine has ended, `Values` accounts for every number that `Calculate` took in, in
  -- order, and every sample has been handed to `recordFn`, in order, one for each number.
  pub values_after_stop :
      t.done ≡ true
      → (values t ≡ totals f g zero_values nums)
        × (samples_of t.rec.sent ≡ log)
        × (length log ≡ length nums)
  unfolding new_async new_server new_recorder
  values_after_stop d =
      let i = inv f g queue_size true pool fits regrow runs in
      let (b, _, w) = i.finished d in
      let e : nums ≡ i.processed = i.in_order ∙ ap (◌++◌ i.processed) b ∙ append-nil _ in
      let recording : t.rec.recording ≡ true = Runs-recording calculate regrow runs in
      (
        values-ended f g queue_size true pool fits regrow runs d,
        w recording,
        i.one_sample_each ∙ ap length (sym e),
      )

-- `Stop`, called in any reachable state in which it was not called before, closes the channel, and
-- then the goroutine ends by its rounds alone, in whatever order its cases are served and whatever
-- the clock and the pool answer, once the case of a number has been served more often than numbers
-- waited; and in the end `Values` accounts for every number that was taken in.
pub stop_completes :
    (f g : Op) (queue_size : ℕ) (recording : Bool) (pool : Option BatchPool)
    → PoolValid pool
    → (regrow : ℕ → ℕ) {nums : List Int64} {log : List Sample} {t : Async}
    → AsyncRuns regrow (new_async f g queue_size recording pool) nums log t
    → t.num_ch.closed ≡ false
    → (u : Async) × (close_nums t ≡ accepted u)
      × ((es : List (Event Sample))
          → length t.num_ch.buf < turns es
          → ((rounds calculate regrow u es).done ≡ true)
            × (values (rounds calculate regrow u es) ≡ totals f g zero_values nums))
unfolding close_nums
stop_completes f g queue_size recording pool fits regrow {nums} {log} {t} r o =
    let u : Async = record t {
      num_ch = record { buf = t.num_ch.buf; capacity = t.num_ch.capacity; closed = true };
    } in
    let closes : close_nums t ≡ accepted u = rw o refl in
    (
      u,
      closes,
      λ es lt.
          let start : AsyncRuns regrow (new_async f g queue_size recording pool) nums log u =
            rw (← append-nil nums, ← append-nil log) (next r (close closes)) in
          let (new, q) = rounds-Runs calculate regrow es start in
          let ends = rounds_end calculate regrow es u refl lt in
          (ends, values-ended f g queue_size recording pool fits regrow q ends),
    )

-- With a queue of positive size `Calculate` never waits. It panics after `Stop`; else it takes the
-- number in if fewer than `queue_size` numbers wait, and reports the overload if that many do.
pub calculate_never_waits :
    (f g : Op) (queue_size : ℕ) (recording : Bool) (pool : Option BatchPool) (regrow : ℕ → ℕ)
    (num : Int64) {nums : List Int64} {log : List Sample} {t : Async}
    → 0 < queue_size
    → AsyncRuns regrow (new_async f g queue_size recording pool) nums log t
    → ((t.num_ch.closed ≡ true) × (Server.calculate t num ≡ panicked))
      ⊎ ((t.num_ch.closed ≡ false)
          × (length t.num_ch.buf < queue_size)
          × (Server.calculate t num ≡ accepted (with_buf t (t.num_ch.buf ++ num ∷ []))))
      ⊎ ((t.num_ch.closed ≡ false)
          × (queue_size ≤ length t.num_ch.buf)
          × (Server.calculate t num ≡ overloaded))
unfolding new_async new_server
calculate_never_waits f g queue_size recording pool regrow num {t = t} pos r =
    let (c, o) = Runs-config calculate regrow r in ground (arith, c, o, calculate_outcome t num)

module _ (regrow : ℕ → ℕ) {s t : AsyncSingle} (new : IsNew s) {nums : List Int64}
    {log : List Duration} (runs : SingleRuns regrow s nums log t) where
  inv_single : Inv advance_single s.vals nums log t
  unfolding advance_single calculate_single
  inv_single = Runs-Inv calculate_single regrow advance_single (λ v num took. refl) new runs

  -- `asyncSingle.Value` is what the operator makes of a first part of the numbers taken in, with
  -- the rest, in order, in the queue; at the end of the goroutine the queue is empty, and
  -- every sample has been handed over, if samples are recorded.
  pub value_consistent :
      (done : List Int64) × (nums ≡ done ++ t.num_ch.buf)
      × (value t ≡ foldl (apply s.vals.op) s.vals.val done)
      × (t.done ≡ true
          → (t.num_ch.buf ≡ []) × (t.rec.recording ≡ true → samples_of t.rec.sent ≡ log))
  unfolding value
  value_consistent = (
    inv_single.processed,
    inv_single.in_order,
    ap (λ (c : SingleState). c.val) inv_single.consistent
        ∙ foldl-advance_single s.vals inv_single.processed,
    λ d. ((inv_single.finished d).0, (inv_single.finished d).2),
  )

  pub value_after_end : t.done ≡ true → value t ≡ foldl (apply s.vals.op) s.vals.val nums
  value_after_end d =
      let (done, split, e, fin) = value_consistent in
      e
      ∙ ap (foldl (apply s.vals.op) s.vals.val)
          (sym (split ∙ ap (◌++◌ done) (fin d).0 ∙ append-nil done))
