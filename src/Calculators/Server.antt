-- ===== src/Calculators/Server.antt =====
-- The goroutine of `Async` and of `asyncSingle` (internal/calculators/calculators.go): the two have
-- the same `Calculate`, `Stop` and `serve`, over another state `V` and another sample `S`.
-- `compute` is their `calculate`; `E` is what the clock answers to it.
-- A channel is its buffer, its capacity and whether it is closed. A send that would wait is
-- `blocked`; it is tried again in a later state.
pub mod Invariant
pub mod Drain
pub mod Config
use cdnnow_test_golang.Shared.{
  ℕ, zero, suc, Bool, true, false, not, ◌||◌, ◌&&◌, ◌≡◌, Option, none, some, List, [], ◌∷◌, ◌++◌,
  length, ltb, if◌then◌else◌,
}
use cdnnow_test_golang.Operators.{Int64}
use cdnnow_test_golang.Calculators.Recorder.{Recorder, record_sample, flush}

pub record Chan : Type 0 where
  pub buf : List Int64
  pub capacity : ℕ
  pub closed : Bool

pub record Server (V S : Type 0) : Type 0 where
  pub vals : V
  pub rec : Recorder S
  pub num_ch : Chan
  pub ignore_overload : Bool
  pub done : Bool

-- What a client sees of a call.
pub data Outcome (A : Type 0) : Type 0 where
  accepted : A → Outcome A
  overloaded blocked panicked : Outcome A

module _ {V S : Type 0} where
  abbrev pub with_buf : Server V S → List Int64 → Server V S
  with_buf s xs = record s {
    num_ch = record { buf = xs; capacity = s.num_ch.capacity; closed = s.num_ch.closed };
  }

  abbrev pub has_room : Server V S → Bool
  has_room s = ltb (length s.num_ch.buf) s.num_ch.capacity

  -- `Calculate`. A send on a closed channel panics, in a `select` too. An unbuffered channel has no
  -- room: a send on it is a `hand_over` of the step relation below.
  unfoldable pub calculate : Server V S → Int64 → Outcome (Server V S)
  calculate s num =
      if s.num_ch.closed
      then panicked
      else (if has_room s
          then accepted (with_buf s (s.num_ch.buf ++ num ∷ []))
          else (if s.ignore_overload then blocked else overloaded))

  -- The first line of `Stop`: `close` of a closed channel panics. The second waits for `done`.
  unfoldable pub close_nums : Server V S → Outcome (Server V S)
  close_nums s =
      if s.num_ch.closed
      then panicked
      else accepted (record s {
        num_ch = record { buf = s.num_ch.buf; capacity = s.num_ch.capacity; closed = true };
      })

  -- The deferred calls of `serve`.
  unfoldable pub leave : Server V S → Server V S
  leave s = record s { rec = flush s.rec; done = true }

-- The cases of the `select` in `serve`, with what the environment adds to them.
pub data Event (E : Type 0) : Type 0 where
  timer_fires value_read : Event E
  number_arrives : E → Option ℕ → Event E

module _ {V S E : Type 0} (compute : V → Int64 → E → V × S) (regrow : ℕ → ℕ) where
  -- `sample := c.calculate(num); c.record(sample)`
  unfoldable pub process : Server V S → Int64 → E → Option ℕ → Server V S × S
  process s num took choice =
      let (vals, sample) = compute s.vals num took in
      (record s { vals = vals; rec = record_sample regrow s.rec sample choice }, sample)

  -- `case num, ok := <-c.numCh`, with the sample that was recorded. An open empty channel is not
  -- ready.
  unfoldable pub receive : Server V S → List Int64 → E → Option ℕ → Option (Server V S × List S)
  unfolding process leave
  receive s [] took choice = if s.num_ch.closed then some (leave s, []) else none
  receive s (num ∷ rest) took choice =
      let (s', sample) = process (with_buf s rest) num took choice in some (s', sample ∷ [])

  -- One round of the loop in `serve`; `none` if the case is not ready.
  unfoldable pub serve : Server V S → Event E → Option (Server V S × List S)
  unfolding receive
  serve s timer_fires =
      if not s.done && s.rec.armed then some (record s { rec = flush s.rec }, []) else none
  serve s value_read = if s.done then none else some (s, [])
  serve s (number_arrives took choice) = if s.done then none else receive s s.num_ch.buf took choice

  -- A step takes in the numbers of one list and records the samples of another.
  pub data Step : Server V S → List Int64 → List S → Server V S → Type 0 where
    send : {s t : Server V S} (num : Int64) → calculate s num ≡ accepted t → Step s (num ∷ []) [] t
    hand_over :
        {s : Server V S} (num : Int64) (took : E) (choice : Option ℕ)
        → s.done ≡ false
        → s.num_ch.closed ≡ false
        → s.num_ch.buf ≡ []
        → Step s (num ∷ []) ((process s num took choice).1 ∷ []) (process s num took choice).0
    round :
        {s t : Server V S} {log : List S} (e : Event E)
        → serve s e ≡ some (t, log)
        → Step s [] log t
    close : {s t : Server V S} → close_nums s ≡ accepted t → Step s [] [] t

  -- Any interleaving of clients and goroutine, with all that was taken in and recorded.
  pub data Runs (s : Server V S) : List Int64 → List S → Server V S → Type 0 where
    start : Runs s [] [] s
    next :
        {t u : Server V S} {nums more : List Int64} {log new : List S}
        → Runs s nums log t
        → Step t more new u
        → Runs s (nums ++ more) (log ++ new) u
