-- ===== src/Calculators/Async.antt =====
-- `Async` and `asyncSingle` of internal/calculators/calculators.go: the goroutine of `Server`, over
-- both running values and over one.
pub mod Consistent
use cdnnow_test_golang.Shared.{
  ℕ, Bool, true, false, Option, none, some, List, [], ◌∷◌, ◌==◌, if◌then◌else◌,
}
use cdnnow_test_golang.Operators.{Int64, Op, apply}
use cdnnow_test_golang.Pools.{BatchPool}
use cdnnow_test_golang.Calculators.Recorder.{Recorder}
use cdnnow_test_golang.Calculators.Dual.{Values, Duration, Sample, DualState, calculate}
use cdnnow_test_golang.Calculators.Server.{Server, Chan, Step, Runs}

abbrev pub default_batch_size : ℕ
default_batch_size = 1024

abbrev pub Async : Type 0
Async = Server DualState Sample

-- The first two fields of `asyncSingle`.
pub record SingleState : Type 0 where
  pub op : Op
  pub val : Int64

abbrev pub AsyncSingle : Type 0
AsyncSingle = Server SingleState Duration

-- `batchSize` of both constructors.
unfoldable pub batch_size_of : Option BatchPool → ℕ
batch_size_of none = default_batch_size
batch_size_of (some p) = p.batch_size

unfoldable pub new_recorder : {S : Type 0} → Bool → Option BatchPool → Recorder S
unfolding batch_size_of
new_recorder recording pool = record {
  recording = recording;
  batch_pool = pool;
  batch_size = batch_size_of pool;
  batch = none;
  armed = false;
  sent = [];
}

-- What both constructors make before they start the goroutine. A queue size is not negative:
-- `make` of a channel panics on a negative one.
unfoldable pub new_server : {V S : Type 0} → V → ℕ → Bool → Option BatchPool → Server V S
unfolding new_recorder
new_server vals queue_size recording pool = record {
  vals = vals;
  rec = new_recorder recording pool;
  num_ch = record { buf = []; capacity = queue_size; closed = false };
  ignore_overload = queue_size == 0;
  done = false;
}

abbrev pub zero_values : Values
zero_values = record { sum = 0; sub = 0 }

-- `NewAsync`, with the two operators.
unfoldable pub new_async : Op → Op → ℕ → Bool → Option BatchPool → Async
unfolding new_server
new_async add_op sub_op =
    new_server (record { add_op = add_op; sub_op = sub_op; vals = zero_values })

-- `newAsyncSingle`
unfoldable pub new_async_single : Op → ℕ → Bool → Option BatchPool → AsyncSingle
unfolding new_server
new_async_single op = new_server (record { op = op; val = 0 })

-- `asyncSingle.calculate`
unfoldable pub calculate_single : SingleState → Int64 → Duration → SingleState × Duration
calculate_single c num took = (record c { val = apply c.op c.val num }, took)

-- `Async.Values`: from the goroutine, or, once it has ended, from the field.
unfoldable pub values : Async → Values
values c = c.vals.vals

-- `asyncSingle.Value`
unfoldable pub value : AsyncSingle → Int64
value c = c.vals.val

-- The interleavings of each.
abbrev pub AsyncRuns : (ℕ → ℕ) → Async → List Int64 → List Sample → Async → Type 0
AsyncRuns regrow = Runs calculate regrow

abbrev pub SingleRuns : (ℕ → ℕ) → AsyncSingle → List Int64 → List Duration → AsyncSingle → Type 0
SingleRuns regrow = Runs calculate_single regrow
