-- ===== src/Metrics/Aggregator.antt =====
-- `Aggregator` of internal/metrics/aggregator.go: its goroutine, its channels and its snapshot.
-- The histogram library is a parameter (`Histograms`). The three message channels are their buffers;
-- a `snapCh` rendezvous is one action. A time is in nanoseconds, and the zero time is 0.
pub mod Loop
pub mod Client
pub mod Windows
pub mod Steps
pub mod Seconds
pub mod Snapshots
use cdnnow_test_golang.Shared.{
  ℕ, ◌+◌, ◌*◌, ◌%◌, ◌^◌, Bool, true, false, not, ◌&&◌, Option, none, some, List, [], ◌∷◌, ◌++◌, ltb,
  ◌≡◌, if◌then◌else◌, ◌>>=◌, length, replicate,
}
use cdnnow_test_golang.Deque.{Deque, pop_front, push_back, to_slice, new_deque_from}
use cdnnow_test_golang.Pools.{Slice, BatchPool, put}
use cdnnow_test_golang.Operators.{modulus}
use cdnnow_test_golang.Calculators.Dual.{Duration, Sample}
use cdnnow_test_golang.Calculators.Server.{Outcome, accepted, blocked, panicked}
use cdnnow_test_golang.Metrics.Kinds.{
  RequestKind, DurationKind, add, sub, same_request, same_duration, for_requests,
}
use cdnnow_test_golang.Metrics.Overflow.{HistOverflow, no_overflow, over_add, has_overflow}

abbrev pub Time : Type 0
Time = ℕ

-- What the aggregator uses of the histogram library. `record_value` is `Current.RecordValue`, and
-- `none` its error, on a value out of range, which records nothing. `merge` is of all windows.
pub record Histograms : Type 1 where
  pub Windowed : Type 0
  pub Merged : Type 0
  pub new_windowed : (buckets : ℕ) → (lowest : ℕ) → (highest : ℕ) → (digits : ℕ) → Windowed
  pub record_value : Windowed → Duration → Option Windowed
  pub rotate_windowed : Windowed → Windowed
  pub merge : Windowed → Merged

abbrev pub hist_min_value : ℕ
hist_min_value = 1000

abbrev pub hist_max_value : ℕ
hist_max_value = 100 * 1000000

abbrev pub hist_buckets : ℕ
hist_buckets = 60

abbrev pub snapshot_ttl : ℕ
snapshot_ttl = 10 * 1000000

pub record Snapshot (h : Histograms) : Type 0 where
  pub version : ℕ
  pub histograms : DurationKind → Option h.Merged
  pub requests : RequestKind → List ℕ
  pub deadline : Time
  pub valid : Bool

pub record DurationsMsg : Type 0 where
  pub kind : DurationKind
  pub vals : Slice Duration

-- A channel of messages.
pub record Mailbox (M : Type 0) : Type 0 where
  pub buf : List M
  pub capacity : ℕ
  pub closed : Bool

-- `overflow_log` is what `rotate` has printed, oldest first; `stopping` says that `stop` is closed.
pub record Aggregator (h : Histograms) : Type 0 where
  pub hists : DurationKind → h.Windowed
  pub reqs : RequestKind → Deque ℕ
  pub cnts : RequestKind → ℕ
  pub over : HistOverflow
  pub overflow_log : List HistOverflow
  pub sample_ch : Mailbox Sample
  pub samples_ch : Mailbox (Slice Sample)
  pub samples_pool : Option BatchPool
  pub durations_ch : Mailbox DurationsMsg
  pub durations_pool : Option BatchPool
  pub snap : Snapshot h
  pub stopping : Bool
  pub done : Bool

abbrev pub new_mailbox : {M : Type 0} → ℕ → Mailbox M
new_mailbox n = record { buf = []; capacity = n; closed = false }

abbrev pub closed_mailbox : {M : Type 0} → Mailbox M → Mailbox M
closed_mailbox c = record c { closed = true }

abbrev pub with_rest : {M : Type 0} → Mailbox M → List M → Mailbox M
with_rest c rest = record c { buf = rest }

-- A send: it panics on a closed channel, and waits for room.
unfoldable pub send : {M : Type 0} → Mailbox M → M → Outcome (Mailbox M)
send c x =
    if c.closed
    then panicked
    else (if ltb (length c.buf) c.capacity
        then accepted (record c { buf = c.buf ++ x ∷ [] })
        else blocked)

-- `if pool != nil { pool.Put(batch) }`
abbrev pub put_back : {M : Type 0} → Option BatchPool → Slice M → Option BatchPool
put_back none batch = none
put_back (some p) batch = some (put p batch)

-- One kind's lines of the loop in `rotate`.
unfoldable pub rotate_window : Deque ℕ → ℕ → Option (Deque ℕ)
rotate_window q n = do (old, q') ← pop_front 0 q; push_back 0 q' n

module _ {h : Histograms} where
  abbrev pub invalid : Snapshot h → Snapshot h
  invalid s = record s { valid = false }

  abbrev pub invalidate : Aggregator h → Aggregator h
  invalidate a = record a { snap = invalid a.snap }

  unfoldable pub report_overflow : Aggregator h → Aggregator h
  report_overflow a =
      if has_overflow a.over
      then record a { over = no_overflow; overflow_log = a.overflow_log ++ a.over ∷ [] }
      else a

  unfoldable pub rotate : Aggregator h → Option (Aggregator h)
  unfolding report_overflow
  rotate a = do
    let b = report_overflow a
    reqs ← for_requests (λ k. rotate_window (b.reqs k) (b.cnts k))
    some (record b { reqs = reqs; cnts = λ k. 0; hists = λ k. h.rotate_windowed (b.hists k) })

  unfoldable pub record_duration : Aggregator h → DurationKind → Duration → Aggregator h
  record_duration a k d = elim (h.record_value (a.hists k) d) [
    | none ↦ record a { over = over_add a.over d }
    | some w ↦ record a { hists = λ j. if same_duration j k then w else a.hists j }
  ]

  unfoldable pub record_durations : Aggregator h → DurationKind → List Duration → Aggregator h
  record_durations a k [] = a
  record_durations a k (d ∷ ds) = record_durations (record_duration a k d) k ds

  unfoldable pub record_both : Aggregator h → Sample → Aggregator h
  record_both a s = record_duration (record_duration a add s.add_duration) sub s.sub_duration

  unfoldable pub record_samples : Aggregator h → List Sample → Aggregator h
  record_samples a [] = a
  record_samples a (s ∷ batch) = record_samples (record_both a s) batch

  unfoldable pub close_channels : Aggregator h → Aggregator h
  close_channels a = record a {
    sample_ch = closed_mailbox a.sample_ch;
    samples_ch = closed_mailbox a.samples_ch;
    durations_ch = closed_mailbox a.durations_ch;
    done = true;
  }

  -- The time is that of the call of `time.Now`.
  unfoldable pub make_snapshot : Aggregator h → Time → Aggregator h
  make_snapshot a now = record a {
    snap = record {
      version = (a.snap.version + 1) % modulus;
      histograms = λ k. some (h.merge (a.hists k));
      requests = λ k. to_slice 0 (a.reqs k) (a.snap.requests k);
      deadline = now + snapshot_ttl;
      valid = true;
    };
  }
