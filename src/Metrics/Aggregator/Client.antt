-- ===== src/Metrics/Aggregator/Client.antt =====
-- The calls of the aggregator, and every sequence of them with the rounds of its goroutine.
use cdnnow_test_golang.Shared.{
  ℕ, true, false, none, Option, List, [], ◌∷◌, ◌++◌, ◌≡◌, replicate, if◌then◌else◌,
}
use cdnnow_test_golang.Deque.{new_deque_from}
use cdnnow_test_golang.Pools.{Slice, BatchPool}
use cdnnow_test_golang.Calculators.Dual.{Duration, Sample}
use cdnnow_test_golang.Calculators.Server.{Outcome, accepted, blocked, panicked}
use cdnnow_test_golang.Metrics.Kinds.{RequestKind, DurationKind}
use cdnnow_test_golang.Metrics.Overflow.{no_overflow}
use cdnnow_test_golang.Metrics.Aggregator.{
  Time, Histograms, Aggregator, hist_buckets, hist_min_value, hist_max_value, new_mailbox, send,
}
use cdnnow_test_golang.Metrics.Aggregator.Loop.{Event, serve, get_snapshot, count_requests}

-- `NewAggregator`. The `Version` and the histograms of the first snapshot are zero values.
unfoldable pub new_aggregator :
    (h : Histograms) → ℕ → Option BatchPool → Option BatchPool → Aggregator h
new_aggregator h queue_size samples_pool durations_pool = record {
  hists = λ k. h.new_windowed hist_buckets hist_min_value hist_max_value 3;
  reqs = λ k. new_deque_from (replicate hist_buckets 0);
  cnts = λ k. 0;
  over = no_overflow;
  overflow_log = [];
  sample_ch = new_mailbox queue_size;
  samples_ch = new_mailbox queue_size;
  samples_pool = samples_pool;
  durations_ch = new_mailbox queue_size;
  durations_pool = durations_pool;
  snap = record {
    version = 0;
    histograms = λ k. none;
    requests = λ k. replicate hist_buckets 0;
    deadline = 0;
    valid = false;
  };
  stopping = false;
  done = false;
}

module _ {h : Histograms} where
  unfoldable pub record_sample : Aggregator h → Sample → Outcome (Aggregator h)
  record_sample a s = elim (send a.sample_ch s) [
    | accepted c ↦ accepted (record a { sample_ch = c })
    | panicked ↦ panicked
    | _ ↦ blocked
  ]

  unfoldable pub record_samples : Aggregator h → Slice Sample → Outcome (Aggregator h)
  record_samples a batch = elim (send a.samples_ch batch) [
    | accepted c ↦ accepted (record a { samples_ch = c })
    | panicked ↦ panicked
    | _ ↦ blocked
  ]

  unfoldable pub record_durations :
      Aggregator h → DurationKind → Slice Duration → Outcome (Aggregator h)
  record_durations a k vals = elim (send a.durations_ch (record { kind = k; vals = vals })) [
    | accepted c ↦ accepted (record a { durations_ch = c })
    | panicked ↦ panicked
    | _ ↦ blocked
  ]

  -- The first line of `Stop`; the second waits for `done`.
  unfoldable pub stop : Aggregator h → Outcome (Aggregator h)
  stop a = if a.stopping then panicked else accepted (record a { stopping = true })

pub data Action : Type 0 where
  sends_sample : Sample → Action
  sends_samples : Slice Sample → Action
  sends_durations : DurationKind → Slice Duration → Action
  counts : RequestKind → ℕ → Action
  reads : (now : Time) → (made : Time) → Action
  stops : Action
  serves : Event → Action

module _ {h : Histograms} where
  unfoldable pub act : Aggregator h → Action → Outcome (Aggregator h)
  act a (sends_sample s) = record_sample a s
  act a (sends_samples batch) = record_samples a batch
  act a (sends_durations k vals) = record_durations a k vals
  act a (counts k n) = accepted (count_requests a k n)
  act a (reads now made) = accepted (get_snapshot a now made)
  act a stops = stop a
  act a (serves e) = serve a e

  -- Any interleaving of the clients and the goroutine.
  pub data Runs (a : Aggregator h) : List Action → Aggregator h → Type 0 where
    start : Runs a [] a
    next :
        {b c : Aggregator h} {xs : List Action} (x : Action)
        → Runs a xs b
        → act b x ≡ accepted c
        → Runs a (xs ++ x ∷ []) c
