-- ===== src/Metrics/Aggregator/Loop.antt =====
-- `serve`, the goroutine of the aggregator, and `getSnapshot`.
use cdnnow_test_golang.Shared.{
  ℕ, ◌+◌, ◌%◌, not, ◌&&◌, none, some, List, [], ◌∷◌, ltb, if◌then◌else◌,
}
use cdnnow_test_golang.Pools.{Slice}
use cdnnow_test_golang.Operators.{modulus}
use cdnnow_test_golang.Calculators.Dual.{Sample}
use cdnnow_test_golang.Calculators.Server.{Outcome, accepted, blocked, panicked}
use cdnnow_test_golang.Metrics.Kinds.{RequestKind, same_request}
use cdnnow_test_golang.Metrics.Aggregator.{
  Time, Histograms, Aggregator, DurationsMsg, with_rest, put_back, invalidate, rotate, record_both,
  record_samples, record_durations, close_channels, make_snapshot,
}

-- The cases of the `select` in `serve`, less the request for a snapshot.
pub data Event : Type 0 where
  tick sample_arrives samples_arrive durations_arrive stop_read : Event

module _ {h : Histograms} where
  unfoldable pub on_tick : Aggregator h → Outcome (Aggregator h)
  on_tick a = elim (rotate a) [ none ↦ panicked | some b ↦ accepted (invalidate b) ]

  unfoldable pub on_sample : Aggregator h → List Sample → Outcome (Aggregator h)
  on_sample a [] = blocked
  on_sample a (s ∷ rest) =
      let b = record a { sample_ch = with_rest a.sample_ch rest } in
      accepted (invalidate (record_both b s))

  unfoldable pub on_samples : Aggregator h → List (Slice Sample) → Outcome (Aggregator h)
  on_samples a [] = blocked
  on_samples a (batch ∷ rest) =
      let b = record a { samples_ch = with_rest a.samples_ch rest } in
      let c = record_samples b batch.elems in
      accepted (invalidate (record c { samples_pool = put_back c.samples_pool batch }))

  unfoldable pub on_durations : Aggregator h → List DurationsMsg → Outcome (Aggregator h)
  on_durations a [] = blocked
  on_durations a (msg ∷ rest) =
      let b = record a { durations_ch = with_rest a.durations_ch rest } in
      let c = record_durations b msg.kind msg.vals.elems in
      accepted (invalidate (record c { durations_pool = put_back c.durations_pool msg.vals }))

  -- One round of the loop in `serve`; `blocked` if the case is not ready.
  unfoldable pub serve : Aggregator h → Event → Outcome (Aggregator h)
  unfolding on_tick on_sample on_samples on_durations close_channels
  serve a tick = if a.done then blocked else on_tick a
  serve a sample_arrives = if a.done then blocked else on_sample a a.sample_ch.buf
  serve a samples_arrive = if a.done then blocked else on_samples a a.samples_ch.buf
  serve a durations_arrive = if a.done then blocked else on_durations a a.durations_ch.buf
  serve a stop_read = if not a.done && a.stopping then accepted (close_channels a) else blocked

  -- `case <-a.snapCh`: `now` is read first, and `made` by `makeSnapshot`.
  unfoldable pub serve_snapshot : Aggregator h → Time → Time → Aggregator h
  unfolding make_snapshot
  serve_snapshot a now made =
      if not a.snap.valid && not (ltb now a.snap.deadline) then make_snapshot a made else a

  -- `getSnapshot`, which then calls `fn` on the snapshot; callers come one at a time (`snapMu`).
  unfoldable pub get_snapshot : Aggregator h → Time → Time → Aggregator h
  unfolding serve_snapshot
  get_snapshot a now made =
      if a.done
      then (if not a.snap.valid then make_snapshot a made else a)
      else serve_snapshot a now made

  unfoldable pub count_requests : Aggregator h → RequestKind → ℕ → Aggregator h
  count_requests a k n = record a {
    cnts = λ j. if same_request j k then (a.cnts j + n) % modulus else a.cnts j;
  }
