-- ===== src/Metrics/Aggregator/Seconds.antt =====
-- The request counters over a whole run of the aggregator.
use cdnnow_test_golang.Shared.{
  ℕ, ◌≡◌, ◌≢◌, refl, sym, ap, ◌∙◌, Bool, true, false, Bool-cases, Option, some, List, [], ◌∷◌, ◌++◌,
  inl, inr, replicate, if◌then◌else◌, subst,
}
use mathlib.Core.List.{foldl, foldl-append}
use cdnnow_test_golang.Deque.Valid.{contents}
use cdnnow_test_golang.Deque.Refine.{new_deque_from_lem}
use cdnnow_test_golang.Pools.{BatchPool, Slice}
use cdnnow_test_golang.Calculators.Dual.{Sample}
use cdnnow_test_golang.Calculators.Server.{Outcome, accepted, blocked, panicked}
use cdnnow_test_golang.Metrics.Kinds.{RequestKind, same_request}
use cdnnow_test_golang.Metrics.Aggregator.{
  Time, Histograms, DurationsMsg, Aggregator, hist_buckets, rotate, make_snapshot, invalidate,
}
use cdnnow_test_golang.Metrics.Aggregator.Loop.{
  tick, count_requests, on_tick, on_sample, on_samples, on_durations,
}
use cdnnow_test_golang.Metrics.Aggregator.Client.{
  Action, counts, reads, serves, new_aggregator, Runs, start, next,
}
use cdnnow_test_golang.Metrics.Aggregator.Windows.{
  Tally, tally, window, Shows, Counts, rotate-Counts,
}
use cdnnow_test_golang.Metrics.Aggregator.Steps.{
  Effect, quiet, counted, kept, remade, ticked, act-Effect,
}

-- The tally of one kind after some actions.
unfoldable pub tally_of : RequestKind → List Action → Tally
tally_of k xs = foldl (tally k) (record { seconds = []; current = 0 }) xs

pub tally_of-snoc :
    (k : RequestKind) (xs : List Action) (x : Action)
    → tally_of k (xs ++ x ∷ []) ≡ tally k (tally_of k xs) x
unfolding tally_of
tally_of-snoc k xs x = foldl-append (tally k) _ xs (x ∷ [])

counted-seconds :
    (k j : RequestKind) (n : ℕ) (t : Tally) → (tally k t (counts j n)).seconds ≡ t.seconds
unfolding tally
counted-seconds k j n t = elim (Bool-cases (same_request k j)) [
  | inl b ↦ rw b refl
  | inr b ↦ rw b refl
]

module _ {h : Histograms} where
  retally :
      {a : Aggregator h} {t u : RequestKind → Tally}
      → ((k : RequestKind) → t k ≡ u k)
      → Counts a t
      → Counts a u
  retally {a} same c = record {
    shown = λ k. subst (λ (t : Tally). Shows (a.reqs k) t.seconds) (same k) (c.shown k);
    counted = λ k. c.counted k ∙ ap (λ (t : Tally). t.current) (same k);
  }

  on_tick-Counts :
      (a c : Aggregator h) (t : RequestKind → Tally)
      → Counts a t
      → rotate a ≡ some c
      → Counts c (λ k. tally k (t k) (serves tick))
  on_tick-Counts a c t i r =
      let (d, e, _, j) = rotate-Counts a t i in
      let same : d ≡ c = cc in subst (λ z. Counts z (λ k. tally k (t k) (serves tick))) same j

  counted_lem :
      (a : Aggregator h) (k j : RequestKind) (n : ℕ) (t : Tally)
      → a.cnts k ≡ t.current
      → (count_requests a j n).cnts k ≡ (tally k t (counts j n)).current
  unfolding count_requests tally
  counted_lem a k j n t e = elim (Bool-cases (same_request k j)) [
    | inl b ↦ rw (b, e) refl
    | inr b ↦ rw (b, e) refl
  ]

  reads-Counts :
      (a : Aggregator h) (now made : Time) (t : RequestKind → Tally)
      → Counts a t
      → Counts a (λ k. tally k (t k) (reads now made))
  unfolding tally
  reads-Counts a now made t i = i

  Effect-Counts :
      (a b : Aggregator h) (x : Action) (t : RequestKind → Tally)
      → Counts a t
      → Effect a b x
      → Counts b (λ k. tally k (t k) x)
  unfolding count_requests make_snapshot
  Effect-Counts a b x t i (quiet _ same q) =
      retally (λ k. sym (same k (t k)))
        (record {
          shown = λ k. rw q.reqs_same (i.shown k);
          counted = λ k. rw q.cnts_same (i.counted k);
        })
  Effect-Counts a b _ t i (counted j n e) = rw e (record {
    shown = λ k. rw (counted-seconds k j n (t k)) (i.shown k);
    counted = λ k. counted_lem a k j n (t k) (i.counted k);
  })
  Effect-Counts a b _ t i (kept now made e) = rw e (reads-Counts a now made t i)
  Effect-Counts a b _ t i (remade now made e) = rw e (
      reads-Counts (make_snapshot a made) now made t
        (record { shown = i.shown; counted = i.counted }))
  Effect-Counts a b _ t i (ticked c r e) =
      let j = on_tick-Counts a c t i r in rw e (record { shown = j.shown; counted = j.counted })

  on_tick-accepted :
      (a : Aggregator h) (t : RequestKind → Tally)
      → Counts a t
      → (b : Aggregator h) × (on_tick a ≡ accepted b)
  unfolding on_tick
  on_tick-accepted a t i =
      let (c, e, _, _) = rotate-Counts a t i in (invalidate c, rw (e, on_tick) refl)

  while_done : (d : Bool) (o : Outcome (Aggregator h)) → d ≡ false → (if d then blocked else o) ≡ o
  while_done d o e = rw e refl

  panic_running :
      (d : Bool) (o : Outcome (Aggregator h)) → (if d then blocked else o) ≡ panicked → o ≡ panicked
  panic_running true o e = cc
  panic_running false o e = e

  on_sample-returns : (a : Aggregator h) (buf : List Sample) → on_sample a buf ≢ panicked
  unfolding on_sample
  on_sample-returns a [] bad = cc
  on_sample-returns a (x ∷ rest) bad = cc

  on_samples-returns : (a : Aggregator h) (buf : List (Slice Sample)) → on_samples a buf ≢ panicked
  unfolding on_samples
  on_samples-returns a [] bad = cc
  on_samples-returns a (x ∷ rest) bad = cc

  on_durations-returns :
      (a : Aggregator h) (buf : List DurationsMsg) → on_durations a buf ≢ panicked
  unfolding on_durations
  on_durations-returns a [] bad = cc
  on_durations-returns a (x ∷ rest) bad = cc

module _ {h : Histograms} (queue_size : ℕ) (p q : Option BatchPool) where
  new-Counts : Counts (new_aggregator h queue_size p q) (λ k. tally_of k [])
  unfolding new_aggregator tally_of
  new-Counts = record {
    shown = λ k. record {
      valid = (new_deque_from_lem 0 (replicate hist_buckets 0)).0;
      held = (new_deque_from_lem 0 (replicate hist_buckets 0)).1;
    };
    counted = λ k. refl;
  }

  pub Runs-Counts :
      {xs : List Action} {a : Aggregator h}
      → Runs (new_aggregator h queue_size p q) xs a
      → Counts a (λ k. tally_of k xs)
  Runs-Counts start = new-Counts
  Runs-Counts (next {b} {c} {xs} x runs e) =
      retally (λ k. sym (tally_of-snoc k xs x))
        (Effect-Counts b c x (λ k. tally_of k xs) (Runs-Counts runs) (act-Effect b c x e))

  -- Whatever the clients and the goroutine have done, each request counter shows the counts of the
  -- last sixty seconds that have ended, oldest first, zeros before the start, and counts the
  -- current second.
  pub windows_refine :
      {xs : List Action} {a : Aggregator h}
      → Runs (new_aggregator h queue_size p q) xs a
      → (k : RequestKind)
      → (contents 0 (a.reqs k) ≡ window (tally_of k xs).seconds)
        × (a.cnts k ≡ (tally_of k xs).current)
  windows_refine runs k = (((Runs-Counts runs).shown k).held, (Runs-Counts runs).counted k)
