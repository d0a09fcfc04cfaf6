-- ===== src/Metrics/Aggregator/Snapshots.antt =====
-- What a reader of the aggregator's snapshot may rely on.
use cdnnow_test_golang.Shared.{
  ℕ, ◌≡◌, ◌<◌, refl, sym, ap, subst, ◌∙◌, true, false, Option, some, List, ◌⊎◌, inl, inr, ltb→lt,
  ◌+◌, ◌%◌,
}
use cdnnow_test_golang.Deque.Valid.{IsValid, contents}
use cdnnow_test_golang.Deque.Access.{to_slice_lem}
use cdnnow_test_golang.Operators.{modulus}
use cdnnow_test_golang.Pools.{BatchPool}
use cdnnow_test_golang.Calculators.Server.{accepted}
use cdnnow_test_golang.Metrics.Kinds.{RequestKind, DurationKind}
use cdnnow_test_golang.Metrics.Aggregator.{
  Time, Histograms, Aggregator, Snapshot, invalid, rotate, make_snapshot,
}
use cdnnow_test_golang.Metrics.Aggregator.Loop.{get_snapshot, count_requests}
use cdnnow_test_golang.Metrics.Aggregator.Client.{Action, act, new_aggregator, Runs, start, next}
use cdnnow_test_golang.Metrics.Aggregator.Windows.{Tally, Counts, rotate-Counts}
use cdnnow_test_golang.Metrics.Aggregator.Steps.{
  Effect, quiet, counted, kept, remade, ticked, act-Effect, get_snapshot_cases,
}
use cdnnow_test_golang.Metrics.Aggregator.Seconds.{Runs-Counts}

module _ {h : Histograms} where
  -- The snapshot shows the windows as they are now.
  pub record Current (a : Aggregator h) : Type 0 where
    pub requests_now : (k : RequestKind) → a.snap.requests k ≡ contents 0 (a.reqs k)
    pub histograms_now : (k : DurationKind) → a.snap.histograms k ≡ some (h.merge (a.hists k))

  -- What a reader sees stays the same, or is made anew.
  pub record Stable (a b : Aggregator h) : Type 0 where
    pub version_same : b.snap.version ≡ a.snap.version
    pub requests_same : b.snap.requests ≡ a.snap.requests
    pub histograms_same : b.snap.histograms ≡ a.snap.histograms
    pub deadline_same : b.snap.deadline ≡ a.snap.deadline
    pub not_revalidated : b.snap.valid ≡ true → a.snap.valid ≡ true

  make_snapshot-Current :
      (a : Aggregator h) (now : Time)
      → ((k : RequestKind) → IsValid (a.reqs k))
      → Current (make_snapshot a now)
  unfolding make_snapshot
  make_snapshot-Current a now v = record {
    requests_now = λ k. to_slice_lem 0 (a.reqs k) (a.snap.requests k) (v k);
    histograms_now = λ k. refl;
  }

  same_Current :
      (a b : Aggregator h)
      → b.reqs ≡ a.reqs
      → b.snap ≡ a.snap
      → b.hists ≡ a.hists
      → Current a
      → Current b
  same_Current a b r s hs c = record {
    requests_now = λ k. rw (r, s) (c.requests_now k);
    histograms_now = λ k. rw (s, hs) (c.histograms_now k);
  }

  Effect-Current :
      (a b : Aggregator h) (x : Action)
      → ((k : RequestKind) → IsValid (a.reqs k))
      → (a.snap.valid ≡ true → Current a)
      → Effect a b x
      → b.snap.valid ≡ true
      → Current b
  unfolding count_requests
  Effect-Current a b x v i (quiet _ _ q) ok = elim q.snap_kept [
    | inl (s, hs) ↦
        same_Current a b q.reqs_same s hs (i (sym (ap (λ (z : Snapshot h). z.valid) s) ∙ ok))
    | inr s ↦
        let stale : b.snap.valid ≡ false = ap (λ (z : Snapshot h). z.valid) s in
        absurd (cc (stale, ok))
  ]
  Effect-Current a b _ v i (counted k n e) ok =
      let c = i (sym (ap (λ (z : Aggregator h). z.snap.valid) e) ∙ ok) in
      rw e (record { requests_now = c.requests_now; histograms_now = c.histograms_now })
  Effect-Current a b _ v i (kept now made e) ok =
      rw e (i (sym (ap (λ (z : Aggregator h). z.snap.valid) e) ∙ ok))
  Effect-Current a b _ v i (remade now made e) ok = rw e (make_snapshot-Current a made v)
  Effect-Current a b _ v i (ticked c r e) ok =
      let stale : b.snap.valid ≡ false = ap (λ (z : Aggregator h). z.snap.valid) e in
      absurd (cc (stale, ok))

  same_Stable : (a b : Aggregator h) → b.snap ≡ a.snap → Stable a b
  same_Stable a b e = record {
    version_same = ap (λ (z : Snapshot h). z.version) e;
    requests_same = ap (λ (z : Snapshot h). z.requests) e;
    histograms_same = ap (λ (z : Snapshot h). z.histograms) e;
    deadline_same = ap (λ (z : Snapshot h). z.deadline) e;
    not_revalidated = λ v. sym (ap (λ (z : Snapshot h). z.valid) e) ∙ v;
  }

  stale_Stable : (a b : Aggregator h) → b.snap ≡ invalid a.snap → Stable a b
  stale_Stable a b e = record {
    version_same = ap (λ (z : Snapshot h). z.version) e;
    requests_same = ap (λ (z : Snapshot h). z.requests) e;
    histograms_same = ap (λ (z : Snapshot h). z.histograms) e;
    deadline_same = ap (λ (z : Snapshot h). z.deadline) e;
    not_revalidated = λ v. absurd (cc (v, ap (λ (z : Snapshot h). z.valid) e));
  }

  rotate-snap :
      (a c : Aggregator h) (t : RequestKind → Tally)
      → Counts a t
      → rotate a ≡ some c
      → c.snap ≡ a.snap
  rotate-snap a c t i r =
      let (d, e, s, _) = rotate-Counts a t i in
      let same : d ≡ c = cc in sym (ap (λ (z : Aggregator h). z.snap) same) ∙ s

  Effect-Stable :
      (a b : Aggregator h) (x : Action) (t : RequestKind → Tally)
      → Counts a t
      → Effect a b x
      → Stable a b ⊎ ((b.snap.version ≡ (a.snap.version + 1) % modulus) × Current b)
  unfolding count_requests make_snapshot
  Effect-Stable a b x t i (quiet _ _ q) = elim q.snap_kept [
    | inl (s, _) ↦ inl (same_Stable a b s)
    | inr s ↦ inl (stale_Stable a b s)
  ]
  Effect-Stable a b _ t i (counted k n e) =
      inl (same_Stable a b (ap (λ (z : Aggregator h). z.snap) e))
  Effect-Stable a b _ t i (kept now made e) =
      inl (same_Stable a b (ap (λ (z : Aggregator h). z.snap) e))
  Effect-Stable a b _ t i (remade now made e) = inr (
    ap (λ (z : Aggregator h). z.snap.version) e,
    subst Current (sym e) (make_snapshot-Current a made (λ k. (i.shown k).valid)),
  )
  Effect-Stable a b _ t i (ticked c r e) =
      inl (
        stale_Stable a b (ap (λ (z : Aggregator h). z.snap) e ∙ ap invalid (rotate-snap a c t i r)))

module _ {h : Histograms} (queue_size : ℕ) (p q : Option BatchPool) where
  valid-Current :
      {xs : List Action} {a : Aggregator h}
      → Runs (new_aggregator h queue_size p q) xs a
      → a.snap.valid ≡ true
      → Current a
  unfolding new_aggregator
  valid-Current start ok = cc
  valid-Current (next {b} {c} x runs e) ok =
      Effect-Current b c x (λ k. ((Runs-Counts queue_size p q runs).shown k).valid)
        (valid-Current runs) (act-Effect b c x e) ok

  -- A reader gets a snapshot that shows the windows as they are, or, while the goroutine runs and
  -- the deadline of the last snapshot is still ahead, that last one. After the end it is current.
  pub get_snapshot-Current :
      {xs : List Action} {a : Aggregator h}
      → Runs (new_aggregator h queue_size p q) xs a
      → (now made : Time)
      → Current (get_snapshot a now made)
        ⊎ ((a.done ≡ false) × (now < a.snap.deadline) × (get_snapshot a now made ≡ a))
  get_snapshot-Current {a} runs now made = elim (get_snapshot_cases a now made) [
    | inl (inl v, e) ↦ inl (subst Current (sym e) (valid-Current runs v))
    | inl (inr (d, t), e) ↦ inr (d, ltb→lt _ _ t, e)
    | inr e ↦ inl (
        subst Current (sym e)
          (make_snapshot-Current a made (λ k. ((Runs-Counts queue_size p q runs).shown k).valid)))
  ]

  -- Every action leaves what a reader sees as it was, or makes a current snapshot of the next
  -- version.
  pub snapshot_versions :
      {xs : List Action} {a : Aggregator h}
      → Runs (new_aggregator h queue_size p q) xs a
      → (x : Action) (b : Aggregator h) → act a x ≡ accepted b
      → Stable a b ⊎ ((b.snap.version ≡ (a.snap.version + 1) % modulus) × Current b)
  snapshot_versions {a} runs x b e =
      Effect-Stable a b x _ (Runs-Counts queue_size p q runs) (act-Effect a b x e)
