-- ===== src/Metrics/Report/Cache.antt =====
-- What the cache of the printer holds, after any action of the aggregator.
use cdnnow_test_golang.Shared.{
  ℕ, ◌+◌, ◌%◌, ◌<◌, ◌≤◌, ◌≡◌, ◌≢◌, refl, sym, ap, ◌∙◌, ◌⊎◌, inl, inr, true, Bool-cases, some, arith,
  ◌==◌,
}
use cdnnow_test_golang.Operators.{modulus}
use cdnnow_test_golang.Metrics.Kinds.{DurationKind}
use cdnnow_test_golang.Metrics.Aggregator.{Time, Histograms, Aggregator, make_snapshot}
use cdnnow_test_golang.Metrics.Aggregator.Loop.{get_snapshot}
use cdnnow_test_golang.Metrics.Aggregator.Steps.{get_snapshot_cases}
use cdnnow_test_golang.Metrics.Aggregator.Snapshots.{Current, Stable}
use cdnnow_test_golang.Metrics.Report.{print_report, Printer, refresh}
use cdnnow_test_golang.Metrics.Report.Total.{print_report-some, print_report-same}

module _ {h : Histograms} (percentile : h.Merged → ℕ → ℕ) where
  -- What holds of the printer and the aggregator after at most `n` actions.
  pub record Coherent (n : ℕ) (r : Printer) (a : Aggregator h) : Type 0 where
    pub few : a.snap.version ≤ n
    pub not_ahead : r.cache_version ≤ a.snap.version
    pub unmade : a.snap.version ≡ 0 → (a.snap.valid ≡ true → ⊥) × (a.snap.deadline ≡ 0)
    pub made :
        a.snap.version ≢ 0 → (k : DurationKind) → (m : h.Merged) × (a.snap.histograms k ≡ some m)
    pub cached :
        a.snap.version ≢ 0
        → r.cache_version ≡ a.snap.version
        → print_report percentile a.snap ≡ some r.cache

  Stable-Coherent :
      (n : ℕ) (r : Printer) (a b : Aggregator h)
      → Coherent n r a
      → Stable a b
      → Coherent (n + 1) r b
  Stable-Coherent n r a b i s = record {
    few = omega (arith, i.few, s.version_same);
    not_ahead = omega (arith, i.not_ahead, s.version_same);
    unmade = λ z.
        let (v, d) = i.unmade (sym s.version_same ∙ z) in
        (λ t. v (s.not_revalidated t), s.deadline_same ∙ d);
    made = λ z k.
        let (m, e) = i.made (λ y. z (s.version_same ∙ y)) k in
        (m, ap (λ f. f k) s.histograms_same ∙ e);
    cached = λ z e.
        print_report-same percentile b.snap a.snap s.requests_same s.histograms_same
        ∙ i.cached (λ y. z (s.version_same ∙ y)) (e ∙ s.version_same);
  }

  next-Coherent :
      (n : ℕ) (r : Printer) (a b : Aggregator h)
      → Coherent n r a
      → n + 1 < modulus
      → b.snap.version ≡ (a.snap.version + 1) % modulus
      → Current b
      → Coherent (n + 1) r b
  next-Coherent n r a b i small e c = record {
    few = omega (arith, i.few, step);
    not_ahead = omega (arith, i.not_ahead, step);
    unmade = λ z. absurd (omega (arith, z, step));
    made = λ z k. (h.merge (b.hists k), c.histograms_now k);
    cached = λ z y. absurd (omega (arith, y, i.not_ahead, step));
  }
    where
      step : b.snap.version ≡ a.snap.version + 1
      step = omega (arith, e, i.few, small)

  pub stepped-Coherent :
      (n : ℕ) (r : Printer) (a b : Aggregator h)
      → Coherent n r a
      → n + 1 < modulus
      → Stable a b ⊎ ((b.snap.version ≡ (a.snap.version + 1) % modulus) × Current b)
      → Coherent (n + 1) r b
  stepped-Coherent n r a b i small (inl s) = Stable-Coherent n r a b i s
  stepped-Coherent n r a b i small (inr (e, c)) = next-Coherent n r a b i small e c

  -- After `getSnapshot` there is a snapshot.
  pub read-made :
      (n : ℕ) (r : Printer) (a : Aggregator h) (now at_time : Time)
      → Coherent n r a
      → n + 1 < modulus
      → (get_snapshot a now at_time).snap.version ≢ 0
  unfolding make_snapshot
  read-made n r a now at_time i small z = elim (get_snapshot_cases a now at_time) [
    | inl (inl v, e) ↦ (i.unmade (sym (ap (λ (y : Aggregator h). y.snap.version) e) ∙ z)).0 v
    | inl (inr (_, t), e) ↦
        let d = (i.unmade (sym (ap (λ (y : Aggregator h). y.snap.version) e) ∙ z)).1 in
        ground (arith, t, d)
    | inr e ↦
        let next : (a.snap.version + 1) % modulus ≡ 0 =
          sym (ap (λ (y : Aggregator h). y.snap.version) e) ∙ z in
        omega (arith, next, i.few, small)
  ]

  -- `refresh` leaves the report of the snapshot in the cache.
  pub refresh-some :
      (n : ℕ) (r : Printer) (b : Aggregator h)
      → Coherent n r b
      → b.snap.version ≢ 0
      → (q : Printer) × (refresh percentile r b.snap ≡ some q)
        × (print_report percentile b.snap ≡ some q.cache)
        × (q.cache_version ≡ b.snap.version)
  unfolding refresh
  refresh-some n r b i made = elim (Bool-cases (r.cache_version == b.snap.version)) [
    | inl y ↦
        let same : r.cache_version ≡ b.snap.version = ground arith in
        (r, rw (y, refresh) refl, i.cached made same, same)
    | inr y ↦
        let (lines, e) = print_report-some percentile b.snap (i.made made) in
        (
          record r { cache = lines; cache_version = b.snap.version },
          rw (y, e, refresh) refl,
          e,
          refl,
        )
  ]

  pub refreshed-Coherent :
      (n deadline : ℕ) (r q : Printer) (b : Aggregator h)
      → Coherent n r b
      → b.snap.version ≢ 0
      → refresh percentile r b.snap ≡ some q
      → Coherent n (record q { cache_deadline = deadline }) b
  refreshed-Coherent n deadline r q b i made e =
      let (p, f, shows, same) = refresh-some n r b i made in
      let pq : p ≡ q = cc in
      record {
        few = i.few;
        not_ahead = omega (arith, same, ap (λ (z : Printer). z.cache_version) pq);
        unmade = i.unmade;
        made = i.made;
        cached = λ _ _. shows ∙ ap (λ (z : Printer). some z.cache) pq;
      }
