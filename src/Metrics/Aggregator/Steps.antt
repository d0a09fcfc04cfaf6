-- ===== src/Metrics/Aggregator/Steps.antt =====
-- What each action changes in the counters and in the snapshot.
use cdnnow_test_golang.Shared.{
  ℕ, ◌≡◌, refl, ap, ◌∙◌, ◌⊎◌, inl, inr, Bool, true, false, Bool-cases, Option-cases, some, List, [],
  ◌∷◌, arith, if◌then◌else◌, ltb,
}
use cdnnow_test_golang.Pools.{Slice}
use cdnnow_test_golang.Calculators.Dual.{Duration, Sample}
use cdnnow_test_golang.Calculators.Server.{Outcome, accepted, blocked}
use cdnnow_test_golang.Metrics.Kinds.{RequestKind, DurationKind, add, sub}
use cdnnow_test_golang.Metrics.Aggregator.{
  Time, Histograms, Aggregator, DurationsMsg, invalid, invalidate, rotate, record_duration,
  record_durations, record_both, record_samples, close_channels, make_snapshot, with_rest, put_back,
}
use cdnnow_test_golang.Metrics.Aggregator.Loop.{
  tick, sample_arrives, samples_arrive, durations_arrive, stop_read, on_tick, on_sample, on_samples,
  on_durations, serve, serve_snapshot, get_snapshot, count_requests,
}
use cdnnow_test_golang.Metrics.Aggregator.Client
use cdnnow_test_golang.Metrics.Aggregator.Client.{
  Action, sends_sample, sends_samples, sends_durations, counts, reads, stops, serves, act, stop,
}
use cdnnow_test_golang.Metrics.Aggregator.Windows.{Tally, tally}

module _ {h : Histograms} where
  -- Durations reach only the histograms and the overflow.
  record Keeps (a b : Aggregator h) : Type 0 where
    pub reqs_same : b.reqs ≡ a.reqs
    pub cnts_same : b.cnts ≡ a.cnts
    pub snap_same : b.snap ≡ a.snap

  Keeps-trans : {a b c : Aggregator h} → Keeps a b → Keeps b c → Keeps a c
  Keeps-trans p q = record {
    reqs_same = q.reqs_same ∙ p.reqs_same;
    cnts_same = q.cnts_same ∙ p.cnts_same;
    snap_same = q.snap_same ∙ p.snap_same;
  }

  record_duration-Keeps :
      (a : Aggregator h) (k : DurationKind) (d : Duration) → Keeps a (record_duration a k d)
  unfolding record_duration
  record_duration-Keeps a k d = elim (Option-cases (h.record_value (a.hists k) d)) [
    | inl e ↦
        rw (e, record_duration) (record { reqs_same = refl; cnts_same = refl; snap_same = refl })
    | inr (w, e) ↦
        rw (e, record_duration) (record { reqs_same = refl; cnts_same = refl; snap_same = refl })
  ]

  record_durations-Keeps :
      (a : Aggregator h) (k : DurationKind) (ds : List Duration) → Keeps a (record_durations a k ds)
  unfolding record_durations
  record_durations-Keeps a k [] = record { reqs_same = refl; cnts_same = refl; snap_same = refl }
  record_durations-Keeps a k (d ∷ ds) =
      Keeps-trans (record_duration-Keeps a k d)
        (record_durations-Keeps (record_duration a k d) k ds)

  record_both-Keeps : (a : Aggregator h) (s : Sample) → Keeps a (record_both a s)
  unfolding record_both
  record_both-Keeps a s =
      Keeps-trans (record_duration-Keeps a add _) (record_duration-Keeps _ sub _)

  record_samples-Keeps : (a : Aggregator h) (batch : List Sample) → Keeps a (record_samples a batch)
  unfolding record_samples
  record_samples-Keeps a [] = record { reqs_same = refl; cnts_same = refl; snap_same = refl }
  record_samples-Keeps a (s ∷ batch) =
      Keeps-trans (record_both-Keeps a s) (record_samples-Keeps (record_both a s) batch)

  -- The counters stay, and a snapshot stays valid only if the histograms stay too.
  pub record Quiet (a b : Aggregator h) : Type 0 where
    pub reqs_same : b.reqs ≡ a.reqs
    pub cnts_same : b.cnts ≡ a.cnts
    pub snap_kept : ((b.snap ≡ a.snap) × (b.hists ≡ a.hists)) ⊎ (b.snap ≡ invalid a.snap)

  pub data Effect (a b : Aggregator h) : Action → Type 0 where
    quiet :
        (x : Action) → ((k : RequestKind) (t : Tally) → tally k t x ≡ t) → Quiet a b → Effect a b x
    counted : (k : RequestKind) (n : ℕ) → b ≡ count_requests a k n → Effect a b (counts k n)
    kept : (now : Time) (made : Time) → b ≡ a → Effect a b (reads now made)
    remade : (now : Time) (made : Time) → b ≡ make_snapshot a made → Effect a b (reads now made)
    ticked : (c : Aggregator h) → rotate a ≡ some c → b ≡ invalidate c → Effect a b (serves tick)

  sent-Quiet :
      (a b : Aggregator h)
      → b.reqs ≡ a.reqs
      → b.cnts ≡ a.cnts
      → b.snap ≡ a.snap
      → b.hists ≡ a.hists
      → Quiet a b
  sent-Quiet a b p q r s = record { reqs_same = p; cnts_same = q; snap_kept = inl (r, s) }

  -- Exactly when `getSnapshot` keeps the snapshot, and when it makes a new one.
  pub get_snapshot_cases :
      (a : Aggregator h) (now made : Time)
      → (((a.snap.valid ≡ true) ⊎ ((a.done ≡ false) × (ltb now a.snap.deadline ≡ true)))
          × (get_snapshot a now made ≡ a))
        ⊎ (get_snapshot a now made ≡ make_snapshot a made)
  unfolding get_snapshot serve_snapshot
  get_snapshot_cases a now made = elim (Bool-cases a.snap.valid) [
    | inl v ↦ inl (inl v, ground arith)
    | inr v ↦ elim (Bool-cases a.done) [
      | inl d ↦ inr (ground arith)
      | inr d ↦ elim (Bool-cases (ltb now a.snap.deadline)) [
        | inl t ↦ inl (inr (d, t), ground arith)
        | inr t ↦ inr (ground arith)
      ]
    ]
  ]

  get_snapshot-Effect :
      (a : Aggregator h) (now made : Time) → Effect a (get_snapshot a now made) (reads now made)
  get_snapshot-Effect a now made = elim (get_snapshot_cases a now made) [
    | inl (c, e) ↦ kept now made e
    | inr e ↦ remade now made e
  ]

  from :
      (a c d : Aggregator h)
      → c.reqs ≡ a.reqs
      → c.cnts ≡ a.cnts
      → c.snap ≡ a.snap
      → Keeps c d
      → Keeps a d
  from a c d p q r k = Keeps-trans (record { reqs_same = p; cnts_same = q; snap_same = r }) k

  invalidated :
      (a c b : Aggregator h)
      → Keeps a c
      → b.reqs ≡ c.reqs
      → b.cnts ≡ c.cnts
      → b.snap ≡ invalid c.snap
      → Quiet a b
  invalidated a c b k p q r = record {
    reqs_same = p ∙ k.reqs_same;
    cnts_same = q ∙ k.cnts_same;
    snap_kept = inr (r ∙ ap invalid k.snap_same);
  }

  while_running :
      (d : Bool) (o : Outcome (Aggregator h)) (b : Aggregator h)
      → (if d then blocked else o) ≡ accepted b
      → o ≡ accepted b
  while_running true o b e = cc
  while_running false o b e = e

  on_sample-Quiet :
      (a b : Aggregator h) (buf : List Sample) → on_sample a buf ≡ accepted b → Quiet a b
  unfolding on_sample
  on_sample-Quiet a b [] e = cc
  on_sample-Quiet a b (s ∷ rest) e =
      let c = record a { sample_ch = with_rest a.sample_ch rest } in
      let k = record_both-Keeps c s in
      let e' : invalidate (record_both c s) ≡ b = cc in
      rw (← e') (
        invalidated a (record_both c s) _ (from a c (record_both c s) refl refl refl k) refl refl
          refl)

  on_samples-Quiet :
      (a b : Aggregator h) (buf : List (Slice Sample)) → on_samples a buf ≡ accepted b → Quiet a b
  unfolding on_samples
  on_samples-Quiet a b [] e = cc
  on_samples-Quiet a b (batch ∷ rest) e =
      let c = record a { samples_ch = with_rest a.samples_ch rest } in
      let d = record_samples c batch.elems in
      let k = record_samples-Keeps c batch.elems in
      let e' : invalidate (record d { samples_pool = put_back d.samples_pool batch }) ≡ b = cc in
      rw (← e') (invalidated a d _ (from a c d refl refl refl k) refl refl refl)

  on_durations-Quiet :
      (a b : Aggregator h) (buf : List DurationsMsg) → on_durations a buf ≡ accepted b → Quiet a b
  unfolding on_durations
  on_durations-Quiet a b [] e = cc
  on_durations-Quiet a b (msg ∷ rest) e =
      let c = record a { durations_ch = with_rest a.durations_ch rest } in
      let d = record_durations c msg.kind msg.vals.elems in
      let k = record_durations-Keeps c msg.kind msg.vals.elems in
      let e' : invalidate (record d { durations_pool = put_back d.durations_pool msg.vals }) ≡ b =
        cc in
      rw (← e') (invalidated a d _ (from a c d refl refl refl k) refl refl refl)

  on_tick-Effect : (a b : Aggregator h) → on_tick a ≡ accepted b → Effect a b (serves tick)
  unfolding on_tick
  on_tick-Effect a b e = elim (Option-cases (rotate a)) [
    | inl n ↦ absurd (ground arith)
    | inr (c, r) ↦ ticked c r (ground arith)
  ]

  -- What an accepted action has done.
  pub act-Effect : (a b : Aggregator h) (x : Action) → act a x ≡ accepted b → Effect a b x
  unfolding act tally Client.record_sample Client.record_samples Client.record_durations stop serve
      close_channels
  act-Effect a b (sends_sample s) e = quiet _ (λ k t. refl) (ground arith)
  act-Effect a b (sends_samples batch) e = quiet _ (λ k t. refl) (ground arith)
  act-Effect a b (sends_durations k vals) e = quiet _ (λ k t. refl) (ground arith)
  act-Effect a b (counts k n) e = counted k n (cc)
  act-Effect a b (reads now made) e = rw (← e') (get_snapshot-Effect a now made)
    where
      e' : get_snapshot a now made ≡ b
      e' = cc
  act-Effect a b stops e = quiet _ (λ k t. refl) (ground arith)
  act-Effect a b (serves tick) e = on_tick-Effect a b (while_running a.done _ b e)
  act-Effect a b (serves sample_arrives) e =
      quiet _ (λ k t. refl) (on_sample-Quiet a b a.sample_ch.buf (while_running a.done _ b e))
  act-Effect a b (serves samples_arrive) e =
      quiet _ (λ k t. refl) (on_samples-Quiet a b a.samples_ch.buf (while_running a.done _ b e))
  act-Effect a b (serves durations_arrive) e =
      quiet _ (λ k t. refl) (on_durations-Quiet a b a.durations_ch.buf (while_running a.done _ b e))
  act-Effect a b (serves stop_read) e = quiet _ (λ k t. refl) (ground arith)
