-- ===== src/Generator/Worker/Counts.antt =====
-- What the statistics of a worker count.
use cdnnow_test_golang.Shared.{
  ℕ, ◌+◌, ◌%◌, ◌≡◌, refl, sym, ap, subst, ◌∙◌, Bool, true, false, inl, inr, length, Option,
  Option-cases, none, some, List, [], ◌∷◌, ℤ, arith, if◌then◌else◌,
}
use mathlib.Core.Option.{some-injective}
use mathlib.Core.List.{foldl}
use cdnnow_test_golang.Operators.{Int64, modulus}
use cdnnow_test_golang.Operators
use cdnnow_test_golang.Calculators.Dual.{Duration}
use cdnnow_test_golang.Generator.Stat.{HistLibrary, Stat, new_stat, overflow_add}
use cdnnow_test_golang.Generator.Worker.{
  replied, request_error, Event, num, reply, nums_closed, fired, cancelled, Phase, at_nums,
  at_request, at_timer, returned, running, Worker, new_worker, record_latency, record_reply,
  is_positive, pause, on_event, run_from, run,
}

-- The requests that failed.
unfoldable pub failures : List Event → ℕ
failures [] = 0
failures (reply request_error ∷ es) = failures es + 1
failures (_ ∷ es) = failures es

-- The latencies of the others, in order.
unfoldable pub latencies : List Event → List Duration
latencies [] = []
latencies (reply (replied x) ∷ es) = x ∷ latencies es
latencies (_ ∷ es) = latencies es

module _ (h : HistLibrary) where
  -- The histogram of some latencies, from a first one, and those that it refuses.
  unfoldable pub recorded : h.Hist → List Duration → h.Hist
  recorded g [] = g
  recorded g (x ∷ xs) = elim (h.record_value g x) [
    | none ↦ recorded g xs
    | some g' ↦ recorded g' xs
  ]

  unfoldable pub refused : h.Hist → List Duration → List Duration
  refused g [] = []
  refused g (x ∷ xs) = elim (h.record_value g x) [
    | none ↦ x ∷ refused g xs
    | some g' ↦ refused g' xs
  ]

  -- The statistics after some replies.
  unfoldable pub stat_after : Stat h → List Event → Stat h
  stat_after s [] = s
  stat_after s (reply x ∷ es) = stat_after (record_reply s x) es
  stat_after s (num n ∷ es) = stat_after s es
  stat_after s (nums_closed ∷ es) = stat_after s es
  stat_after s (fired ∷ es) = stat_after s es
  stat_after s (cancelled ∷ es) = stat_after s es

  pause-stat : (interval : ℤ) (w : Worker h) → (pause interval w).stat ≡ w.stat
  unfolding pause
  pause-stat interval w = by_sign (is_positive interval)
    where
      by_sign :
          (b : Bool)
          → (if b then record w { timer = running; phase = at_timer } else w).stat ≡ w.stat
      by_sign true = refl
      by_sign false = refl

  on_event-stat :
      (interval : ℤ) (w w' : Worker h) (p : Phase) (e : Event) (es : List Event)
      → on_event interval w p e ≡ some w'
      → stat_after w'.stat es ≡ stat_after w.stat (e ∷ es)
  unfolding on_event stat_after
  on_event-stat interval w w' at_nums (num n) es e =
      ap (λ s. stat_after s es) (sym (ap (λ (z : Worker h). z.stat) (some-injective _ _ e)))
  on_event-stat interval w w' at_nums (reply x) es e = absurd cc
  on_event-stat interval w w' at_nums nums_closed es e =
      ap (λ s. stat_after s es) (sym (ap (λ (z : Worker h). z.stat) (some-injective _ _ e)))
  on_event-stat interval w w' at_nums fired es e = absurd cc
  on_event-stat interval w w' at_nums cancelled es e =
      ap (λ s. stat_after s es) (sym (ap (λ (z : Worker h). z.stat) (some-injective _ _ e)))
  on_event-stat interval w w' at_request (num n) es e = absurd cc
  on_event-stat interval w w' at_request (reply x) es e =
      ap (λ s. stat_after s es)
        (sym (ap (λ (z : Worker h). z.stat) (some-injective _ _ e)) ∙ pause-stat interval _)
  on_event-stat interval w w' at_request nums_closed es e = absurd cc
  on_event-stat interval w w' at_request fired es e = absurd cc
  on_event-stat interval w w' at_request cancelled es e = absurd cc
  on_event-stat interval w w' at_timer (num n) es e = absurd cc
  on_event-stat interval w w' at_timer (reply x) es e = absurd cc
  on_event-stat interval w w' at_timer nums_closed es e = absurd cc
  on_event-stat interval w w' at_timer fired es e =
      ap (λ s. stat_after s es) (sym (ap (λ (z : Worker h). z.stat) (some-injective _ _ e)))
  on_event-stat interval w w' at_timer cancelled es e =
      ap (λ s. stat_after s es) (sym (ap (λ (z : Worker h). z.stat) (some-injective _ _ e)))
  on_event-stat interval w w' returned (num n) es e = absurd cc
  on_event-stat interval w w' returned (reply x) es e = absurd cc
  on_event-stat interval w w' returned nums_closed es e = absurd cc
  on_event-stat interval w w' returned fired es e = absurd cc
  on_event-stat interval w w' returned cancelled es e = absurd cc

  run_from-stat :
      (interval : ℤ) (es : List Event) (w w' : Worker h)
      → run_from interval w es ≡ some w'
      → w'.stat ≡ stat_after w.stat es
  unfolding run_from stat_after
  run_from-stat interval [] w w' e = sym (ap (λ (z : Worker h). z.stat) (some-injective _ _ e))
  run_from-stat interval (x ∷ es) w w' e = elim (Option-cases (on_event interval w w.phase x)) [
    | inl n ↦ absurd (ground arith)
    | inr (v, n) ↦
        let rest : run_from interval v es ≡ some w' = ground arith in
        run_from-stat interval es v w' rest ∙ on_event-stat interval w v w.phase x es n
  ]

  -- What replies with some latencies, and some failures, add to the statistics.
  pub record Counted (a b : ℕ) (s s' : Stat h) (lats : List Duration) (fails : ℕ) : Type 0 where
    pub ok_counted : s'.ok ≡ (a + length lats) % modulus
    pub errors_counted : s'.errors ≡ (b + fails) % modulus
    pub hist_kept : s'.hist ≡ recorded s.hist lats
    pub overflow_kept : s'.overflow ≡ foldl overflow_add s.overflow (refused s.hist lats)

  refused-none :
      (g : h.Hist) (x : Duration) (xs : List Duration)
      → h.record_value g x ≡ none
      → refused g (x ∷ xs) ≡ x ∷ refused g xs
  unfolding refused
  refused-none g x xs e = rw (e, refused) refl

  refused-some :
      (g k : h.Hist) (x : Duration) (xs : List Duration)
      → h.record_value g x ≡ some k
      → refused g (x ∷ xs) ≡ refused k xs
  unfolding refused
  refused-some g k x xs e = rw (e, refused) refl

  latency-Counted :
      (a b : ℕ) (s s' : Stat h) (x : Duration) (lats : List Duration) (fails : ℕ)
      (o : Option h.Hist)
      → h.record_value s.hist x ≡ o
      → Counted (a + 1) b (record_latency s x o) s' lats fails
      → Counted a b s s' (x ∷ lats) fails
  unfolding recorded refused record_latency
  latency-Counted a b s s' x lats fails none e c = record {
    ok_counted = omega (arith, c.ok_counted);
    errors_counted = c.errors_counted;
    hist_kept = rw (e, recorded) c.hist_kept;
    overflow_kept =
        c.overflow_kept ∙ ap (foldl overflow_add s.overflow) (sym (refused-none s.hist x lats e));
  }
  latency-Counted a b s s' x lats fails (some g) e c = record {
    ok_counted = omega (arith, c.ok_counted);
    errors_counted = c.errors_counted;
    hist_kept = rw (e, recorded) c.hist_kept;
    overflow_kept =
        c.overflow_kept ∙ ap (foldl overflow_add s.overflow) (sym (refused-some s.hist g x lats e));
  }

  record_latency-ok :
      (s : Stat h) (x : Duration) (o : Option h.Hist) (a : ℕ)
      → s.ok ≡ a % modulus
      → (record_latency s x o).ok ≡ (a + 1) % modulus
  unfolding record_latency Operators.add
  record_latency-ok s x none a e = omega (arith, e)
  record_latency-ok s x (some g) a e = omega (arith, e)

  record_latency-errors :
      (s : Stat h) (x : Duration) (o : Option h.Hist) → (record_latency s x o).errors ≡ s.errors
  unfolding record_latency
  record_latency-errors s x none = refl
  record_latency-errors s x (some g) = refl

  stat_after-Counted :
      (es : List Event) (a b : ℕ) (s : Stat h)
      → s.ok ≡ a % modulus
      → s.errors ≡ b % modulus
      → Counted a b s (stat_after s es) (latencies es) (failures es)
  unfolding stat_after latencies failures recorded refused record_reply Operators.add
  stat_after-Counted [] a b s p q = record {
    ok_counted = omega (arith, p);
    errors_counted = omega (arith, q);
    hist_kept = refl;
    overflow_kept = refl;
  }
  stat_after-Counted (nums_closed ∷ es) a b s p q = stat_after-Counted es a b s p q
  stat_after-Counted (num n ∷ es) a b s p q = stat_after-Counted es a b s p q
  stat_after-Counted (fired ∷ es) a b s p q = stat_after-Counted es a b s p q
  stat_after-Counted (cancelled ∷ es) a b s p q = stat_after-Counted es a b s p q
  stat_after-Counted (reply request_error ∷ es) a b s p q =
      let s1 : Stat h = record s { errors = Operators.add s.errors 1 } in
      let c = stat_after-Counted es a (b + 1) s1 p (omega (arith, q)) in
      record {
        ok_counted = c.ok_counted;
        errors_counted = omega (arith, c.errors_counted);
        hist_kept = c.hist_kept;
        overflow_kept = c.overflow_kept;
      }
  stat_after-Counted (reply (replied x) ∷ es) a b s p q =
      let o = h.record_value s.hist x in
      latency-Counted a b s _ x (latencies es) (failures es) o refl (
        stat_after-Counted es (a + 1) b (record_latency s x o) (record_latency-ok s x o a p)
          (record_latency-errors s x o ∙ q))

  -- In any run of a worker, the statistics count the requests that succeeded and those that failed,
  -- and every latency is either in the histogram or, if the histogram refused it, in the overflow.
  pub run_counts :
      (interval : ℤ) (es : List Event) (w : Worker h)
      → run h interval es ≡ some w
      → Counted 0 0 (new_stat h) w.stat (latencies es) (failures es)
  unfolding run new_worker new_stat
  run_counts interval es w e =
      subst (λ s. Counted 0 0 (new_stat h) s (latencies es) (failures es))
        (sym (run_from-stat interval es (new_worker h) w e))
        (stat_after-Counted es 0 0 (new_stat h) (omega arith) (omega arith))
