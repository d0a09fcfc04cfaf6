-- ===== src/Generator/Runner/Totals.antt =====
-- What the merged statistics count.
use cdnnow_test_golang.Shared.{
  ℕ, zero, suc, ◌+◌, ◌%◌, ◌≤◌, ◌≡◌, refl, sym, ap, subst, ◌∙◌, true, false, Bool-cases, inl, inr,
  length, Option, Option-cases, none, some, List, [], ◌∷◌, ◌++◌, map, arith, if◌then◌else◌,
}
use mathlib.Core.Option.{some-injective}
use mathlib.Core.List.{foldl}
use cdnnow_test_golang.Operators.{Int64, modulus}
use cdnnow_test_golang.Operators
use cdnnow_test_golang.Calculators.Dual.{Duration}
use cdnnow_test_golang.Generator.Stat.{
  HistLibrary, HistOverflow, Stat, new_stat, merge, overflow_add,
}
use cdnnow_test_golang.Generator.Worker.{Worker, run}
use cdnnow_test_golang.Generator.Worker.Counts.{failures, latencies, refused, run_counts}
use cdnnow_test_golang.Generator.Runner.{
  RunConfig, History, gives_up, worker_sends, all_sent, received, timed_out, wait_from,
  wait_workers, generate,
}

overflow-count :
    (xs : List Duration) (o : HistOverflow) (c : ℕ)
    → o.count ≡ c % modulus
    → (foldl overflow_add o xs).count ≡ (c + length xs) % modulus
unfolding overflow_add Operators.add
overflow-count [] o c e = omega (arith, e)
overflow-count (x ∷ xs) o c e =
    let rest = overflow-count xs (overflow_add o x) (c + 1) (omega (arith, e)) in
    omega (arith, rest)

pub record Tallies : Type 0 where
  pub oks : ℕ
  pub errs : ℕ
  pub overs : ℕ

unfoldable pub no_tallies : Tallies
no_tallies = record { oks = 0; errs = 0; overs = 0 }

unfoldable pub plus : Tallies → Tallies → Tallies
plus s t = record { oks = s.oks + t.oks; errs = s.errs + t.errs; overs = s.overs + t.overs }

module _ (h : HistLibrary) where
  -- The requests that a worker made: those that succeeded, those that failed, and those of the
  -- former whose latency the histogram refused.
  unfoldable pub tallies_of : RunConfig → History → Tallies
  unfolding no_tallies new_stat
  tallies_of cfg w = if gives_up cfg w then no_tallies else record {
    oks = length (latencies w.events);
    errs = failures w.events;
    overs = length (refused h (new_stat h).hist (latencies w.events));
  }

  unfoldable pub all_tallies : RunConfig → List History → Tallies
  unfolding plus no_tallies
  all_tallies cfg [] = no_tallies
  all_tallies cfg (w ∷ ws) = plus (tallies_of cfg w) (all_tallies cfg ws)

  pub record Shows (s : Stat h) (t : Tallies) : Type 0 where
    pub shows_ok : s.ok ≡ t.oks % modulus
    pub shows_errors : s.errors ≡ t.errs % modulus
    pub shows_overflow : s.overflow.count ≡ t.overs % modulus

  new_stat-Shows : Shows (new_stat h) no_tallies
  unfolding new_stat no_tallies
  new_stat-Shows = record {
    shows_ok = omega arith;
    shows_errors = omega arith;
    shows_overflow = omega arith;
  }

  run-Shows :
      (cfg : RunConfig) (w : History) (v : Worker h)
      → gives_up cfg w ≡ false
      → run h cfg.interval w.events ≡ some v
      → Shows v.stat (tallies_of cfg w)
  unfolding tallies_of
  run-Shows cfg w v g e =
      let c = run_counts h cfg.interval w.events v e in
      let over : v.stat.overflow.count
          ≡ (0 + length (refused h (new_stat h).hist (latencies w.events))) % modulus =
        ap (λ (o : HistOverflow). o.count) c.overflow_kept
        ∙ overflow-count (refused h (new_stat h).hist (latencies w.events)) (new_stat h).overflow 0
            new_stat-Shows.shows_overflow in
      rw (g, tallies_of)
        (record {
          shows_ok = omega (arith, c.ok_counted);
          shows_errors = omega (arith, c.errors_counted);
          shows_overflow = omega (arith, over);
        })

  -- The statistics that a worker sends, if any, show its requests.
  unfoldable pub Reports : Option (Stat h) → Tallies → Type 0
  unfolding no_tallies
  Reports none t = t ≡ no_tallies
  Reports (some s) t = Shows s t

  worker_sends-Reports :
      (cfg : RunConfig) (w : History) (o : Option (Stat h))
      → worker_sends h cfg w ≡ some o
      → Reports o (tallies_of cfg w)
  unfolding worker_sends tallies_of Reports
  worker_sends-Reports cfg w o e = elim (Bool-cases (gives_up cfg w)) [
    | inl g ↦
        let same : none ≡ o = some-injective _ _ (sym (gave_up g) ∙ e) in
        subst (λ z. Reports z (tallies_of cfg w)) same (rw (g, tallies_of) refl)
    | inr g ↦ elim (Option-cases (run h cfg.interval w.events)) [
      | inl n ↦ absurd (ground arith)
      | inr (v, n) ↦
          let same : some v.stat ≡ o = ground arith in
          subst (λ z. Reports z (tallies_of cfg w)) same (run-Shows cfg w v g n)
    ]
  ]
    where
      gave_up : gives_up cfg w ≡ true → worker_sends h cfg w ≡ some none
      gave_up g = rw (g, worker_sends) refl

  merge-Shows :
      (s : Stat h) (o : Option (Stat h)) (t u : Tallies)
      → Shows s t
      → Reports o u
      → Shows (merge s o) (plus t u)
  unfolding merge plus Reports Operators.add
  merge-Shows s none t u m e = record {
    shows_ok = omega (arith, m.shows_ok, ap (λ (z : Tallies). z.oks) e);
    shows_errors = omega (arith, m.shows_errors, ap (λ (z : Tallies). z.errs) e);
    shows_overflow = omega (arith, m.shows_overflow, ap (λ (z : Tallies). z.overs) e);
  }
  merge-Shows s (some r) t u m e = record {
    shows_ok = omega (arith, m.shows_ok, e.shows_ok);
    shows_errors = omega (arith, m.shows_errors, e.shows_errors);
    shows_overflow = omega (arith, m.shows_overflow, e.shows_overflow);
  }

  plus-Shows :
      (s : Stat h) (t u v : Tallies) → Shows s (plus (plus t u) v) → Shows s (plus t (plus u v))
  unfolding plus
  plus-Shows s t u v m = record {
    shows_ok = omega (arith, m.shows_ok);
    shows_errors = omega (arith, m.shows_errors);
    shows_overflow = omega (arith, m.shows_overflow);
  }

  none-Shows : (s : Stat h) (t : Tallies) → Shows s t → Shows s (plus t no_tallies)
  unfolding plus no_tallies
  none-Shows s t m = record {
    shows_ok = omega (arith, m.shows_ok);
    shows_errors = omega (arith, m.shows_errors);
    shows_overflow = omega (arith, m.shows_overflow);
  }

  wait_from-timed_out : (s : Stat h) (i n : ℕ) → wait_from h s i n (timed_out ∷ []) ≡ some (s, i)
  unfolding wait_from
  wait_from-timed_out s i zero = refl
  wait_from-timed_out s i (suc n) = refl

  -- The loop of `waitWorkers`, over what some workers send.
  wait_from-Shows :
      (cfg : RunConfig) (ws : List History) (ss : List (Option (Stat h))) (n i : ℕ) (s : Stat h)
      (t : Tallies)
      → all_sent h cfg ws ≡ some ss
      → length ws ≤ n
      → Shows s t
      → (m : Stat h) × (wait_from h s i n (map received ss ++ timed_out ∷ [])
          ≡ some (m, i + length ws))
        × Shows m (plus t (all_tallies cfg ws))
  unfolding all_sent wait_from all_tallies
  wait_from-Shows cfg [] ss n i s t e le m =
      let none_sent : [] ≡ ss = some-injective _ _ e in
      let stays : i ≡ i + 0 = omega arith in
      (
        s,
        subst (λ z. wait_from h s i n (map received z ++ timed_out ∷ []) ≡ some (s, i + 0))
            none_sent (wait_from-timed_out s i n ∙ ap (λ z. some (s, z)) stays),
        none-Shows s t m,
      )
  wait_from-Shows cfg (w ∷ ws) ss zero i s t e le m = absurd (omega (arith, le))
  wait_from-Shows cfg (w ∷ ws) ss (suc n) i s t e le m =
      elim (Option-cases (worker_sends h cfg w)) [
        | inl b ↦ absurd (ground arith)
        | inr (o, b) ↦ elim (Option-cases (all_sent h cfg ws)) [
          | inl c ↦ absurd (ground arith)
          | inr (os, c) ↦
              let first : o ∷ os ≡ ss = ground arith in
              let (r, d, k) =
                wait_from-Shows cfg ws os n (i + 1) (merge s o) (plus t (tallies_of cfg w)) c
                  (omega (arith, le))
                  (merge-Shows s o t (tallies_of cfg w) m (worker_sends-Reports cfg w o b)) in
              let counts : i + 1 + length ws ≡ i + length (w ∷ ws) = omega arith in
              (
                r,
                subst
                    (λ z.
                      wait_from h s i (suc n) (map received z ++ timed_out ∷ [])
                      ≡ some (r, i + length (w ∷ ws)))
                    first (d ∙ ap (λ z. some (r, z)) counts),
                plus-Shows r t (tallies_of cfg w) (all_tallies cfg ws) k,
              )
        ]
      ]

  -- Once the time is over, `waitWorkers` returns, with the number of the workers that have ended, and
  -- with statistics that show the requests of exactly these.
  pub generate_totals :
      (cfg : RunConfig) (n : ℕ) (ws : List History) (ss : List (Option (Stat h)))
      → all_sent h cfg ws ≡ some ss
      → length ws ≤ n
      → (m : Stat h) × (generate h cfg n ws ≡ some (m, length ws)) × Shows m (all_tallies cfg ws)
  unfolding generate wait_workers plus no_tallies
  generate_totals cfg n ws ss e le =
      let (m, d, k) = wait_from-Shows cfg ws ss n 0 (new_stat h) no_tallies e le new_stat-Shows in
      let counts : 0 + length ws ≡ length ws = omega arith in
      (
        m,
        rw (e, generate) (d ∙ ap (λ z. some (m, z)) counts),
        record {
          shows_ok = omega (arith, k.shows_ok);
          shows_errors = omega (arith, k.shows_errors);
          shows_overflow = omega (arith, k.shows_overflow);
        },
      )
