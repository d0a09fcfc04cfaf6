-- ===== src/Generator/Runner/Share.antt =====
-- The share of the overflow in the report.
use cdnnow_test_golang.Shared.{
  ℕ, zero, suc, ◌^◌, ◌<◌, ◌≤◌, ◌≡◌, refl, Bool, true, false, ◌&&◌, length, get_elem?, Option, none,
  some, List, [], ◌∷◌, ◌++◌, arith, if◌then◌else◌, ltb,
}
use cdnnow_test_golang.Operators.{Int64}
use cdnnow_test_golang.Calculators.Dual.{Duration}
use cdnnow_test_golang.Generator.Stat.{HistLibrary, Stat, new_stat}
use cdnnow_test_golang.Generator.Worker.Counts.{latencies, failures, refused}
use cdnnow_test_golang.Generator.Runner.{
  RunConfig, History, gives_up, all_sent, generate, ReportLine, totals_line, overflow_line,
  percentiles, overflow_lines, print_report,
}
use cdnnow_test_golang.Generator.Runner.Totals.{
  Tallies, no_tallies, plus, tallies_of, all_tallies, generate_totals,
}

module _ (h : HistLibrary) where
  length-refused : (xs : List Duration) (g : h.Hist) → length (refused h g xs) ≤ length xs
  unfolding refused
  length-refused [] g = omega arith
  length-refused (x ∷ xs) g = by_answer (length-refused xs) (h.record_value g x)
    where
      by_answer :
          ((k : h.Hist) → length (refused h k xs) ≤ length xs)
          → (o : Option h.Hist)
          → length (elim o [ none ↦ x ∷ refused h g xs | some k ↦ refused h k xs ])
            ≤ length (x ∷ xs)
      by_answer rest none = omega (arith, rest g)
      by_answer rest (some k) = omega (arith, rest k)

  tallies_of-bound :
      (cfg : RunConfig) (w : History) → (tallies_of h cfg w).overs ≤ (tallies_of h cfg w).oks
  unfolding tallies_of no_tallies
  tallies_of-bound cfg w = by_start (gives_up cfg w)
    where
      by_start :
          (b : Bool)
          → let t : Tallies = if b then no_tallies else record {
            oks = length (latencies w.events);
            errs = failures w.events;
            overs = length (refused h (new_stat h).hist (latencies w.events));
          } in
            t.overs ≤ t.oks
      by_start true = omega arith
      by_start false = length-refused (latencies w.events) (new_stat h).hist

  all_tallies-bound :
      (cfg : RunConfig) (ws : List History)
      → (all_tallies h cfg ws).overs ≤ (all_tallies h cfg ws).oks
  unfolding all_tallies plus no_tallies
  all_tallies-bound cfg [] = omega arith
  all_tallies-bound cfg (w ∷ ws) = omega (arith, tallies_of-bound cfg w, all_tallies-bound cfg ws)

  abbrev line_at : Stat h → Bool → ℕ → Option (ReportLine h)
  line_at s p k = get_elem? (print_report h s p) k

  shown_in :
      (s : Stat h) (p b : Bool) (k : ℕ) (c o : Int64)
      → get_elem? {A = ReportLine h}
          (totals_line s.ok s.errors
            ∷ (if p
                then (if b then overflow_line s.overflow.count s.ok ∷ [] else [])
                  ++ percentiles s.hist ∷ []
                else []))
          k
        ≡ some (overflow_line c o)
      → (c ≡ s.overflow.count) × (o ≡ s.ok) × (b ≡ true)
  shown_in s p b zero c o e = absurd cc
  shown_in s false b (suc k) c o e = absurd cc
  shown_in s true true (suc zero) c o e = (cc, cc, refl)
  shown_in s true true (suc (suc zero)) c o e = absurd cc
  shown_in s true true (suc (suc (suc k))) c o e = absurd cc
  shown_in s true false (suc zero) c o e = absurd cc
  shown_in s true false (suc (suc k)) c o e = absurd cc

  -- The only line of its kind.
  overflow_line-shown :
      (s : Stat h) (p : Bool) (k : ℕ) (c o : Int64)
      → line_at s p k ≡ some (overflow_line c o)
      → (c ≡ s.overflow.count)
        × (o ≡ s.ok)
        × ((ltb 0 s.overflow.count && ltb s.overflow.count (2 ^ 63)) ≡ true)
  unfolding print_report overflow_lines
  overflow_line-shown s p k c o e =
      shown_in s p (ltb 0 s.overflow.count && ltb s.overflow.count (2 ^ 63)) k c o e

  -- If at most as many workers have ended as there are, and fewer than 2^63 of their requests have
  -- succeeded, then `waitWorkers` returns, and the overflow count that the report shows, if it shows
  -- one, is positive and at most the number of successful requests, by which it is divided.
  pub overflow_share :
      (cfg : RunConfig) (n : ℕ) (ws : List History) (ss : List (Option (Stat h)))
      → all_sent h cfg ws ≡ some ss
      → length ws ≤ n
      → (all_tallies h cfg ws).oks < 2 ^ 63
      → (m : Stat h) × (generate h cfg n ws ≡ some (m, length ws))
        × ((p : Bool) (k : ℕ) (c o : Int64)
            → get_elem? (print_report h m p) k ≡ some (overflow_line c o)
            → (0 < c) × (c ≤ o) × (o ≡ (all_tallies h cfg ws).oks))
  overflow_share cfg n ws ss e le small =
      let (m, g, t) = generate_totals h cfg n ws ss e le in
      (
        m,
        g,
        λ p k c o shown.
            let (a, b, pos) = overflow_line-shown m p k c o shown in
            let bound = all_tallies-bound cfg ws in
            (
              ground arith,
              omega (arith, a, b, t.shows_ok, t.shows_overflow, bound, small),
              omega (arith, b, t.shows_ok, small),
            ),
      )
