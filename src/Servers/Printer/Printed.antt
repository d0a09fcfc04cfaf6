-- ===== src/Servers/Printer/Printed.antt =====
-- What the totals on the log are the totals of.
use cdnnow_test_golang.Shared.{
  ℕ, ◌≡◌, refl, sym, ap, subst, ◌∙◌, true, false, Bool, Option, some, List, [], ◌∷◌, ◌++◌, arith,
  append_assoc, append-nil,
}
use mathlib.Core.Option.{some-injective}
use cdnnow_test_golang.Operators.{Int64, Op}
use cdnnow_test_golang.Pools.{BatchPool}
use cdnnow_test_golang.Calculators.Dual
use cdnnow_test_golang.Calculators.Dual.{Values, Sample, totals}
use cdnnow_test_golang.Calculators.Server
use cdnnow_test_golang.Calculators.Server.{
  Event, timer_fires, value_read, number_arrives, Step, send, hand_over, round, close, Runs, start,
  next,
}
use cdnnow_test_golang.Calculators.Server.Invariant.{calculate-accepted, close_nums-accepted}
use cdnnow_test_golang.Calculators.Async.{Async, AsyncRuns, new_async, values, zero_values}
use cdnnow_test_golang.Calculators.Async.Consistent.{
  PoolValid, done-closed, values_consistent, values-ended,
}
use cdnnow_test_golang.Servers.Printer.{
  Label, periodic, final, TotalsPrinter, new_totals_printer, print_totals, ticked, stop_asked,
  on_printer, serve_printer,
}

-- Periodic lines, each with the totals of a first part of the numbers.
pub data Parts (add_op sub_op : Op) (nums : List Int64) : List (Label × Values) → Type 0 where
  no_lines : Parts add_op sub_op nums []
  more_lines :
      {lines : List (Label × Values)} (before after : List Int64) (v : Values)
      → Parts add_op sub_op nums lines
      → nums ≡ before ++ after
      → v ≡ totals add_op sub_op zero_values before
      → Parts add_op sub_op nums (lines ++ (periodic, v) ∷ [])

-- Then, when the goroutine has ended, one final line, with the totals of all.
pub data Shown (add_op sub_op : Op) (nums : List Int64) : TotalsPrinter → Type 0 where
  going :
      {lines : List (Label × Values)}
      → Parts add_op sub_op nums lines
      → Shown add_op sub_op nums (record { printed = lines; ended = false })
  over :
      {lines : List (Label × Values)}
      → Parts add_op sub_op nums lines
      → Shown add_op sub_op nums (record {
        printed = lines ++ (final, totals add_op sub_op zero_values nums) ∷ [];
        ended = true;
      })

Parts-more :
    (add_op sub_op : Op) (nums new : List Int64) {lines : List (Label × Values)}
    → Parts add_op sub_op nums lines
    → Parts add_op sub_op (nums ++ new) lines
Parts-more f g nums new no_lines = no_lines
Parts-more f g nums new (more_lines before after v ps e w) =
    more_lines before (after ++ new) v (Parts-more f g nums new ps)
      (ap (λ z. z ++ new) e ∙ append_assoc before after new) w

-- The calculator's goroutine has ended.
Stopped : Async → Type 0
Stopped c = (c.done ≡ true) × (c.num_ch.closed ≡ true)

no_round :
    (regrow : ℕ → ℕ) (c d : Async) (log : List Sample) (e : Event Sample)
    → c.done ≡ true
    → Server.serve Dual.calculate regrow c e ≡ some (d, log)
    → ⊥
unfolding Server.serve
no_round regrow c d log timer_fires s e = ground arith
no_round regrow c d log value_read s e = ground arith
no_round regrow c d log (number_arrives times choice) s e = ground arith

-- Then no step takes a number in.
Step-Stopped :
    (regrow : ℕ → ℕ) {c d : Async} {more : List Int64} {log : List Sample}
    → Step Dual.calculate regrow c more log d
    → Stopped c
    → Stopped d × (more ≡ [])
unfolding Stopped
Step-Stopped regrow {c} {d} (send num p) (s, k) = absurd (cc ((calculate-accepted c d num p).0, k))
Step-Stopped regrow (hand_over num took choice running o b) (s, k) = absurd (cc (running, s))
Step-Stopped regrow {c} {d} {log = log} (round e p) (s, k) = absurd (no_round regrow c d log e s p)
Step-Stopped regrow {c} {d} (close p) (s, k) = absurd (cc ((close_nums-accepted c d p).0, k))

module _ (f g : Op) (queue_size : ℕ) (recording : Bool) (pool : Option BatchPool)
    (regrow : ℕ → ℕ) where
  -- The calculator, its clients and the goroutine that prints, in any interleaving of their steps,
  -- with the numbers that `Calculate` took in. The goroutine that prints is asked to stop when the
  -- calculator's `Stop` has returned.
  pub data PrintedRuns : List Int64 → Async → TotalsPrinter → Type 0 where
    begins : PrintedRuns [] (new_async f g queue_size recording pool) new_totals_printer
    moves :
        {nums more : List Int64} {new : List Sample} {c d : Async} {p : TotalsPrinter}
        → PrintedRuns nums c p
        → Step Dual.calculate regrow c more new d
        → PrintedRuns (nums ++ more) d p
    ticks :
        {nums : List Int64} {c : Async} {p q : TotalsPrinter}
        → PrintedRuns nums c p
        → serve_printer p (values c) ticked ≡ some q
        → PrintedRuns nums c q
    stops :
        {nums : List Int64} {c : Async} {p q : TotalsPrinter}
        → PrintedRuns nums c p
        → c.done ≡ true
        → serve_printer p (values c) stop_asked ≡ some q
        → PrintedRuns nums c q

  PrintedRuns-Async :
      {nums : List Int64} {c : Async} {p : TotalsPrinter}
      → PrintedRuns nums c p
      → (log : List Sample) × AsyncRuns regrow (new_async f g queue_size recording pool) nums log c
  PrintedRuns-Async begins = ([], start)
  PrintedRuns-Async (moves {new = new} r s) =
      let (log, runs) = PrintedRuns-Async r in (log ++ new, next runs s)
  PrintedRuns-Async (ticks r e) = PrintedRuns-Async r
  PrintedRuns-Async (stops r d e) = PrintedRuns-Async r

  Printing : List Int64 → Async → TotalsPrinter → Type 0
  Printing nums c p = Shown f g nums p × (p.ended ≡ true → Stopped c)

  moves-Printing :
      (nums more : List Int64) {new : List Sample} (c d : Async) (p : TotalsPrinter)
      → Step Dual.calculate regrow c more new d
      → Shown f g nums p
      → (p.ended ≡ true → Stopped c)
      → Printing (nums ++ more) d p
  unfolding Printing
  moves-Printing nums more c d p s (going ps) k =
      (going (Parts-more f g nums more ps), λ e. absurd cc)
  moves-Printing nums more c d p s (over ps) k =
      let (l, none_new) = Step-Stopped regrow s (k refl) in
      let same : nums ≡ nums ++ more = sym (ap (◌++◌ nums) none_new ∙ append-nil nums) in
      (subst (λ z. Shown f g z p) same (over ps), λ e. l)

  ticks-Printing :
      (nums : List Int64) (c : Async) (p q : TotalsPrinter)
      → ((before after : List Int64) × (nums ≡ before ++ after)
          × (values c ≡ totals f g zero_values before))
      → Shown f g nums p
      → serve_printer p (values c) ticked ≡ some q
      → Printing nums c q
  unfolding serve_printer on_printer print_totals Printing
  ticks-Printing nums c p q (before, after, e, v) (going ps) t =
      subst (λ z. Shown f g nums z × (z.ended ≡ true → Stopped c)) (some-injective _ _ t)
        (going (more_lines before after (values c) ps e v), λ f. absurd cc)
  ticks-Printing nums c p q (before, after, e, v) (over ps) t = absurd cc

  stops-Printing :
      (nums : List Int64) (c : Async) (p q : TotalsPrinter)
      → Stopped c
      → values c ≡ totals f g zero_values nums
      → Shown f g nums p
      → serve_printer p (values c) stop_asked ≡ some q
      → Printing nums c q
  unfolding serve_printer on_printer print_totals Printing
  stops-Printing nums c p q k v (going {lines} ps) t =
      subst (λ z. Shown f g nums z × (z.ended ≡ true → Stopped c)) (some-injective _ _ t)
        (
          subst (λ w. Shown f g nums (record { printed = lines ++ (final, w) ∷ []; ended = true }))
              (sym v) (over ps),
          λ e. k,
        )
  stops-Printing nums c p q k v (over ps) t = absurd cc

  module _ (fits : PoolValid pool) where
    runs-Printing :
        {nums : List Int64} {c : Async} {p : TotalsPrinter}
        → PrintedRuns nums c p
        → Printing nums c p
    unfolding Printing new_totals_printer Stopped
    runs-Printing begins = (going no_lines, λ e. absurd cc)
    runs-Printing (moves {nums} {more} {c = c} {d} {p} r s) =
        let (m, k) = runs-Printing r in moves-Printing nums more c d p s m k
    runs-Printing (ticks {nums} {c} {p} {q} r e) =
        let runs = (PrintedRuns-Async r).1 in
        let (before, after, i, v, _, _) =
          values_consistent f g queue_size recording pool fits regrow runs in
        ticks-Printing nums c p q (before, after, i, v) (runs-Printing r).0 e
    runs-Printing (stops {nums} {c} {p} {q} r d e) =
        let runs = (PrintedRuns-Async r).1 in
        stops-Printing nums c p q (d, done-closed f g queue_size recording pool fits regrow runs d)
          (values-ended f g queue_size recording pool fits regrow runs d) (runs-Printing r).0 e

    -- Every periodic line on the log shows the totals of a first part of the numbers that
    -- `Calculate` took in, in the order in which it took them, and the final line, which comes last
    -- and exactly if the printer has ended, those of all of them.
    pub printed_totals :
        {nums : List Int64} {c : Async} {p : TotalsPrinter}
        → PrintedRuns nums c p
        → Shown f g nums p
    unfolding Printing
    printed_totals r = (runs-Printing r).0
