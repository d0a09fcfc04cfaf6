-- ===== src/Calculators/Parallel/Agreement.antt =====
-- Both goroutines of `Parallel` work through the same numbers, perhaps in another order, so that
-- their totals agree in the end.
use mathlib.Core.List.{Perm, Permᴰ, perm_middle, perm_append_singleton, foldl}
use mathlib.Core.List.Perm
use mathlib.Core.Logic.{∥∥₁_elim}
use native.Mathlib.Nat.{ℕ_set}
use cdnnow_test_golang.Shared.{
  ℕ, Bool, ◌+◌, ◌%◌, ◌≡◌, refl, sym, ap, ◌∙◌, subst, true, Option, List, [], ◌∷◌, ◌++◌, append-nil,
  append_assoc,
}
use cdnnow_test_golang.Operators.{Int64, Op, apply, add, sub, modulus}
use cdnnow_test_golang.Operators.Laws.{sub_swap, add-sub-cancel}
use cdnnow_test_golang.Pools.{BatchPool}
use cdnnow_test_golang.Calculators.Dual.{Duration}
use cdnnow_test_golang.Calculators.Server.{round, close, start, next}
use cdnnow_test_golang.Calculators.Async.{SingleState, SingleRuns, new_async_single, new_server}
use cdnnow_test_golang.Calculators.Server.Invariant.{IsNew}
use cdnnow_test_golang.Calculators.Async.Consistent.{PoolValid, value_after_end, new_server-IsNew}
use cdnnow_test_golang.Calculators.Parallel.{
  Parallel, new_parallel, values, ParallelStep, enter, settle, run_sum, run_sub, stop_sum, stop_sub,
  ParallelRuns,
}

-- A running total that does not depend on the order of its numbers.
module _ (f : Int64 → Int64 → Int64) (swap : (t a b : Int64) → f (f t a) b ≡ f (f t b) a) where
  foldl-permᴰ : {xs ys : List Int64} (t : Int64) → Permᴰ xs ys → foldl f t xs ≡ foldl f t ys
  foldl-permᴰ t Permᴰ.nil = refl
  foldl-permᴰ t (Permᴰ.cons {a} {b} {l₁} {l₂} e p) = rw e (foldl-permᴰ (f t b) p)
  foldl-permᴰ t (Permᴰ.swap {a} {b} {a'} {b'} {l} e e') =
      rw (e, e') (ap (λ s. foldl f s l) (swap t b' a'))
  foldl-permᴰ t (Permᴰ.trans p q) = foldl-permᴰ t p ∙ foldl-permᴰ t q

  foldl-perm : {xs ys : List Int64} (t : Int64) → Perm xs ys → foldl f t xs ≡ foldl f t ys
  foldl-perm t p = ∥∥₁_elim p (ℕ_set _ _) (foldl-permᴰ t)

module _ (regrow : ℕ → ℕ) where
  -- What each goroutine of `p` has taken in since `o`, when `Calculate` has taken in `nums`.
  pub record Split (o : Parallel) (nums : List Int64) (p : Parallel) : Type 0 where
    pub settled : List Int64
    pub sum_log : List Duration
    pub sub_log : List Duration
    pub sum_runs : SingleRuns regrow o.sum nums sum_log p.sum
    pub sub_runs : SingleRuns regrow o.sub settled sub_log p.sub
    pub same : Perm nums (settled ++ p.owed)

  entered :
      (nums settled owed : List Int64) (num : Int64)
      → Perm nums (settled ++ owed)
      → Perm (nums ++ num ∷ []) (settled ++ num ∷ owed)
  entered nums settled owed num h =
      Perm.trans (perm_append_singleton num nums)
        (Perm.trans (Perm.cons num h) (Perm.symm (perm_middle settled owed)))

  moved :
      (nums settled xs ys : List Int64) (num : Int64)
      → Perm nums (settled ++ (xs ++ num ∷ ys))
      → Perm nums ((settled ++ num ∷ []) ++ (xs ++ ys))
  moved nums settled xs ys num h =
      rw (append_assoc settled (num ∷ []) (xs ++ ys))
        (Perm.trans h (Perm.append_left settled (perm_middle xs ys)))

  Step-Split :
      {o p q : Parallel} {nums more : List Int64}
      → Split o nums p
      → ParallelStep regrow p more q
      → Split o (nums ++ more) q
  Step-Split {o} {p} {nums = nums} i (enter {new = new} num st) = record {
    settled = i.settled;
    sum_log = i.sum_log ++ new;
    sub_log = i.sub_log;
    sum_runs = next i.sum_runs st;
    sub_runs = i.sub_runs;
    same = entered nums i.settled p.owed num i.same;
  }
  Step-Split {o} {p} {nums = nums} i (settle {new = new} num xs ys e st) = record {
    settled = i.settled ++ num ∷ [];
    sum_log = i.sum_log;
    sub_log = i.sub_log ++ new;
    sum_runs = rw append-nil i.sum_runs;
    sub_runs = next i.sub_runs st;
    same =
        rw append-nil
          (moved nums i.settled xs ys num (subst (λ l. Perm nums (i.settled ++ l)) e i.same));
  }
  Step-Split {o} {p} {nums = nums} i (run_sum {new = new} e st) = record {
    settled = i.settled;
    sum_log = i.sum_log ++ new;
    sub_log = i.sub_log;
    sum_runs = next i.sum_runs (round e st);
    sub_runs = i.sub_runs;
    same = rw append-nil i.same;
  }
  Step-Split {o} {p} {nums = nums} i (run_sub {new = new} e st) = record {
    settled = i.settled ++ [];
    sum_log = i.sum_log;
    sub_log = i.sub_log ++ new;
    sum_runs = rw append-nil i.sum_runs;
    sub_runs = next i.sub_runs (round e st);
    same = rw (append-nil, append-nil) i.same;
  }
  Step-Split {o} {p} {nums = nums} i (stop_sum st) = record {
    settled = i.settled;
    sum_log = i.sum_log ++ [];
    sub_log = i.sub_log;
    sum_runs = next i.sum_runs (close st);
    sub_runs = i.sub_runs;
    same = rw append-nil i.same;
  }
  Step-Split {o} {p} {nums = nums} i (stop_sub d st) = record {
    settled = i.settled ++ [];
    sum_log = i.sum_log;
    sub_log = i.sub_log ++ [];
    sum_runs = rw append-nil i.sum_runs;
    sub_runs = next i.sub_runs (close st);
    same = rw (append-nil, append-nil) i.same;
  }

  -- In every interleaving the numbers that `sum` has taken in are, in some order, those that `sub`
  -- has taken in and those whose call has not reached `sub` yet.
  pub Runs-Split :
      {o p : Parallel} {nums : List Int64}
      → o.owed ≡ []
      → ParallelRuns regrow o nums p
      → Split o nums p
  Runs-Split {o} e ParallelRuns.start = record {
    settled = [];
    sum_log = [];
    sub_log = [];
    sum_runs = start;
    sub_runs = start;
    same = rw e Perm.nil;
  }
  Runs-Split e (ParallelRuns.next r st) = Step-Split (Runs-Split e r) st

-- The operators that the server is built with.
abbrev pub lib_add : Op
lib_add = record { fn = add }

abbrev pub lib_sub : Op
lib_sub = record { fn = sub }

new_parallel-IsNew :
    (f g : Op) (queue_size : ℕ) (recording : Bool) (pool : Option BatchPool)
    → PoolValid pool
    → IsNew (new_parallel f g queue_size recording pool).sum
      × IsNew (new_parallel f g queue_size recording pool).sub
unfolding new_parallel new_async_single
new_parallel-IsNew f g queue_size recording pool fits =
    let a =
      new_server-IsNew {V = SingleState} {S = Duration} (record { op = f; val = 0 }) queue_size
        recording pool fits in
    let b =
      new_server-IsNew {V = SingleState} {S = Duration} (record { op = g; val = 0 }) queue_size
        recording pool fits in
    (a, record { empty = b.empty; opened = b.opened; running = b.running; recorder = b.recorder })

module _ (f g : Op) (queue_size : ℕ) (recording : Bool) (pool : Option BatchPool)
    (fits : PoolValid pool) (regrow : ℕ → ℕ) {nums : List Int64} {p : Parallel}
    (runs : ParallelRuns regrow (new_parallel f g queue_size recording pool) nums p) where
  split : Split regrow (new_parallel f g queue_size recording pool) nums p
  unfolding new_parallel
  split = Runs-Split regrow refl runs

  -- When both goroutines have ended and no call is between its halves, `Sum` is the first
  -- operator's total of the numbers that `Calculate` took in, and `Sub` the second's total of the
  -- same numbers, perhaps in another order.
  pub totals_after_stop :
      p.sum.done ≡ true
      → p.sub.done ≡ true
      → p.owed ≡ []
      → (settled : List Int64) × Perm nums settled
        × ((values p).sum ≡ foldl (apply f) 0 nums)
        × ((values p).sub ≡ foldl (apply g) 0 settled)
  unfolding values new_parallel new_async_single new_server
  totals_after_stop d e h =
      let (a, b) = new_parallel-IsNew f g queue_size recording pool fits in
      (
        split.settled,
        rw append-nil at (subst (λ l. Perm nums (split.settled ++ l)) h split.same),
        value_after_end regrow a split.sum_runs d,
        value_after_end regrow b split.sub_runs e,
      )

pub totals-cancel :
    (s t : Int64) (nums : List Int64)
    → (s + t) % modulus ≡ 0
    → (foldl add s nums + foldl sub t nums) % modulus ≡ 0
totals-cancel s t [] h = h
totals-cancel s t (n ∷ nums) h = totals-cancel (add s n) (sub t n) nums (add-sub-cancel s t n h)

-- With the operators of the two libraries the order does not matter: after `Stop`, whatever the
-- interleaving was, `Sum` is the sum of the numbers taken in, `Sub` is their difference from zero,
-- and the two cancel.
pub stopped_totals_cancel :
    (queue_size : ℕ) (recording : Bool) (pool : Option BatchPool)
    → PoolValid pool
    → (regrow : ℕ → ℕ) {nums : List Int64} {p : Parallel}
    → ParallelRuns regrow (new_parallel lib_add lib_sub queue_size recording pool) nums p
    → p.sum.done ≡ true
    → p.sub.done ≡ true
    → p.owed ≡ []
    → ((values p).sum ≡ foldl add 0 nums)
      × ((values p).sub ≡ foldl sub 0 nums)
      × (((values p).sum + (values p).sub) % modulus ≡ 0)
unfolding apply
stopped_totals_cancel queue_size recording pool fits regrow {nums} runs d e h =
    let (settled, q, a, b) =
      totals_after_stop lib_add lib_sub queue_size recording pool fits regrow runs d e h in
    let b' = b ∙ sym (foldl-perm sub sub_swap 0 q) in
    (a, b', rw (a, b') (totals-cancel 0 0 nums refl))
