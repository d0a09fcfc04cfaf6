-- ===== src/Calculators/Sync/Consistent.antt =====
-- The mutex of `Sync` makes each calculation atomic for every reader.
use cdnnow_test_golang.Shared.{
  ℕ, ◌≡◌, refl, sym, ap, ap₂, ◌∙◌, subst, Bool, Option, Option-cases, none, some, List, [], ◌∷◌,
  ◌++◌, inl, inr, arith,
}
use mathlib.Core.List.{foldl-append}
use cdnnow_test_golang.Operators.{Int64, Op, apply}
use cdnnow_test_golang.Calculators.Dual
use cdnnow_test_golang.Calculators.Dual.{Values, DualState, totals}
use cdnnow_test_golang.Calculators.Server.{accepted}
use cdnnow_test_golang.Calculators.Sync.{
  Sync, Holder, to_add, to_sub, to_release, to_read, to_return, new_sync, acquire, inside, advance,
  record_next, SyncRuns, start, enter, read, work, report,
}

abbrev zero_values : Values
zero_values = record { sum = 0; sub = 0 }

module _ (f g : Op) where
  -- The values after all numbers, and after all but the last.
  abbrev After : Values → List Int64 → Type 0
  After v nums = v ≡ totals f g zero_values nums

  -- What the values are while the mutex has this owner.
  abbrev pub Within : Option Holder → Values → List Int64 → Type 0
  Within none v nums = After v nums
  Within (some (to_add num)) v nums =
      (before : List Int64) × (nums ≡ before ++ num ∷ []) × After v before
  Within (some (to_sub num d)) v nums =
      (before : List Int64) × (nums ≡ before ++ num ∷ [])
      × (v ≡ record {
        sum = apply f (totals f g zero_values before).sum num;
        sub = (totals f g zero_values before).sub;
      })
  Within (some (to_release s)) v nums = After v nums
  Within (some to_read) v nums = After v nums
  Within (some (to_return w)) v nums = After v nums × After w nums

  pub record Holds (c : Sync) (nums : List Int64) : Type 0 where
    pub adds : c.state.add_op ≡ f
    pub subs : c.state.sub_op ≡ g
    pub within : Within c.lock c.state.vals nums

  totals-snoc :
      (before : List Int64) (num : Int64)
      → totals f g zero_values (before ++ num ∷ []) ≡ record {
        sum = apply f (totals f g zero_values before).sum num;
        sub = apply g (totals f g zero_values before).sub num;
      }
  totals-snoc before num =
      ap₂ (λ (a : Int64) (b : Int64). record { sum = a; sub = b })
        (foldl-append (apply f) 0 before (num ∷ [])) (foldl-append (apply g) 0 before (num ∷ []))

  inside-Holds :
      (c : Sync) (holder : Holder) (took : ℕ) (nums : List Int64)
      → c.state.add_op ≡ f
      → c.state.sub_op ≡ g
      → Within (some holder) c.state.vals nums
      → Holds (inside c holder took) nums
  unfolding inside Dual.add Dual.sub
  inside-Holds c (to_add num) took nums a s (before, e, v) = record {
    adds = a;
    subs = s;
    within = (before, e, rw (a, v) refl);
  }
  inside-Holds c (to_sub num d) took nums a s (before, e, v) = record {
    adds = a;
    subs = s;
    within = rw (s, v) (sym (ap (totals f g zero_values) e ∙ totals-snoc before num));
  }
  inside-Holds c (to_release sample) took nums a s w = record { adds = a; subs = s; within = w }
  inside-Holds c to_read took nums a s w = record { adds = a; subs = s; within = (w, w) }
  inside-Holds c (to_return vals) took nums a s w = record { adds = a; subs = s; within = w.0 }

acquire-accepted :
    (c e : Sync) (holder : Holder)
    → acquire c holder ≡ accepted e
    → (c.lock ≡ none) × (e ≡ record c { lock = some holder })
unfolding acquire
acquire-accepted c e holder h = ground arith

advance-accepted :
    (c e : Sync) (took : ℕ)
    → advance c took ≡ accepted e
    → (holder : Holder) × (c.lock ≡ some holder) × (e ≡ inside c holder took)
unfolding advance
advance-accepted c e took h = elim (Option-cases c.lock) [
  | inl n ↦ absurd (ground arith)
  | inr (holder, l) ↦ (holder, l, ground arith)
]

record_next-accepted :
    (c e : Sync) (i : ℕ) → record_next c i ≡ accepted e → (e.state ≡ c.state) × (e.lock ≡ c.lock)
unfolding record_next
record_next-accepted c e i h = ground arith

module _ (f g : Op) (recording : Bool) where
  Runs-Holds :
      {nums : List Int64} {c : Sync} → SyncRuns (new_sync f g recording) nums c → Holds f g c nums
  unfolding new_sync
  Runs-Holds start = record { adds = refl; subs = refl; within = refl }
  Runs-Holds (enter {d} {e} {nums} num runs h) =
      let i = Runs-Holds runs in
      let (l, q) = acquire-accepted d e (to_add num) h in
      let w = subst (λ o. Within f g o d.state.vals nums) l i.within in
      rw q (record { adds = i.adds; subs = i.subs; within = (nums, refl, w) })
  Runs-Holds {nums} (read {d} {e} runs h) =
      let i = Runs-Holds runs in
      let (l, q) = acquire-accepted d e to_read h in
      let w = subst (λ o. Within f g o d.state.vals nums) l i.within in
      rw q (record { adds = i.adds; subs = i.subs; within = w })
  Runs-Holds {nums} (work {d} {e} took runs h) =
      let i = Runs-Holds runs in
      let (holder, l, q) = advance-accepted d e took h in
      let w = subst (λ o. Within f g o d.state.vals nums) l i.within in
      rw q (inside-Holds f g d holder took nums i.adds i.subs w)
  Runs-Holds {nums} (report {d} {e} k runs h) =
      let i = Runs-Holds runs in
      let (s, l) = record_next-accepted d e k h in
      record {
        adds = ap (λ (z : DualState). z.add_op) s ∙ i.adds;
        subs = ap (λ (z : DualState). z.sub_op) s ∙ i.subs;
        within = rw (s, l) i.within;
      }

  -- In every interleaving of callers, what a call of `Values` returns are the totals of all numbers
  -- whose calculation entered the mutex before it, in order; and while the mutex is free, so are
  -- the values.
  pub sync_values :
      {nums : List Int64} {c : Sync}
      → SyncRuns (new_sync f g recording) nums c
      → ((v : Values) → c.lock ≡ some (to_return v) → v ≡ totals f g zero_values nums)
        × (c.lock ≡ none → c.state.vals ≡ totals f g zero_values nums)
  sync_values {nums} {c} runs =
      let w = (Runs-Holds runs).within in
      (
        λ v l. (subst (λ o. Within f g o c.state.vals nums) l w).1,
        λ l. subst (λ o. Within f g o c.state.vals nums) l w,
      )
