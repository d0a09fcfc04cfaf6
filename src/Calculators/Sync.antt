-- ===== src/Calculators/Sync.antt =====
-- `Sync` of internal/calculators/calculators.go: the caller computes, under a mutex that is a channel
-- of one slot. The state has the mutex, and the callers that are between two operations of it.
pub mod Consistent
mod Tests
use cdnnow_test_golang.Shared.{
  ℕ, zero, suc, ◌>>=◌, ◌+◌, Bool, true, false, not, ◌&&◌, Option, none, some, List, [], ◌∷◌, ◌++◌,
  if◌then◌else◌, ◌≡◌,
}
use cdnnow_test_golang.Operators.{Int64, Op}
use cdnnow_test_golang.Calculators.Dual.{Values, Sample, DualState}
use cdnnow_test_golang.Calculators.Dual
use cdnnow_test_golang.Calculators.Server.{Outcome, accepted, blocked}

-- What the caller that holds the mutex has to do before it gives it back: `c.calculate(num)`, half
-- done or done, or `vals := c.vals`.
pub data Holder : Type 0 where
  to_add : (num : Int64) → Holder
  to_sub : (num : Int64) → (add_duration : ℕ) → Holder
  to_release : Sample → Holder
  to_read : Holder
  to_return : Values → Holder

-- `lock` is the channel's content, with its owner; `to_record` are the samples of the callers that
-- have left the critical section and not yet called `recordFn`; `sent` is what it was called with.
pub record Sync : Type 0 where
  pub state : DualState
  pub lock : Option Holder
  pub recording : Bool
  pub to_record : List Sample
  pub sent : List Sample

-- `NewSync`
unfoldable pub new_sync : Op → Op → Bool → Sync
new_sync f g recording = record {
  state = record { add_op = f; sub_op = g; vals = record { sum = 0; sub = 0 } };
  lock = none;
  recording = recording;
  to_record = [];
  sent = [];
}

-- `c.lock <- struct{}{}`: it waits while the slot is full.
unfoldable pub acquire : Sync → Holder → Outcome Sync
acquire c holder = elim c.lock [
  | none ↦ accepted (record c { lock = some holder })
  | some other ↦ blocked
]

-- One operation of the caller inside, up to `<-c.lock`; the time that an operator takes is an
-- argument.
unfoldable pub inside : Sync → Holder → ℕ → Sync
inside c (to_add num) took =
    let (s, d) = Dual.add c.state num took in record c { state = s; lock = some (to_sub num d) }
inside c (to_sub num add_duration) took =
    let (s, d) = Dual.sub c.state num took in
    record c {
      state = s;
      lock = some (to_release (record { add_duration = add_duration; sub_duration = d }));
    }
inside c (to_release sample) took = record c { lock = none; to_record = sample ∷ c.to_record }
inside c to_read took = record c { lock = some (to_return c.state.vals) }
inside c (to_return vals) took = record c { lock = none }

unfoldable pub advance : Sync → ℕ → Outcome Sync
unfolding inside
advance c took = elim c.lock [ none ↦ blocked | some holder ↦ accepted (inside c holder took) ]

-- One of the samples, and the others.
abbrev pub pick : List Sample → ℕ → Option (Sample × List Sample)
pick [] i = none
pick (x ∷ xs) zero = some (x, xs)
pick (x ∷ xs) (suc i) = do (y, ys) ← pick xs i; some (y, x ∷ ys)

-- `c.record(sample)` of some caller that has left the critical section.
unfoldable pub record_next : Sync → ℕ → Outcome Sync
record_next c i = elim (pick c.to_record i) [
  | none ↦ blocked
  | some (sample, rest) ↦ accepted (
      if c.recording
      then record c { to_record = rest; sent = c.sent ++ sample ∷ [] }
      else record c { to_record = rest })
]

-- The steps of any number of callers in any interleaving, with the numbers that entered.
pub data SyncRuns (c : Sync) : List Int64 → Sync → Type 0 where
  start : SyncRuns c [] c
  enter :
      {d e : Sync} {nums : List Int64} (num : Int64)
      → SyncRuns c nums d
      → acquire d (to_add num) ≡ accepted e
      → SyncRuns c (nums ++ num ∷ []) e
  read :
      {d e : Sync} {nums : List Int64}
      → SyncRuns c nums d
      → acquire d to_read ≡ accepted e
      → SyncRuns c nums e
  work :
      {d e : Sync} {nums : List Int64} (took : ℕ)
      → SyncRuns c nums d
      → advance d took ≡ accepted e
      → SyncRuns c nums e
  report :
      {d e : Sync} {nums : List Int64} (i : ℕ)
      → SyncRuns c nums d
      → record_next d i ≡ accepted e
      → SyncRuns c nums e
