-- ===== src/Calculators/Recorder.antt =====
-- `metricRecorder` of internal/calculators/calculators.go: samples are handed over in batches.
pub mod Batches
use cdnnow_test_golang.Shared.{
  ℕ, suc, ◌+◌, Bool, true, false, not, ◌||◌, Option, none, some, List, [], ◌∷◌, ◌++◌, length, ltb,
  leb, if◌then◌else◌,
}
use cdnnow_test_golang.Pools.{Slice, BatchPool, make_slice}
use cdnnow_test_golang.Pools

-- `recording` says that `recordFn` is not nil, and `sent` is what it has been called with, oldest
-- first. `armed` says that the timer will fire. The delay of the timer is not modelled.
pub record Recorder (S : Type 0) : Type 0 where
  pub recording : Bool
  pub batch_pool : Option BatchPool
  pub batch_size : ℕ
  pub batch : Option (Slice S)
  pub armed : Bool
  pub sent : List (Slice S)

-- `append` to a slice that is full reallocates it, to a capacity that the Go runtime chooses.
unfoldable pub append : {S : Type 0} → (ℕ → ℕ) → Slice S → S → Slice S
append regrow s x =
    if ltb (length s.elems) s.capacity then record s { elems = s.elems ++ x ∷ [] } else record {
      elems = s.elems ++ x ∷ [];
      capacity = regrow s.capacity;
      backing = regrow s.capacity;
    }

module _ {S : Type 0} where
  -- The batch, and the pool that is left.
  unfoldable pub make_batch : Recorder S → Option ℕ → Slice S × Option BatchPool
  make_batch r choice = elim r.batch_pool [
    | some p ↦ let (s, p') = Pools.get p choice in (s, some p')
    | none ↦ (make_slice r.batch_size, none)
  ]

  -- `if c.batch == nil { c.batch = c.makeBatch(); c.flushTm.Reset(c.recordDelay) }`
  unfoldable pub ensure_batch : Recorder S → Option ℕ → Slice S × Recorder S
  unfolding make_batch
  ensure_batch r choice = elim r.batch [
    | some s ↦ (s, r)
    | none ↦
        let (s, pool) = make_batch r choice in
        (s, record r { batch_pool = pool; batch = some s; armed = true })
  ]

  unfoldable pub flush : Recorder S → Recorder S
  flush r = elim r.batch [
    | none ↦ r
    | some s ↦
        if r.recording then record r { batch = none; armed = false; sent = r.sent ++ s ∷ [] } else r
  ]

  -- The choice is the environment's, for `Get` of the pool.
  unfoldable pub record_sample : (ℕ → ℕ) → Recorder S → S → Option ℕ → Recorder S
  unfolding ensure_batch flush append
  record_sample regrow r x choice =
      if not r.recording
      then r
      else (let (s, q) = ensure_batch r choice in
          let s' = append regrow s x in
          let t = record q { batch = some s' } in
          if leb r.batch_size (length s'.elems) then flush t else t)
