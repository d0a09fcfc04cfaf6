-- ===== src/Pools/Tests.antt =====
-- The pool's theorems at a concrete pool.
use cdnnow_test_golang.Shared.{ℕ, ◌≡◌, some, [], ◌∷◌, arith}
use cdnnow_test_golang.Pools.{Slice, BatchPool, get, put}
use cdnnow_test_golang.Pools.Safety.{IsValid, IsFresh, get-IsFresh, put-IsValid}

-- One array of four elements waits for its next use.
abbrev stocked : BatchPool
stocked = record { batch_size = 4; pool = 4 ∷ [] }

stocked-IsValid : IsValid stocked
stocked-IsValid = omega arith

abbrev used : Slice ℕ
used = record { elems = 1 ∷ 2 ∷ []; capacity = 4; backing = 4 }

get-IsFresh_example :
    IsFresh {A = ℕ} 4 (get stocked (some 0)).0
    × IsValid (get {A = ℕ} stocked (some 0)).1
    × ((get {A = ℕ} stocked (some 0)).1.batch_size ≡ 4)
get-IsFresh_example = get-IsFresh ℕ stocked (some 0) stocked-IsValid

put-IsValid_example :
    IsValid (put stocked used)
    × (used.capacity ≡ stocked.batch_size → (put stocked used).pool ≡ 4 ∷ 4 ∷ [])
    × (¬ (used.capacity ≡ stocked.batch_size) → put stocked used ≡ stocked)
put-IsValid_example = put-IsValid stocked used stocked-IsValid (omega arith)
