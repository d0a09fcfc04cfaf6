-- ===== src/Pools.antt =====
-- internal/pools/batch_pool.go: a pool of slices of one capacity.
-- Of `sync.Pool` only this is used: `Get` answers nil, or takes out some item that was put. Which
-- one is the environment's choice, an argument of `get`. An item is a pointer to the first element
-- of an array; it is modelled by the number of elements of that array.
pub mod Safety
mod Tests
use cdnnow_test_golang.Shared.{
  ℕ, zero, suc, Option, none, some, List, [], ◌∷◌, ◌==◌, if◌then◌else◌, get_elem?, ℤ, pos, negsuc,
  ◌>>=◌,
}

-- A slice: its elements, its capacity, and how many elements the array behind it has.
pub record Slice (A : Type 0) : Type 0 where
  pub elems : List A
  pub capacity : ℕ
  pub backing : ℕ

-- `make([]T, 0, n)`
unfoldable pub make_slice : {A : Type 0} → ℕ → Slice A
make_slice n = record { elems = []; capacity = n; backing = n }

pub record BatchPool : Type 0 where
  pub batch_size : ℕ
  pub pool : List ℕ

-- `none` is the panic "batchSize must be positive".
unfoldable pub new_batch_pool : ℤ → Option BatchPool
new_batch_pool (negsuc n) = none
new_batch_pool (pos zero) = none
new_batch_pool (pos (suc n)) = some (record { batch_size = suc n; pool = [] })

-- The items of `sync.Pool` without the one at an index.
abbrev pub remove_at : List ℕ → ℕ → List ℕ
remove_at [] i = []
remove_at (x ∷ xs) zero = xs
remove_at (x ∷ xs) (suc i) = x ∷ remove_at xs i

-- `sync.Pool.Get`, where the environment picks nil or an item.
unfoldable pub pool_get : List ℕ → Option ℕ → Option (ℕ × List ℕ)
pool_get items none = none
pool_get items (some i) = do x ← get_elem? items i; some (x, remove_at items i)

unfoldable pub get : {A : Type 0} → BatchPool → Option ℕ → Slice A × BatchPool
get p choice = elim (pool_get p.pool choice) [
  | none ↦ (make_slice p.batch_size, p)
  | some (array, rest) ↦
      (record { elems = []; capacity = p.batch_size; backing = array }, record p { pool = rest })
]

-- A slice of another capacity is left to the garbage collector.
unfoldable pub put : {A : Type 0} → BatchPool → Slice A → BatchPool
put p batch =
    if batch.capacity == p.batch_size then record p { pool = batch.backing ∷ p.pool } else p
