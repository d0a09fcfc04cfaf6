-- ===== src/Pools/Safety.antt =====
-- The pool hands out slices that lie inside their arrays.
use cdnnow_test_golang.Shared.{
  ℕ, zero, suc, ◌≤◌, ◌<◌, ◌≡◌, refl, ◌⊎◌, inl, inr, Option, none, some, List, [], ◌∷◌, arith,
  get_elem?, ℤ, ◌==◌, Bool-cases, length,
}
use cdnnow_test_golang.Pools.{
  Slice, BatchPool, make_slice, new_batch_pool, remove_at, pool_get, get, put,
}

-- A slice reaches no further than its array.
pub record InArray {A : Type 0} (s : Slice A) : Type 0 where
  pub length_in : length s.elems ≤ s.capacity
  pub capacity_in : s.capacity ≤ s.backing

abbrev pub AllAtLeast : ℕ → List ℕ → Type 0
AllAtLeast n [] = Unit {0}
AllAtLeast n (x ∷ xs) = (n ≤ x) × AllAtLeast n xs

-- Every item of the pool is large enough for a batch.
pub record IsValid (p : BatchPool) : Type 0 where
  pub positive : 0 < p.batch_size
  pub large : AllAtLeast p.batch_size p.pool

-- An empty batch of the pool's size, inside its array.
pub record IsFresh {A : Type 0} (n : ℕ) (s : Slice A) : Type 0 where
  pub empty : s.elems ≡ []
  pub right_size : s.capacity ≡ n
  pub room : n ≤ s.backing

pool_get-large :
    (n : ℕ) (xs : List ℕ) (i : ℕ)
    → AllAtLeast n xs
    → (get_elem? xs i ≡ none)
      ⊎ ((x : ℕ) × (get_elem? xs i ≡ some x) × (n ≤ x) × AllAtLeast n (remove_at xs i))
pool_get-large n [] i h = inl refl
pool_get-large n (x ∷ xs) zero h = inr (x, refl, h.0, h.1)
pool_get-large n (x ∷ xs) (suc i) h = elim (pool_get-large n xs i h.1) [
  | inl e ↦ inl e
  | inr (y, e, k, r) ↦ inr (y, e, k, (h.0, r))
]

pub new_batch_pool-IsValid : (n : ℤ) {p : BatchPool} → new_batch_pool n ≡ some p → IsValid p
unfolding new_batch_pool
new_batch_pool-IsValid n e = ground arith

-- Whatever `sync.Pool` answers, `Get` of a valid pool returns an empty slice of the batch size that
-- lies inside its array, and leaves a valid pool of the same batch size.
pub get-IsFresh :
    (A : Type 0) (p : BatchPool) (choice : Option ℕ)
    → IsValid p
    → IsFresh {A = A} p.batch_size (get p choice).0
      × IsValid (get {A = A} p choice).1
      × ((get {A = A} p choice).1.batch_size ≡ p.batch_size)
unfolding get make_slice pool_get
get-IsFresh A p none v = (record { empty = refl; right_size = refl; room = omega arith }, v, refl)
get-IsFresh A p (some i) v = elim (pool_get-large p.batch_size p.pool i v.large) [
  | inl e ↦ rw (e, get) (record { empty = refl; right_size = refl; room = omega arith }, v, refl)
  | inr (x, e, k, r) ↦
      rw (e, get)
        (
          record { empty = refl; right_size = refl; room = k },
          record { positive = v.positive; large = r },
          refl,
        )
]

-- `Put` keeps the pool safe, whatever slice it is given; it keeps a slice of the pool's capacity,
-- and drops every other one.
pub put-IsValid :
    {A : Type 0} (p : BatchPool) (s : Slice A)
    → IsValid p
    → InArray s
    → IsValid (put p s)
      × (s.capacity ≡ p.batch_size → (put p s).pool ≡ s.backing ∷ p.pool)
      × (¬ (s.capacity ≡ p.batch_size) → put p s ≡ p)
unfolding put
put-IsValid p s v h = elim (Bool-cases (s.capacity == p.batch_size)) [
  | inl e ↦ rw e (
    record { positive = v.positive; large = (ground (arith, h.capacity_in), v.large) },
    λ k. refl,
    λ k. absurd (k (ground arith)),
  )
  | inr e ↦ rw e (v, λ k. absurd (ground arith), λ k. refl)
]
