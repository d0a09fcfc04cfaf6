-- ===== src/Deque/Spec.antt =====
-- What a deque promises: a list, used at both ends. `none` is a panic.
use cdnnow_test_golang.Shared.{
  ℕ, Option, none, some, List, [], ◌∷◌, ◌++◌, Bool, true, false, ◌>>=◌, length, get_elem?,
  set_elem?, ℤ, pos, negsuc,
}

-- The calls of a client, and what each returns.
pub data Call {ℓ} (A : Type ℓ) : Type ℓ where
  len_of is_empty front_of back_of take_front take_back clear : Call A
  add_back add_front : A → Call A
  read_at : ℤ → Call A
  write_at : ℤ → A → Call A
  grow_by : ℤ → Call A
  slice_into : List A → Call A

pub data Reply {ℓ} (A : Type ℓ) : Type ℓ where
  done : Reply A
  count : ℕ → Reply A
  answer : Bool → Reply A
  value : A → Reply A
  values : List A → Reply A

module _ {ℓ} {A : Type ℓ} where
  unfoldable pub is_nil : List A → Bool
  is_nil [] = true
  is_nil (x ∷ xs) = false

  unfoldable pub uncons : List A → Option (A × List A)
  uncons [] = none
  uncons (x ∷ xs) = some (x, xs)

  unfoldable pub extend : A → Option (A × List A) → Option (A × List A)
  extend x none = some (x, [])
  extend x (some (y, ys)) = some (y, x ∷ ys)

  -- The last element, and those before it.
  unfoldable pub unsnoc : List A → Option (A × List A)
  unsnoc [] = none
  unsnoc (x ∷ xs) = extend x (unsnoc xs)

  unfoldable pub list_at : List A → ℤ → Option A
  list_at xs (negsuc i) = none
  list_at xs (pos i) = get_elem? xs i

  unfoldable pub list_set_at : List A → ℤ → A → Option (List A)
  list_set_at xs (negsuc i) v = none
  list_set_at xs (pos i) v = set_elem? xs i v

  unfoldable pub list_grow : List A → ℤ → Option (List A)
  list_grow xs (negsuc n) = none
  list_grow xs (pos n) = some xs

  unfoldable pub step : List A → Call A → Option (Reply A × List A)
  unfolding is_nil uncons unsnoc extend list_at list_set_at list_grow
  step xs len_of = some (count (length xs), xs)
  step xs is_empty = some (answer (is_nil xs), xs)
  step xs front_of = do (v, _) ← uncons xs; some (value v, xs)
  step xs back_of = do (v, _) ← unsnoc xs; some (value v, xs)
  step xs take_front = do (v, ys) ← uncons xs; some (value v, ys)
  step xs take_back = do (v, ys) ← unsnoc xs; some (value v, ys)
  step xs clear = some (done, [])
  step xs (add_back v) = some (done, xs ++ v ∷ [])
  step xs (add_front v) = some (done, v ∷ xs)
  step xs (read_at i) = do v ← list_at xs i; some (value v, xs)
  step xs (write_at i v) = do ys ← list_set_at xs i v; some (done, ys)
  step xs (grow_by n) = do ys ← list_grow xs n; some (done, ys)
  step xs (slice_into dst) = some (values xs, xs)

  -- The replies up to the first panic, and whether there was one.
  unfoldable pub run : List A → List (Call A) → List (Reply A) × Bool
  run xs [] = ([], false)
  run xs (c ∷ cs) = elim (step xs c) [
    | none ↦ ([], true)
    | some (r, ys) ↦ let (rs, p) = run ys cs in (r ∷ rs, p)
  ]
