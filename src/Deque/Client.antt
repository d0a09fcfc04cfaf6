-- ===== src/Deque/Client.antt =====
-- A client's calls of a deque in order, with what each returns.
use cdnnow_test_golang.Shared.{Option, none, some, List, [], ◌∷◌, Bool, true, false, ◌>>=◌}
use cdnnow_test_golang.Deque.{
  Deque, len, empty, front_elem, back_elem, at, set_at, push_back, push_front, pop_front, pop_back,
  to_slice, reset, reserve,
}
use cdnnow_test_golang.Deque.Spec.{
  Call, len_of, is_empty, front_of, back_of, take_front, take_back, clear, add_back, add_front,
  read_at, write_at, grow_by, slice_into, Reply, done, count, answer, value, values,
}

module _ {ℓ} {A : Type ℓ} (nil : A) where
  unfoldable pub step : Deque A → Call A → Option (Reply A × Deque A)
  step d len_of = some (count (len d), d)
  step d is_empty = some (answer (empty d), d)
  step d front_of = do v ← front_elem d; some (value v, d)
  step d back_of = do v ← back_elem d; some (value v, d)
  step d take_front = do (v, e) ← pop_front nil d; some (value v, e)
  step d take_back = do (v, e) ← pop_back nil d; some (value v, e)
  step d clear = some (done, reset nil d)
  step d (add_back v) = do e ← push_back nil d v; some (done, e)
  step d (add_front v) = do e ← push_front nil d v; some (done, e)
  step d (read_at i) = do v ← at d i; some (value v, d)
  step d (write_at i v) = do e ← set_at d i v; some (done, e)
  step d (grow_by n) = do e ← reserve nil d n; some (done, e)
  step d (slice_into dst) = some (values (to_slice nil d dst), d)

  unfoldable pub run : Deque A → List (Call A) → List (Reply A) × Bool
  run d [] = ([], false)
  run d (c ∷ cs) = elim (step d c) [
    | none ↦ ([], true)
    | some (r, e) ↦ let (rs, p) = run e cs in (r ∷ rs, p)
  ]
