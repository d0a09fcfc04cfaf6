-- ===== src/Deque/Tests.antt =====
-- Runs of the deque, and its theorems at concrete inputs.
use cdnnow_test_golang.Shared.{
  ℕ, ◌≡◌, refl, List, [], ◌∷◌, arith, some, pos, negsuc, true, ◌+◌, ◌≤◌, length,
}
use cdnnow_test_golang.Deque.{
  Deque, front_elem, back_elem, ensure_room, grow, snapshot_into, set_at, at, reset, reserve,
  push_back, pop_front, pop_back, push_front, to_slice,
}
use cdnnow_test_golang.Deque.Valid.{IsValid, contents}
use cdnnow_test_golang.Deque.Grow.{reserve_lem}
use cdnnow_test_golang.Deque.Refine.{run_refines}
use cdnnow_test_golang.Deque.Client.{step, run}
use cdnnow_test_golang.Deque.Spec
use cdnnow_test_golang.Deque.Spec.{
  Call, front_of, back_of, take_front, take_back, clear, add_back, add_front, read_at, write_at,
  grow_by, slice_into, Reply, done, value, values,
}

-- 8, then 9, then 4 round the end of the buffer.
abbrev wrapped : Deque ℕ
wrapped = record { buf = 9 ∷ 4 ∷ 0 ∷ 8 ∷ []; front = 3; size = 3 }

wrapped-IsValid : IsValid wrapped
wrapped-IsValid = record { front_in = omega arith; size_in = omega arith }

abbrev script : List (Call ℕ)
script =
    add_back 5
    ∷ add_front 7
    ∷ slice_into []
    ∷ take_back
    ∷ write_at (pos 1) 6
    ∷ take_front
    ∷ front_of
    ∷ clear
    ∷ read_at (negsuc 0)
    ∷ take_front
    ∷ []

-- The fifth element makes the buffer grow.
run-wrapped : run 0 wrapped script ≡ (
  done ∷ done ∷ values (7 ∷ 8 ∷ 9 ∷ 4 ∷ 5 ∷ []) ∷ value 5 ∷ done ∷ value 7 ∷ value 6 ∷ done ∷ [],
  true,
)
unfolding run step push_back push_front pop_front pop_back front_elem back_elem ensure_room grow
    to_slice snapshot_into set_at at reset
run-wrapped = refl

run_refines_example : run 0 wrapped script ≡ Spec.run (8 ∷ 9 ∷ 4 ∷ []) script
run_refines_example = run_refines 0 wrapped script wrapped-IsValid

reserve_lem_example :
    (e : Deque ℕ) × (reserve 0 wrapped (pos 2) ≡ some e)
    × (contents 0 e ≡ contents 0 wrapped)
    × IsValid e
    × (e.size + 2 ≤ length e.buf)
    × (wrapped.size + 2 ≤ length wrapped.buf → e ≡ wrapped)
reserve_lem_example = reserve_lem 0 wrapped 2 wrapped-IsValid (omega arith)
