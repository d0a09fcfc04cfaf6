-- ===== src/Operators/Laws.antt =====
-- Sums and differences of int64 values, and of whole lists of them.
use cdnnow_test_golang.Shared.{◌+◌, ◌%◌, ◌<◌, ◌≡◌, arith}
use cdnnow_test_golang.Operators.{Int64, modulus, add, sub}

pub add-lt : (a b : Int64) → add a b < modulus
unfolding add
add-lt a b = omega arith

pub sub-lt : (a b : Int64) → sub a b < modulus
unfolding sub
sub-lt a b = omega arith

-- The total of a list of int64 values, in any order.
pub add_swap : (t a b : Int64) → add (add t a) b ≡ add (add t b) a
unfolding add
add_swap t a b = omega arith

pub sub_swap : (t a b : Int64) → sub (sub t a) b ≡ sub (sub t b) a
unfolding sub
sub_swap t a b = omega arith

-- One running total is the negative of the other.
pub add-sub-cancel : (s t a : Int64) → (s + t) % modulus ≡ 0 → (add s a + sub t a) % modulus ≡ 0
unfolding add sub
add-sub-cancel s t a h = omega arith
