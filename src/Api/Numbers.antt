-- ===== src/Api/Numbers.antt =====
-- `strconv.ParseInt(s, 10, 64)`, on the bytes of the text; `none` is its error, of syntax or range.
-- An int64 is its bit pattern, as in Operators.
pub mod Decimal
use cdnnow_test_golang.Shared.{
  ℕ, zero, suc, ◌+◌, ◌-◌, ◌*◌, ◌^◌, ◌<◌, ◌≡◌, refl, Bool, true, false, ◌&&◌, ◌||◌, Option, none,
  some, List, [], ◌∷◌, ◌++◌, ◌==◌, leb, if◌then◌else◌, ◌>>=◌, arith, ◌≤◌, ◌/◌, ◌%◌, ap, sym, ◌∙◌,
}
use cdnnow_test_golang.Operators.{Int64, modulus}

unfoldable pub digit : ℕ → Option ℕ
digit c = if leb b'0' c && leb c b'9' then some (c - b'0') else none

-- The digits that are left, after a number.
unfoldable pub digits : ℕ → List ℕ → Option ℕ
digits n [] = some n
digits n (c ∷ cs) = do d ← digit c; digits (n * 10 + d) cs

-- At least one digit.
unfoldable pub parse_uint : List ℕ → Option ℕ
parse_uint [] = none
parse_uint (c ∷ cs) = digits 0 (c ∷ cs)

unfoldable pub parse_int : List ℕ → Option Int64
parse_int [] = none
parse_int (c ∷ cs) =
    if c == b'-'
    then (do n ← parse_uint cs; if leb n (2 ^ 63) then some ((modulus - n) % modulus) else none)
    else (do
      n ← parse_uint (if c == b'+' then cs else c ∷ cs)
      if leb (2 ^ 63) n then none else some n)
