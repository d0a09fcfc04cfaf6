-- ===== src/Generator/Client/Uri.antt =====
-- The URI of a request fits the buffer that the client made for it.
use cdnnow_test_golang.Shared.{
  ℕ, zero, suc, ◌+◌, ◌-◌, ◌*◌, ◌/◌, ◌%◌, ◌^◌, ◌<◌, ◌≤◌, ◌≡◌, refl, ap, ◌∙◌, Bool-cases, inl, inr,
  ltb, ltb→lt, ltb→le, List, [], ◌∷◌, some, arith, length, length-append, drop, drop-append, Bool,
  true, false,
}
use cdnnow_test_golang.Operators.{Int64, modulus}
use cdnnow_test_golang.Api.Numbers.{parse_int}
use cdnnow_test_golang.Api.Numbers.Decimal.{decimal, format_int, parse_int-format_int}
use cdnnow_test_golang.Generator.Client.{
  query_start, max_int64_digits, contains_char, uri_buf, uri_cap, uri_of,
}

-- The numbers of at most so many digits.
unfoldable below : ℕ → ℕ
below zero = 1
below (suc k) = below k * 10

length-decimal : (fuel n k : ℕ) → n ≤ fuel → n < below (suc k) → length (decimal fuel n) ≤ suc k
unfolding decimal below
length-decimal zero n k le lt = omega arith
length-decimal (suc fuel) n zero le lt =
    let h : ltb n 10 ≡ true = ground arith in rw h (omega arith)
length-decimal (suc fuel) n (suc k) le lt = elim (Bool-cases (ltb n 10)) [
  | inl h ↦ rw h (omega arith)
  | inr h ↦
      let ten : 10 ≤ n = ltb→le _ _ h in
      let rest = length-decimal fuel (n / 10) k (omega arith) (omega (arith, lt)) in
      rw h (omega (arith, length-append (decimal fuel (n / 10)) ((b'0' + n % 10) ∷ []), rest))
]

int64-below : 2 ^ 63 < below 19
unfolding below
int64-below = omega arith

pub length-format_int : (n : Int64) → n < modulus → length (format_int n) ≤ max_int64_digits
unfolding format_int
length-format_int n lt = elim (Bool-cases (ltb n (2 ^ 63))) [
  | inl h ↦
      let small : n < 2 ^ 63 = ltb→lt _ _ h in
      let fits = length-decimal n n 18 (omega arith) (omega (arith, small, int64-below)) in
      rw h (omega (arith, fits))
  | inr h ↦
      let big : 2 ^ 63 ≤ n = ltb→le _ _ h in
      let fits =
        length-decimal (modulus - n) (modulus - n) 18 (omega arith)
          (omega (arith, lt, big, int64-below)) in
      rw h (omega (arith, fits))
]

length-query_start : (b : Bool) → length (query_start b) ≡ 5
length-query_start true = refl
length-query_start false = refl

length-uri_buf : (path : List ℕ) → length (uri_buf path) ≡ length path + 5
unfolding uri_buf
length-uri_buf path =
    length-append path (query_start (contains_char b'?' path))
    ∙ ap (λ k. length path + k) (length-query_start (contains_char b'?' path))

-- The URI of a request with any int64 fits the capacity of the client's buffer, and the server's
-- number parser reads back the number behind the buffer's text.
pub uri_fits :
    (path : List ℕ) (n : Int64)
    → n < modulus
    → (length (uri_of path n) ≤ uri_cap path)
      × (parse_int (drop (length (uri_buf path)) (uri_of path n)) ≡ some n)
unfolding uri_of uri_cap
uri_fits path n lt = (
  omega (
    arith,
    length-append (uri_buf path) (format_int n),
    length-uri_buf path,
    length-format_int n lt,
  ),
  ap parse_int (drop-append (uri_buf path) (format_int n) _ refl) ∙ parse_int-format_int n lt,
)
