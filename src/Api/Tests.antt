-- ===== src/Api/Tests.antt =====
-- The handlers' theorems at a concrete service, and numbers that are read.
use cdnnow_test_golang.Shared.{ℕ, ◌≡◌, ◌+◌, ◌-◌, ◌^◌, refl, true, none, some, [], ◌∷◌}
use cdnnow_test_golang.Api.{post, calc_path, Request, Service}
use cdnnow_test_golang.Api.Numbers.{digit, digits, parse_uint, parse_int}
use cdnnow_test_golang.Api.Std.{std_calc_handler}
use cdnnow_test_golang.Api.Agreement.{outcome, status_for, calc_counted}

parse_int_test :
    (parse_int (b'-' ∷ b'1' ∷ []) ≡ some (2 ^ 64 - 1))
    × (parse_int (b'+' ∷ b'4' ∷ b'2' ∷ []) ≡ some 42)
    × (parse_int (b'-' ∷ []) ≡ none)
    × (parse_int (b'4' ∷ b' ' ∷ []) ≡ none)
unfolding parse_int parse_uint digits digit
parse_int_test = (refl, refl, refl, refl)

-- A service that adds the numbers up, and counts requests.
abbrev adder : Service (ℕ × ℕ)
adder = record {
  calculate = λ s num. ((s.0 + num, s.1), none);
  count_requests = λ s kind. (s.0, s.1 + 1);
  print_metrics = λ s. (s, s.1 ∷ []);
}

abbrev add_seven : Request
add_seven = record { method = post; path = calc_path; num = some (b'7' ∷ []) }

calc_counted_example :
    ((std_calc_handler adder (1, 0) true add_seven).0
      ≡ adder.count_requests
          (outcome adder (1, 0) (b'7' ∷ [])).0
          (outcome adder (1, 0) (b'7' ∷ [])).1)
    × ((std_calc_handler adder (1, 0) true add_seven).1.status
        ≡ status_for true (outcome adder (1, 0) (b'7' ∷ [])).1)
calc_counted_example = calc_counted adder (1, 0) true add_seven
