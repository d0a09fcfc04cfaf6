-- ===== src/Generator/Client/Tests.antt =====
-- The client's theorems at concrete requests.
use cdnnow_test_golang.Shared.{
  if◌then◌else◌, Option, ◌==◌, ◌++◌, ℕ, zero, suc, ◌-◌, ◌^◌, ◌<◌, ◌≤◌, ◌≡◌, ◌↔◌, refl, true, none,
  some, List, [], ◌∷◌, arith, length, drop, take, replicate, length-take,
}
use cdnnow_test_golang.Api.{Service, err_overloaded}
use cdnnow_test_golang.Api.Numbers.{parse_int}
use cdnnow_test_golang.Api.Numbers.Decimal.{decimal, format_int}
use cdnnow_test_golang.Api.Std.{serve_std}
use cdnnow_test_golang.Api.Fast.{serve_fast}
use cdnnow_test_golang.Generator.Client.{
  HttpError, answer, http_error, uri_buf, uri_cap, uri_of, contains_char, error_text, do_request,
}
use cdnnow_test_golang.Generator.Client.Uri.{uri_fits}
use cdnnow_test_golang.Generator.Client.Messages.{do_request_bounds}
use cdnnow_test_golang.Generator.Client.Served.{Agrees, request_for, request_served}

-- "/calc"
abbrev calc : List ℕ
calc = b'/' ∷ b'c' ∷ b'a' ∷ b'l' ∷ b'c' ∷ []

-- "/calc?num=-7"
uri_test :
    uri_of calc (2 ^ 64 - 7)
    ≡ b'/' ∷ b'c' ∷ b'a' ∷ b'l' ∷ b'c' ∷ b'?' ∷ b'n' ∷ b'u' ∷ b'm' ∷ b'=' ∷ b'-' ∷ b'7' ∷ []
unfolding uri_of uri_buf contains_char format_int decimal
uri_test = refl

uri_fits_example :
    (length (uri_of calc (2 ^ 64 - 7)) ≤ uri_cap calc)
    × (parse_int (drop (length (uri_buf calc)) (uri_of calc (2 ^ 64 - 7))) ≡ some (2 ^ 64 - 7))
uri_fits_example = uri_fits calc (2 ^ 64 - 7) (omega arith)

-- A trimming that keeps at most a thousand bytes, and one text for every status.
abbrev kept : List ℕ → List ℕ
kept s = take 1000 s

abbrev no_text : ℕ → List ℕ
no_text code = b'?' ∷ []

abbrev long_body : List ℕ
long_body = replicate 300 b'x'

do_request_bounds_example :
    (((do_request kept no_text (answer 5 503 long_body)).1 ≡ none) ↔ ((200 ≤ 503) × (503 < 300)))
    × ((x : HttpError)
        → (do_request kept no_text (answer 5 503 long_body)).1 ≡ some (http_error x)
        → length (error_text kept no_text x) ≤ 282)
do_request_bounds_example =
    do_request_bounds kept no_text (λ s. omega (arith, length-take 1000 s)) (λ code. omega arith) 5
      503 long_body (omega arith)

-- A calculator that is busy in state 0.
abbrev busy_at_zero : Service ℕ
busy_at_zero = record {
  calculate = λ s n. elim s [ zero ↦ (0, some err_overloaded) | suc k ↦ (k, none) ];
  count_requests = λ s kind. s;
  print_metrics = λ s. (s, []);
}

-- A URL parser that knows one path.
abbrev before_mark : List ℕ → List ℕ
before_mark [] = []
before_mark (c ∷ cs) = let rest = before_mark cs in if c == b'?' then [] else c ∷ rest

abbrev value_of : List ℕ → List ℕ → Option (List ℕ)
value_of [] [] = none
value_of [] (c ∷ cs) = if c == b'=' then some cs else none
value_of (k ∷ ks) [] = none
value_of (k ∷ ks) (c ∷ cs) = let rest = value_of ks cs in if k == c then rest else none

abbrev calc_value : List ℕ → List ℕ → Option (List ℕ)
calc_value uri key = value_of key (drop 6 uri)

value_of_lem : (key value : List ℕ) → value_of key (key ++ b'=' ∷ value) ≡ some value
value_of_lem [] value = refl
value_of_lem (k ∷ ks) value =
    let same : (k == k) ≡ true = ground arith in rw same (value_of_lem ks value)

request_served_example :
    Agrees busy_at_zero kept no_text 0 9 5 []
      (serve_std busy_at_zero 0 true (request_for before_mark calc_value 9))
    × Agrees busy_at_zero kept no_text 0 9 5 []
        (serve_fast busy_at_zero 0 true (request_for before_mark calc_value 9))
request_served_example =
    request_served busy_at_zero kept no_text before_mark calc_value (λ query. refl)
      (λ key value p v. value_of_lem key value) 0 true 9 5 [] (omega arith)
