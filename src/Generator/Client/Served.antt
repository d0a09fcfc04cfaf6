-- ===== src/Generator/Client/Served.antt =====
-- The client and the two servers agree on which requests succeed.
use cdnnow_test_golang.Shared.{
  ℕ, zero, suc, ◌+◌, ◌-◌, ◌/◌, ◌%◌, ◌^◌, ◌<◌, ◌≤◌, ◌≡◌, ◌↔◌, refl, sym, ap, ◌∙◌, Bool, true, false,
  ◌&&◌, ◌||◌, Bool-cases, inl, inr, ltb, leb, ltb→lt, ltb→le, arith, Option, none, some, List, [],
  ◌∷◌, ◌++◌,
}
use cdnnow_test_golang.Operators.{Int64, modulus}
use cdnnow_test_golang.Calculators.Dual.{Duration}
use cdnnow_test_golang.Metrics.Kinds.{RequestKind}
use cdnnow_test_golang.Api.{
  Request, post, calc_path, calc_route, path_named, request_at, Response, CalcError, err_overloaded,
  other_error, Service,
}
use cdnnow_test_golang.Api.Numbers.Decimal.{decimal, format_int, parse_int-format_int}
use cdnnow_test_golang.Api.Std.{std_calc_handler, route_std, serve_std}
use cdnnow_test_golang.Api.Fast.{fast_calc_handler, serve_fast}
use cdnnow_test_golang.Api.Agreement.{
  kind_of, status_for, outcome, outcome-some, calc_counted, fast_counted,
}
use cdnnow_test_golang.Generator.Client.{
  is_ok, answer, ClientError, do_request, calc_num_key, contains_char, uri_buf, uri_of,
}
use cdnnow_test_golang.Generator.Client.Messages.{do_request-ok}

-- The bytes of a query that stand for themselves: those from '-' to '9', and the small letters.
abbrev pub is_plain : ℕ → Bool
is_plain c = (leb b'-' c && leb c b'9') || (leb b'a' c && leb c b'z')

abbrev pub plain_text : List ℕ → Bool
plain_text [] = true
plain_text (c ∷ cs) = is_plain c && plain_text cs

plain_text-append :
    (xs ys : List ℕ) → plain_text xs ≡ true → plain_text ys ≡ true → plain_text (xs ++ ys) ≡ true
plain_text-append [] ys e f = f
plain_text-append (x ∷ xs) ys e f = elim (Bool-cases (is_plain x)) [
  | inl k ↦ rw k (plain_text-append xs ys (sym (ap (λ b. b && plain_text xs) k) ∙ e) f)
  | inr k ↦ absurd (cc (sym (ap (λ b. b && plain_text xs) k) ∙ e))
]

digit-plain : (d : ℕ) → d < 10 → plain_text ((b'0' + d) ∷ []) ≡ true
digit-plain d lt = ground arith

decimal-plain : (fuel n : ℕ) → n ≤ fuel → plain_text (decimal fuel n) ≡ true
unfolding decimal
decimal-plain zero n le = digit-plain n (omega arith)
decimal-plain (suc fuel) n le = elim (Bool-cases (ltb n 10)) [
  | inl k ↦ rw k (digit-plain n (ltb→lt _ _ k))
  | inr k ↦
      let ten : 10 ≤ n = ltb→le _ _ k in
      rw k (
        plain_text-append (decimal fuel (n / 10)) _ (decimal-plain fuel (n / 10) (omega arith))
          (digit-plain (n % 10) (omega arith)))
]

format_int-plain : (n : Int64) → plain_text (format_int n) ≡ true
unfolding format_int
format_int-plain n = elim (Bool-cases (ltb n (2 ^ 63))) [
  | inl k ↦ rw k (decimal-plain n n (omega arith))
  | inr k ↦ rw k (
      plain_text-append (b'-' ∷ []) (decimal (modulus - n) (modulus - n)) refl
        (decimal-plain (modulus - n) (modulus - n) (omega arith)))
]

-- The request that a worker sends for the number, to the endpoint of the calculation.
abbrev pub request_for :
    (url_path : List ℕ → List ℕ)
    → (query_value : List ℕ → List ℕ → Option (List ℕ)) → Int64
    → Request
request_for url_path query_value n = request_at url_path query_value post (uri_of calc_route n)

module _ (url_path : List ℕ → List ℕ) (query_value : List ℕ → List ℕ → Option (List ℕ))
    (finds_path : (query : List ℕ) → url_path (calc_route ++ b'?' ∷ query) ≡ calc_route)
    (finds_value : (key value : List ℕ)
      → plain_text key ≡ true
      → plain_text value ≡ true
      → query_value (calc_route ++ b'?' ∷ key ++ b'=' ∷ value) key ≡ some value) where
  request_for_lem :
      (n : Int64)
      → request_for url_path query_value n
        ≡ record { method = post; path = calc_path; num = some (format_int n) }
  unfolding request_at path_named uri_of uri_buf contains_char
  request_for_lem n =
      rw
        (
          finds_path (calc_num_key ++ b'=' ∷ format_int n),
          finds_value calc_num_key (format_int n) refl (format_int-plain n),
        )
        refl

ok_status :
    (async_calc : Bool) (e : Option CalcError)
    → (is_ok (status_for async_calc (kind_of e)) ≡ true) ↔ (e ≡ none)
unfolding is_ok status_for kind_of
ok_status true none = (λ x. refl, λ x. refl)
ok_status false none = (λ x. refl, λ x. refl)
ok_status async_calc (some err_overloaded) = (λ x. absurd cc, λ x. absurd cc)
ok_status async_calc (some other_error) = (λ x. absurd cc, λ x. absurd cc)

module _ {S : Type 0} (svc : Service S) (trim_space : List ℕ → List ℕ)
    (status_text : ℕ → List ℕ) where
  -- What the client makes of a response.
  abbrev pub seen : Duration → List ℕ → S × Response → Option ClientError
  seen latency body p = (do_request trim_space status_text (answer latency p.1.status body)).1

  -- The server has called the calculator with the number and counted its answer, and the client sees
  -- success exactly if the calculator took the number.
  abbrev pub Agrees : S → Int64 → Duration → List ℕ → S × Response → Type 0
  Agrees s n latency body p =
      (p.0 ≡ svc.count_requests (svc.calculate s n).0 (kind_of (svc.calculate s n).1))
      × ((seen latency body p ≡ none) ↔ ((svc.calculate s n).1 ≡ none))

  counted-Agrees :
      (s : S) (async_calc : Bool) (n : Int64) (latency : Duration) (body : List ℕ)
      (p : S × Response)
      → n < modulus
      → (p.0 ≡ svc.count_requests (outcome svc s (format_int n)).0 (outcome svc s (format_int n)).1)
        × (p.1.status ≡ status_for async_calc (outcome svc s (format_int n)).1)
      → Agrees s n latency body p
  counted-Agrees s async_calc n latency body p lt (state, status) =
      let o = outcome-some svc s (format_int n) n (parse_int-format_int n lt) in
      let (to, from) =
        do_request-ok trim_space status_text latency p.1.status body (is_ok p.1.status) refl in
      let (up, down) = ok_status async_calc (svc.calculate s n).1 in
      let same : is_ok p.1.status ≡ is_ok (status_for async_calc (kind_of (svc.calculate s n).1)) =
        ap is_ok (status ∙ ap (λ (z : S × RequestKind). status_for async_calc z.1) o) in
      (
        state ∙ ap (λ (z : S × RequestKind). svc.count_requests z.0 z.1) o,
        (λ e. up (sym same ∙ to e), λ e. from (same ∙ down e)),
      )

  module _ (url_path : List ℕ → List ℕ) (query_value : List ℕ → List ℕ → Option (List ℕ))
      (finds_path : (query : List ℕ) → url_path (calc_route ++ b'?' ∷ query) ≡ calc_route)
      (finds_value : (key value : List ℕ)
        → plain_text key ≡ true
        → plain_text value ≡ true
        → query_value (calc_route ++ b'?' ∷ key ++ b'=' ∷ value) key ≡ some value) where
    -- Where the library's URL parser finds the path before the question mark and a plain value
    -- behind its name, a request of the generator with any int64, to the path of the calculation on
    -- either server, hands its number to the calculator, is counted by the calculator's answer, and,
    -- if the response arrives in time, is a success for the client exactly if the calculator took
    -- the number.
    pub request_served :
        (s : S) (async_calc : Bool) (n : Int64) (latency : Duration) (body : List ℕ)
        → n < modulus
        → Agrees s n latency body (serve_std svc s async_calc (request_for url_path query_value n))
          × Agrees s n latency body
              (serve_fast svc s async_calc (request_for url_path query_value n))
    unfolding serve_std route_std serve_fast
    request_served s async_calc n latency body lt =
        let r : Request = record { method = post; path = calc_path; num = some (format_int n) } in
        rw (request_for_lem url_path query_value finds_path finds_value n) (
          counted-Agrees s async_calc n latency body (std_calc_handler svc s async_calc r) lt
              (calc_counted svc s async_calc r),
          counted-Agrees s async_calc n latency body (fast_calc_handler svc s async_calc r) lt
              (fast_counted svc s async_calc r),
        )
