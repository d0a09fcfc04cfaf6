-- ===== src/Api/Std.antt =====
-- internal/api/std_http.go. `ServeMux` gives a `GET` pattern the HEAD requests too, whose bodies
-- `net/http` then drops.
use cdnnow_test_golang.Shared.{ℕ, if◌then◌else◌, Bool, true, false, none, some, List, [], ◌∷◌}
use cdnnow_test_golang.Operators.{Int64}
use cdnnow_test_golang.Metrics.Kinds.{ok, overload, bad_request, failed}
use cdnnow_test_golang.Api.{
  Method, get, head, post, calc_path, metrics_path, ping_path, other_path, Request, Body, no_body,
  text, text_line, report, Response, err_overloaded, other_error, Service, status_ok, or_empty,
}
use cdnnow_test_golang.Api.Numbers.{parse_int}

-- `http.Error`
unfoldable pub error : ℕ → Body → Response
error status body = record { status = status; metrics_headers = false; body = body }

abbrev pub plain : ℕ → Body → Response
plain status body = record { status = status; metrics_headers = false; body = body }

abbrev pub is_head : Method → Bool
is_head head = true
is_head _ = false

abbrev pub is_post : Method → Bool
is_post post = true
is_post _ = false

-- The methods that a `GET` pattern matches.
abbrev pub gets : Method → Bool
gets get = true
gets head = true
gets _ = false

module _ {S : Type 0} (svc : Service S) where
  unfoldable pub calculate_num : S → Bool → Int64 → S × Response
  unfolding error
  calculate_num s async_calc num =
      let (s', err) = svc.calculate s num in
      elim err [
        | some err_overloaded ↦
            (svc.count_requests s' overload, error 503 (text_line "calculator overloaded"))
        | some other_error ↦ (svc.count_requests s' failed, error 500 (text_line "internal error"))
        | none ↦ (svc.count_requests s' ok, plain (status_ok async_calc) (text "ok"))
      ]

  -- `stdCalcHandler`, on the text of `num`.
  unfoldable pub calc_text : S → Bool → List ℕ → S × Response
  unfolding calculate_num error
  calc_text s async_calc [] =
      (svc.count_requests s bad_request, error 400 (text_line "missing 'num' query parameter"))
  calc_text s async_calc (c ∷ cs) = elim (parse_int (c ∷ cs)) [
    | none ↦ (svc.count_requests s bad_request, error 400 (text_line "'num' must be an integer"))
    | some num ↦ calculate_num s async_calc num
  ]

  unfoldable pub std_calc_handler : S → Bool → Request → S × Response
  unfolding calc_text
  std_calc_handler s async_calc r = calc_text s async_calc (or_empty r.num)

  unfoldable pub std_metrics_handler : S → S × Response
  std_metrics_handler s =
      let (s', bytes) = svc.print_metrics s in
      (s', record { status = 200; metrics_headers = true; body = report bytes })

  abbrev pub without_body : S × Response → S × Response
  without_body p = (p.0, record (p.1) { body = no_body })

  -- What `ServeMux` and the server answer to a path that has no handler, or none for the method.
  abbrev pub std_not_found : Response
  std_not_found = plain 404 (text_line "404 page not found")

  abbrev pub std_not_allowed : Response
  std_not_allowed = plain 405 (text_line "Method Not Allowed")

  -- The routes of `NewStd`.
  unfoldable pub route_std : S → Bool → Request → S × Response
  unfolding std_calc_handler std_metrics_handler
  route_std s async_calc r = elim r.path [
    | calc_path ↦ elim (is_post r.method) [
      | true ↦ std_calc_handler s async_calc r
      | false ↦ (s, std_not_allowed)
    ]
    | metrics_path ↦ elim (gets r.method) [
      | true ↦ std_metrics_handler s
      | false ↦ (s, std_not_allowed)
    ]
    | ping_path ↦ elim (gets r.method) [
      | true ↦ (s, plain 200 (text "ok"))
      | false ↦ (s, std_not_allowed)
    ]
    | other_path ↦ (s, std_not_found)
  ]

  unfoldable pub serve_std : S → Bool → Request → S × Response
  unfolding route_std
  serve_std s async_calc r =
      if is_head r.method then without_body (route_std s async_calc r) else route_std s async_calc r
