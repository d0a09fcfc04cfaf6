-- ===== src/Api/Fast.antt =====
-- internal/api/fast_http.go. A response of fasthttp starts with status 200 and an empty body.
use cdnnow_test_golang.Shared.{ℕ, Bool, true, false, none, some, List, [], ◌∷◌}
use cdnnow_test_golang.Operators.{Int64}
use cdnnow_test_golang.Metrics.Kinds.{ok, overload, bad_request, failed}
use cdnnow_test_golang.Api.{
  Method, get, post, calc_path, metrics_path, ping_path, other_path, Request, Body, no_body, text,
  report, Response, err_overloaded, other_error, Service, status_ok, or_empty,
}
use cdnnow_test_golang.Api.Numbers.{parse_int}

abbrev pub plain : ℕ → Body → Response
plain status body = record { status = status; metrics_headers = false; body = body }

abbrev pub is_post : Method → Bool
is_post post = true
is_post _ = false

abbrev pub is_get : Method → Bool
is_get get = true
is_get _ = false

module _ {S : Type 0} (svc : Service S) where
  unfoldable pub calculate_num : S → Bool → Int64 → S × Response
  calculate_num s async_calc num =
      let (s', err) = svc.calculate s num in
      elim err [
        | some err_overloaded ↦
            (svc.count_requests s' overload, plain 503 (text "calculator overloaded"))
        | some other_error ↦ (svc.count_requests s' failed, plain 500 (text "internal error"))
        | none ↦ (svc.count_requests s' ok, plain (status_ok async_calc) (text "ok"))
      ]

  -- `fastCalcHandler`, on the text of `num`.
  unfoldable pub calc_text : S → Bool → List ℕ → S × Response
  unfolding calculate_num
  calc_text s async_calc [] =
      (svc.count_requests s bad_request, plain 400 (text "missing 'num' query parameter"))
  calc_text s async_calc (c ∷ cs) = elim (parse_int (c ∷ cs)) [
    | none ↦ (svc.count_requests s bad_request, plain 400 (text "'num' must be an integer"))
    | some num ↦ calculate_num s async_calc num
  ]

  unfoldable pub fast_calc_handler : S → Bool → Request → S × Response
  unfolding calc_text
  fast_calc_handler s async_calc r = calc_text s async_calc (or_empty r.num)

  unfoldable pub fast_metrics_handler : S → S × Response
  fast_metrics_handler s =
      let (s', bytes) = svc.print_metrics s in
      (s', record { status = 200; metrics_headers = true; body = report bytes })

  -- `NewFast`
  unfoldable pub serve_fast : S → Bool → Request → S × Response
  unfolding fast_calc_handler fast_metrics_handler
  serve_fast s async_calc r = elim r.path [
    | calc_path ↦ elim (is_post r.method) [
      | false ↦ (s, plain 405 no_body)
      | true ↦ fast_calc_handler s async_calc r
    ]
    | metrics_path ↦ elim (is_get r.method) [
      | false ↦ (s, plain 405 no_body)
      | true ↦ fast_metrics_handler s
    ]
    | ping_path ↦ elim (is_get r.method) [
      | false ↦ (s, plain 405 no_body)
      | true ↦ (s, plain 200 (text "ok"))
    ]
    | other_path ↦ (s, plain 404 no_body)
  ]
