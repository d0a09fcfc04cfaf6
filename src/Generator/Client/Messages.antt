-- ===== src/Generator/Client/Messages.antt =====
-- Which answers the client takes for errors, and how long their texts are.
use cdnnow_test_golang.Shared.{
  ℕ, ◌<◌, ◌≤◌, ◌≡◌, ◌↔◌, refl, ap, Bool, true, false, Bool-cases, inl, inr, ltb, ltb→le, none, some,
  List, [], ◌∷◌, arith, length, length-append, length-take, take,
}
use cdnnow_test_golang.Operators.{modulus}
use cdnnow_test_golang.Calculators.Dual.{Duration}
use cdnnow_test_golang.Api.Numbers.Decimal.{format_int}
use cdnnow_test_golang.Generator.Client.{
  is_ok, HttpError, answer, http_error, trimmed_msg, error_msg, message_or_status, error_text,
  do_request,
}
use cdnnow_test_golang.Generator.Client.Uri.{length-format_int}

is_ok_range : (status : ℕ) → (is_ok status ≡ true) ↔ ((200 ≤ status) × (status < 300))
unfolding is_ok
is_ok_range status = (λ e. (ground arith, ground arith), λ (a, b). ground arith)

module _ (trim_space : List ℕ → List ℕ) (status_text : ℕ → List ℕ) where
  pub do_request-ok :
      (latency : Duration) (status : ℕ) (body : List ℕ) (b : Bool)
      → is_ok status ≡ b
      → ((do_request trim_space status_text (answer latency status body)).1 ≡ none) ↔ (b ≡ true)
  unfolding do_request
  do_request-ok latency status body true e = (λ p. refl, λ p. rw (e, do_request) refl)
  do_request-ok latency status body false e = (λ p. absurd (ground arith), λ p. absurd cc)

  http_error-message :
      (latency : Duration) (status : ℕ) (body : List ℕ) (x : HttpError)
      → (do_request trim_space status_text (answer latency status body)).1 ≡ some (http_error x)
      → (x.code ≡ status) × (x.message ≡ error_msg trim_space status_text status body)
  unfolding do_request
  http_error-message latency status body x e = elim (Bool-cases (is_ok status)) [
    | inl h ↦ absurd (ground arith)
    | inr h ↦ (ground arith, ground arith)
  ]

  module _ (trims : (s : List ℕ) → length (trim_space s) ≤ length s)
      (short : (code : ℕ) → length (status_text code) ≤ 255) where
    trimmed_msg-bound :
        (code : ℕ) (body : List ℕ) → length (trimmed_msg trim_space status_text code body) ≤ 255
    unfolding trimmed_msg
    trimmed_msg-bound code [] = short code
    trimmed_msg-bound code (c ∷ cs) = elim (Bool-cases (ltb 255 (length (c ∷ cs)))) [
      | inl h ↦ rw h (
          omega (
            arith,
            length-append (take 252 (c ∷ cs)) (b'.' ∷ b'.' ∷ b'.' ∷ []),
            length-take 252 (c ∷ cs),
          ))
      | inr h ↦ rw h (ltb→le _ _ h)
    ]

    message_or_status-bound :
        (code : ℕ) (msg : List ℕ)
        → length msg ≤ 255
        → length (message_or_status trim_space status_text code msg) ≤ 255
    unfolding message_or_status
    message_or_status-bound code [] le = short code
    message_or_status-bound code (c ∷ cs) le = le

    -- The client takes exactly the statuses from 200 to 299 for success, and the text of any other
    -- answer's error has at most 282 bytes, however long the body is.
    pub do_request_bounds :
        (latency : Duration) (status : ℕ) (body : List ℕ)
        → status < modulus
        → (((do_request trim_space status_text (answer latency status body)).1 ≡ none)
            ↔ ((200 ≤ status) × (status < 300)))
          × ((x : HttpError)
              → (do_request trim_space status_text (answer latency status body)).1
                ≡ some (http_error x)
              → length (error_text trim_space status_text x) ≤ 282)
    unfolding error_text error_msg
    do_request_bounds latency status body lt =
        let (to, from) = do_request-ok latency status body _ refl in
        let (up, down) = is_ok_range status in
        (
          (λ e. up (to e), λ r. from (down r)),
          λ x e.
              let (code, message) = http_error-message latency status body x e in
              let rest = message_or_status trim_space status_text x.code (trim_space x.message) in
              let limit : length x.message ≤ 255 =
                omega (arith, ap length message, trimmed_msg-bound status (trim_space body)) in
              let rest_limit =
                message_or_status-bound x.code (trim_space x.message)
                  (omega (arith, trims x.message, limit)) in
              omega (
                arith,
                length-append (format_int x.code) (b':' ∷ b' ' ∷ rest),
                length-format_int x.code (omega (arith, code, lt)),
                rest_limit,
              ),
        )
