-- ===== src/Generator/Client.antt =====
-- internal/generator/clients/calc.go and httperror.go: the client of a worker. A text is its bytes.
-- What the network answers to a request is an `Answer`; `bytes.TrimSpace` with `strings.TrimSpace`,
-- and `http.StatusText`, are parameters.
pub mod Uri
pub mod Messages
pub mod Served
mod Tests
use cdnnow_test_golang.Shared.{
  ℕ, ◌+◌, ◌*◌, ◌/◌, Bool, true, false, Option, none, some, List, [], ◌∷◌, ◌++◌, ◌==◌, ltb,
  if◌then◌else◌, length, take,
}
use cdnnow_test_golang.Operators.{Int64}
use cdnnow_test_golang.Api.Numbers.Decimal.{format_int}
use cdnnow_test_golang.Calculators.Dual.{Duration}
use cdnnow_test_golang.Generator.Worker.{Reply, replied, request_error}

abbrev pub calc_num_key : List ℕ
calc_num_key = b'n' ∷ b'u' ∷ b'm' ∷ []

abbrev pub max_int64_digits : ℕ
max_int64_digits = 20

-- `strings.ContainsRune` of a character of one byte.
unfoldable pub contains_char : ℕ → List ℕ → Bool
contains_char c [] = false
contains_char c (x ∷ xs) = let rest = contains_char c xs in if x == c then true else rest

-- What `NewCalc` appends to a path that has a query, or has none.
abbrev pub query_start : Bool → List ℕ
query_start true = b'&' ∷ calc_num_key ++ b'=' ∷ []
query_start false = b'?' ∷ calc_num_key ++ b'=' ∷ []

-- `uriBuf` of `NewCalc`, and its capacity.
unfoldable pub uri_buf : List ℕ → List ℕ
unfolding contains_char
uri_buf path = path ++ query_start (contains_char b'?' path)

unfoldable pub uri_cap : List ℕ → ℕ
uri_cap path = length path + length calc_num_key + 2 + max_int64_digits

-- The URI of a request.
unfoldable pub uri_of : List ℕ → Int64 → List ℕ
unfolding uri_buf
uri_of path n = uri_buf path ++ format_int n

unfoldable pub is_ok : ℕ → Bool
is_ok status = status / 100 * 100 == 200

-- The `HTTPError`, less its code.
pub record HttpError : Type 0 where
  pub code : ℕ
  pub message : List ℕ

-- No answer in time, or one.
pub data Answer : Type 0 where
  no_answer : Answer
  answer : (latency : Duration) → (status : ℕ) → (body : List ℕ) → Answer

pub data ClientError : Type 0 where
  no_response : ClientError
  http_error : HttpError → ClientError

module _ (trim_space : List ℕ → List ℕ) (status_text : ℕ → List ℕ) where
  -- `errorMsg`, after the call of `TrimSpace`.
  unfoldable pub trimmed_msg : ℕ → List ℕ → List ℕ
  trimmed_msg code [] = status_text code
  trimmed_msg code (c ∷ cs) =
      if ltb 255 (length (c ∷ cs)) then take 252 (c ∷ cs) ++ b'.' ∷ b'.' ∷ b'.' ∷ [] else c ∷ cs

  unfoldable pub error_msg : ℕ → List ℕ → List ℕ
  unfolding trimmed_msg
  error_msg code body = trimmed_msg code (trim_space body)

  -- `HTTPError.Error`, after the call of `TrimSpace`.
  unfoldable pub message_or_status : ℕ → List ℕ → List ℕ
  message_or_status code [] = status_text code
  message_or_status code (c ∷ cs) = c ∷ cs

  -- "http %d: %s"
  unfoldable pub error_text : HttpError → List ℕ
  unfolding message_or_status
  error_text e =
      b'h' ∷ b't' ∷ b't' ∷ b'p' ∷ b' ' ∷ format_int e.code
      ++ b':' ∷ b' ' ∷ message_or_status e.code (trim_space e.message)

  unfoldable pub do_request : Answer → Duration × Option ClientError
  unfolding is_ok error_msg
  do_request no_answer = (0, some no_response)
  do_request (answer latency status body) =
      if is_ok status
      then (latency, none)
      else (latency, some (http_error (record { code = status; message = error_msg status body })))

-- What the worker sees of it.
unfoldable pub reply_of : Duration × Option ClientError → Reply
reply_of (latency, none) = replied latency
reply_of (latency, some e) = request_error
