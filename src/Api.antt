-- ===== src/Api.antt =====
-- internal/api: the HTTP handlers, over `net/http` (Api/Std) and over fasthttp (Api/Fast), the
-- interface of the service that they call (common.go), and what they have in common.
-- A request is its method, its path, and the value of the query parameter `num`, which the two
-- libraries take out of the URL. What is logged, and a failed write of a response, which is only
-- logged, are left out.
pub mod Numbers
pub mod Std
pub mod Fast
pub mod Agreement
mod Tests
use cdnnow_test_golang.Shared.{ℕ, Option, none, some, List, [], ◌∷◌, Bool, if◌then◌else◌, same_text}
use Prim.Native.String.{String}
use cdnnow_test_golang.Operators.{Int64}
use cdnnow_test_golang.Metrics.Kinds.{RequestKind}

pub data Method : Type 0 where
  get head post other_method : Method

-- A path that is clean: both libraries answer others with a redirection or by cleaning them.
pub data RequestPath : Type 0 where
  calc_path metrics_path ping_path other_path : RequestPath

-- `num` is the first value of that name, as bytes.
pub record Request : Type 0 where
  pub method : Method
  pub path : RequestPath
  pub num : Option (List ℕ)

-- The paths of the routes, and the name of the parameter.
abbrev pub calc_route : List ℕ
calc_route = b'/' ∷ b'c' ∷ b'a' ∷ b'l' ∷ b'c' ∷ []

abbrev pub metrics_route : List ℕ
metrics_route = b'/' ∷ b'm' ∷ b'e' ∷ b't' ∷ b'r' ∷ b'i' ∷ b'c' ∷ b's' ∷ []

abbrev pub ping_route : List ℕ
ping_route = b'/' ∷ b'p' ∷ b'i' ∷ b'n' ∷ b'g' ∷ []

abbrev pub num_param : List ℕ
num_param = b'n' ∷ b'u' ∷ b'm' ∷ []

unfoldable pub path_named : List ℕ → RequestPath
path_named s =
    if same_text s calc_route
    then calc_path
    else if same_text s metrics_route
    then metrics_path
    else if same_text s ping_route
    then ping_path
    else other_path

-- The request as the handlers see it: `url_path` and `query_value` are the library's parser, the
-- second with the first value of a name.
unfoldable pub request_at :
    (url_path : List ℕ → List ℕ)
    → (query_value : List ℕ → List ℕ → Option (List ℕ)) → (method : Method) → (uri : List ℕ)
    → Request
unfolding path_named
request_at url_path query_value method uri = record {
  method = method;
  path = path_named (url_path uri);
  num = query_value uri num_param;
}

-- `http.Error` ends its text with a new line; `ctx.Error` does not.
pub data Body : Type 0 where
  no_body : Body
  text text_line : String → Body
  report : List ℕ → Body

-- The four headers that the handler of the metrics sets are one flag. The other headers, which the
-- libraries set (`Allow`, `X-Content-Type-Options`), are left out.
pub record Response : Type 0 where
  pub status : ℕ
  pub metrics_headers : Bool
  pub body : Body

-- `ErrOverloaded`, and every other error.
pub data CalcError : Type 0 where
  err_overloaded other_error : CalcError

-- `Service` of common.go, over a state: `Calculator`, `RequestsCounter` and `MetricsPrinter`.
pub record Service (S : Type 0) : Type 0 where
  pub calculate : S → Int64 → S × Option CalcError
  pub count_requests : S → RequestKind → S
  pub print_metrics : S → S × List ℕ

-- `statusOk`
unfoldable pub status_ok : Bool → ℕ
status_ok async_calc = if async_calc then 202 else 200

-- The value of a parameter that may be missing, in both libraries.
abbrev pub or_empty : Option (List ℕ) → List ℕ
or_empty none = []
or_empty (some xs) = xs
