-- ===== src/Api/Agreement.antt =====
-- The two servers answer alike, and count each calculation once, as its status says.
use cdnnow_test_golang.Shared.{
  ℕ, ◌≡◌, refl, sym, ◌∙◌, Bool, ◌⊎◌, Option, none, some, List, [], ◌∷◌, if◌then◌else◌,
}
use cdnnow_test_golang.Operators.{Int64}
use cdnnow_test_golang.Metrics.Kinds.{RequestKind, ok, overload, bad_request, failed}
use cdnnow_test_golang.Api.{
  head, metrics_path, ping_path, Request, Body, text, text_line, Response, CalcError,
  err_overloaded, other_error, Service, status_ok, or_empty,
}
use cdnnow_test_golang.Api.Numbers.{parse_int}
use cdnnow_test_golang.Api.Std
use cdnnow_test_golang.Api.Std.{error, std_calc_handler}
use cdnnow_test_golang.Api.Fast
use cdnnow_test_golang.Api.Fast.{fast_calc_handler}

-- The kind of request that an answer of the calculator is.
unfoldable pub kind_of : Option CalcError → RequestKind
kind_of none = ok
kind_of (some err_overloaded) = overload
kind_of (some other_error) = failed

-- The status of each kind.
unfoldable pub status_for : Bool → RequestKind → ℕ
status_for async_calc ok = if async_calc then 202 else 200
status_for async_calc overload = 503
status_for async_calc bad_request = 400
status_for async_calc failed = 500

-- The text without the new line at its end.
unfoldable pub said : Body → Body
said (text_line t) = text t
said b = b

-- The same effect on the service, the same status and the same headers.
abbrev pub SameAnswer : {S : Type 0} → S × Response → S × Response → Type 0
SameAnswer p q =
    (p.0 ≡ q.0) × (p.1.status ≡ q.1.status) × (p.1.metrics_headers ≡ q.1.metrics_headers)

-- The only requests that are answered differently.
abbrev pub HeadDiffers : {S : Type 0} → Request → S × Response → S × Response → Type 0
HeadDiffers r p q =
    (r.method ≡ head)
    × ((r.path ≡ metrics_path) ⊎ (r.path ≡ ping_path))
    × (p.1.status ≡ 200)
    × (q.1.status ≡ 405)

parse_int-nil : parse_int [] ≡ none
unfolding parse_int
parse_int-nil = refl

module _ {S : Type 0} (svc : Service S) where
  -- What a calculation request is: the calculator gets the number, if there is one.
  unfoldable pub outcome : S → List ℕ → S × RequestKind
  outcome s bytes = elim (parse_int bytes) [
    | none ↦ (s, bad_request)
    | some num ↦ ((svc.calculate s num).0, kind_of (svc.calculate s num).1)
  ]

  pub outcome-none :
      (s : S) (bytes : List ℕ) → parse_int bytes ≡ none → outcome s bytes ≡ (s, bad_request)
  unfolding outcome
  outcome-none s bytes e = rw (e, outcome) refl

  pub outcome-some :
      (s : S) (bytes : List ℕ) (num : Int64)
      → parse_int bytes ≡ some num
      → outcome s bytes ≡ ((svc.calculate s num).0, kind_of (svc.calculate s num).1)
  unfolding outcome
  outcome-some s bytes num e = rw (e, outcome) refl

  Counted : Bool → S × Response → S × RequestKind → Type 0
  Counted async_calc p o =
      (p.0 ≡ svc.count_requests o.0 o.1) × (p.1.status ≡ status_for async_calc o.1)

  -- The same effect on the service, and the same response up to the new line.
  pub record Alike (p q : S × Response) : Type 0 where
    pub state_same : p.0 ≡ q.0
    pub status_same : p.1.status ≡ q.1.status
    pub headers_same : p.1.metrics_headers ≡ q.1.metrics_headers
    pub said_same : said p.1.body ≡ said q.1.body

  calculate_num_lem :
      (s : S) (async_calc : Bool) (num : Int64) (err : Option CalcError)
      → (svc.calculate s num).1 ≡ err
      → Counted async_calc
          (Std.calculate_num svc s async_calc num)
          ((svc.calculate s num).0, kind_of err)
        × Alike (Std.calculate_num svc s async_calc num) (Fast.calculate_num svc s async_calc num)
  unfolding kind_of status_for status_ok Std.calculate_num Fast.calculate_num error said Counted
  calculate_num_lem s async_calc num none e =
      rw (e, Std.calculate_num, Fast.calculate_num)
        (
          (refl, refl),
          record { state_same = refl; status_same = refl; headers_same = refl; said_same = refl },
        )
  calculate_num_lem s async_calc num (some err_overloaded) e =
      rw (e, Std.calculate_num, Fast.calculate_num)
        (
          (refl, refl),
          record { state_same = refl; status_same = refl; headers_same = refl; said_same = refl },
        )
  calculate_num_lem s async_calc num (some other_error) e =
      rw (e, Std.calculate_num, Fast.calculate_num)
        (
          (refl, refl),
          record { state_same = refl; status_same = refl; headers_same = refl; said_same = refl },
        )

  calc_text_lem :
      (s : S) (async_calc : Bool) (bytes : List ℕ)
      → Counted async_calc (Std.calc_text svc s async_calc bytes) (outcome s bytes)
        × Alike (Std.calc_text svc s async_calc bytes) (Fast.calc_text svc s async_calc bytes)
  unfolding Std.calc_text Fast.calc_text outcome status_for error said Counted
  calc_text_lem s async_calc [] =
      rw (parse_int-nil, outcome)
        (
          (refl, refl),
          record { state_same = refl; status_same = refl; headers_same = refl; said_same = refl },
        )
  calc_text_lem s async_calc (c ∷ cs) = text_cases (parse_int (c ∷ cs)) refl
    where
      text_cases :
          (o : Option Int64)
          → parse_int (c ∷ cs) ≡ o
          → Counted async_calc (Std.calc_text svc s async_calc (c ∷ cs)) (outcome s (c ∷ cs))
            × Alike
                (Std.calc_text svc s async_calc (c ∷ cs))
                (Fast.calc_text svc s async_calc (c ∷ cs))
      text_cases none e =
          rw (e, Std.calc_text, Fast.calc_text, outcome)
            (
              (refl, refl),
              record {
                state_same = refl;
                status_same = refl;
                headers_same = refl;
                said_same = refl;
              },
            )
      text_cases (some num) e =
          rw (e, Std.calc_text, Fast.calc_text, outcome) (calculate_num_lem s async_calc num _ refl)

  -- A calculation request is counted exactly once, after the call of the calculator, as the kind
  -- that its status belongs to; the calculator is called only with an integer.
  pub calc_counted :
      (s : S) (async_calc : Bool) (r : Request)
      → ((std_calc_handler svc s async_calc r).0
          ≡ svc.count_requests (outcome s (or_empty r.num)).0 (outcome s (or_empty r.num)).1)
        × ((std_calc_handler svc s async_calc r).1.status
            ≡ status_for async_calc (outcome s (or_empty r.num)).1)
  unfolding std_calc_handler Counted
  calc_counted s async_calc r = (calc_text_lem s async_calc (or_empty r.num)).0

  -- So does the handler over fasthttp.
  pub fast_counted :
      (s : S) (async_calc : Bool) (r : Request)
      → ((fast_calc_handler svc s async_calc r).0
          ≡ svc.count_requests (outcome s (or_empty r.num)).0 (outcome s (or_empty r.num)).1)
        × ((fast_calc_handler svc s async_calc r).1.status
            ≡ status_for async_calc (outcome s (or_empty r.num)).1)
  unfolding std_calc_handler fast_calc_handler
  fast_counted s async_calc r =
      let (c, st) = calc_counted s async_calc r in
      let alike = (calc_text_lem s async_calc (or_empty r.num)).1 in
      (sym alike.state_same ∙ c, sym alike.status_same ∙ st)
