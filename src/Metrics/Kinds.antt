-- ===== src/Metrics/Kinds.antt =====
-- `RequestKind` and `DurationKind` of internal/metrics/aggregator.go, and arrays over them. An array
-- with one slot for each kind is a function of the kind.
use cdnnow_test_golang.Shared.{ℕ, Bool, Option, some, ◌==◌, ◌>>=◌}

pub data RequestKind : Type 0 where
  ok overload bad_request failed : RequestKind

pub data DurationKind : Type 0 where
  add sub : DurationKind

abbrev pub request_index : RequestKind → ℕ
request_index ok = 0
request_index overload = 1
request_index bad_request = 2
request_index failed = 3

abbrev pub duration_index : DurationKind → ℕ
duration_index add = 0
duration_index sub = 1

abbrev pub same_request : RequestKind → RequestKind → Bool
same_request j k = request_index j == request_index k

abbrev pub same_duration : DurationKind → DurationKind → Bool
same_duration j k = duration_index j == duration_index k

abbrev pub by_request {ℓ} : {A : Type ℓ} → A → A → A → A → RequestKind → A
by_request a b c d ok = a
by_request a b c d overload = b
by_request a b c d bad_request = c
by_request a b c d failed = d

-- A loop over the kinds, which stops at the first panic.
abbrev pub for_requests {ℓ} : {A : Type ℓ} → (RequestKind → Option A) → Option (RequestKind → A)
for_requests f = do
  a ← f ok
  b ← f overload
  c ← f bad_request
  d ← f failed
  some (by_request a b c d)
