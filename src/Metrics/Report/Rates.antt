-- ===== src/Metrics/Report/Rates.antt =====
-- The order of the rates, and that the report of a snapshot never fails.
use cdnnow_test_golang.Shared.{
  ℕ, zero, suc, ◌+◌, ◌-◌, ◌<◌, ◌≤◌, ◌≡◌, refl, ap, ap₂, ◌∙◌, if◌then◌else◌, ltb, drop, replicate,
  Bool-cases, inl, inr, ltb→lt, ltb→le, some, List, [], ◌∷◌, ◌++◌, arith, length, get_elem?, get_or,
  get_elem?-eq-get_or, negsuc,
}
use Prim.Native.String.{String}
use cdnnow_test_golang.Metrics.Aggregator.{hist_buckets}
use cdnnow_test_golang.Metrics.Aggregator.Windows.{window}
use cdnnow_test_golang.Metrics.Report.{Line, rate, rate_lines}

-- Newest first: the line `k` is for the second `-(k + 1)`, and holds the value `k` places before the
-- last.
pub rate_lines_lem :
    (name : String) (rps : List ℕ) (n : ℕ)
    → n ≤ length rps
    → (lines : List Line) × (rate_lines name rps n ≡ some lines)
      × (length lines ≡ n)
      × ((k : ℕ)
          → k < n
          → get_elem? lines k
            ≡ some (rate name (negsuc (length rps - n + k)) (get_or rps (n - suc k) 0)))
unfolding rate_lines
rate_lines_lem name rps zero le = ([], refl, refl, λ k lt. absurd (omega arith))
rate_lines_lem name rps (suc n) le =
    let (lines, e, len, each) = rate_lines_lem name rps n (omega arith) in
    (
      rate name (negsuc (length rps - suc n)) (get_or rps n 0) ∷ lines,
      rw (get_elem?-eq-get_or rps n 0 (omega arith), e) refl,
      ap suc len,
      λ k lt.
          elim k
              as (λ k.
                k < suc n
                → get_elem? (rate name (negsuc (length rps - suc n)) (get_or rps n 0) ∷ lines) k
                  ≡ some (
                      rate name (negsuc (length rps - suc n + k)) (get_or rps (suc n - suc k) 0))) [
                        | zero ↦ λ lt.
                            ap₂ (λ s v. some (rate name (negsuc s) (get_or rps v 0))) (omega arith)
                              (omega arith)
                        | suc k ↦ λ lt.
                            each k (omega arith)
                            ∙ ap₂ (λ s v. some (rate name (negsuc s) (get_or rps v 0)))
                                (omega arith) (omega arith)
                      ]
            lt,
    )

at_same : {i j : ℕ} (xs : List ℕ) → i ≡ j → get_or xs i 0 ≡ get_or xs j 0
at_same xs e = ap (λ n. get_or xs n 0) e

get_or-drop : (m : ℕ) (xs : List ℕ) (i : ℕ) → get_or (drop m xs) i 0 ≡ get_or xs (m + i) 0
get_or-drop zero xs i = at_same xs (omega arith)
get_or-drop (suc m) [] i = refl
get_or-drop (suc m) (x ∷ xs) i =
    get_or-drop m xs i ∙ at_same {i = suc (m + i)} (x ∷ xs) (omega arith)

get_or-zeros :
    (n : ℕ) (xs : List ℕ) (i j : ℕ) → i ≡ n + j → get_or (replicate n 0 ++ xs) i 0 ≡ get_or xs j 0
get_or-zeros zero xs i j e = at_same xs (omega arith)
get_or-zeros (suc n) xs zero j e = absurd (omega arith)
get_or-zeros (suc n) xs (suc i) j e = get_or-zeros n xs i j (omega arith)

get_or-before : (n : ℕ) (xs : List ℕ) (i : ℕ) → i < n → get_or (replicate n 0 ++ xs) i 0 ≡ 0
get_or-before zero xs i lt = absurd (omega arith)
get_or-before (suc n) xs zero lt = refl
get_or-before (suc n) xs (suc i) lt = get_or-before n xs i (omega arith)

-- The count of a second that ended some seconds before the last one; 0 if it was before the start.
unfoldable pub count_ago : List ℕ → ℕ → ℕ
count_ago seconds i =
    if ltb i (length seconds) then get_or seconds (length seconds - suc i) 0 else 0

pub window-count_ago :
    (seconds : List ℕ) (i : ℕ)
    → i < hist_buckets
    → get_or (window seconds) (hist_buckets - suc i) 0 ≡ count_ago seconds i
unfolding count_ago
window-count_ago seconds i lt =
    get_or-drop (length seconds) (replicate hist_buckets 0 ++ seconds) (hist_buckets - suc i)
    ∙ elim (Bool-cases (ltb i (length seconds))) [
      | inl b ↦ rw b (
          get_or-zeros hist_buckets seconds (length seconds + (hist_buckets - suc i))
            (length seconds - suc i) (omega (arith, ltb→lt _ _ b)))
      | inr b ↦ rw b (
          get_or-before hist_buckets seconds (length seconds + (hist_buckets - suc i))
            (omega (arith, ltb→le _ _ b)))
    ]
