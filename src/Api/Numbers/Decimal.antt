-- ===== src/Api/Numbers/Decimal.antt =====
-- `ParseInt` reads back every int64 that is written in decimal, and yields nothing else.
use cdnnow_test_golang.Shared.{
  ℕ, zero, suc, ◌+◌, ◌-◌, ◌*◌, ◌^◌, ◌<◌, ◌≤◌, ◌/◌, ◌%◌, ◌≡◌, refl, ap, sym, ◌∙◌, true, false,
  Bool-cases, Option-cases, inl, inr, ltb→lt, ltb→le, some, List, [], ◌∷◌, ◌++◌, ◌==◌, ltb, leb,
  if◌then◌else◌, arith,
}
use cdnnow_test_golang.Operators.{Int64, modulus}
use cdnnow_test_golang.Api.Numbers.{digit, digits, parse_uint, parse_int}

-- The decimal digits of a number, on fuel of at least the number.
unfoldable pub decimal : ℕ → ℕ → List ℕ
decimal zero n = (b'0' + n) ∷ []
decimal (suc fuel) n =
    let rest = decimal fuel (n / 10) in
    if ltb n 10 then (b'0' + n) ∷ [] else rest ++ (b'0' + n % 10) ∷ []

-- `strconv.FormatInt(v, 10)`
unfoldable pub format_int : Int64 → List ℕ
format_int v = if ltb v (2 ^ 63) then decimal v v else b'-' ∷ decimal (modulus - v) (modulus - v)

digit_lem : (d : ℕ) → d < 10 → digit (b'0' + d) ≡ some d
unfolding digit
digit_lem d lt = ground arith

digits-append :
    (n m d : ℕ) (xs : List ℕ)
    → digits n xs ≡ some m
    → d < 10
    → digits n (xs ++ (b'0' + d) ∷ []) ≡ some (m * 10 + d)
unfolding digits
digits-append n m d [] e lt = let same : n ≡ m = cc in rw (digit_lem d lt, same) refl
digits-append n m d (x ∷ xs) e lt = elim (Option-cases (digit x)) [
  | inl h ↦ absurd (cc (h, e))
  | inr (c, h) ↦ rw (h, digits) (digits-append (n * 10 + c) m d xs (sym (rest c h) ∙ e) lt)
]
  where
    rest : (c : ℕ) → digit x ≡ some c → digits n (x ∷ xs) ≡ digits (n * 10 + c) xs
    rest c h = rw (h, digits) refl

one-digit : (n : ℕ) → n < 10 → digits 0 ((b'0' + n) ∷ []) ≡ some n
unfolding digits
one-digit n lt = let same : 0 * 10 + n ≡ n = omega arith in rw (digit_lem n lt) (ap some same)

digits-decimal : (fuel n : ℕ) → n ≤ fuel → digits 0 (decimal fuel n) ≡ some n
unfolding decimal
digits-decimal zero n le = one-digit n (omega arith)
digits-decimal (suc fuel) n le = elim (Bool-cases (ltb n 10)) [
  | inl h ↦ rw h (one-digit n (ltb→lt _ _ h))
  | inr h ↦
      let ten : 10 ≤ n = ltb→le _ _ h in
      let again : n / 10 * 10 + n % 10 ≡ n = omega arith in
      rw h (
        digits-append 0 (n / 10) (n % 10) (decimal fuel (n / 10))
          (digits-decimal fuel (n / 10) (omega arith)) (omega arith)
        ∙ ap some again)
]

-- The first digit is a digit.
decimal-first :
    (fuel n : ℕ) → n ≤ fuel → (c : ℕ) × (cs : List ℕ) × (decimal fuel n ≡ c ∷ cs) × (b'0' ≤ c)
unfolding decimal
decimal-first zero n le = (b'0' + n, [], refl, omega arith)
decimal-first (suc fuel) n le = elim (Bool-cases (ltb n 10)) [
  | inl h ↦ (b'0' + n, [], rw h refl, omega arith)
  | inr h ↦
      let ten : 10 ≤ n = ltb→le _ _ h in
      let (c, cs, e, big) = decimal-first fuel (n / 10) (omega arith) in
      (c, cs ++ (b'0' + n % 10) ∷ [], rw (h, e) refl, big)
]

parse_uint-decimal : (n : ℕ) → parse_uint (decimal n n) ≡ some n
unfolding parse_uint
parse_uint-decimal n =
    let (c, cs, e, _) = decimal-first n n (omega arith) in
    ap parse_uint e ∙ ap (digits 0) (sym e) ∙ digits-decimal n n (omega arith)

parse_int-unsigned :
    (n : ℕ) (xs : List ℕ) (c : ℕ) (cs : List ℕ)
    → xs ≡ c ∷ cs
    → b'0' ≤ c
    → parse_uint xs ≡ some n
    → n < 2 ^ 63
    → parse_int xs ≡ some n
unfolding parse_int
parse_int-unsigned n xs c cs e big p small =
    let p' : parse_uint (c ∷ cs) ≡ some n = ap parse_uint (sym e) ∙ p in
    let minus : (c == b'-') ≡ false = ground arith in
    let plus : (c == b'+') ≡ false = ground arith in
    let range : leb (2 ^ 63) n ≡ false = ground arith in
    ap parse_int e ∙ rw (minus, plus) (rw p' (rw range refl))

parse_int-minus :
    (n : ℕ) (xs : List ℕ)
    → parse_uint xs ≡ some n
    → n ≤ 2 ^ 63
    → parse_int (b'-' ∷ xs) ≡ some ((modulus - n) % modulus)
unfolding parse_int
parse_int-minus n xs p small =
    let range : leb n (2 ^ 63) ≡ true = ground arith in rw p (rw range refl)

-- Every int64, written in decimal, is read back.
pub parse_int-format_int : (v : Int64) → v < modulus → parse_int (format_int v) ≡ some v
unfolding format_int
parse_int-format_int v lt = elim (Bool-cases (ltb v (2 ^ 63))) [
  | inl h ↦
      let (c, cs, e, big) = decimal-first v v (omega arith) in
      rw h (parse_int-unsigned v (decimal v v) c cs e big (parse_uint-decimal v) (ltb→lt _ _ h))
  | inr h ↦
      let low : 2 ^ 63 ≤ v = ltb→le _ _ h in
      rw h (
        parse_int-minus (modulus - v) _ (parse_uint-decimal (modulus - v)) (omega arith)
        ∙ ap some (omega arith))
]
