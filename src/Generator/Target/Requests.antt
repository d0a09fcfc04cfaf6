-- ===== src/Generator/Target/Requests.antt =====
-- The URI that the client requests of a prepared target.
use cdnnow_test_golang.Shared.{
  ℕ, ◌≡◌, ◌≢◌, refl, ap, subst, ◌∙◌, Bool, true, false, not, Bool-cases, ◌==◌, Option, none, some,
  List, [], ◌∷◌, ◌++◌, ◌⊎◌, inl, inr, same_text, same_text-eq, if◌then◌else◌, arith, append_assoc,
}
use mathlib.Core.Sum.{inr-injective}
use cdnnow_test_golang.Operators.{Int64}
use cdnnow_test_golang.Api.Numbers.Decimal.{format_int}
use cdnnow_test_golang.Generator.Client.{calc_num_key, contains_char, query_start, uri_buf, uri_of}
use cdnnow_test_golang.Generator.Target.{
  UrlLibrary, Target, scheme_error, empty_host, parse_error, http, default_port, calc_keys,
  or_default, with_query, path_of, raw_query, with_address, with_url, prepare_target,
}

contains-append :
    (c : ℕ) (xs ys : List ℕ)
    → contains_char c xs ≡ false
    → contains_char c (xs ++ ys) ≡ contains_char c ys
unfolding contains_char
contains-append c [] ys e = refl
contains-append c (x ∷ xs) ys e = elim (Bool-cases (x == c)) [
  | inl b ↦ absurd (ground arith)
  | inr b ↦
      let rest : contains_char c xs ≡ false = ground arith in
      rw (b, contains_char) (contains-append c xs ys rest)
]

slash :
    (escaped : List ℕ)
    → contains_char b'?' escaped ≡ false
    → contains_char b'?' (or_default (b'/' ∷ []) escaped) ≡ false
unfolding contains_char
slash [] e = refl
slash (c ∷ cs) e = e

-- The query of a request: that of the target, and the number.
abbrev pub query_with : List ℕ → List ℕ → List ℕ
query_with [] num = calc_num_key ++ b'=' ∷ num
query_with (c ∷ cs) num = (c ∷ cs) ++ (b'&' ∷ calc_num_key ++ b'=' ∷ num)

abbrev has_query : List ℕ → Bool
has_query [] = false
has_query (c ∷ cs) = true

contains-path_of :
    (escaped raw : List ℕ)
    → contains_char b'?' escaped ≡ false
    → contains_char b'?' (path_of escaped raw) ≡ has_query raw
unfolding path_of contains_char
contains-path_of escaped [] e =
    contains-append b'?' (or_default (b'/' ∷ []) escaped) [] (slash escaped e)
contains-path_of escaped (c ∷ cs) e =
    contains-append b'?' (or_default (b'/' ∷ []) escaped) (b'?' ∷ c ∷ cs) (slash escaped e)

query_lem :
    (raw num : List ℕ)
    → with_query raw ++ (query_start (has_query raw) ++ num) ≡ b'?' ∷ query_with raw num
query_lem [] num = refl
query_lem (c ∷ cs) num = refl

path_of-query :
    (escaped raw num : List ℕ)
    → contains_char b'?' escaped ≡ false
    → uri_buf (path_of escaped raw) ++ num
      ≡ or_default (b'/' ∷ []) escaped ++ b'?' ∷ query_with raw num
unfolding uri_buf path_of
path_of-query escaped raw num e =
    let start = or_default (b'/' ∷ []) escaped in
    ap (λ b. (path_of escaped raw ++ query_start b) ++ num) (contains-path_of escaped raw e)
    ∙ append_assoc (path_of escaped raw) (query_start (has_query raw)) num
    ∙ append_assoc start (with_query raw) (query_start (has_query raw) ++ num)
    ∙ ap (λ z. start ++ z) (query_lem raw num)

module _ (l : UrlLibrary) where
  -- How a target is made of a parsed URL.
  pub record Prepared (u : l.Url) (drop_keys : List (List ℕ)) (t : Target) : Type 0 where
    pub is_http : (l.scheme u ≡ []) ⊎ (l.scheme u ≡ http)
    pub has_host : l.hostname u ≢ []
    pub ip : List ℕ
    pub resolved : l.resolve_ip4 (l.hostname u) ≡ some ip
    pub dials : t.dial_addr ≡ l.join_host_port ip (or_default default_port (l.port u))
    pub asks : t.path ≡ path_of (l.escaped_path u) (raw_query l u drop_keys)
    pub names_host : t.host_header ≡ l.host u

  http_scheme : (s : List ℕ) → same_text (or_default http s) http ≡ true → (s ≡ []) ⊎ (s ≡ http)
  http_scheme [] e = inl refl
  http_scheme (c ∷ cs) e = inr (same_text-eq (c ∷ cs) http e)

  not_empty : (s : List ℕ) → same_text s [] ≡ false → s ≢ []
  not_empty s e p = absurd (cc (e, ap (λ z. same_text z []) p))

  with_address-Prepared :
      (u : l.Url) (drop_keys : List (List ℕ)) (t : Target) (o : Option (List ℕ))
      → l.resolve_ip4 (l.hostname u) ≡ o
      → (l.scheme u ≡ []) ⊎ (l.scheme u ≡ http)
      → l.hostname u ≢ []
      → with_address l u drop_keys o ≡ inr t
      → Prepared u drop_keys t
  unfolding with_address
  with_address-Prepared u drop_keys t none r s n e = absurd cc
  with_address-Prepared u drop_keys t (some ip) r s n e =
      subst (Prepared u drop_keys) (inr-injective _ _ e) (record {
        is_http = s;
        has_host = n;
        ip = ip;
        resolved = r;
        dials = refl;
        asks = refl;
        names_host = refl;
      })

  with_url-Prepared :
      (u : l.Url) (drop_keys : List (List ℕ)) (t : Target)
      → with_url l u drop_keys ≡ inr t
      → Prepared u drop_keys t
  unfolding with_url
  with_url-Prepared u drop_keys t e = by_tests _ _ refl refl e
    where
      by_tests :
          (a b : Bool)
          → same_text (or_default http (l.scheme u)) http ≡ a
          → same_text (l.hostname u) [] ≡ b
          → (if not a
              then inl scheme_error
              else if b
              then inl empty_host
              else with_address l u drop_keys (l.resolve_ip4 (l.hostname u)))
            ≡ inr t
          → Prepared u drop_keys t
      by_tests false b p q e = absurd cc
      by_tests true true p q e = absurd cc
      by_tests true false p q e =
          with_address-Prepared u drop_keys t _ refl (http_scheme _ p) (not_empty _ q) e

  prepare_target-Prepared :
      (base_url : List ℕ) (drop_keys : List (List ℕ)) (t : Target)
      → prepare_target l base_url drop_keys ≡ inr t
      → (u : l.Url) × (l.parse base_url ≡ some u) × Prepared u drop_keys t
  unfolding prepare_target
  prepare_target-Prepared base_url drop_keys t e = by_parse (l.parse base_url) refl e
    where
      by_parse :
          (o : Option l.Url)
          → l.parse base_url ≡ o
          → (elim o [ none ↦ inl parse_error | some u ↦ with_url l u drop_keys ]) ≡ inr t
          → (u : l.Url) × (l.parse base_url ≡ some u) × Prepared u drop_keys t
      by_parse none p e = absurd cc
      by_parse (some u) p e = (u, p, with_url-Prepared u drop_keys t e)

  -- If a target is prepared, its URL has the scheme http or none, and a host that was resolved; and
  -- if escaped paths have no question mark, each request asks for the path, or `/`, with one query:
  -- that of the URL without `num`, if anything is left of it, and then the number as `num`.
  pub target_requests :
      ((u : l.Url) → contains_char b'?' (l.escaped_path u) ≡ false)
      → (base_url : List ℕ) (t : Target) → prepare_target l base_url calc_keys ≡ inr t
      → (u : l.Url) × (l.parse base_url ≡ some u)
        × Prepared u calc_keys t
        × ((n : Int64)
            → uri_of t.path n
              ≡ or_default (b'/' ∷ []) (l.escaped_path u)
                ++ b'?' ∷ query_with (l.encode (l.del (l.query u) calc_num_key)) (format_int n))
  unfolding uri_of raw_query
  target_requests no_mark base_url t e =
      let (u, p, m) = prepare_target-Prepared base_url calc_keys t e in
      (
        u,
        p,
        m,
        λ n.
            ap (λ z. uri_buf z ++ format_int n) m.asks
            ∙ path_of-query (l.escaped_path u) (raw_query l u calc_keys) (format_int n) (no_mark u),
      )
