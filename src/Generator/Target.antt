-- ===== src/Generator/Target.antt =====
-- internal/generator/clients/target.go. The URL parser, its query and the resolver are parameters.
pub mod Requests
use cdnnow_test_golang.Shared.{
  ℕ, Bool, true, false, not, Option, none, some, List, [], ◌∷◌, ◌++◌, ◌⊎◌, inl, inr, same_text,
  if◌then◌else◌,
}
use mathlib.Core.List.{foldl}
use cdnnow_test_golang.Generator.Client.{calc_num_key}

-- What `PrepareTarget` uses of `net/url` and `net`.
pub record UrlLibrary : Type 1 where
  pub Url : Type 0
  pub Query : Type 0
  pub parse : List ℕ → Option Url
  pub scheme : Url → List ℕ
  pub hostname : Url → List ℕ
  pub port : Url → List ℕ
  pub host : Url → List ℕ
  pub escaped_path : Url → List ℕ
  pub query : Url → Query
  pub del : Query → List ℕ → Query
  pub encode : Query → List ℕ
  pub resolve_ip4 : List ℕ → Option (List ℕ)
  pub join_host_port : List ℕ → List ℕ → List ℕ

pub record Target : Type 0 where
  pub dial_addr : List ℕ
  pub path : List ℕ
  pub host_header : List ℕ

pub data TargetError : Type 0 where
  parse_error scheme_error empty_host resolve_error : TargetError

abbrev pub http : List ℕ
http = b'h' ∷ b't' ∷ b't' ∷ b'p' ∷ []

abbrev pub default_port : List ℕ
default_port = b'8' ∷ b'0' ∷ []

-- `CalcKeys`
abbrev pub calc_keys : List (List ℕ)
calc_keys = calc_num_key ∷ []

abbrev pub or_default : List ℕ → List ℕ → List ℕ
or_default default [] = default
or_default default (c ∷ cs) = c ∷ cs

-- The path, and the query behind it.
abbrev pub with_query : List ℕ → List ℕ
with_query [] = []
with_query (c ∷ cs) = b'?' ∷ c ∷ cs

unfoldable pub path_of : List ℕ → List ℕ → List ℕ
path_of escaped raw_query = or_default (b'/' ∷ []) escaped ++ with_query raw_query

module _ (l : UrlLibrary) where
  unfoldable pub raw_query : l.Url → List (List ℕ) → List ℕ
  raw_query u drop_keys = l.encode (foldl l.del (l.query u) drop_keys)

  -- What follows the call of the resolver.
  unfoldable pub with_address : l.Url → List (List ℕ) → Option (List ℕ) → TargetError ⊎ Target
  unfolding path_of raw_query
  with_address u drop_keys none = inl resolve_error
  with_address u drop_keys (some ip) = inr (record {
    dial_addr = l.join_host_port ip (or_default default_port (l.port u));
    path = path_of (l.escaped_path u) (raw_query u drop_keys);
    host_header = l.host u;
  })

  unfoldable pub with_url : l.Url → List (List ℕ) → TargetError ⊎ Target
  unfolding with_address
  with_url u drop_keys =
      if not (same_text (or_default http (l.scheme u)) http)
      then inl scheme_error
      else if same_text (l.hostname u) []
      then inl empty_host
      else with_address u drop_keys (l.resolve_ip4 (l.hostname u))

  unfoldable pub prepare_target : List ℕ → List (List ℕ) → TargetError ⊎ Target
  unfolding with_url
  prepare_target base_url drop_keys = elim (l.parse base_url) [
    | none ↦ inl parse_error
    | some u ↦ with_url u drop_keys
  ]
