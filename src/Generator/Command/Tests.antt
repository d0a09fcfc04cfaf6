-- ===== src/Generator/Command/Tests.antt =====
-- The command's theorems at concrete flags.
use cdnnow_test_golang.Shared.{
  ℕ, ◌-◌, ◌≤◌, ◌≡◌, ◌↔◌, inr, refl, true, false, none, some, List, [], ◌∷◌, ◌++◌, arith, same_text,
  if◌then◌else◌, ℤ, pos, length,
}
use cdnnow_test_golang.Operators.{Int64}
use cdnnow_test_golang.Api.Numbers.Decimal.{format_int}
use cdnnow_test_golang.Generator.Stat.{Stat}
use cdnnow_test_golang.Generator.Worker.{is_positive}
use cdnnow_test_golang.Generator.Runner.{print_report}
use cdnnow_test_golang.Generator.Runner.Totals.{Shows, all_tallies}
use cdnnow_test_golang.Generator.Tests.{list_hist, two_workers, jittered, paused, two_workers_sent}
use cdnnow_test_golang.Generator.Client.{answer, uri_of, contains_char, calc_num_key}
use cdnnow_test_golang.Generator.Target.{
  UrlLibrary, Target, prepare_target, with_url, with_address, path_of, raw_query, calc_keys,
  or_default,
}
use cdnnow_test_golang.Generator.Target.Requests.{Prepared, query_with, target_requests}
use cdnnow_test_golang.Generator.Config.{
  Floats, GeneratorConfig, ParsedFlags, flags_read, parse_config, config_or_exit, made_config,
  is_negative,
}
use cdnnow_test_golang.Generator.Config.Bounds.{Accepted, config-Accepted}
use cdnnow_test_golang.Generator.Command.{probe_target, threads_of, reports, runs_on, command}
use cdnnow_test_golang.Generator.Command.Ends.{command_reports}

-- Every text is the host of a URL with the path `/calc` and the query `num`.
abbrev hosts : UrlLibrary
hosts = record {
  Url = List ℕ;
  Query = List (List ℕ);
  parse = λ s. some s;
  scheme = λ u. [];
  hostname = λ u. u;
  port = λ u. [];
  host = λ u. u;
  escaped_path = λ u. b'/' ∷ b'c' ∷ b'a' ∷ b'l' ∷ b'c' ∷ [];
  query = λ u. calc_num_key ∷ [];
  del = λ q k. elim q [ [] ↦ [] | x ∷ xs ↦ if same_text x k then xs else x ∷ xs ];
  encode = λ q. elim q [ [] ↦ [] | x ∷ xs ↦ x ];
  resolve_ip4 = λ s. some (b'1' ∷ []);
  join_host_port = λ s p. s ++ b':' ∷ p;
}

abbrev local : List ℕ
local = b'l' ∷ []

abbrev local_target : Target
local_target = record {
  dial_addr = b'1' ∷ b':' ∷ b'8' ∷ b'0' ∷ [];
  path = b'/' ∷ b'c' ∷ b'a' ∷ b'l' ∷ b'c' ∷ [];
  host_header = local;
}

local_prepared : prepare_target hosts local calc_keys ≡ inr local_target
unfolding prepare_target with_url with_address path_of raw_query
local_prepared = refl

no_mark : (u : List ℕ) → contains_char b'?' (b'/' ∷ b'c' ∷ b'a' ∷ b'l' ∷ b'c' ∷ []) ≡ false
unfolding contains_char
no_mark u = refl

target_requests_example :
    (u : List ℕ) × (some local ≡ some u)
    × Prepared hosts u calc_keys local_target
    × ((n : Int64)
        → uri_of local_target.path n
          ≡ or_default (b'/' ∷ []) (b'/' ∷ b'c' ∷ b'a' ∷ b'l' ∷ b'c' ∷ [])
            ++ b'?' ∷ query_with [] (format_int n))
target_requests_example = target_requests hosts no_mark local local_target local_prepared

-- Floating-point numbers that are whole numbers of nanoseconds.
abbrev whole : Floats
whole = record {
  Float = ℤ;
  is_nan = λ x. false;
  is_inf = λ x. false;
  times_second = λ x. x;
  below_min = λ x. false;
  reaches_max = λ x. false;
  to_int = λ x. x;
}

abbrev some_flags : ParsedFlags whole
some_flags = record {
  base_url = local;
  threads = pos 3;
  interval_sec = pos 100;
  timeout_sec = pos 5000;
  no_keep_alive = false;
  no_probe = false;
  percentiles = true;
  duration = pos 0;
  jitter = pos 5;
}

abbrev some_config : GeneratorConfig
some_config = record {
  base_url = local;
  threads = pos 3;
  interval = pos 100;
  timeout = pos 5000;
  duration = pos 0;
  jitter = pos 5;
  no_keep_alive = false;
  no_probe = false;
  percentiles = true;
}

some_flags-Accepted : Accepted whole some_flags some_config
unfolding made_config is_positive is_negative
some_flags-Accepted = record {
  interval = pos 100;
  timeout = pos 5000;
  interval_in = record {
    no_nan = refl;
    no_inf = refl;
    not_below = refl;
    not_above = refl;
    converted = refl;
  };
  timeout_in = record {
    no_nan = refl;
    no_inf = refl;
    not_below = refl;
    not_above = refl;
    converted = refl;
  };
  made = refl;
  usable = record {
    interval_ok = refl;
    timeout_ok = refl;
    threads_ok = refl;
    duration_ok = refl;
    jitter_ok = refl;
  };
}

config-Accepted_example :
    (config_or_exit whole (parse_config whole (flags_read some_flags)) ≡ inr some_config)
    ↔ Accepted whole some_flags some_config
config-Accepted_example = config-Accepted whole some_flags some_config

abbrev same : List ℕ → List ℕ
same s = s

abbrev no_text : ℕ → List ℕ
no_text code = []

probe_answered : probe_target same no_text (answer 7 202 []) ≡ none
unfolding probe_target
probe_answered = refl

two_are_few : length two_workers ≤ threads_of (pos 3)
unfolding threads_of
two_are_few = omega arith

command_reports_example :
    (command list_hist hosts whole same no_text
        (flags_read some_flags)
        (answer 7 202 [])
        false
        two_workers
      ≡ runs_on)
    × ((m : Stat list_hist) × (command list_hist hosts whole same no_text
            (flags_read some_flags)
            (answer 7 202 [])
            true
            two_workers
          ≡ reports (threads_of (pos 3) - 2) (print_report list_hist m true))
        × Shows list_hist m (all_tallies list_hist jittered two_workers))
command_reports_example =
    command_reports list_hist hosts whole same no_text some_flags some_config local_target
      (answer 7 202 []) two_workers (some paused.stat ∷ none ∷ []) some_flags-Accepted
      local_prepared (inr probe_answered) two_workers_sent two_are_few
