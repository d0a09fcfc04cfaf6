-- ===== src/Generator/Config/Bounds.antt =====
-- Which flags are accepted.
use cdnnow_test_golang.Shared.{
  ◌≡◌, ◌↔◌, refl, sym, ap, subst, ◌∙◌, Bool, true, false, not, ◌||◌, ◌⊎◌, inl, inr, if◌then◌else◌,
  ℤ,
}
use mathlib.Core.Sum.{inr-injective}
use cdnnow_test_golang.Generator.Worker.{is_positive}
use cdnnow_test_golang.Generator.Config.{
  Floats, GeneratorConfig, SecondsError, not_finite, too_large, ConfigError, negative_interval,
  no_timeout, no_threads, negative_duration, negative_jitter, is_negative, ParsedFlags,
  sec_to_duration, made_config, check_values, check_timeout, check_interval, flags_read,
  or_config_error, parse_config, config_or_exit,
}

-- What the generator can work with.
pub record IsUsable (cfg : GeneratorConfig) : Type 0 where
  pub interval_ok : is_negative cfg.interval ≡ false
  pub timeout_ok : is_positive cfg.timeout ≡ true
  pub threads_ok : is_positive cfg.threads ≡ true
  pub duration_ok : is_negative cfg.duration ≡ false
  pub jitter_ok : is_negative cfg.jitter ≡ false

module _ (f : Floats) where
  -- A number of seconds that is a duration of an int64 of nanoseconds.
  pub record InRange (sec : f.Float) (d : ℤ) : Type 0 where
    pub no_nan : f.is_nan sec ≡ false
    pub no_inf : f.is_inf sec ≡ false
    pub not_below : f.below_min (f.times_second sec) ≡ false
    pub not_above : f.reaches_max (f.times_second sec) ≡ false
    pub converted : f.to_int (f.times_second sec) ≡ d

  sec_to_duration-InRange : (sec : f.Float) (d : ℤ) → sec_to_duration f sec ≡ inr d → InRange sec d
  unfolding sec_to_duration
  sec_to_duration-InRange sec d e = by_tests _ _ _ _ refl refl refl refl e
    where
      by_tests :
          (a b x y : Bool)
          → f.is_nan sec ≡ a
          → f.is_inf sec ≡ b
          → f.below_min (f.times_second sec) ≡ x
          → f.reaches_max (f.times_second sec) ≡ y
          → (if a || b
              then inl not_finite
              else if x || y
              then inl too_large
              else inr (f.to_int (f.times_second sec)))
            ≡ inr d
          → InRange sec d
      by_tests true b x y p q r s e = absurd cc
      by_tests false true x y p q r s e = absurd cc
      by_tests false false true y p q r s e = absurd cc
      by_tests false false false true p q r s e = absurd cc
      by_tests false false false false p q r s e = record {
        no_nan = p;
        no_inf = q;
        not_below = r;
        not_above = s;
        converted = inr-injective _ _ e;
      }

  sec_to_duration-in : (sec : f.Float) (d : ℤ) → InRange sec d → sec_to_duration f sec ≡ inr d
  unfolding sec_to_duration
  sec_to_duration-in sec d r =
      rw (r.no_nan, r.no_inf, r.not_below, r.not_above) (ap inr r.converted)

  made_config-IsUsable :
      (p : ParsedFlags f) (interval timeout : ℤ)
      → is_negative interval ≡ false
      → is_positive timeout ≡ true
      → is_positive p.threads ≡ true
      → is_negative p.duration ≡ false
      → is_negative p.jitter ≡ false
      → IsUsable (made_config f p interval timeout)
  unfolding made_config
  made_config-IsUsable p interval timeout k l m n o = record {
    interval_ok = k;
    timeout_ok = l;
    threads_ok = m;
    duration_ok = n;
    jitter_ok = o;
  }

  check_values-IsUsable :
      (p : ParsedFlags f) (interval timeout : ℤ) (cfg : GeneratorConfig)
      → check_values f p interval timeout ≡ inr cfg
      → (cfg ≡ made_config f p interval timeout) × IsUsable cfg
  unfolding check_values
  check_values-IsUsable p interval timeout cfg e = by_tests _ _ _ _ _ refl refl refl refl refl e
    where
      by_tests :
          (a b c x y : Bool)
          → is_negative interval ≡ a
          → is_positive timeout ≡ b
          → is_positive p.threads ≡ c
          → is_negative p.duration ≡ x
          → is_negative p.jitter ≡ y
          → (if a
              then inl negative_interval
              else if not b
              then inl no_timeout
              else if not c
              then inl no_threads
              else if x
              then inl negative_duration
              else if y
              then inl negative_jitter
              else inr (made_config f p interval timeout))
            ≡ inr cfg
          → (cfg ≡ made_config f p interval timeout) × IsUsable cfg
      by_tests true b c x y k l m n o e = absurd cc
      by_tests false false c x y k l m n o e = absurd cc
      by_tests false true false x y k l m n o e = absurd cc
      by_tests false true true true y k l m n o e = absurd cc
      by_tests false true true false true k l m n o e = absurd cc
      by_tests false true true false false k l m n o e = (
        sym (inr-injective _ _ e),
        subst IsUsable (inr-injective _ _ e) (made_config-IsUsable p interval timeout k l m n o),
      )

  check_values-in :
      (p : ParsedFlags f) (interval timeout : ℤ)
      → IsUsable (made_config f p interval timeout)
      → check_values f p interval timeout ≡ inr (made_config f p interval timeout)
  unfolding check_values made_config
  check_values-in p interval timeout u =
      rw (u.interval_ok, u.timeout_ok, u.threads_ok, u.duration_ok, u.jitter_ok) refl

  -- What the flags must be for a configuration.
  pub record Accepted (p : ParsedFlags f) (cfg : GeneratorConfig) : Type 0 where
    pub interval : ℤ
    pub timeout : ℤ
    pub interval_in : InRange p.interval_sec interval
    pub timeout_in : InRange p.timeout_sec timeout
    pub made : cfg ≡ made_config f p interval timeout
    pub usable : IsUsable cfg

  check_timeout-Accepted :
      (p : ParsedFlags f) (interval : ℤ) (cfg : GeneratorConfig) (t : SecondsError ⊎ ℤ)
      → sec_to_duration f p.timeout_sec ≡ t
      → InRange p.interval_sec interval
      → check_timeout f p interval t ≡ inr cfg
      → Accepted p cfg
  unfolding check_timeout
  check_timeout-Accepted p interval cfg (inl x) s r e = absurd cc
  check_timeout-Accepted p interval cfg (inr timeout) s r e =
      let (m, u) = check_values-IsUsable p interval timeout cfg e in
      record {
        interval = interval;
        timeout = timeout;
        interval_in = r;
        timeout_in = sec_to_duration-InRange p.timeout_sec timeout s;
        made = m;
        usable = u;
      }

  check_interval-Accepted :
      (p : ParsedFlags f) (cfg : GeneratorConfig) (i : SecondsError ⊎ ℤ)
      → sec_to_duration f p.interval_sec ≡ i
      → check_interval f p i ≡ inr cfg
      → Accepted p cfg
  unfolding check_interval
  check_interval-Accepted p cfg (inl x) s e = absurd cc
  check_interval-Accepted p cfg (inr interval) s e =
      check_timeout-Accepted p interval cfg _ refl
        (sec_to_duration-InRange p.interval_sec interval s) e

  check_interval-in :
      (p : ParsedFlags f) (cfg : GeneratorConfig)
      → Accepted p cfg
      → check_interval f p (sec_to_duration f p.interval_sec) ≡ inr cfg
  unfolding check_interval check_timeout
  check_interval-in p cfg a =
      rw
        (
          sec_to_duration-in p.interval_sec a.interval a.interval_in,
          sec_to_duration-in p.timeout_sec a.timeout a.timeout_in,
        )
        (check_values-in p a.interval a.timeout (subst IsUsable a.made a.usable)
          ∙ ap inr (sym a.made))

  read_out :
      (c : ConfigError ⊎ GeneratorConfig) (cfg : GeneratorConfig)
      → config_or_exit f (or_config_error f c) ≡ inr cfg
      → c ≡ inr cfg
  unfolding or_config_error config_or_exit
  read_out (inl e) cfg h = absurd cc
  read_out (inr c) cfg h = ap inr (inr-injective _ _ h)

  -- The generator's command gets a configuration exactly if the interval and the timeout are finite
  -- and fit an int64 of nanoseconds, the interval, the duration and the jitter are not negative, and
  -- the timeout and the number of threads are positive; and the configuration is that of the flags.
  pub config-Accepted :
      (p : ParsedFlags f) (cfg : GeneratorConfig)
      → (config_or_exit f (parse_config f (flags_read p)) ≡ inr cfg) ↔ Accepted p cfg
  unfolding parse_config config_or_exit or_config_error
  config-Accepted p cfg = (
    λ e. check_interval-Accepted p cfg _ refl (read_out _ cfg e),
    λ a. ap (λ c. config_or_exit f (or_config_error f c)) (check_interval-in p cfg a),
  )
