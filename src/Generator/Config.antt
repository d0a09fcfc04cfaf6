-- ===== src/Generator/Config.antt =====
-- cmd/generator/config.go, from what the `flag` package answers on. The floating-point numbers are a
-- parameter. The printing of the error and the usage is left out.
pub mod Bounds
use cdnnow_test_golang.Shared.{
  ℕ, zero, suc, Bool, true, false, not, ◌||◌, List, ◌⊎◌, inl, inr, if◌then◌else◌, ℤ, pos, negsuc,
}
use cdnnow_test_golang.Generator.Worker.{is_positive}

-- What `secToDuration` uses of float64: `below_min` is `t < math.MinInt64`, `reaches_max` is
-- `t >= math.MaxInt64`, and `to_int` the conversion to an int64.
pub record Floats : Type 1 where
  pub Float : Type 0
  pub is_nan : Float → Bool
  pub is_inf : Float → Bool
  pub times_second : Float → Float
  pub below_min : Float → Bool
  pub reaches_max : Float → Bool
  pub to_int : Float → ℤ

pub record GeneratorConfig : Type 0 where
  pub base_url : List ℕ
  pub threads : ℤ
  pub interval : ℤ
  pub timeout : ℤ
  pub duration : ℤ
  pub jitter : ℤ
  pub no_keep_alive : Bool
  pub no_probe : Bool
  pub percentiles : Bool

pub data SecondsError : Type 0 where
  not_finite too_large : SecondsError

pub data ConfigError : Type 0 where
  invalid_interval invalid_timeout : SecondsError → ConfigError
  negative_interval no_timeout no_threads negative_duration negative_jitter : ConfigError

unfoldable pub is_negative : ℤ → Bool
is_negative (pos n) = false
is_negative (negsuc n) = true

module _ (f : Floats) where
  -- The struct that the flags are read into.
  pub record ParsedFlags : Type 0 where
    pub base_url : List ℕ
    pub threads : ℤ
    pub interval_sec : f.Float
    pub timeout_sec : f.Float
    pub no_keep_alive : Bool
    pub no_probe : Bool
    pub percentiles : Bool
    pub duration : ℤ
    pub jitter : ℤ

  unfoldable pub sec_to_duration : f.Float → SecondsError ⊎ ℤ
  sec_to_duration sec =
      if f.is_nan sec || f.is_inf sec
      then inl not_finite
      else if f.below_min (f.times_second sec) || f.reaches_max (f.times_second sec)
      then inl too_large
      else inr (f.to_int (f.times_second sec))

  unfoldable pub made_config : ParsedFlags → ℤ → ℤ → GeneratorConfig
  made_config p interval timeout = record {
    base_url = p.base_url;
    threads = p.threads;
    interval = interval;
    timeout = timeout;
    duration = p.duration;
    jitter = p.jitter;
    no_keep_alive = p.no_keep_alive;
    no_probe = p.no_probe;
    percentiles = p.percentiles;
  }

  -- The `switch`.
  unfoldable pub check_values : ParsedFlags → ℤ → ℤ → ConfigError ⊎ GeneratorConfig
  unfolding is_negative is_positive made_config
  check_values p interval timeout =
      if is_negative interval
      then inl negative_interval
      else if not (is_positive timeout)
      then inl no_timeout
      else if not (is_positive p.threads)
      then inl no_threads
      else if is_negative p.duration
      then inl negative_duration
      else if is_negative p.jitter
      then inl negative_jitter
      else inr (made_config p interval timeout)

  unfoldable pub check_timeout : ParsedFlags → ℤ → SecondsError ⊎ ℤ → ConfigError ⊎ GeneratorConfig
  unfolding check_values
  check_timeout p interval (inl e) = inl (invalid_timeout e)
  check_timeout p interval (inr timeout) = check_values p interval timeout

  unfoldable pub check_interval : ParsedFlags → SecondsError ⊎ ℤ → ConfigError ⊎ GeneratorConfig
  unfolding check_timeout sec_to_duration
  check_interval p (inl e) = inl (invalid_interval e)
  check_interval p (inr interval) = check_timeout p interval (sec_to_duration p.timeout_sec)

  -- What `flag.Parse` answers: the usage was asked for, another error, or the flags.
  pub data FlagsRead : Type 0 where
    help_asked flag_error : FlagsRead
    flags_read : ParsedFlags → FlagsRead

  pub data ParseError : Type 0 where
    help other_flag_error : ParseError
    config_error : ConfigError → ParseError

  unfoldable pub or_config_error : ConfigError ⊎ GeneratorConfig → ParseError ⊎ GeneratorConfig
  or_config_error (inl e) = inl (config_error e)
  or_config_error (inr cfg) = inr cfg

  unfoldable pub parse_config : FlagsRead → ParseError ⊎ GeneratorConfig
  unfolding check_interval or_config_error sec_to_duration
  parse_config help_asked = inl help
  parse_config flag_error = inl other_flag_error
  parse_config (flags_read p) = or_config_error (check_interval p (sec_to_duration p.interval_sec))

  -- `ParseConfigOrExit`: the exit code, or the configuration.
  unfoldable pub config_or_exit : ParseError ⊎ GeneratorConfig → ℕ ⊎ GeneratorConfig
  config_or_exit (inl help) = inl 0
  config_or_exit (inl other_flag_error) = inl 2
  config_or_exit (inl (config_error e)) = inl 2
  config_or_exit (inr cfg) = inr cfg
