-- ===== src/Generator/Command.antt =====
-- cmd/generator/main.go and probe.go: the command, from the flags to the report. The logger and the
-- signals are left out. A list of histories is of the workers whose statistics `waitWorkers` receives
-- before it chooses the time-out, in that order; `ended` says whether the context ever ends.
pub mod Ends
mod Tests
use cdnnow_test_golang.Shared.{
  ℕ, zero, suc, ◌-◌, Bool, true, false, Option, none, some, List, ◌⊎◌, inl, inr, if◌then◌else◌, ℤ,
  pos, negsuc,
}
use cdnnow_test_golang.Operators.{Int64}
use cdnnow_test_golang.Generator.Stat.{HistLibrary, Stat}
use cdnnow_test_golang.Generator.Runner.{RunConfig, History, ReportLine, generate, print_report}
use cdnnow_test_golang.Generator.Client.{Answer, ClientError, do_request}
use cdnnow_test_golang.Generator.Target.{UrlLibrary, Target, TargetError, calc_keys, prepare_target}
use cdnnow_test_golang.Generator.Config.{
  Floats, GeneratorConfig, FlagsRead, parse_config, config_or_exit,
}

-- `ProbeTarget` asks for the number 0.
abbrev pub probe_num : Int64
probe_num = 0

unfoldable pub probe_target : (List ℕ → List ℕ) → (ℕ → List ℕ) → Answer → Option ClientError
unfolding do_request
probe_target trim_space status_text a = (do_request trim_space status_text a).1

-- The number of threads, which is positive.
unfoldable pub threads_of : ℤ → ℕ
threads_of (pos n) = n
threads_of (negsuc n) = 0

-- How the command ends: with an exit code before any worker is started, or with the report and the
-- number of workers whose statistics were not received. Or it runs on, as it does without a duration
-- until there is a signal, or waits for workers.
pub data CommandEnd (h : HistLibrary) : Type 0 where
  exits : (code : ℕ) → CommandEnd h
  runs_on waits : CommandEnd h
  reports : (skipped : ℕ) → List (ReportLine h) → CommandEnd h

abbrev pub run_config : GeneratorConfig → RunConfig
run_config cfg = record { jitter = cfg.jitter; interval = cfg.interval }

module _ (h : HistLibrary) where
  unfoldable pub report : GeneratorConfig → Option (Stat h × ℕ) → CommandEnd h
  unfolding threads_of
  report cfg none = waits
  report cfg (some (stat, n)) =
      reports (threads_of cfg.threads - n) (print_report h stat cfg.percentiles)

  -- From the start of the workers on: `<-ctx.Done()`, and then the wait for the workers.
  unfoldable pub run_workers : GeneratorConfig → (ended : Bool) → List History → CommandEnd h
  unfolding report threads_of
  run_workers cfg false ws = runs_on
  run_workers cfg true ws = report cfg (generate h (run_config cfg) (threads_of cfg.threads) ws)

  unfoldable pub with_probe :
      GeneratorConfig → Option ClientError → (ended : Bool) → List History → CommandEnd h
  unfolding run_workers
  with_probe cfg none ended ws = run_workers cfg ended ws
  with_probe cfg (some e) ended ws = exits 1

  module _ (l : UrlLibrary) (f : Floats) (trim_space : List ℕ → List ℕ)
      (status_text : ℕ → List ℕ) where
    unfoldable pub with_target :
        GeneratorConfig
        → Answer
        → TargetError ⊎ Target
        → (ended : Bool) → List History
        → CommandEnd h
    unfolding with_probe probe_target
    with_target cfg a (inl e) ended ws = exits 1
    with_target cfg a (inr t) ended ws =
        with_probe cfg (if cfg.no_probe then none else probe_target trim_space status_text a) ended
          ws

    unfoldable pub with_config :
        ℕ ⊎ GeneratorConfig → Answer → (ended : Bool) → List History → CommandEnd h
    unfolding with_target
    with_config (inl code) a ended ws = exits code
    with_config (inr cfg) a ended ws =
        with_target cfg a (prepare_target l cfg.base_url calc_keys) ended ws

    -- `main`; the answer is that to the probe.
    unfoldable pub command : FlagsRead f → Answer → (ended : Bool) → List History → CommandEnd h
    unfolding with_config
    command flags a ended ws = with_config (config_or_exit f (parse_config f flags)) a ended ws
