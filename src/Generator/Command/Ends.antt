-- ===== src/Generator/Command/Ends.antt =====
-- How the command ends.
use cdnnow_test_golang.Shared.{
  ℕ, ◌-◌, ◌≤◌, ◌≡◌, refl, ap, ◌∙◌, Bool, true, false, Option, none, some, List, ◌⊎◌, inl, inr,
  if◌then◌else◌, length,
}
use cdnnow_test_golang.Generator.Stat.{HistLibrary, Stat}
use cdnnow_test_golang.Generator.Runner.{History, all_sent, print_report}
use cdnnow_test_golang.Generator.Runner.Totals.{all_tallies, Shows, generate_totals}
use cdnnow_test_golang.Generator.Client.{Answer}
use cdnnow_test_golang.Generator.Target.{UrlLibrary, Target, calc_keys, prepare_target}
use cdnnow_test_golang.Generator.Config.{Floats, GeneratorConfig, ParsedFlags, flags_read}
use cdnnow_test_golang.Generator.Config.Bounds.{Accepted, config-Accepted}
use cdnnow_test_golang.Generator.Command.{
  probe_target, threads_of, reports, runs_on, run_config, report, run_workers, with_probe,
  with_target, with_config, command,
}

module _ (h : HistLibrary) (l : UrlLibrary) (f : Floats) (trim_space : List ℕ → List ℕ)
    (status_text : ℕ → List ℕ) where
  -- A probe that is not made, or that succeeds.
  Probed : GeneratorConfig → Answer → Type 0
  Probed cfg a = (cfg.no_probe ≡ true) ⊎ (probe_target trim_space status_text a ≡ none)

  probe-none :
      (cfg : GeneratorConfig) (a : Answer)
      → Probed cfg a
      → (if cfg.no_probe then none else probe_target trim_space status_text a) ≡ none
  unfolding Probed
  probe-none cfg a (inl e) = rw e refl
  probe-none cfg a (inr e) = by_flag cfg.no_probe
    where
      by_flag : (b : Bool) → (if b then none else probe_target trim_space status_text a) ≡ none
      by_flag true = refl
      by_flag false = e

  -- With flags that are accepted, a target, and a probe that succeeds or is not asked for, the
  -- command runs on until its context ends, and then ends with a report: of statistics that show the
  -- requests of exactly the workers whose statistics were received before the time-out, if it came,
  -- whatever these workers met; the others are the skipped ones.
  pub command_reports :
      (p : ParsedFlags f) (cfg : GeneratorConfig) (t : Target) (a : Answer) (ws : List History)
      (ss : List (Option (Stat h)))
      → Accepted f p cfg
      → prepare_target l cfg.base_url calc_keys ≡ inr t
      → (cfg.no_probe ≡ true) ⊎ (probe_target trim_space status_text a ≡ none)
      → all_sent h (run_config cfg) ws ≡ some ss
      → length ws ≤ threads_of cfg.threads
      → (command h l f trim_space status_text (flags_read p) a false ws ≡ runs_on)
        × ((m : Stat h) × (command h l f trim_space status_text (flags_read p) a true ws
              ≡ reports (threads_of cfg.threads - length ws) (print_report h m cfg.percentiles))
            × Shows h m (all_tallies h (run_config cfg) ws))
  unfolding command with_config with_target with_probe run_workers report Probed
  command_reports p cfg t a ws ss accepted target probed sent le =
      let (m, g, shows) =
        generate_totals h (run_config cfg) (threads_of cfg.threads) ws ss sent le in
      let starts = λ (ended : Bool).
        ap (λ c. with_config h l f trim_space status_text c a ended ws)
          ((config-Accepted f p cfg).1 accepted)
        ∙ ap (λ o. with_target h l f trim_space status_text cfg a o ended ws) target
        ∙ ap (λ o. with_probe h cfg o ended ws) (probe-none cfg a probed) in
      (starts false, (m, starts true ∙ ap (report h cfg) g, shows))
