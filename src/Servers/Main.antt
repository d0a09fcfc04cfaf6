-- ===== src/Servers/Main.antt =====
-- `main` of cmd/server, from the parsed flags on. The interval is what the conversion of the seconds
-- to nanoseconds gives; a setting is what its name was read as. `loaded` is what `LoadLibraries`
-- answers.
use cdnnow_test_golang.Shared.{
  ℕ, zero, suc, ◌<◌, ◌≡◌, refl, sym, ap, ◌∙◌, Bool, true, false, not, ◌&&◌, ◌||◌, none, some, List,
  ◌==◌, if◌then◌else◌, arith, ℤ, pos, negsuc,
}
use cdnnow_test_golang.Servers.Run.{
  Config, Env, Parts, Ran, mode_async, mode_parallel, parts_of, run,
}

pub record Flags : Type 0 where
  pub interval : ℤ
  pub server_type : ℕ
  pub calc_mode : ℕ
  pub queue_size : ℤ
  pub pprof_addr : List ℕ
  pub max_conns : ℤ

-- How the process ends: with the usage, without the libraries, or after `Run`.
pub data MainEnd : Type 0 where
  bad_interval bad_queue_size bad_max_conns not_loaded : MainEnd
  ran : Config → (interval : ℕ) → Ran → MainEnd

unfoldable pub positive : ℤ → Bool
positive (pos zero) = false
positive (pos (suc n)) = true
positive (negsuc n) = false

unfoldable pub negative : ℤ → Bool
negative (pos n) = false
negative (negsuc n) = true

-- A negative number is 0 here; only a queue size that no calculator uses can be one.
unfoldable pub to_nat : ℤ → ℕ
to_nat (pos n) = n
to_nat (negsuc n) = 0

unfoldable pub config_of : Flags → Config
unfolding to_nat
config_of f = record {
  server_type = f.server_type;
  calc_mode = f.calc_mode;
  queue_size = to_nat f.queue_size;
  pprof_addr = f.pprof_addr;
  max_conns = to_nat f.max_conns;
}

unfoldable pub main_ends : Flags → (loaded : Bool) → Env → MainEnd
unfolding positive negative config_of
main_ends f loaded env =
    if not (positive f.interval)
    then bad_interval
    else if (f.calc_mode == mode_async || f.calc_mode == mode_parallel)
        && not (positive f.queue_size)
    then bad_queue_size
    else if negative f.max_conns
    then bad_max_conns
    else if not loaded
    then not_loaded
    else ran (config_of f) (to_nat f.interval) (run (config_of f) env)

-- The exit code.
unfoldable pub exit_code : MainEnd → ℕ
exit_code (ran cfg interval (acts, none)) = 0
exit_code _ = 1

positive-to_nat : (z : ℤ) → positive z ≡ true → 0 < to_nat z
unfolding positive to_nat
positive-to_nat (pos zero) h = cc
positive-to_nat (pos (suc n)) h = omega arith
positive-to_nat (negsuc n) h = cc

abbrev needs_queue : ℕ → Bool
needs_queue mode = mode == mode_async || mode == mode_parallel

-- Which modes make a calculator with a queue.
parts-queue :
    (cfg : Config) (parts : Parts) (n : ℕ)
    → parts_of cfg ≡ some parts
    → parts.queue ≡ some n
    → (n ≡ cfg.queue_size) × (needs_queue cfg.calc_mode ≡ true)
unfolding parts_of
parts-queue cfg parts n e q = ground arith

checked : (x y : Bool) → (x && not y) ≡ false → x ≡ true → y ≡ true
checked x true e h = refl
checked true false e h = cc
checked false false e h = cc

guards :
    (b c d l : Bool) (x y z w v r : MainEnd)
    → (if not b then x else if c then y else if d then z else if not l then w else v) ≡ r
    → (x ≡ r → ⊥)
    → (y ≡ r → ⊥)
    → (z ≡ r → ⊥)
    → (w ≡ r → ⊥)
    → (b ≡ true) × (c ≡ false) × (l ≡ true) × (v ≡ r)
guards false c d l x y z w v r e nx ny nz nw = absurd (nx e)
guards true true d l x y z w v r e nx ny nz nw = absurd (ny e)
guards true false true l x y z w v r e nx ny nz nw = absurd (nz e)
guards true false false false x y z w v r e nx ny nz nw = absurd (nw e)
guards true false false true x y z w v r e nx ny nz nw = (refl, refl, refl, e)

-- If the server runs, then with the libraries loaded, a positive interval, and a queue of positive
-- size wherever the mode makes a calculator with a queue.
pub run_config_bounds :
    (f : Flags) (loaded : Bool) (env : Env) (cfg : Config) (interval : ℕ) (r : Ran)
    → main_ends f loaded env ≡ ran cfg interval r
    → (loaded ≡ true)
      × (0 < interval)
      × ((parts : Parts) (n : ℕ)
          → parts_of cfg ≡ some parts
          → parts.queue ≡ some n
          → (n ≡ cfg.queue_size) × (0 < n))
      × (r ≡ run cfg env)
unfolding main_ends parts_of config_of
run_config_bounds f loaded env cfg interval r e =
    let (b, c, l, v) =
      guards (positive f.interval) (needs_queue f.calc_mode && not (positive f.queue_size))
        (negative f.max_conns) loaded _ _ _ _ _ _ e (λ x. cc) (λ x. cc) (λ x. cc) (λ x. cc) in
    let same_cfg : config_of f ≡ cfg = cc in
    let same_interval : to_nat f.interval ≡ interval = cc in
    let same_ran : run (config_of f) env ≡ r = cc in
    (
      l,
      omega (arith, same_interval, positive-to_nat f.interval b),
      λ parts n p q.
          let (k, m) = parts-queue cfg parts n p q in
          let size : to_nat f.queue_size ≡ cfg.queue_size =
            ap (λ (z : Config). z.queue_size) same_cfg in
          let mode : f.calc_mode ≡ cfg.calc_mode = ap (λ (z : Config). z.calc_mode) same_cfg in
          let big : positive f.queue_size ≡ true = checked _ _ c (ap needs_queue mode ∙ m) in
          (k, omega (arith, k, size, positive-to_nat f.queue_size big)),
      sym same_ran ∙ ap (λ z. run z env) same_cfg,
    )
