-- ===== src/Servers/Run.antt =====
-- `Run` of internal/servers/server.go, with `runStdHTTPServer`, `runFastHTTPServer` and `startPprof`,
-- as the list of what it starts and stops. What the network and the context answer is `Env`.
-- A `CalcMode` and a `ServerType` are their numbers. The queue size is not negative (main checks it
-- for the modes that use it). A deferred call comes after all that its function still does.
pub mod Ends
pub mod Shutdown
use cdnnow_test_golang.Shared.{
  ℕ, Bool, true, false, not, Option, none, some, List, [], ◌∷◌, ◌++◌, ◌==◌, if◌then◌else◌, length,
}

abbrev pub aggregator_queue_size : ℕ
aggregator_queue_size = 100

abbrev pub samples_batch_size : ℕ
samples_batch_size = 256

abbrev pub mode_sync : ℕ
mode_sync = 1

abbrev pub mode_async : ℕ
mode_async = 2

abbrev pub mode_parallel : ℕ
mode_parallel = 3

abbrev pub type_std : ℕ
type_std = 1

abbrev pub type_fast : ℕ
type_fast = 2

-- `Config`, less the address and the interval, which are only passed on.
pub record Config : Type 0 where
  pub server_type : ℕ
  pub calc_mode : ℕ
  pub queue_size : ℕ
  pub pprof_addr : List ℕ
  pub max_conns : ℕ

-- How serving ends: the context is done, with what `Shutdown` answers, or `Serve` fails.
pub data ServeEnd : Type 0 where
  cancelled : (shutdown_ok : Bool) → ServeEnd
  serve_failed : ServeEnd

pub record Env : Type 0 where
  pub listen_ok : Bool
  pub pprof_ok : Bool
  pub serve_end : ServeEnd

pub data RunError : Type 0 where
  listen_error pprof_error unknown_mode unknown_type shutdown_error serve_error : RunError

pub data Resource : Type 0 where
  listener pprof aggregator calculator printer : Resource

-- Which method of the aggregator the calculator calls.
pub data RecordFn : Type 0 where
  by_sample by_samples by_durations : RecordFn

-- What the `switch` on the mode makes: the batch sizes of the pools, the queue of the calculator,
-- if it has one, and the method that it calls.
pub record Parts : Type 0 where
  pub async_calc : Bool
  pub samples_pool : Option ℕ
  pub durations_pool : Option ℕ
  pub queue : Option ℕ
  pub record_fn : RecordFn

-- `closes` is the call that `Run` defers for a resource. `Shutdown` of both libraries closes the
-- listener before that (`listener_shut`), so that the deferred close of it, whose error is dropped,
-- finds it closed already.
pub data Act : Type 0 where
  opens closes : Resource → Act
  listener_shut : Act
  limits : ℕ → Act
  makes : Parts → Act
  serves : (server_type : ℕ) → (async_calc : Bool) → Act
  shuts_down : Act

unfoldable pub parts_of : Config → Option Parts
parts_of cfg =
    if cfg.calc_mode == mode_sync
    then some (record {
      async_calc = false;
      samples_pool = none;
      durations_pool = none;
      queue = none;
      record_fn = by_sample;
    })
    else if cfg.calc_mode == mode_async
    then some (record {
      async_calc = true;
      samples_pool = some samples_batch_size;
      durations_pool = none;
      queue = some cfg.queue_size;
      record_fn = by_samples;
    })
    else if cfg.calc_mode == mode_parallel
    then some (record {
      async_calc = true;
      samples_pool = none;
      durations_pool = some samples_batch_size;
      queue = some cfg.queue_size;
      record_fn = by_durations;
    })
    else none

abbrev pub Ran : Type 0
Ran = List Act × Option RunError

-- `defer`: the call comes at the end of what follows.
abbrev pub deferring : Act → Ran → Ran
deferring a (acts, e) = (acts ++ a ∷ [], e)

abbrev pub first_does : List Act → Ran → Ran
first_does xs (acts, e) = (xs ++ acts, e)

-- `runStdHTTPServer` and `runFastHTTPServer`, which differ in the server that they make.
unfoldable pub run_http_server : ℕ → Bool → ServeEnd → Ran
run_http_server server_type async_calc (cancelled true) =
    (serves server_type async_calc ∷ shuts_down ∷ listener_shut ∷ [], none)
run_http_server server_type async_calc (cancelled false) =
    (serves server_type async_calc ∷ shuts_down ∷ listener_shut ∷ [], some shutdown_error)
run_http_server server_type async_calc serve_failed =
    (serves server_type async_calc ∷ [], some serve_error)

-- The `switch` at the end of `Run`.
unfoldable pub run_server : Config → Env → Bool → Ran
unfolding run_http_server
run_server cfg env async_calc =
    if cfg.server_type == type_std
    then run_http_server type_std async_calc env.serve_end
    else if cfg.server_type == type_fast
    then run_http_server type_fast async_calc env.serve_end
    else ([], some unknown_type)

-- A calculator with a queue has a goroutine and a `Stop`, which is deferred after the printer is
-- started.
unfoldable pub run_calculator : Config → Env → Bool → Option ℕ → Ran
unfolding run_server
run_calculator cfg env async_calc (some n) =
    first_does (opens calculator ∷ opens printer ∷ [])
      (deferring (closes printer) (deferring (closes calculator) (run_server cfg env async_calc)))
run_calculator cfg env async_calc none =
    first_does (opens printer ∷ []) (deferring (closes printer) (run_server cfg env async_calc))

unfoldable pub run_parts : Config → Env → Option Parts → Ran
unfolding run_calculator
run_parts cfg env none = ([], some unknown_mode)
run_parts cfg env (some parts) =
    first_does (makes parts ∷ opens aggregator ∷ [])
      (deferring (closes aggregator) (run_calculator cfg env parts.async_calc parts.queue))

-- `startPprof` does nothing for an empty address.
unfoldable pub run_pprof : Config → Env → List ℕ → Ran
unfolding run_parts parts_of
run_pprof cfg env [] = run_parts cfg env (parts_of cfg)
run_pprof cfg env (c ∷ cs) =
    if env.pprof_ok
    then first_does (opens pprof ∷ []) (deferring (closes pprof) (run_parts cfg env (parts_of cfg)))
    else ([], some pprof_error)

unfoldable pub run : Config → Env → Ran
unfolding run_pprof
run cfg env =
    if env.listen_ok
    then first_does (opens listener ∷ []) (
        deferring (closes listener) (
          first_does (if cfg.max_conns == 0 then [] else limits cfg.max_conns ∷ [])
            (run_pprof cfg env cfg.pprof_addr)))
    else ([], some listen_error)
