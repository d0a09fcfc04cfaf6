-- ===== src/Servers/Run/Shutdown.antt =====
-- What `Run` has started it stops by deferred calls, in one order, and last.
use cdnnow_test_golang.Shared.{
  ℕ, ◌≡◌, refl, sym, ap, subst, ◌∙◌, Bool, true, false, Option, none, some, List, [], ◌∷◌, ◌++◌,
  ◌==◌, if◌then◌else◌, append-nil,
}
use cdnnow_test_golang.Servers.Run.{
  Config, ServeEnd, cancelled, serve_failed, Env, Resource, listener, pprof, aggregator, calculator,
  printer, Parts, Act, opens, closes, limits, makes, parts_of, Ran, deferring, first_does, type_std,
  type_fast, pprof_error, listen_error, run_calculator, run_http_server, run_server, run_parts,
  run_pprof, run,
}
use cdnnow_test_golang.Servers.Run.Ends.{
  closed, opened, keep, shutdown_order, closing, Ends, Ends-first, Ends-deferring, Ends-none,
}

http-Ends : (t : ℕ) (a : Bool) (e : ServeEnd) → Ends [] [] (run_http_server t a e).0
unfolding run_http_server
http-Ends t a (cancelled true) = Ends-none _ refl refl
http-Ends t a (cancelled false) = Ends-none _ refl refl
http-Ends t a serve_failed = Ends-none _ refl refl

either_way :
    {os cs : List Resource} (b : Bool) (p q : Ran)
    → Ends os cs p.0
    → Ends os cs q.0
    → Ends os cs (if b then p else q).0
either_way true p q x y = x
either_way false p q x y = y

server-Ends : (cfg : Config) (env : Env) (a : Bool) → Ends [] [] (run_server cfg env a).0
unfolding run_server
server-Ends cfg env a = either_way (cfg.server_type == type_std) _ _ (http-Ends _ a env.serve_end) (
    either_way (cfg.server_type == type_fast) _ _ (http-Ends _ a env.serve_end)
      (Ends-none [] refl refl))

-- What the mode makes of the rest of the run.
data Plan : Type 0 where
  unplanned synchronous queued : Plan

abbrev starts_of : Plan → List Resource
starts_of unplanned = []
starts_of synchronous = aggregator ∷ printer ∷ []
starts_of queued = aggregator ∷ calculator ∷ printer ∷ []

abbrev stops_of : Plan → List Resource
stops_of unplanned = []
stops_of synchronous = printer ∷ aggregator ∷ []
stops_of queued = calculator ∷ printer ∷ aggregator ∷ []

parts-Ends :
    (cfg : Config) (env : Env) (o : Option Parts)
    → (k : Plan) × Ends (starts_of k) (stops_of k) (run_parts cfg env o).0
unfolding run_parts run_calculator
parts-Ends cfg env none = (unplanned, Ends-none [] refl refl)
parts-Ends cfg env (some parts) = by_queue parts.queue
  where
    by_queue :
        (q : Option ℕ)
        → (k : Plan) × Ends (starts_of k) (stops_of k) (
            makes parts
            ∷ opens aggregator
            ∷ ((run_calculator cfg env parts.async_calc q).0 ++ closes aggregator ∷ []))
    by_queue none = (
      synchronous,
      Ends-first (makes parts ∷ opens aggregator ∷ []) refl (
          Ends-deferring aggregator (
            Ends-first (opens printer ∷ []) refl
              (Ends-deferring printer (server-Ends cfg env parts.async_calc)))),
    )
    by_queue (some n) = (
      queued,
      Ends-first (makes parts ∷ opens aggregator ∷ []) refl (
          Ends-deferring aggregator (
            Ends-first (opens calculator ∷ opens printer ∷ []) refl (
              Ends-deferring printer
                (Ends-deferring calculator (server-Ends cfg env parts.async_calc))))),
    )

-- The plan, and whether pprof runs.
abbrev all_starts : Plan → Bool → List Resource
all_starts k with_pprof = (if with_pprof then pprof ∷ [] else []) ++ starts_of k

abbrev all_stops : Plan → Bool → List Resource
all_stops k with_pprof = stops_of k ++ (if with_pprof then pprof ∷ [] else [])

PprofEnds : Ran → Type 0
PprofEnds ran = (k : Plan) × (b : Bool) × Ends (all_starts k b) (all_stops k b) ran.0

pprof-Ends : (cfg : Config) (env : Env) (addr : List ℕ) → PprofEnds (run_pprof cfg env addr)
unfolding run_pprof PprofEnds
pprof-Ends cfg env [] =
    let (k, e) = parts-Ends cfg env (parts_of cfg) in
    (
      k,
      false,
      subst (λ cs. Ends (starts_of k) cs (run_parts cfg env (parts_of cfg)).0)
          (sym (append-nil (stops_of k))) e,
    )
pprof-Ends cfg env (c ∷ cs) = by_answer env.pprof_ok
  where
    by_answer :
        (b : Bool)
        → PprofEnds (
            if b
            then first_does
                (opens pprof ∷ [])
                (deferring (closes pprof) (run_parts cfg env (parts_of cfg)))
            else ([], some pprof_error))
    by_answer false = (unplanned, false, Ends-none [] refl refl)
    by_answer true =
        let (k, e) = parts-Ends cfg env (parts_of cfg) in
        (k, true, Ends-first (opens pprof ∷ []) refl (Ends-deferring pprof e))

kept_in_order :
    (k : Plan) (b : Bool)
    → all_stops k b ++ listener ∷ [] ≡ keep (listener ∷ all_starts k b) shutdown_order
kept_in_order unplanned true = refl
kept_in_order unplanned false = refl
kept_in_order synchronous true = refl
kept_in_order synchronous false = refl
kept_in_order queued true = refl
kept_in_order queued false = refl

limit-Ends :
    {os cs : List Resource} {acts : List Act} (b : Bool) (n : ℕ)
    → Ends os cs acts
    → Ends os cs ((if b then [] else limits n ∷ []) ++ acts)
limit-Ends true n e = e
limit-Ends false n e = Ends-first (limits n ∷ []) refl e

Ends-kept :
    {os cs : List Resource} {acts : List Act}
    → Ends os cs acts
    → cs ≡ keep os shutdown_order
    → (before : List Act) × (acts ≡ before ++ closing (keep (opened acts) shutdown_order))
      × (closed before ≡ [])
Ends-kept e k = (
  e.before,
  e.stops ∙ ap (λ z. e.before ++ closing z) (k ∙ ap (λ z. keep z shutdown_order) (sym e.starts)),
  e.quiet,
)

-- Whatever the configuration and the environment, the calls that `Run` defers are those for exactly
-- what it started, each once, in the order calculator, printer, aggregator, pprof, listener, and come
-- last. (Where the server was shut down, the listener is closed by then.)
pub shutdown_in_order :
    (cfg : Config) (env : Env)
    → (before : List Act) × ((run cfg env).0
        ≡ before ++ closing (keep (opened (run cfg env).0) shutdown_order))
      × (closed before ≡ [])
unfolding run PprofEnds
shutdown_in_order cfg env = by_listen env.listen_ok
  where
    listening : Ran
    listening = first_does (opens listener ∷ []) (
        deferring (closes listener) (
          first_does (if cfg.max_conns == 0 then [] else limits cfg.max_conns ∷ [])
            (run_pprof cfg env cfg.pprof_addr)))

    by_listen :
        (b : Bool)
        → (before : List Act) × ((if b then listening else ([], some listen_error)).0
            ≡ before
              ++ closing (
                  keep
                    (opened (if b then listening else ([], some listen_error)).0)
                    shutdown_order))
          × (closed before ≡ [])
    by_listen false = ([], refl, refl)
    by_listen true =
        let (k, b, e) = pprof-Ends cfg env cfg.pprof_addr in
        Ends-kept
          (Ends-first (opens listener ∷ []) refl
            (Ends-deferring listener (limit-Ends (cfg.max_conns == 0) cfg.max_conns e)))
          (kept_in_order k b)
