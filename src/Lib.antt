-- ===== src/Lib.antt =====
-- A model of the calculation server (cmd/server) and of the load generator (cmd/generator).
--
-- The server answers `POST /calc?num=X` by adding X to one running total with a function of a C
-- library, and subtracting it from another with a function of a Rust library. `calculators` does
-- that in one of three ways: `Sync` in the caller, `Async` in a goroutine behind a bounded queue,
-- `Parallel` in two goroutines. The goroutines hand the measured durations in batches, taken from a
-- `pools.BatchPool`, to the metrics aggregator, which keeps per-second counts in ring buffers,
-- `queue.Deque`.
--
-- Deque (internal/queue/queue.go). The record has the fields of the source, and each method is a
-- function: `Front` is front_elem, `Back` back_elem, `At` at, `Set` set_at, `PushBack` push_back,
-- `PushFront` push_front, `PopFront` pop_front, `PopBack` pop_back, `ToSlice` to_slice, `Reset`
-- reset, `Grow` reserve, `grow` grow, `NewDequeFrom` new_deque_from. `none` is a panic, also of an
-- index out of range. Deque/Spec is the list that a deque stands for; Deque/Segment and Deque/Ends
-- are about reading round a ring, Deque/Valid has the invariant, Deque/Grow, Deque/Ops and
-- Deque/Access prove the operations, Deque/Client and Deque/Refine put them together.
--
-- Operators (internal/operators, c_lib, rust_lib). The dynamic loader is a parameter (`Loader`). An
-- int64 is its bit pattern, and overflow wraps.
--
-- Pools (internal/pools/batch_pool.go). `sync.Pool` is a list of items, from which the environment
-- chooses what `Get` answers.
--
-- Calculators (internal/calculators/calculators.go). Calculators/Recorder is `metricRecorder`: its
-- timer is a flag that says whether it will fire, and the calls of `recordFn` are a list.
-- Calculators/Server is the goroutine that `Async` and `asyncSingle` have in common, with its
-- channel: `Calculate` is calculate, `Stop` is close_nums and then the wait for `done`, and a round
-- of the loop in `serve` is serve, on an event. `Step` has one constructor for each thing that can
-- happen, so that `Runs` covers every interleaving of clients, timer and goroutine, in either order
-- of what is ready. Calculators/Server/Drain has the rounds of the goroutine alone, after `Stop`.
-- Calculators/Async instantiates it; Calculators/Parallel runs two of them, with the calls that are
-- between their two halves. What the clock answers is part of the event.
--
-- Calculators/Sync is `Sync`: its mutex holds what its owner has to do, so that `SyncRuns` covers
-- every interleaving of the callers. `Calculate` is acquire and then three times advance, `Values`
-- acquire and twice advance, and `record` record_next.
--
-- Metrics (internal/metrics). Metrics/Aggregator has the state and the handlers of `Aggregator`,
-- under the source's names; Metrics/Aggregator/Loop is the `select` of `serve`, on an event, and
-- `getSnapshot`, which is one action: its mutexes and the rendezvous of `snapCh` are not modelled,
-- and the case of that channel in `serve` is serve_snapshot. Metrics/Aggregator/Client has the
-- calls and every sequence of them (`Runs`). The histogram library is a parameter (`Histograms`).
-- An array over the kinds is a function of the kind. Metrics/Overflow is `histOverflow`.
-- Metrics/Report is `Printer` and `printReport`, whose text is a list of lines.
--
-- Api (internal/api). The service is an interface over a state (`Service`). Api/Std is the handlers
-- and routes over `net/http`, Api/Fast those over fasthttp; Api/Numbers is `strconv.ParseInt`. What
-- the URL parsers answer is a parameter of request_at, which makes the request of a handler. Paths
-- that are not clean, and the headers that the libraries set, are left out.
--
-- Generator/Dedup (internal/generator/loggers/dedup.go). The goroutine of the logger, with its map
-- as an association list and its queue; what it prints is a list.
--
-- Generator (the rest of internal/generator, and cmd/generator). Generator/Stat is `Stat`, and
-- Generator/Worker the loop of `Worker.Run`, on the events of its two `select`s and the replies.
-- Generator/Runner is `startWorkers`, on what each worker meets, `waitWorkers` and `PrintReport`.
-- Generator/Client is `NewCalc`, `DoRequest` and `HTTPError`, Generator/Target `PrepareTarget`,
-- Generator/Config `ParseConfig`, Generator/Command `ProbeTarget` and `main`. The histogram
-- library, the URL parser with the resolver, the floating-point numbers and the trimming of texts
-- are parameters (`HistLibrary`, `UrlLibrary`, `Floats`).
--
-- Servers (internal/servers, cmd/server). Servers/Service is `service`, which puts a calculator,
-- the aggregator and its printer behind the interface of Api. Servers/Handlers is the handlers of
-- calculation requests over it, with `Async`, as a step relation in which the call of the
-- calculator, `CountRequests` and the answer of a handler are separate steps, between which
-- everything else can happen. Servers/Printer is the goroutine of printer.go, and its child Printed
-- joins it with the calculator's goroutine and the clients, in any interleaving. Servers/Run is
-- `Run`, as the list of what it starts and stops, Servers/Main the checks of cmd/server,
-- Servers/Enums the generated code that reads the settings.
--
-- There is no fuel in the model of the program, but for `bits.Len64`, which has 64 bits to look at,
-- and for the decimal digits of a number, for which the number is enough: all other recursion is
-- structural, and the loops of the goroutines are sequences of steps. Sizes, capacities and
-- positions are natural numbers, at most the length of a slice in memory; where an argument of the
-- caller is added to one (`Grow`), the sum wraps as Go's `int` does.
--
-- Not modelled: the enums that are only logged, cmd/hdr-test and cmd/healthcheck, the formatting of
-- text, flag parsing, pprof, signals and sockets: most of them only start other code or move bytes.
pub mod Shared
pub mod Deque
pub mod Metrics
pub mod Operators
pub mod Pools
pub mod Calculators
pub mod Generator
pub mod Servers
pub mod Api
