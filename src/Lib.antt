-- ===== src/Lib.antt =====
-- The log generator: a Go program that sends system logs over UDP at a rate of up to four million
-- events a second, and a server that starts, watches and stops it.
--
-- A pool (internal/worker/worker_pool.go) has up to 200 workers, each with its own connection, its
-- own generator of logs (internal/generator/syslog_generator.go) and one of several send loops
-- (internal/worker/udp_worker.go, udp_worker_ultra.go). A profile (internal/config/profiles.go) says
-- how many workers share which rate. The pool's aggregator adds up what the workers report; the
-- collector (pkg/metrics/collector.go) keeps a history of it and raises alerts. The control server
-- (internal/monitor/control_server.go) makes a pool, an optimizer of the Go runtime
-- (internal/config/optimization.go) and starts the collector for each start of the generator, and
-- drops the first two at each stop. The command line application (cmd/main.go) owns a pool, a
-- collector, an optimizer and a dashboard (internal/monitor/dashboard.go), starts them, and stops them
-- at a signal; the web application (cmd/web_main.go) serves the control server until a signal. The
-- dashboard and the control server send the collector's metrics to web sockets.
--
-- Prelude holds lists over native numbers, Go's signed integers with the wrap-around of 64 bits,
-- results, and rings; Float an interface for float64 with the laws of IEEE 754 that theorems rely
-- on, which Float/Fixed meets with millionths; a theorem that needs the laws takes them as an
-- argument. Then, by module:
--   Config.Profiles: the profiles and GetProfile; in Config.Profiles.Custom GetProfileForEPS
--     (get_profile_for_eps), CalculateCustomProfile (calculate_custom_profile), calculateWorkerCount.
--   Config.Optimizer: MemoryOptimizer, with Initialize, Start and Stop. Config.Hints:
--     AnalyzePerformance.
--   Generator: the tables, GenerateSystemLog and GenerateSystemLogUnsafe. Generator.Clock: the cache
--     of the time stamp. Generator.Codes and Generator.Parse: the bytes of a text, and how a receiver
--     cuts a log and a packet into its fields, which is no code of the repository.
--   Worker.State: UDPWorker, its set-up and SetTargetEPS. Worker.Batch: sendBatch and its kin.
--   Worker.Eps: updateEPSMetrics, collectMetrics and GetAverageEPS. Worker.Pid: runPIDControl.
--   Worker.Loops: the loops of sendLoop, one definition for a pass of each; Worker.Loops.Passes: a
--     pass of any of them, as the rest of the program sees it. Worker.Lifecycle: Start and Stop.
--   Pool.State, Pool.Initialize, Pool.Running, Pool.Aggregate: WorkerPool, its construction,
--     Initialize, Start and Stop, and metricsAggregator. Pool.Modes: the loops that a profile's
--     workers enter. Pool.Working: a pass of a worker in its pool. Pool.Tuning: autoTuner.
--   Metrics, Metrics.Scores, Metrics.Collect, Metrics.Lifecycle, Metrics.Summary: MetricsCollector.
--   Monitor.Control, Monitor.Handlers, Monitor.Requests: ControlServer and its handlers.
--   Monitor.Update: metricsUpdateLoop. Monitor.Machine: the control server to its clients.
--   Monitor.Status: the handlers that only read. Monitor.Launch: the goroutines of metricsUpdateLoop
--     beside the handlers, step by step.
--   Monitor.Hub: the web sockets of the control server and the dashboard, with a view that knows one
--     client only. Monitor.Dashboard: DashboardServer.
--   App: AppConfig, LogGenerator, parseFlags and NewLogGenerator. App.Running: Start, updateMetrics and
--     Stop. App.Main: main. App.Report: the values of printQuickStats and printFinalReport.
--   Web: main of cmd/web_main.go.
--   Witnesses: the theorems at concrete inputs.
--
-- State is passed explicitly: an operation takes a record and returns the next one, with what it
-- returns or how it ends; a panic and an endless wait are such ends. The clock, the network, the
-- logs and the random draws are arguments. A goroutine's loop is a function of the list of its
-- passes, each with what the world answers; how loops interleave is the order of such steps. A
-- handler of the control server holds its mutex, and is one step. Loops over slices are structural
-- recursion, and a loop from 0 to n recurses on n. The only fuel is that of itoa in Generator, which
-- counts digits: the process ids are below 11,000 and it is five. A stored report and the map that it
-- refers to are kept apart in a pool, since the aggregator goes on writing to the map.
--
-- A connection of a web socket is a number and a message any value; a hub keeps what each connection
-- got, as a record of the writes.
--
-- Not modelled: HTTP, JSON, the web pages and what a browser does with them, the text that is printed,
-- the parsing of the command line by the package flag, the garbage collector, the buffer pools, the
-- sleeps between the passes of a loop, and the statistics of the optimizer.
pub mod Prelude
pub mod Float
pub mod Config
pub mod Worker
pub mod Pool
pub mod Metrics
pub mod Monitor
pub mod Generator
pub mod Witnesses
pub mod App
pub mod Web
