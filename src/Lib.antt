-- ===== src/Lib.antt =====
-- The gameserver daemon: a node agent that takes jobs from a queue, runs game servers as containers
-- on a backend, reports their state and traffic to the platform, and serves their files.
--
-- How the parts interact. main reads the configuration, takes a runtime (the configured Kubernetes
-- cluster, else the one around the daemon, else Docker if its engine answers) and a queue, opens
-- the database, adopts the workloads that are running and registers with the platform. The platform
-- enqueues jobs. The dispatcher takes them from the queue and runs the handler registered for a
-- job's type, in a goroutine of its own, at most four at a time. The handlers act on a runtime
-- backend and on a repository of server records through the interfaces of
-- internal/application/ports, and report to the platform. The metrics scraper polls the same
-- backend. The file API serves the workloads' directories on its own port. kleffctl is a command
-- beside the daemon that moves containers without a project into one.
--
-- Which file models which part:
--   Errors        the sentinel errors, `fmt.Errorf` and `errors.Is`
--   Labels        pkg/labels/labels.go
--   Jobs          internal/workers/jobs/job.go
--   Ports         the data and the interfaces of internal/application/ports
--   Config        internal/app/config/config.go
--   Queue         internal/adapters/out/queue
--   Repository    internal/adapters/out/repository; Sqlite also internal/adapters/out/db/sqlite.go
--   Dispatcher    internal/workers/dispatcher.go, as a step relation; Runs has its runs between two
--                 arrivals
--   Workers       the job handlers of internal/workers, and the probe of readiness.go
--   Daemon        cmd/kleffd/main.go: the registrations, Start with the steps up to the loops
--   FileApi       internal/adapters/in/fileapi/server.go: Scope has the paths, Handlers the plain
--                 operations, Archive and Export the zip archives, Upload the forms with files,
--                 Server the middleware and the routes
--   Metrics       internal/metrics/scraper.go
--   Platform      internal/adapters/out/platform/client.go
--   Logs          internal/logs/tailer.go: Tailer the set of tails, Streams one tail with its
--                 goroutines as a step relation, Batches its loop
--   Docker        internal/adapters/out/runtime/docker/docker.go: Engine has the engine's interface,
--                 Setup the adapter's making, Networks, Containers and Files the helpers, Operations
--                 the methods, Stats the measurements
--   Kubernetes    internal/adapters/out/runtime/kubernetes/kubernetes.go: Cluster has the clients'
--                 interface, Setup the adapter's making, Objects the resources, Operations the methods
--   Migration     cmd/kleffctl/main.go: the moving of one container, Command the command
--   Common        Go's maps, `strings` and `path/filepath`, decimal numerals, numbers and lists
--   Tests         concrete runs
--
-- How code and model correspond. A function keeps its name in the model's spelling. Methods take
-- the state of their receiver and give it back with their answer; a mutex makes an operation one
-- step; so is one round of the log tailer's reconcile, whose mutex is taken piecewise around the
-- map's updates. `error` is an `Option GoError` and `(value, error)` a `Result`. A Go map is an
-- association list, used by its laws. The int fields that count up from zero are native numbers.
-- Conversions and sums on words of 32 and 64 bits wrap around where the source's do. Traffic
-- counters count bytes where the source divides by 2^20 into a float64. Every call of the file
-- system goes through `look` or `change` of FileApi.Disk, which record the path that they hand to
-- it. What lies outside the repository is a parameter: the container engine, the Kubernetes
-- clients, Redis, the SQL database, the file system, viper and pflag, JSON decoding, the clock and
-- random ids. Where a function continues after a call, its rest is a helper by clauses on the
-- call's answer.
--
-- Fuel. The loops run over lists; the dispatcher's endless loop and the goroutines of a tail are
-- relations between states. Three definitions count down: the digits of a number n are written with
-- n + 1 steps, one more than it has digits at most; the run that empties the dispatcher's queue is
-- followed for `steps_left` steps, the measure of its jobs' open attempts; and the readiness probe is
-- given two rounds more than its time-out has pauses of five seconds.
--
-- Not modelled: logging, which changes no state, signal handling, the goroutines and servers that main
-- starts once it has come to its loops, closing of clients, the cutting of a log's bytes into lines,
-- the float64 arithmetic of the CPU measurement, the quantities' printing for Kubernetes, the parsing
-- of kleffctl's flags, and cmd/testprovision, a program for trying the adapters by hand.
pub mod Common
pub mod Errors
pub mod Labels
pub mod Jobs
pub mod Ports
pub mod Queue
pub mod Repository
pub mod Dispatcher
pub mod Workers
pub mod Config
pub mod Daemon
pub mod FileApi
pub mod Metrics
pub mod Platform
pub mod Logs
pub mod Docker
pub mod Kubernetes
pub mod Migration
pub mod Tests
