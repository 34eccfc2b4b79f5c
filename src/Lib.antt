-- ===== src/Lib.antt =====
-- A verification library for RunPilot: the host's schedules, commands, backups, job runner,
-- plugin processes and browser sessions, the frames of its gateway, and two of its plugins.
--
-- How the program hangs together. The core (internal/core) runs plugins that are WebAssembly modules. A
-- plugin does its work by capability calls of the host (`pluginapi.CallHost`), and the host hands it
-- requests of the browser and events, one at a time. The tasks plugin (plugins/tasks/backend) keeps the
-- user's tasks: it stores the definitions, starts processes, settles their exits, restarts them after a
-- backoff, and asks the host's scheduler (internal/scheduler) to be called back. The scheduler compiles
-- a schedule to a function from the time now to the time of the next run, and sleeps until then.
--
-- Prelude and its children hold what all files share: tests on native numbers, lists with their length,
-- integers as a sign and a number, byte strings, options, and Go maps as association lists.
-- Text is the part of Go's `strings` and `strconv` that the program calls, on byte strings: trimming,
-- fields, splitting, case, and decimal numbers at a width. Letters above ASCII stay as they are when the
-- case is changed, and the spaces of Unicode are those that `strings.TrimSpace` drops in UTF-8.
--
-- Schedule models internal/scheduler/scheduler.go: `parseTimeOfDay` and the daily schedule (Daily),
-- `parseCronField`, `parseCron`, `match` and `next` of a cron expression (Cron), `Expression`, `compile`
-- and the delay that `loop` computes (Compile), and the registrations of the plugins and the loops of
-- the jobs (Registry), where a goroutine that waits is the schedule that it waits by. The calendar is a
-- parameter (Calendar): the fields of a time in a location, and the steps by days and by years, of Go's
-- `time` package. A time is its nanoseconds since the epoch, and seconds are what a cron expression
-- looks at. Numbers of the host have 64 bits, and a sum of them wraps around.
--
-- Command models the commands of the host: `ValidateEnvironment` of internal/model/command.go in Command,
-- and internal/launcher/launcher.go in Command/Launcher, as the executable, the arguments, the directory
-- and the environment of the process that would be started. The system is a parameter (Host).
--
-- Jobs models the job runner, internal/jobs/runner.go, with the job and backup types of
-- internal/model/model.go and `NormalizeJob` of internal/model/defaults.go: the definitions are in Jobs,
-- and `Run`, `execute`, `runStep`, `planFor`, `finish` and `Views` in Jobs/Runner. What the process of a
-- step does is given (its exit code, by which `Wait` has an error or none), and `backup.BuildPlan` is an
-- argument. Jobs/Runner/System has the runner together with the executions that it left in the
-- background, as a state that runs and ends of executions change in any order.
--
-- Backup models internal/backup: `ProviderFor` and `canonical` of backup.go in Backup, the providers in
-- Backup/Robocopy, Restic and RdiffBackup, and `Validate`, `BuildPlan` and `Build` in Backup/Build.
-- Backup/Older says what a specification in the older form asks of each provider. Backup/Execute puts the
-- plans under the job runner. A plan of a missing specification, where the code would panic, is none.
--
-- Processes models the process capability of the host, internal/core/plugin_processes.go: the request and
-- `validatePluginProcessStart` in Processes, `pluginProcessManager` in Processes/Manager, where each call
-- is one step (a start is one, with its mark of the captured execution), and `outputNotifier` in
-- Processes/Notifier; and `pluginProcessRun` of internal/core/plugin_process_run.go with its captures of
-- output in Processes/Run. A process is its record in the map, as nothing else has a pointer to it that lives
-- longer; that identifiers are new is a condition of a start.
--
-- Auth models the browser sessions of internal/web: their file (auth_sessions.go) in Auth, issuing, finding
-- and clearing them (auth.go, and `revokeAllSessions` of server.go) in Auth/Sessions, and the limit on
-- failed logins in Auth/Failures. The hash of a cookie is an argument, and a save either replaces the file
-- or fails. Tickets of the other parts of the server are maps to the session that owns them.
--
-- Gateway models two parts of internal/httpgateway: the frames of protocol.go, with a writer that may take
-- a frame in pieces, and the bounded jar of cookies.go in Gateway/Cookies. A cookie has the length of its
-- `String()`, and the jar of the standard library is left out.
--
-- Terminal models plugins/terminal/backend/plugin.go, a plugin like the tasks plugin: its settings, the
-- sessions that it knows, and what it asks the host for. Its host is a record of functions as well.
--
-- Tasks models plugins/tasks/backend. The data (model.go) is in Tasks, with `normalizeTask` and
-- `cloneTask` in Normalize, `validateTask` and `validateEnvironment` in Validate, and `restartDelay` in
-- Backoff. The state (plugin.go) is in Plugin, starting in Launch, exits and restarts in Exit, and
-- `reconcile`, `terminate`, `stopTask`, `startTask` and `runNow` in Control. The requests of the browser
-- (rpc.go) are in Rpc (`create` and what it calls) and in Dispatch (`update`, `control`, `handle`),
-- `load`, `init`, `restore` and `shutdown` are in Lifecycle, and the events of the host in Events. The
-- plugin is WebAssembly with 32 bits: `restartDelay` and the numbers of identifiers wrap at 32.
--
-- The host is a parameter (Host): a record of functions, each of which answers a call by the list of all
-- calls up to it. So an answer may depend on all that was said before, and every answer may be an error.
-- The state has the list of calls, newest first, by which theorems speak of what was asked for. Calls
-- whose answer the code throws away are in the list as well. Shared pointers (`*taskRuntime`) are keys
-- into the map of runtimes: the code never keeps one over the deletion of its entry.
--
-- Loops are recursions on the list that they go over. The loop of `next` over the seconds up to its
-- limit, and that of `parseCronField` over the values of a step, take fuel: `next` takes as many steps
-- as there are seconds to the limit, and `values` takes 64 rounds, where a range has at most 60 numbers.
-- Go's order of iteration over a map is the order of the list, which may be any.
--
-- Not modelled: the decoding of JSON, whose outcome is given (a request that does not decode is
-- `malformed`, and stored state that does not decode is `unreadable`, with the message as a parameter);
-- that a decoded event is left out when it does not decode; time zones and their loading; the waiting
-- of goroutines, channels and timers; log files; and the other parts of the repository.
pub mod Prelude
pub mod Text
pub mod Command
pub mod Schedule
pub mod Jobs
pub mod Backup
pub mod Tasks
pub mod Terminal
pub mod Processes
pub mod Gateway
pub mod Auth
