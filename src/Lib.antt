-- ===== src/Lib.antt =====
-- Akiro, a judge for programming contests: a submission comes in as a job, is compiled, run against
-- its test cases in a sandbox, and judged.
--
-- The parts and where they are modelled:
--
-- * src/orchestrator/job.rs, the submissions and results: Orchestrator.Job; `JobRequest::validate`
--   is `validate`, its messages are `message`.
-- * src/orchestrator/pipeline.rs, a job from its source to its verdict: Orchestrator.Pipeline.
--   `execute` and `run_tests` keep their names. The sandbox runs are values of an environment
--   (`Env`): `run_sandbox` for the compiler, and `complete` for the stream of the test runs, in any
--   order. The progress events, the counters and the result are returned together (`Outcome`).
--   `chown_tree` is Pipeline.Workspace, on a tree of entries.
-- * src/languages/, the languages: Languages.Language has the names and the whitelist,
--   Languages.Runner the trait, and one module for each file its runners; `get_runner` chooses.
-- * src/sandbox/config.rs and result.rs: Sandbox.Config and Sandbox.Result, builder by builder.
-- * src/sandbox/admission.rs, the memory budget: Sandbox.Admission. An environment variable is an
--   optional text, and the cached totals are arguments. Admission.Gate is a step relation of the
--   runs before the budget; tokio's semaphore is a parameter with its laws.
-- * src/sandbox/supervisor.rs, a child watched to its end: Sandbox.Supervisor. The rounds of the
--   polling loop are a list of what each of them sees; the answers of `read` are one too.
-- * src/sandbox/reaper.rs, the exits of children: Sandbox.Reaper, a store with the registry of pids
--   and the slots that handles share with it.
-- * src/sandbox/mod.rs, one sandboxed run: Sandbox.Execute. What the kernel answers is a `Host`, and
--   what the parent does to the child is a list of effects; fork has its 10 retries. The
--   descriptors of the pipes, opened and closed, are Sandbox.Execute.Pipes, and the bytes
--   fed to the child are Execute.Stdin.
-- * src/sandbox/child.rs, fs.rs and seccomp.rs, the child between fork and exec: Sandbox.Child,
--   Sandbox.Fs and Sandbox.Seccomp, on the calls of Sandbox.Kernel. A function that makes system
--   calls is a computation (`Sys`) that adds each call with its success to a log and goes on, fails,
--   exits, panics or is replaced by a new image. Which calls succeed is a parameter, `Kernel`.
-- * src/sandbox/cgroups.rs, the control groups: Sandbox.Cgroup, on the same calls, has the limits and
--   the attaching of a child, Cgroup.Stats reads the counters from the text of the files, and
--   Cgroup.Removal has `new`, `kill_all` and `cleanup`.
-- * src/orchestrator/pool.rs, the worker pool: Orchestrator.Pool, a step relation with one step for
--   each atomic operation of `submit` and of a worker.
-- * src/api/mod.rs, the secret of the API: Api.Auth. Headers are bytes, `HeaderValue::to_str` is a
--   parameter that yields texts, and the exclusive or of bytes is computed bit by bit, 8 of them.
--   The routes with their layers, the shared state and CORS are Api.Router; how a path is matched
--   with a route is a parameter.
-- * src/queue/redis.rs, the consumer of the job stream: Queue. Queue.Redis has the commands and the
--   store, a parameter with the effect of each command as its laws. A pipe is a list of commands; an
--   attempt at it is answered, is cut after some of them, or has some of them refused, and the
--   twelve attempts are a function.
--   Queue.Reclaim reads the replies and has the sweep over the entries that XAUTOCLAIM returns.
--   Queue.Consumer has the name of a consumer and its heartbeat, and Queue.Rounds the batches and
--   the cursor of the sweep. How the loop, the sweeper and the jobs interleave is not modelled.
-- * src/api/result_bus.rs, the gateway's side: Api.ResultBus, on the same store. A wait is a list of
--   rounds, each with the time, how it woke and what GET found; the registry counts receivers.
--   `run_listener` is ResultBus.Listener, over its connections and what is heard on them.
-- * src/api/handlers.rs, the handlers: Api.Handlers. `submit` and `submit_async` return the response
--   with the actions taken (a job queued, waited for, or run by the local pool), and `get_result`
--   answers from the two reads. What a body says is a constructor; its JSON is left out. The figures
--   of the cluster, health and the metrics endpoint are Api.Cluster.
-- * src/api/websocket.rs, the sockets: Api.Socket. What the client sends is a list of messages,
--   and a session is the frames handed to it with the job handed to the pool, if any.
-- * src/metrics.rs, the counters: Metrics, a record that `record_job` updates; Metrics.Prometheus
--   prints it, and Metrics.Lines and Metrics.Scraped read the text back.
-- * src/main.rs, the start: Startup. `main` is its decisions on a record of the environment, and what
--   each of the three modes runs.
--
-- The pool hands each job to the pipeline. The pipeline asks Languages for a runner, builds the
-- configuration of each run with it, hands the runs to the sandbox, and reports the job to Metrics.
-- The sandbox acquires its units from Admission before it starts a child; the reaper collects the
-- child's exit, for which the supervisor polls until it ends the child.
--
-- Machine integers are natural numbers with their wrap-around or saturation written out
-- (Prelude.Word); a release build wraps. Texts are lists of code points, bytes lists of numbers.
-- `str::to_lowercase` is a parameter that is known on ASCII text only. `decimal` writes a number with
-- at most 20 digits, which every u64 has. Lists run out where the program waits; the only
-- counter is that of the twelve attempts at a report, which counts as the source does. The macros of
-- libc that decode a wait status are a parameter.
--
-- Not modelled: in src/api/result_bus.rs `spawn`, which connects and starts the listener; the
-- semaphores, channels and tasks, which are tokio's; the expiry of keys, which is Redis's; the
-- arguments of the command line, the listening socket, the signals, the trace layer and the logging;
-- JSON, in both directions; the table of allowed calls in src/sandbox/seccomp.rs, which no code uses.
pub mod Api
pub mod Languages
pub mod Metrics
pub mod Orchestrator
pub mod Prelude
pub mod Queue
pub mod Sandbox
pub mod Startup
