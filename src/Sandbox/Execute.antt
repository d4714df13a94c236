-- ===== src/Sandbox/Execute.antt =====
-- src/sandbox/mod.rs: one sandboxed run, from its admission to its result. What the kernel and the
-- other parts answer is a parameter (`Host`), and what the parent does to the child is a list of
-- effects. The waits of stdin's writer change no result.
pub mod Fork
pub mod Outcome
pub mod Output
pub mod Safety
pub mod Pipes
pub mod Stdin
pub mod Examples
use akiro.Prelude.{
  ℕ, ◌+◌, ◌*◌, Bool, true, false, not, ◌&&◌, Option, none, some, List, [], ◌∷◌, ◌++◌, leb,
  if◌then◌else◌, length,
}
use akiro.Prelude.Result.{Result, ok, err}
use akiro.Prelude.Text.{Text}
use akiro.Sandbox.Config.{SandboxConfig}
use akiro.Sandbox.Fs.{root_path}
use akiro.Sandbox.Result.{SandboxStatus, ExecutionResult}
use akiro.Sandbox.Admission.{units_for}
use akiro.Sandbox.Supervisor.Pipe.{ReadAnswer, read_pipe_output}

pub data SandboxError : Type 0 where
  cgroup_error io_error fork_error supervisor_error child_error : Text → SandboxError

pub data ForkAnswer : Type 0 where
  forked : ℕ → ForkAnswer
  try_again : ForkAnswer
  refused : Text → ForkAnswer

-- What `CgroupManager::new` answers in its blocking task.
pub data CgroupAnswer : Type 0 where
  made panicked : CgroupAnswer
  not_made : Text → CgroupAnswer

pub record Host : Type 0 where
  pub total_units : ℕ
  pub uuid : Text
  pub pipes : Result Text (Unit {0})
  pub cgroup : CgroupAnswer
  -- The answer to the first `fork` and those to the retries.
  pub fork : ForkAnswer
  pub fork_again : List ForkAnswer
  pub attach : ℕ → Result Text (Unit {0})
  pub supervise : SandboxConfig → ℕ → Result Text ExecutionResult
  -- What the reads of a pipe answer, if the drain ends in time and without an error of its task.
  pub stdout_reads : Option (List ReadAnswer)
  pub stderr_reads : Option (List ReadAnswer)

pub data Effect : Type 0 where
  acquired released : ℕ → Effect
  slept : ℕ → Effect
  child_started registered unregistered attached killed supervised : ℕ → Effect
  directory_removed : Text → Effect

pub record Execution : Type 0 where
  pub effects : List Effect
  pub result : Result SandboxError ExecutionResult

-- `while let Err(EAGAIN) = fork_res`; `retries` is the counter, and at 10 the loop breaks. The
-- answers run out only if there are fewer than the loop asks for.
unfoldable pub fork_loop : ℕ → ForkAnswer → List ForkAnswer → List Effect × ForkAnswer
fork_loop retries (forked pid) more = ([], forked pid)
fork_loop retries (refused e) more = ([], refused e)
fork_loop retries try_again [] = ([], try_again)
fork_loop retries try_again (answer ∷ more) =
    let rest = fork_loop (retries + 1) answer more in
    if leb 10 retries then ([], try_again) else (slept (20 * (retries + 1)) ∷ rest.0, rest.1)

abbrev is_empty_id : Text → Bool
is_empty_id [] = true
is_empty_id (c ∷ cs) = false

unfoldable pub with_jail : Text → SandboxConfig → SandboxConfig
with_jail uuid config =
    if config.enable_fs_isolation && is_empty_id config.jail_id
    then record config { jail_id = uuid }
    else config

-- `unwrap_or_default` of the drained output.
abbrev pub drained : ℕ → Option (List ReadAnswer) → List ℕ
drained max_bytes none = []
drained max_bytes (some answers) = read_pipe_output max_bytes answers

-- The result with its output.
unfoldable pub with_output : Host → SandboxConfig → ExecutionResult → ExecutionResult
with_output host config res =
    let out = drained config.max_output_bytes host.stdout_reads in
    let full = record res {
      stdout = out;
      stderr = drained config.max_output_bytes host.stderr_reads;
    } in
    if leb config.max_output_bytes (length out)
    then record full { status = SandboxStatus.output_limit_exceeded }
    else full

abbrev finish :
    Host → SandboxConfig → Result Text ExecutionResult → Result SandboxError ExecutionResult
finish host config (ok res) = ok (with_output host config res)
finish host config (err e) = err (supervisor_error e)

-- The directory of the child's jail is removed once the child has ended.
unfoldable pub jail_removal : SandboxConfig → List Effect
jail_removal config =
    if config.enable_fs_isolation && not (is_empty_id config.jail_id)
    then directory_removed (root_path config.jail_id) ∷ []
    else []

-- The parent's side for a child in its group, or not.
after_attach : Host → SandboxConfig → ℕ → Result Text (Unit {0}) → Execution
after_attach host config pid (err e) = record {
  effects = killed pid ∷ unregistered pid ∷ [];
  result = err (cgroup_error e);
}
after_attach host config pid (ok _) = record {
  effects = attached pid ∷ supervised pid ∷ unregistered pid ∷ jail_removal config;
  result = finish host config (host.supervise config pid);
}

-- The child runs from `child_started` on, free until `attached`.
after_fork : Host → SandboxConfig → ForkAnswer → Execution
unfolding after_attach
after_fork host config (refused e) = record { effects = []; result = err (fork_error e) }
after_fork host config try_again = record { effects = []; result = err (fork_error []) }
after_fork host config (forked pid) =
    let rest = after_attach host config pid (host.attach pid) in
    record rest { effects = child_started pid ∷ registered pid ∷ rest.effects }

with_cgroup : Host → SandboxConfig → CgroupAnswer → Execution
unfolding after_fork
with_cgroup host config (not_made e) = record { effects = []; result = err (cgroup_error e) }
with_cgroup host config panicked = record { effects = []; result = err (io_error []) }
with_cgroup host config made =
    let (waits, answer) = fork_loop 0 host.fork host.fork_again in
    let rest = after_fork host config answer in record rest { effects = waits ++ rest.effects }

with_pipes : Host → SandboxConfig → Result Text (Unit {0}) → Execution
unfolding with_cgroup
with_pipes host config (err e) = record { effects = []; result = err (child_error e) }
with_pipes host config (ok _) = with_cgroup host config host.cgroup

unfoldable pub execute : Host → SandboxConfig → Execution
unfolding with_pipes with_jail
execute host config =
    let units = units_for host.total_units config.memory_limit_bytes in
    let rest = with_pipes host (with_jail host.uuid config) host.pipes in
    record rest { effects = acquired units ∷ (rest.effects ++ (released units ∷ [])) }
