-- ===== src/Sandbox/Execute/Output.antt =====
-- src/sandbox/mod.rs and supervisor.rs: the output of a run, and when it is over the limit.
use akiro.Prelude.{
  zero, suc, sym, ap, none, Option, [], ℕ, ◌≤◌, ◌<◌, ◌≡◌, refl, subst, some, List, leb, length,
  take, length-take, arith, Bool-cases, inl, inr,
}
use akiro.Prelude.Result.{Result, ok, err}
use akiro.Prelude.Text.{Text}
use akiro.Sandbox.Config.{SandboxConfig}
use akiro.Sandbox.Result.{SandboxStatus, ExecutionResult}
use akiro.Sandbox.Supervisor.Pipe.{ReadAnswer, written, read_pipe_output-written}
use akiro.Sandbox.Execute.{
  SandboxError, ForkAnswer, forked, try_again, refused, CgroupAnswer, made, panicked, not_made,
  Host, fork_loop, with_jail, with_output, drained, finish, after_attach, after_fork, with_cgroup,
  with_pipes, execute,
}

-- What was read of a pipe: nothing if the drain did not end in time.
abbrev pub read_of : Option (List ReadAnswer) → List ℕ
read_of none = []
read_of (some reads) = written reads

take-nil : (n : ℕ) → take {A = ℕ} n [] ≡ []
take-nil zero = refl
take-nil (suc n) = refl

drained-read_of : (n : ℕ) (o : Option (List ReadAnswer)) → drained n o ≡ take n (read_of o)
drained-read_of n none = sym (take-nil n)
drained-read_of n (some reads) = read_pipe_output-written n reads

-- The result of a run of `config`, in its jail, whose `fork` was answered by `answer`.
pub record Output (host : Host) (answer : ForkAnswer) (config : SandboxConfig) (r : ExecutionResult)
    : Type 0 where
  pub pid : ℕ
  pub ended : ExecutionResult
  pub child : answer ≡ forked pid
  pub supervised : host.supervise config pid ≡ ok ended
  pub out : r.stdout ≡ take config.max_output_bytes (read_of host.stdout_reads)
  pub errors : r.stderr ≡ take config.max_output_bytes (read_of host.stderr_reads)
  pub over :
      config.max_output_bytes ≤ length (read_of host.stdout_reads)
      → r.status ≡ SandboxStatus.output_limit_exceeded
  pub within :
      length (read_of host.stdout_reads) < config.max_output_bytes → r.status ≡ ended.status
  pub measured : (r.cpu_time_ms ≡ ended.cpu_time_ms) × (r.memory_kb ≡ ended.memory_kb)

abbrev OnOk : (ExecutionResult → Type 0) → Result SandboxError ExecutionResult → Type 0
OnOk P (ok r) = P r
OnOk P (err e) = Unit

module _ (host : Host) where
  with_output-Output :
      (config : SandboxConfig) (pid : ℕ) (s : ExecutionResult)
      → host.supervise config pid ≡ ok s
      → Output host (forked pid) config (with_output host config s)
  unfolding with_output
  with_output-Output config pid s h =
      let most = config.max_output_bytes in
      let n = length-take most (read_of host.stdout_reads) in
      let said = drained-read_of most host.stdout_reads in
      elim (Bool-cases (leb most (length (drained most host.stdout_reads)))) [
        | inl full ↦ rw full (record {
          pid = pid;
          ended = s;
          child = refl;
          supervised = h;
          out = said;
          errors = drained-read_of most host.stderr_reads;
          over = λ _. refl;
          within = λ few. absurd (ground (arith, n, ap (length {A = ℕ}) said));
          measured = (refl, refl);
        })
        | inr space ↦ rw space (record {
          pid = pid;
          ended = s;
          child = refl;
          supervised = h;
          out = said;
          errors = drained-read_of most host.stderr_reads;
          over = λ many. absurd (ground (arith, n, ap (length {A = ℕ}) said));
          within = λ _. refl;
          measured = (refl, refl);
        })
      ]

  finish-Output :
      (config : SandboxConfig) (pid : ℕ) (o : Result Text ExecutionResult)
      → host.supervise config pid ≡ o
      → OnOk (Output host (forked pid) config) (finish host config o)
  finish-Output config pid (ok s) h = with_output-Output config pid s h
  finish-Output config pid (err x) h = tt

  after_attach-Output :
      (config : SandboxConfig) (pid : ℕ) (o : Result Text (Unit {0}))
      → OnOk (Output host (forked pid) config) (after_attach host config pid o).result
  unfolding after_attach
  after_attach-Output config pid (err x) = tt
  after_attach-Output config pid (ok _) = finish-Output config pid (host.supervise config pid) refl

  after_fork-Output :
      (config : SandboxConfig) (answer : ForkAnswer)
      → OnOk (Output host answer config) (after_fork host config answer).result
  unfolding after_fork
  after_fork-Output config (refused x) = tt
  after_fork-Output config try_again = tt
  after_fork-Output config (forked pid) = after_attach-Output config pid (host.attach pid)

  abbrev pub fork_answer : ForkAnswer
  fork_answer = (fork_loop 0 host.fork host.fork_again).1

  with_cgroup-Output :
      (config : SandboxConfig) (c : CgroupAnswer)
      → OnOk (Output host fork_answer config) (with_cgroup host config c).result
  unfolding with_cgroup
  with_cgroup-Output config (not_made x) = tt
  with_cgroup-Output config panicked = tt
  with_cgroup-Output config made = after_fork-Output config fork_answer

  with_pipes-Output :
      (config : SandboxConfig) (o : Result Text (Unit {0}))
      → OnOk (Output host fork_answer config) (with_pipes host config o).result
  unfolding with_pipes
  with_pipes-Output config (err x) = tt
  with_pipes-Output config (ok _) = with_cgroup-Output config host.cgroup

-- A run that succeeds is that of the child that was forked, supervised in its jail: its time and
-- memory are those that supervision found, its output and its errors are what was read of each
-- pipe, up to the limit, or nothing where a drain did not end in time; it is marked as over the
-- limit if as many bytes of output or more were read, and else it has the status that supervision
-- gave it.
pub execute-Output :
    (host : Host) (config : SandboxConfig) (r : ExecutionResult)
    → (execute host config).result ≡ ok r
    → Output host (fork_answer host) (with_jail host.uuid config) r
unfolding execute
execute-Output host config r h =
    subst (OnOk (Output host (fork_answer host) (with_jail host.uuid config))) h
      (with_pipes-Output host (with_jail host.uuid config) host.pipes)
