-- ===== src/Sandbox/Child.antt =====
-- src/sandbox/child.rs: what the child does between fork and exec, on the calls of
-- src/sandbox/: `Kernel`. An error carries what its message names; a fresh UUID, the numbers of
-- libc and whether `seccompiler` knows the architecture are parameters.
pub mod Stages
pub mod Confined
pub mod Examples
use akiro.Prelude.{
  ℕ, ◌+◌, ◌*◌, ◌/◌, max, Bool, true, false, not, ◌||◌, Option, none, some, List, [], ◌∷◌, ◌++◌, map,
  ◌==◌, if◌then◌else◌,
}
use akiro.Prelude.Text.{Text, codes}
use akiro.Prelude.FilePath.{join, file_name}
use akiro.Prelude.Word.{add64, mebibytes}
use akiro.Sandbox.Config.{SandboxConfig, ExecutionProfile, compile_phase, run_phase}
use akiro.Sandbox.Kernel.{
  Limit, cpu, fsize, stack, Call, Kernel, Log, ChildError, rlimit_error, chdir_error, execve_error,
  namespace_error, seccomp_error, priv_drop_error, isolation_error, Stop, failed, exits, panicked,
  replaced, Answer, done, stopped, Sys, pure, stop, ◌>>=◌, ◌>>◌, may, try_call, ask, must, stop_if,
  when, map_err, has_nul, unwrap_c_string,
}
use akiro.Sandbox.Fs.{root_path, in_scope, setup}
use akiro.Sandbox.Seccomp.{install}

abbrev pub Child : Type 0 → Type 0
Child = Sys ChildError

pub record ChildProcessPipes : Type 0 where
  pub stdin_read : ℕ
  pub stdin_write : ℕ
  pub stdout_read : ℕ
  pub stdout_write : ℕ
  pub stderr_read : ℕ
  pub stderr_write : ℕ

unfoldable pub close_child_ends : ChildProcessPipes → Child (Unit {0})
close_child_ends pipes = do
  may (Call.close pipes.stdin_write)
  may (Call.close pipes.stdout_read)
  may (Call.close pipes.stderr_read)

-- One of the three `dup2` of a condition that short-circuits; a failure exits.
unfoldable pub redirect : ℕ → ℕ → Child (Unit {0})
redirect old new = do ok ← try_call (Call.dup2 old new); stop_if (not ok) (exits 1)

unfoldable pub redirect_streams : ChildProcessPipes → Child (Unit {0})
unfolding redirect
redirect_streams pipes = do
  redirect pipes.stdin_read 0
  redirect pipes.stdout_write 1
  redirect pipes.stderr_write 2
  may (Call.close pipes.stdin_read)
  may (Call.close pipes.stdout_write)
  may (Call.close pipes.stderr_write)

abbrev pub time_limit_secs : SandboxConfig → ℕ
time_limit_secs config = max 1 (add64 config.time_limit_ms 999 / 1000)

abbrev pub fsize_limit : ExecutionProfile → ℕ
fsize_limit compile_phase = mebibytes 256
fsize_limit run_phase = mebibytes 16

abbrev pub stack_limit : ℕ
stack_limit = mebibytes 64

unfoldable pub apply_resource_limits : SandboxConfig → Child (Unit {0})
apply_resource_limits config = do
  must (rlimit_error (codes "RLIMIT_CPU")) (Call.setrlimit cpu (time_limit_secs config))
  must (rlimit_error (codes "RLIMIT_FSIZE")) (Call.setrlimit fsize (fsize_limit config.profile))
  must (rlimit_error (codes "RLIMIT_STACK")) (Call.setrlimit stack stack_limit)

unfoldable pub apply_environment_sanitization : Child (Unit {0})
apply_environment_sanitization = do
  may Call.clearenv
  may (Call.setenv (codes "PATH") (codes "/usr/bin:/bin"))
  may (Call.setenv (codes "LANG") (codes "C.UTF-8"))

unfoldable pub isolate_network : Bool → Child (Unit {0})
isolate_network enabled =
    when enabled (must (namespace_error (codes "network/IPC unshare failed")) Call.unshare_net_ipc)

abbrev pub job_id : Text → Text → Text
job_id fresh [] = fresh
job_id fresh (c ∷ s) = c ∷ s

unfoldable pub isolate_fs : Text → SandboxConfig → Child (Unit {0})
isolate_fs fresh config = when config.enable_fs_isolation (
    must (namespace_error (codes "mount-namespace unshare failed")) Call.unshare_mounts
    >> map_err isolation_error (
        setup (job_id fresh config.jail_id) config.workspace_dir config.fs_workdir_size_bytes
          config.fs_readonly_paths))

-- `metadata(dir).is_ok()` is `exists`.
abbrev pub enter_existing : Text → Bool → Child (Unit {0})
enter_existing dir there =
    when there (unwrap_c_string dir >> must (chdir_error (codes "chdir failed")) (Call.chdir dir))

unfoldable pub enter_work_dir : Option Text → Child (Unit {0})
enter_work_dir none = pure tt
enter_work_dir (some dir) = ask (λ k log. k.exists log dir) >>= enter_existing dir

-- `CString::new(bytes).unwrap_or_default()`.
abbrev pub c_string_or_default : Text → Text
c_string_or_default s = if has_nul s then [] else s

abbrev name_or_default : Option Text → Text
name_or_default none = []
name_or_default (some name) = name

unfoldable pub argv : SandboxConfig → List Text
argv config =
    map c_string_or_default (name_or_default (file_name config.executable_path) ∷ config.args)

abbrev pub gocache_dir : Option Text → Bool → Text
gocache_dir work_dir true = codes "/var/cache/gocache"
gocache_dir (some wd) false = join wd (codes ".gocache")
gocache_dir none false = codes "/tmp"

abbrev pub env_gocache : Text → Text
env_gocache dir = codes "GOCACHE=" ++ dir

abbrev pub env_gopath : Text → Text
env_gopath dir = codes "GOPATH=" ++ join dir (codes "pkg")

unfoldable pub envp : Text → List Text
envp dir =
    codes "PATH=/usr/bin:/bin:/usr/local/bin"
    ∷ codes "LANG=C.UTF-8"
    ∷ codes "HOME=/tmp"
    ∷ env_gocache dir
    ∷ env_gopath dir
    ∷ []

abbrev pub env_strings : Text → Child (Unit {0})
env_strings dir = unwrap_c_string (env_gocache dir) >> unwrap_c_string (env_gopath dir)

abbrev pub env_dir : Option Text → Bool → Child Text
env_dir work_dir there =
    env_strings (gocache_dir work_dir there) >>= (λ _. pure (gocache_dir work_dir there))

-- The directory that the environment names, once all the C strings are made.
unfoldable pub prepare_strings : SandboxConfig → Child Text
prepare_strings config =
    stop_if (has_nul config.executable_path)
      (failed (execve_error (codes "Invalid executable path")))
    >> (ask (λ k log. k.exists log (codes "/var/cache/gocache")) >>= env_dir config.work_dir)

abbrev pub sandbox_uid : ℕ
sandbox_uid = 65534

abbrev pub sandbox_gid : ℕ
sandbox_gid = 65534

unfoldable pub drop_privileges : Child (Unit {0})
drop_privileges = do
  must (priv_drop_error (codes "setgroups(0) failed")) Call.setgroups_none
  must (priv_drop_error (codes "setresgid failed"))
      (Call.setresgid sandbox_gid sandbox_gid sandbox_gid)
  must (priv_drop_error (codes "setresuid failed"))
      (Call.setresuid sandbox_uid sandbox_uid sandbox_uid)

abbrev pub still_privileged : Stop ChildError
still_privileged =
    failed (priv_drop_error (codes "privilege drop did not take effect (still privileged)"))

-- The condition short-circuits: `setuid` is only tried when both ids are other than 0.
abbrev pub verify_ids : Bool → Child (Unit {0})
verify_ids root =
    stop_if root still_privileged
    >> (try_call (Call.setuid 0) >>= (λ undone. stop_if undone still_privileged))

unfoldable pub verify_drop : Child (Unit {0})
verify_drop = ask (λ k log. k.getuid log == 0 || k.geteuid log == 0) >>= verify_ids

unfoldable pub confine : (Text → ℕ) → Bool → ExecutionProfile → Child (Unit {0})
unfolding drop_privileges verify_drop install
confine sys known_arch compile_phase = pure tt
confine sys known_arch run_phase = do
  map_err seccomp_error (install sys known_arch)
  drop_privileges
  verify_drop

-- `execve` only returns when it fails.
unfoldable pub run_image : SandboxConfig → Text → Child (Unit {0})
run_image config dir = do
  ok ← try_call (Call.execve config.executable_path (argv config) (envp dir))
  stop (if ok then replaced else exits 127)

-- What comes before the jail.
unfoldable pub limit_child : SandboxConfig → ChildProcessPipes → Child (Unit {0})
unfolding close_child_ends redirect_streams apply_resource_limits apply_environment_sanitization
limit_child config pipes = do
  close_child_ends pipes
  redirect_streams pipes
  may (Call.setpgid_self 0)
  apply_resource_limits config
  apply_environment_sanitization

-- What comes once the jail is made.
unfoldable pub start_program : (Text → ℕ) → Bool → SandboxConfig → Child (Unit {0})
unfolding enter_work_dir prepare_strings confine run_image
start_program sys known_arch config = do
  enter_work_dir config.work_dir
  dir ← prepare_strings config
  confine sys known_arch config.profile
  run_image config dir

unfoldable pub setup_child_process :
    (Text → ℕ) → Bool → Text → SandboxConfig → ChildProcessPipes → Child (Unit {0})
unfolding limit_child isolate_network isolate_fs start_program
setup_child_process sys known_arch fresh config pipes = do
  limit_child config pipes
  isolate_network config.enable_network_isolation
  isolate_fs fresh config
  in_scope config.enable_fs_isolation (root_path (job_id fresh config.jail_id))
      (start_program sys known_arch config)

-- How the child ends: as the program, with an exit code, or in a panic.
pub data ChildEnd : Type 0 where
  program panic : ChildEnd
  exit_code : ℕ → ChildEnd

-- `let _ = setup_child_process(..); exit(1)`.
abbrev pub child_end : Answer ChildError (Unit {0}) × Log → ChildEnd
child_end (done a, log) = exit_code 1
child_end (stopped (failed e), log) = exit_code 1
child_end (stopped (exits n), log) = exit_code n
child_end (stopped panicked, log) = panic
child_end (stopped replaced, log) = program
