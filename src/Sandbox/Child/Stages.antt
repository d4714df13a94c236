-- ===== src/Sandbox/Child/Stages.antt =====
-- src/sandbox/child.rs: what each stage of the child leaves as succeeded.
use akiro.Prelude.{
  ℕ, ◌≡◌, ◌≢◌, refl, Bool, true, false, not, ◌||◌, Option, none, some, List, [], ◌∷◌, ◌++◌, ◌==◌,
  arith,
}
use akiro.Prelude.Text.{Text, codes}
use akiro.Sandbox.Config.{SandboxConfig, ExecutionProfile, compile_phase, run_phase}
use akiro.Sandbox.Kernel.{
  cpu, fsize, stack, Call, Kernel, Log, ChildError, chdir_error, execve_error, ask, namespace_error,
  isolation_error, failed, exits, pure, ◌>>=◌, ◌>>◌, may, must, stop_if, when, map_err, has_nul,
  unwrap_c_string,
}
use akiro.Sandbox.Kernel.Logic.{Seen, Keeps, Keeps-go_on, Keeps-weaken, Keeps-convert}
use akiro.Sandbox.Kernel.Adds.{
  Adds, Adds-then, Adds-must, Adds-may, Adds-stop_if, Adds-seq, Adds-weak, Adds-pure, Adds-when,
  Adds-unwrap,
}
use akiro.Sandbox.Fs.{setup, root_path}
use akiro.Sandbox.Fs.Binds.{Bound}
use akiro.Sandbox.Fs.Jail.{InJail, root_mount, private_root, from_dev, setup-Keeps}
use akiro.Sandbox.Seccomp.{bpf_filter, install}
use akiro.Sandbox.Child.{
  Child, ChildProcessPipes, close_child_ends, redirect, redirect_streams, time_limit_secs,
  fsize_limit, stack_limit, apply_resource_limits, apply_environment_sanitization, isolate_network,
  job_id, isolate_fs, enter_existing, enter_work_dir, gocache_dir, env_strings, env_dir,
  env_gocache, env_gopath, prepare_strings, sandbox_uid, sandbox_gid, drop_privileges, verify_drop,
  verify_ids, still_privileged, limit_child,
}

-- The calls that each stage rests on, the last one first.
abbrev pub limit_calls : SandboxConfig → List Call
limit_calls config =
    Call.setrlimit stack stack_limit
    ∷ Call.setrlimit fsize (fsize_limit config.profile)
    ∷ Call.setrlimit cpu (time_limit_secs config)
    ∷ []

abbrev pub network_calls : Bool → List Call
network_calls true = Call.unshare_net_ipc ∷ []
network_calls false = []

-- The jail that is asked for takes the calls from the first list to the second.
abbrev pub Jailed : Bool → Kernel → Text → SandboxConfig → List Call → List Call → Type 0
Jailed true k jail config cs all =
    (held : List Call) × Bound k (root_path jail) config.fs_readonly_paths
      (root_mount (root_path jail) config.fs_workdir_size_bytes
        ∷ private_root
        ∷ Call.unshare_mounts
        ∷ cs)
      held
    × (all ≡ from_dev (root_path jail) config.workspace_dir ++ held)
Jailed false k jail config cs all = all ≡ cs

abbrev pub JailedTo : Bool → Kernel → Text → SandboxConfig → List Call → Log → Type 0
JailedTo b k jail config cs l = (all : List Call) × Jailed b k jail config cs all × Seen all l

abbrev pub confine_calls : (Text → ℕ) → ExecutionProfile → List Call
confine_calls sys compile_phase = []
confine_calls sys run_phase =
    Call.setresuid sandbox_uid sandbox_uid sandbox_uid
    ∷ Call.setresgid sandbox_gid sandbox_gid sandbox_gid
    ∷ Call.setgroups_none
    ∷ Call.load_filter (bpf_filter sys).rules
    ∷ Call.no_new_privs
    ∷ []

-- The drop to `nobody` took effect and could not be undone.
abbrev pub Unprivileged : Kernel → ExecutionProfile → Log → Type 0
Unprivileged k compile_phase log = Unit
Unprivileged k run_phase log =
    (before : Log) × (log ≡ (Call.setuid 0, false) ∷ before)
    × (k.getuid before ≢ 0)
    × (k.geteuid before ≢ 0)

Adds-redirect : (old new : ℕ) → Adds [] (redirect old new)
unfolding redirect
Adds-redirect old new k cs log h =
    Adds-stop_if (not (k.succeeds log (Call.dup2 old new))) (exits 1) (omega arith) k cs
      ((Call.dup2 old new, k.succeeds log (Call.dup2 old new)) ∷ log) (Seen.between h)

Adds-redirect_streams : (pipes : ChildProcessPipes) → Adds [] (redirect_streams pipes)
unfolding redirect_streams
Adds-redirect_streams pipes = Adds-seq _ _ (Adds-redirect pipes.stdin_read 0) (
    Adds-seq _ _ (Adds-redirect pipes.stdout_write 1) (
      Adds-seq _ _ (Adds-redirect pipes.stderr_write 2)
        (λ k cs log h. Seen.between (Seen.between (Seen.between h)))))

Adds-apply_resource_limits :
    (config : SandboxConfig) → Adds (limit_calls config) (apply_resource_limits config)
unfolding apply_resource_limits
Adds-apply_resource_limits config =
    Adds-then (_ ∷ []) (_ ∷ _ ∷ []) _ _ (Adds-must _ _)
      (Adds-then (_ ∷ []) (_ ∷ []) _ _ (Adds-must _ _) (Adds-must _ _))

Adds-apply_environment_sanitization : Adds [] apply_environment_sanitization
unfolding apply_environment_sanitization
Adds-apply_environment_sanitization k cs log h = Seen.between (Seen.between (Seen.between h))

Adds-close_child_ends : (pipes : ChildProcessPipes) → Adds [] (close_child_ends pipes)
unfolding close_child_ends
Adds-close_child_ends pipes k cs log h = Seen.between (Seen.between (Seen.between h))

pub Adds-limit_child :
    (config : SandboxConfig) (pipes : ChildProcessPipes)
    → Adds (limit_calls config) (limit_child config pipes)
unfolding limit_child
Adds-limit_child config pipes =
    let limits = limit_calls config in
    let sanitize = apply_environment_sanitization in
    let limit = apply_resource_limits config >> sanitize in
    let detach = may (Call.setpgid_self 0) in
    Adds-then [] limits (close_child_ends pipes) (redirect_streams pipes >> (detach >> limit))
      (Adds-close_child_ends pipes)
      (Adds-then [] limits (redirect_streams pipes) (detach >> limit) (Adds-redirect_streams pipes)
        (Adds-then [] limits detach limit (Adds-may ChildError (Call.setpgid_self 0)) (
          Adds-then limits [] (apply_resource_limits config) sanitize
            (Adds-apply_resource_limits config) Adds-apply_environment_sanitization)))

pub Adds-isolate_network : (b : Bool) → Adds (network_calls b) (isolate_network b)
unfolding isolate_network
Adds-isolate_network true = Adds-must _ _
Adds-isolate_network false = Adds-pure ChildError

pub isolate_fs-Keeps :
    (fresh : Text) (config : SandboxConfig) (k : Kernel) (cs : List Call) (log : Log)
    → Seen cs log
    → Keeps
        (λ _ l. JailedTo config.enable_fs_isolation k (job_id fresh config.jail_id) config cs l)
        (isolate_fs fresh config k log)
unfolding isolate_fs
isolate_fs-Keeps fresh config k cs log h = on config.enable_fs_isolation
  where
    jail : Text
    jail = job_id fresh config.jail_id

    make : Child (Unit {0})
    make =
        map_err isolation_error
          (setup jail config.workspace_dir config.fs_workdir_size_bytes config.fs_readonly_paths)

    enter : Child (Unit {0})
    enter = must (namespace_error (codes "mount-namespace unshare failed")) Call.unshare_mounts

    made :
        (l : Log)
        → Seen (Call.unshare_mounts ∷ cs) l
        → Keeps (λ _ l'. JailedTo true k jail config cs l') (make k l)
    made l s =
        Keeps-convert isolation_error (λ _ l'. JailedTo true k jail config cs l')
          (setup jail config.workspace_dir config.fs_workdir_size_bytes config.fs_readonly_paths k
            l)
          (Keeps-weaken
            (λ _ l'.
              InJail k (root_path jail) config.workspace_dir config.fs_workdir_size_bytes
                config.fs_readonly_paths (Call.unshare_mounts ∷ cs) l')
            (λ _ l'. JailedTo true k jail config cs l')
            (setup jail config.workspace_dir config.fs_workdir_size_bytes config.fs_readonly_paths k
              l)
            (setup-Keeps jail config.workspace_dir config.fs_workdir_size_bytes
              config.fs_readonly_paths k (Call.unshare_mounts ∷ cs) l s)
            (λ _ l' (held, b, seen).
              (from_dev (root_path jail) config.workspace_dir ++ held, (held, b, refl), seen)))

    on : (b : Bool) → Keeps (λ _ l. JailedTo b k jail config cs l) (when b (enter >> make) k log)
    on true =
        Keeps-go_on k (λ _. make) (λ _ l. Seen (Call.unshare_mounts ∷ cs) l)
          (λ _ l. JailedTo true k jail config cs l) (enter k log) (Adds-must _ _ k cs log h)
          (λ _ l s. made l s)
    on false = (cs, refl, h)

Adds-enter_existing : (dir : Text) (there : Bool) → Adds [] (enter_existing dir there)
Adds-enter_existing dir there = Adds-when there _ (
    Adds-seq _ _ (Adds-unwrap ChildError dir)
      (Adds-weak (chdir_error (codes "chdir failed")) (Call.chdir dir)))

pub Adds-enter_work_dir : (o : Option Text) → Adds [] (enter_work_dir o)
unfolding enter_work_dir
Adds-enter_work_dir none = Adds-pure ChildError
Adds-enter_work_dir (some dir) = λ k cs log h. Adds-enter_existing dir (k.exists log dir) k cs log h

env_dir-Keeps :
    (work_dir : Option Text) (there : Bool) (k : Kernel) (cs : List Call) (log : Log)
    → Seen cs log
    → Keeps (λ _ l. Seen cs l) (env_dir work_dir there k log)
env_dir-Keeps work_dir there k cs log h =
    let dir = gocache_dir work_dir there in
    Keeps-go_on k (λ _. pure dir) (λ _ l. Seen cs l) (λ _ l. Seen cs l) (env_strings dir k log)
      (Adds-seq (unwrap_c_string (env_gocache dir)) (unwrap_c_string (env_gopath dir))
        (Adds-unwrap ChildError (env_gocache dir)) (Adds-unwrap ChildError (env_gopath dir)) k cs
        log h)
      (λ _ l s. s)

pub prepare_strings-Keeps :
    (config : SandboxConfig) (k : Kernel) (cs : List Call) (log : Log)
    → Seen cs log
    → Keeps (λ _ l. Seen cs l) (prepare_strings config k log)
unfolding prepare_strings
prepare_strings-Keeps config k cs log h =
    Keeps-go_on k
      (λ _. ask (λ k' l. k'.exists l (codes "/var/cache/gocache")) >>= env_dir config.work_dir)
      (λ _ l. Seen cs l) (λ _ l. Seen cs l)
      (stop_if (has_nul config.executable_path)
        (failed (execve_error (codes "Invalid executable path"))) k log)
      (Adds-stop_if (has_nul config.executable_path)
        (failed (execve_error (codes "Invalid executable path"))) tt k cs log h)
      (λ _ l s. env_dir-Keeps config.work_dir (k.exists l (codes "/var/cache/gocache")) k cs l s)

pub Adds-install :
    (sys : Text → ℕ) (known_arch : Bool)
    → Adds
        (Call.load_filter (bpf_filter sys).rules ∷ Call.no_new_privs ∷ [])
        (install sys known_arch)
unfolding install
Adds-install sys known_arch =
    Adds-then (Call.no_new_privs ∷ []) (_ ∷ []) _ _ (Adds-must _ _)
      (Adds-then [] (_ ∷ []) _ _ (Adds-stop_if _ _ tt) (Adds-must _ _))

pub Adds-drop_privileges :
    Adds
      (Call.setresuid sandbox_uid sandbox_uid sandbox_uid
        ∷ Call.setresgid sandbox_gid sandbox_gid sandbox_gid
        ∷ Call.setgroups_none
        ∷ [])
      drop_privileges
unfolding drop_privileges
Adds-drop_privileges =
    Adds-then (_ ∷ []) (_ ∷ _ ∷ []) _ _ (Adds-must _ _)
      (Adds-then (_ ∷ []) (_ ∷ []) _ _ (Adds-must _ _) (Adds-must _ _))

not_root : (uid euid : ℕ) → (uid == 0 || euid == 0) ≡ false → (uid ≢ 0) × (euid ≢ 0)
not_root uid euid h = (ground arith, ground arith)

setuid-Keeps :
    (k : Kernel) (cs : List Call) (log : Log) (undone : Bool)
    → Seen cs log
    → (k.getuid log ≢ 0) × (k.geteuid log ≢ 0)
    → Keeps
        (λ _ l. Seen cs l × Unprivileged k run_phase l)
        (stop_if undone still_privileged k ((Call.setuid 0, undone) ∷ log))
setuid-Keeps k cs log true h ids = tt
setuid-Keeps k cs log false h ids = (Seen.between h, (log, refl, ids.0, ids.1))

verify_ids-Keeps :
    (k : Kernel) (cs : List Call) (log : Log) (root : Bool)
    → Seen cs log
    → (root ≡ false → (k.getuid log ≢ 0) × (k.geteuid log ≢ 0))
    → Keeps (λ _ l. Seen cs l × Unprivileged k run_phase l) (verify_ids root k log)
verify_ids-Keeps k cs log true h ids = tt
verify_ids-Keeps k cs log false h ids =
    setuid-Keeps k cs log (k.succeeds log (Call.setuid 0)) h (ids refl)

pub verify_drop-Keeps :
    (k : Kernel) (cs : List Call) (log : Log)
    → Seen cs log
    → Keeps (λ _ l. Seen cs l × Unprivileged k run_phase l) (verify_drop k log)
unfolding verify_drop
verify_drop-Keeps k cs log h =
    verify_ids-Keeps k cs log (k.getuid log == 0 || k.geteuid log == 0) h
      (not_root (k.getuid log) (k.geteuid log))
