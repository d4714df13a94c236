-- ===== src/Sandbox/Child/Confined.antt =====
-- src/sandbox/child.rs: what holds of the child when `execve` replaces its image, and how it ends
-- when it does not.
use akiro.Prelude.{
  ℕ, ◌≡◌, ◌≢◌, refl, subst, Bool, true, false, List, [], ◌∷◌, ◌++◌, if◌then◌else◌, arith,
}
use akiro.Prelude.Text.{Text}
use akiro.Sandbox.Config.{SandboxConfig, ExecutionProfile, compile_phase, run_phase}
use akiro.Sandbox.Kernel.{
  Call, Kernel, Log, ChildError, seccomp_error, failed, exits, panicked, replaced, Answer, done,
  stopped, stop, ◌>>=◌, ◌>>◌, map_err,
}
use akiro.Sandbox.Kernel.Logic.{Seen, Keeps, Keeps-go_on, Keeps-convert, Replaces, Replaces-go_on}
use akiro.Sandbox.Kernel.Adds.{Replaces-Adds}
use akiro.Sandbox.Fs.{in_scope, root_path}
use akiro.Sandbox.Fs.Scope.{in_scope-Replaces}
use akiro.Sandbox.Seccomp.{bpf_filter, install}
use akiro.Sandbox.Child.{
  ChildProcessPipes, isolate_network, job_id, isolate_fs, enter_work_dir, argv, envp,
  prepare_strings, drop_privileges, verify_drop, confine, run_image, start_program, limit_child,
  setup_child_process, exit_code, child_end,
}
use akiro.Sandbox.Child.Stages.{
  limit_calls, network_calls, confine_calls, Jailed, JailedTo, Unprivileged, Adds-limit_child,
  Adds-isolate_network, isolate_fs-Keeps, Adds-enter_work_dir, prepare_strings-Keeps, Adds-install,
  Adds-drop_privileges, verify_drop-Keeps,
}

-- The last call is the `execve` of the program, after all that its configuration asks for.
abbrev pub Confined : (Text → ℕ) → Text → SandboxConfig → Kernel → Log → Type 0
Confined sys fresh config k log =
    (dir : Text) × (before : Log) × (jailed : List Call) × (log
      ≡ (Call.execve config.executable_path (argv config) (envp dir), true) ∷ before)
    × Jailed config.enable_fs_isolation k (job_id fresh config.jail_id) config
        (network_calls config.enable_network_isolation ++ limit_calls config) jailed
    × Seen (confine_calls sys config.profile ++ jailed) before
    × Unprivileged k config.profile before

exits_nonzero :
    (R : Log → Type 0) (r : Answer ChildError (Unit {0}) × Log) (n : ℕ)
    → Replaces R r
    → child_end r ≡ exit_code n
    → n ≢ 0
exits_nonzero R (done a, log) n h e = grind arith
exits_nonzero R (stopped (failed f), log) n h e = grind arith
exits_nonzero R (stopped (exits m), log) n h e = grind arith
exits_nonzero R (stopped panicked, log) n h e = grind arith
exits_nonzero R (stopped replaced, log) n h e = grind arith

module _ (sys : Text → ℕ) (known_arch : Bool) where
  confine-Keeps :
      (k : Kernel) (cs : List Call) (log : Log) (profile : ExecutionProfile)
      → Seen cs log
      → Keeps
          (λ _ l. Seen (confine_calls sys profile ++ cs) l × Unprivileged k profile l)
          (confine sys known_arch profile k log)
  unfolding confine
  confine-Keeps k cs log compile_phase h = (h, tt)
  confine-Keeps k cs log run_phase h =
      let filtered = Call.load_filter (bpf_filter sys).rules ∷ Call.no_new_privs ∷ cs in
      Keeps-go_on k (λ _. drop_privileges >> verify_drop) (λ _ l. Seen filtered l)
        (λ _ l. Seen (confine_calls sys run_phase ++ cs) l × Unprivileged k run_phase l)
        (map_err seccomp_error (install sys known_arch) k log)
        (Keeps-convert seccomp_error (λ _ l. Seen filtered l) (install sys known_arch k log)
          (Adds-install sys known_arch k cs log h))
        (λ _ l s.
          Keeps-go_on k (λ _. verify_drop) (λ _ l'. Seen (confine_calls sys run_phase ++ cs) l')
            (λ _ l'. Seen (confine_calls sys run_phase ++ cs) l' × Unprivileged k run_phase l')
            (drop_privileges k l) (Adds-drop_privileges k filtered l s)
            (λ _ l' s'. verify_drop-Keeps k (confine_calls sys run_phase ++ cs) l' s'))

  module _ (fresh : Text) (config : SandboxConfig) (k : Kernel) (jailed : List Call)
      (made : Jailed config.enable_fs_isolation k
        (job_id fresh config.jail_id)
        config
        (network_calls config.enable_network_isolation ++ limit_calls config)
        jailed) where
    ran :
        (dir : Text) (log : Log) (replaces : Bool)
        → Seen (confine_calls sys config.profile ++ jailed) log
        → Unprivileged k config.profile log
        → Replaces {E = ChildError} {A = Unit {0}} (Confined sys fresh config k) (
            stop
              (if replaces then replaced else exits 127)
              k
              ((Call.execve config.executable_path (argv config) (envp dir), replaces) ∷ log))
    ran dir log true h u = (dir, log, jailed, refl, made, h, u)
    ran dir log false h u = omega arith

    -- From the C strings on.
    finish-Replaces :
        (log : Log)
        → Seen jailed log
        → Replaces (Confined sys fresh config k) (
            (prepare_strings config
                >>= (λ dir. confine sys known_arch config.profile >> run_image config dir))
              k log)
    unfolding run_image
    finish-Replaces log h =
        Replaces-go_on k (λ dir. confine sys known_arch config.profile >> run_image config dir)
          (λ _ l. Seen jailed l) (Confined sys fresh config k) (prepare_strings config k log)
          (prepare_strings-Keeps config k jailed log h)
          (λ dir l s.
            Replaces-go_on k (λ _. run_image config dir)
              (λ _ l'.
                Seen (confine_calls sys config.profile ++ jailed) l'
                × Unprivileged k config.profile l')
              (Confined sys fresh config k) (confine sys known_arch config.profile k l)
              (confine-Keeps k jailed l config.profile s)
              (λ _ l' (seen, dropped).
                ran dir l'
                  (k.succeeds l' (Call.execve config.executable_path (argv config) (envp dir))) seen
                  dropped))

    start_program-Replaces :
        (log : Log)
        → Seen jailed log
        → Replaces (Confined sys fresh config k) (start_program sys known_arch config k log)
    unfolding start_program
    start_program-Replaces log h =
        Replaces-Adds (Confined sys fresh config k) [] (enter_work_dir config.work_dir)
          (prepare_strings config
            >>= (λ dir. confine sys known_arch config.profile >> run_image config dir))
          k jailed (Adds-enter_work_dir config.work_dir) finish-Replaces log h

  setup_child_process-Replaces :
      (fresh : Text) (config : SandboxConfig) (pipes : ChildProcessPipes) (k : Kernel)
      → Replaces
          (Confined sys fresh config k)
          (setup_child_process sys known_arch fresh config pipes k [])
  unfolding setup_child_process
  setup_child_process-Replaces fresh config pipes k =
      let R = Confined sys fresh config k in
      let jail = job_id fresh config.jail_id in
      let net = network_calls config.enable_network_isolation in
      let limits = limit_calls config in
      let start = start_program sys known_arch config in
      let program = in_scope config.enable_fs_isolation (root_path jail) start in
      let cage = isolate_fs fresh config in
      let cut = isolate_network config.enable_network_isolation in
      Replaces-Adds R limits (limit_child config pipes) (cut >> (cage >> program)) k []
        (Adds-limit_child config pipes)
        (Replaces-Adds R net cut (cage >> program) k limits
          (Adds-isolate_network config.enable_network_isolation)
          (λ log h.
            Replaces-go_on k (λ _. program)
              (λ _ l. JailedTo config.enable_fs_isolation k jail config (net ++ limits) l) R
              (cage k log) (isolate_fs-Keeps fresh config k (net ++ limits) log h)
              (λ _ l (jailed, made, s).
                in_scope-Replaces config.enable_fs_isolation (root_path jail) start R k l
                  (start_program-Replaces fresh config k jailed made l s))))
        [] Seen.start

  -- If the image is replaced, then by `execve` of the configuration's program, after calls that
  -- all succeeded, in this order: the limits on CPU time, file size and stack; for a configuration
  -- with network isolation, the network and IPC namespaces; for one with a jail, the mount
  -- namespace, the private root, the mount of the new root, the bind and the read-only remount of
  -- each read-only path that was found to exist, the mount of /dev with its three devices, those of
  -- /proc and of the workspace, `pivot_root` and the change to the workspace; in the Run profile,
  -- no-new-privileges, the system call filter, and the drop of groups, group id and user id. In
  -- that profile neither id was then 0, and `setuid(0)` was refused just before the `execve`.
  pub replaced-Confined :
      (fresh : Text) (config : SandboxConfig) (pipes : ChildProcessPipes) (k : Kernel) (log : Log)
      → setup_child_process sys known_arch fresh config pipes k [] ≡ (stopped replaced, log)
      → Confined sys fresh config k log
  replaced-Confined fresh config pipes k log e =
      subst (Replaces (Confined sys fresh config k)) e
        (setup_child_process-Replaces fresh config pipes k)

  -- A child whose image is not replaced never exits with code 0, so that a setup that fails is not
  -- taken for a program that succeeded.
  pub child_end-setup_child_process :
      (fresh : Text) (config : SandboxConfig) (pipes : ChildProcessPipes) (k : Kernel) (n : ℕ)
      → child_end (setup_child_process sys known_arch fresh config pipes k []) ≡ exit_code n
      → n ≢ 0
  child_end-setup_child_process fresh config pipes k n e =
      exits_nonzero (Confined sys fresh config k)
        (setup_child_process sys known_arch fresh config pipes k []) n
        (setup_child_process-Replaces fresh config pipes k) e
