-- ===== src/Sandbox/Cgroup/Limits.antt =====
-- src/sandbox/cgroups.rs: the limits that a child in a control group is under.
use akiro.Prelude.{ℕ, ◌≡◌, subst, Option, none, some, List, [], ◌∷◌, ◌++◌}
use akiro.Prelude.Text.{Text, codes}
use akiro.Prelude.Decimal.{decimal}
use akiro.Sandbox.Config.{SandboxConfig, ExecutionProfile, compile_phase, run_phase}
use akiro.Sandbox.Kernel.{Call, Log, Kernel, done, ◌>>◌, may}
use akiro.Sandbox.Kernel.Logic.{Seen, Keeps, Keeps-go_on}
use akiro.Sandbox.Kernel.Adds.{Adds, Adds-then, Adds-must, Adds-may, Adds-weak, Adds-pure}
use akiro.Sandbox.Cgroup.{
  CgroupError, write_cgroup_file, setting, limit_pids, cpu_max, limit_cpu, make_group, create,
  attach_proc,
}

abbrev pub pids_setting : Text → ExecutionProfile → ℕ → List Call
pids_setting group compile_phase pids_limit = []
pids_setting group run_phase pids_limit = setting group (codes "pids.max") (decimal pids_limit) ∷ []

abbrev pub memory_setting : Text → SandboxConfig → Call
memory_setting group config = setting group (codes "memory.max") (decimal config.memory_limit_bytes)

abbrev pub attached : Text → ℕ → Call
attached group pid = setting group (codes "cgroup.procs") (decimal pid)

-- The writes that must succeed, the last one first.
abbrev pub limit_settings : Text → SandboxConfig → List Call
limit_settings group config =
    pids_setting group config.profile config.pids_limit ++ (memory_setting group config ∷ [])

Adds-limit_pids :
    (group : Text) (profile : ExecutionProfile) (pids : ℕ)
    → Adds (pids_setting group profile pids) (limit_pids group profile pids)
unfolding limit_pids write_cgroup_file
Adds-limit_pids group compile_phase pids = Adds-pure CgroupError
Adds-limit_pids group run_phase pids = Adds-must _ _

Adds-limit_cpu : (group : Text) (percent : Option ℕ) → Adds [] (limit_cpu group percent)
unfolding limit_cpu
Adds-limit_cpu group none = Adds-pure CgroupError
Adds-limit_cpu group (some percent) =
    Adds-may CgroupError (setting group (codes "cpu.max") (cpu_max percent))

pub Adds-make_group :
    (group : Text) (config : SandboxConfig)
    → Adds (memory_setting group config ∷ []) (make_group group config)
unfolding make_group write_cgroup_file
Adds-make_group group config =
    Adds-then [] (memory_setting group config ∷ []) _ _ (Adds-weak _ _) (Adds-must _ _)

pub create-Keeps :
    (group : Text) (config : SandboxConfig) (k : Kernel) (log : Log)
    → Keeps (λ _ l. Seen (limit_settings group config) l) (create group config k log)
unfolding create
create-Keeps group config k log =
    let pids = pids_setting group config.profile config.pids_limit in
    let memory = memory_setting group config ∷ [] in
    let cap =
      limit_pids group config.profile config.pids_limit >> limit_cpu group config.cpu_max_percent in
    let zswap = may (setting group (codes "memory.zswap.max") (codes "0")) in
    let swap = may (setting group (codes "memory.swap.max") (codes "0")) in
    Adds-then memory pids (make_group group config) (swap >> (zswap >> cap))
      (Adds-make_group group config)
      (Adds-then [] pids swap (zswap >> cap) (Adds-may CgroupError _) (
        Adds-then [] pids zswap cap (Adds-may CgroupError _) (
          Adds-then pids [] (limit_pids group config.profile config.pids_limit)
            (limit_cpu group config.cpu_max_percent)
            (Adds-limit_pids group config.profile config.pids_limit)
            (Adds-limit_cpu group config.cpu_max_percent))))
      k [] log Seen.start

Adds-attach_proc : (group : Text) (pid : ℕ) → Adds (attached group pid ∷ []) (attach_proc group pid)
unfolding attach_proc write_cgroup_file
Adds-attach_proc group pid = Adds-must _ _

-- A child is attached to a group only after the group's memory limit and, in the Run profile, its
-- process limit were written with success, in this order.
pub attach_proc-create :
    (group : Text) (config : SandboxConfig) (pid : ℕ) (k : Kernel) (log : Log)
    → (create group config >> attach_proc group pid) k [] ≡ (done tt, log)
    → Seen (attached group pid ∷ limit_settings group config) log
attach_proc-create group config pid k log e =
    subst
      (Keeps {E = CgroupError} (λ _ l. Seen (attached group pid ∷ limit_settings group config) l)) e
      (Keeps-go_on k (λ _. attach_proc group pid) (λ _ l. Seen (limit_settings group config) l)
        (λ _ l. Seen (attached group pid ∷ limit_settings group config) l)
        (create group config k []) (create-Keeps group config k [])
        (λ _ l s. Adds-attach_proc group pid k (limit_settings group config) l s))
