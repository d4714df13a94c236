-- ===== src/Sandbox/Cgroup/Made.antt =====
-- src/sandbox/cgroups.rs: a group is made with its limits, or not kept.
use akiro.Prelude.{
  ℕ, ◌≡◌, refl, ◌⊎◌, inl, inr, Bool, true, false, Bool-cases, Option, none, some, ◌∷◌,
}
use akiro.Prelude.Text.{Text, codes}
use akiro.Prelude.FilePath.{join}
use akiro.Sandbox.Config.{SandboxConfig, ExecutionProfile, compile_phase, run_phase}
use akiro.Sandbox.Kernel.{
  Call, Log, Kernel, Answer, done, stopped, failed, exits, panicked, replaced, Sys, go_on, answered,
  must, may, ◌>>◌,
}
use akiro.Sandbox.Kernel.Call.{mkdirs, rmdir}
use akiro.Sandbox.Kernel.Logic.{Seen, Keeps}
use akiro.Sandbox.Cgroup.{
  Cgroup, setting, CgroupError, directory_creation_failed, not_available, write_cgroup_file,
  limit_pids, limit_cpu, make_group, create,
}
use akiro.Sandbox.Cgroup.Limits.{limit_settings, create-Keeps}
use akiro.Sandbox.Cgroup.Offered.{CapFits, Offered, create-Offered}
use akiro.Sandbox.Cgroup.Removal.{drop_manager, cgroup_root, new}
use akiro.Sandbox.Cgroup.Removed.{Tried, cleanup-Tried}

-- Nothing here exits, panics or is replaced.
abbrev OnlyFails : {A : Type 0} → Answer CgroupError A × Log → Type 0
OnlyFails (done a, log) = Unit
OnlyFails (stopped (failed e), log) = Unit
OnlyFails (stopped (exits n), log) = ⊥
OnlyFails (stopped panicked, log) = ⊥
OnlyFails (stopped replaced, log) = ⊥

OnlyFails-go_on :
    {A B : Type 0} (k : Kernel) (f : A → Sys CgroupError B) (r : Answer CgroupError A × Log)
    → OnlyFails r
    → ((a : A) (log : Log) → OnlyFails (f a k log))
    → OnlyFails (go_on k f r)
OnlyFails-go_on k f (done a, log) h g = g a log
OnlyFails-go_on k f (stopped (failed e), log) h g = tt
OnlyFails-go_on k f (stopped (exits n), log) h g = elim h [ ]
OnlyFails-go_on k f (stopped panicked, log) h g = elim h [ ]
OnlyFails-go_on k f (stopped replaced, log) h g = elim h [ ]

OnlyFails-answered : (b : Bool) (e : CgroupError) (log : Log) → OnlyFails (answered b e, log)
OnlyFails-answered true e log = tt
OnlyFails-answered false e log = tt

abbrev Fallible : Cgroup → Type 0
Fallible m = (k : Kernel) (log : Log) → OnlyFails (m k log)

Fallible-then : (m n : Cgroup) → Fallible m → Fallible n → Fallible (m >> n)
Fallible-then m n h g k log = OnlyFails-go_on k (λ _. n) (m k log) (h k log) (λ _ l. g k l)

Fallible-must : (e : CgroupError) (c : Call) → Fallible (must e c)
Fallible-must e c k log = OnlyFails-answered (k.succeeds log c) e ((c, k.succeeds log c) ∷ log)

Fallible-may : (c : Call) → Fallible (may c)
Fallible-may c k log = tt

limit_pids-Fallible :
    (group : Text) (profile : ExecutionProfile) (pids : ℕ)
    → Fallible (limit_pids group profile pids)
unfolding limit_pids write_cgroup_file
limit_pids-Fallible group compile_phase pids k log = tt
limit_pids-Fallible group run_phase pids k log = Fallible-must _ _ k log

limit_cpu-Fallible : (group : Text) (percent : Option ℕ) → Fallible (limit_cpu group percent)
unfolding limit_cpu
limit_cpu-Fallible group none k log = tt
limit_cpu-Fallible group (some percent) k log = tt

make_group-Fallible : (group : Text) (config : SandboxConfig) → Fallible (make_group group config)
unfolding make_group write_cgroup_file
make_group-Fallible group config =
    Fallible-then (must (directory_creation_failed group) (mkdirs group)) _
      (Fallible-must (directory_creation_failed group) (mkdirs group)) (Fallible-must _ _)

create-Fallible : (group : Text) (config : SandboxConfig) → Fallible (create group config)
unfolding create
create-Fallible group config =
    let pids = limit_pids group config.profile config.pids_limit in
    let cap = limit_cpu group config.cpu_max_percent in
    let no_swap = setting group (codes "memory.swap.max") (codes "0") in
    let no_zswap = setting group (codes "memory.zswap.max") (codes "0") in
    Fallible-then (make_group group config) (may no_swap >> (may no_zswap >> (pids >> cap)))
      (make_group-Fallible group config)
      (Fallible-then (may no_swap) (may no_zswap >> (pids >> cap)) (Fallible-may no_swap) (
        Fallible-then (may no_zswap) (pids >> cap) (Fallible-may no_zswap) (
          Fallible-then pids cap (limit_pids-Fallible group config.profile config.pids_limit)
            (limit_cpu-Fallible group config.cpu_max_percent))))

-- A group that is made has its limits; of one that is not, the removal was tried, unless there is
-- nowhere to make it.
abbrev pub Leaves : Text → SandboxConfig → Answer CgroupError (Unit {0}) × Log → Type 0
Leaves group config (done v, log) =
    Seen (limit_settings group config) log × Offered group config log
Leaves group config (stopped (failed e), log) =
    (e ≡ not_available cgroup_root) ⊎ Tried (rmdir group) log
Leaves group config (stopped (exits n), log) = ⊥
Leaves group config (stopped panicked, log) = ⊥
Leaves group config (stopped replaced, log) = ⊥

drop_manager-Leaves :
    (group : Text) (config : SandboxConfig) (procs : Option Text) (busy : Bool) (k : Kernel)
    (r : Answer CgroupError (Unit {0}) × Log)
    → Keeps (λ _ l. Seen (limit_settings group config) l) r
    → Keeps (λ _ l. Offered group config l) r
    → OnlyFails r
    → Leaves group config (drop_manager group procs busy k r)
drop_manager-Leaves group config procs busy k (done v, log) h t o = (h, t)
drop_manager-Leaves group config procs busy k (stopped (failed e), log) h t o =
    inr (cleanup-Tried group procs busy k log)
drop_manager-Leaves group config procs busy k (stopped (exits n), log) h t o = elim o [ ]
drop_manager-Leaves group config procs busy k (stopped panicked, log) h t o = elim o [ ]
drop_manager-Leaves group config procs busy k (stopped replaced, log) h t o = elim o [ ]

-- Whatever the kernel refuses, a group is handed out only after its memory limit and, in the Run
-- profile, its process limit were written, and after the writes that turn swap and zswap off and
-- that cap the processor at its percentage of every 100 ms, 1 ms at least, were tried; when one of
-- these or the directory fails, the removal of the directory is tried before the error is returned;
-- and no other error is there but that the root of the groups can neither be found nor made, for
-- which nothing is tried. The percentage fits a u32.
pub new-Leaves :
    (uuid : Text) (config : SandboxConfig) (procs : Option Text) (busy : Bool) (k : Kernel)
    (log : Log)
    → CapFits config.cpu_max_percent
    → Leaves (join cgroup_root uuid) config (new uuid config procs busy k log)
unfolding new
new-Leaves uuid config procs busy k log cap =
    let group = join cgroup_root uuid in
    let made = λ (l : Log).
      drop_manager-Leaves group config procs busy k (create group config k l)
        (create-Keeps group config k l) (create-Offered group config k l cap)
        (create-Fallible group config k l) in
    elim (Bool-cases (k.exists log cgroup_root)) [
      | inl there ↦ rw there (made log)
      | inr missing ↦ elim (Bool-cases (k.succeeds log (mkdirs cgroup_root))) [
        | inl able ↦ rw (missing, able) (made _)
        | inr unable ↦ rw (missing, unable) (inl refl)
      ]
    ]
