-- ===== src/Sandbox/Cgroup.antt =====
-- src/sandbox/cgroups.rs: the limits of a control group, written before a child is attached to it.
-- An error carries the path that its message names.
pub mod Limits
pub mod Stats
pub mod Printed
pub mod Removal
pub mod Removed
pub mod Offered
pub mod Made
pub mod Examples
use akiro.Prelude.{ℕ, ◌*◌, ◌/◌, max, Bool, true, false, Option, none, some, List, [], ◌∷◌, ◌++◌}
use akiro.Prelude.Text.{Text, codes}
use akiro.Prelude.Decimal.{decimal}
use akiro.Prelude.FilePath.{join}
use akiro.Prelude.Word.{saturating_mul}
use akiro.Sandbox.Config.{SandboxConfig, ExecutionProfile, compile_phase, run_phase}
use akiro.Sandbox.Kernel.{Call, Sys, pure, ◌>>=◌, ◌>>◌, may, must}
use akiro.Sandbox.Kernel.Call.{mkdirs, write_file}

pub data CgroupError : Type 0 where
  directory_creation_failed setting_write_failed not_available cleanup_failed : Text → CgroupError

abbrev pub Cgroup : Type 0
Cgroup = Sys CgroupError (Unit {0})

unfoldable pub write_cgroup_file : Text → Text → Cgroup
write_cgroup_file path value = must (setting_write_failed path) (write_file path value)

abbrev pub setting : Text → Text → Text → Call
setting group name value = write_file (join group name) value

unfoldable pub limit_pids : Text → ExecutionProfile → ℕ → Cgroup
unfolding write_cgroup_file
limit_pids group compile_phase pids_limit = pure tt
limit_pids group run_phase pids_limit =
    write_cgroup_file (join group (codes "pids.max")) (decimal pids_limit)

abbrev pub period_us : ℕ
period_us = 100000

abbrev pub quota_us : ℕ → ℕ
quota_us percent = max (saturating_mul percent period_us / 100) 1000

abbrev pub cpu_max : ℕ → Text
cpu_max percent = decimal (quota_us percent) ++ codes " " ++ decimal period_us

-- The result is only logged.
unfoldable pub limit_cpu : Text → Option ℕ → Cgroup
limit_cpu group none = pure tt
limit_cpu group (some percent) = may (setting group (codes "cpu.max") (cpu_max percent))

-- The directory and its memory limit.
unfoldable pub make_group : Text → SandboxConfig → Cgroup
unfolding write_cgroup_file
make_group group config = do
  must (directory_creation_failed group) (mkdirs group)
  write_cgroup_file (join group (codes "memory.max")) (decimal config.memory_limit_bytes)

-- `CgroupManager::create`.
unfoldable pub create : Text → SandboxConfig → Cgroup
unfolding make_group limit_pids limit_cpu
create group config = do
  make_group group config
  may (setting group (codes "memory.swap.max") (codes "0"))
  may (setting group (codes "memory.zswap.max") (codes "0"))
  limit_pids group config.profile config.pids_limit
  limit_cpu group config.cpu_max_percent

unfoldable pub attach_proc : Text → ℕ → Cgroup
unfolding write_cgroup_file
attach_proc group pid = write_cgroup_file (join group (codes "cgroup.procs")) (decimal pid)
