-- ===== src/Sandbox/Cgroup/Examples.antt =====
-- src/sandbox/cgroups.rs: the theorems with a kernel that has no swap to limit.
use akiro.Prelude.{
  ◌≡◌, refl, Bool, true, false, Option, none, some, List, [], ◌∷◌, All, if◌then◌else◌, arith,
}
use akiro.Prelude.Text.{Text, codes, text_eq}
use akiro.Prelude.Decimal.{decimal}
use akiro.Prelude.FilePath.{join}
use akiro.Prelude.Pieces.Fields.{Field, print_fields, is_word_sound}
use akiro.Sandbox.Config.{SandboxConfig}
use akiro.Sandbox.Config
use akiro.Sandbox.Kernel.{Call, Log, Kernel, Answer, done}
use akiro.Sandbox.Cgroup.{CgroupError}
use akiro.Sandbox.Cgroup.Stats.{read_stats}
use akiro.Sandbox.Cgroup.Printed.{printed, Counts, read_stats-printed}
use akiro.Sandbox.Cgroup.Removal.{cgroup_root, new, kill_listed, kill_all, cleanup}
use akiro.Sandbox.Cgroup.Removed.{print_pids, Removed, cleanup-Removed}
use akiro.Sandbox.Cgroup.Made.{Leaves, new-Leaves}

abbrev config : SandboxConfig
config = Config.run (codes "/sandbox/a") (codes "/tmp/j") 1500 1000000 64

abbrev group : Text
group = codes "/cg/1"

abbrev no_swap : Call → Bool
no_swap (Call.write_file path value) =
    if text_eq path (codes "/cg/1/memory.swap.max") then false else true
no_swap _ = true

abbrev kernel : Kernel
kernel = record {
  succeeds = λ _ c. no_swap c;
  exists = λ _ path. true;
  is_dir = λ _ path. true;
  getuid = λ _. 0;
  geteuid = λ _. 0;
}

-- The process limit cannot be written either.
abbrev no_pids : Call → Bool
no_pids (Call.write_file path value) =
    if text_eq path (codes "/sys/fs/cgroup/judge/a/pids.max") then false else true
no_pids _ = true

new-Leaves_example :
    Leaves
      (join cgroup_root (codes "a"))
      config
      (new (codes "a") config none false (record kernel { succeeds = λ _ c. no_pids c }) [])
unfolding Config.run
new-Leaves_example =
    new-Leaves (codes "a") config none false (record kernel { succeeds = λ _ c. no_pids c }) []
      (omega arith)

abbrev removed : Answer CgroupError (Unit {0}) × Log
removed = cleanup group (some (print_pids (812 ∷ 813 ∷ []))) true kernel []

is_removed : removed ≡ (done tt, removed.1)
unfolding cleanup kill_all kill_listed decimal
is_removed = refl

cleanup-Removed_example : Removed group (812 ∷ 813 ∷ []) removed.1
cleanup-Removed_example =
    cleanup-Removed group (812 ∷ 813 ∷ []) true kernel [] removed.1 (omega arith) is_removed

abbrev times : List Field
times = record { key = codes "usage_usec"; value = 51200 } ∷ []

abbrev events : List Field
events =
    record { key = codes "oom"; value = 4 }
    ∷ record { key = codes "oom_kill"; value = 1 }
    ∷ record { key = codes "oom_group_kill"; value = 9 }
    ∷ []

-- A kernel without memory.peak.
abbrev files : Text → Option Text
files path =
    if text_eq path (codes "/cg/1/memory.current")
    then printed (some 4096)
    else if text_eq path (codes "/cg/1/memory.peak")
    then none
    else if text_eq path (codes "/cg/1/cpu.stat")
    then some (print_fields times)
    else some (print_fields events)

times-Counts : All Counts times
times-Counts = (((is_word_sound (codes "usage_usec") refl, λ e. cc), omega arith), tt)

events-Counts : All Counts events
events-Counts = (
  ((is_word_sound (codes "oom") refl, λ e. cc), omega arith),
  (
    ((is_word_sound (codes "oom_kill") refl, λ e. cc), omega arith),
    (((is_word_sound (codes "oom_group_kill") refl, λ e. cc), omega arith), tt),
  ),
)

read_stats-printed_example : read_stats files group ≡ record {
  memory_current_bytes = 4096;
  memory_peak_bytes = 4096;
  cpu_usage_usec = 51200;
  oom_kill_count = 1;
}
read_stats-printed_example =
    read_stats-printed files group (some 4096) none (some times) (some events) refl refl refl refl
      (omega arith) tt times-Counts events-Counts
