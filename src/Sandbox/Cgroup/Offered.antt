-- ===== src/Sandbox/Cgroup/Offered.antt =====
-- src/sandbox/cgroups.rs: the settings that are written whether or not the kernel takes them.
use akiro.Prelude.{
  Bool-cases, inl, inr, ℕ, ◌*◌, ◌≤◌, ◌≡◌, ap, subst, max, Option, none, some, [], ◌∷◌, ◌++◌, arith,
}
use akiro.Prelude.Text.{Text, codes}
use akiro.Prelude.Word.{u32_max}
use akiro.Prelude.Decimal.{decimal}
use akiro.Sandbox.Config.{SandboxConfig, ExecutionProfile, compile_phase, run_phase}
use akiro.Sandbox.Kernel.{Log, Kernel, ◌>>◌, may}
use akiro.Sandbox.Kernel.Logic.{Seen, Keeps, Keeps-go_on, Keeps-weaken}
use akiro.Sandbox.Cgroup.{
  CgroupError, write_cgroup_file, setting, limit_pids, quota_us, cpu_max, limit_cpu, make_group,
  create,
}
use akiro.Sandbox.Cgroup.Limits.{Adds-make_group}
use akiro.Sandbox.Cgroup.Removed.{Tried}

abbrev pub CapFits : Option ℕ → Type 0
CapFits none = Unit
CapFits (some percent) = percent ≤ u32_max

-- A percentage of one processor, of each 100 ms and in microseconds, but 1 ms at least.
abbrev pub cap_text : ℕ → Text
cap_text percent = decimal (max (percent * 1000) 1000) ++ codes " " ++ decimal 100000

abbrev pub CapTried : Text → Option ℕ → Log → Type 0
CapTried group none log = Unit
CapTried group (some percent) log = Tried (setting group (codes "cpu.max") (cap_text percent)) log

abbrev pub Unswapped : Text → Log → Type 0
Unswapped group log =
    Tried (setting group (codes "memory.swap.max") (codes "0")) log
    × Tried (setting group (codes "memory.zswap.max") (codes "0")) log

abbrev pub Offered : Text → SandboxConfig → Log → Type 0
Offered group config log = Unswapped group log × CapTried group config.cpu_max_percent log

quota_lem : (percent : ℕ) → percent ≤ u32_max → quota_us percent ≡ max (percent * 1000) 1000
quota_lem percent h = omega arith

limit_pids-Unswapped :
    (group : Text) (profile : ExecutionProfile) (pids : ℕ) (k : Kernel) (log : Log)
    → Unswapped group log
    → Keeps {E = CgroupError} (λ _ l. Unswapped group l) (limit_pids group profile pids k log)
unfolding limit_pids write_cgroup_file
limit_pids-Unswapped group compile_phase pids k log t = t
limit_pids-Unswapped group run_phase pids k log (a, b) =
    let call = setting group (codes "pids.max") (decimal pids) in
    elim (Bool-cases (k.succeeds log call)) [
      | inl able ↦ rw able (Tried.before a, Tried.before b)
      | inr unable ↦ rw unable tt
    ]

limit_cpu-Offered :
    (group : Text) (percent : Option ℕ) (k : Kernel) (log : Log)
    → CapFits percent
    → Unswapped group log
    → Keeps {E = CgroupError}
        (λ _ l. Unswapped group l × CapTried group percent l)
        (limit_cpu group percent k log)
unfolding limit_cpu
limit_cpu-Offered group none k log h t = (t, tt)
limit_cpu-Offered group (some percent) k log h (a, b) =
    let written =
      ap (λ n. setting group (codes "cpu.max") (decimal n ++ codes " " ++ decimal 100000))
        (quota_lem percent h) in
    let call = setting group (codes "cpu.max") (cpu_max percent) in
    let after : Log = (call, k.succeeds log call) ∷ log in
    ((Tried.before a, Tried.before b), subst (λ c. Tried c after) written Tried.last)

pub create-Offered :
    (group : Text) (config : SandboxConfig) (k : Kernel) (log : Log)
    → CapFits config.cpu_max_percent
    → Keeps (λ _ l. Offered group config l) (create group config k log)
unfolding create
create-Offered group config k log h =
    let pids = limit_pids group config.profile config.pids_limit in
    let cap = limit_cpu group config.cpu_max_percent in
    let no_swap = may (setting group (codes "memory.swap.max") (codes "0")) in
    let no_zswap = may (setting group (codes "memory.zswap.max") (codes "0")) in
    Keeps-go_on k (λ _. no_swap >> (no_zswap >> (pids >> cap))) (λ _ _. Unit {0})
      (λ _ l. Offered group config l) (make_group group config k log)
      (Keeps-weaken _ (λ _ _. Unit {0}) (make_group group config k log)
        (Adds-make_group group config k [] log Seen.start) (λ _ _ _. tt))
      (λ _ l _.
        let swapped : Log =
          (
            setting group (codes "memory.swap.max") (codes "0"),
            k.succeeds l (setting group (codes "memory.swap.max") (codes "0")),
          )
          ∷ l in
        let both : Log =
          (
            setting group (codes "memory.zswap.max") (codes "0"),
            k.succeeds swapped (setting group (codes "memory.zswap.max") (codes "0")),
          )
          ∷ swapped in
        Keeps-go_on k (λ _. cap) (λ _ l'. Unswapped group l') (λ _ l'. Offered group config l')
          (pids k both)
          (limit_pids-Unswapped group config.profile config.pids_limit k both
            (Tried.before Tried.last, Tried.last))
          (λ _ l' t. limit_cpu-Offered group config.cpu_max_percent k l' h t))
