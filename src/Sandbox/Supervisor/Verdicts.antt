-- ===== src/Sandbox/Supervisor/Verdicts.antt =====
-- src/sandbox/supervisor.rs: which ends of a child count as a success.
use akiro.Prelude.{ℕ, ◌≡◌, Bool, true, false, ◌↔◌, ◌==◌, arith}
use akiro.Sandbox.Config.{SandboxConfig}
use akiro.Sandbox.Result.{SandboxStatus}
use akiro.Sandbox.Supervisor.{Libc, over_limit, sandbox_status}

pub record RanWell (libc : Libc) (config : SandboxConfig) (oom_killed : Bool) (status memory_kb : ℕ)
    : Type 0 where
  pub spared : oom_killed ≡ false
  pub exited : libc.wifexited status ≡ true
  pub with_zero : (libc.wexitstatus status == 0) ≡ true
  pub in_limit : over_limit config memory_kb ≡ false

module _ (libc : Libc) (config : SandboxConfig) (oom_killed : Bool)
    (status wall_time_ms cpu_time_ms memory_kb : ℕ) where
  -- The status is Ok exactly if the child was not killed for its memory, exited by itself, exited
  -- with zero, and its peak memory is within the limit, where there is one.
  pub sandbox_status-ok_iff :
      (sandbox_status libc config oom_killed status wall_time_ms cpu_time_ms memory_kb
        ≡ SandboxStatus.ok)
      ↔ RanWell libc config oom_killed status memory_kb
  unfolding sandbox_status
  sandbox_status-ok_iff = (
    (λ h. record {
      spared = ground arith;
      exited = ground arith;
      with_zero = ground arith;
      in_limit = ground arith;
    }),
    λ r. rw (r.spared, r.exited, r.with_zero, r.in_limit),
  )
