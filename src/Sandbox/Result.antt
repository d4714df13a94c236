-- ===== src/Sandbox/Result.antt =====
-- src/sandbox/result.rs: how a sandboxed process ended, and what was measured of it.
use akiro.Prelude.Int.{ℤ}
use akiro.Prelude.{ℕ, List, []}

pub data SandboxStatus : Type 0 where
  ok time_limit_exceeded memory_limit_exceeded output_limit_exceeded : SandboxStatus
  runtime_error signaled : ℤ → SandboxStatus

pub record ExecutionResult : Type 0 where
  pub status : SandboxStatus
  pub exit_code : ℤ
  pub cpu_time_ms : ℕ
  pub wall_time_ms : ℕ
  pub memory_kb : ℕ
  pub stdout : List ℕ
  pub stderr : List ℕ

unfoldable pub new : SandboxStatus → ℤ → ExecutionResult
new status exit_code = record {
  status = status;
  exit_code = exit_code;
  cpu_time_ms = 0;
  wall_time_ms = 0;
  memory_kb = 0;
  stdout = [];
  stderr = [];
}

unfoldable pub with_cpu_time : ℕ → ExecutionResult → ExecutionResult
with_cpu_time ms r = record r { cpu_time_ms = ms }

unfoldable pub with_wall_time : ℕ → ExecutionResult → ExecutionResult
with_wall_time ms r = record r { wall_time_ms = ms }

unfoldable pub with_memory : ℕ → ExecutionResult → ExecutionResult
with_memory kb r = record r { memory_kb = kb }

unfoldable pub with_stdout : List ℕ → ExecutionResult → ExecutionResult
with_stdout bytes r = record r { stdout = bytes }

unfoldable pub with_stderr : List ℕ → ExecutionResult → ExecutionResult
with_stderr bytes r = record r { stderr = bytes }
