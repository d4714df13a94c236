-- ===== src/Orchestrator/Pipeline/Verdict.antt =====
-- src/orchestrator/pipeline.rs: the verdict on one test run.
pub mod Accepted
use akiro.Prelude.{ℕ, ◌/◌, Bool, ◌&&◌, Option, none, some, List, ltb, leb, if◌then◌else◌}
use akiro.Prelude.Result.{Result}
use akiro.Prelude.Text.{Text, text_eq, as_bytes}
use akiro.Sandbox.Config.{SandboxConfig}
use akiro.Sandbox.Result.{SandboxStatus, ExecutionResult}
use akiro.Orchestrator.Job.{
  JudgeVerdict, accepted, wrong_answer, time_limit_exceeded, memory_limit_exceeded, runtime_error,
}
use akiro.Orchestrator.Pipeline.Trim.{trim_bytes}

-- What a future of `run_tests` captures.
pub record TestRun : Type 0 where
  pub idx : ℕ
  pub expected : Option Text
  pub time_limit_ms : ℕ
  pub memory_limit_bytes : ℕ
  pub run_config : SandboxConfig

pub record Completion : Type 0 where
  pub test_run : TestRun
  pub exec_res : Result Text ExecutionResult

-- `memory_limit_kb > 0 && memory_kb > memory_limit_kb`.
abbrev pub over_memory : ℕ → ℕ → Bool
over_memory memory_limit_bytes memory_kb =
    let memory_limit_kb = memory_limit_bytes / 1024 in
    ltb 0 memory_limit_kb && ltb memory_limit_kb memory_kb

abbrev pub compare_output : Option Text → List ℕ → JudgeVerdict
compare_output none stdout = accepted
compare_output (some expected) stdout =
    if text_eq (trim_bytes stdout) (trim_bytes (as_bytes expected)) then accepted else wrong_answer

abbrev pub failure_verdict : TestRun → ExecutionResult → JudgeVerdict
failure_verdict t r =
    if over_memory t.memory_limit_bytes r.memory_kb
    then memory_limit_exceeded
    else if leb t.time_limit_ms r.cpu_time_ms
    then time_limit_exceeded
    else runtime_error

abbrev pub verdict_by_status : SandboxStatus → TestRun → ExecutionResult → JudgeVerdict
verdict_by_status SandboxStatus.ok t r =
    if over_memory t.memory_limit_bytes r.memory_kb
    then memory_limit_exceeded
    else compare_output t.expected r.stdout
verdict_by_status SandboxStatus.time_limit_exceeded t r = time_limit_exceeded
verdict_by_status SandboxStatus.memory_limit_exceeded t r = memory_limit_exceeded
verdict_by_status SandboxStatus.output_limit_exceeded t r = failure_verdict t r
verdict_by_status (SandboxStatus.runtime_error code) t r = failure_verdict t r
verdict_by_status (SandboxStatus.signaled sig) t r = failure_verdict t r

unfoldable pub test_verdict : TestRun → ExecutionResult → JudgeVerdict
test_verdict t r = verdict_by_status r.status t r
