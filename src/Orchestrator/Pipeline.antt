-- ===== src/Orchestrator/Pipeline.antt =====
-- src/orchestrator/pipeline.rs: a job from its source to its verdict.
--
-- The sandbox runs of the test cases end in an order that the environment chooses: `complete`
-- turns the futures of `run_tests` into the stream of their completions. A failing step carries
-- the text of its error. Handing the workspace to the sandbox user (`chown_tree`) changes nothing
-- that the model sees.
pub mod Workspace
pub mod Trim
pub mod Verdict
pub mod Runs
pub mod Collect
pub mod Order
pub mod Report
pub mod Spec
pub mod EarlyStop
pub mod CompileErrors
pub mod Confined
pub mod Examples
use akiro.Prelude.{
  ℕ, suc, ◌+◌, ◌-◌, ◌/◌, ◌≡◌, Bool, true, false, not, ◌&&◌, Option, none, some, List, [], ◌∷◌, ◌++◌,
  ltb, leb, ◌==◌, if◌then◌else◌, length, all, count_if, max, min,
}
use akiro.Prelude.Result.{Result, ok, err, ◌>>=◌}
use akiro.Prelude.Text.{Text, codes, text_eq, as_bytes, Lowercase}
use akiro.Prelude.Word.{add64, saturating_sub}
use akiro.Prelude.FilePath.{join}
use akiro.Languages.Language.{SupportedLanguage, from_str}
use akiro.Languages.Runner.{LanguageRunner}
use akiro.Languages.{get_runner}
use akiro.Sandbox.Config.{
  SandboxConfig, run_phase, compile_phase, with_profile, with_fs_isolation, with_workspace_dir,
  with_work_dir, with_network_isolation, with_pids_limit, with_cpu_max_percent, with_memory_limit,
}
use akiro.Sandbox.Result.{SandboxStatus, ExecutionResult}
use akiro.Orchestrator.Job.{
  TestCase, JobRequest, JudgeVerdict, accepted, wrong_answer, time_limit_exceeded,
  memory_limit_exceeded, runtime_error, compilation_error, is_accepted, ProgressEvent, compiling,
  test_result, finished, TestCaseResult, JobResult,
}
use akiro.Metrics.{Metrics, record_job}
use Verdict.{TestRun}
use Runs.{Env, compile_config}
use Collect.{Outcome, run_tests}

-- The state of a job before anything ran.
abbrev pub fresh_result : Text → JobResult
fresh_result job_id = record {
  job_id = job_id;
  verdict = accepted;
  total_cpu_time_ms = 0;
  peak_memory_kb = 0;
  compile_output = none;
  test_results = [];
}

abbrev failed : List ProgressEvent → Metrics → Text → Outcome
failed events m e = record { events = events; metrics = m; result = err e }

abbrev pub with_events : List ProgressEvent → Outcome → Outcome
with_events events o = record o { events = events ++ o.events }

-- `String::from_utf8_lossy`, as the environment decodes it.
abbrev compile_failed : Env → JobResult → Metrics → ExecutionResult → Outcome
compile_failed env result m r = record {
  events = compiling ∷ finished compilation_error ∷ [];
  metrics = m;
  result = ok (record result {
    verdict = compilation_error;
    compile_output = some (env.from_utf8_lossy r.stderr);
  });
}

abbrev pub status_ok : SandboxStatus → Bool
status_ok SandboxStatus.ok = true
status_ok SandboxStatus.time_limit_exceeded = false
status_ok SandboxStatus.memory_limit_exceeded = false
status_ok SandboxStatus.output_limit_exceeded = false
status_ok (SandboxStatus.runtime_error code) = false
status_ok (SandboxStatus.signaled sig) = false

-- What follows the compiler's run.
after_compile :
    Env
    → LanguageRunner
    → Text
    → JobRequest
    → JobResult
    → Metrics
    → Result Text ExecutionResult
    → Outcome
after_compile env runner dir request result m (err e) =
    failed (compiling ∷ []) m (codes "Sandbox error during compilation: " ++ e)
after_compile env runner dir request result m (ok r) =
    if status_ok r.status
    then with_events (compiling ∷ []) (
        run_tests env runner dir request
          (record result {
            total_cpu_time_ms = add64 result.total_cpu_time_ms r.cpu_time_ms;
            peak_memory_kb = max result.peak_memory_kb r.memory_kb;
          })
          m)
    else compile_failed env result m r

-- `if let Some(compile_config) = runner.get_compile_command(..)`.
compile_step :
    Env → LanguageRunner → Text → JobRequest → JobResult → Metrics → Option SandboxConfig → Outcome
unfolding after_compile
compile_step env runner dir request result m none =
    with_events (compiling ∷ []) (run_tests env runner dir request result m)
compile_step env runner dir request result m (some c) =
    after_compile env runner dir request result m (env.run_sandbox (compile_config env dir c))

-- Step 2, once the source is written.
written : Env → LanguageRunner → JobRequest → Metrics → Text → Result Text (Unit {0}) → Outcome
unfolding compile_step
written env runner request m dir (err e) = failed [] m (codes "Failed to write source: " ++ e)
written env runner request m dir (ok _) =
    if runner.is_compiled
    then compile_step env runner dir request (fresh_result request.job_id) m (
        runner.get_compile_command (join dir runner.get_source_filename)
          (join dir (codes "binary")))
    else run_tests env runner dir request (fresh_result request.job_id) m

-- Step 1, in the temporary directory.
in_directory : Env → LanguageRunner → JobRequest → Metrics → Result Text Text → Outcome
unfolding written
in_directory env runner request m (err e) =
    failed [] m (codes "Failed to create temp directory: " ++ e)
in_directory env runner request m (ok dir) =
    written env runner request m dir
      (env.write_source (join dir runner.get_source_filename) request.source_code)

execute_with : Env → JobRequest → Metrics → Option SupportedLanguage → Outcome
unfolding in_directory
execute_with env request m none = failed [] m (codes "Unsupported language: " ++ request.language)
execute_with env request m (some language) =
    in_directory env (get_runner language) request m env.temp_dir

unfoldable pub execute : Env → JobRequest → Metrics → Outcome
unfolding execute_with
execute env request m = execute_with env request m (from_str env.lowercase request.language)
