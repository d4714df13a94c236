-- ===== src/Orchestrator/Pipeline/Runs.antt =====
-- src/orchestrator/pipeline.rs: the sandbox runs of a job, one for each test case and one for the
-- compiler, and the world that answers them.
use mathlib.Core.List.{Permᴰ}
use akiro.Prelude.{map, ℕ, suc, true, false, Option, List, [], ◌∷◌, if◌then◌else◌, min}
use akiro.Prelude.Result.{Result}
use akiro.Prelude.Text.{Text, codes, as_bytes, Lowercase}
use akiro.Prelude.FilePath.{join}
use akiro.Languages.Runner.{LanguageRunner}
use akiro.Sandbox.Config.{
  SandboxConfig, run_phase, compile_phase, with_profile, with_fs_isolation, with_workspace_dir,
  with_work_dir, with_network_isolation, with_pids_limit, with_cpu_max_percent, with_memory_limit,
}
use akiro.Sandbox.Result.{ExecutionResult}
use akiro.Orchestrator.Job.{TestCase, JobRequest}
use akiro.Orchestrator.Pipeline.Verdict.{TestRun, Completion}

-- What the pipeline does not compute itself: the deployment's limits and the world.
pub record Env : Type 0 where
  pub lowercase : Lowercase
  pub compile_memory_bytes : ℕ
  pub compile_cpu_max_percent : Option ℕ
  pub run_cpu_max_percent : Option ℕ
  pub temp_dir : Result Text Text
  pub write_source : Text → Text → Result Text (Unit {0})
  pub run_sandbox : SandboxConfig → Result Text ExecutionResult
  pub from_utf8_lossy : List ℕ → Text
  pub complete : List TestRun → List Completion

-- The configuration of one test run, with everything that the pipeline forces on it.
unfoldable pub test_config :
    Option ℕ → LanguageRunner → Text → JobRequest → Text → TestCase → SandboxConfig
test_config cpu_max_percent runner work_dir request bin_path test_case =
    with_cpu_max_percent cpu_max_percent (
      with_pids_limit runner.max_pids (
        with_network_isolation true (
          with_work_dir (codes "/sandbox") (
            with_workspace_dir work_dir (
              with_fs_isolation true (
                with_profile run_phase (
                  runner.get_run_command bin_path (as_bytes test_case.input) request.time_limit_ms
                    request.memory_limit_bytes)))))))

abbrev pub sandbox_bin_path : LanguageRunner → Text
sandbox_bin_path runner =
    if runner.is_compiled
    then join (codes "/sandbox") (codes "binary")
    else join (codes "/sandbox") runner.get_source_filename

-- The loop that makes the futures; `i` is the index of the first test case.
unfoldable pub test_futs :
    Option ℕ → LanguageRunner → Text → JobRequest → ℕ → List TestCase → List TestRun
unfolding test_config
test_futs cpu_max_percent runner work_dir request i [] = []
test_futs cpu_max_percent runner work_dir request i (tc ∷ tcs) =
    record {
      idx = i;
      expected = tc.expected_output;
      time_limit_ms = request.time_limit_ms;
      memory_limit_bytes = request.memory_limit_bytes;
      run_config = test_config cpu_max_percent runner work_dir request (sandbox_bin_path runner) tc;
    }
    ∷ test_futs cpu_max_percent runner work_dir request (suc i) tcs

-- The compile phase's configuration, with everything that the pipeline forces on it.
unfoldable pub compile_config : Env → Text → SandboxConfig → SandboxConfig
compile_config env temp_dir c = with_work_dir temp_dir (
    with_memory_limit (min c.memory_limit_bytes env.compile_memory_bytes) (
      with_cpu_max_percent env.compile_cpu_max_percent (
        with_pids_limit 1024
          (with_network_isolation false (with_fs_isolation false (with_profile compile_phase c))))))

-- The stream of a job's test runs, in the order in which the environment completes them.
abbrev pub futs_of : Env → LanguageRunner → Text → JobRequest → List TestRun
futs_of env runner work_dir request =
    test_futs env.run_cpu_max_percent runner work_dir request 0 request.test_cases

-- What the pipeline relies on: each future completes once.
abbrev pub Completes : List Completion → List TestRun → Type 0
Completes cs futs = Permᴰ (map (λ c. c.test_run) cs) futs
