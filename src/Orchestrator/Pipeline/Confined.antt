-- ===== src/Orchestrator/Pipeline/Confined.antt =====
-- src/orchestrator/pipeline.rs: what the pipeline forces on the sandbox of every test run.
use akiro.Prelude.{ℕ, suc, ◌≡◌, refl, Option, some, List, [], ◌∷◌}
use akiro.Prelude.Text.{Text, codes, as_bytes}
use akiro.Languages.Language.{SupportedLanguage}
use akiro.Languages.{get_runner}
use akiro.Languages.Commands.{RunsWithin, get_run_command-RunsWithin}
use akiro.Sandbox.Config.{
  with_profile, with_fs_isolation, with_workspace_dir, with_work_dir, with_network_isolation,
  with_pids_limit, with_cpu_max_percent, positive,
}
use akiro.Orchestrator.Job.{TestCase, JobRequest}
use akiro.Orchestrator.Pipeline.Verdict.{TestRun}
use akiro.Orchestrator.Pipeline.Runs.{Env, test_config, sandbox_bin_path, test_futs, futs_of}

-- The sandbox that the test case `tc` of `request` is to run in.
pub record Confined (cpu : Option ℕ) (pids : ℕ) (dir : Text) (request : JobRequest) (tc : TestCase)
    (t : TestRun) : Type 0 where
  pub within :
      RunsWithin t.run_config (as_bytes tc.input) request.time_limit_ms request.memory_limit_bytes
  pub in_workspace : t.run_config.workspace_dir ≡ some dir
  pub at_root : t.run_config.work_dir ≡ some (codes "/sandbox")
  pub few_pids : t.run_config.pids_limit ≡ pids
  pub capped : t.run_config.cpu_max_percent ≡ positive cpu
  pub expects : t.expected ≡ tc.expected_output
  pub judged_by_time : t.time_limit_ms ≡ request.time_limit_ms
  pub judged_by_memory : t.memory_limit_bytes ≡ request.memory_limit_bytes

-- One item of the one list for each of the other, in the same order, with indices from `i`.
abbrev pub Matched : (TestCase → TestRun → Type 0) → ℕ → List TestCase → List TestRun → Type 0
Matched R i [] [] = Unit
Matched R i [] (t ∷ ts) = ⊥
Matched R i (tc ∷ tcs) [] = ⊥
Matched R i (tc ∷ tcs) (t ∷ ts) = (t.idx ≡ i) × R tc t × Matched R (suc i) tcs ts

module _ (cpu : Option ℕ) (lang : SupportedLanguage) (dir : Text) (request : JobRequest) where
  test_config-RunsWithin :
      (bin : Text) (tc : TestCase)
      → RunsWithin
          (test_config cpu (get_runner lang) dir request bin tc)
          (as_bytes tc.input)
          request.time_limit_ms
          request.memory_limit_bytes
  unfolding test_config with_profile with_fs_isolation with_workspace_dir with_work_dir
      with_network_isolation with_pids_limit with_cpu_max_percent
  test_config-RunsWithin bin tc =
      let r =
        get_run_command-RunsWithin lang bin (as_bytes tc.input) request.time_limit_ms
          request.memory_limit_bytes in
      record {
        fed = r.fed;
        timed = r.timed;
        wall = r.wall;
        limited = r.limited;
        output = r.output;
        untrusted = refl;
        offline = refl;
        jailed = refl;
      }

  test_futs-Matched :
      (i : ℕ) (tcs : List TestCase)
      → Matched
          (Confined cpu (get_runner lang).max_pids dir request)
          i
          tcs
          (test_futs cpu (get_runner lang) dir request i tcs)
  unfolding test_futs test_config with_profile with_fs_isolation with_workspace_dir with_work_dir
      with_network_isolation with_pids_limit with_cpu_max_percent
  test_futs-Matched i [] = tt
  test_futs-Matched i (tc ∷ tcs) = (
    refl,
    record {
      within = test_config-RunsWithin (sandbox_bin_path (get_runner lang)) tc;
      in_workspace = refl;
      at_root = refl;
      few_pids = refl;
      capped = refl;
      expects = refl;
      judged_by_time = refl;
      judged_by_memory = refl;
    },
    test_futs-Matched (suc i) tcs,
  )

-- Whatever the language, a job has one test run for each test case, in order and numbered from 0,
-- and each runs with the input and the limits of the request, in the profile for untrusted code,
-- without network, jailed in the job's workspace, with the language's bound on processes and the
-- deployment's cap on CPU, where it is positive.
pub futs_of-Confined :
    (env : Env) (lang : SupportedLanguage) (dir : Text) (request : JobRequest)
    → Matched
        (Confined env.run_cpu_max_percent (get_runner lang).max_pids dir request)
        0
        request.test_cases
        (futs_of env (get_runner lang) dir request)
futs_of-Confined env lang dir request =
    test_futs-Matched env.run_cpu_max_percent lang dir request 0 request.test_cases
