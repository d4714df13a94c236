-- ===== src/Orchestrator/Pipeline/Spec.antt =====
-- src/orchestrator/pipeline.rs: `run_tests` against a plain description of a job's report.
use mathlib.Core.List.{Permᴰ}
use mathlib.Core.List.Permᴰ
use akiro.Prelude.{
  ℕ, suc, ◌≡◌, ◌≢◌, refl, ap, ◌∙◌, true, false, Option, some, List, [], ◌∷◌, map, All, arith,
}
use akiro.Prelude.Result.{ok}
use akiro.Prelude.Text.{Text, Lowercase}
use akiro.Sandbox.Result.{ExecutionResult}
use akiro.Languages.Runner.{LanguageRunner}
use akiro.Metrics.{Metrics}
use akiro.Orchestrator.Job.{
  JobRequest, JobResult, accepted, TestCase, TestCaseResult, ProgressEvent,
}
use akiro.Orchestrator.Pipeline.Verdict.{TestRun, Completion}
use akiro.Orchestrator.Pipeline.Runs.{Env, test_futs, futs_of}
use akiro.Orchestrator.Pipeline.Collect.{
  RawResult, raw_of, drain, insert_by_idx, sort_by_idx, test_case_result, conclude, run_tests,
}
use akiro.Orchestrator.Pipeline.Order.{
  no_stop, Succeeded, Distinct, Distinct-perm, key_of, raws, sort-perm, drain-raws, All-perm,
  test_futs-Distinct,
}
use akiro.Orchestrator.Pipeline.Report.{Reports, accumulate_all-Reports}

-- The completion of a test run whose process ends as `run` says.
abbrev pub completed : (TestRun → ExecutionResult) → TestRun → Completion
completed run t = record { test_run = t; exec_res = ok (run t) }

-- The report on a test run.
abbrev pub report : (TestRun → ExecutionResult) → TestRun → TestCaseResult
report run t = test_case_result (raw_of t (run t))

raws-completed :
    (run : TestRun → ExecutionResult) (ts : List TestRun)
    → raws (map (completed run) ts) ≡ map (λ t. raw_of t (run t)) ts
unfolding raws
raws-completed run [] = refl
raws-completed run (t ∷ ts) = ap (λ l. raw_of t (run t) ∷ l) (raws-completed run ts)

map-raw_of :
    (run : TestRun → ExecutionResult) (ts : List TestRun)
    → map test_case_result (map (λ t. raw_of t (run t)) ts) ≡ map (report run) ts
map-raw_of run [] = refl
map-raw_of run (t ∷ ts) = ap (λ l. report run t ∷ l) (map-raw_of run ts)

completed-Succeeded :
    (run : TestRun → ExecutionResult) (ts : List TestRun) → All Succeeded (map (completed run) ts)
completed-Succeeded run [] = tt
completed-Succeeded run (t ∷ ts) = ((run t, refl), completed-Succeeded run ts)

All-completed :
    (run : TestRun → ExecutionResult) (k : ℕ) (ts : List TestRun)
    → All (λ (t : TestRun). k ≢ t.idx) ts
    → All (λ c. k ≢ key_of c) (map (completed run) ts)
All-completed run k [] h = tt
All-completed run k (t ∷ ts) (h, hs) = (h, All-completed run k ts hs)

completed-Distinct :
    (run : TestRun → ExecutionResult) (ts : List TestRun)
    → Distinct (λ (t : TestRun). t.idx) ts
    → Distinct key_of (map (completed run) ts)
completed-Distinct run [] h = tt
completed-Distinct run (t ∷ ts) (h, hs) =
    (All-completed run t.idx ts h, completed-Distinct run ts hs)

module _ (run : TestRun → ExecutionResult) (cpu : Option ℕ) (runner : LanguageRunner) (dir : Text)
    (request : JobRequest) where
  insert_first :
      (i : ℕ) (tcs : List TestCase) (r : RawResult)
      → r.idx ≡ i
      → let later = map (λ t. raw_of t (run t)) (test_futs cpu runner dir request (suc i) tcs) in
        insert_by_idx r later ≡ r ∷ later
  unfolding insert_by_idx test_futs
  insert_first i [] r e = refl
  insert_first i (tc ∷ tcs) r e = ground arith

  -- The futures stand in the order of their indices.
  sort-test_futs :
      (i : ℕ) (tcs : List TestCase)
      → let rs = map (λ t. raw_of t (run t)) (test_futs cpu runner dir request i tcs) in
        sort_by_idx rs ≡ rs
  unfolding sort_by_idx test_futs
  sort-test_futs i [] = refl
  sort-test_futs i (tc ∷ tcs) = rw (sort-test_futs (suc i) tcs) (insert_first i tcs _ refl)

pub conclude-Reports :
    (l : Lowercase) (request : JobRequest) (result : JobResult) (m : Metrics)
    (events : List ProgressEvent) (raw : List RawResult)
    → result.verdict ≡ accepted
    → result.test_results ≡ []
    → (final : JobResult) × ((conclude l request result m events (ok raw)).result ≡ ok final)
      × Reports result (map test_case_result (sort_by_idx raw)) final
unfolding conclude
conclude-Reports l request result m events raw h e =
    (_, refl, accumulate_all-Reports result (sort_by_idx raw) h e)

-- With no early stop, every test run completing once, in whatever order, and no sandbox error, the
-- result keeps the job's id and lists one report for each test case, in the order of the request,
-- each with its own verdict; the job's verdict is that of the first test case that did not pass,
-- or Accepted; the peak memory is the largest of the results and of the state before, and the CPU
-- time is the sum, modulo 2 ^ 64.
pub run_tests_lem :
    (run : TestRun → ExecutionResult) (env : Env) (runner : LanguageRunner) (dir : Text)
    (request : JobRequest) (result : JobResult) (m : Metrics)
    → request.stop_on_first_fail ≢ some true
    → Permᴰ
        (env.complete (futs_of env runner dir request))
        (map (completed run) (futs_of env runner dir request))
    → result.verdict ≡ accepted
    → result.test_results ≡ []
    → (final : JobResult) × ((run_tests env runner dir request result m).result ≡ ok final)
      × Reports result (map (report run) (futs_of env runner dir request)) final
unfolding run_tests
run_tests_lem run env runner dir request result m go p h e =
    rw (no_stop request.stop_on_first_fail go, drain-raws cs good)
      (let (final, done, said) =
          conclude-Reports env.lowercase request result m (drain false cs).events (raws cs) h e in
        (final, done, rw (← in_order) said))
  where
    futs : List TestRun
    futs = futs_of env runner dir request

    cs : List Completion
    cs = env.complete futs

    good : All Succeeded cs
    good = All-perm Succeeded (Permᴰ.symm p) (completed-Succeeded run futs)

    distinct : Distinct key_of cs
    distinct =
        Distinct-perm key_of (Permᴰ.symm p)
          (completed-Distinct run futs (test_futs-Distinct _ runner dir request 0 _))

    sorted : sort_by_idx (raws cs) ≡ map (λ t. raw_of t (run t)) futs
    sorted =
        sort-perm p distinct
        ∙ (ap sort_by_idx (raws-completed run futs)
            ∙ sort-test_futs run env.run_cpu_max_percent runner dir request 0 request.test_cases)

    in_order : map test_case_result (sort_by_idx (raws cs)) ≡ map (report run) futs
    in_order = ap (map test_case_result) sorted ∙ map-raw_of run futs
