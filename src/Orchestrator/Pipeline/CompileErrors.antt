-- ===== src/Orchestrator/Pipeline/CompileErrors.antt =====
-- src/orchestrator/pipeline.rs and src/metrics.rs: which jobs the counters see.
use akiro.Prelude.{
  ℕ, ◌≡◌, ◌≢◌, refl, sym, ◌∙◌, Bool, Option, none, some, List, [], ◌∷◌, map, leb, if_both, not,
  ◌&&◌, Bool-cases, inl, inr, All, arith,
}
use akiro.Prelude.Result.{Result, ok, err}
use akiro.Prelude.Text.{Text, Lowercase}
use akiro.Metrics.{Metrics, count_verdict, count_language, record_job}
use akiro.Sandbox.Result.{ExecutionResult}
use akiro.Orchestrator.Job.{
  JobRequest, JobResult, ProgressEvent, JudgeVerdict, accepted, compilation_error, is_accepted,
}
use akiro.Languages.Runner.{LanguageRunner}
use akiro.Languages.Language.{SupportedLanguage}
use akiro.Languages.{get_runner}
use akiro.Sandbox.Config.{SandboxConfig}
use akiro.Orchestrator.Pipeline.Runs.{Env, futs_of}
use akiro.Orchestrator.Pipeline.Collect.{
  stop_on_fail_of, RawResult, Drained, drain_one, raw_of, cons_raw, test_case_result, drain,
  sort_by_idx, insert_by_idx, Outcome, conclude, run_tests,
}
use akiro.Orchestrator.Pipeline.Report.{first_failure, accumulate_all-Reports}
use akiro.Orchestrator.Pipeline.{
  fresh_result, status_ok, after_compile, compile_step, written, in_directory, execute_with,
  execute,
}
use akiro.Orchestrator.Pipeline.Verdict.{TestRun, Completion, test_verdict}

count_language_errors :
    (s : Text) (m : Metrics) → (count_language s m).jobs_compile_error ≡ m.jobs_compile_error
unfolding count_language
count_language_errors s m = ground arith

test_verdict-ne-compilation_error :
    (t : TestRun) (r : ExecutionResult) → test_verdict t r ≢ compilation_error
unfolding test_verdict
test_verdict-ne-compilation_error t r = ground arith

abbrev NotCompile : RawResult → Type 0
NotCompile r = r.verdict ≢ compilation_error

abbrev AllNotCompile : Result Text (List RawResult) → Type 0
AllNotCompile (ok rs) = All NotCompile rs
AllNotCompile (err e) = Unit {0}

cons_raw-NotCompile :
    (r : RawResult) (rs : Result Text (List RawResult))
    → NotCompile r
    → AllNotCompile rs
    → AllNotCompile (cons_raw r rs)
cons_raw-NotCompile r (ok rs) h hs = (h, hs)
cons_raw-NotCompile r (err e) h hs = tt

drain_one-NotCompile :
    (stop : Bool) (t : TestRun) (o : Result Text ExecutionResult) (rest : Drained)
    → AllNotCompile rest.raw_results
    → AllNotCompile (drain_one stop t o rest).raw_results
unfolding drain_one
drain_one-NotCompile stop t (err e) rest h = tt
drain_one-NotCompile stop t (ok r) rest h =
    cons_raw-NotCompile (raw_of t r) _ (test_verdict-ne-compilation_error t r) (
      if_both (λ (d : Drained). AllNotCompile d.raw_results)
        (stop && not (is_accepted (test_verdict t r)))
        {x = record { events = []; raw_results = ok [] }} tt h)

drain-NotCompile : (stop : Bool) (cs : List Completion) → AllNotCompile (drain stop cs).raw_results
unfolding drain
drain-NotCompile stop [] = tt
drain-NotCompile stop (c ∷ cs) =
    drain_one-NotCompile stop c.test_run c.exec_res _ (drain-NotCompile stop cs)

insert_by_idx-NotCompile :
    (r : RawResult) (rs : List RawResult)
    → NotCompile r
    → All NotCompile rs
    → All NotCompile (insert_by_idx r rs)
unfolding insert_by_idx
insert_by_idx-NotCompile r [] h hs = (h, hs)
insert_by_idx-NotCompile r (x ∷ rs) h (k, hs) = elim (Bool-cases (leb r.idx x.idx)) [
  | inl before ↦ rw before (h, (k, hs))
  | inr after ↦ rw after (k, insert_by_idx-NotCompile r rs h hs)
]

sort_by_idx-NotCompile : (rs : List RawResult) → All NotCompile rs → All NotCompile (sort_by_idx rs)
unfolding sort_by_idx
sort_by_idx-NotCompile [] h = h
sort_by_idx-NotCompile (r ∷ rs) (h, hs) =
    insert_by_idx-NotCompile r _ h (sort_by_idx-NotCompile rs hs)

-- Every verdict of the results is another one, then so is that of the first failure.
first_failure-NotCompile :
    (rs : List RawResult)
    → All NotCompile rs
    → first_failure (map test_case_result rs) ≢ compilation_error
first_failure-NotCompile [] h = λ e. cc
first_failure-NotCompile (r ∷ rs) (h, hs) = ground (arith, first_failure-NotCompile rs hs)

count_verdict_errors :
    (v : JudgeVerdict) (m : Metrics)
    → v ≢ compilation_error
    → (count_verdict v m).jobs_compile_error ≡ m.jobs_compile_error
unfolding count_verdict
count_verdict_errors JudgeVerdict.accepted m h = refl
count_verdict_errors JudgeVerdict.compilation_error m h = absurd (h refl)
count_verdict_errors _ m h = refl

record_job_errors :
    (l : Lowercase) (language : Text) (v : JudgeVerdict) (cpu passed failed : ℕ) (m : Metrics)
    → v ≢ compilation_error
    → (record_job l language v cpu passed failed m).jobs_compile_error ≡ m.jobs_compile_error
unfolding record_job
record_job_errors l language v cpu passed failed m h =
    count_language_errors (l.to_lowercase language) _ ∙ count_verdict_errors v _ h

conclude_errors :
    (l : Lowercase) (request : JobRequest) (result : JobResult) (m : Metrics)
    (events : List ProgressEvent) (raw : Result Text (List RawResult))
    → result.verdict ≡ accepted
    → result.test_results ≡ []
    → AllNotCompile raw
    → (conclude l request result m events raw).metrics.jobs_compile_error ≡ m.jobs_compile_error
unfolding conclude
conclude_errors l request result m events (err e) v n h = refl
conclude_errors l request result m events (ok raw) v n h =
    record_job_errors l request.language _ _ _ _ m (λ c.
      first_failure-NotCompile (sort_by_idx raw) (sort_by_idx-NotCompile raw h)
        (sym (accumulate_all-Reports result (sort_by_idx raw) v n).judged ∙ c))

run_tests_errors :
    (env : Env) (runner : LanguageRunner) (dir : Text) (request : JobRequest) (result : JobResult)
    (m : Metrics)
    → result.verdict ≡ accepted
    → result.test_results ≡ []
    → (run_tests env runner dir request result m).metrics.jobs_compile_error ≡ m.jobs_compile_error
unfolding run_tests
run_tests_errors env runner dir request result m v n =
    conclude_errors env.lowercase request result m _ _ v n (
      drain-NotCompile (stop_on_fail_of request.stop_on_first_fail)
        (env.complete (futs_of env runner dir request)))

after_compile_errors :
    (env : Env) (runner : LanguageRunner) (dir : Text) (request : JobRequest) (m : Metrics)
    (o : Result Text ExecutionResult)
    → (after_compile env runner dir request
        (fresh_result request.job_id)
        m
        o).metrics.jobs_compile_error
      ≡ m.jobs_compile_error
unfolding after_compile
after_compile_errors env runner dir request m (err e) = refl
after_compile_errors env runner dir request m (ok r) =
    if_both (λ (o : Outcome). o.metrics.jobs_compile_error ≡ m.jobs_compile_error)
      (status_ok r.status) (run_tests_errors env runner dir request _ m refl refl) refl

compile_step_errors :
    (env : Env) (runner : LanguageRunner) (dir : Text) (request : JobRequest) (m : Metrics)
    (c : Option SandboxConfig)
    → (compile_step env runner dir request
        (fresh_result request.job_id)
        m
        c).metrics.jobs_compile_error
      ≡ m.jobs_compile_error
unfolding compile_step
compile_step_errors env runner dir request m none =
    run_tests_errors env runner dir request _ m refl refl
compile_step_errors env runner dir request m (some c) =
    after_compile_errors env runner dir request m _

written_errors :
    (env : Env) (runner : LanguageRunner) (request : JobRequest) (m : Metrics) (dir : Text)
    (o : Result Text (Unit {0}))
    → (written env runner request m dir o).metrics.jobs_compile_error ≡ m.jobs_compile_error
unfolding written
written_errors env runner request m dir (err e) = refl
written_errors env runner request m dir (ok _) =
    if_both (λ (o : Outcome). o.metrics.jobs_compile_error ≡ m.jobs_compile_error)
      runner.is_compiled (compile_step_errors env runner dir request m _)
      (run_tests_errors env runner dir request _ m refl refl)

in_directory_errors :
    (env : Env) (runner : LanguageRunner) (request : JobRequest) (m : Metrics)
    (dir : Result Text Text)
    → (in_directory env runner request m dir).metrics.jobs_compile_error ≡ m.jobs_compile_error
unfolding in_directory
in_directory_errors env runner request m (err e) = refl
in_directory_errors env runner request m (ok dir) = written_errors env runner request m dir _

execute_with_errors :
    (env : Env) (request : JobRequest) (m : Metrics) (language : Option SupportedLanguage)
    → (execute_with env request m language).metrics.jobs_compile_error ≡ m.jobs_compile_error
unfolding execute_with
execute_with_errors env request m none = refl
execute_with_errors env request m (some language) =
    in_directory_errors env (get_runner language) request m env.temp_dir

-- No job, whatever its outcome, moves the counter of compilation errors: a job that fails to
-- compile is not recorded, and no other job ends with that verdict.
pub execute_counts_no_compile_error :
    (env : Env) (request : JobRequest) (m : Metrics)
    → (execute env request m).metrics.jobs_compile_error ≡ m.jobs_compile_error
unfolding execute
execute_counts_no_compile_error env request m = execute_with_errors env request m _
