-- ===== src/Orchestrator/Pipeline/Collect.antt =====
-- src/orchestrator/pipeline.rs: `run_tests`, from the stream of completions to the result.
use akiro.Prelude.{
  ℕ, ◌+◌, Bool, false, not, ◌&&◌, Option, none, some, List, [], ◌∷◌, ◌++◌, leb, if◌then◌else◌,
  length, all, count_if, max,
}
use akiro.Prelude.Result.{Result, ok, err}
use akiro.Prelude.Text.{Text, codes, Lowercase}
use akiro.Prelude.Word.{add64, saturating_sub}
use akiro.Languages.Runner.{LanguageRunner}
use akiro.Sandbox.Result.{ExecutionResult}
use akiro.Orchestrator.Job.{
  JobRequest, JudgeVerdict, accepted, is_accepted, ProgressEvent, test_result, finished,
  TestCaseResult, JobResult,
}
use akiro.Metrics.{Metrics, record_job}
use akiro.Orchestrator.Pipeline.Verdict.{TestRun, Completion, test_verdict}
use akiro.Orchestrator.Pipeline.Runs.{Env, futs_of}

-- An entry of `raw_results`.
pub record RawResult : Type 0 where
  pub idx : ℕ
  pub verdict : JudgeVerdict
  pub exec_result : ExecutionResult

abbrev pub raw_of : TestRun → ExecutionResult → RawResult
raw_of t r = record { idx = t.idx; verdict = test_verdict t r; exec_result = r }

abbrev pub raw_event : RawResult → ProgressEvent
raw_event r = test_result (r.idx + 1) r.verdict r.exec_result.cpu_time_ms r.exec_result.memory_kb

-- What the loop over the stream leaves: the events that it sent, and `raw_results` or the error
-- with which it returned.
pub record Drained : Type 0 where
  pub events : List ProgressEvent
  pub raw_results : Result Text (List RawResult)

abbrev pub cons_raw : RawResult → Result Text (List RawResult) → Result Text (List RawResult)
cons_raw r (ok rs) = ok (r ∷ rs)
cons_raw r (err e) = err e

abbrev cons_drained : RawResult → Drained → Drained
cons_drained r d = record {
  events = raw_event r ∷ d.events;
  raw_results = cons_raw r d.raw_results;
}

-- One completion, before what the loop leaves of the others.
unfoldable pub drain_one : Bool → TestRun → Result Text ExecutionResult → Drained → Drained
drain_one stop_on_fail t (err e) rest = record {
  events = [];
  raw_results = err (codes "Sandbox error during execution: " ++ e);
}
drain_one stop_on_fail t (ok r) rest = cons_drained (raw_of t r) (
    if stop_on_fail && not (is_accepted (test_verdict t r))
    then record { events = []; raw_results = ok [] }
    else rest)

unfoldable pub drain : Bool → List Completion → Drained
unfolding drain_one
drain stop_on_fail [] = record { events = []; raw_results = ok [] }
drain stop_on_fail (c ∷ cs) =
    let rest = drain stop_on_fail cs in drain_one stop_on_fail c.test_run c.exec_res rest

-- `sort_by_key(|r| r.0)`, which is stable.
unfoldable pub insert_by_idx : RawResult → List RawResult → List RawResult
insert_by_idx r [] = r ∷ []
insert_by_idx r (x ∷ xs) = if leb r.idx x.idx then r ∷ x ∷ xs else x ∷ insert_by_idx r xs

unfoldable pub sort_by_idx : List RawResult → List RawResult
unfolding insert_by_idx
sort_by_idx [] = []
sort_by_idx (r ∷ rs) = insert_by_idx r (sort_by_idx rs)

abbrev pub test_case_result : RawResult → TestCaseResult
test_case_result r = record {
  test_case_index = r.idx;
  status = r.verdict;
  cpu_time_ms = r.exec_result.cpu_time_ms;
  memory_kb = r.exec_result.memory_kb;
  stdout = r.exec_result.stdout;
  stderr = r.exec_result.stderr;
}

-- One round of the loop over the sorted results.
unfoldable pub accumulate : JobResult → RawResult → JobResult
accumulate result r = record result {
  total_cpu_time_ms = add64 result.total_cpu_time_ms r.exec_result.cpu_time_ms;
  peak_memory_kb = max result.peak_memory_kb r.exec_result.memory_kb;
  test_results = result.test_results ++ (test_case_result r ∷ []);
  verdict =
      if not (is_accepted r.verdict) && is_accepted result.verdict
      then r.verdict
      else result.verdict;
}

unfoldable pub accumulate_all : JobResult → List RawResult → JobResult
unfolding accumulate
accumulate_all result [] = result
accumulate_all result (r ∷ rs) = accumulate_all (accumulate result r) rs

abbrev pub passes : TestCaseResult → Bool
passes t = is_accepted t.status

-- The verdict once all results are in.
unfoldable pub settle : JobResult → JobResult
settle result =
    if all passes result.test_results then record result { verdict = accepted } else result

abbrev pub stop_on_fail_of : Option Bool → Bool
stop_on_fail_of none = false
stop_on_fail_of (some b) = b

-- What a job leaves: the events sent, the counters, and its result or error.
pub record Outcome : Type 0 where
  pub events : List ProgressEvent
  pub metrics : Metrics
  pub result : Result Text JobResult

unfoldable pub record_result : Lowercase → Text → JobResult → Metrics → Metrics
record_result l language result m =
    let passed = count_if passes result.test_results in
    record_job l language result.verdict result.total_cpu_time_ms passed
      (saturating_sub (length result.test_results) passed) m

-- The end of `run_tests`, from what the loop over the stream left.
unfoldable pub conclude :
    Lowercase
    → JobRequest
    → JobResult
    → Metrics
    → List ProgressEvent
    → Result Text (List RawResult)
    → Outcome
unfolding accumulate_all settle sort_by_idx record_result
conclude l request result m events (err e) = record { events = events; metrics = m; result = err e }
conclude l request result m events (ok raw) =
    let final = settle (accumulate_all result (sort_by_idx raw)) in
    record {
      events = events ++ (finished final.verdict ∷ []);
      metrics = record_result l request.language final m;
      result = ok final;
    }

unfoldable pub run_tests : Env → LanguageRunner → Text → JobRequest → JobResult → Metrics → Outcome
unfolding drain conclude
run_tests env runner work_dir request result m =
    let drained =
      drain (stop_on_fail_of request.stop_on_first_fail)
        (env.complete (futs_of env runner work_dir request)) in
    conclude env.lowercase request result m drained.events drained.raw_results
