-- ===== src/Orchestrator/Pipeline/EarlyStop.antt =====
-- src/orchestrator/pipeline.rs: `stop_on_first_fail`.
use akiro.Prelude.{
  ◌≡◌, refl, ap, ◌∙◌, true, some, List, [], ◌∷◌, map, if◌then◌else◌, Bool-cases, inl, inr, All,
  arith,
}
use akiro.Prelude.Result.{ok}
use akiro.Prelude.Text.{Text}
use akiro.Languages.Runner.{LanguageRunner}
use akiro.Metrics.{Metrics}
use akiro.Orchestrator.Job.{JobRequest, JobResult, accepted, is_accepted}
use akiro.Orchestrator.Pipeline.Verdict.{Completion, test_verdict}
use akiro.Orchestrator.Pipeline.Runs.{Env, futs_of}
use akiro.Orchestrator.Pipeline.Collect.{
  RawResult, drain, insert_by_idx, sort_by_idx, test_case_result, stop_on_fail_of, run_tests,
}
use akiro.Orchestrator.Pipeline.Order.{Succeeded, raws}
use akiro.Orchestrator.Pipeline.Report.{first_failure}
use akiro.Orchestrator.Pipeline.Spec.{conclude-Reports}

-- The results up to the first that did not pass, it included.
abbrev pub until_failure : List RawResult → List RawResult
until_failure [] = []
until_failure (r ∷ rs) = if is_accepted r.verdict then r ∷ until_failure rs else r ∷ []

drain_stop :
    (cs : List Completion)
    → All Succeeded cs
    → (drain true cs).raw_results ≡ ok (until_failure (raws cs))
unfolding drain raws
drain_stop [] h = refl
drain_stop (c ∷ cs) ((r, e), hs) =
    rw e (elim (Bool-cases (is_accepted (test_verdict c.test_run r))) [
      | inl passed ↦ rw passed (rw (drain_stop cs hs))
      | inr failed ↦ rw failed
    ])

first_failure-insert :
    (r : RawResult) (rs : List RawResult)
    → is_accepted r.verdict ≡ true
    → first_failure (map test_case_result (insert_by_idx r rs))
      ≡ first_failure (map test_case_result rs)
unfolding insert_by_idx
first_failure-insert r [] h = ground arith
first_failure-insert r (x ∷ rs) h = ground (arith, first_failure-insert r rs)

-- At most the last of them failed, so sorting moves no failure before another.
first_failure-sort :
    (rs : List RawResult)
    → first_failure (map test_case_result (sort_by_idx (until_failure rs)))
      ≡ first_failure (map test_case_result rs)
unfolding sort_by_idx insert_by_idx
first_failure-sort [] = refl
first_failure-sort (r ∷ rs) = elim (Bool-cases (is_accepted r.verdict)) [
  | inl passed ↦
      rw passed
        (first_failure-insert r (sort_by_idx (until_failure rs)) passed ∙ first_failure-sort rs)
  | inr failed ↦ rw failed (rw failed)
]

-- With an early stop and no sandbox error, the result lists, by index, the test runs that ended up
-- to the first that did not pass, and the job's verdict is that one's, or Accepted without one.
pub run_tests_stop :
    (env : Env) (runner : LanguageRunner) (dir : Text) (request : JobRequest) (result : JobResult)
    (m : Metrics)
    → request.stop_on_first_fail ≡ some true
    → All Succeeded (env.complete (futs_of env runner dir request))
    → result.verdict ≡ accepted
    → result.test_results ≡ []
    → let ended = raws (env.complete (futs_of env runner dir request)) in
      (final : JobResult) × ((run_tests env runner dir request result m).result ≡ ok final)
      × (final.test_results ≡ map test_case_result (sort_by_idx (until_failure ended)))
      × (final.verdict ≡ first_failure (map test_case_result ended))
unfolding run_tests
run_tests_stop env runner dir request result m stop good h e =
    rw (ap stop_on_fail_of stop, drain_stop cs good)
      (let (final, done, said) =
          conclude-Reports env.lowercase request result m (drain true cs).events
            (until_failure (raws cs)) h e in
        (final, done, said.listed, said.judged ∙ first_failure-sort (raws cs)))
  where
    cs : List Completion
    cs = env.complete (futs_of env runner dir request)
