-- ===== src/Orchestrator/Pipeline/Report.antt =====
-- src/orchestrator/pipeline.rs: what the result of `run_tests` says of the test cases.
use akiro.Prelude.{
  ℕ, ◌≡◌, refl, sym, ap, ◌∙◌, true, false, List, [], ◌∷◌, ◌++◌, map, if◌then◌else◌, all, max, arith,
  Bool-cases, inl, inr, append-nil, append_assoc,
}
use akiro.Prelude.Word.{add64}
use akiro.Orchestrator.Job.{JobResult, JudgeVerdict, accepted, is_accepted, TestCaseResult}
use akiro.Orchestrator.Pipeline.Collect.{
  RawResult, test_case_result, accumulate, accumulate_all, passes, settle,
}

-- The status of the first test that did not pass.
abbrev pub first_failure : List TestCaseResult → JudgeVerdict
first_failure [] = accepted
first_failure (t ∷ ts) = if passes t then first_failure ts else t.status

abbrev pub peak_of : ℕ → List TestCaseResult → ℕ
peak_of peak [] = peak
peak_of peak (t ∷ ts) = peak_of (max peak t.memory_kb) ts

abbrev pub cpu_of : ℕ → List TestCaseResult → ℕ
cpu_of total [] = total
cpu_of total (t ∷ ts) = cpu_of (add64 total t.cpu_time_ms) ts

accumulate_all-test_results :
    (result : JobResult) (rs : List RawResult)
    → (accumulate_all result rs).test_results ≡ result.test_results ++ map test_case_result rs
unfolding accumulate_all accumulate
accumulate_all-test_results result [] = sym (append-nil _)
accumulate_all-test_results result (r ∷ rs) =
    accumulate_all-test_results (accumulate result r) rs ∙ append_assoc result.test_results _ _

accumulate_kept :
    (result : JobResult) (r : RawResult)
    → is_accepted result.verdict ≡ false
    → (accumulate result r).verdict ≡ result.verdict
unfolding accumulate
accumulate_kept result r h = ground arith

accumulate_passed :
    (result : JobResult) (r : RawResult)
    → is_accepted r.verdict ≡ true
    → (accumulate result r).verdict ≡ result.verdict
unfolding accumulate
accumulate_passed result r h = ground arith

accumulate_failed :
    (result : JobResult) (r : RawResult)
    → result.verdict ≡ accepted
    → is_accepted r.verdict ≡ false
    → (accumulate result r).verdict ≡ r.verdict
unfolding accumulate
accumulate_failed result r h k = ground arith

-- Once a test failed the verdict stays.
accumulate_all_kept :
    (result : JobResult) (rs : List RawResult)
    → is_accepted result.verdict ≡ false
    → (accumulate_all result rs).verdict ≡ result.verdict
unfolding accumulate_all
accumulate_all_kept result [] h = refl
accumulate_all_kept result (r ∷ rs) h =
    let kept = accumulate_kept result r h in
    accumulate_all_kept (accumulate result r) rs (ap is_accepted kept ∙ h) ∙ kept

accumulate_all-verdict :
    (result : JobResult) (rs : List RawResult)
    → result.verdict ≡ accepted
    → (accumulate_all result rs).verdict ≡ first_failure (map test_case_result rs)
unfolding accumulate_all
accumulate_all-verdict result [] h = h
accumulate_all-verdict result (r ∷ rs) h = elim (Bool-cases (is_accepted r.verdict)) [
  | inl passed ↦
      rw passed
        (accumulate_all-verdict (accumulate result r) rs (accumulate_passed result r passed ∙ h))
  | inr failed ↦
      let now = accumulate_failed result r h failed in
      rw failed (accumulate_all_kept (accumulate result r) rs (ap is_accepted now ∙ failed) ∙ now)
]

accumulate_all-totals :
    (result : JobResult) (rs : List RawResult)
    → ((accumulate_all result rs).peak_memory_kb
        ≡ peak_of result.peak_memory_kb (map test_case_result rs))
      × ((accumulate_all result rs).total_cpu_time_ms
          ≡ cpu_of result.total_cpu_time_ms (map test_case_result rs))
unfolding accumulate_all accumulate
accumulate_all-totals result [] = (refl, refl)
accumulate_all-totals result (r ∷ rs) = accumulate_all-totals (accumulate result r) rs

first_failure-all : (ts : List TestCaseResult) → all passes ts ≡ true → first_failure ts ≡ accepted
first_failure-all [] h = refl
first_failure-all (t ∷ ts) h = ground (arith, first_failure-all ts)

-- A job is settled already once its results are accumulated from a fresh state.
settle_fresh :
    (result : JobResult)
    → result.verdict ≡ first_failure result.test_results
    → settle result ≡ result
unfolding settle
settle_fresh result h = elim (Bool-cases (all passes result.test_results)) [
  | inl passed ↦
      rw passed
        (λ i. record result { verdict = sym (h ∙ first_failure-all result.test_results passed) i })
  | inr failed ↦ rw failed
]

-- What `run_tests` reports of a list of results in order, from a state with no test result.
pub record Reports (result : JobResult) (ts : List TestCaseResult) (final : JobResult)
    : Type 0 where
  pub same_job : final.job_id ≡ result.job_id
  pub listed : final.test_results ≡ ts
  pub judged : final.verdict ≡ first_failure ts
  pub peak : final.peak_memory_kb ≡ peak_of result.peak_memory_kb ts
  pub cpu : final.total_cpu_time_ms ≡ cpu_of result.total_cpu_time_ms ts

accumulate_all-job_id :
    (result : JobResult) (rs : List RawResult) → (accumulate_all result rs).job_id ≡ result.job_id
unfolding accumulate_all accumulate
accumulate_all-job_id result [] = refl
accumulate_all-job_id result (r ∷ rs) = accumulate_all-job_id (accumulate result r) rs

pub accumulate_all-Reports :
    (result : JobResult) (rs : List RawResult)
    → result.verdict ≡ accepted
    → result.test_results ≡ []
    → Reports result (map test_case_result rs) (settle (accumulate_all result rs))
accumulate_all-Reports result rs h e = rw settled (record {
  same_job = accumulate_all-job_id result rs;
  listed = listed;
  judged = judged;
  peak = (accumulate_all-totals result rs).0;
  cpu = (accumulate_all-totals result rs).1;
})
  where
    listed : (accumulate_all result rs).test_results ≡ map test_case_result rs
    listed = accumulate_all-test_results result rs ∙ ap (λ l. l ++ map test_case_result rs) e

    judged : (accumulate_all result rs).verdict ≡ first_failure (map test_case_result rs)
    judged = accumulate_all-verdict result rs h

    settled : settle (accumulate_all result rs) ≡ accumulate_all result rs
    settled = settle_fresh _ (judged ∙ ap first_failure (sym listed))
