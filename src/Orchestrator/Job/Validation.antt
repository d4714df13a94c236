-- ===== src/Orchestrator/Job/Validation.antt =====
-- src/orchestrator/job.rs: exactly which submissions `validate` lets through.
use akiro.Prelude.{ℕ, ◌+◌, ◌≤◌, ◌<◌, ◌≡◌, refl, ◌↔◌, List, [], ◌∷◌, length, All, arith}
use akiro.Prelude.Result.{ok}
use akiro.Prelude.Text.{byte_len}
use akiro.Orchestrator.Job.{
  TestCase, JobRequest, max_test_cases, max_testcase_bytes, max_source_bytes, max_time_limit_ms,
  max_memory_limit_bytes, expected_len, validate_cases, validate,
}

abbrev pub CaseFits : TestCase → Type 0
CaseFits tc =
    (byte_len tc.input ≤ max_testcase_bytes)
    × (expected_len tc.expected_output ≤ max_testcase_bytes)

-- The ceilings on a submission.
pub record IsValid (r : JobRequest) : Type 0 where
  pub source_fits : byte_len r.source_code ≤ max_source_bytes
  pub some_case : 0 < length r.test_cases
  pub few_cases : length r.test_cases ≤ max_test_cases
  pub cases_fit : All CaseFits r.test_cases
  pub time_positive : 0 < r.time_limit_ms
  pub time_bounded : r.time_limit_ms ≤ max_time_limit_ms
  pub memory_positive : 0 < r.memory_limit_bytes
  pub memory_bounded : r.memory_limit_bytes ≤ max_memory_limit_bytes

validate_cases_sound :
    (i : ℕ) (tcs : List TestCase) → validate_cases i tcs ≡ ok tt → All CaseFits tcs
unfolding validate_cases
validate_cases_sound i [] h = tt
validate_cases_sound i (tc ∷ tcs) h = ground (arith, validate_cases_sound (i + 1) tcs)

validate_cases_complete :
    (i : ℕ) (tcs : List TestCase) → All CaseFits tcs → validate_cases i tcs ≡ ok tt
unfolding validate_cases
validate_cases_complete i [] h = refl
validate_cases_complete i (tc ∷ tcs) (h, hs) =
    ground (arith, validate_cases_complete (i + 1) tcs hs)

-- `validate` accepts a submission exactly when it keeps within every ceiling.
pub validate_iff : (r : JobRequest) → (validate r ≡ ok tt) ↔ IsValid r
unfolding validate
validate_iff r = (
  (λ h. record {
    source_fits = ground arith;
    some_case = ground arith;
    few_cases = ground arith;
    cases_fit = validate_cases_sound 0 r.test_cases (ground arith);
    time_positive = ground arith;
    time_bounded = ground arith;
    memory_positive = ground arith;
    memory_bounded = ground arith;
  }),
  λ v. ground (arith, validate_cases_complete 0 r.test_cases v.cases_fit),
)
