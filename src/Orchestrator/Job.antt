-- ===== src/Orchestrator/Job.antt =====
-- src/orchestrator/job.rs: submissions, their validation, and the results of a job. The messages
-- of `validate` are `message` of its errors.
pub mod Validation
pub mod Examples
use akiro.Prelude.{
  ℕ, ◌+◌, Bool, true, false, ◌||◌, Option, none, some, List, [], ◌∷◌, ◌++◌, ltb, ◌==◌,
  if◌then◌else◌, length,
}
use akiro.Prelude.Result.{Result, ok, err}
use akiro.Prelude.Text.{Text, codes, byte_len}
use akiro.Prelude.Word.{mebibytes}
use akiro.Prelude.Decimal.{decimal}

pub record TestCase : Type 0 where
  pub input : Text
  pub expected_output : Option Text

pub record JobRequest : Type 0 where
  pub job_id : Text
  pub language : Text
  pub source_code : Text
  pub time_limit_ms : ℕ
  pub memory_limit_bytes : ℕ
  pub test_cases : List TestCase
  pub stop_on_first_fail : Option Bool

abbrev pub default_time_limit_ms : ℕ
default_time_limit_ms = 2000

abbrev pub default_memory_limit_bytes : ℕ
default_memory_limit_bytes = mebibytes 256

abbrev pub max_test_cases : ℕ
max_test_cases = 100

abbrev pub max_testcase_bytes : ℕ
max_testcase_bytes = 524288

abbrev pub max_source_bytes : ℕ
max_source_bytes = 1048576

abbrev pub max_time_limit_ms : ℕ
max_time_limit_ms = 60000

abbrev pub max_memory_limit_bytes : ℕ
max_memory_limit_bytes = 2147483648

pub data ValidateError : Type 0 where
  source_too_long : ℕ → ValidateError
  no_test_case : ValidateError
  too_many_test_cases : ℕ → ValidateError
  input_too_long expected_too_long : ℕ → ℕ → ValidateError
  time_limit_out_of_range memory_limit_out_of_range : ℕ → ValidateError

unfoldable pub message : ValidateError → Text
message (source_too_long n) =
    codes "source_code is "
    ++ decimal n
    ++ codes " bytes (max "
    ++ decimal max_source_bytes
    ++ codes ")"
message no_test_case = codes "at least one test case is required"
message (too_many_test_cases n) =
    codes "too many test cases: "
    ++ decimal n
    ++ codes " (max "
    ++ decimal max_test_cases
    ++ codes ")"
message (input_too_long i n) =
    codes "test case "
    ++ decimal i
    ++ codes " input is "
    ++ decimal n
    ++ codes " bytes (max "
    ++ decimal max_testcase_bytes
    ++ codes ")"
message (expected_too_long i n) =
    codes "test case "
    ++ decimal i
    ++ codes " expected_output is "
    ++ decimal n
    ++ codes " bytes (max "
    ++ decimal max_testcase_bytes
    ++ codes ")"
message (time_limit_out_of_range n) =
    codes "time_limit_ms "
    ++ decimal n
    ++ codes " out of range (1..="
    ++ decimal max_time_limit_ms
    ++ codes ")"
message (memory_limit_out_of_range n) =
    codes "memory_limit_bytes "
    ++ decimal n
    ++ codes " out of range (1..="
    ++ decimal max_memory_limit_bytes
    ++ codes ")"

-- The length of an expected output, 0 without one.
abbrev pub expected_len : Option Text → ℕ
expected_len none = 0
expected_len (some expected) = byte_len expected

-- The loop over the test cases; `i` is the index of the first of them.
pub validate_cases : ℕ → List TestCase → Result ValidateError (Unit {0})
validate_cases i [] = ok tt
validate_cases i (tc ∷ tcs) =
    let rest = validate_cases (i + 1) tcs in
    if ltb max_testcase_bytes (byte_len tc.input)
    then err (input_too_long i (byte_len tc.input))
    else if ltb max_testcase_bytes (expected_len tc.expected_output)
    then err (expected_too_long i (expected_len tc.expected_output))
    else rest

abbrev pub validate_limits : JobRequest → Result ValidateError (Unit {0})
validate_limits r =
    if r.time_limit_ms == 0 || ltb max_time_limit_ms r.time_limit_ms
    then err (time_limit_out_of_range r.time_limit_ms)
    else if r.memory_limit_bytes == 0 || ltb max_memory_limit_bytes r.memory_limit_bytes
    then err (memory_limit_out_of_range r.memory_limit_bytes)
    else ok tt

abbrev then_limits : JobRequest → Result ValidateError (Unit {0}) → Result ValidateError (Unit {0})
then_limits r (ok _) = validate_limits r
then_limits r (err e) = err e

unfoldable pub validate : JobRequest → Result ValidateError (Unit {0})
unfolding validate_cases
validate r =
    if ltb max_source_bytes (byte_len r.source_code)
    then err (source_too_long (byte_len r.source_code))
    else if length r.test_cases == 0
    then err no_test_case
    else if ltb max_test_cases (length r.test_cases)
    then err (too_many_test_cases (length r.test_cases))
    else then_limits r (validate_cases 0 r.test_cases)

pub data JudgeVerdict : Type 0 where
  accepted wrong_answer time_limit_exceeded memory_limit_exceeded runtime_error compilation_error :
      JudgeVerdict

abbrev pub is_accepted : JudgeVerdict → Bool
is_accepted accepted = true
is_accepted _ = false

pub data ProgressEvent : Type 0 where
  compiling : ProgressEvent
  test_result : (test_case : ℕ) (verdict : JudgeVerdict) (time_ms memory_kb : ℕ) → ProgressEvent
  finished : JudgeVerdict → ProgressEvent

pub record TestCaseResult : Type 0 where
  pub test_case_index : ℕ
  pub status : JudgeVerdict
  pub cpu_time_ms : ℕ
  pub memory_kb : ℕ
  pub stdout : List ℕ
  pub stderr : List ℕ

pub record JobResult : Type 0 where
  pub job_id : Text
  pub verdict : JudgeVerdict
  pub total_cpu_time_ms : ℕ
  pub peak_memory_kb : ℕ
  pub compile_output : Option Text
  pub test_results : List TestCaseResult
