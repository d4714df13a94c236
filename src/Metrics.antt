-- ===== src/Metrics.antt =====
-- src/metrics.rs: the process-wide counters, as a record that `record_job` updates. Each is an
-- AtomicU64, which wraps.
pub mod Prometheus
pub mod Lines
pub mod Scraped
pub mod Examples
use akiro.Prelude.{ℕ, [], ◌∷◌, if◌then◌else◌}
use akiro.Prelude.Text.{Text, codes, Lowercase}
use akiro.Prelude.Word.{add64}
use akiro.Languages.Language.{one_of}
use akiro.Orchestrator.Job.{JudgeVerdict}

pub record Metrics : Type 0 where
  pub total_jobs : ℕ
  pub jobs_accepted : ℕ
  pub jobs_wrong_answer : ℕ
  pub jobs_tle : ℕ
  pub jobs_mle : ℕ
  pub jobs_runtime_error : ℕ
  pub jobs_compile_error : ℕ
  pub lang_cpp : ℕ
  pub lang_python : ℕ
  pub lang_pypy : ℕ
  pub lang_java : ℕ
  pub lang_kotlin : ℕ
  pub lang_csharp : ℕ
  pub lang_zig : ℕ
  pub lang_ruby : ℕ
  pub lang_php : ℕ
  pub lang_haskell : ℕ
  pub lang_dart : ℕ
  pub lang_scala : ℕ
  pub lang_c : ℕ
  pub lang_js : ℕ
  pub lang_ts : ℕ
  pub lang_sql : ℕ
  pub total_testcases : ℕ
  pub testcases_passed : ℕ
  pub testcases_failed : ℕ
  pub total_cpu_time_ms : ℕ

unfoldable pub count_verdict : JudgeVerdict → Metrics → Metrics
count_verdict JudgeVerdict.accepted m = record m { jobs_accepted = add64 m.jobs_accepted 1 }
count_verdict JudgeVerdict.wrong_answer m = record m {
  jobs_wrong_answer = add64 m.jobs_wrong_answer 1;
}
count_verdict JudgeVerdict.time_limit_exceeded m = record m { jobs_tle = add64 m.jobs_tle 1 }
count_verdict JudgeVerdict.memory_limit_exceeded m = record m { jobs_mle = add64 m.jobs_mle 1 }
count_verdict JudgeVerdict.runtime_error m = record m {
  jobs_runtime_error = add64 m.jobs_runtime_error 1;
}
count_verdict JudgeVerdict.compilation_error m = record m {
  jobs_compile_error = add64 m.jobs_compile_error 1;
}

-- The `match` on the language's name in lower case.
unfoldable pub count_language : Text → Metrics → Metrics
count_language s m =
    if one_of s (codes "cpp" ∷ codes "c++" ∷ [])
    then record m { lang_cpp = add64 m.lang_cpp 1 }
    else if one_of s (codes "python" ∷ codes "python3" ∷ codes "py" ∷ [])
    then record m { lang_python = add64 m.lang_python 1 }
    else if one_of s (codes "pypy" ∷ codes "pypy3" ∷ [])
    then record m { lang_pypy = add64 m.lang_pypy 1 }
    else if one_of s (codes "java" ∷ [])
    then record m { lang_java = add64 m.lang_java 1 }
    else if one_of s (codes "kotlin" ∷ codes "kt" ∷ [])
    then record m { lang_kotlin = add64 m.lang_kotlin 1 }
    else if one_of s (codes "csharp" ∷ codes "cs" ∷ codes "c#" ∷ [])
    then record m { lang_csharp = add64 m.lang_csharp 1 }
    else if one_of s (codes "zig" ∷ [])
    then record m { lang_zig = add64 m.lang_zig 1 }
    else if one_of s (codes "ruby" ∷ codes "rb" ∷ [])
    then record m { lang_ruby = add64 m.lang_ruby 1 }
    else if one_of s (codes "php" ∷ [])
    then record m { lang_php = add64 m.lang_php 1 }
    else if one_of s (codes "haskell" ∷ codes "hs" ∷ codes "ghc" ∷ [])
    then record m { lang_haskell = add64 m.lang_haskell 1 }
    else if one_of s (codes "dart" ∷ [])
    then record m { lang_dart = add64 m.lang_dart 1 }
    else if one_of s (codes "scala" ∷ codes "scalac" ∷ [])
    then record m { lang_scala = add64 m.lang_scala 1 }
    else if one_of s (codes "c" ∷ [])
    then record m { lang_c = add64 m.lang_c 1 }
    else if one_of s (codes "javascript" ∷ codes "js" ∷ [])
    then record m { lang_js = add64 m.lang_js 1 }
    else if one_of s (codes "typescript" ∷ codes "ts" ∷ [])
    then record m { lang_ts = add64 m.lang_ts 1 }
    else if one_of s (codes "sql" ∷ [])
    then record m { lang_sql = add64 m.lang_sql 1 }
    else m

unfoldable pub record_job : Lowercase → Text → JudgeVerdict → ℕ → ℕ → ℕ → Metrics → Metrics
record_job l language verdict cpu_time_ms passed_tests failed_tests m =
    count_language (l.to_lowercase language) (
      count_verdict verdict (record m {
        total_jobs = add64 m.total_jobs 1;
        total_cpu_time_ms = add64 m.total_cpu_time_ms cpu_time_ms;
        total_testcases = add64 m.total_testcases (add64 passed_tests failed_tests);
        testcases_passed = add64 m.testcases_passed passed_tests;
        testcases_failed = add64 m.testcases_failed failed_tests;
      }))
