-- ===== src/Metrics/Prometheus.antt =====
-- src/metrics.rs: the metrics as text. What /proc/self/statm holds is a parameter.
use akiro.Prelude.{ℕ, Option, none, some, List, [], ◌∷◌, ◌++◌}
use akiro.Prelude.Text.{Text, codes, parse_unsigned}
use akiro.Prelude.Decimal.{decimal}
use akiro.Prelude.Pieces.{split_whitespace}
use akiro.Prelude.Word.{u64_max, mul64}
use akiro.Metrics.{Metrics}

abbrev pub pages_of : List Text → Option ℕ
pages_of [] = none
pages_of (size ∷ []) = none
pages_of (size ∷ resident ∷ rest) = parse_unsigned u64_max resident

abbrev pub bytes_of : Option ℕ → ℕ
bytes_of none = 0
bytes_of (some pages) = mul64 pages 4096

unfoldable pub get_process_memory_bytes : Option Text → ℕ
get_process_memory_bytes none = 0
get_process_memory_bytes (some content) = bytes_of (pages_of (split_whitespace content))

-- What the endpoint knows besides the counters.
pub record Gauges : Type 0 where
  pub total_workers : ℕ
  pub idle_workers : ℕ
  pub busy_workers : ℕ
  pub queued_jobs : ℕ
  pub uptime_secs : ℕ

-- A line that is written: a comment, the name and the value of a sample, or nothing.
pub data Line : Type 0 where
  comment : Text → Line
  sample : Text → ℕ → Line
  blank : Line

abbrev pub line_text : Line → Text
line_text (comment t) = t
line_text (sample name value) = name ++ (codes " " ++ decimal value)
line_text blank = []

unfoldable pub push_lines : List Line → Text
push_lines [] = []
push_lines (l ∷ ls) = line_text l ++ (0xa ∷ push_lines ls)

unfoldable pub verdict_lines : Metrics → List Line
verdict_lines m =
    comment (codes "# HELP akiro_jobs_total Total evaluation jobs submitted to Akiro")
    ∷ comment (codes "# TYPE akiro_jobs_total counter")
    ∷ sample (codes "akiro_jobs_total{verdict=\"Accepted\"}") m.jobs_accepted
    ∷ sample (codes "akiro_jobs_total{verdict=\"WrongAnswer\"}") m.jobs_wrong_answer
    ∷ sample (codes "akiro_jobs_total{verdict=\"TimeLimitExceeded\"}") m.jobs_tle
    ∷ sample (codes "akiro_jobs_total{verdict=\"MemoryLimitExceeded\"}") m.jobs_mle
    ∷ sample (codes "akiro_jobs_total{verdict=\"RuntimeError\"}") m.jobs_runtime_error
    ∷ sample (codes "akiro_jobs_total{verdict=\"CompilationError\"}") m.jobs_compile_error
    ∷ blank
    ∷ []

unfoldable pub language_lines : Metrics → List Line
language_lines m =
    comment (codes "# HELP akiro_jobs_by_language_total Total jobs grouped by programming language")
    ∷ comment (codes "# TYPE akiro_jobs_by_language_total counter")
    ∷ sample (codes "akiro_jobs_by_language_total{language=\"cpp\"}") m.lang_cpp
    ∷ sample (codes "akiro_jobs_by_language_total{language=\"python\"}") m.lang_python
    ∷ sample (codes "akiro_jobs_by_language_total{language=\"pypy3\"}") m.lang_pypy
    ∷ sample (codes "akiro_jobs_by_language_total{language=\"java\"}") m.lang_java
    ∷ sample (codes "akiro_jobs_by_language_total{language=\"kotlin\"}") m.lang_kotlin
    ∷ sample (codes "akiro_jobs_by_language_total{language=\"csharp\"}") m.lang_csharp
    ∷ sample (codes "akiro_jobs_by_language_total{language=\"zig\"}") m.lang_zig
    ∷ sample (codes "akiro_jobs_by_language_total{language=\"ruby\"}") m.lang_ruby
    ∷ sample (codes "akiro_jobs_by_language_total{language=\"php\"}") m.lang_php
    ∷ sample (codes "akiro_jobs_by_language_total{language=\"haskell\"}") m.lang_haskell
    ∷ sample (codes "akiro_jobs_by_language_total{language=\"dart\"}") m.lang_dart
    ∷ sample (codes "akiro_jobs_by_language_total{language=\"scala\"}") m.lang_scala
    ∷ sample (codes "akiro_jobs_by_language_total{language=\"c\"}") m.lang_c
    ∷ sample (codes "akiro_jobs_by_language_total{language=\"javascript\"}") m.lang_js
    ∷ sample (codes "akiro_jobs_by_language_total{language=\"typescript\"}") m.lang_ts
    ∷ sample (codes "akiro_jobs_by_language_total{language=\"sql\"}") m.lang_sql
    ∷ blank
    ∷ []

unfoldable pub testcase_lines : Metrics → List Line
testcase_lines m =
    comment (codes "# HELP akiro_testcases_total Total isolated sandbox testcase executions")
    ∷ comment (codes "# TYPE akiro_testcases_total counter")
    ∷ sample (codes "akiro_testcases_total{status=\"passed\"}") m.testcases_passed
    ∷ sample (codes "akiro_testcases_total{status=\"failed\"}") m.testcases_failed
    ∷ blank
    ∷ []

unfoldable pub cpu_lines : Metrics → List Line
cpu_lines m =
    comment (codes "# HELP akiro_cpu_time_ms_total Cumulative CPU time spent inside sandboxes")
    ∷ comment (codes "# TYPE akiro_cpu_time_ms_total counter")
    ∷ sample (codes "akiro_cpu_time_ms_total") m.total_cpu_time_ms
    ∷ blank
    ∷ []

unfoldable pub worker_lines : Gauges → List Line
worker_lines w =
    comment (codes "# HELP akiro_workers Total, idle, and busy judge workers in cluster")
    ∷ comment (codes "# TYPE akiro_workers gauge")
    ∷ sample (codes "akiro_workers{state=\"total\"}") w.total_workers
    ∷ sample (codes "akiro_workers{state=\"idle\"}") w.idle_workers
    ∷ sample (codes "akiro_workers{state=\"busy\"}") w.busy_workers
    ∷ blank
    ∷ []

unfoldable pub queue_lines : Gauges → List Line
queue_lines w =
    comment (codes "# HELP akiro_queue_depth Number of jobs currently queued")
    ∷ comment (codes "# TYPE akiro_queue_depth gauge")
    ∷ sample (codes "akiro_queue_depth") w.queued_jobs
    ∷ blank
    ∷ []

unfoldable pub memory_lines : ℕ → List Line
memory_lines mem_bytes =
    comment (codes "# HELP akiro_process_memory_bytes Resident memory (RSS) of Akiro process")
    ∷ comment (codes "# TYPE akiro_process_memory_bytes gauge")
    ∷ sample (codes "akiro_process_memory_bytes") mem_bytes
    ∷ blank
    ∷ []

unfoldable pub uptime_lines : Gauges → List Line
uptime_lines w =
    comment (codes "# HELP akiro_uptime_seconds Total process uptime in seconds")
    ∷ comment (codes "# TYPE akiro_uptime_seconds gauge")
    ∷ sample (codes "akiro_uptime_seconds") w.uptime_secs
    ∷ []

unfoldable pub exposition : Metrics → Gauges → ℕ → List Line
unfolding verdict_lines language_lines testcase_lines cpu_lines worker_lines queue_lines
    memory_lines uptime_lines
exposition m w mem_bytes =
    verdict_lines m
    ++ (language_lines m
        ++ (testcase_lines m
            ++ (cpu_lines m
                ++ (worker_lines w
                    ++ (queue_lines w ++ (memory_lines mem_bytes ++ uptime_lines w))))))

unfoldable pub render_prometheus : Option Text → Metrics → Gauges → Text
render_prometheus statm m w = push_lines (exposition m w (get_process_memory_bytes statm))
