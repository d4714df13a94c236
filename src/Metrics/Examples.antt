-- ===== src/Metrics/Examples.antt =====
-- src/metrics.rs: the theorem at a judge that has accepted three jobs.
use akiro.Prelude.{◌≡◌, ◌≤◌, refl, Option, some, [], ◌∷◌, All, arith}
use akiro.Prelude.Text.{Text, codes}
use akiro.Prelude.Word.{u64_max}
use akiro.Prelude.Decimal.{decimal}
use akiro.Metrics.{Metrics}
use akiro.Metrics.Prometheus.{Gauges, render_prometheus}
use akiro.Metrics.Lines.{scrape}
use akiro.Metrics.Scraped.{Holds, published, scrape-render_prometheus}

abbrev counters : Metrics
counters = record {
  total_jobs = 3;
  jobs_accepted = 3;
  jobs_wrong_answer = 0;
  jobs_tle = 0;
  jobs_mle = 0;
  jobs_runtime_error = 0;
  jobs_compile_error = 0;
  lang_cpp = 2;
  lang_python = 1;
  lang_pypy = 0;
  lang_java = 0;
  lang_kotlin = 0;
  lang_csharp = 0;
  lang_zig = 0;
  lang_ruby = 0;
  lang_php = 0;
  lang_haskell = 0;
  lang_dart = 0;
  lang_scala = 0;
  lang_c = 0;
  lang_js = 0;
  lang_ts = 0;
  lang_sql = 0;
  total_testcases = 12;
  testcases_passed = 12;
  testcases_failed = 0;
  total_cpu_time_ms = 840;
}

abbrev gauges : Gauges
gauges = record {
  total_workers = 4;
  idle_workers = 3;
  busy_workers = 1;
  queued_jobs = 0;
  uptime_secs = 90;
}

abbrev statm : Option Text
statm = some (codes "9000 2048 100")

statm-Holds : Holds statm (some 2048)
unfolding decimal
statm-Holds = (codes "9000", codes "100" ∷ [], refl, omega arith)

counters-Fits : All (λ s. s.value ≤ u64_max) (published (some 2048) counters gauges)
counters-Fits = omega arith

scrape-render_prometheus_example :
    All
      (λ s. scrape s.name (render_prometheus statm counters gauges) ≡ some s.value)
      (published (some 2048) counters gauges)
scrape-render_prometheus_example =
    scrape-render_prometheus statm (some 2048) counters gauges statm-Holds counters-Fits
