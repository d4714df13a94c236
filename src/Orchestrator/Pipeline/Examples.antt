-- ===== src/Orchestrator/Pipeline/Examples.antt =====
-- src/orchestrator/pipeline.rs: the theorems at a job of three test cases.
use mathlib.Core.List.{Permᴰ}
use mathlib.Core.List.Permᴰ
use akiro.Prelude.{
  arith, ℕ, ◌≡◌, refl, Bool, true, Option, All, none, some, List, [], ◌∷◌, ◌++◌, map,
}
use akiro.Prelude.Result.{ok}
use akiro.Prelude.Int.{pos}
use akiro.Prelude.Text.{Text, codes, ascii_lower, Lowercase}
use akiro.Sandbox.Result.{SandboxStatus, ExecutionResult}
use akiro.Metrics.{Metrics}
use akiro.Languages.Language.{SupportedLanguage}
use akiro.Languages.Runner.{LanguageRunner}
use akiro.Languages.{get_runner}
use akiro.Orchestrator.Job.{TestCase, JobRequest, JobResult}
use akiro.Orchestrator.Pipeline.{fresh_result, execute}
use akiro.Orchestrator.Pipeline.Verdict.{TestRun, Completion}
use akiro.Orchestrator.Pipeline.Runs.{Env, test_futs, futs_of, Completes}
use akiro.Orchestrator.Pipeline.Collect.{run_tests, test_case_result, sort_by_idx}
use akiro.Orchestrator.Pipeline.Order.{raws, Succeeded, run_tests_any_order}
use akiro.Orchestrator.Pipeline.Report.{Reports, first_failure}
use akiro.Prelude.{◌↔◌}
use akiro.Orchestrator.Job.{accepted}
use akiro.Orchestrator.Pipeline.Verdict.{test_verdict}
use akiro.Orchestrator.Pipeline.Verdict.Accepted.{Passed, test_verdict-accepted_iff}
use akiro.Orchestrator.Pipeline.Spec.{completed, report, run_tests_lem}
use akiro.Orchestrator.Pipeline.EarlyStop.{until_failure, run_tests_stop}
use akiro.Orchestrator.Pipeline.CompileErrors.{execute_counts_no_compile_error}
use mathlib.Core.List.{Memᴰ}
use akiro.Prelude.{◌⊎◌}
use akiro.Orchestrator.Pipeline.Workspace.{
  Entries, file, link, directory, end, entry, chown_tree, Handed, chown_tree_iff,
}
use akiro.Orchestrator.Pipeline.Confined.{Matched, Confined, futs_of-Confined}

abbrev ascii_only : Lowercase
ascii_only = record { to_lowercase = map ascii_lower; on_ascii = λ s h. refl }

abbrev no_jobs : Metrics
no_jobs = record {
  total_jobs = 0;
  jobs_accepted = 0;
  jobs_wrong_answer = 0;
  jobs_tle = 0;
  jobs_mle = 0;
  jobs_runtime_error = 0;
  jobs_compile_error = 0;
  lang_cpp = 0;
  lang_python = 0;
  lang_pypy = 0;
  lang_java = 0;
  lang_kotlin = 0;
  lang_csharp = 0;
  lang_zig = 0;
  lang_ruby = 0;
  lang_php = 0;
  lang_haskell = 0;
  lang_dart = 0;
  lang_scala = 0;
  lang_c = 0;
  lang_js = 0;
  lang_ts = 0;
  lang_sql = 0;
  total_testcases = 0;
  testcases_passed = 0;
  testcases_failed = 0;
  total_cpu_time_ms = 0;
}

-- A program that echoes its input, in 5 ms and 900 KB.
abbrev echo : Option (List ℕ) → ExecutionResult
echo input = record {
  status = SandboxStatus.ok;
  exit_code = pos 0;
  cpu_time_ms = 5;
  wall_time_ms = 7;
  memory_kb = 900;
  stdout = elim input [ none ↦ [] | some bytes ↦ bytes ];
  stderr = [];
}

abbrev run_echo : TestRun → ExecutionResult
run_echo t = echo t.run_config.stdin_data

-- The first run ends last.
abbrev first_last : List Completion → List Completion
first_last [] = []
first_last (c ∷ cs) = cs ++ (c ∷ [])

abbrev in_order : List TestRun → List Completion
in_order ts = map (completed run_echo) ts

abbrev late : List TestRun → List Completion
late ts = first_last (in_order ts)

abbrev world : (List TestRun → List Completion) → Env
world complete = record {
  lowercase = ascii_only;
  compile_memory_bytes = 536870912;
  compile_cpu_max_percent = none;
  run_cpu_max_percent = some 100;
  temp_dir = ok (codes "/tmp/a");
  write_source = λ path text. ok tt;
  run_sandbox = λ c. ok (echo c.stdin_data);
  from_utf8_lossy = λ bytes. bytes;
  complete = complete;
}

abbrev three : List TestCase
three =
    record { input = codes "1"; expected_output = some (codes "1\n") }
    ∷ record { input = codes "2"; expected_output = some (codes "3") }
    ∷ record { input = codes "4"; expected_output = none }
    ∷ []

abbrev job : Option Bool → JobRequest
job stop = record {
  job_id = codes "j1";
  language = codes "Python";
  source_code = codes "print(input())";
  time_limit_ms = 2000;
  memory_limit_bytes = 268435456;
  test_cases = three;
  stop_on_first_fail = stop;
}

abbrev python : LanguageRunner
python = get_runner SupportedLanguage.python

abbrev dir : Text
dir = codes "/tmp/a"

abbrev fresh : JobResult
fresh = fresh_result (codes "j1")

rotated : (a b c : Completion) → Permᴰ (b ∷ c ∷ a ∷ []) (a ∷ b ∷ c ∷ [])
rotated a b c = Permᴰ.trans (Permᴰ.cons refl (Permᴰ.swap refl refl)) (Permᴰ.swap refl refl)

runs_late :
    Permᴰ
      (late (futs_of (world late) python dir (job none)))
      (map (completed run_echo) (futs_of (world late) python dir (job none)))
unfolding test_futs
runs_late = rotated _ _ _

run_tests_lem_example :
    (final : JobResult) × ((run_tests (world late) python dir (job none) fresh no_jobs).result
      ≡ ok final)
    × Reports fresh (map (report run_echo) (futs_of (world late) python dir (job none))) final
run_tests_lem_example =
    run_tests_lem run_echo (world late) python dir (job none) fresh no_jobs (λ e. grind arith)
      runs_late refl refl

abbrev ordered : List Completion
ordered = in_order (futs_of (world in_order) python dir (job none))

completes : Completes ordered (futs_of (world in_order) python dir (job none))
unfolding test_futs
completes = Permᴰ.refl _

moved : Permᴰ ordered (late (futs_of (world in_order) python dir (job none)))
unfolding test_futs
moved = Permᴰ.symm (rotated _ _ _)

runs_ended : All Succeeded ordered
unfolding test_futs
runs_ended = ((_, refl), ((_, refl), ((_, refl), tt)))

run_tests_any_order_example :
    let one = run_tests (world in_order) python dir (job none) fresh no_jobs in
    let other = run_tests (world late) python dir (job none) fresh no_jobs in
    (one.result ≡ other.result) × (one.metrics ≡ other.metrics)
run_tests_any_order_example =
    run_tests_any_order (world in_order) late python dir (job none) fresh no_jobs (λ e. grind arith)
      completes moved runs_ended

late_ended : All Succeeded (late (futs_of (world late) python dir (job (some true))))
unfolding test_futs
late_ended = ((_, refl), ((_, refl), ((_, refl), tt)))

run_tests_stop_example :
    let ended = raws (late (futs_of (world late) python dir (job (some true)))) in
    (final : JobResult) × ((run_tests
        (world late)
        python
        dir
        (job (some true))
        fresh
        no_jobs).result
      ≡ ok final)
    × (final.test_results ≡ map test_case_result (sort_by_idx (until_failure ended)))
    × (final.verdict ≡ first_failure (map test_case_result ended))
run_tests_stop_example =
    run_tests_stop (world late) python dir (job (some true)) fresh no_jobs refl late_ended refl refl

execute_counts_no_compile_error_example :
    (execute (world late) (job none) no_jobs).metrics.jobs_compile_error ≡ 0
execute_counts_no_compile_error_example =
    execute_counts_no_compile_error (world late) (job none) no_jobs

futs_of-Confined_example :
    Matched
      (Confined (some 100) python.max_pids dir (job none))
      0
      three
      (futs_of (world late) python dir (job none))
futs_of-Confined_example = futs_of-Confined (world late) SupportedLanguage.python dir (job none)

abbrev first_run : TestRun
first_run = record {
  idx = 0;
  expected = some (codes "1\n");
  time_limit_ms = 2000;
  memory_limit_bytes = 268435456;
  run_config = python.get_run_command dir [] 2000 268435456;
}

test_verdict-accepted_iff_example :
    (test_verdict first_run (echo (some (49 ∷ []))) ≡ accepted)
    ↔ Passed first_run SandboxStatus.ok (echo (some (49 ∷ [])))
test_verdict-accepted_iff_example = test_verdict-accepted_iff first_run (echo (some (49 ∷ [])))

-- A program and, in a directory, a link out of the workspace.
abbrev built : Entries
built =
    entry (codes "binary") file
      (entry (codes "src") (directory (entry (codes "x") (link (codes "/etc/hosts")) end)) end)

chown_tree_iff_example :
    Memᴰ (codes "/etc/hosts") (chown_tree (codes "/tmp/w") (directory built))
    ↔ ((codes "/etc/hosts" ≡ codes "/tmp/w") ⊎ Handed (codes "/tmp/w") built (codes "/etc/hosts"))
chown_tree_iff_example = chown_tree_iff (codes "/tmp/w") built (codes "/etc/hosts")
