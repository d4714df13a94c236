-- ===== src/Orchestrator/Job/Examples.antt =====
-- src/orchestrator/job.rs: the theorem at a small submission.
use akiro.Prelude.{◌≡◌, ◌↔◌, none, some, [], ◌∷◌}
use akiro.Prelude.Result.{ok}
use akiro.Prelude.Text.{codes}
use akiro.Orchestrator.Job.{JobRequest, validate}
use akiro.Orchestrator.Job.Validation.{IsValid, validate_iff}

abbrev hello : JobRequest
hello = record {
  job_id = codes "j1";
  language = codes "python";
  source_code = codes "print(1)";
  time_limit_ms = 2000;
  memory_limit_bytes = 268435456;
  test_cases = record { input = []; expected_output = some (codes "1") } ∷ [];
  stop_on_first_fail = none;
}

validate_iff_example : (validate hello ≡ ok tt) ↔ IsValid hello
validate_iff_example = validate_iff hello
