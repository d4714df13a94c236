-- ===== src/Api/Handlers/Examples.antt =====
-- src/api/handlers.rs: the theorems at a small submission whose queue is down, and for a job that is
-- queued and reported.
use akiro.Prelude.{ℕ, ◌≡◌, refl, Option, none, some, [], ◌∷◌, true, map, All, arith}
use akiro.Prelude.Result.{ok}
use akiro.Prelude.Text.{Text, codes, ascii_lower, Lowercase}
use akiro.Orchestrator.Job.{JobRequest, JobResult, accepted}
use akiro.Queue.Publish.{answered, publish_result}
use akiro.Queue.Examples.{Store, store, delivered}
use akiro.Api.ResultBus.{EnqueueOutcome, queued, redis_down, replied, add_job, after_claim, enqueue}
use akiro.Api.Handlers.{
  with_id, ApiState, Parts, pending, job_result, respond, submit, submit_async,
}
use akiro.Api.Handlers.Submitted.{Sound, submit-Sound}
use akiro.Api.Handlers.Found.{look, look_queued}

abbrev pub ascii_only : Lowercase
ascii_only = record { to_lowercase = map ascii_lower; on_ascii = λ s h. refl }

abbrev pub hello : JobRequest
hello = record {
  job_id = [];
  language = codes "python";
  source_code = codes "print(1)";
  time_limit_ms = 2000;
  memory_limit_bytes = 268435456;
  test_cases = record { input = []; expected_output = some (codes "1") } ∷ [];
  stop_on_first_fail = none;
}

abbrev passed : JobResult
passed = record {
  job_id = codes "a";
  verdict = accepted;
  total_cpu_time_ms = 20;
  peak_memory_kb = 9000;
  compile_output = none;
  test_results = [];
}

abbrev pub state : ApiState
state = record { enabled_languages = none; has_bus = true }

abbrev parts : Parts
parts = record {
  uuid = codes "f81d";
  outcome = λ r. redis_down;
  waited = none;
  pool = λ r. ok passed;
}

submit-Sound_example :
    let job = with_id parts hello in
    (ttl : ℕ) × All (Sound ascii_only state parts job ttl) (submit ascii_only state parts hello).1
    × All (Sound ascii_only state parts job ttl) (submit_async ascii_only state parts hello).1
submit-Sound_example = submit-Sound ascii_only state parts hello (λ e. grind arith)

-- Any JSON is that of the result.
abbrev from_str : Text → Option JobResult
from_str json = some passed

-- No key has a value.
abbrev queues : EnqueueOutcome × Store
queues = enqueue store (codes "a") (some (codes "{}")) 660 10000 answered replied true delivered

is_queued : queues.0 ≡ queued
unfolding enqueue after_claim add_job
is_queued = refl

look_queued_example :
    (look store from_str (codes "a") queues.1 ≡ respond 202 (pending (codes "a")))
    × (look store from_str
          (codes "a")
          (publish_result store
            (codes "s")
            (codes "g")
            (codes "1-0")
            (codes "a")
            (codes "{}")
            60
            (λ n. answered)
            queues.1).store
        ≡ respond 200 (job_result passed))
look_queued_example =
    look_queued store from_str (codes "a") (codes "{}") (codes "{}") (codes "s") (codes "g")
      (codes "1-0") passed 660 10000 60 1 replied true (λ n. answered) delivered is_queued refl
      (omega arith) (omega arith) refl
