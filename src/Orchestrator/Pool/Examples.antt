-- ===== src/Orchestrator/Pool/Examples.antt =====
-- src/orchestrator/pool.rs: the theorems at a pool that takes one job up.
use akiro.Prelude.{◌+◌, ◌≤◌, ◌≡◌, refl, none, [], arith}
use akiro.Prelude.Text.{codes}
use akiro.Orchestrator.Job.{JobRequest}
use akiro.Orchestrator.Pool.{
  Pool, prepare, admit, count, send, receive, dequeue, begin_work, Pick, Step, Steps, new,
  idle_workers,
}
use akiro.Orchestrator.Pool.Counters.{Balanced, pool_counters}

abbrev greedy : JobRequest
greedy = record {
  job_id = [];
  language = codes "c";
  source_code = codes "main(){}";
  time_limit_ms = 1000;
  memory_limit_bytes = 2000000000;
  test_cases = [];
  stop_on_first_fail = none;
}

abbrev tamed : JobRequest
tamed = prepare 536870912 (codes "u1") greedy

abbrev pub working : Pool
working =
    begin_work tamed [] (
      dequeue tamed []
        (receive tamed [] (send tamed [] (count tamed [] (admit tamed (new 2 128))))))

pub run_up : Steps 536870912 3 (new 2 128) working
unfolding new admit count send receive dequeue begin_work
run_up =
    Steps.then_one
      (Steps.then_one
        (Steps.then_one
          (Steps.then_one
            (Steps.then_one
              (Steps.then_one Steps.rest (Step.admits greedy (codes "u1") refl (omega arith)))
              (Step.counts Pick.here))
            (Step.sends Pick.here refl))
          (Step.receives refl (omega arith)))
        (Step.dequeues Pick.here))
      (Step.begins Pick.here)

pool_counters_example :
    Balanced 3 working
    × (working.busy_workers ≤ 2)
    × (working.queued_jobs ≤ 130)
    × (idle_workers working + working.busy_workers ≡ 2)
pool_counters_example = pool_counters 536870912 3 2 128 (omega arith) (omega arith) run_up
