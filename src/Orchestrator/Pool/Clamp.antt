-- ===== src/Orchestrator/Pool/Clamp.antt =====
-- src/orchestrator/pool.rs: the memory ceiling, on every path into the pool.
use akiro.Prelude.{ℕ, ◌≤◌, subst, List, [], ◌∷◌, ◌++◌, All, arith}
use akiro.Prelude.Text.{Text}
use akiro.Orchestrator.Job.{JobRequest}
use akiro.Orchestrator.Pool.{
  Pool, prepare, admit, count, send, fail_to_send, close, receive, dequeue, begin_work, answer,
  end_work, Pick, Step, Steps, new,
}

-- The memory of a request is within the ceiling.
abbrev pub Clamped : ℕ → JobRequest → Type 0
Clamped max_mem r = r.memory_limit_bytes ≤ max_mem

prepare-Clamped :
    (max_mem : ℕ) (uuid : Text) (r : JobRequest) → Clamped max_mem (prepare max_mem uuid r)
unfolding prepare
prepare-Clamped max_mem uuid r = ground arith

All-Pick :
    (P : JobRequest → Type 0) {r : JobRequest} {rs others : List JobRequest}
    → Pick r rs others
    → All P rs
    → P r × All P others
All-Pick P Pick.here (h, hs) = (h, hs)
All-Pick P (Pick.there p) (h, hs) = let (one, more) = All-Pick P p hs in (one, (h, more))

All-snoc :
    (P : JobRequest → Type 0) {r : JobRequest} (rs : List JobRequest)
    → All P rs
    → P r
    → All P (rs ++ (r ∷ []))
All-snoc P [] h k = (k, tt)
All-snoc P (x ∷ rs) (h, hs) k = (h, All-snoc P rs hs k)

record AllClamped (max_mem : ℕ) (p : Pool) : Type 0 where
  pub admitted : All (Clamped max_mem) p.admitted
  pub counted : All (Clamped max_mem) p.counted
  pub channel : All (Clamped max_mem) p.channel
  pub received : All (Clamped max_mem) p.received
  pub dequeued : All (Clamped max_mem) p.dequeued
  pub running : All (Clamped max_mem) p.running

module _ (max_mem submitters : ℕ) where
  step-AllClamped :
      {p q : Pool} → AllClamped max_mem p → Step max_mem submitters p q → AllClamped max_mem q
  unfolding admit count send fail_to_send close receive dequeue begin_work answer end_work
  step-AllClamped a (Step.admits request uuid free few) = record {
    admitted = (prepare-Clamped max_mem uuid request, a.admitted);
    counted = a.counted;
    channel = a.channel;
    received = a.received;
    dequeued = a.dequeued;
    running = a.running;
  }
  step-AllClamped a (Step.counts pick) =
      let (one, others) = All-Pick _ pick a.admitted in
      record {
        admitted = others;
        counted = (one, a.counted);
        channel = a.channel;
        received = a.received;
        dequeued = a.dequeued;
        running = a.running;
      }
  step-AllClamped a (Step.sends {p = p} pick is_open) =
      let (one, others) = All-Pick _ pick a.counted in
      record {
        admitted = a.admitted;
        counted = others;
        channel = All-snoc _ p.channel a.channel one;
        received = a.received;
        dequeued = a.dequeued;
        running = a.running;
      }
  step-AllClamped a (Step.fails_to_send pick is_shut) =
      let (one, others) = All-Pick _ pick a.counted in
      record {
        admitted = a.admitted;
        counted = others;
        channel = a.channel;
        received = a.received;
        dequeued = a.dequeued;
        running = a.running;
      }
  step-AllClamped a (Step.closes) = record {
    admitted = a.admitted;
    counted = a.counted;
    channel = tt;
    received = a.received;
    dequeued = a.dequeued;
    running = a.running;
  }
  step-AllClamped a (Step.receives e free) =
      let (one, others) = subst (All (Clamped max_mem)) e a.channel in
      record {
        admitted = a.admitted;
        counted = a.counted;
        channel = others;
        received = (one, a.received);
        dequeued = a.dequeued;
        running = a.running;
      }
  step-AllClamped a (Step.dequeues pick) =
      let (one, others) = All-Pick _ pick a.received in
      record {
        admitted = a.admitted;
        counted = a.counted;
        channel = a.channel;
        received = others;
        dequeued = (one, a.dequeued);
        running = a.running;
      }
  step-AllClamped a (Step.begins pick) =
      let (one, others) = All-Pick _ pick a.dequeued in
      record {
        admitted = a.admitted;
        counted = a.counted;
        channel = a.channel;
        received = a.received;
        dequeued = others;
        running = (one, a.running);
      }
  step-AllClamped a (Step.answers pick) =
      let (one, others) = All-Pick _ pick a.running in
      record {
        admitted = a.admitted;
        counted = a.counted;
        channel = a.channel;
        received = a.received;
        dequeued = a.dequeued;
        running = others;
      }
  step-AllClamped a (Step.ends pick) = record {
    admitted = a.admitted;
    counted = a.counted;
    channel = a.channel;
    received = a.received;
    dequeued = a.dequeued;
    running = a.running;
  }

  Steps-AllClamped :
      {p q : Pool} → AllClamped max_mem p → Steps max_mem submitters p q → AllClamped max_mem q
  Steps-AllClamped a Steps.rest = a
  Steps-AllClamped a (Steps.then_one steps s) = step-AllClamped (Steps-AllClamped a steps) s

  -- No job that a worker of the pool runs asks for more memory than the deployment's ceiling,
  -- whatever was submitted.
  pub running-Clamped :
      (workers max_queue : ℕ) {p : Pool}
      → Steps max_mem submitters (new workers max_queue) p
      → All (Clamped max_mem) p.running
  unfolding new
  running-Clamped workers max_queue steps =
      (Steps-AllClamped
        (record {
          admitted = tt;
          counted = tt;
          channel = tt;
          received = tt;
          dequeued = tt;
          running = tt;
        })
        steps).running
