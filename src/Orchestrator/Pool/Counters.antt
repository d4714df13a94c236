-- ===== src/Orchestrator/Pool/Counters.antt =====
-- src/orchestrator/pool.rs: what the two counters of the pool count.
use akiro.Prelude.{
  ℕ, suc, ◌+◌, ◌-◌, ◌≤◌, ◌<◌, ◌≡◌, refl, ap, List, [], ◌∷◌, length, length-append, arith,
}
use akiro.Orchestrator.Job.{JobRequest}
use akiro.Orchestrator.Pool.{
  Pool, workers_used, admit, count, send, fail_to_send, close, receive, dequeue, begin_work, answer,
  end_work, Pick, Step, Steps, new, idle_workers,
}

length-Pick :
    {r : JobRequest} {rs others : List JobRequest}
    → Pick r rs others
    → length rs ≡ suc (length others)
length-Pick Pick.here = refl
length-Pick (Pick.there p) = ap suc (length-Pick p)

-- What holds between the steps: the counters count the jobs that stand where they should, no more
-- jobs are worked on than there are workers, and the queue is full at most by those who raced.
pub record Balanced (submitters : ℕ) (p : Pool) : Type 0 where
  pub queued :
      p.queued_jobs ≡ length p.counted + (length p.channel + (length p.received + length p.lost))
  pub busy : p.busy_workers ≡ length p.running + length p.answered
  pub slots : workers_used p ≤ p.num_workers
  pub room : p.queued_jobs + length p.admitted ≤ p.max_queue_size + (submitters - 1)

module _ (max_mem submitters workers max_queue : ℕ)
    (narrow : max_queue + submitters < 18446744073709551616)
    (few : workers < 18446744073709551616) where
  abbrev Good : Pool → Type 0
  Good p = Balanced submitters p × (p.num_workers ≡ workers) × (p.max_queue_size ≡ max_queue)

  step-Balanced : {p q : Pool} → Good p → Step max_mem submitters p q → Good q
  unfolding admit count send fail_to_send close receive dequeue begin_work answer end_work
  step-Balanced (b, w, m) (Step.admits {p = p} request uuid free few_now) = (
    record { queued = b.queued; busy = b.busy; slots = b.slots; room = ground (arith, b.room) },
    w,
    m,
  )
  step-Balanced (b, w, m) (Step.counts pick) =
      let n = length-Pick pick in
      (
        record {
          queued = omega (arith, n, b.queued, b.room, m, narrow);
          busy = b.busy;
          slots = b.slots;
          room = omega (arith, n, b.queued, b.room, m, narrow);
        },
        w,
        m,
      )
  step-Balanced (b, w, m) (Step.sends {p = p} {r = r} pick is_open) =
      let n = length-Pick pick in
      let k = length-append p.channel (r ∷ []) in
      (
        record {
          queued = omega (arith, n, k, b.queued);
          busy = b.busy;
          slots = b.slots;
          room = b.room;
        },
        w,
        m,
      )
  step-Balanced (b, w, m) (Step.fails_to_send pick is_shut) =
      let n = length-Pick pick in
      (
        record {
          queued = omega (arith, n, b.queued, b.room, m, narrow);
          busy = b.busy;
          slots = b.slots;
          room = omega (arith, n, b.queued, b.room, m, narrow);
        },
        w,
        m,
      )
  step-Balanced (b, w, m) (Step.closes {p = p}) =
      let k = length-append p.channel p.lost in
      (
        record {
          queued = omega (arith, k, b.queued);
          busy = b.busy;
          slots = b.slots;
          room = b.room;
        },
        w,
        m,
      )
  step-Balanced (b, w, m) (Step.receives e free) =
      let n = ap length e in
      (
        record {
          queued = omega (arith, n, b.queued);
          busy = b.busy;
          slots = omega (arith, free);
          room = b.room;
        },
        w,
        m,
      )
  step-Balanced (b, w, m) (Step.dequeues pick) =
      let n = length-Pick pick in
      (
        record {
          queued = omega (arith, n, b.queued, b.room, m, narrow);
          busy = b.busy;
          slots = omega (arith, n, b.slots);
          room = omega (arith, n, b.queued, b.room, m, narrow);
        },
        w,
        m,
      )
  step-Balanced (b, w, m) (Step.begins pick) =
      let n = length-Pick pick in
      (
        record {
          queued = b.queued;
          busy = omega (arith, n, b.busy, b.slots, w, few);
          slots = omega (arith, n, b.slots);
          room = b.room;
        },
        w,
        m,
      )
  step-Balanced (b, w, m) (Step.answers pick) =
      let n = length-Pick pick in
      (
        record {
          queued = b.queued;
          busy = omega (arith, n, b.busy);
          slots = omega (arith, n, b.slots);
          room = b.room;
        },
        w,
        m,
      )
  step-Balanced (b, w, m) (Step.ends pick) =
      let n = length-Pick pick in
      (
        record {
          queued = b.queued;
          busy = omega (arith, n, b.busy, b.slots, w, few);
          slots = omega (arith, n, b.slots);
          room = b.room;
        },
        w,
        m,
      )

  Steps-Balanced : {p q : Pool} → Good p → Steps max_mem submitters p q → Good q
  Steps-Balanced g Steps.rest = g
  Steps-Balanced g (Steps.then_one steps s) = step-Balanced (Steps-Balanced g steps) s

  -- Where the workers, and the queue limit and the submitters that may race together, fit a u64: in
  -- every state that a pool reaches, whatever the interleaving of its submitters and workers, the
  -- queue counter is the number of jobs counted but not yet taken off, the busy counter is the
  -- number of jobs being worked on, no more than the workers, the idle workers are the others, and
  -- the queue holds at most its limit and one job for each further submitter that may race.
  pub pool_counters :
      {p : Pool}
      → Steps max_mem submitters (new workers max_queue) p
      → Balanced submitters p
        × (p.busy_workers ≤ workers)
        × (p.queued_jobs ≤ max_queue + (submitters - 1))
        × (idle_workers p + p.busy_workers ≡ workers)
  unfolding new
  pool_counters steps = finish (Steps-Balanced start steps)
    where
      start : Good (new workers max_queue)
      start = (
        record { queued = refl; busy = refl; slots = omega arith; room = omega arith },
        refl,
        refl,
      )

      finish :
          {p : Pool}
          → Good p
          → Balanced submitters p
            × (p.busy_workers ≤ workers)
            × (p.queued_jobs ≤ max_queue + (submitters - 1))
            × (idle_workers p + p.busy_workers ≡ workers)
      finish (b, w, m) = (
        b,
        omega (arith, b.busy, b.slots, w),
        omega (arith, b.room, m),
        omega (arith, b.busy, b.slots, w),
      )
