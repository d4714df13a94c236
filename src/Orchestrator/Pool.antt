-- ===== src/Orchestrator/Pool.antt =====
-- src/orchestrator/pool.rs: the worker pool. Submitters and workers interleave; each touch of a
-- shared counter or of the channel is a step of its own, as the counters are separate atomics.
-- Jobs stand in the list of the last step that they made.
pub mod Counters
pub mod Clamp
pub mod Examples
use akiro.Prelude.{
  ℕ, ◌+◌, ◌-◌, ◌<◌, ◌≡◌, Bool, true, false, List, [], ◌∷◌, ◌++◌, ltb, leb, if◌then◌else◌, length,
}
use akiro.Prelude.Text.{Text}
use akiro.Prelude.Word.{add64, sub64, saturating_sub}
use akiro.Orchestrator.Job.{JobRequest}

-- `idle_workers`.
pub record Pool : Type 0 where
  pub num_workers : ℕ
  pub max_queue_size : ℕ
  pub queued_jobs : ℕ
  pub busy_workers : ℕ
  pub is_open : Bool
  -- Submitters that passed the check of the queue, and those that counted their job.
  pub admitted : List JobRequest
  pub counted : List JobRequest
  pub channel : List JobRequest
  -- Workers that received a job, took it off the count, count as busy, and sent the result.
  pub received : List JobRequest
  pub dequeued : List JobRequest
  pub running : List JobRequest
  pub answered : List JobRequest
  -- Jobs in the channel when its receiver went.
  pub lost : List JobRequest

abbrev pub idle_workers : Pool → ℕ
idle_workers p = saturating_sub p.num_workers p.busy_workers

abbrev is_empty_id : Text → Bool
is_empty_id [] = true
is_empty_id (c ∷ cs) = false

-- What `submit` makes of a request: an id if it has none, and the memory clamped.
unfoldable pub prepare : ℕ → Text → JobRequest → JobRequest
prepare max_mem uuid request =
    let named = if is_empty_id request.job_id then record request { job_id = uuid } else request in
    if ltb max_mem named.memory_limit_bytes
    then record named { memory_limit_bytes = max_mem }
    else named

abbrev pub is_full : Pool → Bool
is_full p = leb p.max_queue_size p.queued_jobs

abbrev pub workers_used : Pool → ℕ
workers_used p = length p.received + (length p.dequeued + (length p.running + length p.answered))

unfoldable pub admit : JobRequest → Pool → Pool
admit r p = record p { admitted = r ∷ p.admitted }

unfoldable pub count : JobRequest → List JobRequest → Pool → Pool
count r others p = record p {
  admitted = others;
  counted = r ∷ p.counted;
  queued_jobs = add64 p.queued_jobs 1;
}

unfoldable pub send : JobRequest → List JobRequest → Pool → Pool
send r others p = record p { counted = others; channel = p.channel ++ (r ∷ []) }

-- `send` on a closed channel.
unfoldable pub fail_to_send : List JobRequest → Pool → Pool
fail_to_send others p = record p { counted = others; queued_jobs = sub64 p.queued_jobs 1 }

unfoldable pub close : Pool → Pool
close p = record p { is_open = false; channel = []; lost = p.channel ++ p.lost }

unfoldable pub receive : JobRequest → List JobRequest → Pool → Pool
receive r others p = record p { channel = others; received = r ∷ p.received }

unfoldable pub dequeue : JobRequest → List JobRequest → Pool → Pool
dequeue r others p = record p {
  received = others;
  dequeued = r ∷ p.dequeued;
  queued_jobs = sub64 p.queued_jobs 1;
}

unfoldable pub begin_work : JobRequest → List JobRequest → Pool → Pool
begin_work r others p = record p {
  dequeued = others;
  running = r ∷ p.running;
  busy_workers = add64 p.busy_workers 1;
}

unfoldable pub answer : JobRequest → List JobRequest → Pool → Pool
answer r others p = record p { running = others; answered = r ∷ p.answered }

unfoldable pub end_work : List JobRequest → Pool → Pool
end_work others p = record p { answered = others; busy_workers = sub64 p.busy_workers 1 }

-- One job of a list, and the others.
pub data Pick (r : JobRequest) : List JobRequest → List JobRequest → Type 0 where
  here : {rs : List JobRequest} → Pick r (r ∷ rs) rs
  there :
      {x : JobRequest} {rs others : List JobRequest}
      → Pick r rs others
      → Pick r (x ∷ rs) (x ∷ others)

-- The steps of a deployment with a ceiling on memory and at most so many submitters between
-- their check and their count.
pub data Step (max_mem submitters : ℕ) : Pool → Pool → Type 0 where
  admits :
      {p : Pool} (request : JobRequest) (uuid : Text)
      → is_full p ≡ false
      → length p.admitted < submitters
      → Step max_mem submitters p (admit (prepare max_mem uuid request) p)
  counts :
      {p : Pool} {r : JobRequest} {others : List JobRequest}
      → Pick r p.admitted others
      → Step max_mem submitters p (count r others p)
  sends :
      {p : Pool} {r : JobRequest} {others : List JobRequest}
      → Pick r p.counted others
      → p.is_open ≡ true
      → Step max_mem submitters p (send r others p)
  fails_to_send :
      {p : Pool} {r : JobRequest} {others : List JobRequest}
      → Pick r p.counted others
      → p.is_open ≡ false
      → Step max_mem submitters p (fail_to_send others p)
  closes : {p : Pool} → Step max_mem submitters p (close p)
  receives :
      {p : Pool} {r : JobRequest} {others : List JobRequest}
      → p.channel ≡ (r ∷ others)
      → workers_used p < p.num_workers
      → Step max_mem submitters p (receive r others p)
  dequeues :
      {p : Pool} {r : JobRequest} {others : List JobRequest}
      → Pick r p.received others
      → Step max_mem submitters p (dequeue r others p)
  begins :
      {p : Pool} {r : JobRequest} {others : List JobRequest}
      → Pick r p.dequeued others
      → Step max_mem submitters p (begin_work r others p)
  answers :
      {p : Pool} {r : JobRequest} {others : List JobRequest}
      → Pick r p.running others
      → Step max_mem submitters p (answer r others p)
  ends :
      {p : Pool} {r : JobRequest} {others : List JobRequest}
      → Pick r p.answered others
      → Step max_mem submitters p (end_work others p)

pub data Steps (max_mem submitters : ℕ) : Pool → Pool → Type 0 where
  rest : {p : Pool} → Steps max_mem submitters p p
  then_one :
      {p q r : Pool}
      → Steps max_mem submitters p q
      → Step max_mem submitters q r
      → Steps max_mem submitters p r

unfoldable pub new : ℕ → ℕ → Pool
new num_workers max_queue_size = record {
  num_workers = num_workers;
  max_queue_size = max_queue_size;
  queued_jobs = 0;
  busy_workers = 0;
  is_open = true;
  admitted = [];
  counted = [];
  channel = [];
  received = [];
  dequeued = [];
  running = [];
  answered = [];
  lost = [];
}
