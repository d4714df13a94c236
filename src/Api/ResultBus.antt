-- ===== src/Api/ResultBus.antt =====
-- src/api/result_bus.rs: the gateway's side of the queue. The store is that of Queue.Redis; what
-- each command and each wait answers, and serde's JSON, are parameters.
pub mod Enqueue
pub mod Waiting
pub mod Listener
pub mod Examples
use akiro.Prelude.{
  ℕ, zero, suc, ◌+◌, ◌-◌, Bool, true, false, ◌==◌, ltb, leb, Option, none, some, List, [], ◌∷◌,
  if◌then◌else◌,
}
use akiro.Prelude.Text.{Text, codes, text_eq, trim, parse_unsigned}
use akiro.Prelude.Word.{u64_max}
use akiro.Queue.Redis.{Command, Redis, result_key, pending_key}
use akiro.Queue.Publish.{
  Attempt, cut_after, refuses, answered, perform_some, perform_flagged, perform_all,
}

pub data EnqueueOutcome : Type 0 where
  queued duplicate redis_down : EnqueueOutcome

abbrev or_ten_thousand : Option ℕ → ℕ
or_ten_thousand none = 10000
or_ten_thousand (some n) = n

-- From JUDGE_STREAM_MAXLEN.
unfoldable pub stream_maxlen : Option Text → ℕ
stream_maxlen none = 10000
stream_maxlen (some s) = or_ten_thousand (parse_unsigned u64_max (trim s))

-- The MAXLEN of XADD, if any.
abbrev pub maxlen_arg : ℕ → Option ℕ
maxlen_arg maxlen = if ltb 0 maxlen then some maxlen else none

-- What the gateway sees of XADD: a reply, or an error, with the entry added or not.
pub data Reply : Type 0 where
  replied : Reply
  lost : Bool → Reply

abbrev pub job_stream : Text
job_stream = codes "judge:jobs"

unfoldable pub claim_pipe : Text → ℕ → List Command
claim_pipe job_id ttl =
    Command.del (result_key job_id) ∷ Command.set_nx (pending_key job_id) (codes "1") ttl ∷ []

abbrev pub parse_result : {R : Type 0} → (Text → Option R) → Option Text → Option R
parse_result from_str none = none
parse_result from_str (some json) = from_str json

abbrev pub is_there : Option Text → Bool
is_there none = false
is_there (some v) = true

module _ {Db : Type 0} (redis : Redis Db) where
  abbrev pub if_lands : Bool → Command → Db → Db
  if_lands true c d = redis.perform c d
  if_lands false c d = d

  unfoldable pub add_job : Text → Text → ℕ → Reply → Bool → Db → EnqueueOutcome × Db
  add_job job_id job_json maxlen replied rollback d =
      (queued, redis.perform (Command.xadd job_stream (maxlen_arg maxlen) job_json) d)
  add_job job_id job_json maxlen (lost landed) rollback d = (
    redis_down,
    if_lands rollback (Command.del (pending_key job_id))
        (if_lands landed (Command.xadd job_stream (maxlen_arg maxlen) job_json) d),
  )

  -- By the marker that was there: SET with NX replies nothing if there was one.
  unfoldable pub after_claim :
      Option Text → Text → Text → ℕ → Reply → Bool → Db → EnqueueOutcome × Db
  unfolding add_job
  after_claim (some marker) job_id job_json maxlen reply rollback d = (duplicate, d)
  after_claim none job_id job_json maxlen reply rollback d =
      add_job job_id job_json maxlen reply rollback d

  -- The job's JSON, the answer to the first pipe, that to XADD and whether the rollback lands.
  unfoldable pub enqueue :
      Text → Option Text → ℕ → ℕ → Attempt → Reply → Bool → Db → EnqueueOutcome × Db
  unfolding claim_pipe after_claim perform_all perform_some perform_flagged
  enqueue job_id none ttl maxlen claim reply rollback d = (redis_down, d)
  enqueue job_id (some job_json) ttl maxlen (cut_after n) reply rollback d =
      (redis_down, perform_some redis n (claim_pipe job_id ttl) d)
  enqueue job_id (some job_json) ttl maxlen (refuses flags) reply rollback d =
      (redis_down, perform_flagged redis flags (claim_pipe job_id ttl) d)
  enqueue job_id (some job_json) ttl maxlen answered reply rollback d =
      after_claim (redis.get d (pending_key job_id)) job_id job_json maxlen reply rollback
        (perform_all redis (claim_pipe job_id ttl) d)

  -- Whether GET is answered comes first, as for EXISTS.
  unfoldable pub try_result : {R : Type 0} → (Text → Option R) → Bool → Text → Db → Option R
  try_result from_str false job_id d = none
  try_result from_str true job_id d = parse_result from_str (redis.get d (result_key job_id))

  unfoldable pub is_pending : Bool → Text → Db → Bool
  is_pending false job_id d = false
  is_pending true job_id d = is_there (redis.get d (pending_key job_id))

-- How a wait ended: the bell rang, its sender was gone, or the time of the poll had passed.
pub data Wake : Type 0 where
  bell gone polled : Wake

-- One round of waiting: the time at its start, how it woke and what GET then found.
pub record Round (R : Type 0) : Type 0 where
  pub now : ℕ
  pub wake : Wake
  pub found : Option R

-- A waiter still waits when its rounds run out, or has answered.
pub data Waited (R : Type 0) : Type 0 where
  waiting : Waited R
  answers : Option R → Waited R

module _ {R : Type 0} where
  -- In `poll_until` the GET comes before the time is read.
  abbrev pub poll_round : Option R → Bool → Waited R → Waited R
  poll_round (some r) late rest = answers (some r)
  poll_round none late rest = if late then answers none else rest

  unfoldable pub poll_until : ℕ → List (Round R) → Waited R
  poll_until deadline [] = waiting
  poll_until deadline (round ∷ rounds) =
      poll_round round.found (leb deadline round.now) (poll_until deadline rounds)

  abbrev pub wake_round : Option R → Wake → Waited R → Waited R → Waited R
  wake_round (some r) wake degraded rest = answers (some r)
  wake_round none gone degraded rest = degraded
  wake_round none bell degraded rest = rest
  wake_round none polled degraded rest = rest

  unfoldable pub wait_rounds : ℕ → List (Round R) → Waited R
  unfolding poll_until
  wait_rounds deadline [] = waiting
  wait_rounds deadline (round ∷ rounds) =
      let degraded = poll_until deadline rounds in
      let rest = wait_rounds deadline rounds in
      if leb deadline round.now
      then answers none
      else wake_round round.found round.wake degraded rest

  -- The first GET, and the rounds after it.
  unfoldable pub wait_for : Option R → ℕ → List (Round R) → Waited R
  unfolding wait_rounds
  wait_for (some r) deadline rounds = answers (some r)
  wait_for none deadline rounds = wait_rounds deadline rounds

-- The registry: for each job with a sender, the number of its receivers.
abbrev pub Registry : Type 0
Registry = Text → Option ℕ

abbrev pub at : Text → Option ℕ → Registry → Registry
at job_id entry map other = if text_eq job_id other then entry else map other

abbrev one_more : Option ℕ → Option ℕ
one_more none = some 1
one_more (some n) = some (1 + n)

unfoldable pub register : Text → Registry → Registry
register job_id map = at job_id (one_more (map job_id)) map

abbrev reaped : Option ℕ → Option ℕ
reaped none = none
reaped (some n) = if n == 0 then none else some n

-- `WaiterGuard::drop`.
unfoldable pub drop_guard : Text → Registry → Registry
drop_guard job_id map = at job_id (reaped (map job_id)) map

abbrev one_less : Option ℕ → Option ℕ
one_less none = none
one_less (some n) = some (n - 1)

unfoldable pub drop_receiver : Text → Registry → Registry
drop_receiver job_id map = at job_id (one_less (map job_id)) map

-- The end of `wait_for`: the bindings of `let (mut rx, _guard)` are dropped in reverse order.
unfoldable pub leave : Text → Registry → Registry
unfolding drop_receiver drop_guard
leave job_id map = drop_receiver job_id (drop_guard job_id map)
