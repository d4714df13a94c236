-- ===== src/Queue/Reclaim.antt =====
-- src/queue/redis.rs: the messages of a stream, as they are delivered and as they are reclaimed. The
-- decoding of bytes and of JSON is a parameter.
use akiro.Prelude.{
  ℕ, ◌+◌, Bool, true, false, Option, none, some, List, [], ◌∷◌, ◌++◌, if◌then◌else◌,
}
use akiro.Prelude.Int.{ℤ}
use akiro.Prelude.Text.{Text, codes, text_eq}
use akiro.Orchestrator.Job.{JobRequest}
use akiro.Queue.Redis.{Command, Redis, result_key}
use akiro.Queue.Publish.{Attempt, ack_existing}

-- `redis::Value`.
mutual
  pub data Value : Type 0 where
    nil other : Value
    int : ℤ → Value
    bulk_string : List ℕ → Value
    array : Values → Value

  pub data Values : Type 0 where
    end : Values
    item : Value → Values → Values

-- The first two elements of an array that has them.
abbrev pub two_of : Values → Option (Value × Value)
two_of end = none
two_of (item x end) = none
two_of (item x (item y rest)) = some (x, y)

abbrev pub first_two : Value → Option (Value × Value)
first_two (array xs) = two_of xs
first_two nil = none
first_two other = none
first_two (int n) = none
first_two (bulk_string b) = none

abbrev pub elements : Values → List Value
elements end = []
elements (item x xs) = x ∷ elements xs

abbrev pub array_elements : Value → List Value
array_elements (array xs) = elements xs
array_elements nil = []
array_elements other = []
array_elements (int n) = []
array_elements (bulk_string b) = []

module _ (from_utf8_lossy : List ℕ → Text) (from_str : Text → Option JobRequest) where
  abbrev pub text_of : Value → Option Text
  text_of (bulk_string b) = some (from_utf8_lossy b)
  text_of nil = none
  text_of other = none
  text_of (int n) = none
  text_of (array xs) = none

  -- A field and its value, if both are strings and the field is `job`.
  abbrev pub job_value : Option Text → Option Text → Option Text → Option Text
  job_value (some k) (some v) rest = if text_eq k (codes "job") then some v else rest
  job_value none v rest = rest
  job_value (some k) none rest = rest

  unfoldable pub job_of : Values → Option Text
  job_of end = none
  job_of (item k end) = none
  job_of (item k (item v rest)) = job_value (text_of k) (text_of v) (job_of rest)

  unfoldable pub extract_job_field : Value → Option Text
  unfolding job_of
  extract_job_field (array kvs) = job_of kvs
  extract_job_field nil = none
  extract_job_field other = none
  extract_job_field (int n) = none
  extract_job_field (bulk_string b) = none

  abbrev pub and_id : Option Text → Value → Option (Text × Value)
  and_id none fields = none
  and_id (some id) fields = some (id, fields)

  abbrev pub message_parts : Option (Value × Value) → Option (Text × Value)
  message_parts none = none
  message_parts (some (id, fields)) = and_id (text_of id) fields

  -- The entry's id and its fields, if the message has the two.
  unfoldable pub read_message : Value → Option (Text × Value)
  read_message msg = message_parts (first_two msg)

  abbrev pub parsed : Option Text → Option JobRequest
  parsed none = none
  parsed (some json) = from_str json

  unfoldable pub payload : Value → Option JobRequest
  unfolding extract_job_field
  payload fields = parsed (extract_job_field fields)

  -- The jobs that one reply of XREADGROUP starts; what cannot be read is passed over. The semaphore,
  -- which nothing closes, delays a job but refuses none.
  abbrev pub accept : Text → Option JobRequest → List (Text × JobRequest) → List (Text × JobRequest)
  accept id none rest = rest
  accept id (some request) rest = (id, request) ∷ rest

  abbrev pub accept_message :
      Option (Text × Value) → List (Text × JobRequest) → List (Text × JobRequest)
  accept_message none rest = rest
  accept_message (some (id, fields)) rest = accept id (payload fields) rest

  unfoldable pub accept_all : List Value → List (Text × JobRequest)
  unfolding read_message
  accept_all [] = []
  accept_all (msg ∷ msgs) = accept_message (read_message msg) (accept_all msgs)

  abbrev pub messages_of : Option (Value × Value) → List Value
  messages_of none = []
  messages_of (some (key, messages)) = array_elements messages

  unfoldable pub accept_keys : List Value → List (Text × JobRequest)
  unfolding accept_all
  accept_keys [] = []
  accept_keys (key ∷ keys) = accept_all (messages_of (first_two key)) ++ accept_keys keys

  unfoldable pub accept_reply : Value → List (Text × JobRequest)
  unfolding accept_keys
  accept_reply reply = accept_keys (array_elements reply)

-- What the store and the semaphore answer while one claimed message is handled.
pub record Line : Type 0 where
  -- Whether the XACK of a message without a job is carried out.
  pub xack_lands : Bool
  -- Whether GET is answered.
  pub get_lands : Bool
  -- The attempts at acknowledging a job that is done.
  pub attempts : ℕ → Attempt
  -- Whether the semaphore is still there.
  pub permit : Bool

-- The sweep so far: the store, the entries whose jobs are run again, the last one first, the
-- count of those recovered, and whether the sweep goes on.
pub record Sweep (Db : Type 0) : Type 0 where
  pub store : Db
  pub rerun : List (Text × JobRequest)
  pub reclaimed : ℕ
  pub goes_on : Bool

-- The value that GET finds.
abbrev pub existing : Bool → Option Text → Option Text
existing true found = found
existing false found = none

module _ {Db : Type 0} (redis : Redis Db) (from_utf8_lossy : List ℕ → Text)
    (from_str : Text → Option JobRequest) (stream group : Text) where
  abbrev pub discard : Text → Bool → Sweep Db → Sweep Db
  discard id true s = record s { store = redis.perform (Command.xack stream group id) s.store }
  discard id false s = s

  abbrev pub rerun_job : Text → JobRequest → Bool → Sweep Db → Sweep Db
  rerun_job id request true s = record s {
    rerun = (id, request) ∷ s.rerun;
    reclaimed = 1 + s.reclaimed;
  }
  rerun_job id request false s = record s { goes_on = false }

  unfoldable pub ack_or_rerun : Line → Text → JobRequest → Option Text → Sweep Db → Sweep Db
  unfolding ack_existing
  ack_or_rerun line id request (some json) s = record s {
    store = (ack_existing redis stream group id request.job_id line.attempts s.store).store;
    reclaimed = 1 + s.reclaimed;
  }
  ack_or_rerun line id request none s = rerun_job id request line.permit s

  unfoldable pub reclaim_entry : Line → Text → Option JobRequest → Sweep Db → Sweep Db
  unfolding ack_or_rerun
  reclaim_entry line id none s = discard id line.xack_lands s
  reclaim_entry line id (some request) s =
      ack_or_rerun line id request
        (existing line.get_lands (redis.get s.store (result_key request.job_id))) s

  abbrev pub reclaim_message : Line → Option (Text × Value) → Sweep Db → Sweep Db
  reclaim_message line none s = s
  reclaim_message line (some (id, fields)) s =
      reclaim_entry line id (payload from_utf8_lossy from_str fields) s

  unfoldable pub reclaim_all : List (Line × Value) → Sweep Db → Sweep Db
  unfolding reclaim_entry read_message
  reclaim_all [] s = s
  reclaim_all ((line, msg) ∷ rest) s =
      let next = reclaim_message line (read_message from_utf8_lossy from_str msg) s in
      let after = reclaim_all rest next in if next.goes_on then after else next
