-- ===== src/Queue/Publish.antt =====
-- src/queue/redis.rs: how a result is reported, over connections that fail.
use akiro.Prelude.{
  ℕ, zero, suc, ◌+◌, ◌*◌, min, Bool, true, false, List, [], ◌∷◌, ◌==◌, if◌then◌else◌,
}
use akiro.Prelude.Text.{Text}
use akiro.Queue.Redis.{Command, Redis, result_key, pending_key, done_channel}

-- An attempt to run a pipe: it fails once some of the commands have been carried out, none of them
-- if there was no connection, or all if only the replies were lost; or it fails since Redis refuses
-- some of the commands, a flag for each, and carries out the others, as a pipe is no transaction; or
-- it is answered.
pub data Attempt : Type 0 where
  cut_after : ℕ → Attempt
  refuses : List Bool → Attempt
  answered : Attempt

-- What retrying leaves, with the waits between the attempts in milliseconds.
pub record Retried (Db : Type 0) : Type 0 where
  pub ok : Bool
  pub store : Db
  pub waits : List ℕ

abbrev pub max_attempts : ℕ
max_attempts = 12

abbrev pub backoff_ms : ℕ → ℕ
backoff_ms attempt = min 2000 (200 * attempt)

unfoldable pub publish_pipe : Text → Text → Text → Text → Text → ℕ → List Command
publish_pipe stream group msg_id job_id result_json ttl =
    Command.set_ex (result_key job_id) result_json ttl
    ∷ Command.del (pending_key job_id)
    ∷ Command.xack stream group msg_id
    ∷ Command.publish (done_channel job_id) job_id
    ∷ []

unfoldable pub ack_pipe : Text → Text → Text → Text → List Command
ack_pipe stream group msg_id job_id =
    Command.del (pending_key job_id)
    ∷ Command.xack stream group msg_id
    ∷ Command.publish (done_channel job_id) job_id
    ∷ []

module _ {Db : Type 0} (redis : Redis Db) where
  unfoldable pub perform_all : List Command → Db → Db
  perform_all [] d = d
  perform_all (c ∷ p) d = perform_all p (redis.perform c d)

  unfoldable pub perform_some : ℕ → List Command → Db → Db
  perform_some zero p d = d
  perform_some (suc n) [] d = d
  perform_some (suc n) (c ∷ p) d = perform_some n p (redis.perform c d)

  abbrev perform_if : Bool → Command → Db → Db
  perform_if true c d = redis.perform c d
  perform_if false c d = d

  -- A command without a flag is not carried out.
  unfoldable pub perform_flagged : List Bool → List Command → Db → Db
  perform_flagged [] p d = d
  perform_flagged (b ∷ bs) [] d = d
  perform_flagged (b ∷ bs) (c ∷ p) d = perform_flagged bs p (perform_if b c d)

  unfoldable pub run_attempt : Attempt → List Command → Db → Db
  unfolding perform_all perform_some perform_flagged
  run_attempt (cut_after n) p d = perform_some n p d
  run_attempt (refuses flags) p d = perform_flagged flags p d
  run_attempt answered p d = perform_all p d

  abbrev failed_attempt : Bool → ℕ → Db → Retried Db → Retried Db
  failed_attempt last wait d rest =
      if last
      then record { ok = false; store = d; waits = [] }
      else record { ok = rest.ok; store = rest.store; waits = wait ∷ rest.waits }

  -- What follows an attempt, with the result of going on from here.
  abbrev pub after_attempt : Attempt → Bool → ℕ → Db → Retried Db → Retried Db
  after_attempt answered last wait d rest = record { ok = true; store = d; waits = [] }
  after_attempt (cut_after n) last wait d rest = failed_attempt last wait d rest
  after_attempt (refuses flags) last wait d rest = failed_attempt last wait d rest

  -- The loop from an attempt on, with the number of attempts left.
  unfoldable pub retry_from : ℕ → ℕ → List Command → (ℕ → Attempt) → Db → Retried Db
  unfolding run_attempt
  retry_from zero attempt p net d = record { ok = false; store = d; waits = [] }
  retry_from (suc left) attempt p net d =
      let next = run_attempt (net attempt) p d in
      after_attempt (net attempt) (attempt == max_attempts) (backoff_ms attempt) next
        (retry_from left (1 + attempt) p net next)

  unfoldable pub run_pipe_with_retry : List Command → (ℕ → Attempt) → Db → Retried Db
  unfolding retry_from
  run_pipe_with_retry p net d = retry_from max_attempts 1 p net d

  -- The JSON of the result is serde's, or empty.
  unfoldable pub publish_result :
      Text → Text → Text → Text → Text → ℕ → (ℕ → Attempt) → Db → Retried Db
  unfolding run_pipe_with_retry publish_pipe
  publish_result stream group msg_id job_id result_json ttl net d =
      run_pipe_with_retry (publish_pipe stream group msg_id job_id result_json ttl) net d

  unfoldable pub ack_existing : Text → Text → Text → Text → (ℕ → Attempt) → Db → Retried Db
  unfolding run_pipe_with_retry ack_pipe
  ack_existing stream group msg_id job_id net d =
      run_pipe_with_retry (ack_pipe stream group msg_id job_id) net d
