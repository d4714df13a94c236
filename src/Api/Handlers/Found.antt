-- ===== src/Api/Handlers/Found.antt =====
-- src/api/handlers.rs with the queue: what a client that asks for a result is told.
use akiro.Prelude.{ℕ, ◌≤◌, ◌≡◌, ap, ◌∙◌, subst, Bool, true, Option, none, some}
use akiro.Prelude.Text.{Text, codes}
use akiro.Orchestrator.Job.{JobResult}
use akiro.Queue.Redis.{Redis, result_key, pending_key}
use akiro.Queue.Publish.{Attempt, answered, max_attempts, publish_result}
use akiro.Api.ResultBus.{Reply, queued, enqueue, parse_result, try_result, is_there, is_pending}
use akiro.Api.ResultBus.Enqueue.{Means, enqueue-Means, try_result-publish_result}
use akiro.Api.Handlers.{Response, respond, job_result, pending, get_result, or_pending, or_unknown}

module _ {Db : Type 0} (redis : Redis Db) (from_str : Text → Option JobResult) (job_id : Text) where
  -- The answer to a request for the result, with both reads answered.
  unfoldable pub look : Db → Response
  unfolding try_result is_pending
  look d =
      get_result true job_id (try_result redis from_str true job_id d)
        (is_pending redis true job_id d)

  look_pending :
      (d : Db)
      → redis.get d (result_key job_id) ≡ none
      → redis.get d (pending_key job_id) ≡ some (codes "1")
      → look d ≡ respond 202 (pending job_id)
  unfolding look get_result
  look_pending d h k =
      ap
        (λ o.
          or_pending job_id (parse_result from_str o) (is_there (redis.get d (pending_key job_id))))
        h
      ∙ ap (λ o. or_unknown job_id (is_there o)) k

  -- A job that was queued is pending for whoever asks, and once its worker's report has been answered,
  -- within its twelve attempts, they are given the result, if serde reads it back.
  pub look_queued :
      (json result_json stream group msg_id : Text) (value : JobResult)
      (pending_ttl maxlen ttl answer : ℕ) (reply : Reply) (rollback : Bool) (net : ℕ → Attempt)
      (d : Db)
      → (enqueue redis job_id (some json) pending_ttl maxlen answered reply rollback d).0 ≡ queued
      → from_str result_json ≡ some value
      → 1 ≤ answer
      → answer ≤ max_attempts
      → net answer ≡ answered
      → let waiting =
          (enqueue redis job_id (some json) pending_ttl maxlen answered reply rollback d).1 in
        let reported =
          (publish_result redis stream group msg_id job_id result_json ttl net waiting).store in
        (look waiting ≡ respond 202 (pending job_id))
        × (look reported ≡ respond 200 (job_result value))
  unfolding look get_result
  look_queued json result_json stream group msg_id value pending_ttl maxlen ttl answer reply
        rollback net d q reads from upto h =
      let waiting =
        (enqueue redis job_id (some json) pending_ttl maxlen answered reply rollback d).1 in
      let reported =
        (publish_result redis stream group msg_id job_id result_json ttl net waiting).store in
      let means =
        subst (λ o. Means redis job_id json rollback d o waiting) q
          (enqueue-Means redis job_id json pending_ttl maxlen reply rollback d) in
      let told =
        try_result-publish_result redis job_id stream group msg_id from_str value result_json ttl
          net answer waiting reads from upto h in
      (
        look_pending waiting means.3 means.2,
        ap (λ o. or_pending job_id o (is_pending redis true job_id reported)) told.1,
      )
