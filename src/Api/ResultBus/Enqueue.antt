-- ===== src/Api/ResultBus/Enqueue.antt =====
-- src/api/result_bus.rs: what enqueueing and reporting a job leave in the store.
use akiro.Prelude.{
  ℕ, ◌≤◌, ◌≡◌, ◌≢◌, refl, sym, ap, ◌∙◌, ◌⊎◌, inl, inr, Bool, true, false, Option, none, some, arith,
  drop, if◌then◌else◌,
}
use akiro.Prelude.Text.{Text, codes, text_eq_refl}
use akiro.Queue.Redis.{Command, Redis, result_key, pending_key, or_else}
use akiro.Queue.Publish.{
  Attempt, answered, max_attempts, publish_pipe, perform_all, perform_some, publish_result,
}
use akiro.Queue.Report.{if_same, all_same, publish_result-Reported}
use akiro.Api.ResultBus.{
  EnqueueOutcome, queued, duplicate, redis_down, maxlen_arg, Reply, replied, lost, job_stream,
  claim_pipe, if_lands, add_job, after_claim, enqueue, parse_result, try_result, is_there,
  is_pending,
}

false_not_true : false ≢ true
false_not_true e = ground arith

module _ {Db : Type 0} (redis : Redis Db) (job_id : Text) where
  claim_pending :
      (ttl : ℕ) (d : Db)
      → redis.get (perform_all redis (claim_pipe job_id ttl) d) (pending_key job_id)
        ≡ or_else (redis.get d (pending_key job_id)) (codes "1")
  unfolding perform_all claim_pipe
  claim_pending ttl d =
      let deleted = redis.perform (Command.del (result_key job_id)) d in
      redis.get-perform (Command.set_nx (pending_key job_id) (codes "1") ttl) deleted
        (pending_key job_id)
      ∙ (if_same (redis.get deleted (pending_key job_id)) (text_eq_refl (pending_key job_id))
          ∙ ap (λ o. or_else o (codes "1"))
              (redis.get-perform (Command.del (result_key job_id)) d (pending_key job_id)))

  claim_result :
      (ttl : ℕ) (d : Db)
      → redis.get (perform_all redis (claim_pipe job_id ttl) d) (result_key job_id) ≡ none
  unfolding perform_all claim_pipe
  claim_result ttl d =
      redis.get-perform _ _ (result_key job_id)
      ∙ (redis.get-perform (Command.del (result_key job_id)) d (result_key job_id)
          ∙ if_same (redis.get d (result_key job_id)) (text_eq_refl (result_key job_id)))

  claim_newest :
      (ttl : ℕ) (d : Db)
      → redis.newest (perform_all redis (claim_pipe job_id ttl) d) job_stream
        ≡ redis.newest d job_stream
  unfolding perform_all claim_pipe
  claim_newest ttl d = redis.newest-perform _ _ job_stream ∙ redis.newest-perform _ d job_stream

  -- What each outcome of an answered claim means, of the store before and after.
  abbrev pub Means : Text → Bool → Db → EnqueueOutcome → Db → Type 0
  Means json rollback d queued after =
      (redis.get d (pending_key job_id) ≡ none)
      × (redis.newest after job_stream ≡ some json)
      × (redis.get after (pending_key job_id) ≡ some (codes "1"))
      × (redis.get after (result_key job_id) ≡ none)
  Means json rollback d duplicate after =
      (is_there (redis.get d (pending_key job_id)) ≡ true)
      × (redis.newest after job_stream ≡ redis.newest d job_stream)
      × (redis.get after (pending_key job_id) ≡ redis.get d (pending_key job_id))
      × (redis.get after (result_key job_id) ≡ none)
  Means json rollback d redis_down after =
      (redis.get d (pending_key job_id) ≡ none)
      × ((redis.newest after job_stream ≡ redis.newest d job_stream)
          ⊎ (redis.newest after job_stream ≡ some json))
      × (redis.get after (pending_key job_id) ≡ (if rollback then none else some (codes "1")))
      × (redis.get after (result_key job_id) ≡ none)

  rolled_back :
      (lands : Bool) (d : Db)
      → redis.get d (pending_key job_id) ≡ some (codes "1")
      → redis.get d (result_key job_id) ≡ none
      → let after = if_lands redis lands (Command.del (pending_key job_id)) d in
        (redis.get after (pending_key job_id) ≡ (if lands then none else some (codes "1")))
        × (redis.get after (result_key job_id) ≡ none)
  rolled_back false d h k = (h, k)
  rolled_back true d h k = (
    redis.get-perform (Command.del (pending_key job_id)) d (pending_key job_id)
        ∙ if_same (redis.get d (pending_key job_id)) (text_eq_refl (pending_key job_id)),
    redis.get-perform (Command.del (pending_key job_id)) d (result_key job_id) ∙ k,
  )

  added_get :
      (landed : Bool) (json k : Text) (maxlen : ℕ) (d : Db)
      → redis.get (if_lands redis landed (Command.xadd job_stream (maxlen_arg maxlen) json) d) k
        ≡ redis.get d k
  added_get false json k maxlen d = refl
  added_get true json k maxlen d = redis.get-perform _ d k

  if_lands_newest :
      (lands : Bool) (json : Text) (before : Option Text) (d : Db)
      → (redis.newest d job_stream ≡ before) ⊎ (redis.newest d job_stream ≡ some json)
      → let after = if_lands redis lands (Command.del (pending_key job_id)) d in
        (redis.newest after job_stream ≡ before) ⊎ (redis.newest after job_stream ≡ some json)
  if_lands_newest false json before d h = h
  if_lands_newest true json before d (inl h) = inl (redis.newest-perform _ d job_stream ∙ h)
  if_lands_newest true json before d (inr h) = inr (redis.newest-perform _ d job_stream ∙ h)

  added_newest :
      (landed : Bool) (json : Text) (maxlen : ℕ) (before : Option Text) (d : Db)
      → redis.newest d job_stream ≡ before
      → let after = if_lands redis landed (Command.xadd job_stream (maxlen_arg maxlen) json) d in
        (redis.newest after job_stream ≡ before) ⊎ (redis.newest after job_stream ≡ some json)
  added_newest false json maxlen before d h = inl h
  added_newest true json maxlen before d h = inr (redis.newest-perform _ d job_stream)

  after_claim-Means :
      (marker : Option Text) (json : Text) (ttl maxlen : ℕ) (reply : Reply) (rollback : Bool)
      (d : Db)
      → redis.get d (pending_key job_id) ≡ marker
      → let r =
          after_claim redis marker job_id json maxlen reply rollback
            (perform_all redis (claim_pipe job_id ttl) d) in
        Means json rollback d r.0 r.1
  unfolding after_claim add_job
  after_claim-Means (some m) json ttl maxlen reply rollback d e = (
    ap is_there e,
    claim_newest ttl d,
    claim_pending ttl d ∙ (ap (λ o. or_else o (codes "1")) e ∙ sym e),
    claim_result ttl d,
  )
  after_claim-Means none json ttl maxlen replied rollback d e =
      let claimed = perform_all redis (claim_pipe job_id ttl) d in
      let add = Command.xadd job_stream (maxlen_arg maxlen) json in
      (
        e,
        redis.newest-perform add claimed job_stream,
        redis.get-perform add claimed (pending_key job_id)
            ∙ (claim_pending ttl d ∙ ap (λ o. or_else o (codes "1")) e),
        redis.get-perform add claimed (result_key job_id) ∙ claim_result ttl d,
      )
  after_claim-Means none json ttl maxlen (lost landed) rollback d e =
      let claimed = perform_all redis (claim_pipe job_id ttl) d in
      let back =
        rolled_back rollback
          (if_lands redis landed (Command.xadd job_stream (maxlen_arg maxlen) json) claimed)
          (added_get landed json (pending_key job_id) maxlen claimed
            ∙ (claim_pending ttl d ∙ ap (λ o. or_else o (codes "1")) e))
          (added_get landed json (result_key job_id) maxlen claimed ∙ claim_result ttl d) in
      (
        e,
        if_lands_newest rollback json (redis.newest d job_stream)
            (if_lands redis landed (Command.xadd job_stream (maxlen_arg maxlen) json) claimed)
            (added_newest landed json maxlen (redis.newest d job_stream) claimed
              (claim_newest ttl d)),
        back.0,
        back.1,
      )

  -- Once the marker's pipe is answered, a job is queued only if it had no marker, and then it is the
  -- stream's last entry, marked, with no old result; it is a duplicate only if it had one, and then
  -- the stream and the marker are as before, and there is no result any more; and the fallback is
  -- only taken for a job that had none, whether or not the entry was added, and then there is no
  -- result, and no marker either if the rollback lands.
  pub enqueue-Means :
      (json : Text) (ttl maxlen : ℕ) (reply : Reply) (rollback : Bool) (d : Db)
      → let r = enqueue redis job_id (some json) ttl maxlen answered reply rollback d in
        Means json rollback d r.0 r.1
  unfolding enqueue
  enqueue-Means json ttl maxlen reply rollback d =
      after_claim-Means (redis.get d (pending_key job_id)) json ttl maxlen reply rollback d refl

  module _ (stream group msg_id : Text) where
    -- A worker's report, carried out whole, with the retry of a client between its first command and
    -- the others.
    abbrev pub retried : Text → Text → ℕ → ℕ → ℕ → Reply → Bool → Db → EnqueueOutcome × Db
    retried result json ttl pending_ttl maxlen reply rollback d =
        let pipe = publish_pipe stream group msg_id job_id result ttl in
        let stored = perform_some redis 1 pipe d in
        let r =
          enqueue redis job_id (some json) pending_ttl maxlen answered reply rollback stored in
        (r.0, perform_all redis (drop 1 pipe) r.1)

    after_claim_marked :
        (marker : Option Text) (json : Text) (maxlen : ℕ) (reply : Reply) (rollback : Bool) (d : Db)
        → is_there marker ≡ true
        → after_claim redis marker job_id json maxlen reply rollback d ≡ (duplicate, d)
    unfolding after_claim
    after_claim_marked none json maxlen reply rollback d e = elim (false_not_true e) [ ]
    after_claim_marked (some m) json maxlen reply rollback d e = refl

    -- A client that retries a job still marked as pending, when the worker has stored the result but
    -- not yet cleared the marker, is told of a duplicate, and the result is gone: it cannot be
    -- read, the job is not pending, and its entry is acknowledged.
    pub enqueue-loses :
        (result json : Text) (ttl pending_ttl maxlen : ℕ) (reply : Reply) (rollback : Bool) (d : Db)
        → is_there (redis.get d (pending_key job_id)) ≡ true
        → let r = retried result json ttl pending_ttl maxlen reply rollback d in
          (r.0 ≡ duplicate)
          × (redis.get r.1 (result_key job_id) ≡ none)
          × (redis.get r.1 (pending_key job_id) ≡ none)
          × (redis.owed r.1 stream group msg_id ≡ false)
    unfolding enqueue publish_pipe perform_all perform_some
    enqueue-loses result json ttl pending_ttl maxlen reply rollback d h =
        let stored = redis.perform (Command.set_ex (result_key job_id) result ttl) d in
        let claimed = perform_all redis (claim_pipe job_id pending_ttl) stored in
        let r =
          enqueue redis job_id (some json) pending_ttl maxlen answered reply rollback stored in
        let cleared = redis.perform (Command.del (pending_key job_id)) r.1 in
        let acked = redis.perform (Command.xack stream group msg_id) cleared in
        let e : r ≡ (duplicate, claimed) =
          after_claim_marked (redis.get stored (pending_key job_id)) json maxlen reply rollback
            claimed (ap is_there (redis.get-perform _ d (pending_key job_id)) ∙ h) in
        (
          ap (λ x. x.0) e,
          redis.get-perform _ acked (result_key job_id)
              ∙ (redis.get-perform _ cleared (result_key job_id)
                  ∙ (redis.get-perform _ r.1 (result_key job_id)
                      ∙ (ap (λ x. redis.get x.1 (result_key job_id)) e
                          ∙ claim_result pending_ttl stored))),
          redis.get-perform _ acked (pending_key job_id)
              ∙ (redis.get-perform _ cleared (pending_key job_id)
                  ∙ (redis.get-perform (Command.del (pending_key job_id)) r.1 (pending_key job_id)
                      ∙ if_same (redis.get r.1 (pending_key job_id))
                          (text_eq_refl (pending_key job_id)))),
          redis.owed-perform _ acked stream group msg_id
              ∙ (redis.owed-perform (Command.xack stream group msg_id) cleared stream group msg_id
                  ∙ if_same (redis.owed cleared stream group msg_id)
                      (all_same stream group msg_id)),
        )

    -- Once a report has been answered within its twelve attempts, a result that serde reads back is
    -- what the gateway finds, the job is no longer pending there, and its entry is acknowledged.
    pub try_result-publish_result :
        {R : Type 0} (from_str : Text → Option R) (value : R) (json : Text) (ttl : ℕ)
        (net : ℕ → Attempt) (answer : ℕ) (d : Db)
        → from_str json ≡ some value
        → 1 ≤ answer
        → answer ≤ max_attempts
        → net answer ≡ answered
        → let r = publish_result redis stream group msg_id job_id json ttl net d in
          (r.ok ≡ true)
          × (try_result redis from_str true job_id r.store ≡ some value)
          × (is_pending redis true job_id r.store ≡ false)
          × (redis.owed r.store stream group msg_id ≡ false)
    unfolding try_result is_pending
    try_result-publish_result from_str value json ttl net answer d reads from upto h =
        let made =
          publish_result-Reported redis stream group msg_id job_id json ttl net answer d from upto
            h in
        (made.0, ap (parse_result from_str) made.1.0 ∙ reads, ap is_there made.1.1, made.1.2)
