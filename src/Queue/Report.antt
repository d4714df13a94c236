-- ===== src/Queue/Report.antt =====
-- src/queue/redis.rs: what is true of the store once a result has been reported, or has failed to be.
use akiro.Prelude.{
  ℕ, ◌≤◌, ◌≡◌, refl, sym, ap, ◌∙◌, subst, Bool, true, false, ◌&&◌, Option, none, some, List, [],
  ◌∷◌, if◌then◌else◌, All,
}
use akiro.Prelude.Text.{Text, text_eq, text_eq_refl}
use akiro.Queue.Redis.{Command, Redis, result_key, pending_key, value_after, owed_after}
use akiro.Queue.Publish.{
  Attempt, refuses, answered, max_attempts, publish_pipe, ack_pipe, perform_all, perform_flagged,
  run_attempt, retry_from, run_pipe_with_retry, publish_result,
}
use akiro.Queue.Retries.{after_attempt-Keeps, retry_from-Keeps, retry_from-Complete}

pub if_same : {A : Type 0} {b : Bool} {x : A} (y : A) → b ≡ true → (if b then x else y) ≡ x
if_same {x = x} y e = ap (λ c. if c then x else y) e

pub all_same : (s g i : Text) → (text_eq s s && (text_eq g g && text_eq i i)) ≡ true
all_same s g i = rw (text_eq_refl s, text_eq_refl g) (text_eq_refl i)

module _ {Db : Type 0} (redis : Redis Db) where
  pub ack_pipe-Keeps :
      (stream group msg_id job_id j json : Text)
      → All
          (λ c.
            (d : Db)
            → redis.get d (result_key j) ≡ some json
            → redis.get (redis.perform c d) (result_key j) ≡ some json)
          (ack_pipe stream group msg_id job_id)
  unfolding ack_pipe
  ack_pipe-Keeps stream group msg_id job_id j json = (
    λ d h. redis.get-perform _ d (result_key j) ∙ h,
    (
      λ d h. redis.get-perform _ d (result_key j) ∙ h,
      (λ d h. redis.get-perform _ d (result_key j) ∙ h, tt),
    ),
  )

  -- The effects of a pipe's commands, one after the other.
  abbrev value_all : List Command → Text → Option Text → Option Text
  value_all [] k old = old
  value_all (c ∷ p) k old = value_all p k (value_after c k old)

  abbrev owed_all : List Command → Text → Text → Text → Bool → Bool
  owed_all [] s g i old = old
  owed_all (c ∷ p) s g i old = owed_all p s g i (owed_after c s g i old)

  get-perform_all :
      (p : List Command) (d : Db) (k : Text)
      → redis.get (perform_all redis p d) k ≡ value_all p k (redis.get d k)
  unfolding perform_all
  get-perform_all [] d k = refl
  get-perform_all (c ∷ p) d k =
      get-perform_all p (redis.perform c d) k ∙ ap (value_all p k) (redis.get-perform c d k)

  owed-perform_all :
      (p : List Command) (d : Db) (s g i : Text)
      → redis.owed (perform_all redis p d) s g i ≡ owed_all p s g i (redis.owed d s g i)
  unfolding perform_all
  owed-perform_all [] d s g i = refl
  owed-perform_all (c ∷ p) d s g i =
      owed-perform_all p (redis.perform c d) s g i
      ∙ ap (owed_all p s g i) (redis.owed-perform c d s g i)

  module _ (stream group msg_id job_id json : Text) (ttl : ℕ) where
    unfoldable pipe : List Command
    pipe = publish_pipe stream group msg_id job_id json ttl

    -- The result can be read, the job is not pending and its entry is acknowledged.
    abbrev pub Reported : Db → Type 0
    Reported d =
        (redis.get d (result_key job_id) ≡ some json)
        × (redis.get d (pending_key job_id) ≡ none)
        × (redis.owed d stream group msg_id ≡ false)

    all-Reported : (d : Db) → Reported (perform_all redis pipe d)
    unfolding publish_pipe pipe
    all-Reported d = (
      get-perform_all pipe d (result_key job_id)
          ∙ if_same (redis.get d (result_key job_id)) (text_eq_refl (result_key job_id)),
      get-perform_all pipe d (pending_key job_id)
          ∙ if_same (redis.get d (pending_key job_id)) (text_eq_refl (pending_key job_id)),
      owed-perform_all pipe d stream group msg_id
          ∙ if_same (redis.owed d stream group msg_id) (all_same stream group msg_id),
    )

    -- If any of the twelve attempts is answered, however the others fail, then the report succeeds,
    -- and the result can be read, the job is not pending and its entry is acknowledged.
    pub publish_result-Reported :
        (net : ℕ → Attempt) (answer : ℕ) (d : Db)
        → 1 ≤ answer
        → answer ≤ max_attempts
        → net answer ≡ answered
        → let r = publish_result redis stream group msg_id job_id json ttl net d in
          (r.ok ≡ true) × Reported r.store
    unfolding publish_result run_pipe_with_retry pipe
    publish_result-Reported net answer d from upto h =
        let made = retry_from-Complete redis pipe max_attempts 1 answer net d refl from upto h in
        (made.0, subst Reported (sym made.2) (all-Reported made.1))

    -- The flags of a report whose SET is refused, as a Redis out of memory does, which still carries
    -- out the others.
    abbrev pub set_refused : Attempt
    set_refused = refuses (false ∷ true ∷ true ∷ true ∷ [])

    abbrev Forgotten : Db → Type 0
    Forgotten d =
        (redis.get d (result_key job_id) ≡ none)
        × (redis.get d (pending_key job_id) ≡ none)
        × (redis.owed d stream group msg_id ≡ false)

    abbrev others : List Command
    others = ack_pipe stream group msg_id job_id

    run_attempt-Forgotten :
        (a : Attempt) (d : Db)
        → a ≡ set_refused
        → redis.get d (result_key job_id) ≡ none
        → Forgotten (run_attempt redis a pipe d)
    unfolding run_attempt perform_flagged pipe publish_pipe ack_pipe perform_all
    run_attempt-Forgotten a d e h = rw e (
      get-perform_all others d (result_key job_id) ∙ h,
      get-perform_all others d (pending_key job_id)
          ∙ if_same (redis.get d (pending_key job_id)) (text_eq_refl (pending_key job_id)),
      owed-perform_all others d stream group msg_id
          ∙ if_same (redis.owed d stream group msg_id) (all_same stream group msg_id),
    )

    -- If Redis refuses the SET of a report at each attempt and carries out the other commands, as
    -- it does when it is out of memory, then a job without a result loses it: after the report its
    -- entry is acknowledged, it is not pending, and it has no result.
    pub publish_result-forgets :
        (net : ℕ → Attempt) (d : Db)
        → ((n : ℕ) → net n ≡ set_refused)
        → redis.get d (result_key job_id) ≡ none
        → let after = (publish_result redis stream group msg_id job_id json ttl net d).store in
          (redis.get after (result_key job_id) ≡ none)
          × (redis.get after (pending_key job_id) ≡ none)
          × (redis.owed after stream group msg_id ≡ false)
    unfolding publish_result run_pipe_with_retry retry_from pipe
    publish_result-forgets net d refused h =
        let first = run_attempt redis (net 1) pipe d in
        let made = run_attempt-Forgotten (net 1) d (refused 1) h in
        after_attempt-Keeps redis Forgotten (net 1) false 200 first
          (retry_from redis 11 2 pipe net first) made
          (retry_from-Keeps redis Forgotten pipe net
            (λ n d' k. run_attempt-Forgotten (net n) d' (refused n) k.0) 11 2 first made)
