-- ===== src/Queue/Entry.antt =====
-- src/queue/redis.rs: what one entry's turn in a reclaim sweep does to it.
use akiro.Prelude.{
  ℕ, ◌≡◌, refl, sym, ap, ◌∙◌, subst, ◌⊎◌, inl, inr, Bool, true, false, ◌&&◌, Bool-cases, Option,
  none, some, List, if◌then◌else◌, arith,
}
use akiro.Prelude.Text.{Text, text_eq, text_eq_sound}
use akiro.Orchestrator.Job.{JobRequest}
use akiro.Queue.Redis.{Command, Redis, result_key, pending_key, done_channel}
use akiro.Queue.Publish.{Attempt, ack_pipe, ack_existing, run_pipe_with_retry, max_attempts}
use akiro.Queue.Retries.{run_attempt-Keeps, retry_from-Keeps}
use akiro.Queue.Report.{ack_pipe-Keeps}
use akiro.Queue.Reclaim.{
  Value, Line, Sweep, discard, rerun_job, existing, ack_or_rerun, reclaim_entry, reclaim_message,
  payload,
}

existing_sound :
    (lands : Bool) (found : Option Text) (json : Text)
    → existing lands found ≡ some json
    → found ≡ some json
existing_sound true found json e = e
existing_sound false found json e = cc

not_same : (a b c : Bool) → c ≡ false → (a && (b && c)) ≡ false
not_same a b c e = ground arith

module _ {Db : Type 0} (redis : Redis Db) (from_utf8_lossy : List ℕ → Text)
    (from_str : Text → Option JobRequest) (stream group : Text) where
  -- The entry has no job in it, or its job's result can be read.
  abbrev pub Settled : Db → Option JobRequest → Type 0
  Settled d none = Unit
  Settled d (some request) = (json : Text) × (redis.get d (result_key request.job_id) ≡ some json)

  abbrev pub Accounted : Db → Text → Option (Text × Value) → Type 0
  Accounted d i none = ⊥
  Accounted d i (some (id, fields)) = (id ≡ i) × Settled d (payload from_utf8_lossy from_str fields)

  abbrev pub Owed : Text → Db → Type 0
  Owed i d = redis.owed d stream group i ≡ true

  pub xack-Owed :
      (id i : Text) (d : Db)
      → text_eq id i ≡ false
      → Owed i d
      → Owed i (redis.perform (Command.xack stream group id) d)
  xack-Owed id i d other h =
      redis.owed-perform (Command.xack stream group id) d stream group i
      ∙ (ap (λ b. if b then false else redis.owed d stream group i)
            (not_same (text_eq stream stream) (text_eq group group) (text_eq id i) other)
          ∙ h)

  ack_existing-Owed :
      (id i job_id : Text) (net : ℕ → Attempt) (d : Db)
      → text_eq id i ≡ false
      → Owed i d
      → Owed i (ack_existing redis stream group id job_id net d).store
  unfolding ack_existing run_pipe_with_retry ack_pipe
  ack_existing-Owed id i job_id net d other h =
      retry_from-Keeps redis (Owed i) (ack_pipe stream group id job_id) net
        (λ n.
          run_attempt-Keeps redis (Owed i) (ack_pipe stream group id job_id)
            (
              λ d' k. redis.owed-perform (Command.del (pending_key job_id)) d' stream group i ∙ k,
              (
                λ d' k. xack-Owed id i d' other k,
                (
                  λ d' k.
                      redis.owed-perform (Command.publish (done_channel job_id) job_id) d' stream
                        group i
                      ∙ k,
                  tt,
                ),
              ),
            )
            (net n))
        max_attempts 1 d h

  ack_existing-Stored :
      (id job_id j json : Text) (net : ℕ → Attempt) (d : Db)
      → redis.get d (result_key j) ≡ some json
      → redis.get (ack_existing redis stream group id job_id net d).store (result_key j) ≡ some json
  unfolding ack_existing run_pipe_with_retry
  ack_existing-Stored id job_id j json net d h =
      retry_from-Keeps redis (λ d'. redis.get d' (result_key j) ≡ some json)
        (ack_pipe stream group id job_id) net
        (λ n.
          run_attempt-Keeps redis (λ d'. redis.get d' (result_key j) ≡ some json)
            (ack_pipe stream group id job_id) (ack_pipe-Keeps redis stream group id job_id j json)
            (net n))
        max_attempts 1 d h

  -- What one entry's turn leaves: the entry stays, or it is accounted for.
  discard-Accounted :
      (id i : Text) (lands : Bool) (s : Sweep Db)
      → Owed i s.store
      → Owed i (discard redis from_utf8_lossy from_str stream group id lands s).store ⊎ (id ≡ i)
  discard-Accounted id i false s h = inl h
  discard-Accounted id i true s h = elim (Bool-cases (text_eq id i)) [
    | inl same ↦ inr (text_eq_sound id i same)
    | inr other ↦ inl (xack-Owed id i s.store other h)
  ]

  rerun_job_store :
      (id : Text) (request : JobRequest) (permit : Bool) (s : Sweep Db)
      → (rerun_job redis from_utf8_lossy from_str stream group id request permit s).store ≡ s.store
  rerun_job_store id request true s = refl
  rerun_job_store id request false s = refl

  ack_or_rerun-Accounted :
      (line : Line) (id i : Text) (request : JobRequest) (found : Option Text) (s : Sweep Db)
      → Owed i s.store
      → ((json : Text)
          → found ≡ some json
          → redis.get s.store (result_key request.job_id) ≡ some json)
      → let after =
          (ack_or_rerun redis from_utf8_lossy from_str stream group line id request found
            s).store in
        Owed i after ⊎ ((id ≡ i) × Settled after (some request))
  unfolding ack_or_rerun
  ack_or_rerun-Accounted line id i request none s h sound =
      inl (subst (Owed i) (sym (rerun_job_store id request line.permit s)) h)
  ack_or_rerun-Accounted line id i request (some json) s h sound =
      elim (Bool-cases (text_eq id i)) [
        | inl same ↦ inr (
          text_eq_sound id i same,
          (
            json,
            ack_existing-Stored id request.job_id request.job_id json line.attempts s.store
                (sound json refl),
          ),
        )
        | inr other ↦ inl (ack_existing-Owed id i request.job_id line.attempts s.store other h)
      ]

  reclaim_entry-Accounted :
      (line : Line) (id i : Text) (job : Option JobRequest) (s : Sweep Db)
      → Owed i s.store
      → let after =
          (reclaim_entry redis from_utf8_lossy from_str stream group line id job s).store in
        Owed i after ⊎ ((id ≡ i) × Settled after job)
  unfolding reclaim_entry
  reclaim_entry-Accounted line id i none s h = elim (discard-Accounted id i line.xack_lands s h) [
    | inl kept ↦ inl kept
    | inr same ↦ inr (same, tt)
  ]
  reclaim_entry-Accounted line id i (some request) s h =
      ack_or_rerun-Accounted line id i request
        (existing line.get_lands (redis.get s.store (result_key request.job_id))) s h
        (λ json e.
          existing_sound line.get_lands (redis.get s.store (result_key request.job_id)) json e)

  pub reclaim_message-Accounted :
      (line : Line) (i : Text) (read : Option (Text × Value)) (s : Sweep Db)
      → Owed i s.store
      → let after =
          (reclaim_message redis from_utf8_lossy from_str stream group line read s).store in
        Owed i after ⊎ Accounted after i read
  reclaim_message-Accounted line i none s h = inl h
  reclaim_message-Accounted line i (some (id, fields)) s h =
      reclaim_entry-Accounted line id i (payload from_utf8_lossy from_str fields) s h

  -- Results that can be read stay so.
  discard-Stored :
      (id j json : Text) (lands : Bool) (s : Sweep Db)
      → redis.get s.store (result_key j) ≡ some json
      → redis.get
          (discard redis from_utf8_lossy from_str stream group id lands s).store
          (result_key j)
        ≡ some json
  discard-Stored id j json true s h = redis.get-perform _ s.store (result_key j) ∙ h
  discard-Stored id j json false s h = h

  ack_or_rerun-Stored :
      (line : Line) (id j json : Text) (request : JobRequest) (found : Option Text) (s : Sweep Db)
      → redis.get s.store (result_key j) ≡ some json
      → redis.get
          (ack_or_rerun redis from_utf8_lossy from_str stream group line id request found s).store
          (result_key j)
        ≡ some json
  unfolding ack_or_rerun
  ack_or_rerun-Stored line id j json request none s h =
      ap (λ d. redis.get d (result_key j)) (rerun_job_store id request line.permit s) ∙ h
  ack_or_rerun-Stored line id j json request (some old) s h =
      ack_existing-Stored id request.job_id j json line.attempts s.store h

  reclaim_entry-Stored :
      (line : Line) (id j json : Text) (job : Option JobRequest) (s : Sweep Db)
      → redis.get s.store (result_key j) ≡ some json
      → redis.get
          (reclaim_entry redis from_utf8_lossy from_str stream group line id job s).store
          (result_key j)
        ≡ some json
  unfolding reclaim_entry
  reclaim_entry-Stored line id j json none s h = discard-Stored id j json line.xack_lands s h
  reclaim_entry-Stored line id j json (some request) s h =
      ack_or_rerun-Stored line id j json request
        (existing line.get_lands (redis.get s.store (result_key request.job_id))) s h

  pub reclaim_message-Stored :
      (line : Line) (j json : Text) (read : Option (Text × Value)) (s : Sweep Db)
      → redis.get s.store (result_key j) ≡ some json
      → redis.get
          (reclaim_message redis from_utf8_lossy from_str stream group line read s).store
          (result_key j)
        ≡ some json
  reclaim_message-Stored line j json none s h = h
  reclaim_message-Stored line j json (some (id, fields)) s h =
      reclaim_entry-Stored line id j json (payload from_utf8_lossy from_str fields) s h
