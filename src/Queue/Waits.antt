-- ===== src/Queue/Waits.antt =====
-- src/queue/redis.rs: how long a report is retried.
use akiro.Prelude.{
  ℕ, zero, suc, ◌+◌, ◌≤◌, ◌⊎◌, inl, inr, ◌≡◌, refl, Bool, true, false, List, [], ◌∷◌, ◌==◌,
  if◌then◌else◌, arith,
}
use akiro.Queue.Redis.{Command, Redis}
use akiro.Queue.Publish.{
  Attempt, cut_after, refuses, answered, Retried, max_attempts, backoff_ms, run_attempt,
  after_attempt, retry_from, run_pipe_with_retry,
}

abbrev pub sum : List ℕ → ℕ
sum [] = 0
sum (w ∷ ws) = w + sum ws

-- The waits of a loop whose attempts all fail.
abbrev budget : ℕ → ℕ → ℕ
budget zero attempt = 0
budget (suc left) attempt =
    let rest = budget left (1 + attempt) in
    if attempt == max_attempts then 0 else backoff_ms attempt + rest

module _ {Db : Type 0} (redis : Redis Db) where
  -- It succeeded within the waits that are allowed, or failed after just those.
  abbrev pub EndsWithin : ℕ → Retried Db → Type 0
  EndsWithin allowed r =
      ((r.ok ≡ true) × (sum r.waits ≤ allowed)) ⊎ ((r.ok ≡ false) × (sum r.waits ≡ allowed))

  after_attempt-EndsWithin :
      (a : Attempt) (last : Bool) (wait allowed : ℕ) (d : Db) (rest : Retried Db)
      → EndsWithin allowed rest
      → EndsWithin (if last then 0 else wait + allowed) (after_attempt redis a last wait d rest)
  after_attempt-EndsWithin answered last wait allowed d rest h = inl (refl, omega arith)
  after_attempt-EndsWithin (cut_after n) true wait allowed d rest h = inr (refl, refl)
  after_attempt-EndsWithin (cut_after n) false wait allowed d rest (inl (e, h)) =
      inl (e, omega (arith, h))
  after_attempt-EndsWithin (cut_after n) false wait allowed d rest (inr (e, h)) =
      inr (e, omega (arith, h))
  after_attempt-EndsWithin (refuses flags) true wait allowed d rest h = inr (refl, refl)
  after_attempt-EndsWithin (refuses flags) false wait allowed d rest (inl (e, h)) =
      inl (e, omega (arith, h))
  after_attempt-EndsWithin (refuses flags) false wait allowed d rest (inr (e, h)) =
      inr (e, omega (arith, h))

  retry_from-EndsWithin :
      (left attempt : ℕ) (p : List Command) (net : ℕ → Attempt) (d : Db)
      → EndsWithin (budget left attempt) (retry_from redis left attempt p net d)
  unfolding retry_from
  retry_from-EndsWithin zero attempt p net d = inr (refl, refl)
  retry_from-EndsWithin (suc left) attempt p net d =
      let next = run_attempt redis (net attempt) p d in
      after_attempt-EndsWithin (net attempt) (attempt == max_attempts) (backoff_ms attempt)
        (budget left (1 + attempt)) next (retry_from redis left (1 + attempt) p net next)
        (retry_from-EndsWithin left (1 + attempt) p net next)

  -- A report that succeeds has waited for 13 s at most, and one that fails for just 13 s: 200 ms for
  -- each attempt so far, and 2 s at most, after each attempt but the last.
  pub run_pipe_with_retry-EndsWithin :
      (p : List Command) (net : ℕ → Attempt) (d : Db)
      → EndsWithin 13000 (run_pipe_with_retry redis p net d)
  unfolding run_pipe_with_retry
  run_pipe_with_retry-EndsWithin p net d = retry_from-EndsWithin max_attempts 1 p net d
