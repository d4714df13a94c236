-- ===== src/Queue/Retries.antt =====
-- src/queue/redis.rs: what retrying a pipe keeps, and when it is carried out whole.
use akiro.Prelude.{
  ℕ, zero, suc, ◌+◌, ◌≤◌, ◌<◌, ◌≡◌, ◌≢◌, refl, ap, ◌∙◌, Bool, true, false, List, [], ◌∷◌, ◌==◌,
  if◌then◌else◌, All, arith,
}
use akiro.Queue.Redis.{Command, Redis}
use akiro.Queue.Publish.{
  Attempt, cut_after, refuses, answered, Retried, max_attempts, backoff_ms, perform_all,
  perform_some, perform_flagged, run_attempt, after_attempt, retry_from,
}

true_not_false : true ≢ false
true_not_false e = ground arith

cut_not_answered : (n : ℕ) → cut_after n ≢ answered
cut_not_answered n e = grind arith

refused_not_answered : (flags : List Bool) → refuses flags ≢ answered
refused_not_answered flags e = grind arith

none_left : (attempt answer : ℕ) → attempt + 0 ≡ 13 → attempt ≤ answer → answer ≤ 12 → ⊥
none_left attempt answer total from upto = omega arith

module _ {Db : Type 0} (redis : Redis Db) where
  -- What every command of a pipe keeps, a pipe cut anywhere keeps.
  perform_some-Keeps :
      (P : Db → Type 0) (p : List Command)
      → All (λ c. (d : Db) → P d → P (redis.perform c d)) p
      → (n : ℕ) (d : Db) → P d
      → P (perform_some redis n p d)
  unfolding perform_some
  perform_some-Keeps P p all zero d h = h
  perform_some-Keeps P [] all (suc n) d h = h
  perform_some-Keeps P (c ∷ p) all (suc n) d h =
      perform_some-Keeps P p all.1 n (redis.perform c d) (all.0 d h)

  perform_all-Keeps :
      (P : Db → Type 0) (p : List Command)
      → All (λ c. (d : Db) → P d → P (redis.perform c d)) p
      → (d : Db) → P d
      → P (perform_all redis p d)
  unfolding perform_all
  perform_all-Keeps P [] all d h = h
  perform_all-Keeps P (c ∷ p) all d h = perform_all-Keeps P p all.1 (redis.perform c d) (all.0 d h)

  perform_flagged-Keeps :
      (P : Db → Type 0) (p : List Command)
      → All (λ c. (d : Db) → P d → P (redis.perform c d)) p
      → (flags : List Bool) (d : Db) → P d
      → P (perform_flagged redis flags p d)
  unfolding perform_flagged
  perform_flagged-Keeps P p all [] d h = h
  perform_flagged-Keeps P [] all (b ∷ flags) d h = h
  perform_flagged-Keeps P (c ∷ p) all (true ∷ flags) d h =
      perform_flagged-Keeps P p all.1 flags (redis.perform c d) (all.0 d h)
  perform_flagged-Keeps P (c ∷ p) all (false ∷ flags) d h =
      perform_flagged-Keeps P p all.1 flags d h

  pub run_attempt-Keeps :
      (P : Db → Type 0) (p : List Command)
      → All (λ c. (d : Db) → P d → P (redis.perform c d)) p
      → (a : Attempt) (d : Db) → P d
      → P (run_attempt redis a p d)
  unfolding run_attempt
  run_attempt-Keeps P p all (cut_after n) = perform_some-Keeps P p all n
  run_attempt-Keeps P p all (refuses flags) = perform_flagged-Keeps P p all flags
  run_attempt-Keeps P p all answered = perform_all-Keeps P p all

  pub after_attempt-Keeps :
      (P : Db → Type 0) (a : Attempt) (last : Bool) (wait : ℕ) (d : Db) (rest : Retried Db)
      → P d
      → P rest.store
      → P (after_attempt redis a last wait d rest).store
  after_attempt-Keeps P answered last wait d rest h k = h
  after_attempt-Keeps P (cut_after n) true wait d rest h k = h
  after_attempt-Keeps P (cut_after n) false wait d rest h k = k
  after_attempt-Keeps P (refuses flags) true wait d rest h k = h
  after_attempt-Keeps P (refuses flags) false wait d rest h k = k

  -- What every attempt at a pipe keeps, its retries keep.
  pub retry_from-Keeps :
      (P : Db → Type 0) (p : List Command)
      → (net : ℕ → Attempt) → ((n : ℕ) (d : Db) → P d → P (run_attempt redis (net n) p d))
      → (left attempt : ℕ) (d : Db) → P d
      → P (retry_from redis left attempt p net d).store
  unfolding retry_from
  retry_from-Keeps P p net each zero attempt d h = h
  retry_from-Keeps P p net each (suc left) attempt d h =
      let next = run_attempt redis (net attempt) p d in
      let made = each attempt d h in
      after_attempt-Keeps P (net attempt) (attempt == max_attempts) (backoff_ms attempt) next
        (retry_from redis left (1 + attempt) p net next) made
        (retry_from-Keeps P p net each left (1 + attempt) next made)

  -- A pipe was carried out whole, from some store, as the last thing.
  abbrev pub Complete : List Command → Retried Db → Type 0
  Complete p r = (r.ok ≡ true) × (d : Db) × (r.store ≡ perform_all redis p d)

  if_false :
      (p : List Command) (last : Bool) (x y : Retried Db)
      → last ≡ false
      → Complete p y
      → Complete p (if last then x else y)
  if_false p true x y e h = elim (true_not_false e) [ ]
  if_false p false x y e h = h

  after_attempt-Complete :
      (p : List Command) (a : Attempt) (last : Bool) (wait : ℕ) (d : Db) (rest : Retried Db)
      → (a ≢ answered → (last ≡ false) × Complete p rest)
      → Complete p (after_attempt redis a last wait (run_attempt redis a p d) rest)
  unfolding run_attempt
  after_attempt-Complete p answered last wait d rest h = (refl, d, refl)
  after_attempt-Complete p (cut_after n) last wait d rest h =
      let ok = h (λ e. cut_not_answered n e) in
      if_false p last _ (record rest { waits = wait ∷ rest.waits }) ok.0 ok.1
  after_attempt-Complete p (refuses flags) last wait d rest h =
      let ok = h (λ e. refused_not_answered flags e) in
      if_false p last _ (record rest { waits = wait ∷ rest.waits }) ok.0 ok.1

  pub retry_from-Complete :
      (p : List Command) (left attempt answer : ℕ) (net : ℕ → Attempt) (d : Db)
      → attempt + left ≡ 1 + max_attempts
      → attempt ≤ answer
      → answer ≤ max_attempts
      → net answer ≡ answered
      → Complete p (retry_from redis left attempt p net d)
  unfolding retry_from
  retry_from-Complete p zero attempt answer net d total from upto h =
      elim (none_left attempt answer total from upto) [ ]
  retry_from-Complete p (suc left) attempt answer net d total from upto h =
      let next = run_attempt redis (net attempt) p d in
      after_attempt-Complete p (net attempt) (attempt == max_attempts) (backoff_ms attempt) d
        (retry_from redis left (1 + attempt) p net next)
        (λ other.
          let apart : attempt ≢ answer = λ e. other (ap net e ∙ h) in
          let later : attempt < answer = omega arith in
          (
            ground arith,
            retry_from-Complete p left (1 + attempt) answer net next (omega (arith, total))
                (omega (arith, later)) upto h,
          ))
