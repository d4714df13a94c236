-- ===== src/Startup/Workers.antt =====
-- src/main.rs with src/queue/redis.rs and src/api/handlers.rs: the number of workers, from the
-- command line of one node to the figures of another.
use mathlib.Core.Option.{some-injective, none-ne-some}
use akiro.Prelude.{
  ℕ, ◌≤◌, ◌≡◌, refl, sym, ap, ◌∙◌, ◌≢◌, ◌⊎◌, inl, inr, false, Option, none, some, [], ◌∷◌, All,
  arith,
}
use akiro.Prelude.Result.{ok}
use akiro.Prelude.Text.{Text, codes, text_eq}
use akiro.Prelude.Word.{u64_max}
use akiro.Prelude.Decimal.{decimal}
use akiro.Prelude.Decimal.RoundTrip.{
  IsDigit, decimal-IsDigit, decimal-ne-nil, parse_unsigned-decimal,
}
use akiro.Orchestrator.Pool
use akiro.Orchestrator.Pool.{Pool}
use akiro.Queue.Consumer
use akiro.Queue.Consumer.{RedisConsumer, consumer_name}
use akiro.Api.Cluster.{worker_count}
use akiro.Api.Cluster.Registered.{worker_count-consumer_name}
use akiro.Api.Auth.{normalize_secret}
use akiro.Startup.{
  RunMode, server, worker, all, Args, Environment, Running, parse_workers, new_pool, run_mode,
  run_server, run_worker, run_all, consumer_of, main,
}
use akiro.Startup.Guarded.{main_ok}

digits-ne-auto : (s : Text) → All IsDigit s → text_eq s (codes "auto") ≡ false
digits-ne-auto [] h = refl
digits-ne-auto (c ∷ s) (h, hs) = ground arith

not_empty : (s : Text) → s ≢ [] → text_eq s [] ≡ false
not_empty [] h = absurd (h refl)
not_empty (c ∷ s) h = refl

parse_workers-decimal : (n : ℕ) → n ≤ u64_max → parse_workers (some (decimal n)) ≡ some n
unfolding parse_workers
parse_workers-decimal n h =
    rw (digits-ne-auto (decimal n) (decimal-IsDigit n), not_empty (decimal n) (decimal-ne-nil n))
      (parse_unsigned-decimal u64_max n h h)

module _ (env : Environment) (args : Args) (pool : Pool) where
  -- Who consumes: a worker node always, a node that does all if it has workers.
  run_mode_consumer :
      (mode : RunMode) (secret : Option Text) {c : RedisConsumer}
      → (run_mode mode env args secret pool).consumer ≡ some c
      → consumer_of env pool ≡ c
  unfolding run_server run_worker run_all
  run_mode_consumer server secret e = absurd (none-ne-some _ e)
  run_mode_consumer worker secret e = some-injective _ _ e
  run_mode_consumer all secret e = ground arith

  run_mode_pool :
      (mode : RunMode) (secret : Option Text) → (run_mode mode env args secret pool).pool ≡ pool
  unfolding run_server run_worker run_all
  run_mode_pool server secret = refl
  run_mode_pool worker secret = refl
  run_mode_pool all secret = refl

or_named :
    (n : ℕ) (o : Option RedisConsumer)
    → ((c : RedisConsumer) → o ≡ some c → worker_count c.consumer_name ≡ n)
    → (o ≡ none) ⊎ ((c : RedisConsumer) × (o ≡ some c) × (worker_count c.consumer_name ≡ n))
or_named n none h = inl refl
or_named n (some c) h = inr (c, refl, h c refl)

-- A node that is started with a number of workers that fits a `usize` has a pool of that many, and
-- if it consumes the queue, that is the number which another node's health figures read from the
-- name under which its consumer registers.
pub main-worker_count :
    (env : Environment) (args : Args) (n : ℕ) (running : Running)
    → n ≤ u64_max
    → args.workers ≡ some (decimal n)
    → main env args ≡ ok running
    → (running.pool.num_workers ≡ n)
      × ((running.consumer ≡ none)
          ⊎ ((c : RedisConsumer) × (running.consumer ≡ some c)
              × (worker_count c.consumer_name ≡ n)))
unfolding new_pool Pool.new Consumer.new
main-worker_count env args n running h given started =
    let (_, same) = main_ok env args started in
    let pool = new_pool env (parse_workers args.workers) in
    let secret = normalize_secret args.secret in
    let workers : pool.num_workers ≡ n =
      rw (ap parse_workers given ∙ parse_workers-decimal n h) refl in
    (
      ap (λ (r : Running). r.pool.num_workers) (sym same)
          ∙ (ap (λ (p : Pool). p.num_workers) (run_mode_pool env args pool args.mode secret)
              ∙ workers),
      or_named n running.consumer (λ c e.
          ap (λ (d : RedisConsumer). worker_count d.consumer_name)
            (sym (
              run_mode_consumer env args pool args.mode secret
                (ap (λ (r : Running). r.consumer) same ∙ e)))
          ∙ (ap (λ k. worker_count (consumer_name k env.uuid)) workers
              ∙ worker_count-consumer_name n env.uuid h)),
    )
