-- ===== src/Queue/Consumer.antt =====
-- src/queue/redis.rs: a consumer of the job stream, its name and its heartbeat.
use akiro.Prelude.{unwrap_or, ℕ, ◌++◌, Option}
use akiro.Prelude.Text.{Text, codes}
use akiro.Prelude.Decimal.{decimal}
use akiro.Queue.Redis.{Command}

pub record RedisConsumer : Type 0 where
  pub stream_key : Text
  pub consumer_group : Text
  pub consumer_name : Text

unfoldable pub consumer_name : ℕ → Text → Text
consumer_name workers_count uuid =
    codes "worker-w" ++ (decimal workers_count ++ (codes "-" ++ uuid))

-- `RedisConsumer::new`, from the pool's `num_workers` and the identifier that `Uuid::new_v4` draws.
unfoldable pub new : ℕ → Option Text → Option Text → Text → RedisConsumer
new workers_count stream_key consumer_group uuid = record {
  stream_key = unwrap_or stream_key (codes "judge:jobs");
  consumer_group = unwrap_or consumer_group (codes "judge_workers");
  consumer_name = consumer_name workers_count uuid;
}

unfoldable pub heartbeat_key : RedisConsumer → Text
heartbeat_key consumer = codes "judge:heartbeat:" ++ consumer.consumer_name

-- The SET at the top of each round.
unfoldable pub heartbeat : RedisConsumer → ℕ → Command
unfolding heartbeat_key
heartbeat consumer num_workers = Command.set_ex (heartbeat_key consumer) (decimal num_workers) 20
