-- ===== src/Startup.antt =====
-- src/main.rs: from the command line to the parts that run. Reading the arguments is clap's, and
-- the port's listener and signals are left out.
pub mod Guarded
pub mod Workers
pub mod Examples
use akiro.Prelude.{
  unwrap_or, ℕ, Bool, true, false, Option, none, some, List, [], ◌∷◌, ◌&&◌, ◌<◌, ltb, map,
  if◌then◌else◌,
}
use akiro.Prelude.Result.{Result, ok, err}
use akiro.Prelude.Text.{Text, codes, text_eq, trim, ascii_lower, parse_unsigned, Lowercase}
use akiro.Prelude.Word.{u64_max}
use akiro.Languages.Language.{SupportedLanguage, one_of, parse_whitelist}
use akiro.Orchestrator.Pool
use akiro.Orchestrator.Pool.{Pool}
use akiro.Queue.Consumer
use akiro.Queue.Consumer.{RedisConsumer}
use akiro.Api.Auth.{normalize_secret}
use akiro.Api.Router.{Router, create_router}

pub data RunMode : Type 0 where
  server worker all : RunMode

-- `token` is read by nothing.
pub record Args : Type 0 where
  pub mode : RunMode
  pub port : ℕ
  pub secret : Option Text
  pub token : Option Text
  pub languages : Option Text
  pub workers : Option Text
  pub redis : Text

-- The environment that the program reads beside its arguments, and what its parts find there.
pub record Environment : Type 0 where
  -- `JUDGE_REQUIRE_AUTH` and `JUDGE_MAX_QUEUE`.
  pub require_auth : Option Text
  pub max_queue : Option Text
  -- `available_parallelism`.
  pub parallelism : Option ℕ
  pub uuid : Text
  -- Whether the result bus can be started on a URL.
  pub spawns : Text → Bool
  pub lower : Lowercase

abbrev pub is_truthy : Text → Bool
is_truthy v = one_of v (codes "1" ∷ codes "true" ∷ codes "yes" ∷ codes "on" ∷ [])

unfoldable pub require_auth_enabled : Option Text → Bool
unfolding one_of
require_auth_enabled none = false
require_auth_enabled (some v) = is_truthy (map ascii_lower (trim v))

unfoldable pub parse_workers : Option Text → Option ℕ
parse_workers none = none
parse_workers (some s) =
    if text_eq s (codes "auto")
    then none
    else if text_eq s []
    then none
    else parse_unsigned u64_max s

abbrev pub parse_queue : Option Text → Option ℕ
parse_queue none = none
parse_queue (some s) = parse_unsigned u64_max s

-- `JudgeWorkerPool::new`.
unfoldable pub new_pool : Environment → Option ℕ → Pool
new_pool env num_workers =
    Pool.new (unwrap_or num_workers (unwrap_or env.parallelism 4))
      (unwrap_or (parse_queue env.max_queue) 128)

abbrev pub enabled : Environment → Option Text → Option (List SupportedLanguage)
enabled env none = none
enabled env (some l) = some (parse_whitelist env.lower l)

-- What runs: the pool with its workers, the gateway on its port, and the consumer of the queue.
pub record Gateway : Type 0 where
  pub port : ℕ
  pub router : Router

pub record Running : Type 0 where
  pub pool : Pool
  pub gateway : Option Gateway
  pub consumer : Option RedisConsumer

abbrev pub consumer_of : Environment → Pool → RedisConsumer
consumer_of env pool = Consumer.new pool.num_workers none none env.uuid

unfoldable pub run_server :
    Environment → Pool → ℕ → Option Text → Option (List SupportedLanguage) → Running
run_server env pool port secret enabled_languages = record {
  pool = pool;
  gateway =
      some
        (record { port = port; router = create_router env.spawns secret none enabled_languages });
  consumer = none;
}

unfoldable pub run_worker : Environment → Pool → Running
run_worker env pool = record { pool = pool; gateway = none; consumer = some (consumer_of env pool) }

unfoldable pub run_all :
    Environment → Pool → ℕ → Option Text → Text → Option (List SupportedLanguage) → Running
run_all env pool port secret redis_url enabled_languages = record {
  pool = pool;
  gateway = some (record {
    port = port;
    router = create_router env.spawns secret (some redis_url) enabled_languages;
  });
  consumer = if ltb 0 pool.num_workers then some (consumer_of env pool) else none;
}

pub data StartError : Type 0 where
  secret_required : StartError

abbrev pub run_mode : RunMode → Environment → Args → Option Text → Pool → Running
run_mode server env args secret pool =
    run_server env pool args.port secret (enabled env args.languages)
run_mode worker env args secret pool = run_worker env pool
run_mode all env args secret pool =
    run_all env pool args.port secret args.redis (enabled env args.languages)

abbrev pub is_none : Option Text → Bool
is_none none = true
is_none (some s) = false

unfoldable pub main : Environment → Args → Result StartError Running
unfolding require_auth_enabled parse_workers new_pool run_server run_worker run_all
main env args =
    let api_secret = normalize_secret args.secret in
    if require_auth_enabled env.require_auth && is_none api_secret
    then err secret_required
    else ok (run_mode args.mode env args api_secret (new_pool env (parse_workers args.workers)))
