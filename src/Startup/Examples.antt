-- ===== src/Startup/Examples.antt =====
-- src/main.rs: the theorems at one command line.
use akiro.Prelude.{◌≡◌, refl, subst, ◌⊎◌, true, false, none, some, arith}
use mathlib.Core.Option.{some-injective}
use akiro.Prelude.Text.{Text, codes, text_eq}
use akiro.Prelude.Decimal.{decimal}
use akiro.Queue.Consumer.{RedisConsumer}
use akiro.Api.Auth.{is_blank, normalize_secret}
use akiro.Api.Auth.Admits.{IsText, Knows}
use akiro.Api.Router.{Request, post, submit, create_router, dispatch}
use akiro.Api.Router.Layers.{IsPublic}
use akiro.Api.Cluster.{worker_count}
use akiro.Api.Examples.{one_byte, one_byte-IsText, headers}
use akiro.Api.Handlers.Examples.{ascii_only}
use akiro.Startup.{
  Environment, Args, all, Running, Gateway, new_pool, run_all, require_auth_enabled, main,
}
use akiro.Startup.Guarded.{main-guards}
use akiro.Startup.Workers.{main-worker_count}

abbrev env : Environment
env = record {
  require_auth = some (codes " Yes ");
  max_queue = none;
  parallelism = some 4;
  uuid = codes "f81d";
  spawns = λ url. true;
  lower = ascii_only;
}

abbrev args : Args
args = record {
  mode = all;
  port = 8080;
  secret = some (codes "s");
  token = none;
  languages = none;
  workers = some (decimal 12);
  redis = codes "redis://127.0.0.1:6379";
}

-- What `main` comes to.
abbrev node : Running
node = run_all env (new_pool env (some 12)) 8080 (some (codes "s")) args.redis none

abbrev gateway : Gateway
gateway = record {
  port = 8080;
  router = record {
    secret = some (codes "s");
    redis_url = some args.redis;
    state = record { enabled_languages = none; has_bus = true };
  };
}

abbrev request : Request
request = record { path = codes "/api/v1/submit"; method = post; headers = headers }

main-guards_example :
    (s : Text) × (args.secret ≡ some s)
    × (is_blank s ≡ false)
    × (IsPublic submit ⊎ Knows one_byte request.headers s)
unfolding require_auth_enabled main normalize_secret decimal create_router dispatch
main-guards_example =
    main-guards one_byte one_byte-IsText text_eq env args
      (λ s e. subst IsText (some-injective _ _ e) (omega arith, tt)) refl node gateway request
      submit refl refl refl

main-worker_count_example :
    (node.pool.num_workers ≡ 12)
    × ((node.consumer ≡ none)
        ⊎ ((c : RedisConsumer) × (node.consumer ≡ some c) × (worker_count c.consumer_name ≡ 12)))
unfolding main normalize_secret decimal
main-worker_count_example = main-worker_count env args 12 node (omega arith) refl refl
