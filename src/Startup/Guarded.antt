-- ===== src/Startup/Guarded.antt =====
-- src/main.rs with src/api/mod.rs: what a started judge lets through when a secret is required.
use mathlib.Core.Option.{some-injective, none-ne-some}
use akiro.Prelude.{
  ℕ, ◌≡◌, refl, sym, ap, ◌∙◌, ◌⊎◌, inl, inr, Bool, true, false, ◌&&◌, Bool-cases, Option, none,
  some, List, arith,
}
use akiro.Prelude.Result.{ok}
use akiro.Prelude.Text.{Text}
use akiro.Orchestrator.Pool.{Pool}
use akiro.Api.Auth.{normalize_secret, is_blank, auth_middleware}
use akiro.Api.Auth.Admits.{IsText, Knows, auth_middleware_iff}
use akiro.Api.Router.{Endpoint, Request, create_router, handled, dispatch}
use akiro.Api.Router.Layers.{IsPublic, dispatch-handled}
use akiro.Startup.{
  RunMode, server, worker, all, Args, Environment, Gateway, Running, run_mode, run_server,
  run_worker, run_all, new_pool, parse_workers, require_auth_enabled, is_none, main,
}

-- The second normalisation, in `create_router`, changes nothing.
normalize_secret_twice :
    (secret : Option Text) → normalize_secret (normalize_secret secret) ≡ normalize_secret secret
unfolding normalize_secret
normalize_secret_twice none = refl
normalize_secret_twice (some s) = elim (Bool-cases (is_blank s)) [
  | inl blank ↦ rw blank refl
  | inr kept ↦ rw (kept, kept) refl
]

run_mode_secret :
    (mode : RunMode) (env : Environment) (args : Args) (secret : Option Text) (pool : Pool)
    {g : Gateway}
    → (run_mode mode env args secret pool).gateway ≡ some g
    → g.router.secret ≡ normalize_secret secret
unfolding run_server run_worker run_all create_router
run_mode_secret server env args secret pool e =
    sym (ap (λ (g' : Gateway). g'.router.secret) (some-injective _ _ e))
run_mode_secret worker env args secret pool e = absurd (none-ne-some _ e)
run_mode_secret all env args secret pool e =
    sym (ap (λ (g' : Gateway). g'.router.secret) (some-injective _ _ e))

kept_secret :
    (secret : Option Text)
    → is_none (normalize_secret secret) ≡ false
    → (s : Text) × (secret ≡ some s) × (is_blank s ≡ false)
unfolding normalize_secret
kept_secret none h = cc
kept_secret (some s) h = (s, refl, ground arith)

pub main_ok :
    (env : Environment) (args : Args) {running : Running}
    → main env args ≡ ok running
    → ((require_auth_enabled env.require_auth && is_none (normalize_secret args.secret)) ≡ false)
      × (run_mode args.mode env args
            (normalize_secret args.secret)
            (new_pool env (parse_workers args.workers))
          ≡ running)
unfolding main
main_ok env args e = ground arith

module _ (to_str : List ℕ → Option Text)
    (texts : (b : List ℕ) (s : Text) → to_str b ≡ some s → IsText s) (matches : Text → Text → Bool)
    (env : Environment) (args : Args) (is_text : (s : Text) → args.secret ≡ some s → IsText s)
    (required : require_auth_enabled env.require_auth ≡ true) where
  -- Where `JUDGE_REQUIRE_AUTH` is set to a truthy value and texts are decoded as texts, a judge
  -- that starts has a secret that is not blank, and a request to its gateway, however paths are
  -- matched, gets to no handler but those of the health figures and the metrics unless it carries
  -- that secret.
  pub main-guards :
      (running : Running) (g : Gateway) (request : Request) (e : Endpoint)
      → main env args ≡ ok running
      → running.gateway ≡ some g
      → dispatch matches to_str g.router request ≡ handled e
      → (s : Text) × (args.secret ≡ some s)
        × (is_blank s ≡ false)
        × (IsPublic e ⊎ Knows to_str request.headers s)
  main-guards running g request e started serving reached =
      let (passed, same) = main_ok env args started in
      let (s, given, kept) = kept_secret args.secret (ground arith) in
      let secret : g.router.secret ≡ normalize_secret (some s) =
        run_mode_secret args.mode env args (normalize_secret args.secret)
          (new_pool env (parse_workers args.workers))
          (ap (λ (r : Running). r.gateway) same ∙ serving)
        ∙ (normalize_secret_twice args.secret ∙ ap normalize_secret given) in
      (
        s,
        given,
        kept,
        elim (dispatch-handled matches to_str g.router request reached) [
          | inl public ↦ inl public
          | inr admitted ↦
              elim ((auth_middleware_iff to_str texts s request.headers (is_text s given)).0
                (ap (λ o. auth_middleware to_str o request.headers) (sym secret) ∙ admitted)) [
                  | inl blank ↦ absurd (ground arith)
                  | inr known ↦ inr known
                ]
        ],
      )
