-- ===== src/Api/Router/Layers.antt =====
-- src/api/mod.rs: which endpoints a request reaches without the secret.
use mathlib.Core.Option.{some-injective, none-ne-some}
use akiro.Prelude.{
  ℕ, ◌≡◌, refl, sym, ◌∙◌, subst, ◌⊎◌, inl, inr, Bool, true, false, Bool-cases, Option, none, some,
  List, [], ◌∷◌, All, if◌then◌else◌, arith,
}
use akiro.Prelude.Text.{Text}
use akiro.Api.Auth.{auth_middleware}
use akiro.Api.Router.{
  Endpoint, health, metrics, Route, Router, Request, Dispatch, handled, serve, public_routes,
  protected_routes, find_route, serve_public, serve_protected, dispatch,
}

abbrev pub IsPublic : Endpoint → Type 0
IsPublic e = (e ≡ health) ⊎ (e ≡ metrics)

serve-handled :
    (r : Route) (request : Request) {e : Endpoint} → serve r request ≡ handled e → r.endpoint ≡ e
serve-handled r request h = ground arith

serve_protected-handled :
    (admitted : Bool) (o : Option Route) (request : Request) (rest : Dispatch) {e : Endpoint}
    → serve_protected admitted o request rest ≡ handled e
    → (admitted ≡ true) ⊎ (rest ≡ handled e)
serve_protected-handled admitted none request rest h = inr h
serve_protected-handled true (some r) request rest h = inl refl
serve_protected-handled false (some r) request rest h = cc

serve_public-IsPublic :
    (o : Option Route) (request : Request) {e : Endpoint}
    → ((r : Route) → o ≡ some r → IsPublic r.endpoint)
    → serve_public o request ≡ handled e
    → IsPublic e
serve_public-IsPublic none request k h = cc
serve_public-IsPublic (some r) request k h = subst IsPublic (serve-handled r request h) (k r refl)

module _ (matches : Text → Text → Bool) where
  find_route-All :
      (P : Route → Type 0) (rs : List Route) (path : Text) {r : Route}
      → All P rs
      → find_route matches rs path ≡ some r
      → P r
  unfolding find_route
  find_route-All P [] path h e = absurd (none-ne-some _ e)
  find_route-All P (r ∷ rs) path (h, hs) e = elim (Bool-cases (matches r.pattern path)) [
    | inl same ↦ subst P (some-injective _ _ (sym (on_match same) ∙ e)) h
    | inr other ↦ find_route-All P rs path hs (sym (on_other other) ∙ e)
  ]
    where
      on_match :
          matches r.pattern path ≡ true
          → (if matches r.pattern path then some r else find_route matches rs path) ≡ some r
      on_match same = rw same refl

      on_other :
          matches r.pattern path ≡ false
          → (if matches r.pattern path then some r else find_route matches rs path)
            ≡ find_route matches rs path
      on_other other = rw other refl

  -- Whatever paths match, a request reaches the health figures, the metrics, or what the middleware
  -- lets it through to.
  pub dispatch-handled :
      (to_str : List ℕ → Option Text) (router : Router) (request : Request) {e : Endpoint}
      → dispatch matches to_str router request ≡ handled e
      → IsPublic e ⊎ (auth_middleware to_str router.secret request.headers ≡ true)
  unfolding dispatch public_routes
  dispatch-handled to_str router request h =
      elim (serve_protected-handled (auth_middleware to_str router.secret request.headers)
        (find_route matches protected_routes request.path) request
        (serve_public (find_route matches public_routes request.path) request) h) [
          | inl admitted ↦ inr admitted
          | inr public ↦ inl (
              serve_public-IsPublic (find_route matches public_routes request.path) request
                (λ r found.
                  find_route-All (λ r'. IsPublic r'.endpoint) public_routes request.path
                    (inl refl, (inr refl, tt)) found)
                public)
        ]
