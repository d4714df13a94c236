-- ===== src/Api/Handlers/Submitted.antt =====
-- src/api/handlers.rs: what submissions set going.
use akiro.Prelude.{
  ℕ, zero, suc, ◌+◌, ◌*◌, ◌/◌, ◌≤◌, ◌<◌, ◌≡◌, ◌≢◌, refl, ◌⊎◌, inl, inr, max, Bool, true, false,
  Option, none, some, List, [], ◌∷◌, length, if◌then◌else◌, All, arith,
}
use akiro.Prelude.Result.{Result, ok, err}
use akiro.Prelude.Text.{Text, Lowercase}
use akiro.Prelude.Word.{add64, mul64}
use akiro.Languages.Language.{SupportedLanguage, from_str}
use akiro.Orchestrator.Job.{JobRequest, ValidateError, validate}
use akiro.Orchestrator.Job.Validation.{IsValid, validate_iff}
use akiro.Api.ResultBus.{EnqueueOutcome, queued, duplicate, redis_down}
use akiro.Api.Handlers.{
  Response, respond, disabled, Action, enqueues, waits, runs, Parts, ApiState, disabled_language,
  validated, check_language, validate_submission, max_wait_ms, pending_ttl_secs, submit_local,
  named, with_id, await_result, after_enqueue, submit_named, if_valid, submit, submit_async_named,
  submit_async,
}

scaled : (a b m : ℕ) → b ≤ m → a * b ≤ a * m
scaled zero b m h = omega arith
scaled (suc a) b m h = let rest = scaled a b m h in omega arith

small_product : (a b : ℕ) → a ≤ 60000 → b ≤ 100 → a * b ≤ 6000000
small_product a b h k = let times = scaled a b 100 k in omega arith

max_wait_bounds :
    (t n : ℕ)
    → t ≤ 60000
    → n ≤ 100
    → t * n * 3 + 60000 ≤ max (add64 (mul64 (mul64 t n) 3) 60000) 600000
max_wait_bounds t n h k = let small = small_product t n h k in omega arith

outlives : (ms : ℕ) → ms < (ms / 1000 + 60) * 1000
outlives ms = omega arith

-- The seconds of the marker outlive a wait that is long enough for all the tests three times over.
abbrev pub WaitFits : JobRequest → Type 0
WaitFits r =
    (r.time_limit_ms * length r.test_cases * 3 + 60000 ≤ max_wait_ms r)
    × (max_wait_ms r < pending_ttl_secs r * 1000)

WaitFits-IsValid : (r : JobRequest) → IsValid r → WaitFits r
unfolding max_wait_ms
WaitFits-IsValid r v = (
  max_wait_bounds r.time_limit_ms (length r.test_cases) v.time_bounded v.few_cases,
  outlives (max_wait_ms r),
)

some_not_none : (response : Response) → some response ≢ none
some_not_none response e = grind arith

validated-none : (v : Result ValidateError (Unit {0})) → validated v ≡ none → v ≡ ok tt
validated-none (ok u) h = refl
validated-none (err e) h = elim (some_not_none _ h) [ ]

unrefused :
    (b : Bool) (response : Response) (rest : Option Response)
    → (if b then some response else rest) ≡ none
    → (b ≡ false) × (rest ≡ none)
unrefused true response rest h = elim (some_not_none response h) [ ]
unrefused false response rest h = (refl, h)

module _ (lower : Lowercase) (state : ApiState) (parts : Parts) where
  -- A job that the deployment takes: valid, of an enabled language, and with an id.
  abbrev pub Taken : JobRequest → Type 0
  Taken r =
      IsValid r
      × ((lang : SupportedLanguage) × (from_str lower r.language ≡ some lang)
          × (disabled_language state.enabled_languages lang ≡ false))
      × (r.job_id ≢ [])

  -- The shortest wait that the limits of a job call for.
  abbrev pub needed_ms : JobRequest → ℕ
  needed_ms r = max (r.time_limit_ms * length r.test_cases * 3 + 60000) 600000

  -- An action on the job `job`, whose marker lives for `ttl` seconds.
  abbrev pub Sound : JobRequest → ℕ → Action → Type 0
  Sound job ttl (enqueues r t) = (r ≡ job) × Taken job × (t ≡ ttl) × (needed_ms job < ttl * 1000)
  Sound job ttl (waits job_id ms) = (job_id ≡ job.job_id) × (needed_ms job ≤ ms) × (ms < ttl * 1000)
  Sound job ttl (runs r) =
      (r ≡ job) × Taken job × ((state.has_bus ≡ false) ⊎ (parts.outcome job ≡ redis_down))

  wait_of :
      (r : JobRequest)
      → Taken r
      → (needed_ms r ≤ max_wait_ms r) × (max_wait_ms r < pending_ttl_secs r * 1000)
  unfolding max_wait_ms
  wait_of r t = let (long, short) = WaitFits-IsValid r t.0 in (omega arith, omega arith)

  named_lem : (uuid id : Text) → uuid ≢ [] → named uuid id ≢ []
  named_lem uuid [] h = h
  named_lem uuid (c ∷ s) h = λ e. grind arith

  abbrev Passes : JobRequest → Type 0
  Passes r =
      IsValid r
      × (lang : SupportedLanguage) × (from_str lower r.language ≡ some lang)
      × (disabled_language state.enabled_languages lang ≡ false)

  check_language-none :
      (r : JobRequest) (found : Option SupportedLanguage)
      → from_str lower r.language ≡ found
      → check_language state r found (validated (validate r)) ≡ none
      → Passes r
  check_language-none r none e h = elim (some_not_none _ h) [ ]
  check_language-none r (some lang) e h =
      let kept =
        unrefused (disabled_language state.enabled_languages lang)
          (respond 403 (disabled r.language)) (validated (validate r)) h in
      ((validate_iff r).0 (validated-none (validate r) kept.1), lang, e, kept.0)

  Taken-with_id : (r : JobRequest) → parts.uuid ≢ [] → Passes r → Taken (with_id parts r)
  Taken-with_id r h (v, lang, e, on) = (
    record {
      source_fits = v.source_fits;
      some_case = v.some_case;
      few_cases = v.few_cases;
      cases_fit = v.cases_fit;
      time_positive = v.time_positive;
      time_bounded = v.time_bounded;
      memory_positive = v.memory_positive;
      memory_bounded = v.memory_bounded;
    },
    (lang, e, on),
    named_lem parts.uuid r.job_id h,
  )

  after_enqueue-Sound :
      (r : JobRequest) (outcome : EnqueueOutcome)
      → parts.outcome r ≡ outcome
      → Taken r
      → All (Sound r (pending_ttl_secs r)) (after_enqueue parts r outcome).1
  unfolding await_result submit_local
  after_enqueue-Sound r queued e t = let (long, short) = wait_of r t in ((refl, long, short), tt)
  after_enqueue-Sound r duplicate e t = let (long, short) = wait_of r t in ((refl, long, short), tt)
  after_enqueue-Sound r redis_down e t = ((refl, t, inr e), tt)

  submit_named-Sound :
      (bus : Bool) (r : JobRequest)
      → state.has_bus ≡ bus
      → Taken r
      → All (Sound r (pending_ttl_secs r)) (submit_named bus parts r).1
  unfolding submit_local
  submit_named-Sound true r e t =
      let (long, short) = wait_of r t in
      ((refl, t, refl, omega arith), after_enqueue-Sound r (parts.outcome r) refl t)
  submit_named-Sound false r e t = ((refl, t, inl e), tt)

  submit_async_named-Sound :
      (bus : Bool) (r : JobRequest)
      → Taken r
      → All (Sound r (pending_ttl_secs r)) (submit_async_named bus parts r).1
  submit_async_named-Sound true r t =
      let (long, short) = wait_of r t in ((refl, t, refl, omega arith), tt)
  submit_async_named-Sound false r t = tt

  if_valid-Sound :
      (job : JobRequest) (ttl : ℕ) (refusal : Option Response) (rest : Response × List Action)
      → (refusal ≡ none → All (Sound job ttl) rest.1)
      → All (Sound job ttl) (if_valid refusal rest).1
  if_valid-Sound job ttl (some response) rest h = tt
  if_valid-Sound job ttl none rest h = h refl

  -- If fresh ids are not empty, then whatever a client submits, by either handler, all that is set
  -- going is about that job under its id: it is queued or run only if it is valid, of an enabled
  -- language and has an id; its marker, if queued, and its wait last for three times the limits of
  -- all its tests and a minute, and for ten minutes, and the marker outlives the wait; and the local
  -- pool only runs it when there is no queue or the enqueue reported that Redis was down.
  pub submit-Sound :
      (r : JobRequest)
      → parts.uuid ≢ []
      → let job = with_id parts r in
        (ttl : ℕ) × All (Sound job ttl) (submit lower state parts r).1
        × All (Sound job ttl) (submit_async lower state parts r).1
  unfolding submit submit_async validate_submission
  submit-Sound r h =
      let taken = λ (e : validate_submission lower state r ≡ none).
        Taken-with_id r h (check_language-none r (from_str lower r.language) refl e) in
      (
        pending_ttl_secs (with_id parts r),
        if_valid-Sound (with_id parts r) _ (validate_submission lower state r) _
            (λ e. submit_named-Sound state.has_bus (with_id parts r) refl (taken e)),
        if_valid-Sound (with_id parts r) _ (validate_submission lower state r) _
            (λ e. submit_async_named-Sound state.has_bus (with_id parts r) (taken e)),
      )
