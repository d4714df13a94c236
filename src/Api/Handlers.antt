-- ===== src/Api/Handlers.antt =====
-- src/api/handlers.rs: the handlers that take submissions and give results. What the queue, the pool
-- and the clock of a wait answer is a parameter; a response is its status and what its body says.
pub mod Submitted
pub mod Found
pub mod Examples
use akiro.Prelude.{
  ℕ, ◌+◌, ◌/◌, max, Bool, true, false, Option, none, some, List, [], ◌∷◌, ◌++◌, length,
  if◌then◌else◌,
}
use akiro.Prelude.Result.{Result, ok, err}
use akiro.Prelude.Text.{Text, codes, text_eq, Lowercase}
use akiro.Prelude.Word.{add64, mul64}
use akiro.Languages.Language.{SupportedLanguage, from_str, contains}
use akiro.Orchestrator.Job.{JobRequest, JobResult, ValidateError, message, validate}
use akiro.Api.ResultBus.{EnqueueOutcome, queued, duplicate, redis_down}

pub data Body : Type 0 where
  job_result : JobResult → Body
  unsupported disabled invalid failed timed_out accepted in_flight unreachable pending unknown :
      Text → Body
  full no_cluster : Body

pub record Response : Type 0 where
  pub status : ℕ
  pub body : Body

abbrev pub respond : ℕ → Body → Response
respond status body = record { status = status; body = body }

-- What a handler does besides answering: the queued job with the seconds its marker lives, the wait
-- for a job with its milliseconds, and the job that is run by the local pool.
pub data Action : Type 0 where
  enqueues : JobRequest → ℕ → Action
  waits : Text → ℕ → Action
  runs : JobRequest → Action

-- What the other parts answer to one submission.
pub record Parts : Type 0 where
  pub uuid : Text
  -- The queue's outcome, and what the wait then finds.
  pub outcome : JobRequest → EnqueueOutcome
  pub waited : Option JobResult
  pub pool : JobRequest → Result Text JobResult

pub record ApiState : Type 0 where
  pub enabled_languages : Option (List SupportedLanguage)
  pub has_bus : Bool

abbrev pub disabled_language : Option (List SupportedLanguage) → SupportedLanguage → Bool
disabled_language none lang = false
disabled_language (some whitelist) lang = if contains whitelist lang then false else true

abbrev pub validated : Result ValidateError (Unit {0}) → Option Response
validated (ok v) = none
validated (err e) = some (respond 400 (invalid (message e)))

abbrev pub check_language :
    ApiState → JobRequest → Option SupportedLanguage → Option Response → Option Response
check_language state request none rest = some (respond 400 (unsupported request.language))
check_language state request (some lang) rest =
    if disabled_language state.enabled_languages lang
    then some (respond 403 (disabled request.language))
    else rest

-- The response of a submission that is refused.
unfoldable pub validate_submission : Lowercase → ApiState → JobRequest → Option Response
validate_submission lower state request =
    check_language state request (from_str lower request.language) (validated (validate request))

unfoldable pub max_wait_ms : JobRequest → ℕ
max_wait_ms request =
    max (add64 (mul64 (mul64 request.time_limit_ms (length request.test_cases)) 3) 60000) 600000

abbrev pub pending_ttl_secs : JobRequest → ℕ
pending_ttl_secs request = max_wait_ms request / 1000 + 60

abbrev pub local_response : Result Text JobResult → Response
local_response (ok result) = respond 200 (job_result result)
local_response (err e) =
    if text_eq e (codes "QUEUE_FULL") then respond 503 full else respond 500 (failed e)

unfoldable pub submit_local : Parts → JobRequest → Response × List Action
submit_local parts request = (local_response (parts.pool request), runs request ∷ [])

abbrev pub named : Text → Text → Text
named uuid [] = uuid
named uuid (c ∷ s) = c ∷ s

abbrev pub with_id : Parts → JobRequest → JobRequest
with_id parts request = record request { job_id = named parts.uuid request.job_id }

abbrev pub wait_response : Text → Option JobResult → Response
wait_response job_id (some result) = respond 200 (job_result result)
wait_response job_id none = respond 504 (timed_out job_id)

-- The wait for a queued job, or for the one already in flight.
unfoldable pub await_result : Parts → JobRequest → Response × List Action
await_result parts request =
    (wait_response request.job_id parts.waited, waits request.job_id (max_wait_ms request) ∷ [])

abbrev pub after_enqueue : Parts → JobRequest → EnqueueOutcome → Response × List Action
after_enqueue parts request queued = await_result parts request
after_enqueue parts request duplicate = await_result parts request
after_enqueue parts request redis_down = submit_local parts request

abbrev pub first_enqueue : JobRequest → Response × List Action → Response × List Action
first_enqueue request (response, actions) =
    (response, enqueues request (pending_ttl_secs request) ∷ actions)

abbrev pub submit_named : Bool → Parts → JobRequest → Response × List Action
submit_named true parts request =
    first_enqueue request (after_enqueue parts request (parts.outcome request))
submit_named false parts request = submit_local parts request

abbrev pub if_valid : Option Response → Response × List Action → Response × List Action
if_valid (some response) rest = (response, [])
if_valid none rest = rest

unfoldable pub submit : Lowercase → ApiState → Parts → JobRequest → Response × List Action
unfolding validate_submission await_result submit_local
submit lower state parts request =
    if_valid (validate_submission lower state request)
      (submit_named state.has_bus parts (with_id parts request))

abbrev pub async_response : Text → EnqueueOutcome → Response
async_response job_id queued = respond 202 (accepted job_id)
async_response job_id duplicate = respond 409 (in_flight job_id)
async_response job_id redis_down = respond 503 (unreachable job_id)

abbrev pub submit_async_named : Bool → Parts → JobRequest → Response × List Action
submit_async_named true parts request = (
  async_response request.job_id (parts.outcome request),
  enqueues request (pending_ttl_secs request) ∷ [],
)
submit_async_named false parts request = (respond 503 no_cluster, [])

unfoldable pub submit_async : Lowercase → ApiState → Parts → JobRequest → Response × List Action
unfolding validate_submission
submit_async lower state parts request =
    if_valid (validate_submission lower state request)
      (submit_async_named state.has_bus parts (with_id parts request))

abbrev pub or_unknown : Text → Bool → Response
or_unknown job_id true = respond 202 (pending job_id)
or_unknown job_id false = respond 404 (unknown job_id)

abbrev pub or_pending : Text → Option JobResult → Bool → Response
or_pending job_id (some result) is_pending = respond 200 (job_result result)
or_pending job_id none is_pending = or_unknown job_id is_pending

-- From what `try_result` and `is_pending` answer.
unfoldable pub get_result : Bool → Text → Option JobResult → Bool → Response
get_result false job_id found is_pending = respond 503 no_cluster
get_result true job_id found is_pending = or_pending job_id found is_pending
