-- ===== src/Api/Socket.antt =====
-- src/api/websocket.rs: the two sockets. What a client sends is a list, and what it is sent is one
-- too; a frame's JSON, whose printing does not fail, is told by a constructor, as in Api.Handlers.
pub mod Rest
pub mod Examples
use akiro.Prelude.{ℕ, suc, Bool, true, false, Option, none, some, List, [], ◌∷◌, if◌then◌else◌}
use akiro.Prelude.Result.{Result, ok, err}
use akiro.Prelude.Text.{Text, Lowercase}
use akiro.Languages.Language.{SupportedLanguage, from_str, contains}
use akiro.Orchestrator.Job.{JobRequest, JobResult, ProgressEvent, ValidateError, message, validate}
use akiro.Api.Handlers.{
  ApiState, Body, job_result, unsupported, disabled, invalid, timed_out, no_cluster, unknown,
}

-- What `receiver.next()` yields: a message, or the error that ends the stream. A ping, a pong or
-- bytes are `other`.
pub data Incoming : Type 0 where
  text : Text → Incoming
  close other failed : Incoming

pub data Frame : Type 0 where
  says : Body → Frame
  event : ProgressEvent → Frame
  malformed closing : Frame

-- The frames handed to the client, and the job handed to the pool.
pub record Session : Type 0 where
  pub frames : List Frame
  pub submitted : Option JobRequest

abbrev pub answer : Frame → Session
answer frame = record { frames = frame ∷ []; submitted = none }

abbrev pub is_disabled : Option (List SupportedLanguage) → SupportedLanguage → Bool
is_disabled none lang = false
is_disabled (some whitelist) lang = if contains whitelist lang then false else true

-- The stream of events, up to the first that cannot be sent; `accepts` says which of them can.
unfoldable pub stream_events : (ℕ → Bool) → ℕ → List ProgressEvent → List Frame
stream_events accepts n [] = []
stream_events accepts n (e ∷ es) =
    let rest = stream_events accepts (suc n) es in event e ∷ (if accepts n then rest else [])

-- What the pool sends as a job's events before it lets go of their channel, none where it refuses
-- the job, and what the client still takes.
pub record Peers : Type 0 where
  pub from_json : Text → Option JobRequest
  pub events : JobRequest → List ProgressEvent
  pub accepts : ℕ → Bool

unfoldable pub run_job : Peers → JobRequest → Session
unfolding stream_events
run_job peers request = record {
  frames = stream_events peers.accepts 0 (peers.events request);
  submitted = some request;
}

abbrev pub run_valid : Peers → JobRequest → Result ValidateError (Unit {0}) → Session
run_valid peers request (ok v) = run_job peers request
run_valid peers request (err e) = answer (says (invalid (message e)))

abbrev pub run_language : ApiState → Peers → JobRequest → Option SupportedLanguage → Session
run_language state peers request none = answer (says (unsupported request.language))
run_language state peers request (some lang) =
    if is_disabled state.enabled_languages lang
    then answer (says (disabled request.language))
    else run_valid peers request (validate request)

abbrev pub run_request : Lowercase → ApiState → Peers → Option JobRequest → Session
run_request lower state peers none = answer malformed
run_request lower state peers (some request) =
    run_language state peers request (from_str lower request.language)

unfoldable pub handle_socket : Lowercase → ApiState → Peers → List Incoming → Session
unfolding run_job
handle_socket lower state peers [] = record { frames = []; submitted = none }
handle_socket lower state peers (text t ∷ rest) = run_request lower state peers (peers.from_json t)
handle_socket lower state peers (close ∷ rest) = record { frames = []; submitted = none }
handle_socket lower state peers (failed ∷ rest) = record { frames = []; submitted = none }
handle_socket lower state peers (other ∷ rest) = handle_socket lower state peers rest

-- Which arm of the `select!` ends first: the wait with what it found, or the client.
pub data Arm : Type 0 where
  waited : Option JobResult → Arm
  left : Arm

abbrev pub wait_frames : Text → Arm → List Frame
wait_frames job_id (waited (some result)) = says (job_result result) ∷ closing ∷ []
wait_frames job_id (waited none) = says (timed_out job_id) ∷ closing ∷ []
wait_frames job_id left = closing ∷ []

abbrev pub if_pending : Text → Bool → Arm → List Frame
if_pending job_id true arm = wait_frames job_id arm
if_pending job_id false arm = says (unknown job_id) ∷ closing ∷ []

abbrev pub if_found : Text → Option JobResult → Bool → Arm → List Frame
if_found job_id (some result) is_pending arm = says (job_result result) ∷ closing ∷ []
if_found job_id none is_pending arm = if_pending job_id is_pending arm

-- From whether there is a bus and what `try_result`, `is_pending` and the race come to.
unfoldable pub handle_result_socket : Bool → Text → Option JobResult → Bool → Arm → List Frame
handle_result_socket false job_id found is_pending arm = says no_cluster ∷ closing ∷ []
handle_result_socket true job_id found is_pending arm = if_found job_id found is_pending arm
