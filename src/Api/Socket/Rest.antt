-- ===== src/Api/Socket/Rest.antt =====
-- src/api/websocket.rs beside src/api/handlers.rs: the sockets and the REST endpoints agree.
use akiro.Prelude.{◌≡◌, refl, ◌⊎◌, inl, inr, Bool, true, false, Option, none, some, [], ◌∷◌}
use akiro.Prelude.Result.{Result}
use akiro.Prelude.Text.{Text, Lowercase}
use akiro.Orchestrator.Job.{JobRequest, JobResult}
use akiro.Api.Handlers.{ApiState, Response, validate_submission, get_result, pending, respond}
use akiro.Api.Socket.{
  Incoming, other, Session, Peers, says, malformed, closing, answer, stream_events, Arm,
  wait_frames, handle_result_socket,
}

abbrev pub Skipped : Incoming → Type 0
Skipped message = message ≡ other

-- What comes of a request that REST refuses with a response, or accepts.
abbrev pub as_rest : Peers → JobRequest → Option Response → Session
as_rest peers request none = record {
  frames = stream_events peers.accepts 0 (peers.events request);
  submitted = some request;
}
as_rest peers request (some response) = answer (says response.body)

abbrev pub first_text : Lowercase → ApiState → Peers → Option JobRequest → Session
first_text lower state peers none = answer malformed
first_text lower state peers (some request) =
    as_rest peers request (validate_submission lower state request)

-- The socket of a result says what `get_result` would, and closes, unless the job is pending; then
-- it ends as the race between the wait and the client does.
pub handle_result_socket-get_result :
    (has_bus : Bool) (job_id : Text) (found : Option JobResult) (is_pending : Bool) (arm : Arm)
    → (handle_result_socket has_bus job_id found is_pending arm
        ≡ says (get_result has_bus job_id found is_pending).body ∷ closing ∷ [])
      ⊎ ((get_result has_bus job_id found is_pending ≡ respond 202 (pending job_id))
          × (handle_result_socket has_bus job_id found is_pending arm ≡ wait_frames job_id arm))
unfolding handle_result_socket get_result
handle_result_socket-get_result false job_id found is_pending arm = inl refl
handle_result_socket-get_result true job_id (some result) is_pending arm = inl refl
handle_result_socket-get_result true job_id none true arm = inr (refl, refl)
handle_result_socket-get_result true job_id none false arm = inl refl
