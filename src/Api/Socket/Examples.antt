-- ===== src/Api/Socket/Examples.antt =====
-- src/api/websocket.rs: a session whose client pings, submits, and submits again.
use akiro.Prelude.{true, some, [], ◌∷◌}
use akiro.Orchestrator.Job.{ProgressEvent}
use akiro.Api.Handlers.Examples.{hello}
use akiro.Api.Socket.{Peers}

abbrev peers : Peers
peers = record {
  from_json = λ t. some hello;
  events = λ r. ProgressEvent.compiling ∷ [];
  accepts = λ n. true;
}
