-- ===== src/Sandbox/Execute/Examples.antt =====
-- src/sandbox/mod.rs: the theorems at a child that is started at the second try.
use akiro.Prelude.{◌≡◌, ◌↔◌, refl, none, some, List, [], ◌∷◌}
use akiro.Prelude.Result.{ok}
use akiro.Prelude.Int.{pos}
use akiro.Prelude.Text.{codes}
use akiro.Sandbox.Config.{SandboxConfig, with_max_output}
use akiro.Sandbox.Config
use akiro.Sandbox.Result.{SandboxStatus, ExecutionResult}
use akiro.Sandbox.Result
use akiro.Sandbox.Supervisor.Pipe.{ReadAnswer, bytes_read, end_of_file}
use akiro.Sandbox.Execute.{
  Host, forked, try_again, made, not_made, fork_loop, with_output, with_jail, execute,
}
use akiro.Sandbox.Execute.Pipes.{
  opened, new_pipes, nothing_held, held_after, Released, held_after_iff,
}
use akiro.Sandbox.Execute.Output.{Output, fork_answer, execute-Output}

abbrev ended : ExecutionResult
ended = Result.new SandboxStatus.ok (pos 0)

abbrev reads : List ReadAnswer
reads = bytes_read (104 ∷ 105 ∷ []) ∷ bytes_read (10 ∷ []) ∷ end_of_file ∷ []

abbrev host : Host
host = record {
  total_units = 3;
  uuid = codes "u1";
  pipes = ok tt;
  cgroup = made;
  fork = try_again;
  fork_again = forked 7 ∷ [];
  attach = λ pid. ok tt;
  supervise = λ config pid. ok ended;
  stdout_reads = some reads;
  stderr_reads = none;
}

abbrev config : SandboxConfig
config = with_max_output 2 (Config.new (codes "/bin/echo"))

succeeded :
    (execute host config).result ≡ ok (with_output host (with_jail (codes "u1") config) ended)
unfolding execute fork_loop
succeeded = refl

execute-Output_example :
    Output host
      (fork_answer host)
      (with_jail (codes "u1") config)
      (with_output host (with_jail (codes "u1") config) ended)
execute-Output_example = execute-Output host config _ succeeded

-- A control group that is refused.
abbrev ungrouped : Host
ungrouped = record host { cgroup = not_made (codes "memory.max") }

held_after_iff_example :
    (held_after ungrouped (new_pipes opened opened opened) ≡ nothing_held)
    ↔ Released ungrouped opened opened opened
held_after_iff_example = held_after_iff ungrouped opened opened opened
