-- ===== src/Sandbox/Examples.antt =====
-- src/sandbox/: the theorems at concrete budgets, polls and outputs.
use akiro.Prelude.{
  ℕ, ◌/◌, ◌%◌, ◌≤◌, ◌≡◌, refl, Option, none, some, List, [], ◌∷◌, ◌++◌, ltb, ◌==◌, arith, All,
}
use akiro.Prelude.Text.{codes}
use akiro.Sandbox.Config.{SandboxConfig}
use akiro.Sandbox.Config
use akiro.Sandbox.Supervisor.{Libc, Rusage, Poll, Ended, zeroed, build_result, supervise}
use akiro.Sandbox.Supervisor.Pipe.{ReadAnswer, bytes_read, interrupted, end_of_file}
use akiro.Sandbox.Supervisor.Loop.{Waits, supervise_in_time, supervise_kills_once, supervise_ends}

-- The statuses of Linux, for exit codes and signals below 128.
abbrev linux : Libc
linux = record {
  wifexited = λ s. s % 128 == 0;
  wexitstatus = λ s. s / 256;
  wifsignaled = λ s. ltb 0 (s % 128);
  wtermsig = λ s. s % 128;
  sigkill = 9;
}

abbrev config : SandboxConfig
config = Config.new (codes "/bin/true")

abbrev answers : List ReadAnswer
answers = bytes_read (1 ∷ 2 ∷ []) ∷ interrupted ∷ bytes_read (3 ∷ 4 ∷ []) ∷ end_of_file ∷ []

abbrev poll : Option (ℕ × Rusage) → ℕ → Poll
poll taken ms = record { taken = taken; now = ms; elapsed = ms; wall = ms; stats = none }

waiting : All (Waits linux config) (poll none 0 ∷ [])
unfolding Config.new
waiting = ((refl, omega arith), tt)

over : config.wall_time_limit_ms ≤ 3000
unfolding Config.new
over = omega arith

abbrev exited : Ended
exited = record { result = build_result linux config none 0 zeroed 5; kills = 1 }

ended : supervise linux config (poll (some (0, zeroed)) 5 ∷ []) ≡ some exited
unfolding supervise
ended = supervise_in_time linux config [] [] (poll (some (0, zeroed)) 5) (0, zeroed) tt refl

supervise_kills_once_example : exited.kills ≡ 1
supervise_kills_once_example =
    supervise_kills_once linux config (poll (some (0, zeroed)) 5 ∷ []) exited ended

supervise_ends_example :
    (e : Ended) × (supervise linux config
        ((poll none 0 ∷ []) ++ (poll none 3000 ∷ ((poll none 3005 ∷ []) ++ poll none 4000 ∷ [])))
      ≡ some e)
supervise_ends_example =
    supervise_ends linux config (poll none 0 ∷ []) (poll none 3005 ∷ []) [] (poll none 3000)
      (poll none 4000) waiting over (omega arith)
