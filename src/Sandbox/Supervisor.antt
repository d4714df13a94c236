-- ===== src/Sandbox/Supervisor.antt =====
-- src/sandbox/supervisor.rs: a child watched to its end. The parts of libc that decode a wait status
-- are a parameter; times are milliseconds since the start, and those of the kernel are small
-- enough not to overflow.
pub mod Pipe
pub mod Verdicts
pub mod Loop
use akiro.Prelude.{
  ℕ, ◌+◌, ◌*◌, ◌/◌, Bool, true, false, ◌&&◌, ◌||◌, Option, none, some, List, [], ◌∷◌, ltb, leb,
  ◌==◌, if◌then◌else◌, max,
}
use akiro.Prelude.Int.{ℤ, pos, negsuc}
use akiro.Prelude.Word.{saturating_sub}
use akiro.Sandbox.Config.{SandboxConfig}
use akiro.Sandbox.Result.{
  SandboxStatus, ExecutionResult, with_cpu_time, with_wall_time, with_memory,
}
use akiro.Sandbox.Result

-- WIFEXITED, WEXITSTATUS, WIFSIGNALED, WTERMSIG and SIGKILL.
pub record Libc : Type 0 where
  pub wifexited : ℕ → Bool
  pub wexitstatus : ℕ → ℕ
  pub wifsignaled : ℕ → Bool
  pub wtermsig : ℕ → ℕ
  pub sigkill : ℕ

pub record Rusage : Type 0 where
  pub utime_sec : ℕ
  pub utime_usec : ℕ
  pub stime_sec : ℕ
  pub stime_usec : ℕ
  pub maxrss : ℕ

abbrev pub zeroed : Rusage
zeroed = record { utime_sec = 0; utime_usec = 0; stime_sec = 0; stime_usec = 0; maxrss = 0 }

-- What `CgroupManager::read_stats` returns, of which two fields are read.
pub record CgroupStats : Type 0 where
  pub memory_peak_bytes : ℕ
  pub oom_kill_count : ℕ

abbrev pub cpu_ms : Rusage → ℕ
cpu_ms r = (r.utime_sec * 1000000 + r.utime_usec + (r.stime_sec * 1000000 + r.stime_usec)) / 1000

abbrev pub peak_kb : Option CgroupStats → Rusage → ℕ
peak_kb none r = r.maxrss
peak_kb (some s) r = max (s.memory_peak_bytes / 1024) r.maxrss

abbrev pub was_oom_killed : Option CgroupStats → Bool
was_oom_killed none = false
was_oom_killed (some s) = ltb 0 s.oom_kill_count

-- `memory_limit_kb > 0 && memory_kb > memory_limit_kb`.
abbrev pub over_limit : SandboxConfig → ℕ → Bool
over_limit config memory_kb =
    let memory_limit_kb = config.memory_limit_bytes / 1024 in
    ltb 0 memory_limit_kb && ltb memory_limit_kb memory_kb

abbrev pub out_of_time : SandboxConfig → ℕ → ℕ → Bool
out_of_time config wall_time_ms cpu_time_ms =
    leb config.wall_time_limit_ms wall_time_ms
    || leb (saturating_sub config.time_limit_ms 50) cpu_time_ms

-- The status from the wait status, the OOM flag, the times and the memory.
unfoldable pub sandbox_status : Libc → SandboxConfig → Bool → ℕ → ℕ → ℕ → ℕ → SandboxStatus
sandbox_status libc config oom_killed status wall_time_ms cpu_time_ms memory_kb =
    if oom_killed
    then SandboxStatus.memory_limit_exceeded
    else if libc.wifexited status
    then (if libc.wexitstatus status == 0
        then (if over_limit config memory_kb
            then SandboxStatus.memory_limit_exceeded
            else SandboxStatus.ok)
        else SandboxStatus.runtime_error (pos (libc.wexitstatus status)))
    else if libc.wifsignaled status
    then (if libc.wtermsig status == libc.sigkill
        then (if out_of_time config wall_time_ms cpu_time_ms
            then SandboxStatus.time_limit_exceeded
            else if over_limit config memory_kb
            then SandboxStatus.memory_limit_exceeded
            else SandboxStatus.time_limit_exceeded)
        else SandboxStatus.signaled (pos (libc.wtermsig status)))
    else SandboxStatus.runtime_error (negsuc 0)

-- `wall_time_ms` is read from the clock by the call.
unfoldable pub build_result :
    Libc → SandboxConfig → Option CgroupStats → ℕ → Rusage → ℕ → ExecutionResult
unfolding sandbox_status Result.new with_cpu_time with_wall_time with_memory
build_result libc config stats status rusage wall_time_ms =
    let memory_kb = peak_kb stats rusage in
    with_memory memory_kb (
      with_wall_time wall_time_ms (
        with_cpu_time (cpu_ms rusage) (
          Result.new
            (sandbox_status libc config (was_oom_killed stats) status wall_time_ms (cpu_ms rusage)
              memory_kb)
            (pos (libc.wexitstatus status)))))

-- One round of the loop: what the slot holds, the clock as the round reads it, and the group's
-- counters if the result is built in it.
pub record Poll : Type 0 where
  pub taken : Option (ℕ × Rusage)
  pub now : ℕ
  pub elapsed : ℕ
  pub wall : ℕ
  pub stats : Option CgroupStats

-- How supervision ends: the result, and how often the process tree was killed.
pub record Ended : Type 0 where
  pub result : ExecutionResult
  pub kills : ℕ

abbrev pub past_grace : Option ℕ → ℕ → Bool
past_grace none now = false
past_grace (some deadline) now = leb deadline now

abbrev pub is_none {ℓ} : {A : Type ℓ} → Option A → Bool
is_none none = true
is_none (some a) = false

-- A round in which the child's exit is there.
abbrev pub on_exit : Libc → SandboxConfig → Option ℕ → ℕ → Poll → ℕ × Rusage → Ended
on_exit libc config kill_grace kills p (status, rusage) = record {
  result = build_result libc config p.stats status rusage p.wall;
  kills = if is_none kill_grace then kills + 1 else kills;
}

-- The deadline of the grace after this round, which may be the one that sets it.
abbrev pub grace_after : SandboxConfig → Option ℕ → Poll → Option ℕ
grace_after config kill_grace p =
    if is_none kill_grace && leb config.wall_time_limit_ms p.elapsed
    then some (p.now + 1000)
    else kill_grace

abbrev pub kills_after : SandboxConfig → Option ℕ → Poll → ℕ → ℕ
kills_after config kill_grace p kills =
    if is_none kill_grace && leb config.wall_time_limit_ms p.elapsed then kills + 1 else kills

-- The loop over the rounds given; `none` when they run out before it ends.
unfoldable pub supervise_from : Libc → SandboxConfig → Option ℕ → ℕ → List Poll → Option Ended
supervise_from libc config kill_grace kills [] = none
supervise_from libc config kill_grace kills (p ∷ ps) =
    let grace = grace_after config kill_grace p in
    let killed = kills_after config kill_grace p kills in
    let rest = supervise_from libc config grace killed ps in
    elim p.taken [
      | some exit ↦ some (on_exit libc config kill_grace kills p exit)
      | none ↦
          if past_grace grace p.now
          then some (record {
            result = build_result libc config p.stats libc.sigkill zeroed p.wall;
            kills = killed;
          })
          else rest
    ]

unfoldable pub supervise : Libc → SandboxConfig → List Poll → Option Ended
unfolding supervise_from
supervise libc config polls = supervise_from libc config none 0 polls
