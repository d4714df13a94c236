-- ===== src/Sandbox/Execute/Outcome.antt =====
-- src/sandbox/mod.rs: how a sandboxed run can end.
use akiro.Prelude.{ℕ, ◌+◌, ◌≡◌, refl, ap, List, [], ◌∷◌, ◌++◌, leb, if_both, All}
use akiro.Prelude.Result.{Result, ok, err}
use akiro.Prelude.Text.{Text}
use akiro.Sandbox.Config.{SandboxConfig}
use akiro.Sandbox.Result.{ExecutionResult}
use akiro.Sandbox.Admission.{units_for}
use akiro.Sandbox.Execute.{
  SandboxError, ForkAnswer, forked, try_again, refused, CgroupAnswer, made, panicked, not_made,
  Host, Effect, acquired, released, slept, child_started, registered, unregistered, attached,
  killed, supervised, Execution, fork_loop, with_jail, jail_removal, after_attach, after_fork,
  with_cgroup, with_pipes, execute,
}

abbrev pub IsSleep : Effect → Type 0
IsSleep (slept ms) = Unit
IsSleep _ = ⊥

-- No child; a child that ran in its group under supervision; or a child that could not be put in
-- its group, killed.
pub data Ending (config : SandboxConfig)
    : List Effect → Result SandboxError ExecutionResult → Type 0 where
  no_child : (e : SandboxError) → Ending config [] (err e)
  ran :
      (pid : ℕ) (res : Result SandboxError ExecutionResult)
      → Ending config
          (child_started pid
            ∷ registered pid
            ∷ attached pid
            ∷ supervised pid
            ∷ unregistered pid
            ∷ jail_removal config)
          res
  turned_away :
      (pid : ℕ) (e : SandboxError)
      → Ending config
          (child_started pid ∷ registered pid ∷ killed pid ∷ unregistered pid ∷ [])
          (err e)

abbrev EndsWell : SandboxConfig → Execution → Type 0
EndsWell config x =
    (waits : List Effect) × (tail : List Effect) × (x.effects ≡ waits ++ tail)
    × All IsSleep waits
    × Ending config tail x.result

fork_loop-IsSleep :
    (k : ℕ) (answer : ForkAnswer) (more : List ForkAnswer) → All IsSleep (fork_loop k answer more).0
unfolding fork_loop
fork_loop-IsSleep k (forked pid) more = tt
fork_loop-IsSleep k (refused e) more = tt
fork_loop-IsSleep k try_again [] = tt
fork_loop-IsSleep k try_again (answer ∷ more) =
    if_both (λ (r : List Effect × ForkAnswer). All IsSleep r.0) (leb 10 k) tt
      (tt, fork_loop-IsSleep (k + 1) answer more)

after_attach-Ending :
    (host : Host) (config : SandboxConfig) (pid : ℕ) (o : Result Text (Unit {0}))
    → let x = after_attach host config pid o in
      Ending config (child_started pid ∷ registered pid ∷ x.effects) x.result
unfolding after_attach
after_attach-Ending host config pid (err e) = turned_away pid _
after_attach-Ending host config pid (ok _) = ran pid _

after_fork-Ending :
    (host : Host) (config : SandboxConfig) (answer : ForkAnswer)
    → let x = after_fork host config answer in Ending config x.effects x.result
unfolding after_fork
after_fork-Ending host config (refused e) = no_child _
after_fork-Ending host config try_again = no_child _
after_fork-Ending host config (forked pid) = after_attach-Ending host config pid (host.attach pid)

with_cgroup-EndsWell :
    (host : Host) (config : SandboxConfig) (c : CgroupAnswer)
    → EndsWell config (with_cgroup host config c)
unfolding with_cgroup
with_cgroup-EndsWell host config (not_made e) = ([], [], refl, tt, no_child _)
with_cgroup-EndsWell host config panicked = ([], [], refl, tt, no_child _)
with_cgroup-EndsWell host config made = (
  (fork_loop 0 host.fork host.fork_again).0,
  _,
  refl,
  fork_loop-IsSleep 0 host.fork host.fork_again,
  after_fork-Ending host config (fork_loop 0 host.fork host.fork_again).1,
)

with_pipes-EndsWell :
    (host : Host) (config : SandboxConfig) (o : Result Text (Unit {0}))
    → EndsWell config (with_pipes host config o)
unfolding with_pipes
with_pipes-EndsWell host config (err e) = ([], [], refl, tt, no_child _)
with_pipes-EndsWell host config (ok _) = with_cgroup-EndsWell host config host.cgroup

-- Every sandboxed run holds its units of the memory budget from its first effect to its last. In
-- between it may wait for a fork, and then starts no child and fails, or has its child attached to
-- its group and supervised, or kills the child that could not be attached and fails; a child is
-- registered before that, and unregistered after. The directory of the jail of a child that ran is
-- then removed, if the configuration has one.
pub execute-Ending :
    (host : Host) (config : SandboxConfig)
    → let x = execute host config in
      let units = units_for host.total_units config.memory_limit_bytes in
      (waits : List Effect) × (tail : List Effect) × (x.effects
        ≡ acquired units ∷ ((waits ++ tail) ++ (released units ∷ [])))
      × All IsSleep waits
      × Ending (with_jail host.uuid config) tail x.result
unfolding execute
execute-Ending host config =
    let units = units_for host.total_units config.memory_limit_bytes in
    let (waits, tail, e, s, done) =
      with_pipes-EndsWell host (with_jail host.uuid config) host.pipes in
    (waits, tail, ap (λ l. acquired units ∷ (l ++ (released units ∷ []))) e, s, done)
