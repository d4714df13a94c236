-- ===== src/Sandbox/Cgroup/Removal.antt =====
-- src/sandbox/cgroups.rs: a group from its making to its removal, on the calls of Sandbox.Kernel.
use akiro.Prelude.{
  ℕ, Bool, true, false, not, Option, none, some, List, [], ◌∷◌, ◌==◌, if◌then◌else◌,
}
use akiro.Prelude.Int.{ℤ, pos, neg}
use akiro.Prelude.Text.{Text, codes, parse_digits, parse_unsigned}
use akiro.Prelude.Pieces.{lines}
use akiro.Prelude.FilePath.{join}
use akiro.Sandbox.Config.{SandboxConfig}
use akiro.Sandbox.Kernel.{
  Log, Kernel, Answer, done, stopped, failed, exits, panicked, replaced, pure, stop, ◌>>=◌, ◌>>◌,
  may, must, try_call, ask, when,
}
use akiro.Sandbox.Kernel.Call.{mkdirs, rmdir, write_file, kill}
use akiro.Sandbox.Cgroup.{Cgroup, CgroupError, not_available, cleanup_failed, create}

-- `str::parse` at an `i32`.
abbrev pub negative : Option ℕ → Option ℤ
negative none = none
negative (some n) = some (neg n)

abbrev pub positive : Option ℕ → Option ℤ
positive none = none
positive (some n) = some (pos n)

abbrev pub parse_i32 : Text → Option ℤ
parse_i32 [] = none
parse_i32 (c ∷ []) = positive (parse_unsigned 2147483647 (c ∷ []))
parse_i32 (c ∷ d ∷ s) =
    if c == b'-'
    then negative (parse_digits 2147483648 0 (d ∷ s))
    else positive (parse_unsigned 2147483647 (c ∷ d ∷ s))

abbrev pub kill_line : Option ℤ → Cgroup
kill_line none = pure tt
kill_line (some pid) = may (kill pid)

unfoldable pub kill_listed : List Text → Cgroup
kill_listed [] = pure tt
kill_listed (line ∷ rest) = kill_line (parse_i32 line) >> kill_listed rest

abbrev pub kill_procs : Option Text → Cgroup
kill_procs none = pure tt
kill_procs (some contents) = kill_listed (lines contents)

-- `procs` is what cgroup.procs holds, if it can be read.
unfoldable pub kill_all : Text → Option Text → Cgroup
unfolding kill_listed
kill_all group procs =
    may (write_file (join group (codes "cgroup.kill")) (codes "1\n")) >> kill_procs procs

abbrev pub remove_again : Text → Bool → Bool → Cgroup
remove_again group busy true = pure tt
remove_again group true false = must (cleanup_failed group) (rmdir group)
remove_again group false false = stop (failed (cleanup_failed group))

-- `busy` says whether a removal that fails does so with EBUSY.
unfoldable pub cleanup : Text → Option Text → Bool → Cgroup
unfolding kill_all
cleanup group procs busy = do
  kill_all group procs
  removed ← try_call (rmdir group)
  remove_again group busy removed

-- A manager in scope is dropped by an error; a release build drops nothing on a panic or an exit.
abbrev pub drop_manager :
    Text
    → Option Text
    → Bool
    → Kernel
    → Answer CgroupError (Unit {0}) × Log
    → Answer CgroupError (Unit {0}) × Log
drop_manager group procs busy k (done v, log) = (done v, log)
drop_manager group procs busy k (stopped (failed e), log) =
    (stopped (failed e), (cleanup group procs busy k log).1)
drop_manager group procs busy k (stopped (exits n), log) = (stopped (exits n), log)
drop_manager group procs busy k (stopped panicked, log) = (stopped panicked, log)
drop_manager group procs busy k (stopped replaced, log) = (stopped replaced, log)

abbrev pub owned : Text → Option Text → Bool → Cgroup → Cgroup
owned group procs busy m k log = drop_manager group procs busy k (m k log)

abbrev pub cgroup_root : Text
cgroup_root = codes "/sys/fs/cgroup/judge"

-- `CgroupManager::new`, with the identifier that `Uuid::new_v4` draws.
unfoldable pub new : Text → SandboxConfig → Option Text → Bool → Cgroup
unfolding create cleanup
new uuid config procs busy = do
  there ← ask (λ k log. k.exists log cgroup_root)
  when (not there) (must (not_available cgroup_root) (mkdirs cgroup_root))
  owned (join cgroup_root uuid) procs busy (create (join cgroup_root uuid) config)
