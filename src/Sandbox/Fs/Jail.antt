-- ===== src/Sandbox/Fs/Jail.antt =====
-- src/sandbox/fs.rs: what has succeeded once `setup` is done.
use akiro.Prelude.{ℕ, true, Option, none, some, List, [], ◌∷◌, ◌++◌}
use akiro.Prelude.Text.{Text, codes}
use akiro.Prelude.FilePath.{join}
use akiro.Sandbox.Kernel.{Call, Kernel, Log, ◌>>◌, ms_rec, ms_private, FsError}
use akiro.Sandbox.Kernel.Call.{mount, mknod_char, chdir}
use akiro.Sandbox.Kernel.Logic.{Seen, Keeps, Keeps-go_on, Keeps-weaken}
use akiro.Sandbox.Kernel.Adds.{
  Adds, Adds-then, Adds-must, Adds-stop_if, Adds-weak, Adds-pure, Adds-unwrap,
}
use akiro.Sandbox.Fs.Scope.{in_scope-Keeps}
use akiro.Sandbox.Fs.{
  root_path, root_options, make_root_private, create_ephemeral_root, setup_readonly_mounts,
  create_device_node, setup_dev, setup_proc, workspace_mount, workspace_source, setup_workspace,
  leave_old_root, pivot_into_new_root, setup_steps, setup,
}
use akiro.Sandbox.Fs.Binds.{Bound, BoundTo, setup_readonly_mounts-Keeps}

Adds-create_device_node :
    (dev name : Text) (major minor : ℕ)
    → Adds (mknod_char (join dev name) major minor ∷ []) (create_device_node dev name major minor)
unfolding create_device_node
Adds-create_device_node dev name major minor =
    Adds-then [] (_ ∷ []) _ _ (Adds-stop_if _ _ tt) (Adds-must _ _)

abbrev pub dev_mount : Text → Call
dev_mount root =
    mount (codes "tmpfs") (join root (codes "dev")) (codes "tmpfs") [] (codes "size=1m,mode=0755")

abbrev pub dev_nodes : Text → List Call
dev_nodes dev =
    mknod_char (join dev (codes "urandom")) 1 9
    ∷ mknod_char (join dev (codes "zero")) 1 5
    ∷ mknod_char (join dev (codes "null")) 1 3
    ∷ []

abbrev pub dev_calls : Text → List Call
dev_calls root = dev_nodes (join root (codes "dev")) ++ (dev_mount root ∷ [])

Adds-setup_dev : (root : Text) → Adds (dev_calls root) (setup_dev root)
unfolding setup_dev
Adds-setup_dev root = Adds-then [] (dev_calls root) _ _ (Adds-weak _ _) (
    Adds-then (dev_mount root ∷ []) (dev_nodes dev) _ _ (Adds-must _ _) (
      Adds-then (_ ∷ []) (_ ∷ _ ∷ []) _ _ (Adds-create_device_node dev (codes "null") 1 3) (
        Adds-then (_ ∷ []) (_ ∷ []) _ _ (Adds-create_device_node dev (codes "zero") 1 5)
          (Adds-create_device_node dev (codes "urandom") 1 9))))
  where
    dev : Text
    dev = join root (codes "dev")

abbrev pub proc_mount : Text → Call
proc_mount root = mount (codes "proc") (join root (codes "proc")) (codes "proc") [] []

Adds-setup_proc : (root : Text) → Adds (proc_mount root ∷ []) (setup_proc root)
unfolding setup_proc
Adds-setup_proc root = Adds-then [] (proc_mount root ∷ []) _ _ (Adds-weak _ _) (Adds-must _ _)

Adds-workspace_source : (o : Option Text) → Adds [] (workspace_source o)
Adds-workspace_source none = Adds-pure FsError
Adds-workspace_source (some dir) = Adds-unwrap FsError dir

Adds-setup_workspace :
    (root : Text) (o : Option Text)
    → Adds (workspace_mount (join root (codes "sandbox")) o ∷ []) (setup_workspace root o)
unfolding setup_workspace
Adds-setup_workspace root o =
    Adds-then [] (_ ∷ []) _ _ (Adds-weak _ _)
      (Adds-then [] (_ ∷ []) _ _ (Adds-workspace_source o) (Adds-must _ _))

abbrev pub pivoted : Text → List Call
pivoted root = chdir (codes "/sandbox") ∷ Call.pivot_root root (join root (codes ".old_root")) ∷ []

Adds-leave_old_root : Adds [] leave_old_root
unfolding leave_old_root
Adds-leave_old_root k cs log h = Seen.between (Seen.between (Seen.between h))

Adds-pivot_into_new_root : (root : Text) → Adds (pivoted root) (pivot_into_new_root root)
unfolding pivot_into_new_root
Adds-pivot_into_new_root root = Adds-then [] (pivoted root) _ _ (Adds-weak _ _) (
    Adds-then (_ ∷ []) (_ ∷ []) _ _ (Adds-must _ _)
      (Adds-then (_ ∷ []) [] _ _ (Adds-must _ _) Adds-leave_old_root))

abbrev pub private_root : Call
private_root = mount [] (codes "/") [] (ms_rec ∷ ms_private ∷ []) []

abbrev pub root_mount : Text → ℕ → Call
root_mount root size = mount (codes "tmpfs") root (codes "tmpfs") [] (root_options size)

-- The calls that a jail rests on, the last of them first.
abbrev from_workspace : Text → Option Text → List Call
from_workspace root workspace =
    pivoted root ++ (workspace_mount (join root (codes "sandbox")) workspace ∷ [])

abbrev pub from_dev : Text → Option Text → List Call
from_dev root workspace = from_workspace root workspace ++ (proc_mount root ∷ dev_calls root)

-- After the calls of the first list, those of a jail have succeeded.
abbrev pub InJail : Kernel → Text → Option Text → ℕ → List Text → List Call → Log → Type 0
InJail k root workspace size paths cs l =
    (all : List Call) × Bound k root paths (root_mount root size ∷ private_root ∷ cs) all
    × Seen (from_dev root workspace ++ all) l

Adds-create_ephemeral_root :
    (root : Text) (size : ℕ) → Adds (root_mount root size ∷ []) (create_ephemeral_root root size)
unfolding create_ephemeral_root
Adds-create_ephemeral_root root size =
    Adds-then [] (root_mount root size ∷ []) _ _ (Adds-weak _ _) (Adds-must _ _)

Adds-make_root_private : Adds (private_root ∷ []) make_root_private
unfolding make_root_private
Adds-make_root_private = Adds-must _ _

-- From the devices on.
from_dev-Adds :
    (root : Text) (workspace : Option Text)
    → Adds (from_dev root workspace) (
        setup_dev root
        >> (setup_proc root >> (setup_workspace root workspace >> pivot_into_new_root root)))
from_dev-Adds root workspace =
    Adds-then (dev_calls root) (from_workspace root workspace ++ (proc_mount root ∷ [])) _ _
      (Adds-setup_dev root)
      (Adds-then (proc_mount root ∷ []) (from_workspace root workspace) _ _ (Adds-setup_proc root) (
        Adds-then (workspace_mount (join root (codes "sandbox")) workspace ∷ []) (pivoted root) _ _
          (Adds-setup_workspace root workspace) (Adds-pivot_into_new_root root)))

from_binds-Keeps :
    (root : Text) (workspace : Option Text) (paths : List Text) (k : Kernel) (cs : List Call)
    (log : Log)
    → Seen cs log
    → Keeps
        (λ _ l.
          (all : List Call) × Bound k root paths cs all × Seen (from_dev root workspace ++ all) l)
        ((setup_readonly_mounts root paths
            >> (setup_dev root
                >> (setup_proc root
                    >> (setup_workspace root workspace >> pivot_into_new_root root))))
          k log)
from_binds-Keeps root workspace paths k cs log h =
    let rest =
      setup_dev root
      >> (setup_proc root >> (setup_workspace root workspace >> pivot_into_new_root root)) in
    let Q : Unit {0} → Log → Type 0 = λ _ l.
      (all : List Call) × Bound k root paths cs all × Seen (from_dev root workspace ++ all) l in
    Keeps-go_on k (λ _. rest) (λ _ l. BoundTo k root paths cs l) Q
      (setup_readonly_mounts root paths k log) (setup_readonly_mounts-Keeps root paths k cs log h)
      (λ _ l (all, b, seen).
        Keeps-weaken (λ _ l'. Seen (from_dev root workspace ++ all) l') Q (rest k l)
          (from_dev-Adds root workspace k all l seen) (λ _ l' s. (all, b, s)))

setup_steps-Keeps :
    (root : Text) (workspace : Option Text) (size : ℕ) (paths : List Text) (k : Kernel)
    (cs : List Call) (log : Log)
    → Seen cs log
    → Keeps
        (λ _ l. InJail k root workspace size paths cs l)
        (setup_steps root workspace size paths k log)
unfolding setup_steps
setup_steps-Keeps root workspace size paths k cs log h =
    let rest =
      setup_readonly_mounts root paths
      >> (setup_dev root
          >> (setup_proc root >> (setup_workspace root workspace >> pivot_into_new_root root))) in
    let Q : Unit {0} → Log → Type 0 = λ _ l. InJail k root workspace size paths cs l in
    Keeps-go_on k (λ _. create_ephemeral_root root size >> rest) (λ _ l. Seen (private_root ∷ cs) l)
      Q (make_root_private k log) (Adds-make_root_private k cs log h)
      (λ _ l s.
        Keeps-go_on k (λ _. rest) (λ _ l'. Seen (root_mount root size ∷ private_root ∷ cs) l') Q
          (create_ephemeral_root root size k l)
          (Adds-create_ephemeral_root root size k (private_root ∷ cs) l s)
          (λ _ l' s'.
            from_binds-Keeps root workspace paths k (root_mount root size ∷ private_root ∷ cs) l'
              s'))

pub setup-Keeps :
    (id : Text) (workspace : Option Text) (size : ℕ) (paths : List Text) (k : Kernel)
    (cs : List Call) (log : Log)
    → Seen cs log
    → Keeps
        (λ _ l. InJail k (root_path id) workspace size paths cs l)
        (setup id workspace size paths k log)
unfolding setup
setup-Keeps id workspace size paths k cs log h =
    in_scope-Keeps true (root_path id) (setup_steps (root_path id) workspace size paths)
      (λ _ l. InJail k (root_path id) workspace size paths cs l) k log
      (setup_steps-Keeps (root_path id) workspace size paths k cs log h)
