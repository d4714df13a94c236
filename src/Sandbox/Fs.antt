-- ===== src/Sandbox/Fs.antt =====
-- src/sandbox/fs.rs: the jail of a child, made of mounts and entered by `pivot_root`. An error
-- carries what its message names; the text of the kernel's error is left out.
pub mod Scope
pub mod Binds
pub mod Jail
use akiro.Prelude.{
  ℕ, ◌*◌, ◌/◌, Bool, true, false, not, ◌&&◌, Option, none, some, List, [], ◌∷◌, ◌++◌, ◌==◌,
  if◌then◌else◌,
}
use akiro.Prelude.Text.{Text, codes}
use akiro.Prelude.Decimal.{decimal}
use akiro.Prelude.FilePath.{join, parent}
use akiro.Sandbox.Kernel.{
  Call, MountFlag, ms_rec, ms_private, ms_bind, ms_rdonly, ms_remount, FsError,
  root_creation_failed, mount_failed, dir_creation_failed, bind_mount_failed, dev_node_failed,
  pivot_root_failed, Sys, Kernel, Log, pure, ◌>>=◌, ◌>>◌, may, must, ask, stop_if, Stop, failed,
  panicked, exits, replaced, Answer, done, stopped, has_nul, unwrap_c_string, when,
}
use akiro.Sandbox.Kernel.Call.{
  mkdirs, mount, mknod_char, umount_detach, remove_dir_all, rmdir, chdir,
}

abbrev pub Fs : Type 0
Fs = Sys FsError (Unit {0})

abbrev pub root_path : Text → Text
root_path job_id = codes "/tmp/judge_root_" ++ job_id

unfoldable pub make_root_private : Fs
make_root_private =
    must (pivot_root_failed (codes "Failed to make / recursively private"))
      (mount [] (codes "/") [] (ms_rec ∷ ms_private ∷ []) [])

abbrev pub root_options : ℕ → Text
root_options size_bytes =
    codes "size=" ++ decimal (size_bytes / (1024 * 1024)) ++ codes "m,mode=0755"

unfoldable pub create_ephemeral_root : Text → ℕ → Fs
create_ephemeral_root root size_bytes = do
  must (root_creation_failed root) (mkdirs root)
  must (mount_failed root) (mount (codes "tmpfs") root (codes "tmpfs") [] (root_options size_bytes))

-- A loop of calls that stop at the first error.
unfoldable pub for_each : {A : Type 0} → (A → Fs) → List A → Fs
for_each f [] = pure tt
for_each f (x ∷ xs) = do f x; for_each f xs

-- `strip_prefix("/").unwrap_or(path)`.
abbrev pub relative : Text → Text
relative [] = []
relative (c ∷ s) = if c == b'/' then s else c ∷ s

abbrev pub make_parent : Option Text → Fs
make_parent none = pure tt
make_parent (some dir) = may (mkdirs dir)

-- The two passes of a bind mount, with the directory it needs.
unfoldable pub bind_twice : Text → Text → Bool → Fs
bind_twice source target missing_dir = do
  when missing_dir (must (dir_creation_failed target) (mkdirs target))
  unwrap_c_string source
  unwrap_c_string target
  must (bind_mount_failed source) (mount source target [] (ms_bind ∷ ms_rec ∷ []) [])
  must (bind_mount_failed target)
      (mount source target [] (ms_bind ∷ ms_rec ∷ ms_rdonly ∷ ms_remount ∷ []) [])

-- What is done for a read-only path that exists.
unfoldable pub bind_readonly : Text → Text → Fs
unfolding bind_twice
bind_readonly source target = do
  make_parent (parent target)
  missing_dir ← ask (λ k log. not (k.exists log target) && k.is_dir log source)
  bind_twice source target missing_dir

unfoldable pub bind_if_there : Text → Text → Fs
unfolding bind_readonly
bind_if_there root source = do
  there ← ask (λ k log. k.exists log source)
  when there (bind_readonly source (join root (relative source)))

abbrev pub make_dir : Text → Text → Fs
make_dir root dir = must (dir_creation_failed (join root dir)) (mkdirs (join root dir))

abbrev pub required_dirs : List Text
required_dirs = codes "usr" ∷ codes "lib" ∷ codes "lib64" ∷ codes "bin" ∷ codes "etc" ∷ []

unfoldable pub setup_readonly_mounts : Text → List Text → Fs
unfolding for_each bind_if_there
setup_readonly_mounts root read_only_paths = do
  for_each (make_dir root) required_dirs
  for_each (bind_if_there root) read_only_paths

unfoldable pub create_device_node : Text → Text → ℕ → ℕ → Fs
create_device_node dev_path name major minor = do
  stop_if (has_nul (join dev_path name)) (failed (dev_node_failed (codes "Invalid path")))
  must (dev_node_failed name) (mknod_char (join dev_path name) major minor)

unfoldable pub setup_dev : Text → Fs
unfolding create_device_node
setup_dev root = do
  must (dir_creation_failed (codes "/dev")) (mkdirs (join root (codes "dev")))
  must (mount_failed (codes "/dev")) (
      mount (codes "tmpfs") (join root (codes "dev")) (codes "tmpfs") []
        (codes "size=1m,mode=0755"))
  create_device_node (join root (codes "dev")) (codes "null") 1 3
  create_device_node (join root (codes "dev")) (codes "zero") 1 5
  create_device_node (join root (codes "dev")) (codes "urandom") 1 9

unfoldable pub setup_proc : Text → Fs
setup_proc root = do
  must (dir_creation_failed (codes "/proc")) (mkdirs (join root (codes "proc")))
  must (mount_failed (codes "/proc"))
      (mount (codes "proc") (join root (codes "proc")) (codes "proc") [] [])

-- The workspace's own mount: the host's directory, or a file system in memory.
abbrev pub workspace_mount : Text → Option Text → Call
workspace_mount target none =
    mount (codes "tmpfs") target (codes "tmpfs") [] (codes "size=16m,mode=0755")
workspace_mount target (some host_dir) = mount host_dir target [] (ms_bind ∷ ms_rec ∷ []) []

abbrev pub workspace_source : Option Text → Fs
workspace_source none = pure tt
workspace_source (some host_dir) = unwrap_c_string host_dir

abbrev pub workspace_error : Text → Option Text → FsError
workspace_error target none = mount_failed (codes "/sandbox")
workspace_error target (some host_dir) = bind_mount_failed host_dir

unfoldable pub setup_workspace : Text → Option Text → Fs
setup_workspace root host_workspace_dir = do
  must (dir_creation_failed (codes "/sandbox")) (mkdirs (join root (codes "sandbox")))
  workspace_source host_workspace_dir
  must (workspace_error (join root (codes "sandbox")) host_workspace_dir)
      (workspace_mount (join root (codes "sandbox")) host_workspace_dir)

-- None of these results is tested.
unfoldable pub leave_old_root : Fs
leave_old_root = do
  may (umount_detach (codes "/.old_root"))
  may (mount [] (codes "/") [] (ms_bind ∷ ms_remount ∷ ms_rdonly ∷ []) [])
  may (rmdir (codes "/.old_root"))

unfoldable pub pivot_into_new_root : Text → Fs
unfolding leave_old_root
pivot_into_new_root root = do
  must (dir_creation_failed (codes ".old_root")) (mkdirs (join root (codes ".old_root")))
  must (pivot_root_failed (codes "pivot_root failed"))
      (Call.pivot_root root (join root (codes ".old_root")))
  must (pivot_root_failed (codes "Failed to chdir to /sandbox")) (chdir (codes "/sandbox"))
  leave_old_root

-- `FsIsolation::drop`.
unfoldable pub drop_isolation : {E : Type 0} → Text → Sys E (Unit {0})
drop_isolation root = do
  when (not (has_nul root)) (may (umount_detach root))
  may (remove_dir_all root)

-- A jail in scope is dropped by an error; an exit, a new image and a panic, which aborts in a
-- release build, drop nothing.
abbrev pub leave_scope : {E A : Type 0} → Text → Kernel → Answer E A × Log → Answer E A × Log
leave_scope root k (done a, log) = (done a, log)
leave_scope root k (stopped (failed e), log) =
    (stopped (failed e), (drop_isolation {E = FsError} root k log).1)
leave_scope root k (stopped (exits n), log) = (stopped (exits n), log)
leave_scope root k (stopped panicked, log) = (stopped panicked, log)
leave_scope root k (stopped replaced, log) = (stopped replaced, log)

abbrev pub in_scope : {E A : Type 0} → Bool → Text → Sys E A → Sys E A
in_scope true root m k log = leave_scope root k (m k log)
in_scope false root m k log = m k log

unfoldable pub setup_steps : Text → Option Text → ℕ → List Text → Fs
unfolding make_root_private create_ephemeral_root setup_readonly_mounts setup_dev setup_proc
    setup_workspace pivot_into_new_root
setup_steps root host_workspace_dir workdir_size_bytes read_only_paths = do
  make_root_private
  create_ephemeral_root root workdir_size_bytes
  setup_readonly_mounts root read_only_paths
  setup_dev root
  setup_proc root
  setup_workspace root host_workspace_dir
  pivot_into_new_root root

-- `FsIsolation::setup`.
unfoldable pub setup : Text → Option Text → ℕ → List Text → Fs
unfolding setup_steps
setup job_id host_workspace_dir workdir_size_bytes read_only_paths =
    in_scope true (root_path job_id)
      (setup_steps (root_path job_id) host_workspace_dir workdir_size_bytes read_only_paths)
