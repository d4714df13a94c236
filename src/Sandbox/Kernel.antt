-- ===== src/Sandbox/Kernel.antt =====
-- src/sandbox/child.rs, fs.rs, seccomp.rs and cgroups.rs: what the child asks of the kernel between
-- fork and exec, and the parent for its control group, in a monad that logs each call with its
-- success. The kernel itself is a parameter.
pub mod Logic
pub mod Adds
use akiro.Prelude.{
  ℕ, Bool, true, false, Option, none, some, List, [], ◌∷◌, ◌==◌, ◌||◌, if◌then◌else◌,
}
use akiro.Prelude.Int.{ℤ}
use akiro.Prelude.Text.{Text}

-- RLIMIT_CPU, RLIMIT_FSIZE and RLIMIT_STACK.
pub data Limit : Type 0 where
  cpu fsize stack : Limit

-- The flags of `mount` that the child uses.
pub data MountFlag : Type 0 where
  ms_rec ms_private ms_bind ms_rdonly ms_remount : MountFlag

pub data Call : Type 0 where
  close setpgid_self : ℕ → Call
  dup2 : ℕ → ℕ → Call
  setrlimit : Limit → ℕ → Call
  clearenv : Call
  setenv : Text → Text → Call
  unshare_net_ipc unshare_mounts : Call
  chdir mkdirs rmdir umount_detach remove_dir_all : Text → Call
  -- The source, the target, the type of the file system, the flags and the options.
  mount : Text → Text → Text → List MountFlag → Text → Call
  -- The path and the major and minor numbers of a character device with mode 666.
  mknod_char : Text → ℕ → ℕ → Call
  pivot_root : Text → Text → Call
  no_new_privs : Call
  -- The numbers that the filter denies.
  load_filter : List ℕ → Call
  setgroups_none : Call
  -- The real, the effective and the saved id.
  setresgid setresuid : ℕ → ℕ → ℕ → Call
  setuid : ℕ → Call
  -- Opening a file for writing, and writing it: the path and the contents.
  write_file : Text → Text → Call
  -- SIGKILL, to the process or the group that the number names.
  kill : ℤ → Call
  -- The path, the arguments and the environment.
  execve : Text → List Text → List Text → Call

-- The calls so far, the last one first, each with its success.
abbrev pub Log : Type 0
Log = List (Call × Bool)

pub record Kernel : Type 0 where
  pub succeeds : Log → Call → Bool
  pub exists : Log → Text → Bool
  pub is_dir : Log → Text → Bool
  pub getuid : Log → ℕ
  pub geteuid : Log → ℕ

pub data FsError : Type 0 where
  root_creation_failed mount_failed dir_creation_failed bind_mount_failed dev_node_failed :
      Text → FsError
  pivot_root_failed : Text → FsError

pub data ChildError : Type 0 where
  rlimit_error chdir_error execve_error namespace_error seccomp_error priv_drop_error :
      Text → ChildError
  isolation_error : FsError → ChildError

-- Why a computation does not go on: an error, an exit, a panic, or a new process image.
pub data Stop (E : Type 0) : Type 0 where
  failed : E → Stop E
  exits : ℕ → Stop E
  panicked replaced : Stop E

pub data Answer (E A : Type 0) : Type 0 where
  done : A → Answer E A
  stopped : Stop E → Answer E A

abbrev pub Sys : Type 0 → Type 0 → Type 0
Sys E A = Kernel → Log → Answer E A × Log

module _ {E : Type 0} where
  abbrev pub pure : {A : Type 0} → A → Sys E A
  pure a k log = (done a, log)

  abbrev pub stop : {A : Type 0} → Stop E → Sys E A
  stop s k log = (stopped s, log)

  abbrev pub go_on : {A B : Type 0} → Kernel → (A → Sys E B) → Answer E A × Log → Answer E B × Log
  go_on k f (done a, log) = f a k log
  go_on k f (stopped s, log) = (stopped s, log)

  infixl 5 ◌>>=◌ ◌>>◌
  abbrev pub ◌>>=◌ : {A B : Type 0} → Sys E A → (A → Sys E B) → Sys E B
  ◌>>=◌ m f k log = go_on k f (m k log)

  abbrev pub ◌>>◌ : {B : Type 0} → Sys E (Unit {0}) → Sys E B → Sys E B
  m >> n = m >>= λ _. n

  -- A call whose result is ignored.
  abbrev pub may : Call → Sys E (Unit {0})
  may c k log = (done tt, (c, k.succeeds log c) ∷ log)

  -- A call whose result is tested by the code that follows.
  abbrev pub try_call : Call → Sys E Bool
  try_call c k log = (done (k.succeeds log c), (c, k.succeeds log c) ∷ log)

  abbrev pub ask : {A : Type 0} → (Kernel → Log → A) → Sys E A
  ask q k log = (done (q k log), log)

  -- A call whose failure stops with an error.
  abbrev pub answered : Bool → E → Answer E (Unit {0})
  answered true e = done tt
  answered false e = stopped (failed e)

  abbrev pub must : E → Call → Sys E (Unit {0})
  must e c k log = (answered (k.succeeds log c) e, (c, k.succeeds log c) ∷ log)

  abbrev pub stop_if : Bool → Stop E → Sys E (Unit {0})
  stop_if b s = if b then stop s else pure tt

  abbrev pub when : Bool → Sys E (Unit {0}) → Sys E (Unit {0})
  when b m = if b then m else pure tt

-- `map_err`.
abbrev pub map_stop : {E F : Type 0} → (E → F) → Stop E → Stop F
map_stop f (failed e) = failed (f e)
map_stop f (exits n) = exits n
map_stop f panicked = panicked
map_stop f replaced = replaced

abbrev pub convert : {E F A : Type 0} → (E → F) → Answer E A × Log → Answer F A × Log
convert f (done a, log) = (done a, log)
convert f (stopped s, log) = (stopped (map_stop f s), log)

abbrev pub map_err : {E F A : Type 0} → (E → F) → Sys E A → Sys F A
map_err f m k log = convert f (m k log)

-- `CString::new`, which a NUL byte defeats, and its `unwrap`.
abbrev pub has_nul : Text → Bool
has_nul [] = false
has_nul (c ∷ s) = c == 0 || has_nul s

abbrev pub unwrap_c_string : {E : Type 0} → Text → Sys E (Unit {0})
unwrap_c_string s = stop_if (has_nul s) panicked
