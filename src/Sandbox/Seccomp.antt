-- ===== src/Sandbox/Seccomp.antt =====
-- src/sandbox/seccomp.rs: the system calls that untrusted code is denied. The numbers of libc and
-- what a filter of `seccompiler` does are parameters.
pub mod Denied
use akiro.Prelude.{ℕ, Bool, true, false, not, ◌||◌, List, [], ◌∷◌, ◌==◌, ltb, if◌then◌else◌, map}
use akiro.Prelude.Text.{Text, codes}
use akiro.Sandbox.Kernel.{Call, Sys, pure, ◌>>=◌, ◌>>◌, must, stop_if, failed}

unfoldable pub blocked_syscalls : List Text
blocked_syscalls =
    codes "ptrace"
    ∷ codes "process_vm_readv"
    ∷ codes "process_vm_writev"
    ∷ codes "mount"
    ∷ codes "umount2"
    ∷ codes "pivot_root"
    ∷ codes "chroot"
    ∷ codes "swapon"
    ∷ codes "swapoff"
    ∷ codes "setns"
    ∷ codes "unshare"
    ∷ codes "init_module"
    ∷ codes "finit_module"
    ∷ codes "delete_module"
    ∷ codes "kexec_load"
    ∷ codes "reboot"
    ∷ codes "bpf"
    ∷ codes "perf_event_open"
    ∷ codes "io_uring_setup"
    ∷ codes "io_uring_enter"
    ∷ codes "io_uring_register"
    ∷ codes "userfaultfd"
    ∷ codes "add_key"
    ∷ codes "keyctl"
    ∷ codes "request_key"
    ∷ codes "settimeofday"
    ∷ codes "clock_settime"
    ∷ codes "adjtimex"
    ∷ codes "clock_adjtime"
    ∷ codes "acct"
    ∷ codes "quotactl"
    ∷ []

-- `libc::SYS_*`, by name.
unfoldable pub blocked_syscall_numbers : (Text → ℕ) → List ℕ
blocked_syscall_numbers sys =
    sys (codes "ptrace")
    ∷ sys (codes "process_vm_readv")
    ∷ sys (codes "process_vm_writev")
    ∷ sys (codes "mount")
    ∷ sys (codes "umount2")
    ∷ sys (codes "pivot_root")
    ∷ sys (codes "chroot")
    ∷ sys (codes "swapon")
    ∷ sys (codes "swapoff")
    ∷ sys (codes "setns")
    ∷ sys (codes "unshare")
    ∷ sys (codes "init_module")
    ∷ sys (codes "finit_module")
    ∷ sys (codes "delete_module")
    ∷ sys (codes "kexec_load")
    ∷ sys (codes "reboot")
    ∷ sys (codes "bpf")
    ∷ sys (codes "perf_event_open")
    ∷ sys (codes "io_uring_setup")
    ∷ sys (codes "io_uring_enter")
    ∷ sys (codes "io_uring_register")
    ∷ sys (codes "userfaultfd")
    ∷ sys (codes "add_key")
    ∷ sys (codes "keyctl")
    ∷ sys (codes "request_key")
    ∷ sys (codes "settimeofday")
    ∷ sys (codes "clock_settime")
    ∷ sys (codes "adjtimex")
    ∷ sys (codes "clock_adjtime")
    ∷ sys (codes "acct")
    ∷ sys (codes "quotactl")
    ∷ []

pub data SeccompAction : Type 0 where
  allow : SeccompAction
  errno : ℕ → SeccompAction

-- A `SeccompFilter`: a listed number with no rule matches unconditionally.
pub record Filter : Type 0 where
  pub rules : List ℕ
  pub mismatch_action : SeccompAction
  pub match_action : SeccompAction

abbrev pub eperm : ℕ
eperm = 1

-- `BTreeMap::insert`: the keys stay sorted and distinct.
abbrev pub insert_rule : ℕ → List ℕ → List ℕ
insert_rule nr [] = nr ∷ []
insert_rule nr (x ∷ xs) =
    if nr == x then x ∷ xs else if ltb nr x then nr ∷ x ∷ xs else x ∷ insert_rule nr xs

unfoldable pub insert_rules : List ℕ → List ℕ → List ℕ
insert_rules [] rules = rules
insert_rules (nr ∷ nrs) rules = insert_rules nrs (insert_rule nr rules)

unfoldable pub bpf_filter : (Text → ℕ) → Filter
unfolding blocked_syscall_numbers insert_rules
bpf_filter sys = record {
  rules = insert_rules (blocked_syscall_numbers sys) [];
  mismatch_action = allow;
  match_action = errno eperm;
}

-- `SeccompProfile::install`; the architecture is known to `seccompiler` or not.
unfoldable pub install : (Text → ℕ) → Bool → Sys Text (Unit {0})
unfolding bpf_filter
install sys known_arch = do
  must (codes "Failed to set PR_SET_NO_NEW_PRIVS") Call.no_new_privs
  stop_if (not known_arch) (failed (codes "Platform not supported"))
  must (codes "Failed to load filter") (Call.load_filter (bpf_filter sys).rules)
