-- ===== src/Sandbox/Child/Examples.antt =====
-- src/sandbox/child.rs and seccomp.rs: the theorems for a run of a native program, with a kernel that grants all
-- calls but the return to root, and with one that refuses the system call filter.
use akiro.Prelude.{ℕ, ◌+◌, ◌≡◌, refl, Bool, true, false, [], ◌∷◌, map, if◌then◌else◌}
use akiro.Prelude.Text.{Text, codes}
use akiro.Sandbox.Config.{SandboxConfig}
use akiro.Sandbox.Config
use akiro.Sandbox.Kernel.{Call, Log, Kernel, ChildError, Answer, stopped, replaced}
use akiro.Sandbox.Fs.{
  make_root_private, create_ephemeral_root, for_each, bind_twice, bind_readonly, bind_if_there,
  setup_readonly_mounts, create_device_node, setup_dev, setup_proc, setup_workspace, leave_old_root,
  pivot_into_new_root, drop_isolation, setup_steps, setup,
}
use akiro.Sandbox.Seccomp.Denied.{contains, bpf_filter-denies}
use akiro.Sandbox.Seccomp.{
  SeccompAction, Filter, errno, allow, eperm, blocked_syscalls, bpf_filter, blocked_syscall_numbers,
  insert_rules, install,
}
use akiro.Sandbox.Child.{
  ChildProcessPipes, close_child_ends, redirect, redirect_streams, apply_resource_limits,
  apply_environment_sanitization, isolate_network, isolate_fs, enter_work_dir, argv, envp,
  prepare_strings, drop_privileges, verify_drop, confine, run_image, start_program, limit_child,
  setup_child_process, exit_code, child_end,
}
use akiro.Sandbox.Child.Confined.{Confined, replaced-Confined}

abbrev pipes : ChildProcessPipes
pipes = record {
  stdin_read = 3;
  stdin_write = 4;
  stdout_read = 5;
  stdout_write = 6;
  stderr_read = 7;
  stderr_write = 8;
}

abbrev config : SandboxConfig
config = Config.run (codes "/sandbox/a") (codes "/tmp/j") 1500 1000000 64

-- The length of a name stands for its number.
abbrev sys : Text → ℕ
sys [] = 0
sys (c ∷ s) = 7 + sys s

abbrev grants_all : Call → Bool
grants_all (Call.setuid uid) = false
grants_all _ = true

abbrev refuses_filter : Call → Bool
refuses_filter (Call.load_filter rules) = false
refuses_filter _ = true

abbrev kernel : (Call → Bool) → Kernel
kernel grants = record {
  succeeds = λ _ c. grants c;
  exists = λ _ path. true;
  is_dir = λ _ path. true;
  getuid = λ _. 65534;
  geteuid = λ _. 65534;
}

abbrev run : (Call → Bool) → Answer ChildError (Unit {0}) × Log
run grants = setup_child_process sys true (codes "u") config pipes (kernel grants) []

runs : run grants_all ≡ (stopped replaced, (run grants_all).1)
unfolding make_root_private create_ephemeral_root for_each bind_twice bind_readonly bind_if_there
    setup_readonly_mounts create_device_node setup_dev setup_proc setup_workspace leave_old_root
    pivot_into_new_root drop_isolation setup_steps setup bpf_filter blocked_syscall_numbers
    insert_rules install close_child_ends redirect redirect_streams apply_resource_limits
    apply_environment_sanitization isolate_network isolate_fs enter_work_dir argv envp
    prepare_strings drop_privileges verify_drop confine run_image start_program limit_child
    setup_child_process Config.run
runs = refl

replaced-Confined_example : Confined sys (codes "u") config (kernel grants_all) (run grants_all).1
replaced-Confined_example =
    replaced-Confined sys true (codes "u") config pipes (kernel grants_all) (run grants_all).1 runs

exits_with : child_end (run refuses_filter) ≡ exit_code 1
unfolding make_root_private create_ephemeral_root for_each bind_twice bind_readonly bind_if_there
    setup_readonly_mounts create_device_node setup_dev setup_proc setup_workspace leave_old_root
    pivot_into_new_root drop_isolation setup_steps setup bpf_filter blocked_syscall_numbers
    insert_rules install close_child_ends redirect redirect_streams apply_resource_limits
    apply_environment_sanitization isolate_network isolate_fs enter_work_dir argv envp
    prepare_strings drop_privileges verify_drop confine run_image start_program limit_child
    setup_child_process Config.run
exits_with = refl

abbrev one : ℕ
one = 1

abbrev decides : Filter → ℕ → SeccompAction
decides f nr = if contains nr f.rules then f.match_action else f.mismatch_action

bpf_filter-denies_example :
    decides (bpf_filter sys) 42
    ≡ (if contains 42 (map sys blocked_syscalls) then errno eperm else allow)
bpf_filter-denies_example = bpf_filter-denies decides (λ f nr. refl) sys 42
