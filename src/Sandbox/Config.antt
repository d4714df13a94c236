-- ===== src/Sandbox/Config.antt =====
-- src/sandbox/config.rs: the configuration of one sandboxed process and its builder methods.
-- Paths are texts, byte vectors are lists of numbers below 256.
use akiro.Prelude.{ℕ, Bool, true, false, Option, none, some, List, [], ◌∷◌, ltb, if◌then◌else◌}
use akiro.Prelude.Text.{Text, codes}
use akiro.Prelude.Word.{saturating_add, saturating_mul, mebibytes}

pub data ExecutionProfile : Type 0 where
  compile_phase run_phase : ExecutionProfile

pub record SandboxConfig : Type 0 where
  pub executable_path : Text
  pub args : List Text
  pub stdin_data : Option (List ℕ)
  pub time_limit_ms : ℕ
  pub wall_time_limit_ms : ℕ
  pub memory_limit_bytes : ℕ
  pub max_output_bytes : ℕ
  pub work_dir : Option Text
  pub profile : ExecutionProfile
  pub pids_limit : ℕ
  pub cpu_max_percent : Option ℕ
  pub enable_network_isolation : Bool
  pub enable_fs_isolation : Bool
  pub workspace_dir : Option Text
  pub fs_readonly_paths : List Text
  pub fs_workdir_size_bytes : ℕ
  pub jail_id : Text

abbrev readonly_paths : List Text
readonly_paths =
    codes "/usr" ∷ codes "/lib" ∷ codes "/lib64" ∷ codes "/bin" ∷ codes "/etc/alternatives" ∷ []

unfoldable pub new : Text → SandboxConfig
new executable_path = record {
  executable_path = executable_path;
  args = [];
  stdin_data = none;
  time_limit_ms = 1000;
  wall_time_limit_ms = 3000;
  memory_limit_bytes = mebibytes 256;
  max_output_bytes = mebibytes 10;
  work_dir = none;
  profile = run_phase;
  pids_limit = 128;
  cpu_max_percent = none;
  enable_network_isolation = true;
  enable_fs_isolation = true;
  workspace_dir = none;
  fs_readonly_paths = readonly_paths;
  fs_workdir_size_bytes = mebibytes 16;
  jail_id = [];
}

unfoldable pub compile : Text → Text → SandboxConfig
compile executable_path work_dir = record {
  executable_path = executable_path;
  args = [];
  stdin_data = none;
  time_limit_ms = 15000;
  wall_time_limit_ms = 30000;
  memory_limit_bytes = mebibytes 1024;
  max_output_bytes = mebibytes 10;
  work_dir = some work_dir;
  profile = compile_phase;
  pids_limit = 128;
  cpu_max_percent = none;
  enable_network_isolation = false;
  enable_fs_isolation = false;
  workspace_dir = some work_dir;
  fs_readonly_paths = [];
  fs_workdir_size_bytes = 0;
  jail_id = [];
}

unfoldable pub run : Text → Text → ℕ → ℕ → ℕ → SandboxConfig
run executable_path workspace_dir time_limit_ms memory_limit_bytes pids_limit = record {
  executable_path = executable_path;
  args = [];
  stdin_data = none;
  time_limit_ms = time_limit_ms;
  wall_time_limit_ms = saturating_add (saturating_mul time_limit_ms 2) 1000;
  memory_limit_bytes = memory_limit_bytes;
  max_output_bytes = mebibytes 10;
  work_dir = some (codes "/sandbox");
  profile = run_phase;
  pids_limit = pids_limit;
  cpu_max_percent = none;
  enable_network_isolation = true;
  enable_fs_isolation = true;
  workspace_dir = some workspace_dir;
  fs_readonly_paths = readonly_paths;
  fs_workdir_size_bytes = mebibytes 16;
  jail_id = [];
}

-- The builder methods take the configuration last, so that a chain reads from the inside out.
unfoldable pub with_args : List Text → SandboxConfig → SandboxConfig
with_args args c = record c { args = args }

unfoldable pub with_stdin : List ℕ → SandboxConfig → SandboxConfig
with_stdin bytes c = record c { stdin_data = some bytes }

unfoldable pub with_time_limit : ℕ → SandboxConfig → SandboxConfig
with_time_limit ms c = record c {
  time_limit_ms = ms;
  wall_time_limit_ms = saturating_add (saturating_mul ms 2) 1000;
}

unfoldable pub with_wall_time_limit : ℕ → SandboxConfig → SandboxConfig
with_wall_time_limit ms c = record c { wall_time_limit_ms = ms }

unfoldable pub with_memory_limit : ℕ → SandboxConfig → SandboxConfig
with_memory_limit bytes c = record c { memory_limit_bytes = bytes }

unfoldable pub with_max_output : ℕ → SandboxConfig → SandboxConfig
with_max_output bytes c = record c { max_output_bytes = bytes }

unfoldable pub with_work_dir : Text → SandboxConfig → SandboxConfig
with_work_dir dir c = record c { work_dir = some dir }

unfoldable pub with_profile : ExecutionProfile → SandboxConfig → SandboxConfig
with_profile profile c = record c { profile = profile }

unfoldable pub with_pids_limit : ℕ → SandboxConfig → SandboxConfig
with_pids_limit limit c = record c { pids_limit = limit }

-- `Option::filter` by `p > 0`.
abbrev pub positive : Option ℕ → Option ℕ
positive none = none
positive (some p) = if ltb 0 p then some p else none

unfoldable pub with_cpu_max_percent : Option ℕ → SandboxConfig → SandboxConfig
with_cpu_max_percent percent c = record c { cpu_max_percent = positive percent }

unfoldable pub with_network_isolation : Bool → SandboxConfig → SandboxConfig
with_network_isolation enabled c = record c { enable_network_isolation = enabled }

unfoldable pub with_workspace_dir : Text → SandboxConfig → SandboxConfig
with_workspace_dir dir c = record c { workspace_dir = some dir }

unfoldable pub with_fs_isolation : Bool → SandboxConfig → SandboxConfig
with_fs_isolation enabled c = record c { enable_fs_isolation = enabled }

unfoldable pub with_fs_readonly_paths : List Text → SandboxConfig → SandboxConfig
with_fs_readonly_paths paths c = record c { fs_readonly_paths = paths }

unfoldable pub with_fs_workdir_size : ℕ → SandboxConfig → SandboxConfig
with_fs_workdir_size bytes c = record c { fs_workdir_size_bytes = bytes }

unfoldable pub with_jail_id : Text → SandboxConfig → SandboxConfig
with_jail_id jail_id c = record c { jail_id = jail_id }
